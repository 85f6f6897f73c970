-- ===== src/Sha3.antt =====
-- The conditioning component, src/jitterentropy-sha3.c: the Keccak permutation, the sponge and
-- XDRBG-256.
pub mod Keccak
pub mod Sponge
pub mod Xdrbg
pub mod Selftest
pub mod Buffer
pub mod Bytes
pub mod Message
pub mod Absorb
pub mod Update
pub mod Padding
pub mod Digest
pub mod Generator
pub mod Lanes
mod Tests
