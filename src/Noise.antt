-- ===== src/Noise.antt =====
-- The noise sources and the collection of one block, src/jitterentropy-noise.c: the parts that
-- read the clock, the three measurements, and the loop over them.
pub mod Sources
pub mod Measure
pub mod Collect
pub mod Kept
pub mod Blocked
pub mod Returns
pub mod Steady
pub mod Bounded
pub mod Measured
pub mod Recovery
pub mod Collected
