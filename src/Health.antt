-- ===== src/Health.antt =====
-- The health tests, src/jitterentropy-health.c: a child for each test's operations, and children
-- for what is proved of them.
pub mod Cutoffs
pub mod Rct
pub mod Apt
pub mod Lag
pub mod RctMem
pub mod Stuck
pub mod Failure
