-- ===== src/Lib.antt =====
-- Verification of jitterentropy, a non-physical true random number generator that collects the
-- execution time jitter of the CPU.
--
-- A collector (`struct rand_data`) measures how long a hash loop and memory accesses take. Each
-- measurement gives a time delta, which the health tests judge and the SHA-3 pool absorbs. When
-- enough measurements that are not stuck are in, XDRBG-256 turns the pool into output for the
-- caller, unless a health test has recorded a failure.
--
-- The files and the code:
--   Prelude     numbers, arrays as lists, bits and words of C
--   Collector   the state: src/jitterentropy-internal.h, and bits and flags of jitterentropy.h
--   Health      src/jitterentropy-health.c: Cutoffs (the tables and `jent_*_init`), Rct, Apt, Lag
--               and RctMem (one test each), Stuck (`jent_stuck`, `jent_health_init`), Failure (the
--               failure word, the callback, and `jent_health_err` of src/jitterentropy-base.c)
--   Gcd         src/jitterentropy-gcd.c: the common divisor of the time deltas
--   Config      src/jitterentropy-base.c: the memory size and hash loop count in the flags
--   Sha3        src/jitterentropy-sha3.c: Keccak, Sponge and Xdrbg; Message is the sponge of
--               FIPS 202 on whole messages, and Generator defines XDRBG-256 on it
--   Noise       src/jitterentropy-noise.c: Sources (hash loop, memory accesses), Measure (the three
--               measurements) and Collect (`jent_random_data`)
--   Read        src/jitterentropy-base.c: `jent_read_entropy`
--   World       what is shared by the process, and what the operating system answers
--   Timer       src/jitterentropy-timer.c: the counting thread that replaces the clock
--   Powerup     src/jitterentropy-base.c: the measurements of `jent_time_entropy_init`
--   Alloc, Init, Reset, Safe
--               src/jitterentropy-base.c: allocation and release of a collector, initialization of
--               the library, startup and reset of a collector, and `jent_read_entropy_safe`
--   Uuid        src/jitterentropy-uuid.c: the identifier of a collector
--   Cache       arch/jitterentropy-arch-cache.c: the memory size from the data caches, found by Files
--               (sysfs on Linux) and Registers (CPUID and the cache ID registers of AArch64)
--   Decimal     `strtol` of the C library on base ten, as its manual states it
--   Rngd        rngd/jitterentropy-rngd.c: the daemon that reads a collector and feeds the kernel, in
--               Gather (a gathering and its retries) and Wakeups (alarms, signals, the main loop)
--   Examples    concrete collectors, and the theorems applied to them
-- A definition has the name of the function in the source without its prefix `jent_`, where the
-- name does not stand for something else; parts of a function have names of their own.
--
-- The state goes in and comes out: a function that changes a `struct rand_data` takes a record and
-- gives one. A machine is a collector with the number of clock readings so far; the clock is a
-- function from that number to a time stamp, so that the theorems hold for every clock. Buffers are
-- lists of bytes. Numbers are natural numbers, with the wrap of C's types written out where the
-- type can overflow.
--
-- Fuel: the loop of `jent_random_data_one` ends when enough measurements are in or a failure is
-- recorded, which the clock decides; `collect` takes fuel for its passes and gives nothing without. In
-- FIPS mode stuck measurements in a row are counted up to the permanent cutoff of the repetition
-- count test, which records a failure, so a collection takes a pass for each measurement to prime
-- and at most that cutoff for each sample.
-- The health test with memory calls `jent_random_data` again; the flag `in_recovery` stops a second
-- level, so `random_data` has two. The loop over blocks of a read takes one round a byte at most,
-- the loops of `jent_log2_simple` and `jent_cache_size_bits` 64, for the bits of a word, and Euclid's
-- loop recurses on its second number. The loops of a startup and of a safe read take fuel as well:
-- each round but the last follows a reset, which raises the oversampling rate, at most to 20. The
-- walks over CPUs, caches and levels count down from the bounds in the source.
--
-- The initialization, the allocation and the reset call each other: an allocation initializes the
-- library, the initialization allocates collectors of its own, which initialize nothing, and a
-- startup resets without a startup. Each such call is an argument, filled by the function below.
-- These operations run in a world, which holds the process-wide variables and counts the requests
-- to the operating system, the allocations and the threads.
--
-- The daemon holds one collector and reads it by `jent_read_entropy_safe`, or by `jent_read_entropy`
-- where SP 800-90B forbids a change of the entropy rate. After an error it frees the collector,
-- initializes the library again and allocates another one. The kernel's answers are functions of the
-- number of the request; a process that exits has a status for its result and no next step.
--
-- Parameters, not code of this repository's core: the clocks, whether memory is there and a thread
-- starts, a registered handler of the timer, the number of CPUs, the cache size (Cache gives one),
-- the random bytes of an identifier, whether the system is in FIPS mode, the kernel behind the
-- daemon, and the files and instructions that tell the sizes of caches.
--
-- Not modelled: the counter of the timer thread and the wait for its tick, the status report, the
-- rest of arch/, kernel modules and tools, and the daemon's options, log, PID file and forking.
-- Stack scrubbing and the clearing of temporary memory have no counterpart.
pub mod Prelude
pub mod Collector
pub mod Health
pub mod Sha3
pub mod Gcd
pub mod Config
pub mod Noise
pub mod Read
pub mod World
pub mod Timer
pub mod Alloc
pub mod Powerup
pub mod Init
pub mod Reset
pub mod Safe
pub mod Uuid
pub mod Cache
pub mod Decimal
pub mod Rngd
pub mod Examples
