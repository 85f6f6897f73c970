-- ===== src/Collector.antt =====
-- The state of an entropy collector: `struct rand_data` and `struct jent_sha_ctx` of
-- src/jitterentropy-internal.h, and the failure bits and flags of jitterentropy.h.
--
-- The fields keep the source's names. Those with the prefixes `rct_`, `rct_mem_`, `apt_` and
-- `lag_` stand in a record each, without the prefix. Of the
-- timer thread's fields, `notime_thread_ctx` says whether the pointer is set, and its counters are
-- left out: they are the clock.
use jitterentropy_library.Prelude.{ℕ, ◌^◌, Bool, List}

-- Block and digest sizes in bytes.
abbrev pub sha3_256_size_block : ℕ
sha3_256_size_block = 136

abbrev pub sha3_256_size_digest : ℕ
sha3_256_size_digest = 32

-- The SHA-3 context that is the entropy pool.
pub record HashCtx : Type 0 where
  pub state : List ℕ
  pub msg_len : ℕ
  pub partial : List ℕ
  pub xdrbg_block : List ℕ
  pub r : ℕ
  pub rword : ℕ
  pub digestsize : ℕ
  pub padding : ℕ
  pub initially_seeded : ℕ

pub data StartupState : Type 0 where
  completed sha3 memory : StartupState

-- Repetition count test.
pub record Rct : Type 0 where
  pub count : ℕ
  pub cutoff : ℕ
  pub cutoff_permanent : ℕ

-- Adaptive proportion test.
pub record Apt : Type 0 where
  pub cutoff : ℕ
  pub cutoff_permanent : ℕ
  pub observations : ℕ
  pub count : ℕ
  pub base : ℕ
  pub base_set : Bool

-- Repetition count test with memory.
pub record RctMem : Type 0 where
  pub ctr : ℕ
  pub nosr : ℕ
  pub count : ℕ
  pub cutoff : ℕ
  pub cutoff_permanent : ℕ

-- Lag predictor test.
pub record Lag : Type 0 where
  pub global_cutoff : ℕ
  pub global_cutoff_permanent : ℕ
  pub local_cutoff : ℕ
  pub local_cutoff_permanent : ℕ
  pub prediction_success_count : ℕ
  pub prediction_success_run : ℕ
  pub best_predictor : ℕ
  pub observations : ℕ
  pub delta_history : List ℕ
  pub scoreboard : List ℕ

pub record RandData : Type 0 where
  pub hash_state : HashCtx
  pub prev_time : ℕ
  pub flags : ℕ
  pub osr : ℕ
  pub uuid : List ℕ
  pub reinit_count : ℕ
  pub read_invocations : ℕ
  pub bytes_output : ℕ
  pub startup_state : StartupState
  pub mem : List ℕ
  pub memmask : ℕ
  pub memlocation : ℕ
  pub memaccessloops : ℕ
  pub hashloopcnt : ℕ
  pub rct : Rct
  pub apt : Apt
  pub health_failure : ℕ
  pub rct_mem : RctMem
  pub selftest_failed : Bool
  pub is_fips_enabled : Bool
  pub enable_notime : Bool
  pub notime_running : Bool
  pub notime_thread_ctx : Bool
  pub max_mem_set : Bool
  pub in_recovery : Bool
  pub stuck_prime : ℕ
  pub common_timer_gcd : ℕ
  pub lag : Lag

-- A collector and how many time stamps have been read: the n-th reading of the clock is what a
-- function outside the model gives for n.
pub record Machine : Type 0 where
  pub ec : RandData
  pub reads : ℕ

-- The bits of `health_failure`; a permanent failure is 16 places above the intermittent one.
abbrev pub rct_failure : ℕ
rct_failure = 2 ^ 0

abbrev pub apt_failure : ℕ
apt_failure = 2 ^ 1

abbrev pub lag_failure : ℕ
lag_failure = 2 ^ 2

abbrev pub rct_mem_failure : ℕ
rct_mem_failure = 2 ^ 3

abbrev pub rct_failure_permanent : ℕ
rct_failure_permanent = 2 ^ 16

abbrev pub apt_failure_permanent : ℕ
apt_failure_permanent = 2 ^ 17

abbrev pub lag_failure_permanent : ℕ
lag_failure_permanent = 2 ^ 18

abbrev pub rct_mem_failure_permanent : ℕ
rct_mem_failure_permanent = 2 ^ 19

abbrev pub min_osr : ℕ
min_osr = 3

abbrev pub max_osr : ℕ
max_osr = 20

-- The flags that the modelled code tests.
abbrev pub disable_memory_access : ℕ
disable_memory_access = 2 ^ 2

abbrev pub force_internal_timer : ℕ
force_internal_timer = 2 ^ 3

abbrev pub disable_internal_timer : ℕ
disable_internal_timer = 2 ^ 4

abbrev pub force_fips : ℕ
force_fips = 2 ^ 5

abbrev pub ntg1 : ℕ
ntg1 = 2 ^ 6

abbrev pub cache_all : ℕ
cache_all = 2 ^ 7

abbrev pub force_secure_mem : ℕ
force_secure_mem = 2 ^ 8

-- The library's own flag, of an instance that measures its clock.
abbrev pub measure_clock : ℕ
measure_clock = 2 ^ 22
