-- ===== src/Examples.antt =====
-- Concrete collectors, and the theorems applied to them.
pub mod Health
pub mod Windows
pub mod Common
pub mod Instances
pub mod Services
pub mod Caches
use jitterentropy_library.Prelude.{ℕ, ◌*◌, true, false, List, [], ◌∷◌, Option, none, replicate}
use jitterentropy_library.Collector.{
  HashCtx, StartupState, Rct, Apt, RctMem, Lag, RandData, Machine, sha3_256_size_block,
}
use jitterentropy_library.Health.Failure.{Process}

abbrev pub hash_ctx : HashCtx
hash_ctx = record {
  state = replicate 25 0;
  msg_len = 0;
  partial = replicate 136 0;
  xdrbg_block = replicate 96 0;
  r = 136;
  rword = 17;
  digestsize = 0;
  padding = 0x1f;
  initially_seeded = 0;
}

abbrev pub rct : Rct
rct = record { count = 0; cutoff = 2; cutoff_permanent = 3 }

abbrev pub apt : Apt
apt = record {
  cutoff = 2;
  cutoff_permanent = 3;
  observations = 0;
  count = 0;
  base = 0;
  base_set = false;
}

abbrev pub rct_mem : RctMem
rct_mem = record { ctr = 0; nosr = 963; count = 0; cutoff = 321; cutoff_permanent = 322 }

abbrev pub lag : Lag
lag = record {
  global_cutoff = 66443;
  global_cutoff_permanent = 66728;
  local_cutoff = 38;
  local_cutoff_permanent = 75;
  prediction_success_count = 0;
  prediction_success_run = 0;
  best_predictor = 0;
  observations = 0;
  delta_history = replicate 8 0;
  scoreboard = replicate 8 0;
}

-- A collector at the lowest oversampling rate in FIPS mode, without memory.
abbrev pub collector : RandData
collector = record {
  hash_state = hash_ctx;
  prev_time = 0;
  flags = 0;
  osr = 3;
  uuid = [];
  reinit_count = 0;
  read_invocations = 5;
  bytes_output = 64;
  startup_state = StartupState.completed;
  mem = [];
  memmask = 0;
  memlocation = 0;
  memaccessloops = 128;
  hashloopcnt = 1;
  rct = rct;
  apt = apt;
  health_failure = 0;
  rct_mem = rct_mem;
  selftest_failed = false;
  is_fips_enabled = true;
  enable_notime = false;
  notime_running = false;
  notime_thread_ctx = false;
  max_mem_set = false;
  in_recovery = false;
  stuck_prime = 0;
  common_timer_gcd = 1;
  lag = lag;
}

abbrev pub machine : Machine
machine = record { ec = collector; reads = 0 }

-- The same collector with a recorded failure of the adaptive proportion test.
abbrev pub failed : Machine
failed = record { ec = record collector { health_failure = 2 }; reads = 0 }

abbrev pub buffer : List ℕ
buffer = 1 ∷ 2 ∷ 3 ∷ []

abbrev pub process : Process
process = record { fips_cb = none; cb_switch_blocked = false; calls = [] }

-- A clock that counts nanoseconds and is read every microsecond.
abbrev pub clock : ℕ → ℕ
clock n = n * 1000
