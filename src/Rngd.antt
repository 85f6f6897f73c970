-- ===== src/Rngd.antt =====
-- The daemon that feeds the kernel's generator, src/rngd/jitterentropy-rngd.c: gathering entropy,
-- its retries, the alarms, and the turns of the main loop.
--
-- `Kernel` holds what the kernel answers by the number of the request: the errno of an injection and
-- of a reseed (`none` where it succeeds), whether the LRNG is there, and the text of the two entropy
-- files (`none` where a read fails). A process that exits has the value `ended` with its status.
-- Logging, the PID file and the service manager are left out.
pub mod Gather
pub mod Wakeups
pub mod Memory
pub mod Accounts
pub mod Turns
pub mod Begun
pub mod Forced
pub mod Refused
use jitterentropy_library.Prelude.{
  ℕ, zero, suc, ◌+◌, ◌*◌, Bool, true, false, not, Option, none, some, List, [], ◌∷◌, ◌&&◌, ◌||◌,
}
use jitterentropy_library.Prelude.{
  ltb, leb, ◌==◌, if◌then◌else◌, ◌>>=◌, length, replicate, get_or, take,
}
use jitterentropy_library.Collector.{RandData}
use jitterentropy_library.Decimal.{Number, strtol, out_of_range}
use jitterentropy_library.Gcd.{InitError}
use jitterentropy_library.Read.{Return, bytes, error, Outcome, ssize_max}
use jitterentropy_library.Safe.{SafeOutcome, read_entropy_safe}
use jitterentropy_library.World.{Env, World, M}
use jitterentropy_library.Alloc.{collector_free}
use jitterentropy_library.Init.{entropy_init_ex}
use jitterentropy_library.Reset.{collector_alloc}

pub record Kernel : Type 0 where
  pub add_entropy : ℕ → Option ℕ
  pub reseed : ℕ → Option ℕ
  pub lrng_present : Bool
  pub entropy_avail : ℕ → Option (List ℕ)
  pub entropy_thresh : ℕ → Option (List ℕ)

-- The command line: the two phases of the alarm are indexed by 0 and 1.
pub record Options : Type 0 where
  pub force_sp80090b : Bool
  pub exit_on_error : Bool
  pub jent_osr : ℕ
  pub jent_flags : ℕ
  pub alarm_period : List ℕ
  pub force_reseed_wakeups : List ℕ

-- `struct rand_pool_info` of an injection that the kernel accepted.
pub record Injection : Type 0 where
  pub payload : List ℕ
  pub entropy_count : ℕ

-- The daemon: its collector, the process it runs in, whether the buffer of an injection is
-- allocated and how many descriptors are open (the device, the two entropy files and the PID file),
-- what it has asked and given the kernel (the latest injection first) and the calls of
-- `gather_entropy`, and the variables of the alarm.
pub record Daemon : Type 0 where
  pub ec : Option RandData
  pub world : World
  pub rpi : Bool
  pub descriptors : ℕ
  pub requests : ℕ
  pub injected : List Injection
  pub reseeds : ℕ
  pub gathers : ℕ
  pub naps : ℕ
  pub seeded : Bool
  pub wakeups : ℕ
  pub phase : ℕ
  pub alarm : Option ℕ
  pub alarm_pending : Bool
  pub term_pending : Bool

-- What a write or a gathering returns: a count, a negative errno, or no return at all.
pub data Written : Type 0 where
  wrote : ℕ → Written
  failed : ℕ → Written
  ended : ℕ → Written

abbrev pub einval : ℕ
einval = 22

abbrev pub eoverflow : ℕ
eoverflow = 75

abbrev pub eopnotsupp : ℕ
eopnotsupp = 95

abbrev pub rndaddentropy_bufsize : ℕ
rndaddentropy_bufsize = 64

abbrev pub gather_retries : ℕ
gather_retries = 5

-- An operation of the library, in the daemon's process.
abbrev pub run : {A : Type 0} → M A → Daemon → Option (A × Daemon)
run m d = do r ← m d.world; some (r.0, record d { world = r.1 })

-- Behind the ioctl for a reseed.
unfoldable pub after_reseed : ℕ → Daemon → Option ℕ → Written × Daemon
after_reseed len d none =
    (wrote len, record d { requests = d.requests + 1; reseeds = d.reseeds + 1 })
after_reseed len d (some errno) =
    (if errno == einval then wrote len else failed errno, record d { requests = d.requests + 1 })

module _ (kernel : Kernel) where
  -- Behind the ioctl for an injection.
  unfoldable pub after_injection : List ℕ → ℕ → Bool → Daemon → Option ℕ → Written × Daemon
  unfolding after_reseed
  after_injection buf entropy_bytes force_reseed d (some errno) =
      (failed errno, record d { requests = d.requests + 1 })
  after_injection buf entropy_bytes force_reseed d none =
      let injected = record d {
        requests = d.requests + 1;
        injected = (record { payload = buf; entropy_count = entropy_bytes * 8 }) ∷ d.injected;
      } in
      if force_reseed && not kernel.lrng_present
      then after_reseed (length buf) injected (kernel.reseed injected.requests)
      else (wrote (length buf), injected)

  unfoldable pub write_random : List ℕ → ℕ → Bool → Daemon → Written × Daemon
  unfolding after_injection
  write_random buf entropy_bytes force_reseed d =
      if ltb ssize_max (length buf) || ltb rndaddentropy_bufsize (length buf)
      then (failed eoverflow, d)
      else after_injection buf entropy_bytes force_reseed d (kernel.add_entropy d.requests)

-- The number of bytes, unless it is an error.
abbrev pub count : Return → Option ℕ
count (bytes n) = some n
count (error e) = none

-- The daemon gives up its collector, if it has one.
unfoldable pub release_with : Option RandData → Daemon → Option Daemon
release_with none d = some d
release_with (some ec) d = do
  freed ← run (collector_free ec) d
  some (record (freed.1) { ec = none })

unfoldable pub release : Daemon → Option Daemon
unfolding release_with
release d = release_with d.ec d

-- `dealloc`: also the buffer and every descriptor.
unfoldable pub dealloc : Daemon → Option Daemon
unfolding release
dealloc d = do released ← release d; some (record released { rpi = false; descriptors = 0 })
