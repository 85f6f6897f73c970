-- ===== src/Alloc/Built.antt =====
-- A collector that is ready for its startup, and the divisor that it is given.
use jitterentropy_library.Prelude.{
  ℕ, ◌+◌, ◌^◌, ◌≤◌, ◌≡◌, ◌⊎◌, inl, inr, refl, Bool, true, Option, none, some, bit_and,
}
use jitterentropy_library.Prelude.{Bool-cases, List, length}
use jitterentropy_library.Collector.{RandData, measure_clock}
use jitterentropy_library.Config.{flag_set}
use jitterentropy_library.Gcd.{gcd_get}
use jitterentropy_library.Health.Stuck.Start.{IsStarted}
use jitterentropy_library.World.{World, pure, After, After-next, Anything, anything}
use jitterentropy_library.Timer.{NotimeError}
use jitterentropy_library.Alloc.{collector_free, fail, give_gcd, set_gcd, judge_clock}

-- No memory, or a power of two of it with the mask that stays inside.
abbrev pub IsRegion : List ℕ → ℕ → Type 0
IsRegion mem memmask =
    ((length mem ≡ 0) × (memmask ≡ 0))
    ⊎ ((length mem ≡ memmask + 1)
        × (2 ^ 10 ≤ memmask + 1)
        × (memmask + 1 ≤ 2 ^ 29)
        × (bit_and (memmask + 1) memmask ≡ 0))

-- A collector whose health tests have started, at the oversampling rate `osr`.
pub record IsBuilt (osr : ℕ) (ec : RandData) : Type 0 where
  pub rate : ec.osr ≡ osr
  pub started : IsStarted ec
  pub region : IsRegion ec.mem ec.memmask

-- The divisor is the one established for the clock that the collector reads; only a collector
-- that measures the clock goes without, and takes the deltas as they are.
abbrev pub HasDivisor : RandData → World → Type 0
HasDivisor ec w =
    (gcd_get w.gcd ec.enable_notime ≡ some ec.common_timer_gcd)
    ⊎ ((gcd_get w.gcd ec.enable_notime ≡ none)
        × (flag_set ec.flags measure_clock ≡ true)
        × (ec.common_timer_gcd ≡ 1))

abbrev pub IsReady : ℕ → Option RandData → World → Type 0
IsReady osr none w = Unit {0}
IsReady osr (some ec) w = IsBuilt osr ec × HasDivisor ec w

-- The clock and its divisor play no part in it.
pub IsBuilt-clock :
    (osr : ℕ) (ec : RandData) (enable ctx : Bool) (gcd : ℕ)
    → IsBuilt osr ec
    → IsBuilt osr
        (record ec { enable_notime = enable; notime_thread_ctx = ctx; common_timer_gcd = gcd })
IsBuilt-clock osr ec enable ctx gcd built =
    let s = built.started in
    record {
      rate = built.rate;
      started = record {
        lag_order = s.lag_order;
        apt_order = s.apt_order;
        rct_order = s.rct_order;
        rct_mem_order = s.rct_mem_order;
        lag_valid = s.lag_valid;
        lag_new = s.lag_new;
        rct_new = s.rct_new;
        apt_new = s.apt_new;
        primed = s.primed;
      };
      region = built.region;
    }

pub fail-IsReady : (osr : ℕ) (ec : RandData) (w : World) → After (IsReady osr) (fail ec w)
fail-IsReady osr ec w =
    After-next Anything (IsReady osr) (collector_free ec w) (λ r. pure none)
      (anything (collector_free ec w)) (λ r w' u. tt)

pub give_gcd-IsReady :
    (osr : ℕ) (ec : RandData) (divisor : Option ℕ) (w : World)
    → gcd_get w.gcd ec.enable_notime ≡ divisor
    → IsBuilt osr ec
    → After (IsReady osr) (give_gcd ec divisor w)
unfolding give_gcd
give_gcd-IsReady osr ec (some divisor) w e built =
    (IsBuilt-clock osr ec ec.enable_notime ec.notime_thread_ctx divisor built, inl e)
give_gcd-IsReady osr ec none w e built = elim (Bool-cases (flag_set ec.flags measure_clock)) [
  | inl measures ↦
      let given = (IsBuilt-clock osr ec ec.enable_notime ec.notime_thread_ctx 1 built) in
      rw measures (given, inr (e, measures, refl))
  | inr generates ↦ rw generates (fail-IsReady osr ec w)
]

pub judge_clock-IsReady :
    (osr : ℕ) (failed : Option NotimeError) (ec : RandData) (w : World)
    → IsBuilt osr ec
    → After (IsReady osr) (judge_clock failed ec w)
unfolding judge_clock set_gcd
judge_clock-IsReady osr none ec w built =
    give_gcd-IsReady osr ec (gcd_get w.gcd ec.enable_notime) w refl built
judge_clock-IsReady osr (some e) ec w built = fail-IsReady osr ec w
