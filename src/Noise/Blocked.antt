-- ===== src/Noise/Blocked.antt =====
-- A collector with a recorded failure in FIPS mode: every collection returns at once.
use jitterentropy_library.Prelude.{ℕ, zero, suc, ◌≡◌, refl, arith, true, false, Option, none, some}
use jitterentropy_library.Prelude.{
  bit, ◌==◌, ltb, ◌||◌, ◌>>=◌, Bool-cases, inl, inr, bit-le-one, ==_iff, ap, ◌∙◌, subst, sym, Ends,
}
use jitterentropy_library.Collector.{RandData, Machine, StartupState, memory, sha3, completed}
use jitterentropy_library.Health.Failure.{health_failure_query}
use jitterentropy_library.Health.Stuck.Kept.{Kept}
use jitterentropy_library.Noise.Measure.{Measured, check_stuck, measure_jitter}
use jitterentropy_library.Noise.Collect.{
  samples_wanted, refuse_block, open_window, collect, random_data_one, finish_stage, memory_stage,
  sha3_stage, normal_block, random_data_from, random_data_with, random_data,
}
use jitterentropy_library.Noise.Collected.{refuse_block-Kept, open_window-Kept}
use jitterentropy_library.Noise.Kept.{measure_jitter-Kept, finish_stage-Kept}

abbrev pub IsBlocked : ℕ → RandData → Type 0
IsBlocked k ec = (ec.is_fips_enabled ≡ true) × (bit k ec.health_failure ≡ 1)

bit-zero : (k : ℕ) → bit k 0 ≡ 0
bit-zero zero = refl
bit-zero (suc k) = bit-zero k

pub Kept-IsBlocked : (k : ℕ) (a b : RandData) → Kept a b → IsBlocked k a → IsBlocked k b
Kept-IsBlocked k a b kept blocked = (
  kept.is_fips_enabled ∙ blocked.0,
  omega (arith, kept.sticky k, blocked.1, bit-le-one k b.health_failure),
)

pub health_failure_query-IsBlocked :
    (k : ℕ) (ec : RandData) → IsBlocked k ec → (health_failure_query ec == 0) ≡ false
unfolding health_failure_query
health_failure_query-IsBlocked k ec blocked = elim (Bool-cases (ec.health_failure == 0)) [
  | inl clear ↦ absurd (
      let none_set : ec.health_failure ≡ 0 = (==_iff _ _).0 clear in
      omega (arith, ap (bit k) none_set, bit-zero k, blocked.1))
  | inr failing ↦ ground (arith, blocked.0, failing)
]

-- It returns, and the collector stays blocked.
abbrev pub ReturnsBlocked : ℕ → Option Machine → Type 0
ReturnsBlocked k o = (after : Machine) × (o ≡ some after) × IsBlocked k after.ec

module _ (measure : Machine → Option Measured) (k fuel : ℕ) where
  collect-IsBlocked :
      (ctr : ℕ) (m : Machine)
      → IsBlocked k m.ec
      → ReturnsBlocked k (collect (suc fuel) measure ctr m)
  unfolding collect
  collect-IsBlocked ctr m blocked =
      rw (health_failure_query-IsBlocked k m.ec blocked) (m, refl, blocked)

  random_data_one-IsBlocked :
      (m : Machine) → IsBlocked k m.ec → ReturnsBlocked k (random_data_one (suc fuel) measure m)
  unfolding random_data_one
  random_data_one-IsBlocked m blocked =
      elim (Bool-cases (ltb 65535 (samples_wanted m.ec) || ltb (samples_wanted m.ec) 256)) [
        | inl refused ↦
            rw refused (refuse_block m, refl, Kept-IsBlocked k m.ec _ (refuse_block-Kept m) blocked)
        | inr accepted ↦ rw accepted (
            collect-IsBlocked 0 (open_window m (samples_wanted m.ec))
              (Kept-IsBlocked k m.ec _ (open_window-Kept m (samples_wanted m.ec)) blocked))
      ]

ReturnsBlocked-bind :
    (k : ℕ) (o : Option Machine) (f : Machine → Option Machine)
    → ReturnsBlocked k o
    → ((m : Machine) → IsBlocked k m.ec → ReturnsBlocked k (f m))
    → ReturnsBlocked k (o >>= f)
ReturnsBlocked-bind k none f h g = absurd (ground (arith, h.1))
ReturnsBlocked-bind k (some m) f h g =
    g m (subst (λ o. Ends (λ x. IsBlocked k x.ec) o) (sym h.1) h.2)

module _ (clock : ℕ → ℕ) (recovery : Machine → Option Machine) (k fuel : ℕ) where
  memory_stage-IsBlocked :
      (m : Machine) → IsBlocked k m.ec → ReturnsBlocked k (memory_stage clock recovery (suc fuel) m)
  unfolding memory_stage
  memory_stage-IsBlocked m blocked =
      ReturnsBlocked-bind k _ _ (random_data_one-IsBlocked _ k fuel m blocked) λ sampled h. (
        finish_stage sha3 sampled,
        refl,
        Kept-IsBlocked k sampled.ec _ (finish_stage-Kept sha3 sampled) h,
      )

  sha3_stage-IsBlocked :
      (m : Machine) → IsBlocked k m.ec → ReturnsBlocked k (sha3_stage clock recovery (suc fuel) m)
  unfolding sha3_stage
  sha3_stage-IsBlocked m blocked =
      ReturnsBlocked-bind k _ _ (random_data_one-IsBlocked _ k fuel m blocked) λ sampled h. (
        finish_stage completed sampled,
        refl,
        Kept-IsBlocked k sampled.ec _ (finish_stage-Kept completed sampled) h,
      )

  -- The measurement that takes the reference runs no health test.
  priming-IsBlocked :
      (m : Machine)
      → IsBlocked k m.ec
      → (after : Measured) × (measure_jitter clock recovery 0 false m ≡ some after)
        × IsBlocked k after.2.ec
  unfolding measure_jitter check_stuck
  priming-IsBlocked m blocked = (
    _,
    refl,
    Kept-IsBlocked k m.ec _ (measure_jitter-Kept clock (λ x. none) (λ x. tt) 0 false m) blocked,
  )

  normal_block-IsBlocked :
      (m : Machine) → IsBlocked k m.ec → ReturnsBlocked k (normal_block clock recovery (suc fuel) m)
  unfolding normal_block
  normal_block-IsBlocked m blocked =
      let (primed, e, h) = priming-IsBlocked m blocked in
      rw e (random_data_one-IsBlocked _ k fuel primed.2 h)

  random_data_from-IsBlocked :
      (state : StartupState) (m : Machine)
      → IsBlocked k m.ec
      → ReturnsBlocked k (random_data_from clock recovery (suc fuel) state m)
  unfolding random_data_from
  random_data_from-IsBlocked memory m blocked =
      ReturnsBlocked-bind k _ _ (memory_stage-IsBlocked m blocked) sha3_stage-IsBlocked
  random_data_from-IsBlocked sha3 m blocked = sha3_stage-IsBlocked m blocked
  random_data_from-IsBlocked completed m blocked = normal_block-IsBlocked m blocked

-- With a failure recorded in FIPS mode, a collection returns in every startup state, with fuel for
-- one pass of each of its loops, and the failure stays recorded.
pub random_data-IsBlocked :
    (clock : ℕ → ℕ) (k fuel : ℕ) (m : Machine)
    → IsBlocked k m.ec
    → ReturnsBlocked k (random_data clock (suc fuel) m)
unfolding random_data random_data_with
random_data-IsBlocked clock k fuel m blocked =
    random_data_from-IsBlocked clock _ k fuel m.ec.startup_state m blocked
