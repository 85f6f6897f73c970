-- ===== src/Noise/Steady.antt =====
-- What a measurement inside a recovery leaves alone, and how it uses up the patience with stuck
-- measurements.
use jitterentropy_library.Prelude.{
  ℕ, ◌≡◌, inl, inr, refl, arith, Bool, true, Option, some, ◌∙◌, subst, sym, List,
}
use jitterentropy_library.Prelude.{leb, ltb, ◌==◌, if◌then◌else◌, Bool-cases}
use jitterentropy_library.Collector.{
  RandData, Machine, RctMem, rct_mem_failure, rct_mem_failure_permanent,
}
use jitterentropy_library.Health.Apt.{apt_insert}
use jitterentropy_library.Health.Lag.{lag_insert, lag_guess}
use jitterentropy_library.Health.RctMem.{
  rct_mem_insert, rct_mem_judge, rct_mem_recover, rct_mem_fail, rct_mem_count_stuck,
  rct_mem_advance,
}
use jitterentropy_library.Noise.Sources.{memaccess_pseudorandom, hash_insert}
use jitterentropy_library.Noise.Measure.{insert_delta}

abbrev pub Steady : RandData → RandData → Type 0
Steady a b =
    (b.in_recovery ≡ a.in_recovery)
    × (b.rct ≡ a.rct)
    × (b.rct_mem.nosr ≡ a.rct_mem.nosr)
    × (b.stuck_prime ≡ a.stuck_prime)
    × (b.startup_state ≡ a.startup_state)

pub Steady-trans : (a b c : RandData) → Steady a b → Steady b c → Steady a c
Steady-trans a b c p q = (q.0 ∙ p.0, q.1 ∙ p.1, q.2 ∙ p.2, q.3 ∙ p.3, q.4 ∙ p.4)

pub apt_insert-Steady : (ec : RandData) (delta : ℕ) → Steady ec (apt_insert ec delta)
unfolding apt_insert
apt_insert-Steady ec delta = ground arith

lag_guess-Steady : (ec : RandData) (delta : ℕ) → Steady ec (lag_guess ec delta)
unfolding lag_guess
lag_guess-Steady ec delta = ground arith

pub lag_insert-Steady : (ec : RandData) (delta : ℕ) → Steady ec (lag_insert ec delta)
unfolding lag_insert
lag_insert-Steady ec delta = elim (Bool-cases (ltb ec.lag.observations 8)) [
  | inl filling ↦ rw filling (refl, refl, refl, refl, refl)
  | inr full ↦ rw full (lag_guess-Steady ec delta)
]

pub memaccess-Steady :
    (clock : ℕ → ℕ) (m : Machine) (loops : ℕ)
    → Steady m.ec (memaccess_pseudorandom clock m loops).ec
unfolding memaccess_pseudorandom
memaccess-Steady clock m loops = ground arith

pub insert_delta-Steady :
    (m : Machine) (delta : ℕ) (intermediary : List ℕ) (separator : ℕ)
    → Steady m.ec (insert_delta m delta intermediary separator).ec
unfolding insert_delta hash_insert
insert_delta-Steady m delta intermediary separator = (refl, refl, refl, refl, refl)

rct_mem_fail-Steady : (ec : RandData) (failure : ℕ) → Steady ec (rct_mem_fail ec failure)
unfolding rct_mem_fail
rct_mem_fail-Steady ec failure = ground arith

advance-nosr : (rct_mem : RctMem) → (rct_mem_advance rct_mem).nosr ≡ rct_mem.nosr
unfolding rct_mem_advance
advance-nosr rct_mem = ground arith

judge-Steady :
    (f : Machine → Option Machine) (m : Machine)
    → m.ec.in_recovery ≡ true
    → (after : Machine) × (rct_mem_judge f m ≡ some after) × Steady m.ec after.ec
unfolding rct_mem_judge
judge-Steady f m h = elim (Bool-cases (leb m.ec.rct_mem.cutoff_permanent m.ec.rct_mem.count)) [
  | inl permanent ↦ rw permanent (_, refl, failed rct_mem_failure_permanent)
  | inr below ↦ rw below (elim (Bool-cases (m.ec.rct_mem.count == m.ec.rct_mem.cutoff)) [
    | inr other ↦ rw other (m, refl, (refl, refl, refl, refl, refl))
    | inl reached ↦
        let given : (after : Machine) × ((if true
                then some (record m { ec = rct_mem_fail m.ec rct_mem_failure })
                else rct_mem_recover f m)
              ≡ some after)
            × Steady m.ec after.ec =
          (_, refl, failed rct_mem_failure) in
        rw reached (
          subst
            (λ b.
              (after : Machine) × ((if b
                  then some (record m { ec = rct_mem_fail m.ec rct_mem_failure })
                  else rct_mem_recover f m)
                ≡ some after)
              × Steady m.ec after.ec)
            (sym h) given)
  ])
]
  where
    failed : (failure : ℕ) → Steady m.ec (rct_mem_fail m.ec failure)
    failed failure = rct_mem_fail-Steady m.ec failure

-- Inside a recovery the test with memory returns, and leaves these alone.
pub rct_mem_insert-Steady :
    (f : Machine → Option Machine) (m : Machine) (stuck : Bool)
    → m.ec.in_recovery ≡ true
    → (after : Machine) × (rct_mem_insert f m stuck ≡ some after) × Steady m.ec after.ec
unfolding rct_mem_insert rct_mem_count_stuck rct_mem_advance
rct_mem_insert-Steady f m stuck h =
    let counted = record m {
      ec = record (m.ec) { rct_mem = rct_mem_count_stuck m.ec.rct_mem stuck };
    } in
    let (judged, e, steady) = judge-Steady f counted h in
    rw e (
      record judged { ec = record (judged.ec) { rct_mem = rct_mem_advance judged.ec.rct_mem } },
      refl,
      (steady.0, steady.1, advance-nosr judged.ec.rct_mem ∙ steady.2, steady.3, steady.4),
    )
