-- ===== src/Gcd/Divisors.antt =====
-- The process-wide divisors, src/jitterentropy-gcd.c: one word a clock, which is set once.
use jitterentropy_library.Prelude.{ℕ, ◌<◌, ◌^◌, ◌≡◌, Bool, true, false, List, [], ◌∷◌}
use jitterentropy_library.Prelude.{
  Option, none, some, arith, not, ◌==◌, if◌then◌else◌, bool_eq, ◌&&◌, Bool-cases, inl, inr, ap, ◌∙◌,
}
use jitterentropy_library.Gcd.{Store, common_timer_gcd, gcd_store, gcd_get}

-- The stores that a process makes: of a divisor, for a clock.
abbrev pub stores : List (ℕ × Bool) → Store → Store
stores [] d = d
stores ((gcd, notime) ∷ rest) d = stores rest (gcd_store d gcd notime)

-- The first divisor of a clock that a list of stores holds.
abbrev pub first_of : Bool → List (ℕ × Bool) → Option ℕ
first_of notime [] = none
first_of notime ((gcd, other) ∷ rest) =
    if bool_eq notime other && not (gcd == 0) then some gcd else first_of notime rest

-- Divisors as the verdict lets them pass.
abbrev pub Fits : List (ℕ × Bool) → Type 0
Fits [] = Unit {0}
Fits ((gcd, notime) ∷ rest) = (gcd < 2 ^ 31) × Fits rest

-- A divisor that is set stays.
gcd_store-set :
    (d : Store) (gcd : ℕ) (other notime : Bool)
    → 0 < common_timer_gcd d notime
    → common_timer_gcd (gcd_store d gcd other) notime ≡ common_timer_gcd d notime
unfolding common_timer_gcd gcd_store
gcd_store-set d gcd true true h = ground arith
gcd_store-set d gcd true false h = ground arith
gcd_store-set d gcd false true h = ground arith
gcd_store-set d gcd false false h = ground arith

-- One that is not set becomes what is stored for its clock.
gcd_store-unset :
    (d : Store) (gcd : ℕ) (other notime : Bool)
    → gcd < 2 ^ 31
    → common_timer_gcd d notime ≡ 0
    → common_timer_gcd (gcd_store d gcd other) notime ≡ (if bool_eq notime other then gcd else 0)
unfolding common_timer_gcd gcd_store
gcd_store-unset d gcd true true fits h = ground arith
gcd_store-unset d gcd true false fits h = ground arith
gcd_store-unset d gcd false true fits h = ground arith
gcd_store-unset d gcd false false fits h = ground arith

-- A divisor that is established, which is not zero, is what every later read of its clock gets,
-- whatever is stored after it, for this clock or the other.
pub gcd_get-stores_set :
    (l : List (ℕ × Bool)) (d : Store) (notime : Bool)
    → 0 < common_timer_gcd d notime
    → gcd_get (stores l d) notime ≡ some (common_timer_gcd d notime)
unfolding gcd_get
gcd_get-stores_set [] d notime h = ground arith
gcd_get-stores_set ((gcd, other) ∷ rest) d notime h =
    let step = gcd_store-set d gcd other notime h in
    gcd_get-stores_set rest (gcd_store d gcd other) notime (omega (arith, step)) ∙ ap some step

-- Where a clock has no divisor yet, a read after a list of stores of divisors below 2 ^ 31 gets the
-- first nonzero one that was stored for this clock, and nothing if there was none: a later divisor
-- does not replace it, and those of the other clock do not count.
pub gcd_get-stores :
    (l : List (ℕ × Bool)) (d : Store) (notime : Bool)
    → Fits l
    → common_timer_gcd d notime ≡ 0
    → gcd_get (stores l d) notime ≡ first_of notime l
unfolding gcd_get
gcd_get-stores [] d notime fits h = ground arith
gcd_get-stores ((gcd, other) ∷ rest) d notime fits h =
    elim (Bool-cases (bool_eq notime other && not (gcd == 0))) [
      | inl first ↦ rw first (
          let stored : common_timer_gcd (gcd_store d gcd other) notime ≡ gcd =
            ground (arith, step) in
          gcd_get-stores_set rest (gcd_store d gcd other) notime (ground (arith, step))
          ∙ ap some stored)
      | inr not_first ↦
          rw not_first
            (gcd_get-stores rest (gcd_store d gcd other) notime fits.1 (ground (arith, step)))
    ]
  where
    step :
        common_timer_gcd (gcd_store d gcd other) notime ≡ (if bool_eq notime other then gcd else 0)
    step = gcd_store-unset d gcd other notime fits.0 h
