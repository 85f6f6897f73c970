-- ===== src/Powerup/Counts.antt =====
-- What the measurements of a startup add up to.
use jitterentropy_library.Prelude.{
  ℕ, zero, suc, ◌+◌, ◌≤◌, ◌<◌, ◌≡◌, arith, not, List, [], ◌∷◌, ◌++◌, length,
}
use jitterentropy_library.Prelude.{
  Option, none, some, Ends, Ends-bind, inl, inr, ltb, refl, ◌⊎◌, if◌then◌else◌,
}
use jitterentropy_library.Collector.{Machine}
use jitterentropy_library.Gcd.{InitError}
use jitterentropy_library.Noise.Measure.{Measured}
use jitterentropy_library.Powerup.{Powerup, powerup_step, powerup_next, powerup_loop, start_powerup}

-- Every delta of the history is positive.
abbrev pub Positive : List ℕ → Type 0
Positive [] = Unit {0}
Positive (x ∷ xs) = (0 < x) × Positive xs

Positive-append : (xs : List ℕ) (x : ℕ) → Positive xs → 0 < x → Positive (xs ++ x ∷ [])
Positive-append [] x h p = (p, tt)
Positive-append (y ∷ xs) x h p = (h.0, Positive-append xs x h.1 p)

length-snoc : (xs : List ℕ) (x : ℕ) → length (xs ++ x ∷ []) ≡ length xs + 1
length-snoc [] x = refl
length-snoc (y ∷ xs) x = omega (arith, length-snoc xs x)

-- With `left` measurements to go: each of the others past the first hundred is in the history or
-- ran backwards, and no more of them than that were stuck; a loop that has stopped has an error.
pub record Counted (left : ℕ) (p : Powerup) : Type 0 where
  pub total : length p.delta_history + p.time_backwards + left ≡ 1024
  pub stuck : p.count_stuck + left ≤ 1024
  pub positive : Positive p.delta_history

-- The measurements to go that count.
abbrev counting : ℕ → ℕ
counting left = if ltb left 1024 then left else 1024

powerup_step-Counted :
    (left start_time : ℕ) (measured : Measured) (p : Powerup)
    → p.failed ≡ none
    → Counted (counting (suc left)) p
    → (powerup_step (not (ltb left 1024)) start_time measured p).failed ≡ none
    → Counted (counting left) (powerup_step (not (ltb left 1024)) start_time measured p)
unfolding powerup_step
powerup_step-Counted left start_time measured p running h on = ground (
  arith,
  length-snoc p.delta_history measured.1,
  Positive-append p.delta_history measured.1 h.positive,
)

-- A loop that has ended: by an error, or with all measurements done.
abbrev pub Ended : Powerup → Type 0
Ended p = ((e : InitError) × (p.failed ≡ some e)) ⊎ ((p.failed ≡ none) × Counted 0 p)

powerup_next-Ended :
    (continue : Powerup → Option Powerup) (p : Powerup) (failed : Option InitError)
    → p.failed ≡ failed
    → (p.failed ≡ none → Ends Ended (continue p))
    → Ends Ended (powerup_next continue p failed)
unfolding powerup_next
powerup_next-Ended continue p none e rest = rest e
powerup_next-Ended continue p (some failure) e rest = inl (failure, e)

anything : {A : Type 0} (o : Option A) → Ends (λ (a : A). Unit {0}) o
anything none = tt
anything (some a) = tt

powerup_loop-Ended :
    (measure : Machine → Option Measured) (left : ℕ) (p : Powerup)
    → p.failed ≡ none
    → Counted (counting left) p
    → Ends Ended (powerup_loop measure left p)
unfolding powerup_loop
powerup_loop-Ended measure zero p running h = inr (running, h)
powerup_loop-Ended measure (suc left) p running h =
    Ends-bind (λ (after : Measured). Unit {0}) Ended (measure p.machine) _
      (anything (measure p.machine))
      λ measured u.
        let stepped = powerup_step (not (ltb left 1024)) p.machine.ec.prev_time measured p in
        powerup_next-Ended (powerup_loop measure left) stepped stepped.failed refl λ on.
          powerup_loop-Ended measure left stepped on
            (powerup_step-Counted left p.machine.ec.prev_time measured p running h on)

-- The measurements of a startup, whatever the measurement does, end with an error, or after 1024
-- counted measurements: each of these has run backwards or has put its delta into the history, no
-- delta of the history is zero, and at most 1024 were stuck.
pub powerup_loop_lem :
    (measure : Machine → Option Measured) (m : Machine)
    → Ends Ended (powerup_loop measure 1124 (start_powerup m))
unfolding start_powerup
powerup_loop_lem measure m =
    powerup_loop-Ended measure 1124 (start_powerup m) refl
      (record { total = refl; stuck = omega arith; positive = tt })
