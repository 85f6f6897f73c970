-- ===== src/Gcd/Euclid.antt =====
-- Euclid's loop of src/jitterentropy-gcd.c computes the greatest common divisor.
use Prim.Native.Nat.{◌∣◌}
use mathlib.Core.WellFounded.{Acc}
use mathlib.Core.Logic.{dif_pos, dif_neg}
use native.Mathlib.Nat.{dvd-mod_iff, dvd-zero}
use native.Mathlib.Bridge.{le_prop}
use jitterentropy_library.Prelude.{ℕ, ◌%◌, ◌<◌, ◌↔◌, arith, ltb, subst}
use jitterentropy_library.Prelude.{Bool-cases, inl, inr, dec_lt}
use jitterentropy_library.Prelude.Order.{lt_wf}
use jitterentropy_library.Gcd.{gcd_loop, gcd64}

iff_trans : {A B C : Type 0} → A ↔ B → B ↔ C → A ↔ C
iff_trans p q = ((λ a. q.0 (p.0 a)), (λ c. p.1 (q.1 c)))

-- One round keeps the common divisors.
round-divides : (a b c : ℕ) → ((c ∣ b) × (c ∣ a % b)) ↔ ((c ∣ a) × (c ∣ b))
round-divides a b c =
    ((λ h. ((dvd-mod_iff _ h.0).0 h.1, h.0)), (λ h. (h.1, (dvd-mod_iff _ h.1).1 h.0)))

gcd_loop_lem : (a b : ℕ) (acc : Acc ◌<◌ b) (c : ℕ) → (c ∣ gcd_loop a b acc) ↔ ((c ∣ a) × (c ∣ b))
unfolding gcd_loop
gcd_loop_lem a b (Acc.intro _ smaller) c = elim (dec_lt 0 b) [
  | yes h ↦
      rw (dif_pos (dec_lt 0 b) le_prop h _ _)
        (iff_trans (gcd_loop_lem b (a % b) (smaller (a % b) (omega arith)) c) (round-divides a b c))
  | no h ↦
      rw (dif_neg (dec_lt 0 b) h _ _)
        ((λ p. (p, subst (λ n. c ∣ n) (omega arith) (dvd-zero c))), (λ p. p.0))
]

-- `jent_gcd64` returns the greatest common divisor of its two numbers in the divisibility order:
-- a number divides the result just when it divides both, whichever of the two is larger and
-- also when one of them is zero.
pub gcd64-divides : (a b c : ℕ) → (c ∣ gcd64 a b) ↔ ((c ∣ a) × (c ∣ b))
unfolding gcd64
gcd64-divides a b c = elim (Bool-cases (ltb a b)) [
  | inl less ↦
      rw less
        (iff_trans (gcd_loop_lem b a (lt_wf.apply a) c) ((λ p. (p.1, p.0)), (λ p. (p.1, p.0))))
  | inr more ↦ rw more (gcd_loop_lem a b (lt_wf.apply b) c)
]
