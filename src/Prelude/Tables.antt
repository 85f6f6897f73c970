-- ===== src/Prelude/Tables.antt =====
-- Facts about the entries of a table, by evaluation at every index.
use Prim.Native.Nat.{ℕ, zero, suc, ◌+◌, ◌<◌, ◌≤◌}
use mathlib.Core.Path.{◌≡◌}
use mathlib.Core.Bool.{Bool, true, ◌&&◌}
use mathlib.Core.Logic.{◌⊎◌, inl, inr}
use native.Mathlib.Omega.{arith}

-- `left` indices to look at, `i` the next one.
scan : (ℕ → Bool) → ℕ → ℕ → Bool
scan p i zero = true
scan p i (suc left) = p i && scan p (i + 1) left

scan_lem : (p : ℕ → Bool) (left i x : ℕ) → scan p i left ≡ true → i ≤ x → x < i + left → p x ≡ true
unfolding scan
scan_lem p zero i x passed from to = absurd (omega (arith, from, to))
scan_lem p (suc left) i x passed from to = elim (compare-cases i x from) [
  | inl here ↦ rw⁻¹ here (ground (arith, passed))
  | inr later ↦ scan_lem p left (i + 1) x (ground (arith, passed)) later (omega (arith, to))
]
  where
    compare-cases : (i x : ℕ) → i ≤ x → (i ≡ x) ⊎ (i + 1 ≤ x)
    compare-cases i x h = ground arith

unfoldable pub all_below : ℕ → (ℕ → Bool) → Bool
unfolding scan
all_below n p = scan p 0 n

pub all_below_sound : (n : ℕ) (p : ℕ → Bool) (x : ℕ) → all_below n p ≡ true → x < n → p x ≡ true
unfolding all_below
all_below_sound n p x passed inside = scan_lem p n 0 x passed (omega arith) (omega (arith, inside))
