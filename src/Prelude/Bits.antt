-- ===== src/Prelude/Bits.antt =====
-- The bits of a word, and what `&`, `|` and `^` do to each of them.
use Prim.Native.Nat.{ℕ, zero, suc, ◌+◌, ◌-◌, ◌*◌, ◌/◌, ◌%◌, ◌^◌, ◌≤◌, ◌<◌, min, max}
use Prim.Native.Nat.{bit_and, bit_or, digits, bitwise, bit_and-bitwise, bit_or-bitwise}
use mathlib.Core.Path.{◌≡◌, refl, ap, ◌∙◌, sym}
use native.Mathlib.Nat.{pow-suc, one-le-pow}
use mathlib.Core.WellFounded.{Acc}
use native.Mathlib.Omega.{arith}
use jitterentropy_library.Prelude.Order.{lt_wf}

-- `op` works on two digits, and `rest` is what is left of the second number behind the first.
module _ (op : ℕ → ℕ → ℕ) (rest : ℕ → ℕ) where
  spent : (fuel b : ℕ) → digits rest op fuel 0 b ≡ rest b
  spent zero b = refl
  spent (suc fuel) b = refl

  -- Any two amounts of fuel give the same, if neither is too little.
  settled :
      (a b fuel more : ℕ) → a ≤ fuel → a ≤ more → digits rest op fuel a b ≡ digits rest op more a b
  settled zero b fuel more h k = spent fuel b ∙ sym (spent more b)
  settled (suc a) b zero more h k = absurd (omega (arith, h))
  settled (suc a) b (suc fuel) zero h k = absurd (omega (arith, k))
  settled (suc a) b (suc fuel) (suc more) h k =
      ap (λ high. high * 2 + op (suc a % 2) (b % 2))
        (settled (suc a / 2) (b / 2) fuel more (omega arith) (omega arith))

  lowest_digit :
      ((b : ℕ) → rest b ≡ rest (b / 2) * 2 + op 0 (b % 2))
      → (a b : ℕ) → bitwise rest op a b ≡ bitwise rest op (a / 2) (b / 2) * 2 + op (a % 2) (b % 2)
  lowest_digit splits zero b = splits b
  lowest_digit splits (suc a) b =
      ap (λ high. high * 2 + op (suc a % 2) (b % 2))
        (settled (suc a / 2) (b / 2) a (suc a / 2) (omega arith) (omega arith))

pub bit_or_step : (a b : ℕ) → bit_or a b ≡ bit_or (a / 2) (b / 2) * 2 + max (a % 2) (b % 2)
bit_or_step a b = simp bit_or-bitwise (lowest_digit max (λ y. y) (λ y. omega arith) a b)

pub bit_and_step : (a b : ℕ) → bit_and a b ≡ bit_and (a / 2) (b / 2) * 2 + min (a % 2) (b % 2)
bit_and_step a b = simp bit_and-bitwise (lowest_digit min (λ y. 0) (λ y. omega arith) a b)

-- Bit `k` of a word, 0 or 1.
abbrev pub bit : ℕ → ℕ → ℕ
bit zero n = n % 2
bit (suc k) n = bit k (n / 2)

half-bit_or : (a b : ℕ) → bit_or a b / 2 ≡ bit_or (a / 2) (b / 2)
half-bit_or a b = omega (arith, bit_or_step a b)

half-bit_and : (a b : ℕ) → bit_and a b / 2 ≡ bit_and (a / 2) (b / 2)
half-bit_and a b = omega (arith, bit_and_step a b)

pub bit-bit_or : (k a b : ℕ) → bit k (bit_or a b) ≡ max (bit k a) (bit k b)
bit-bit_or zero a b = omega (arith, bit_or_step a b)
bit-bit_or (suc k) a b = rw (half-bit_or a b) (bit-bit_or k (a / 2) (b / 2))

pub bit-bit_and : (k a b : ℕ) → bit k (bit_and a b) ≡ min (bit k a) (bit k b)
bit-bit_and zero a b = omega (arith, bit_and_step a b)
bit-bit_and (suc k) a b = rw (half-bit_and a b) (bit-bit_and k (a / 2) (b / 2))

pub bit-le-one : (k n : ℕ) → bit k n ≤ 1
bit-le-one zero n = omega arith
bit-le-one (suc k) n = bit-le-one k (n / 2)

-- Induction on the number of digits.
halve : (P : ℕ → Type 0) → P 0 → ((n : ℕ) → 0 < n → P (n / 2) → P n) → (n : ℕ) → Acc ◌<◌ n → P n
halve P base step zero _ = base
halve P base step (suc n) (Acc.intro _ smaller) =
    step (suc n) (omega arith) (halve P base step (suc n / 2) (smaller (suc n / 2) (omega arith)))

pub bit_or-zero : (a : ℕ) → bit_or a 0 ≡ a
bit_or-zero a =
    halve (λ n. bit_or n 0 ≡ n) refl (λ n _ high. omega (arith, bit_or_step n 0, high)) a
      (lt_wf.apply a)

pub bit_and-zero : (a : ℕ) → bit_and a 0 ≡ 0
bit_and-zero a =
    halve (λ n. bit_and n 0 ≡ 0) refl (λ n _ high. omega (arith, bit_and_step n 0, high)) a
      (lt_wf.apply a)

-- A test of one bit, `n & (1 << k)`.
pub bit_and-bit : (k n : ℕ) → bit_and n (2 ^ k) ≡ bit k n * 2 ^ k
bit_and-bit zero n = omega (arith, bit_and_step n 1, bit_and-zero (n / 2))
bit_and-bit (suc k) n = omega (
  arith,
  bit_and_step n (2 ^ suc k),
  bit_and-bit k (n / 2),
  pow-suc 2 k,
  ap (λ (t : ℕ). bit_and (n / 2) t) (half_pow k),
  ap (λ (t : ℕ). bit k (n / 2) * t) (pow-suc 2 k),
)
  where
    half_pow : (k : ℕ) → 2 ^ suc k / 2 ≡ 2 ^ k
    half_pow k = omega (arith, pow-suc 2 k)

-- A word of at most `k` bits passes a mask of `k` ones unchanged.
pub bit_and-mask_of_lt : (k n : ℕ) → n < 2 ^ k → bit_and n (2 ^ k - 1) ≡ n
bit_and-mask_of_lt zero n h = rw (bit_and-zero n) (omega arith)
bit_and-mask_of_lt (suc k) n h =
    bit_and_step n (2 ^ suc k - 1)
    ∙ (rw (half, low, bit_and-mask_of_lt k (n / 2) (omega (arith, pow-suc 2 k))) (omega arith))
  where
    half : (2 ^ suc k - 1) / 2 ≡ 2 ^ k - 1
    half = omega (arith, pow-suc 2 k)

    low : (2 ^ suc k - 1) % 2 ≡ 1
    low = omega (arith, pow-suc 2 k, one-le-pow k 2)

-- The index mask of an array of eight.
pub bit_and_seven : (n : ℕ) → bit_and n 7 ≡ n % 8
bit_and_seven n = omega (
  arith,
  bit_and_step n 7,
  bit_and_step (n / 2) 3,
  bit_and_step (n / 2 / 2) 1,
  bit_and-zero (n / 2 / 2 / 2),
)
