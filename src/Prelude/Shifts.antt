-- ===== src/Prelude/Shifts.antt =====
-- `|` and `&` on the parts of a word above and below a place.
use native.Mathlib.Nat.{pow-suc, div-div-eq-div-mul, mul_comm}
use Prim.Native.Nat.{ℕ, zero, suc, ◌/◌, ◌%◌, ◌^◌, bit_and, bit_or}
use mathlib.Core.Path.{◌≡◌, ap₂, sym}
use native.Mathlib.Omega.{arith}
use jitterentropy_library.Prelude.Bits.{bit_or_step, bit_and_step, bit_and-zero}

pub shift_suc : (k n : ℕ) → n / 2 ^ suc k ≡ n / 2 / 2 ^ k
shift_suc k n = rw (pow-suc 2 k, mul_comm (2 ^ k) 2) (sym (div-div-eq-div-mul n 2 (2 ^ k)))

pub shift-bit_or : (k a b : ℕ) → bit_or a b / 2 ^ k ≡ bit_or (a / 2 ^ k) (b / 2 ^ k)
shift-bit_or zero a b = omega (arith, ap₂ bit_or (div_one a) (div_one b))
  where
    div_one : (n : ℕ) → n ≡ n / 1
    div_one n = omega arith
shift-bit_or (suc k) a b =
    rw (shift_suc k (bit_or a b), shift_suc k a, shift_suc k b, half a b)
      (shift-bit_or k (a / 2) (b / 2))
  where
    half : (a b : ℕ) → bit_or a b / 2 ≡ bit_or (a / 2) (b / 2)
    half a b = omega (arith, bit_or_step a b)

pub shift-bit_and : (k a b : ℕ) → bit_and a b / 2 ^ k ≡ bit_and (a / 2 ^ k) (b / 2 ^ k)
shift-bit_and zero a b = omega (arith, ap₂ bit_and (div_one a) (div_one b))
  where
    div_one : (n : ℕ) → n ≡ n / 1
    div_one n = omega arith
shift-bit_and (suc k) a b =
    rw (shift_suc k (bit_and a b), shift_suc k a, shift_suc k b, half a b)
      (shift-bit_and k (a / 2) (b / 2))
  where
    half : (a b : ℕ) → bit_and a b / 2 ≡ bit_and (a / 2) (b / 2)
    half a b = omega (arith, bit_and_step a b)

-- The low four bits.
pub bit_and_fifteen : (n : ℕ) → bit_and n 15 ≡ n % 16
bit_and_fifteen n = omega (
  arith,
  bit_and_step n 15,
  bit_and_step (n / 2) 7,
  bit_and_step (n / 2 / 2) 3,
  bit_and_step (n / 2 / 2 / 2) 1,
  bit_and-zero (n / 2 / 2 / 2 / 2),
)

-- What `|` adds above a word with four clear low bits.
pub low-bit_or : (a b : ℕ) → a % 16 ≡ 0 → bit_or a b % 16 ≡ b % 16
low-bit_or a b h = omega (
  arith,
  bit_or_step a b,
  bit_or_step (a / 2) (b / 2),
  bit_or_step (a / 2 / 2) (b / 2 / 2),
  bit_or_step (a / 2 / 2 / 2) (b / 2 / 2 / 2),
)

pub low-bit_and : (a b : ℕ) → b % 16 ≡ 0 → bit_and a b % 16 ≡ 0
low-bit_and a b h = omega (
  arith,
  bit_and_step a b,
  bit_and_step (a / 2) (b / 2),
  bit_and_step (a / 2 / 2) (b / 2 / 2),
  bit_and_step (a / 2 / 2 / 2) (b / 2 / 2 / 2),
)
