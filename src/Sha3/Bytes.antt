-- ===== src/Sha3/Bytes.antt =====
-- The little-endian conversions of src/jitterentropy-sha3.c undo each other.
use Prim.Native.Nat.{bit_or-bitwise}
use native.Mathlib.Nat.{pow-suc, mul_assoc}
use jitterentropy_library.Prelude.{
  ℕ, zero, suc, ◌+◌, ◌*◌, ◌/◌, ◌^◌, ◌<◌, ◌≡◌, arith, bit_or, bit_or_step, sym, ap, ◌∙◌, ap₂,
}
use jitterentropy_library.Prelude.{u8, u32}
use jitterentropy_library.Sha3.Sponge.{ptr_to_le32, ptr_to_le64, le32_to_ptr, le64_to_ptr}

-- `|` of a word and one that is shifted past it is their sum.
bit_or-shifted : (k a b : ℕ) → a < 2 ^ k → bit_or a (b * 2 ^ k) ≡ a + b * 2 ^ k
bit_or-shifted zero zero b h = simp bit_or-bitwise (omega arith)
bit_or-shifted zero (suc a) b h = absurd (omega (arith, h))
bit_or-shifted (suc k) a b h =
    let double : b * 2 ^ suc k ≡ b * 2 ^ k * 2 = rw (pow-suc 2 k) (sym (mul_assoc b (2 ^ k) 2)) in
    rw double (
      omega (
        arith,
        bit_or_step a (b * 2 ^ k * 2),
        half b k,
        bit_or-shifted k (a / 2) b (omega (arith, pow-suc 2 k)),
      ))
  where
    half : (b k : ℕ) → bit_or (a / 2) (b * 2 ^ k * 2 / 2) ≡ bit_or (a / 2) (b * 2 ^ k)
    half b k = ap (bit_or (a / 2)) (omega arith)

le32-split :
    (v : ℕ)
    → v < 2 ^ 32
    → u8 v + u8 (v / 2 ^ 8) * 2 ^ 8 + u8 (v / 2 ^ 16) * 2 ^ 16 + u8 (v / 2 ^ 24) * 2 ^ 24 ≡ v
le32-split v h = omega (arith, h)

ptr_to_le32-le32_to_ptr : (v : ℕ) → v < 2 ^ 32 → ptr_to_le32 (le32_to_ptr v) ≡ v
unfolding ptr_to_le32 le32_to_ptr
ptr_to_le32-le32_to_ptr v h =
    let low = u8 v + u8 (v / 2 ^ 8) * 2 ^ 8 in
    let first = bit_or-shifted 8 (u8 v) (u8 (v / 2 ^ 8)) (omega arith) in
    let second = bit_or-shifted 16 low (u8 (v / 2 ^ 16)) (omega arith) in
    let third =
      bit_or-shifted 24 (low + u8 (v / 2 ^ 16) * 2 ^ 16) (u8 (v / 2 ^ 24)) (omega arith) in
    rw (first, second, third) (le32-split v h)

-- A 64-bit word that is stored as eight bytes, the lowest first, and loaded again is the word.
pub ptr_to_le64-le64_to_ptr : (v : ℕ) → v < 2 ^ 64 → ptr_to_le64 (le64_to_ptr v) ≡ v
unfolding ptr_to_le64 le64_to_ptr ptr_to_le32 le32_to_ptr
ptr_to_le64-le64_to_ptr v h =
    let low = ptr_to_le32-le32_to_ptr (u32 v) (omega arith) in
    let high = ptr_to_le32-le32_to_ptr (u32 (v / 2 ^ 32)) (omega arith) in
    ap₂ (λ a b. bit_or a (b * 2 ^ 32)) low high
    ∙ (bit_or-shifted 32 (u32 v) (u32 (v / 2 ^ 32)) (omega arith) ∙ omega (arith, h))
