-- ===== src/Cache/Roundup.antt =====
-- The memory size that is made of cache sizes: the bits that are filled below the highest one, and
-- the exponents that are kept.
use native.Mathlib.Nat.{pow-suc, pow-le-pow_right}
use jitterentropy_library.Prelude.{
  ℕ, zero, suc, ◌+◌, ◌-◌, ◌*◌, ◌/◌, ◌^◌, ◌≤◌, ◌<◌, ◌≡◌, ◌⊎◌, inl, inr, refl, ap, ap₂, subst, ◌∙◌,
  arith, Bool, true, false, Bool-cases, if◌then◌else◌, ltb, leb, ◌==◌, ==_iff, min, bit_or, u64,
}
use jitterentropy_library.Prelude.Bits.{bit, bit-bit_or, bit-le-one, bit_or_step}
use jitterentropy_library.Prelude.Shifts.{shift_suc}
use jitterentropy_library.Config.{log2_simple}
use jitterentropy_library.Config.Log2.{log2_simple_lem}
use jitterentropy_library.Cache.{Sizes, spread, cache_size_add, cache_roundup_from_sizes}

-- The `m` bits from bit `k` down are set.
abbrev Full : ℕ → ℕ → ℕ → Type 0
Full m k x = (i : ℕ) → i ≤ k → k < i + m → bit i x ≡ 1

bit-shift : (n i j x : ℕ) → j ≡ i + n → bit i (x / 2 ^ n) ≡ bit j x
bit-shift zero i j x same =
    let place : i ≡ j = omega (arith, same) in
    let whole : x / 2 ^ 0 ≡ x = omega arith in ap₂ bit place whole
bit-shift (suc n) i zero x same = absurd (omega (arith, same))
bit-shift (suc n) i (suc j) x same =
    ap (bit i) (shift_suc n x) ∙ bit-shift n i j (x / 2) (omega (arith, same))

bit_or-lt : (n a b : ℕ) → a < 2 ^ n → b < 2 ^ n → bit_or a b < 2 ^ n
bit_or-lt zero a b h k =
    let none_left : a ≡ 0 = omega (arith, h) in
    let none_right : b ≡ 0 = omega (arith, k) in omega (arith, ap₂ bit_or none_left none_right)
bit_or-lt (suc n) a b h k = omega (
  arith,
  pow-suc 2 n,
  bit_or_step a b,
  bit_or-lt n (a / 2) (b / 2) (omega (arith, h, pow-suc 2 n)) (omega (arith, k, pow-suc 2 n)),
)

spread-lt : (n k x : ℕ) → x < 2 ^ k → spread n x < 2 ^ k
spread-lt n k x h = bit_or-lt k x (x / 2 ^ n) h (omega (arith, h))

spread-Full : (m k x : ℕ) → Full m k x → Full (m + m) k (spread m x)
spread-Full m k x full i below near =
    bit-bit_or i x (x / 2 ^ m) ∙ elim (Bool-cases (ltb k (i + m))) [
      | inl high ↦ omega (arith, full i below (ground (arith, high)), bit-le-one i (x / 2 ^ m))
      | inr low ↦ omega (
        arith,
        bit-le-one i x,
        bit-shift m i (i + m) x refl,
        full (i + m) (ground (arith, low)) (omega (arith, near)),
      )
    ]

highest_bit : (k x : ℕ) → 2 ^ k ≤ x → x < 2 ^ suc k → bit k x ≡ 1
highest_bit zero x h j = omega (arith, h, j)
highest_bit (suc k) x h j =
    highest_bit k (x / 2) (omega (arith, h, pow-suc 2 k))
      (omega (arith, j, pow-suc 2 (suc k), pow-suc 2 k))

all_ones : (n x : ℕ) → x < 2 ^ n → ((i : ℕ) → i < n → bit i x ≡ 1) → x + 1 ≡ 2 ^ n
all_ones zero x h ones = omega (arith, h)
all_ones (suc n) x h ones = omega (
  arith,
  pow-suc 2 n,
  ones 0 (omega arith),
  all_ones n (x / 2) (omega (arith, h, pow-suc 2 n)) (λ i j. ones (suc i) (omega (arith, j))),
)

-- Six steps fill a word.
filled :
    (k x : ℕ)
    → k < 64
    → 2 ^ k ≤ x
    → x < 2 ^ suc k
    → spread 32 (spread 16 (spread 8 (spread 4 (spread 2 (spread 1 x))))) + 1 ≡ 2 ^ suc k
filled k x word low high =
    all_ones (suc k) _
      (spread-lt 32 (suc k) _ (
        spread-lt 16 (suc k) _ (
          spread-lt 8 (suc k) _
            (spread-lt 4 (suc k) _ (spread-lt 2 (suc k) _ (spread-lt 1 (suc k) x high))))))
      λ i h.
        spread-Full 32 k _
          (spread-Full 16 k _
            (spread-Full 8 k _ (spread-Full 4 k _ (spread-Full 2 k _ (spread-Full 1 k x first)))))
          i (omega (arith, h)) (omega (arith, word))
  where
    first : Full 1 k x
    first i below near =
        subst (λ j. bit j x ≡ 1) {x = k} {y = i} (omega (arith, below, near))
          (highest_bit k x low high)

-- What the size becomes: nothing stays nothing, and else it is the least power of two above the sum
-- of the caches, but 2^63 at most.
abbrev pub IsRoundup : ℕ → ℕ → Type 0
IsRoundup sum size =
    ((sum ≡ 0) × (size ≡ 0))
    ⊎ ((0 < sum)
        × (sum < 2 ^ 63)
        × (size ≡ 2 ^ (log2_simple sum + 1))
        × (sum < size)
        × (size ≤ 2 * sum))
    ⊎ ((2 ^ 63 ≤ sum) × (size ≡ 2 ^ 63))

-- The sum that is asked for.
unfoldable pub total : Sizes → Bool → ℕ
total sizes true = min (2 ^ 64 - 1) (sizes.l1 + sizes.l2 + sizes.l3)
total sizes false = sizes.l1

cache_size_add_lem :
    (sum size : ℕ)
    → sum < 2 ^ 64
    → size < 2 ^ 64
    → cache_size_add sum size ≡ min (2 ^ 64 - 1) (sum + size)
unfolding cache_size_add
cache_size_add_lem sum size h k = ground (arith, h, k)

-- Words of 64 bits.
abbrev pub AreWords : Sizes → Type 0
AreWords sizes = (sizes.l1 < 2 ^ 64) × (sizes.l2 < 2 ^ 64) × (sizes.l3 < 2 ^ 64)

added_lem :
    (sizes : Sizes) (all : Bool)
    → AreWords sizes
    → (if all then cache_size_add (cache_size_add sizes.l1 sizes.l2) sizes.l3 else sizes.l1)
      ≡ total sizes all
unfolding total
added_lem sizes false h = refl
added_lem sizes true h =
    let inner = cache_size_add_lem sizes.l1 sizes.l2 h.0 h.1 in
    omega (
      arith,
      inner,
      cache_size_add_lem (cache_size_add sizes.l1 sizes.l2) sizes.l3 (omega (arith, inner)) h.2,
    )

-- The power above a sum that fits.
power_above :
    (sum : ℕ)
    → 0 < sum
    → sum < 2 ^ 63
    → let size = u64 (spread 32 (spread 16 (spread 8 (spread 4 (spread 2 (spread 1 sum))))) + 1) in
      (size ≡ 2 ^ (log2_simple sum + 1)) × (sum < size) × (size ≤ 2 * sum)
power_above sum positive fits =
    let k = log2_simple sum in
    let (low, high) = log2_simple_lem sum positive (omega (arith, fits)) in
    let next : 2 ^ (k + 1) ≡ 2 ^ suc k = ap (λ n. 2 ^ n) {x = k + 1} {y = suc k} (omega arith) in
    let below : sum < 2 ^ suc k = omega (arith, next, high) in
    let word : k < 64 = elim (Bool-cases (ltb k 64)) [
      | inl small ↦ ground (arith, small)
      | inr large ↦ absurd (
          omega (
            arith,
            low,
            fits,
            pow-le-pow_right {n = 2} (omega arith) {i = 64} {j = k} (ground (arith, large)),
          ))
    ] in
    let size = filled k sum word low below in
    let twice : 2 ^ suc k ≤ 2 * sum = omega (arith, pow-suc 2 k, low) in
    (
      omega (arith, size, next, twice, fits),
      omega (arith, size, below, twice, fits),
      omega (arith, size, twice, fits),
    )

pub cache_roundup_from_sizes-IsRoundup :
    (sizes : Sizes) (all : Bool)
    → AreWords sizes
    → IsRoundup (total sizes all) (cache_roundup_from_sizes sizes all)
unfolding cache_roundup_from_sizes
cache_roundup_from_sizes-IsRoundup sizes all h =
    rw (added_lem sizes all h) (rounded (total sizes all))
  where
    rounded :
        (sum : ℕ)
        → IsRoundup sum (
            if sum == 0
            then 0
            else if leb (2 ^ 63) sum
            then 2 ^ 63
            else u64 (spread 32 (spread 16 (spread 8 (spread 4 (spread 2 (spread 1 sum))))) + 1))
    rounded sum = elim (Bool-cases (sum == 0)) [
      | inl nothing ↦ rw nothing (inl ((==_iff sum 0).0 nothing, refl))
      | inr something ↦ rw something (elim (Bool-cases (leb (2 ^ 63) sum)) [
        | inl huge ↦ rw huge (inr (inr (ground (arith, huge), refl)))
        | inr fits ↦
            let positive : 0 < sum = ground (arith, something) in
            let below : sum < 2 ^ 63 = ground (arith, fits) in
            let power = power_above sum positive below in
            rw fits (inr (inl (positive, below, power.0, power.1, power.2)))
      ])
    ]
