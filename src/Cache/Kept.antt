-- ===== src/Cache/Kept.antt =====
-- The exponents that `jent_cache_size_roundup` of arch/jitterentropy-arch-cache.c keeps between its
-- calls.
use native.Mathlib.Nat.{pow-suc, one-le-pow, pow-le-pow_right}
use jitterentropy_library.Prelude.{
  ℕ, zero, suc, ◌+◌, ◌/◌, ◌^◌, ◌<◌, ◌≡◌, inl, inr, refl, ap, sym, subst, ◌∙◌, arith, Bool, true,
  false, Bool-cases, if◌then◌else◌, ltb, ◌==◌, List, [], ◌∷◌, u64, u32,
}
use jitterentropy_library.Config.{log2_simple}
use jitterentropy_library.Cache.{
  Sizes, Cached, cache_roundup_from_sizes, size_bits_loop, cache_size_bits, fill_cached,
  cache_size_roundup,
}
use jitterentropy_library.Cache.Roundup.{
  IsRoundup, AreWords, total, cache_roundup_from_sizes-IsRoundup,
}

positive_test : (n : ℕ) → 0 < n → (n == 0) ≡ false
positive_test n h = ground (arith, h)

size_bits_loop_lem :
    (fuel j bits : ℕ) → j < fuel → bits + j < 2 ^ 32 → size_bits_loop fuel (2 ^ j) bits ≡ bits + j
unfolding size_bits_loop
size_bits_loop_lem zero j bits h small = absurd (omega (arith, h))
size_bits_loop_lem (suc fuel) zero bits h small = omega arith
size_bits_loop_lem (suc fuel) (suc j) bits h small =
    let half : 2 ^ suc j / 2 ≡ 2 ^ j = omega (arith, pow-suc 2 j) in
    let left = positive_test (2 ^ j) (one-le-pow j 2 (omega arith)) in
    let next : u32 (bits + 1) ≡ bits + 1 = omega (arith, small) in
    rw (half, left, next)
      (size_bits_loop_lem fuel j (bits + 1) (omega (arith, h)) (omega (arith, small)) ∙ omega arith)

-- What is made of the exponent that is kept.
from_bits : ℕ → ℕ
from_bits bits = if bits == 0 then 0 else u64 (2 ^ bits)

from_bits-power :
    (size j : ℕ) → size ≡ 2 ^ j → 0 < j → j < 64 → from_bits (cache_size_bits size) ≡ size
unfolding from_bits cache_size_bits
from_bits-power size j same positive word =
    let bits : size_bits_loop 64 size 0 ≡ j =
      ap (λ n. size_bits_loop 64 n 0) same
      ∙ size_bits_loop_lem 64 j 0 word (omega (arith, word))
      ∙ omega arith in
    let some_bits = positive_test j positive in
    let below = pow-le-pow_right {n = 2} (omega arith) {i = j} {j = 63} (omega (arith, word)) in
    rw (bits, some_bits) (omega (arith, same, below))

restored-IsRoundup : (sum size : ℕ) → IsRoundup sum size → from_bits (cache_size_bits size) ≡ size
unfolding from_bits cache_size_bits size_bits_loop
restored-IsRoundup sum size (inl (nothing, same)) = rw same refl
restored-IsRoundup sum size (inr (inl (positive, fits, same, above, twice))) =
    let k = log2_simple sum in
    let word : k + 1 < 64 = elim (Bool-cases (ltb (k + 1) 64)) [
      | inl small ↦ ground (arith, small)
      | inr large ↦ absurd (
          omega (
            arith,
            same,
            twice,
            fits,
            pow-le-pow_right {n = 2} (omega arith) {i = 64} {j = k + 1} (ground (arith, large)),
          ))
    ] in
    from_bits-power size (k + 1) same (omega arith) word
restored-IsRoundup sum size (inr (inr (huge, same))) =
    from_bits-power size 63 same (omega arith) (omega arith)

-- What is kept is what the first discovery gives.
abbrev Keeps : Sizes → Cached → Type 0
Keeps sizes cached =
    (cached.valid ≡ true)
    × (cached.first ≡ cache_size_bits (cache_roundup_from_sizes sizes false))
    × (cached.all ≡ cache_size_bits (cache_roundup_from_sizes sizes true))

-- Later calls, each with what a discovery would give then, all answer by the first one.
abbrev pub AreRoundups : Sizes → Cached → List (Sizes × Bool) → Type 0
AreRoundups sizes cached [] = Unit
AreRoundups sizes cached ((discovered, all) ∷ calls) =
    IsRoundup (total sizes all) (cache_size_roundup discovered all cached).0
    × AreRoundups sizes (cache_size_roundup discovered all cached).1 calls

kept_call :
    (sizes discovered : Sizes) (all : Bool) (cached : Cached)
    → AreWords sizes
    → Keeps sizes (fill_cached discovered cached)
    → IsRoundup (total sizes all) (cache_size_roundup discovered all cached).0
unfolding cache_size_roundup from_bits
kept_call sizes discovered true cached h keeps =
    subst (IsRoundup (total sizes true))
      (sym (
        ap (λ b. if b == 0 then 0 else u64 (2 ^ b)) keeps.2
        ∙ restored-IsRoundup _ _ (cache_roundup_from_sizes-IsRoundup sizes true h)))
      (cache_roundup_from_sizes-IsRoundup sizes true h)
kept_call sizes discovered false cached h keeps =
    subst (IsRoundup (total sizes false))
      (sym (
        ap (λ b. if b == 0 then 0 else u64 (2 ^ b)) keeps.1
        ∙ restored-IsRoundup _ _ (cache_roundup_from_sizes-IsRoundup sizes false h)))
      (cache_roundup_from_sizes-IsRoundup sizes false h)

-- A valid cache is not filled again.
unfilled :
    (discovered : Sizes) (cached : Cached)
    → cached.valid ≡ true
    → fill_cached discovered cached ≡ cached
unfolding fill_cached
unfilled discovered cached h = rw h refl

left_cached :
    (discovered : Sizes) (all : Bool) (cached : Cached)
    → (cache_size_roundup discovered all cached).1 ≡ fill_cached discovered cached
unfolding cache_size_roundup
left_cached discovered all cached = refl

kept_calls :
    (sizes : Sizes) (cached : Cached) (calls : List (Sizes × Bool))
    → AreWords sizes
    → Keeps sizes cached
    → AreRoundups sizes cached calls
kept_calls sizes cached [] h keeps = tt
kept_calls sizes cached ((discovered, all) ∷ calls) h keeps =
    let same = unfilled discovered cached keeps.0 in
    (
      kept_call sizes discovered all cached h (subst (Keeps sizes) (sym same) keeps),
      kept_calls sizes (cache_size_roundup discovered all cached).1 calls h
          (subst (Keeps sizes) (sym (left_cached discovered all cached ∙ same)) keeps),
    )

-- The first call, which asks for a discovery, and those behind it.
pub cache_size_roundup-AreRoundups :
    (sizes : Sizes) (cached : Cached) (all : Bool) (calls : List (Sizes × Bool))
    → AreWords sizes
    → cached.valid ≡ false
    → AreRoundups sizes cached ((sizes, all) ∷ calls)
unfolding cache_size_roundup fill_cached
cache_size_roundup-AreRoundups sizes cached all calls h invalid =
    let keeps : Keeps sizes (fill_cached sizes cached) = rw invalid (refl, refl, refl) in
    (
      kept_call sizes sizes all cached h keeps,
      kept_calls sizes (fill_cached sizes cached) calls h keeps,
    )
