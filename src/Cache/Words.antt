-- ===== src/Cache/Words.antt =====
-- The sizes that the backends of arch/jitterentropy-arch-cache.c find are words of 64 bits, and the
-- products of the fields of a register do not wrap.
use native.Mathlib.Nat.{pow-suc, mul-le-mul, pow-le-pow_right}
use jitterentropy_library.Prelude.{
  ℕ, zero, suc, ◌+◌, ◌-◌, ◌*◌, ◌/◌, ◌^◌, ◌≤◌, ◌<◌, ◌≡◌, ◌⊎◌, inl, inr, refl, Bool-cases, not, ◌&&◌,
  ◌||◌, ◌==◌, ap, ◌∙◌, arith, Bool, true, false, if◌then◌else◌, bit_and, u64,
}
use jitterentropy_library.Prelude.Bits.{bit_and_step, bit_and-zero}
use jitterentropy_library.Cache.{Sizes}
use jitterentropy_library.Cache.Registers.{
  CpuidAnswer, note_level, cpuid_size, note_cpuid, arm64_size,
}

bit_and-lt : (n a b : ℕ) → b < 2 ^ n → bit_and a b < 2 ^ n
bit_and-lt zero a b h =
    let nothing : b ≡ 0 = omega (arith, h) in omega (arith, ap (bit_and a) nothing, bit_and-zero a)
bit_and-lt (suc n) a b h = omega (
  arith,
  pow-suc 2 n,
  bit_and_step a b,
  bit_and-lt n (a / 2) (b / 2) (omega (arith, h, pow-suc 2 n)),
)

-- A product of four factors within their bounds, formed with a wrap after each step.
product_lem :
    (w p l s : ℕ)
    → w ≤ 1024
    → p ≤ 1024
    → l ≤ 4096
    → s < 2 ^ 32
    → u64 (u64 (u64 (w * p) * l) * s) ≡ w * p * l * s
product_lem w p l s hw hp hl hs =
    let two = mul-le-mul hw hp in
    let three = mul-le-mul two hl in
    let fits : s ≤ 2 ^ 32 - 1 = omega (arith, hs) in
    let four = mul-le-mul three fits in
    let first : u64 (w * p) ≡ w * p = omega (arith, two) in
    let second : u64 (w * p * l) ≡ w * p * l = omega (arith, three) in
    let third : u64 (w * p * l * s) ≡ w * p * l * s = omega (arith, four) in
    ap (λ n. u64 (u64 (n * l) * s)) first ∙ ap (λ n. u64 (n * s)) second ∙ third

-- Likewise for a power of two and two factors.
power_product_lem :
    (k a s : ℕ)
    → k ≤ 11
    → a ≤ 2 ^ 21
    → s ≤ 2 ^ 24
    → (u64 (u64 (2 ^ k * a) * s) ≡ 2 ^ k * a * s) × (2 ^ k * a * s < 2 ^ 57)
power_product_lem k a s hk ha hs =
    let one = pow-le-pow_right {n = 2} (omega arith) {i = k} {j = 11} hk in
    let two = mul-le-mul one ha in
    let three = mul-le-mul two hs in
    let first : u64 (2 ^ k * a) ≡ 2 ^ k * a = omega (arith, two) in
    let second : u64 (2 ^ k * a * s) ≡ 2 ^ k * a * s = omega (arith, three) in
    (ap (λ n. u64 (n * s)) first ∙ second, omega (arith, three))

-- No product of the fields of a register wraps. With 32-bit registers, what CPUID describes is noted
-- with the exact product of ways, partitions, line size and sets, whose only overflow, with 2^32 sets,
-- is left out with the caches that hold no data; and the size that CCSIDR_EL1 describes, in either
-- layout, is the product of line size, ways and sets and stays below 2^57.
pub note_cpuid-arm64_size :
    (answer : CpuidAnswer) (sizes : Sizes) (ccidx : Bool) (ccsidr : ℕ)
    → answer.ecx < 2 ^ 32
    → let ways = bit_and (answer.ebx / 2 ^ 22) 0x3ff + 1 in
      let partitions = bit_and (answer.ebx / 2 ^ 12) 0x3ff + 1 in
      let line_size = bit_and answer.ebx 0xfff + 1 in
      let line = bit_and ccsidr 0x7 + 4 in
      let assoc = bit_and (ccsidr / 2 ^ 3) (if ccidx then 0x1fffff else 0x3ff) + 1 in
      let sets =
        (if ccidx then bit_and (ccsidr / 2 ^ 32) 0xffffff else bit_and (ccsidr / 2 ^ 13) 0x7fff)
        + 1 in
      let is_data = bit_and answer.eax 0x1f == 1 in
      let is_unified = bit_and answer.eax 0x1f == 3 in
      let level = bit_and (answer.eax / 2 ^ 5) 0x7 in
      let size = ways * partitions * line_size * (answer.ecx + 1) in
      (note_cpuid answer sizes ≡ (
        if (is_data || is_unified) && not (answer.ecx == 0xffffffff)
        then note_level level is_data size sizes
        else sizes))
      × (arm64_size ccidx ccsidr ≡ 2 ^ line * assoc * sets)
      × (arm64_size ccidx ccsidr < 2 ^ 57)
unfolding note_cpuid cpuid_size arm64_size
note_cpuid-arm64_size answer sizes ccidx ccsidr sets =
    let arm =
      power_product_lem (bit_and ccsidr 0x7 + 4) _ _
        (omega (arith, bit_and-lt 3 ccsidr 0x7 (omega arith))) (ways_fit ccidx) (sets_fit ccidx) in
    (
      noted (bit_and answer.eax 0x1f == 1) (bit_and answer.eax 0x1f == 3)
          (Bool-cases (answer.ecx == 0xffffffff)),
      arm.0,
      omega (arith, arm.0, arm.1),
    )
  where
    below : (answer.ecx == 0xffffffff) ≡ false → answer.ecx + 1 < 2 ^ 32
    below fits = ground (arith, fits, sets)

    exact :
        (answer.ecx == 0xffffffff) ≡ false
        → cpuid_size answer
          ≡ (bit_and (answer.ebx / 2 ^ 22) 0x3ff + 1)
            * (bit_and (answer.ebx / 2 ^ 12) 0x3ff + 1)
            * (bit_and answer.ebx 0xfff + 1)
            * (answer.ecx + 1)
    exact fits =
        product_lem _ _ _ (answer.ecx + 1)
          (omega (arith, bit_and-lt 10 (answer.ebx / 2 ^ 22) 0x3ff (omega arith)))
          (omega (arith, bit_and-lt 10 (answer.ebx / 2 ^ 12) 0x3ff (omega arith)))
          (omega (arith, bit_and-lt 12 answer.ebx 0xfff (omega arith))) (below fits)

    ways_fit : (c : Bool) → bit_and (ccsidr / 2 ^ 3) (if c then 0x1fffff else 0x3ff) + 1 ≤ 2 ^ 21
    ways_fit true = omega (arith, bit_and-lt 21 (ccsidr / 2 ^ 3) 0x1fffff (omega arith))
    ways_fit false = omega (arith, bit_and-lt 10 (ccsidr / 2 ^ 3) 0x3ff (omega arith))

    sets_fit :
        (c : Bool)
        → (if c then bit_and (ccsidr / 2 ^ 32) 0xffffff else bit_and (ccsidr / 2 ^ 13) 0x7fff) + 1
          ≤ 2 ^ 24
    sets_fit true = omega (arith, bit_and-lt 24 (ccsidr / 2 ^ 32) 0xffffff (omega arith))
    sets_fit false = omega (arith, bit_and-lt 15 (ccsidr / 2 ^ 13) 0x7fff (omega arith))

    noted :
        (is_data is_unified : Bool)
        → ((answer.ecx == 0xffffffff) ≡ true) ⊎ ((answer.ecx == 0xffffffff) ≡ false)
        → (if not is_data && not is_unified || answer.ecx == 0xffffffff
            then sizes
            else note_level (bit_and (answer.eax / 2 ^ 5) 0x7) is_data (cpuid_size answer) sizes)
          ≡ (if (is_data || is_unified) && not (answer.ecx == 0xffffffff)
              then note_level
                  (bit_and (answer.eax / 2 ^ 5) 0x7)
                  is_data
                  ((bit_and (answer.ebx / 2 ^ 22) 0x3ff + 1)
                    * (bit_and (answer.ebx / 2 ^ 12) 0x3ff + 1)
                    * (bit_and answer.ebx 0xfff + 1)
                    * (answer.ecx + 1))
                  sizes
              else sizes)
    noted true true (inl full) = rw full refl
    noted true false (inl full) = rw full refl
    noted false true (inl full) = rw full refl
    noted false false (inl full) = refl
    noted true true (inr fits) = rw (fits, exact fits) refl
    noted true false (inr fits) = rw (fits, exact fits) refl
    noted false true (inr fits) = rw (fits, exact fits) refl
    noted false false (inr fits) = refl
