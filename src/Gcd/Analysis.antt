-- ===== src/Gcd/Analysis.antt =====
-- What the analysis of a delta history establishes, src/jitterentropy-gcd.c.
use Prim.Native.Nat.{◌∣◌}
use native.Mathlib.Nat.{zero-dvd, dvd-zero}
use jitterentropy_library.Prelude.{ℕ, ◌+◌, ◌-◌, ◌*◌, ◌/◌, ◌^◌, ◌≤◌, ◌<◌, ◌≡◌, ◌↔◌}
use jitterentropy_library.Prelude.{
  List, [], ◌∷◌, some, length, u64, refl, arith, ◌==◌, ==_iff, Bool-cases, inl, inr, subst, sym,
}
use jitterentropy_library.Gcd.{
  Sums, distance, gcd64, analyze_from, gcd_analyze_internal, Verdict, judge_sums, gcd_verdict,
}
use jitterentropy_library.Gcd.Euclid.{gcd64-divides}

-- `c` divides every number of the list.
abbrev pub DividesAll : ℕ → List ℕ → Type 0
DividesAll c [] = Unit {0}
DividesAll c (x ∷ xs) = (c ∣ x) × DividesAll c xs

-- The sum of the distances of neighbours, without wrap-around.
abbrev pub variation : ℕ → List ℕ → ℕ
variation prev [] = 0
variation prev (next ∷ rest) = distance prev next + variation next rest

analyze_from-divides :
    (prev : ℕ) (s : Sums) (xs : List ℕ) (c : ℕ)
    → (c ∣ (analyze_from prev s xs).running_gcd) ↔ ((c ∣ s.running_gcd) × DividesAll c xs)
unfolding analyze_from
analyze_from-divides prev s [] c = ((λ h. (h, tt)), (λ h. h.0))
analyze_from-divides prev s (next ∷ rest) c =
    let rest_divides =
      analyze_from-divides next
        (record {
          running_gcd = gcd64 next s.running_gcd;
          delta_sum = u64 (s.delta_sum + distance prev next);
        })
        rest c in
    (
      (λ h.
          let split = rest_divides.0 h in
          let both = (gcd64-divides next s.running_gcd c).0 split.0 in (both.1, (both.0, split.1))),
      (λ h.
          let all : DividesAll c (next ∷ rest) = h.1 in
          rest_divides.1 ((gcd64-divides next s.running_gcd c).1 (all.0, h.0), all.1)),
    )

analyze_from-sum :
    (prev : ℕ) (s : Sums) (xs : List ℕ)
    → u64 (analyze_from prev s xs).delta_sum ≡ u64 (s.delta_sum + variation prev xs)
unfolding analyze_from
analyze_from-sum prev s [] = omega arith
analyze_from-sum prev s (next ∷ rest) = omega (
  arith,
  analyze_from-sum next
      (record {
        running_gcd = gcd64 next s.running_gcd;
        delta_sum = u64 (s.delta_sum + distance prev next);
      })
      rest,
)

analyze_from-lt :
    (prev : ℕ) (s : Sums) (xs : List ℕ)
    → s.delta_sum < 2 ^ 64
    → (analyze_from prev s xs).delta_sum < 2 ^ 64
unfolding analyze_from
analyze_from-lt prev s [] h = h
analyze_from-lt prev s (next ∷ rest) h = analyze_from-lt next _ rest (omega arith)

-- A list that zero divides does not vary.
variation-zero : (prev : ℕ) (xs : List ℕ) → prev ≡ 0 → DividesAll 0 xs → variation prev xs ≡ 0
variation-zero prev [] e h = refl
variation-zero prev (next ∷ rest) e h =
    let zero_next = zero-dvd.0 h.0 in
    ground (arith, e, zero_next, variation-zero next rest zero_next h.1)

judge_sums-established :
    (s : Sums) (nelem osr gcd : ℕ)
    → 0 < nelem
    → (s.running_gcd ≡ 0 → s.delta_sum ≡ 0)
    → judge_sums s nelem osr ≡ Verdict.established gcd
    → (s.running_gcd ≡ gcd)
      × (0 < gcd)
      × (gcd < 2 ^ 31 - 1)
      × (nelem ≤ u64 (s.delta_sum / gcd * osr))
unfolding judge_sums
judge_sums-established s nelem osr gcd h constant e = elim (Bool-cases (s.running_gcd == 0)) [
  | inl unset ↦ ground (arith, constant ((==_iff _ _).0 unset))
  | inr set ↦ ground arith
]

-- Where the analysis starts.
abbrev start : ℕ → Sums
start first = record { running_gcd = first; delta_sum = 0 }

-- What the analysis of a delta history of at least one element is: the divisor is the greatest
-- common divisor of the elements, and the sum is that of the distances of neighbours modulo 2 ^ 64.
pub gcd_analyze_internal_lem :
    (first : ℕ) (rest : List ℕ)
    → (s : Sums) × (gcd_analyze_internal (first ∷ rest) ≡ some s)
      × ((c : ℕ) → (c ∣ s.running_gcd) ↔ DividesAll c (first ∷ rest))
      × (s.delta_sum ≡ u64 (variation first rest))
unfolding gcd_analyze_internal
gcd_analyze_internal_lem first rest = (
  analyze_from first (start first) rest,
  refl,
  (λ c. analyze_from-divides first (start first) rest c),
  omega (
    arith,
    analyze_from-sum first (start first) rest,
    analyze_from-lt first (start first) rest (omega arith),
  ),
)

-- A divisor that the verdict establishes on a delta history of at least one element is positive,
-- below 2 ^ 31 - 1 and the greatest common divisor of the history, and the sum of the distances of
-- neighbours (modulo 2 ^ 64), in units of the divisor and times the oversampling rate
-- (modulo 2 ^ 64), is at least the number of elements.
pub gcd_verdict-established :
    (first : ℕ) (rest : List ℕ) (osr gcd : ℕ)
    → gcd_verdict (first ∷ rest) osr ≡ Verdict.established gcd
    → ((c : ℕ) → (c ∣ gcd) ↔ DividesAll c (first ∷ rest))
      × (0 < gcd)
      × (gcd < 2 ^ 31 - 1)
      × (length (first ∷ rest) ≤ u64 (u64 (variation first rest) / gcd * osr))
unfolding gcd_verdict gcd_analyze_internal
gcd_verdict-established first rest osr gcd e =
    let s = analyze_from first (start first) rest in
    let divides = analyze_from-divides first (start first) rest in
    let sum = analyze_from-sum first (start first) rest in
    let below = analyze_from-lt first (start first) rest (omega arith) in
    let constant : s.running_gcd ≡ 0 → s.delta_sum ≡ 0 = λ zero_gcd.
      let all : DividesAll 0 (first ∷ rest) =
        (divides 0).0 (subst (λ n. 0 ∣ n) (sym zero_gcd) (dvd-zero 0)) in
      omega (arith, sum, below, variation-zero first rest (zero-dvd.0 all.0) all.1) in
    let judged =
      judge_sums-established s (length (first ∷ rest)) osr gcd (omega arith) constant e in
    let total : s.delta_sum ≡ u64 (variation first rest) = omega (arith, sum, below) in
    (
      (λ c. subst (λ n. (c ∣ n) ↔ DividesAll c (first ∷ rest)) judged.0 (divides c)),
      judged.1,
      judged.2,
      subst (λ n. length (first ∷ rest) ≤ u64 (n / gcd * osr)) total judged.3,
    )
