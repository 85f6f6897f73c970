-- ===== src/Noise/Bounded.antt =====
-- The bounds of a collector inside a recovery under the repetition count test, and its patience.
use jitterentropy_library.Prelude.{
  ℕ, ◌-◌, ◌^◌, ◌≤◌, ◌<◌, ◌≡◌, ◌⊎◌, inl, inr, refl, arith, Bool, false, ◌∙◌, ap,
}
use jitterentropy_library.Prelude.{bit, bit_or, bit-bit_or, bit-le-one}
use jitterentropy_library.Collector.{RandData}
use jitterentropy_library.Health.Rct.{rct_insert}
use jitterentropy_library.Health.Stuck.Kept.{Kept}
use jitterentropy_library.Noise.Returns.{IsBounded, patience}
use jitterentropy_library.Noise.Steady.{Steady}

-- The count stays below the cutoff, or the permanent failure is set; a stuck measurement comes
-- nearer.
rct_insert-bounded :
    (cutoff : ℕ) (ec : RandData) (stuck : Bool)
    → cutoff < 2 ^ 32
    → ec.rct.cutoff_permanent ≡ cutoff
    → (ec.rct.count < cutoff) ⊎ (bit 16 ec.health_failure ≡ 1)
    → let after = rct_insert ec stuck in
      ((after.rct.count < cutoff) ⊎ (bit 16 after.health_failure ≡ 1))
      × ((bit 16 after.health_failure ≡ 1)
          ⊎ (stuck ≡ false)
          ⊎ (cutoff - after.rct.count < cutoff - ec.rct.count))
unfolding rct_insert
rct_insert-bounded cutoff ec stuck small same count =
    let set : bit 16 (2 ^ 16) ≡ 1 = refl in
    ground (
      arith,
      same,
      count,
      set,
      bit-bit_or 16 ec.health_failure (2 ^ 16),
      bit-bit_or 16 ec.health_failure (2 ^ 0),
      bit-le-one 16 ec.health_failure,
      bit-le-one 16 (bit_or ec.health_failure (2 ^ 16)),
      bit-le-one 16 (bit_or ec.health_failure (2 ^ 0)),
    )

sticky-one : (k a b : ℕ) → bit k a ≤ bit k b → bit k a ≡ 1 → bit k b ≡ 1
sticky-one k a b kept set = omega (arith, kept, set, bit-le-one k b)

patience-Steady : (cutoff : ℕ) (a b : RandData) → Steady a b → patience cutoff b ≡ patience cutoff a
patience-Steady cutoff a b s = omega (arith, s.3, ap (λ r. r.count) s.1)

-- Fails, is not stuck, or has used up some patience.
abbrev pub Spent : ℕ → RandData → Bool → RandData → Type 0
Spent cutoff a stuck b =
    (bit 16 b.health_failure ≡ 1) ⊎ (stuck ≡ false) ⊎ (patience cutoff b < patience cutoff a)

failed-carried :
    (a b : RandData) → Kept a b → bit 16 a.health_failure ≡ 1 → bit 16 b.health_failure ≡ 1
failed-carried a b kept failed =
    sticky-one 16 a.health_failure b.health_failure (kept.sticky 16) failed

pub Spent-before :
    (cutoff : ℕ) (a b c : RandData) (stuck : Bool)
    → Steady a b
    → Spent cutoff b stuck c
    → Spent cutoff a stuck c
Spent-before cutoff a b c stuck s (inl failed) = inl failed
Spent-before cutoff a b c stuck s (inr (inl judged)) = inr (inl judged)
Spent-before cutoff a b c stuck s (inr (inr less)) =
    inr (inr (omega (arith, less, patience-Steady cutoff a b s)))

pub Spent-after :
    (cutoff : ℕ) (a b c : RandData) (stuck : Bool)
    → Kept b c
    → Steady b c
    → Spent cutoff a stuck b
    → Spent cutoff a stuck c
Spent-after cutoff a b c stuck kept s (inl failed) = inl (failed-carried b c kept failed)
Spent-after cutoff a b c stuck kept s (inr (inl judged)) = inr (inl judged)
Spent-after cutoff a b c stuck kept s (inr (inr less)) =
    inr (inr (omega (arith, less, patience-Steady cutoff b c s)))

-- What the repetition count test leaves alone.
abbrev Still : RandData → RandData → Type 0
Still a b =
    (b.in_recovery ≡ a.in_recovery)
    × (b.is_fips_enabled ≡ a.is_fips_enabled)
    × (b.rct_mem.nosr ≡ a.rct_mem.nosr)
    × (b.stuck_prime ≡ a.stuck_prime)
    × (b.rct.cutoff_permanent ≡ a.rct.cutoff_permanent)
    × (b.startup_state ≡ a.startup_state)

rct_insert-Still : (ec : RandData) (stuck : Bool) → Still ec (rct_insert ec stuck)
unfolding rct_insert
rct_insert-Still ec stuck = ground arith

module _ (nosr primes cutoff : ℕ) where
  pub IsBounded-carried :
      (a b : RandData)
      → Kept a b
      → Steady a b
      → IsBounded nosr primes cutoff a
      → IsBounded nosr primes cutoff b
  IsBounded-carried a b kept s bounded = record {
    recovery = s.0 ∙ bounded.recovery;
    fips = kept.is_fips_enabled ∙ bounded.fips;
    started = s.4 ∙ bounded.started;
    window = s.2 ∙ bounded.window;
    prime = omega (arith, s.3, bounded.prime);
    cutoff = ap (λ r. r.cutoff_permanent) s.1 ∙ bounded.cutoff;
    count = counted bounded.count;
  }
    where
      counted :
          (a.rct.count < cutoff) ⊎ (bit 16 a.health_failure ≡ 1)
          → (b.rct.count < cutoff) ⊎ (bit 16 b.health_failure ≡ 1)
      counted (inl below) = inl (omega (arith, below, ap (λ r. r.count) s.1))
      counted (inr failed) = inr (failed-carried a b kept failed)

  pub rct_insert-Spent :
      (ec : RandData) (stuck : Bool)
      → cutoff < 2 ^ 32
      → IsBounded nosr primes cutoff ec
      → IsBounded nosr primes cutoff (rct_insert ec stuck)
        × Spent cutoff ec stuck (rct_insert ec stuck)
  rct_insert-Spent ec stuck small bounded =
      let s = rct_insert-Still ec stuck in
      let (count, less) = rct_insert-bounded cutoff ec stuck small bounded.cutoff bounded.count in
      (
        record {
          recovery = s.0 ∙ bounded.recovery;
          fips = s.1 ∙ bounded.fips;
          started = s.5 ∙ bounded.started;
          window = s.2 ∙ bounded.window;
          prime = omega (arith, s.3, bounded.prime);
          cutoff = s.4 ∙ bounded.cutoff;
          count = count;
        },
        spent s.3 less,
      )
    where
      spent :
          (rct_insert ec stuck).stuck_prime ≡ ec.stuck_prime
          → (bit 16 (rct_insert ec stuck).health_failure ≡ 1)
            ⊎ (stuck ≡ false)
            ⊎ (cutoff - (rct_insert ec stuck).rct.count < cutoff - ec.rct.count)
          → Spent cutoff ec stuck (rct_insert ec stuck)
      spent same (inl failed) = inl failed
      spent same (inr (inl judged)) = inr (inl judged)
      spent same (inr (inr less)) = inr (inr (omega (arith, less, same)))
