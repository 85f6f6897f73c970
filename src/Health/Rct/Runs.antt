-- ===== src/Health/Rct/Runs.antt =====
-- The repetition count test against its specification: the longest run of stuck measurements.
use jitterentropy_library.Prelude.{ℕ, ◌+◌, ◌≤◌, ◌<◌, ◌^◌, Bool, true, false, List, [], ◌∷◌}
use jitterentropy_library.Prelude.{
  ◌≡◌, ◌⊎◌, ◌↔◌, max, length, bit, bit-bit_or, bit-le-one, subst, arith,
}
use jitterentropy_library.Collector.{RandData}
use jitterentropy_library.Health.Rct.{rct_insert}

-- The verdicts of the stuck test in the order in which they come.
abbrev pub rct_feed : RandData → List Bool → RandData
rct_feed ec [] = ec
rct_feed ec (stuck ∷ rest) = rct_feed (rct_insert ec stuck) rest

-- The longest run of `true`, where `run` of them stand before the list.
abbrev pub longest_run : ℕ → List Bool → ℕ
longest_run run [] = run
longest_run run (true ∷ rest) = longest_run (run + 1) rest
longest_run run (false ∷ rest) = max run (longest_run 0 rest)

longest_run-ge : (run : ℕ) (stuck : List Bool) → run ≤ longest_run run stuck
longest_run-ge run [] = omega arith
longest_run-ge run (true ∷ rest) = omega (arith, longest_run-ge (run + 1) rest)
longest_run-ge run (false ∷ rest) = omega arith

-- One measurement: the count and the two bits.
record Inserted (ec : RandData) (stuck : Bool) (after : RandData) : Type 0 where
  cutoff : after.rct.cutoff ≡ ec.rct.cutoff
  cutoff_permanent : after.rct.cutoff_permanent ≡ ec.rct.cutoff_permanent
  cleared : stuck ≡ false → (after.rct.count ≡ 0) × (after.health_failure ≡ ec.health_failure)
  counted : stuck ≡ true → after.rct.count ≡ ec.rct.count + 1

rct_insert-Inserted :
    (ec : RandData) (stuck : Bool)
    → ec.rct.count + 1 < 2 ^ 32
    → Inserted ec stuck (rct_insert ec stuck)
unfolding rct_insert
rct_insert-Inserted ec true h = ground arith
rct_insert-Inserted ec false h = ground arith

rct_insert-bits :
    (ec : RandData)
    → ec.rct.count + 1 < 2 ^ 32
    → ec.rct.cutoff < ec.rct.cutoff_permanent
    → ((bit 16 (rct_insert ec true).health_failure ≡ 1)
        ↔ ((bit 16 ec.health_failure ≡ 1) ⊎ (ec.rct.cutoff_permanent ≤ ec.rct.count + 1)))
      × ((bit 0 (rct_insert ec true).health_failure ≡ 1)
          ↔ ((bit 0 ec.health_failure ≡ 1) ⊎ (ec.rct.cutoff ≡ ec.rct.count + 1)))
unfolding rct_insert
rct_insert-bits ec h p = ground (
  arith,
  bit-bit_or 16 ec.health_failure (2 ^ 16),
  bit-bit_or 16 ec.health_failure (2 ^ 0),
  bit-bit_or 0 ec.health_failure (2 ^ 16),
  bit-bit_or 0 ec.health_failure (2 ^ 0),
  bit-le-one 16 ec.health_failure,
  bit-le-one 0 ec.health_failure,
)

-- What the test may have reported before the list: a count at a cutoff has set its bit.
record Reported (ec : RandData) : Type 0 where
  order : ec.rct.cutoff < ec.rct.cutoff_permanent
  permanent : ec.rct.cutoff_permanent ≤ ec.rct.count → bit 16 ec.health_failure ≡ 1
  intermittent : ec.rct.cutoff ≤ ec.rct.count → bit 0 ec.health_failure ≡ 1

-- The two bits at the end, for a count of `run` at the start.
abbrev pub Detects : RandData → ℕ → List Bool → RandData → Type 0
Detects ec run stuck after =
    ((bit 16 after.health_failure ≡ 1)
      ↔ ((bit 16 ec.health_failure ≡ 1) ⊎ (ec.rct.cutoff_permanent ≤ longest_run run stuck)))
    × ((bit 0 after.health_failure ≡ 1)
        ↔ ((bit 0 ec.health_failure ≡ 1) ⊎ (ec.rct.cutoff ≤ longest_run run stuck)))

rct_insert-Reported :
    (ec : RandData) (stuck : Bool)
    → ec.rct.count + 1 < 2 ^ 32
    → 0 < ec.rct.cutoff
    → Reported ec
    → Reported (rct_insert ec stuck)
rct_insert-Reported ec true h pos r =
    ground (arith, rct_insert-Inserted ec true h, rct_insert-bits ec h r.order)
rct_insert-Reported ec false h pos r = ground (arith, rct_insert-Inserted ec false h)

rct_feed-Detects :
    (ec : RandData) (stuck : List Bool)
    → ec.rct.count + length stuck < 2 ^ 32
    → 0 < ec.rct.cutoff
    → Reported ec
    → Detects ec ec.rct.count stuck (rct_feed ec stuck)
rct_feed-Detects ec [] h pos r = ground arith
rct_feed-Detects ec (true ∷ rest) h pos r = ground (
  arith,
  rct_insert-Inserted ec true (omega arith),
  rct_insert-bits ec (omega arith) r.order,
  longest_run-ge (ec.rct.count + 1) rest,
  rct_feed-Detects (rct_insert ec true) rest,
  rct_insert-Reported ec true (omega arith) pos r,
)
rct_feed-Detects ec (false ∷ rest) h pos r = ground (
  arith,
  rct_insert-Inserted ec false (omega arith),
  rct_feed-Detects (rct_insert ec false) rest,
  rct_insert-Reported ec false (omega arith) pos r,
)

-- From a cleared count, with positive cutoffs in order, and for fewer than 2^32 measurements, the
-- permanent bit is set at the end exactly if it was set before or some run of stuck measurements
-- reached the permanent cutoff, and the intermittent bit exactly if it was set before or some run
-- reached the intermittent one.
pub rct_feed-longest_run :
    (ec : RandData) (stuck : List Bool)
    → ec.rct.count ≡ 0
    → length stuck < 2 ^ 32
    → 0 < ec.rct.cutoff
    → ec.rct.cutoff < ec.rct.cutoff_permanent
    → Detects ec 0 stuck (rct_feed ec stuck)
rct_feed-longest_run ec stuck zero_count h pos order =
    subst (λ n. Detects ec n stuck (rct_feed ec stuck)) zero_count
      (rct_feed-Detects ec stuck (omega arith) pos (record {
        order = order;
        permanent = λ q. absurd (omega arith);
        intermittent = λ q. absurd (omega arith);
      }))
