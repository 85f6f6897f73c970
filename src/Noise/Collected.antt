-- ===== src/Noise/Collected.antt =====
-- What no collection changes, by the loops over the measurements.
use jitterentropy_library.Prelude.{ℕ, zero, suc, true, false, Option, none, some, arith}
use jitterentropy_library.Prelude.{◌≡◌, Ends, Ends-some, Ends-bind, Ends-if, ◌==◌, leb, ◌+◌}
use jitterentropy_library.Collector.{Machine, StartupState, completed, sha3, memory}
use jitterentropy_library.Health.Failure.{health_failure_query}
use jitterentropy_library.Health.Stuck.Kept.{
  Kept, Kept-refl, Kept-trans, KeptIn, Keeps, KeptIn-trans, bit_or-sticky,
}
use jitterentropy_library.Noise.Measure.{
  Measured, measure_jitter_ntg1_memaccess, measure_jitter_ntg1_sha3, measure_jitter,
}
use jitterentropy_library.Noise.Kept.{
  measure_jitter-Kept, measure_jitter_ntg1_sha3-Kept, measure_jitter_ntg1_memaccess-Kept,
  finish_stage-Kept,
}
use jitterentropy_library.Noise.Collect.{
  samples_wanted, refuse_block, open_window, collect, random_data_one, memory_stage, sha3_stage,
  normal_block, random_data_from, random_data_with, random_data,
}

pub refuse_block-Kept : (m : Machine) → Kept m.ec (refuse_block m).ec
unfolding refuse_block
refuse_block-Kept m = grind (arith, bit_or-sticky)

pub open_window-Kept : (m : Machine) (nosr : ℕ) → Kept m.ec (open_window m nosr).ec
unfolding open_window
open_window-Kept m nosr = grind arith

abbrev pub MeasureKeeps : (Machine → Option Measured) → Type 0
MeasureKeeps measure = (m : Machine) → Ends (λ after. Kept m.ec after.2.ec) (measure m)

module _ (measure : Machine → Option Measured) (keeps : MeasureKeeps measure) where
  collect-Kept : (fuel ctr : ℕ) (m : Machine) → KeptIn m (collect fuel measure ctr m)
  unfolding collect
  collect-Kept zero ctr m = tt
  collect-Kept (suc fuel) ctr m =
      Ends-if (λ (x : Machine). Kept m.ec x.ec) (health_failure_query m.ec == 0) _ (some m)
        (Ends-bind (λ (x : Measured). Kept m.ec x.2.ec) (λ (x : Machine). Kept m.ec x.ec)
          (measure m) _ (keeps m)
          λ measured p.
            Ends-if (λ (x : Machine). Kept m.ec x.ec) measured.0 _ _
              (KeptIn-trans m measured.2 (collect fuel measure ctr measured.2) p
                (collect-Kept fuel ctr measured.2))
              (Ends-if (λ (x : Machine). Kept m.ec x.ec) (leb measured.2.ec.rct_mem.nosr (ctr + 1))
                (some measured.2) _ p
                (KeptIn-trans m measured.2 (collect fuel measure (ctr + 1) measured.2) p
                  (collect-Kept fuel (ctr + 1) measured.2))))
        (Kept-refl m.ec)

  random_data_one-Kept : (fuel : ℕ) (m : Machine) → KeptIn m (random_data_one fuel measure m)
  unfolding random_data_one
  random_data_one-Kept fuel m =
      let opened = open_window m (samples_wanted m.ec) in
      Ends-if (λ (x : Machine). Kept m.ec x.ec) _ (some (refuse_block m))
        (collect fuel measure 0 opened) (refuse_block-Kept m)
        (KeptIn-trans m opened (collect fuel measure 0 opened)
          (open_window-Kept m (samples_wanted m.ec)) (collect-Kept fuel 0 opened))

module _ (clock : ℕ → ℕ) (recovery : Machine → Option Machine) (keeps : Keeps recovery)
    (fuel : ℕ) where
  memory_stage-Kept : (m : Machine) → KeptIn m (memory_stage clock recovery fuel m)
  unfolding memory_stage
  memory_stage-Kept m =
      Ends-bind (λ (x : Machine). Kept m.ec x.ec) (λ (x : Machine). Kept m.ec x.ec)
        (random_data_one fuel (measure_jitter_ntg1_memaccess clock recovery 0 true) m) _
        (random_data_one-Kept _ (measure_jitter_ntg1_memaccess-Kept clock recovery keeps 0 true)
          fuel m)
        λ sampled p. Kept-trans m.ec sampled.ec _ p (finish_stage-Kept sha3 sampled)

  sha3_stage-Kept : (m : Machine) → KeptIn m (sha3_stage clock recovery fuel m)
  unfolding sha3_stage
  sha3_stage-Kept m =
      Ends-bind (λ (x : Machine). Kept m.ec x.ec) (λ (x : Machine). Kept m.ec x.ec)
        (random_data_one fuel (measure_jitter_ntg1_sha3 clock recovery 0 true) m) _
        (random_data_one-Kept _ (measure_jitter_ntg1_sha3-Kept clock recovery keeps 0 true) fuel m)
        λ sampled p. Kept-trans m.ec sampled.ec _ p (finish_stage-Kept completed sampled)

  normal_block-Kept : (m : Machine) → KeptIn m (normal_block clock recovery fuel m)
  unfolding normal_block
  normal_block-Kept m =
      Ends-bind (λ (x : Measured). Kept m.ec x.2.ec) (λ (x : Machine). Kept m.ec x.ec)
        (measure_jitter clock recovery 0 false m) _
        (measure_jitter-Kept clock recovery keeps 0 false m)
        λ primed p.
          KeptIn-trans m primed.2
            (random_data_one fuel (measure_jitter clock recovery 0 true) primed.2) p
            (random_data_one-Kept _ (measure_jitter-Kept clock recovery keeps 0 true) fuel primed.2)

  random_data_from-Kept :
      (state : StartupState) (m : Machine) → KeptIn m (random_data_from clock recovery fuel state m)
  unfolding random_data_from
  random_data_from-Kept memory m =
      Ends-bind (λ (x : Machine). Kept m.ec x.ec) (λ (x : Machine). Kept m.ec x.ec)
        (memory_stage clock recovery fuel m) _ (memory_stage-Kept m)
        λ next p. KeptIn-trans m next (sha3_stage clock recovery fuel next) p (sha3_stage-Kept next)
  random_data_from-Kept sha3 m = sha3_stage-Kept m
  random_data_from-Kept completed m = normal_block-Kept m

  pub random_data_with-Kept : Keeps (random_data_with clock recovery fuel)
  unfolding random_data_with
  random_data_with-Kept m = random_data_from-Kept m.ec.startup_state m

pub random_data-KeptIn : (clock : ℕ → ℕ) (fuel : ℕ) → Keeps (random_data clock fuel)
unfolding random_data
random_data-KeptIn clock fuel m =
    random_data_with-Kept clock (random_data_with clock (λ m. none) fuel)
      (random_data_with-Kept clock (λ m. none) (λ m. tt) fuel) fuel m

-- A collection that ends, in any startup state, with any clock and whatever the measurements and
-- the recoveries within it find, leaves every failure bit that was set set, and leaves the
-- oversampling rate, the flags, the size of the memory, the mode, the divisor, the self test's
-- verdict and the accounting as they were.
pub random_data-Kept :
    (clock : ℕ → ℕ) (fuel : ℕ) (m after : Machine)
    → random_data clock fuel m ≡ some after
    → Kept m.ec after.ec
random_data-Kept clock fuel m after e =
    Ends-some (λ (x : Machine). Kept m.ec x.ec) (random_data clock fuel m) after e
      (random_data-KeptIn clock fuel m)
