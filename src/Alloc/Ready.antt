-- ===== src/Alloc/Ready.antt =====
-- What an allocation gives: a collector that is ready for its startup.
use jitterentropy_library.Prelude.{
  ℕ, ◌+◌, ◌-◌, ◌≤◌, ◌≡◌, inl, inr, refl, arith, ◌∙◌, Bool, true, false, Option, none, some, subst,
  sym, bit_and, bit_or,
}
use jitterentropy_library.Prelude.{length, length-replicate, ltb, Bool-cases, ◌||◌}
use jitterentropy_library.Collector.{
  RandData, disable_memory_access, disable_internal_timer, force_internal_timer, max_osr,
}
use jitterentropy_library.Config.{
  flag_set, ensure_osr_is_at_least_minimal, jent_memsize, update_memsize,
}
use jitterentropy_library.Config.MemSize.{update_memsize_bounds}
use jitterentropy_library.Gcd.{InitError, gcd_get}
use jitterentropy_library.Health.Stuck.{health_init}
use jitterentropy_library.Health.Stuck.Start.{
  IsStarted, health_init-accepts, health_init-IsStarted, health_init-keeps_mem,
}
use jitterentropy_library.Noise.Kept.{health_init-Kept}
use jitterentropy_library.World.{
  Env, World, M, ◌>>=◌, pure, After, After-next, After-imp, After-if, Anything, anything, zalloc,
}
use jitterentropy_library.Timer.{notime_enable}
use jitterentropy_library.Timer.Same.{SameButClock, notime_enable-Same}
use jitterentropy_library.Alloc.{
  zeroed, set_gcd, judge_clock, set_clock, set_up, configure, set_region, judge_memory, set_memory,
  judge_data, alloc_flagged, alloc_tested, init_refuses, alloc_internal, health_type,
  timer_contradicts,
}
use jitterentropy_library.Alloc.Built.{
  IsRegion, IsBuilt, HasDivisor, IsReady, IsBuilt-clock, fail-IsReady, give_gcd-IsReady,
  judge_clock-IsReady,
}

module _ (env : Env) (time_entropy_init : ℕ → ℕ → M (Option InitError)) where
  set_clock-IsReady :
      (osr : ℕ) (ec : RandData) (w : World)
      → IsBuilt osr ec
      → After (IsReady osr) (set_clock env time_entropy_init ec w)
  unfolding set_clock set_gcd
  set_clock-IsReady osr ec w built =
      let startup = time_entropy_init ec.osr (bit_or ec.flags force_internal_timer) in
      After-if (IsReady osr) (flag_set ec.flags disable_internal_timer) (set_gcd ec)
        (notime_enable env startup ec ec.flags >>= λ enabled. judge_clock enabled.0 enabled.1) w
        (give_gcd-IsReady osr ec (gcd_get w.gcd ec.enable_notime) w refl built)
        (After-next (SameButClock ec) (IsReady osr) (notime_enable env startup ec ec.flags w) _
          (notime_enable-Same env startup ec ec.flags w)
          λ enabled w1 same. judge_clock-IsReady osr enabled.0 enabled.1 w1 (
            subst (IsBuilt osr) (sym same) (
              IsBuilt-clock osr ec enabled.1.enable_notime enabled.1.notime_thread_ctx
                ec.common_timer_gcd built)))

  set_up-IsReady :
      (osr : ℕ) (ec : RandData) (w : World)
      → ec.osr ≡ osr
      → IsRegion ec.mem ec.memmask
      → After (IsReady osr) (set_up env time_entropy_init ec w)
  unfolding set_up
  set_up-IsReady osr ec w rate region =
      let inittype = health_type ec.flags in
      let kept = health_init-Kept ec inittype in
      elim (Bool-cases (health_init ec inittype).0) [
        | inl passed ↦ rw passed (
            set_clock-IsReady osr (health_init ec inittype).1 w (record {
              rate = kept.osr ∙ rate;
              started =
                  (let range = (health_init-accepts ec inittype).0 passed in
                    health_init-IsStarted ec inittype range.0 range.1);
              region =
                  subst (λ mask. IsRegion (health_init ec inittype).1.mem mask) (sym kept.memmask)
                    (subst (λ mem. IsRegion mem ec.memmask)
                      (sym (health_init-keeps_mem ec inittype)) region);
            }))
        | inr refused ↦ rw refused (fail-IsReady osr (health_init ec inittype).1 w)
      ]

  judge_memory-IsReady :
      (osr flags : ℕ) (ec : RandData) (ok : Bool) (w : World)
      → IsRegion (zeroed (jent_memsize flags)) (jent_memsize flags - 1)
      → After (IsReady osr) (judge_memory env time_entropy_init osr flags ec ok w)
  unfolding judge_memory configure set_region
  judge_memory-IsReady osr flags ec true w region =
      set_up-IsReady osr (configure env.fips osr flags (set_region ec (jent_memsize flags))) w refl
        region
  judge_memory-IsReady osr flags ec false w region = fail-IsReady osr ec w

  sized-IsRegion :
      (flags : ℕ)
      → let size = jent_memsize (update_memsize env.cache_size flags 0) in
        IsRegion (zeroed size) (size - 1)
  unfolding zeroed
  sized-IsRegion flags =
      let size = jent_memsize (update_memsize env.cache_size flags 0) in
      let bounds = update_memsize_bounds env.cache_size flags 0 in
      let whole : size ≡ size - 1 + 1 = omega (arith, bounds.0) in
      inr (
        length-replicate {A = ℕ} size 0 ∙ whole,
        omega (arith, bounds.0),
        omega (arith, bounds.0, bounds.1),
        subst (λ n. bit_and n (size - 1) ≡ 0) whole bounds.2,
      )

  set_memory-IsReady :
      (osr flags : ℕ) (ec : RandData) (w : World)
      → (length ec.mem ≡ 0) × (ec.memmask ≡ 0)
      → After (IsReady osr) (set_memory env time_entropy_init osr flags ec w)
  unfolding set_memory configure
  set_memory-IsReady osr flags ec w none_yet =
      let sized = update_memsize env.cache_size flags 0 in
      After-if (IsReady osr) (flag_set flags disable_memory_access)
        (set_up env time_entropy_init (configure env.fips osr flags ec))
        (zalloc env >>= judge_memory env time_entropy_init osr sized ec) w
        (set_up-IsReady osr (configure env.fips osr flags ec) w refl (inl none_yet))
        (After-next Anything (IsReady osr) (zalloc env w) _ (anything (zalloc env w))
          λ ok w1 u. judge_memory-IsReady osr sized ec ok w1 (sized-IsRegion flags))

  judge_data-IsReady :
      (osr flags : ℕ) (ok : Bool) (w : World)
      → After (IsReady osr) (judge_data env time_entropy_init osr flags ok w)
  unfolding judge_data
  judge_data-IsReady osr flags true w = set_memory-IsReady osr flags _ w (refl, refl)
  judge_data-IsReady osr flags false w = tt

  alloc_tested-IsReady :
      (osr flags : ℕ) (refused : Bool) (w : World)
      → After (IsReady osr) (alloc_tested env time_entropy_init osr flags refused w)
  unfolding alloc_tested alloc_flagged
  alloc_tested-IsReady osr flags true w = tt
  alloc_tested-IsReady osr flags false w =
      After-if (IsReady osr) _ (pure none) (zalloc env >>= judge_data env time_entropy_init osr _) w
        tt
        (After-next Anything (IsReady osr) (zalloc env w) _ (anything (zalloc env w))
          λ ok w1 u. judge_data-IsReady osr _ ok w1)

-- The rate that is asked for, raised to the least and refused above the greatest.
abbrev pub RateGiven : ℕ → Option RandData → World → Type 0
RateGiven osr none w = Unit {0}
RateGiven osr (some ec) w =
    (ec.osr ≡ ensure_osr_is_at_least_minimal osr)
    × (3 ≤ ec.osr)
    × (ec.osr ≤ 20)
    × IsStarted ec
    × IsRegion ec.mem ec.memmask
    × HasDivisor ec w

RateGiven-IsReady :
    (osr : ℕ) (w : World) (r : Option RandData)
    → 3 ≤ ensure_osr_is_at_least_minimal osr
    → ensure_osr_is_at_least_minimal osr ≤ 20
    → IsReady (ensure_osr_is_at_least_minimal osr) r w
    → RateGiven osr r w
RateGiven-IsReady osr w none low high ready = tt
RateGiven-IsReady osr w (some ec) low high ready = (
  (ready.0).rate,
  omega (arith, (ready.0).rate, low),
  omega (arith, (ready.0).rate, high),
  (ready.0).started,
  (ready.0).region,
  ready.1,
)

ensure_osr-range :
    (osr : ℕ) (contradicts : Bool)
    → (contradicts || ltb max_osr (ensure_osr_is_at_least_minimal osr)) ≡ false
    → (3 ≤ ensure_osr_is_at_least_minimal osr) × (ensure_osr_is_at_least_minimal osr ≤ 20)
unfolding ensure_osr_is_at_least_minimal
ensure_osr-range osr contradicts h = ground arith

-- A collector that an allocation gives, whatever the initializations within it do, has the
-- oversampling rate that was asked for, raised to 3 where it was below; the rate is from 3 to 20.
-- Every health test has started, with its cutoffs in order. The memory region is empty, or its
-- length is a power of two from 2 ^ 10 to 2 ^ 29 and the mask is one below it. The divisor of the
-- time deltas is the one established for the clock that the collector reads; where there is none,
-- the collector is one that measures the clock, and its divisor is 1.
pub alloc_internal-RateGiven :
    (env : Env) (time_entropy_init entropy_init_ex : ℕ → ℕ → M (Option InitError)) (osr flags : ℕ)
    (w : World)
    → After (RateGiven osr) (alloc_internal env time_entropy_init entropy_init_ex osr flags w)
unfolding alloc_internal
alloc_internal-RateGiven env time_entropy_init entropy_init_ex osr flags w =
    let enough = ensure_osr_is_at_least_minimal osr in
    elim (Bool-cases (timer_contradicts flags || ltb max_osr enough)) [
      | inl refused ↦ rw refused tt
      | inr accepted ↦
          let range = ensure_osr-range osr (timer_contradicts flags) accepted in
          rw accepted (
            After-next Anything (RateGiven osr)
              (init_refuses env time_entropy_init entropy_init_ex enough flags w) _
              (anything (init_refuses env time_entropy_init entropy_init_ex enough flags w))
              λ refuses w1 u.
                After-imp (IsReady enough) (RateGiven osr)
                  (alloc_tested env time_entropy_init enough flags refuses w1)
                  (alloc_tested-IsReady env time_entropy_init enough flags refuses w1)
                  (λ r w2 ready. RateGiven-IsReady osr w2 r range.0 range.1 ready))
    ]
