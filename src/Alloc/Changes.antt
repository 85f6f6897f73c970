-- ===== src/Alloc/Changes.antt =====
-- What the allocation and the release of a collector take and give back.
use jitterentropy_library.Prelude.{
  ℕ, ◌≤◌, ◌+◌, ◌≡◌, refl, arith, ◌∙◌, Bool, true, false, not, Option, none, some, subst, bit_or, ap,
  ap₂, ◌==◌,
}
use jitterentropy_library.Prelude.{if◌then◌else◌}
use jitterentropy_library.Collector.{RandData, disable_memory_access, force_internal_timer}
use jitterentropy_library.Config.{
  ensure_osr_is_at_least_minimal, flags_to_max_memsize, flag_set, update_memsize, jent_memsize,
}
use jitterentropy_library.Gcd.{InitError, gcd_get}
use jitterentropy_library.Health.Stuck.{health_init}
use jitterentropy_library.Noise.Kept.{health_init-Kept}
use jitterentropy_library.Config.MemSize.{update_memsize_bounds}
use jitterentropy_library.World.{
  Env, World, M, ◌>>=◌, pure, After, After-next, After-imp, After-if, zalloc,
}
use jitterentropy_library.World.Changes.{Change, Change-refl, Change-trans, Change-as, Quiet}
use jitterentropy_library.Timer.{NotimeError, notime_enable}
use jitterentropy_library.Timer.Changes.{context, held, held_opt, ticks, zalloc-Change}
use jitterentropy_library.Timer.Clocked.{IsFresh, Clocked, notime_enable-Clocked}
use jitterentropy_library.Alloc.{
  zero_data, collector_free, fail, give_gcd, set_gcd, judge_clock, set_clock, set_up, judge_memory,
  set_memory, judge_data, alloc_tested, is_failure, configure, set_region, alloc_flagged,
  init_refuses, alloc_internal, health_type,
}
use jitterentropy_library.Alloc.Released.{bare, collector_free-Change}

-- A collector, if there is one, without a thread.
abbrev pub IsIdle : Option RandData → Type 0
IsIdle none = Unit {0}
IsIdle (some ec) = ec.notime_running ≡ false

-- An operation that the caller began holding `before` allocations, and that gives a collector or
-- releases all.
abbrev pub Gives : World → ℕ → Option RandData → World → Type 0
Gives w before r w' = Change w w' before (held_opt w.handler r) 0 0 × IsIdle r

pub ticks-zero : (ec : RandData) → ec.notime_running ≡ false → ticks ec ≡ 0
ticks-zero ec idle = ground (arith, idle)

fail-Gives :
    (ec : RandData) (w : World)
    → ec.notime_running ≡ false
    → After (λ r w'. Gives w (held w.handler ec) r w') (fail ec w)
fail-Gives ec w idle =
    After-next (λ r w'. Change w w' (held w.handler ec) 0 (ticks ec) 0)
      (λ (r : Option RandData) w'. Gives w (held w.handler ec) r w') (collector_free ec w) _
      (collector_free-Change ec w)
      λ r w' c. (subst (λ t. Change w w' (held w.handler ec) 0 t 0) (ticks-zero ec idle) c, tt)

give_gcd-Gives :
    (ec : RandData) (divisor : Option ℕ) (w : World)
    → ec.notime_running ≡ false
    → After (λ r w'. Gives w (held w.handler ec) r w') (give_gcd ec divisor w)
unfolding give_gcd
give_gcd-Gives ec (some divisor) w idle = (Change-refl w _ 0, idle)
give_gcd-Gives ec none w idle =
    After-if (λ r w'. Gives w (held w.handler ec) r w') _
      (pure (some (record ec { common_timer_gcd = 1 }))) (fail ec) w (Change-refl w _ 0, idle)
      (fail-Gives ec w idle)

judge_clock-Gives :
    (failed : Option NotimeError) (ec : RandData) (w : World)
    → ec.notime_running ≡ false
    → After (λ r w'. Gives w (held w.handler ec) r w') (judge_clock failed ec w)
unfolding judge_clock set_gcd
judge_clock-Gives none ec w idle = give_gcd-Gives ec (gcd_get w.gcd ec.enable_notime) w idle
judge_clock-Gives (some e) ec w idle = fail-Gives ec w idle

-- The rest of an operation, behind a change of what is held.
Gives-add :
    (w w1 : World) (a b : ℕ) {x : ℕ} (o : Option (Option RandData × World))
    → Change w w1 a b 0 0
    → (x ≡ b)
    → After (λ r w'. Gives w1 x r w') o
    → After (λ r w'. Gives w a r w') o
Gives-add w w1 a b o c e rest =
    After-imp (λ r w'. Gives w1 _ r w') _ o rest
      λ r w' h. (
        Change-trans c (
            subst (λ k. Change w1 w' b (held_opt k r) 0 0) c.handler
              (subst (λ n. Change w1 w' n (held_opt w1.handler r) 0 0) e h.0)),
        h.1,
      )

module _ (env : Env) (time_entropy_init : ℕ → ℕ → M (Option InitError))
    (quiet : (osr flags : ℕ) → Quiet (time_entropy_init osr flags)) where
  set_clock-Gives :
      (ec : RandData) (w : World)
      → IsFresh ec
      → After (λ r w'. Gives w (held w.handler ec) r w') (set_clock env time_entropy_init ec w)
  unfolding set_clock set_gcd
  set_clock-Gives ec w fresh =
      After-if (λ r w'. Gives w (held w.handler ec) r w') _ (set_gcd ec)
        (notime_enable env (time_entropy_init ec.osr (bit_or ec.flags force_internal_timer)) ec
            ec.flags
          >>= λ enabled. judge_clock enabled.0 enabled.1)
        w (give_gcd-Gives ec (gcd_get w.gcd ec.enable_notime) w fresh.0)
        (After-next (λ r w'. Clocked ec w r w') _ (notime_enable env _ ec ec.flags w) _
          (notime_enable-Clocked env _ ec ec.flags w (quiet _ _) fresh)
          λ enabled w1 h.
            Gives-add w w1 (held w.handler ec) (held w.handler enabled.1) _
              (Change-as _ _ 0 0 (omega (arith, zero_context w.handler, ap bare h.1.memmask))
                (omega arith) h.0)
              (omega (arith, ap (λ k. context k enabled.1.notime_thread_ctx) h.0.handler))
              (judge_clock-Gives enabled.0 enabled.1 w1 h.2))
    where
      zero_context : (h : Option ℕ) → context h ec.notime_thread_ctx ≡ 0
      zero_context none = rw fresh.1 refl
      zero_context (some h) = refl

  set_up-Gives :
      (ec : RandData) (w : World)
      → IsFresh ec
      → After (λ r w'. Gives w (held w.handler ec) r w') (set_up env time_entropy_init ec w)
  unfolding set_up
  set_up-Gives ec w fresh =
      let started = health_init ec (health_type ec.flags) in
      let kept = health_init-Kept ec (health_type ec.flags) in
      let same : held w.handler started.1 ≡ held w.handler ec =
        omega
          (arith, ap₂ (λ m c. bare m + context w.handler c) kept.memmask kept.notime_thread_ctx) in
      subst (λ n. After (λ r w'. Gives w n r w') (set_up env time_entropy_init ec w)) same
        (After-if (λ r w'. Gives w (held w.handler started.1) r w') started.0
          (set_clock env time_entropy_init started.1) (fail started.1) w
          (set_clock-Gives started.1 w
            (kept.notime_running ∙ fresh.0, kept.notime_thread_ctx ∙ fresh.1))
          (fail-Gives started.1 w (kept.notime_running ∙ fresh.0)))

  judge_memory-Gives :
      (osr flags : ℕ) (ec : RandData) (ok : Bool) (w w1 : World)
      → Change w w1 0 (if ok then 1 else 0) 0 0
      → IsFresh ec
      → ec.memmask ≡ 0
      → 2 ≤ jent_memsize flags
      → After
          (λ r w'. Gives w (held w.handler ec) r w')
          (judge_memory env time_entropy_init osr flags ec ok w1)
  unfolding judge_memory configure set_region
  judge_memory-Gives osr flags ec true w w1 c fresh none_yet size =
      Gives-add w w1 (held w.handler ec) (held w.handler ec + 1) _
        (Change-as _ _ 0 0 (omega arith) (omega arith) c)
        (rw (none_yet, c.handler) (ground (arith, size)))
        (set_up-Gives (configure env.fips osr flags (set_region ec (jent_memsize flags))) w1 fresh)
  judge_memory-Gives osr flags ec false w w1 c fresh none_yet size =
      Gives-add w w1 (held w.handler ec) (held w.handler ec) _
        (Change-as _ _ 0 0 (omega arith) (omega arith) c) (rw c.handler refl)
        (fail-Gives ec w1 fresh.0)

  set_memory-Gives :
      (osr flags : ℕ) (ec : RandData) (w : World)
      → IsFresh ec
      → ec.memmask ≡ 0
      → After
          (λ r w'. Gives w (held w.handler ec) r w')
          (set_memory env time_entropy_init osr flags ec w)
  unfolding set_memory configure
  set_memory-Gives osr flags ec w fresh none_yet =
      let sized = update_memsize env.cache_size flags 0 in
      After-if (λ r w'. Gives w (held w.handler ec) r w') (flag_set flags disable_memory_access)
        (set_up env time_entropy_init (configure env.fips osr flags ec))
        (zalloc env >>= judge_memory env time_entropy_init osr sized ec) w
        (set_up-Gives (configure env.fips osr flags ec) w fresh)
        (After-next (λ ok w'. Change w w' 0 (if ok then 1 else 0) 0 0) _ (zalloc env w) _
          (zalloc-Change env w)
          λ ok w1 c.
            judge_memory-Gives osr sized ec ok w w1 c fresh none_yet
              (omega (arith, (update_memsize_bounds env.cache_size flags 0).0)))

  judge_data-Gives :
      (osr flags : ℕ) (ok : Bool) (w w1 : World)
      → Change w w1 0 (if ok then 1 else 0) 0 0
      → After (λ r w'. Gives w 0 r w') (judge_data env time_entropy_init osr flags ok w1)
  unfolding judge_data
  judge_data-Gives osr flags true w w1 c =
      Gives-add w w1 0 1 _ c (new_held w1.handler)
        (set_memory-Gives osr flags _ w1 (refl, refl) refl)
    where
      new_held :
          (h : Option ℕ)
          → held h (record zero_data { max_mem_set = not (flags_to_max_memsize flags == 0) }) ≡ 1
      new_held none = refl
      new_held (some k) = refl
  judge_data-Gives osr flags false w w1 c = (c, tt)

  alloc_flagged-Gives :
      (osr flags : ℕ) (w : World)
      → After (λ r w'. Gives w 0 r w') (alloc_flagged env time_entropy_init osr flags w)
  unfolding alloc_flagged
  alloc_flagged-Gives osr flags w =
      After-if (λ (r : Option RandData) w'. Gives w 0 r w') _ (pure none)
        (zalloc env >>= judge_data env time_entropy_init osr flags) w (Change-refl w 0 0, tt)
        (After-next (λ ok w'. Change w w' 0 (if ok then 1 else 0) 0 0) _ (zalloc env w) _
          (zalloc-Change env w) λ ok w1 c. judge_data-Gives osr flags ok w w1 c)

  module _ (entropy_init_ex : ℕ → ℕ → M (Option InitError))
      (quiet_init : (osr flags : ℕ) → Quiet (entropy_init_ex osr flags)) where
    init_refuses-Quiet :
        (osr flags : ℕ) → Quiet (init_refuses env time_entropy_init entropy_init_ex osr flags)
    unfolding init_refuses
    init_refuses-Quiet osr flags w =
        After-if (λ (r : Bool) w'. Change w w' 0 0 0 0) _ (pure false)
          (entropy_init_ex osr flags >>= λ failed. pure (is_failure failed)) w (Change-refl w 0 0)
          (After-next (λ r w'. Change w w' 0 0 0 0) (λ (r : Bool) w'. Change w w' 0 0 0 0)
            (entropy_init_ex osr flags w) _ (quiet_init osr flags w) λ failed w1 c. c)

    alloc_tested-Gives :
        (osr flags : ℕ) (refused : Bool) (w w1 : World)
        → Change w w1 0 0 0 0
        → After (λ r w'. Gives w 0 r w') (alloc_tested env time_entropy_init osr flags refused w1)
    unfolding alloc_tested
    alloc_tested-Gives osr flags true w w1 c = (c, tt)
    alloc_tested-Gives osr flags false w w1 c =
        Gives-add w w1 0 0 _ c refl (alloc_flagged-Gives osr _ w1)

    -- What an allocation takes is what the collector holds; an allocation that fails at any point
    -- has given back all that it took, as long as the initializations within do.
    pub alloc_internal-Gives :
        (osr flags : ℕ) (w : World)
        → After
            (λ r w'. Gives w 0 r w')
            (alloc_internal env time_entropy_init entropy_init_ex osr flags w)
    unfolding alloc_internal
    alloc_internal-Gives osr flags w =
        After-if (λ (r : Option RandData) w'. Gives w 0 r w') _ (pure none)
          (init_refuses env time_entropy_init entropy_init_ex (ensure_osr_is_at_least_minimal osr)
              flags
            >>= alloc_tested env time_entropy_init (ensure_osr_is_at_least_minimal osr) flags)
          w (Change-refl w 0 0, tt)
          (After-next (λ r w'. Change w w' 0 0 0 0) _ _ _ (init_refuses-Quiet _ flags w)
            λ refused w1 c. alloc_tested-Gives _ flags refused w w1 c)
