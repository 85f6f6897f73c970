-- ===== src/Reset/Changes.antt =====
-- What the startup, the reset and the allocation of a collector take and give back.
use jitterentropy_library.Prelude.{
  ℕ, zero, suc, ◌+◌, ◌≡◌, refl, arith, ◌∙◌, Option, none, some, subst, ap, bool_eq,
}
use jitterentropy_library.Prelude.{ltb, Bool-cases, inl, inr}
use jitterentropy_library.Collector.{RandData, max_osr}
use jitterentropy_library.Gcd.{InitError}
use jitterentropy_library.Health.Stuck.{health_duplicate}
use jitterentropy_library.World.{Env, World, M, ◌>>=◌, pure, After, After-next, After-imp, After-if}
use jitterentropy_library.World.Changes.{
  Change, Change-refl, Change-trans, Change-as, Change-add, Quiet,
}
use jitterentropy_library.World.Quiet.{Quiet-next, Quiet-if, Quiet-pure}
use jitterentropy_library.Timer.Changes.{held, held_opt, ticks}
use jitterentropy_library.Alloc.{alloc_internal, collector_free}
use jitterentropy_library.Alloc.Released.{collector_free-Change}
use jitterentropy_library.Alloc.Changes.{alloc_internal-Gives, Gives, IsIdle, ticks-zero}
use jitterentropy_library.Init.{entropy_init_ex, time_entropy_init}
use jitterentropy_library.Init.Changes.{time_entropy_init-Quiet}
use jitterentropy_library.Init.Entropy.{entropy_init_ex-Quiet}
use jitterentropy_library.Reset.{
  carry_over, reset_flags, if_some, alloc_ready, climb_on, climb, replace, reset_with_new, reset_at,
  reset_with,
}
use jitterentropy_library.Reset.Taken.{IsStopped, Yields, TakesStopped}

climb-Quiet : (env : Env) (fuel left osr flags : ℕ) → Quiet (climb env fuel left osr flags)
unfolding climb
climb-Quiet env fuel zero osr flags = Quiet-pure {A = Option ℕ} none
climb-Quiet env fuel (suc left) osr flags =
    Quiet-next (entropy_init_ex env fuel osr flags) _ (entropy_init_ex-Quiet env fuel osr flags)
      (climb_on-Quiet (climb-Quiet env fuel left (osr + 1) flags))
  where
    climb_on-Quiet :
        Quiet (climb env fuel left (osr + 1) flags)
        → (failed : Option InitError)
        → Quiet (climb_on env fuel (climb env fuel left (osr + 1) flags) osr failed)
    climb_on-Quiet quiet none = Quiet-pure (some osr)
    climb_on-Quiet quiet (some e) =
        Quiet-if (ltb max_osr (osr + 1)) (pure {A = Option ℕ} none) _
          (Quiet-pure {A = Option ℕ} none) quiet

pub alloc_ready-Yields :
    (env : Env) (fuel osr flags : ℕ) (w : World)
    → After (λ r w'. Yields w 0 0 r w') (alloc_ready env fuel osr flags w)
unfolding alloc_ready
alloc_ready-Yields env fuel osr flags w =
    After-imp (λ r w'. Gives w 0 r w') _
      (alloc_internal env (time_entropy_init env fuel) (entropy_init_ex env fuel) osr flags w)
      (alloc_internal-Gives env (time_entropy_init env fuel) (time_entropy_init-Quiet env fuel)
        (entropy_init_ex env fuel) (entropy_init_ex-Quiet env fuel) osr flags w)
      λ r w' g. (g.0, stopped r g.1)
  where
    stopped : (r : Option RandData) → IsIdle r → IsStopped r
    stopped none h = tt
    stopped (some ec) h = ticks-zero ec h

health_duplicate-held :
    (h : Option ℕ) (new_ec old : RandData)
    → (held h (health_duplicate new_ec old) ≡ held h new_ec)
      × (ticks (health_duplicate new_ec old) ≡ ticks new_ec)
unfolding health_duplicate
health_duplicate-held h new_ec old =
    elim (Bool-cases (bool_eq new_ec.enable_notime old.enable_notime)) [
      | inl same ↦ rw same (refl, refl)
      | inr other ↦ rw other (refl, refl)
    ]

-- What a reset has done: the replacement for the old collector, or nothing.
abbrev pub Resets : RandData → World → Option RandData → World → Type 0
Resets old w none w' = Change w w' 0 0 0 0
Resets old w (some new_ec) w' =
    Change w w' (held w.handler old) (held w.handler new_ec) (ticks old) 0 × (ticks new_ec ≡ 0)

replace-Resets :
    (env : Env) (fuel : ℕ) (old new_ec : RandData) (w w1 : World)
    → Change w w1 0 (held w.handler new_ec) 0 0
    → ticks new_ec ≡ 0
    → After (λ r w'. Resets old w r w') (replace env fuel old new_ec w1)
unfolding replace
replace-Resets env fuel old new_ec w w1 c stopped =
    After-next (λ r w'. Change w1 w' (held w1.handler old) 0 (ticks old) 0)
      (λ (r : Option RandData) w'. Resets old w r w') (collector_free old w1)
      (λ r. pure (some (health_duplicate new_ec old))) (collector_free-Change old w1)
      λ r w2 d. (
        Change-as _ _ _ _
            (omega (
              arith,
              (health_duplicate-held w.handler new_ec old).0,
              ap (λ k. held k old) c.handler,
            ))
            (omega (arith, (health_duplicate-held w.handler new_ec old).1)) (Change-add c d),
        (health_duplicate-held w.handler new_ec old).1 ∙ stopped,
      )

module _ (env : Env) (fuel : ℕ) (startup : RandData → M (Option RandData))
    (takes : TakesStopped startup) where
  if_some-Resets :
      (old : RandData) (started : Option RandData) (w w1 : World)
      → Change w w1 0 (held_opt w.handler started) 0 0
      → IsStopped started
      → After (λ r w'. Resets old w r w') (if_some (replace env fuel old) started w1)
  unfolding if_some
  if_some-Resets old none w w1 c h = c
  if_some-Resets old (some new_ec) w w1 c h = replace-Resets env fuel old new_ec w w1 c h

  reset_with_new-Resets :
      (old : RandData) (allocated : Option RandData) (w w1 : World)
      → Change w w1 0 (held_opt w.handler allocated) 0 0
      → IsStopped allocated
      → After
          (λ r w'. Resets old w r w')
          (if_some (reset_with_new env fuel startup old) allocated w1)
  unfolding if_some reset_with_new carry_over
  reset_with_new-Resets old none w w1 c h = c
  reset_with_new-Resets old (some new_ec) w w1 c h =
      After-next (λ r w'. Yields w1 (held w1.handler (carry_over old new_ec)) 0 r w')
        (λ (r : Option RandData) w'. Resets old w r w') (startup (carry_over old new_ec) w1)
        (if_some (replace env fuel old)) (takes (carry_over old new_ec) w1 h)
        λ started w2 y.
          if_some-Resets old started w w2
            (Change-trans c
              (subst (λ k. Change w1 w2 (held k new_ec) (held_opt k started) 0 0) c.handler y.0))
            y.1

  reset_at-Resets :
      (old : RandData) (flags : ℕ) (climbed : Option ℕ) (w w1 : World)
      → Change w w1 0 0 0 0
      → After (λ r w'. Resets old w r w') (reset_at env fuel startup old flags climbed w1)
  unfolding reset_at
  reset_at-Resets old flags none w w1 c = c
  reset_at-Resets old flags (some osr) w w1 c =
      After-next (λ r w'. Yields w1 0 0 r w') (λ (r : Option RandData) w'. Resets old w r w')
        (alloc_ready env fuel osr flags w1) (if_some (reset_with_new env fuel startup old))
        (alloc_ready-Yields env fuel osr flags w1)
        λ allocated w2 y.
          reset_with_new-Resets old allocated w w2
            (Change-trans c (subst (λ k. Change w1 w2 0 (held_opt k allocated) 0 0) c.handler y.0))
            y.1

  pub reset_with-Resets :
      (old : RandData) (w : World)
      → After (λ r w'. Resets old w r w') (reset_with env fuel startup old w)
  unfolding reset_with
  reset_with-Resets old w =
      After-if (λ (r : Option RandData) w'. Resets old w r w') (ltb max_osr (old.osr + 1))
        (pure none)
        (climb env fuel max_osr (old.osr + 1) (reset_flags env.cache_size old)
          >>= reset_at env fuel startup old (reset_flags env.cache_size old))
        w (Change-refl w 0 0)
        (After-next (λ r w'. Change w w' 0 0 0 0) (λ (r : Option RandData) w'. Resets old w r w')
          (climb env fuel max_osr (old.osr + 1) (reset_flags env.cache_size old) w)
          (reset_at env fuel startup old (reset_flags env.cache_size old))
          (climb-Quiet env fuel max_osr (old.osr + 1) (reset_flags env.cache_size old) w)
          λ climbed w1 c. reset_at-Resets old (reset_flags env.cache_size old) climbed w w1 c)
