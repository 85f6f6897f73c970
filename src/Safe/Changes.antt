-- ===== src/Safe/Changes.antt =====
-- What a safe read takes and gives back.
use jitterentropy_library.Prelude.{
  ℕ, zero, suc, ◌≡◌, refl, arith, ◌∙◌, List, [], Option, none, some, subst, sym, ap₂, Bool, true,
  false, ◌⊎◌, ◌&&◌, ◌+◌, if◌then◌else◌, inl,
}
use jitterentropy_library.Prelude.{inr, Ends, ◌==◌, length, take}
use mathlib.Core.Bool.{true≢false}
use jitterentropy_library.Collector.{RandData}
use jitterentropy_library.Health.Failure.{Error}
use jitterentropy_library.Read.{
  Return, bytes, error, Outcome, clamped_len, read_nothing, refuse_notime,
}
use jitterentropy_library.Read.Thread.{
  note_read, read_ticking, read_started, stop_reading, read_entropy,
}
use jitterentropy_library.Read.Shape.{KeptUncounted, Shaped, read_running-Shaped, nothing-Shaped}
use jitterentropy_library.World.{Env, World, M, ◌>>=◌, pure, After, After-next, After-imp, After-if}
use jitterentropy_library.World.Changes.{
  Change, Change-refl, Change-trans, Change-as, Change-add, Latched, Latched-refl,
}
use jitterentropy_library.Timer.{notime_settick, notime_unsettick}
use jitterentropy_library.Timer.Changes.{
  held, ticks, context, KeptIdle, notime_settick-Change, notime_unsettick-Change,
}
use jitterentropy_library.Reset.{health_failure_reset}
use jitterentropy_library.Reset.Changes.{Resets}
use jitterentropy_library.Reset.Startup.{health_failure_reset-Resets}
use jitterentropy_library.Safe.{
  SafeOutcome, is_intermittent, retry, judge_read, safe_loop, read_nothing_safe, read_entropy_safe,
}

-- A read changes the callback's calls and the number of requests only.
note_read-Change :
    (ec : RandData) (w : World) (o : Option Outcome)
    → Ends (Shaped ec w.process) o
    → After (λ r w'. Change w w' 0 0 0 0 × KeptUncounted ec r.machine.ec) (note_read w o)
unfolding note_read
note_read-Change ec w none h = tt
note_read-Change ec w (some o) h = (
  record {
    memory = refl;
    threads = refl;
    forced = Latched-refl w.forced;
    switch_blocked = Latched-refl w.switch_blocked;
    cb_blocked =
        subst (Latched w.process.cb_switch_blocked) (sym (h.1).1)
          (Latched-refl w.process.cb_switch_blocked);
    platform = inr refl;
    notime = inr refl;
    handler = refl;
    notime_cpu = refl;
    fips_cb = (h.1).0;
  },
  h.0,
)

-- An operation that began with the collector `ec`: what the caller holds is what the collector
-- holds that is given back, without a thread.
abbrev pub Hands : World → RandData → SafeOutcome → World → Type 0
Hands w ec o w' = Change w w' (held w.handler ec) (held w.handler o.ec) 0 0 × (ticks o.ec ≡ 0)

Hands-add :
    (w w1 : World) (a b : RandData) (o : Option (SafeOutcome × World))
    → Change w w1 (held w.handler a) (held w.handler b) 0 0
    → After (λ r w'. Hands w1 b r w') o
    → After (λ r w'. Hands w a r w') o
Hands-add w w1 a b o c rest =
    After-imp (λ r w'. Hands w1 b r w') (λ r w'. Hands w a r w') o rest
      λ r w' h.
        (Change-trans c (subst (λ k. Change w1 w' (held k b) (held k r.ec) 0 0) c.handler h.0), h.1)

module _ (env : Env) (fuel : ℕ) where
  read_ticking-Change :
      (buffer : List ℕ) (ec : RandData) (w : World)
      → After
          (λ r w'. Change w w' 0 0 0 0 × KeptUncounted ec r.machine.ec)
          (read_ticking env fuel buffer ec w)
  unfolding read_ticking
  read_ticking-Change buffer ec w = note_read-Change ec w _ (
      read_running-Shaped (env.clock ec.enable_notime) fuel (record { ec = ec; reads = w.reads })
        w.process buffer)

  -- The thread that the read was given is stopped.
  stop_reading-Change :
      (o : Outcome) (w : World)
      → After
          (λ r w'.
            Change w w' 0 0 (ticks o.machine.ec) 0
            × KeptIdle o.machine.ec r.machine.ec
            × (ticks r.machine.ec ≡ 0))
          (stop_reading o w)
  unfolding stop_reading
  stop_reading-Change o w =
      After-next
        (λ r w'. Change w w' 0 0 (ticks o.machine.ec) 0 × KeptIdle o.machine.ec r × (ticks r ≡ 0))
        (λ (r : Outcome) w'.
          Change w w' 0 0 (ticks o.machine.ec) 0
          × KeptIdle o.machine.ec r.machine.ec
          × (ticks r.machine.ec ≡ 0))
        (notime_unsettick o.machine.ec w) _ (notime_unsettick-Change o.machine.ec w)
        (λ stopped w1 h. h)

  -- A read changes nothing of what is held, and leaves no thread.
  abbrev Rests : RandData → World → Outcome → World → Type 0
  Rests ec w r w' =
      Change w w' (held w.handler ec) (held w.handler r.machine.ec) 0 0 × (ticks r.machine.ec ≡ 0)

  -- The same allocations.
  held-same :
      (h : Option ℕ) (a b : RandData)
      → b.memmask ≡ a.memmask
      → b.notime_thread_ctx ≡ a.notime_thread_ctx
      → held h b ≡ held h a
  held-same h a b mask ctx = ap₂ (λ m c. 1 + (if m == 0 then 0 else 1) + context h c) mask ctx

  read_started-Rests :
      (ec : RandData) (buffer : List ℕ) (started : Bool × RandData) (w w1 : World)
      → Change w w1 0 0 0 (ticks started.1)
      → KeptIdle ec started.1
      → (started.0 ≡ false) ⊎ (ticks started.1 ≡ 0)
      → After (Rests ec w) (read_started env fuel buffer started w1)
  unfolding read_started refuse_notime
  read_started-Rests ec buffer (true, failed) w w1 c same (inl ran) = absurd (true≢false ran)
  read_started-Rests ec buffer (true, failed) w w1 c same (inr idle) = (
    Change-as _ _ 0 0
        (omega (arith, held-same w.handler ec failed same.memmask same.notime_thread_ctx))
        (omega (arith, idle)) c,
    idle,
  )
  read_started-Rests ec buffer (false, started) w w1 c same running =
      After-next (λ r w'. Change w1 w' 0 0 0 0 × KeptUncounted started r.machine.ec) (Rests ec w)
        (read_ticking env fuel buffer started w1) stop_reading
        (read_ticking-Change buffer started w1)
        λ o w2 h. After-imp _ (Rests ec w) (stop_reading o w2) (stop_reading-Change o w2) λ r w3 k.
          let same_ticks : ticks o.machine.ec ≡ ticks started =
            ap₂ (λ e t. if e && t then 1 else 0) h.1.enable_notime h.1.notime_running in
          let all_held : held w.handler r.machine.ec ≡ held w.handler ec =
            held-same w.handler ec r.machine.ec (k.1.memmask ∙ h.1.memmask ∙ same.memmask)
              (k.1.notime_thread_ctx ∙ h.1.notime_thread_ctx ∙ same.notime_thread_ctx) in
          (
            Change-as _ _ 0 0 (omega (arith, all_held)) (omega (arith, same_ticks))
                (Change-add (Change-add c h.0) k.0),
            k.2,
          )

  read_nothing-Rests :
      (ec : RandData) (buffer : List ℕ) (w : World)
      → ticks ec ≡ 0
      → After
          (Rests ec w)
          (note_read w (some (read_nothing (record { ec = ec; reads = w.reads }) w.process buffer)))
  read_nothing-Rests ec buffer w stopped =
      After-imp _ (Rests ec w)
        (note_read w (some (read_nothing (record { ec = ec; reads = w.reads }) w.process buffer)))
        (note_read-Change ec w _
          (nothing-Shaped (record { ec = ec; reads = w.reads }) w.process buffer))
        λ r w' h. (
          Change-as _ _ 0 0
              (omega (arith, held-same w.handler ec r.machine.ec h.1.memmask h.1.notime_thread_ctx))
              (omega arith) h.0,
          ap₂ (λ e t. if e && t then 1 else 0) h.1.enable_notime h.1.notime_running ∙ stopped,
        )

  pub read_entropy-Rests :
      (ec : RandData) (buffer : List ℕ) (w : World)
      → ticks ec ≡ 0
      → After (Rests ec w) (read_entropy env fuel ec buffer w)
  unfolding read_entropy
  read_entropy-Rests ec buffer w stopped =
      After-if (Rests ec w) (length buffer == 0)
        (λ v.
          note_read v (some (read_nothing (record { ec = ec; reads = v.reads }) v.process buffer)))
        _ w (read_nothing-Rests ec buffer w stopped)
        (After-next
          (λ r w'.
            Change w w' 0 0 0 (ticks r.1) × KeptIdle ec r.1 × ((r.0 ≡ false) ⊎ (ticks r.1 ≡ 0)))
          (Rests ec w) (notime_settick env ec w) (read_started env fuel buffer)
          (notime_settick-Change env ec w stopped)
          λ started w1 h. read_started-Rests ec buffer started w w1 h.0 h.1 h.2)

  module _ (again : List ℕ → List ℕ → RandData → M SafeOutcome)
      (hands : (done rest : List ℕ) (ec : RandData) (w : World)
        → ticks ec ≡ 0
        → After (λ o w'. Hands w ec o w') (again done rest ec w)) where
    retry-Hands :
        (done : List ℕ) (o : Outcome) (e : Error) (replaced : Option RandData) (w w1 : World)
        → ticks o.machine.ec ≡ 0
        → Resets o.machine.ec w replaced w1
        → After (λ r w'. Hands w o.machine.ec r w') (retry env fuel again done o e replaced w1)
    unfolding retry
    retry-Hands done o e none w w1 stopped c =
        (Change-as _ _ 0 0 (omega arith) (omega arith) c, stopped)
    retry-Hands done o e (some new_ec) w w1 stopped h =
        Hands-add w w1 o.machine.ec new_ec _
          (subst (λ t. Change w w1 (held w.handler o.machine.ec) (held w.handler new_ec) t 0)
            stopped h.0)
          (hands done o.data_out new_ec w1 h.1)

    judge_read-Hands :
        (done : List ℕ) (o : Outcome) (return : Return) (w : World)
        → ticks o.machine.ec ≡ 0
        → After (λ r w'. Hands w o.machine.ec r w') (judge_read env fuel again done o return w)
    unfolding judge_read
    judge_read-Hands done o (bytes n) w stopped = hands _ _ o.machine.ec w stopped
    judge_read-Hands done o (error e) w stopped =
        After-if (λ (r : SafeOutcome) w'. Hands w o.machine.ec r w') (is_intermittent e)
          (health_failure_reset env fuel o.machine.ec >>= retry env fuel again done o e) (pure _) w
          (After-next (λ r w'. Resets o.machine.ec w r w')
            (λ (r : SafeOutcome) w'. Hands w o.machine.ec r w')
            (health_failure_reset env fuel o.machine.ec w) (retry env fuel again done o e)
            (health_failure_reset-Resets env fuel o.machine.ec w)
            λ replaced w1 h. retry-Hands done o e replaced w w1 stopped h)
          (Change-refl w _ 0, stopped)

  safe_loop-Hands :
      (rounds : ℕ) (done rest : List ℕ) (ec : RandData) (w : World)
      → ticks ec ≡ 0
      → After (λ o w'. Hands w ec o w') (safe_loop env fuel rounds done rest ec w)
  unfolding safe_loop
  safe_loop-Hands zero done rest ec w stopped = tt
  safe_loop-Hands (suc rounds) done rest ec w stopped =
      After-if (λ (r : SafeOutcome) w'. Hands w ec r w') (length rest == 0) (pure _) _ w
        (Change-refl w _ 0, stopped)
        (After-next
          (λ r w'.
            Change w w' (held w.handler ec) (held w.handler r.machine.ec) 0 0
            × (ticks r.machine.ec ≡ 0))
          (λ (r : SafeOutcome) w'. Hands w ec r w') (read_entropy env fuel ec rest w)
          (λ o. judge_read env fuel (safe_loop env fuel rounds) done o o.return)
          (read_entropy-Rests ec rest w stopped)
          λ o w1 h. Hands-add w w1 ec o.machine.ec _ h.0 (
            judge_read-Hands (safe_loop env fuel rounds) (safe_loop-Hands rounds) done o o.return w1
              h.1))

  -- A safe read with a collector without a thread, where it returns, hands back a collector without
  -- a thread, and the allocations that are live have changed by exactly the difference of what the
  -- two collectors hold: no reset on the way, passed or failed, keeps memory or a thread. The
  -- internal timer stays forced, an established divisor stays, no window of configuration opens
  -- again, and the handler, the callback and the CPU of the timer are those registered before.
  pub read_entropy_safe-Hands :
      (ec : RandData) (buffer : List ℕ) (w : World)
      → ticks ec ≡ 0
      → After (λ o w'. Hands w ec o w') (read_entropy_safe env fuel ec buffer w)
  unfolding read_entropy_safe read_nothing_safe
  read_entropy_safe-Hands ec buffer w stopped =
      After-if (λ (r : SafeOutcome) w'. Hands w ec r w') (length buffer == 0)
        (read_nothing_safe env fuel ec buffer) _ w
        (After-next
          (λ r w'.
            Change w w' (held w.handler ec) (held w.handler r.machine.ec) 0 0
            × (ticks r.machine.ec ≡ 0))
          (λ (r : SafeOutcome) w'. Hands w ec r w') (read_entropy env fuel ec buffer w) _
          (read_entropy-Rests ec buffer w stopped) (λ o w1 h. h))
        (After-next (λ (r : SafeOutcome) w'. Hands w ec r w')
          (λ (r : SafeOutcome) w'. Hands w ec r w')
          (safe_loop env fuel fuel [] (take (clamped_len buffer) buffer) ec w) _
          (safe_loop-Hands fuel [] (take (clamped_len buffer) buffer) ec w stopped) (λ o w1 h. h))
