-- ===== src/Reset/Taken.antt =====
-- What the startup of a collector takes and gives back.
use jitterentropy_library.Prelude.{ℕ, ◌≡◌, arith, Bool, false, Option, none, some, subst, ap}
use jitterentropy_library.Prelude.{◌⊎◌}
use jitterentropy_library.Collector.{RandData}
use jitterentropy_library.World.{Env, World, M, pure, After, After-next, After-imp, After-if}
use jitterentropy_library.World.Changes.{Change, Change-trans, Change-as}
use jitterentropy_library.Timer.{notime_settick, notime_unsettick}
use jitterentropy_library.Timer.Changes.{
  held, held_opt, ticks, KeptIdle, notime_settick-Change, notime_unsettick-Change,
}
use jitterentropy_library.Alloc.{collector_free, fail}
use jitterentropy_library.Alloc.Released.{collector_free-Change}
use jitterentropy_library.Init.Parts.{held-Kept}
use jitterentropy_library.Reset.{start_or_free, finish_startup}

-- A collector, if there is one, without a thread.
abbrev pub IsStopped : Option RandData → Type 0
IsStopped none = Unit {0}
IsStopped (some ec) = ticks ec ≡ 0

-- An operation that the caller began with `before` allocations and `ticking` threads, and that
-- gives a collector without a thread or releases all.
abbrev pub Yields : World → ℕ → ℕ → Option RandData → World → Type 0
Yields w before ticking r w' = Change w w' before (held_opt w.handler r) ticking 0 × IsStopped r

-- The rest of an operation, behind a change.
pub Yields-add :
    (w w1 : World) (a b p q : ℕ) {x : ℕ} (o : Option (Option RandData × World))
    → Change w w1 a b p q
    → x ≡ b
    → After (λ r w'. Yields w1 x q r w') o
    → After (λ r w'. Yields w a p r w') o
Yields-add w w1 a b p q o c e rest =
    After-imp _ (λ r w'. Yields w a p r w') o rest
      λ r w' h. (
        Change-trans c (
            subst (λ k. Change w1 w' b (held_opt k r) q 0) c.handler
              (subst (λ n. Change w1 w' n (held_opt w1.handler r) q 0) e h.0)),
        h.1,
      )

pub fail-Yields :
    (ec : RandData) (w : World)
    → After (λ r w'. Yields w (held w.handler ec) (ticks ec) r w') (fail ec w)
fail-Yields ec w =
    After-next (λ r w'. Change w w' (held w.handler ec) 0 (ticks ec) 0)
      (λ (r : Option RandData) w'. Yields w (held w.handler ec) (ticks ec) r w')
      (collector_free ec w) (λ r. pure none) (collector_free-Change ec w) (λ r w' c. (c, tt))

-- Under any world, with what the collector holds.
abbrev pub Takes : (RandData → M (Option RandData)) → Type 0
Takes f =
    (ec : RandData) (w : World)
    → After (λ r w'. Yields w (held w.handler ec) (ticks ec) r w') (f ec w)

-- The same of a collector without a thread.
abbrev pub TakesStopped : (RandData → M (Option RandData)) → Type 0
TakesStopped f =
    (ec : RandData) (w : World)
    → ticks ec ≡ 0
    → After (λ r w'. Yields w (held w.handler ec) 0 r w') (f ec w)

pub finish_startup-Takes : (env : Env) (fuel : ℕ) → Takes (finish_startup env fuel)
unfolding finish_startup
finish_startup-Takes env fuel ec w =
    After-next (λ r w'. Change w w' 0 0 (ticks ec) 0 × KeptIdle ec r × (ticks r ≡ 0))
      (λ (r : Option RandData) w'. Yields w (held w.handler ec) (ticks ec) r w')
      (notime_unsettick ec w) (λ stopped. pure (some stopped)) (notime_unsettick-Change ec w)
      λ stopped w1 h. (
        Change-as _ _ _ _
            (omega (
              arith,
              held-Kept w.handler ec (record stopped { notime_running = ec.notime_running }) h.1,
            ))
            (omega arith) h.0,
        h.2,
      )

pub start_or_free-Takes :
    (env : Env) (fuel : ℕ) (then_do : RandData → M (Option RandData))
    → Takes then_do
    → TakesStopped (start_or_free env fuel then_do)
unfolding start_or_free
start_or_free-Takes env fuel then_do takes ec w stopped =
    After-next
      (λ (r : Bool × RandData) w'.
        Change w w' 0 0 0 (ticks r.1) × KeptIdle ec r.1 × ((r.0 ≡ false) ⊎ (ticks r.1 ≡ 0)))
      (λ (r : Option RandData) w'. Yields w (held w.handler ec) 0 r w') (notime_settick env ec w) _
      (notime_settick-Change env ec w stopped)
      λ ticking w1 h.
        Yields-add w w1 (held w.handler ec) (held w.handler ec) 0 (ticks ticking.1) _
          (Change-as _ _ _ _ (omega arith) (omega arith) h.0)
          (omega (
            arith,
            ap (λ k. held k ticking.1) h.0.handler,
            held-Kept w.handler ec (record (ticking.1) { notime_running = ec.notime_running }) h.1,
          ))
          (After-if (λ r w'. Yields w1 (held w1.handler ticking.1) (ticks ticking.1) r w') ticking.0
            (fail ticking.1) (then_do ticking.1) w1 (fail-Yields ticking.1 w1) (takes ticking.1 w1))
