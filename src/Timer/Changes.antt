-- ===== src/Timer/Changes.antt =====
-- What the operations of src/jitterentropy-timer.c take and give back.
use jitterentropy_library.Prelude.{
  ℕ, ◌+◌, ◌≡◌, inl, inr, refl, arith, ◌⊎◌, Bool, true, false, Option, none, some, ◌&&◌, ◌==◌,
}
use jitterentropy_library.Prelude.{if◌then◌else◌, Bool-cases, ltb}
use jitterentropy_library.Collector.{RandData}
use jitterentropy_library.Health.Stuck.Kept.{Kept, Kept-refl}
use jitterentropy_library.World.{
  Env, World, pure, After, After-next, After-imp, After-if, zalloc, zfree,
}
use jitterentropy_library.World.Changes.{Change, Change-counts, Change-refl, Change-trans, Quiet}
use jitterentropy_library.Timer.{
  NotimeError, builtin_answer, external_answer, new_context, init_on, handler_start, note_start,
  notime_settick, notime_unsettick, notime_init_flags, handler_init, notime_enable_thread,
  handler_fini, notime_disable, ask,
}

abbrev pub context : Option ℕ → Bool → ℕ
context none true = 1
context none false = 0
context (some h) c = 0

-- The allocations that a collector holds under the registered handler: itself, its memory region,
-- and the context of the builtin handler.
abbrev pub held : Option ℕ → RandData → ℕ
held h ec = 1 + (if ec.memmask == 0 then 0 else 1) + context h ec.notime_thread_ctx

abbrev pub held_opt : Option ℕ → Option RandData → ℕ
held_opt h none = 0
held_opt h (some ec) = held h ec

-- The threads of a collector.
abbrev pub ticks : RandData → ℕ
ticks ec = if ec.enable_notime && ec.notime_running then 1 else 0

-- The world behind the n-th request.
pub request-Change : (w : World) → Change w (record w { reads = w.reads + 1 }) 0 0 0 0
request-Change w = Change-counts w _ _ _ _ _ 0 0 0 0 refl refl

pub zalloc-Change :
    (env : Env) (w : World)
    → After (λ ok w'. Change w w' 0 (if ok then 1 else 0) 0 0) (zalloc env w)
unfolding zalloc
zalloc-Change env w = elim (Bool-cases (env.memory w.reads)) [
  | inl there ↦ rw there (Change-counts w _ _ _ _ _ 0 1 0 0 (omega arith) (omega arith))
  | inr refused ↦ rw refused (request-Change w)
]

pub zfree-Change : (w : World) → After (λ r w'. Change w w' 1 0 0 0) (zfree w)
unfolding zfree
zfree-Change w = Change-counts w _ _ _ _ _ 1 0 0 0 (omega arith) (omega arith)

handler_start-Quiet :
    (env : Env) (handler : Option ℕ) (ctx : Bool) → Quiet (handler_start env handler ctx)
unfolding handler_start ask
handler_start-Quiet env (some h) ctx w = request-Change w
handler_start-Quiet env none true w = request-Change w
handler_start-Quiet env none false w = Change-refl w 0 0

-- The collector but for its thread.
abbrev pub KeptIdle : RandData → RandData → Type 0
KeptIdle a b = Kept a (record b { notime_running = a.notime_running })

note_start-Change :
    (env : Env) (ec : RandData) (started : Bool) (w : World)
    → ec.notime_running ≡ false
    → ec.enable_notime ≡ true
    → After
        (λ r w'.
          Change w w' 0 0 0 (ticks r.1) × KeptIdle ec r.1 × ((r.0 ≡ false) ⊎ (ticks r.1 ≡ 0)))
        (note_start env ec started w)
unfolding note_start
note_start-Change env ec true w idle on =
    (rw on (Change-counts w _ _ _ _ _ 0 0 0 1 (omega arith) (omega arith)), Kept-refl ec, inl refl)
note_start-Change env ec false w idle on =
    (rw (on, idle) (Change-refl w 0 0), Kept-refl ec, inr (rw (on, idle) refl))

-- A start that fails leaves the collector without a thread; one that succeeds makes a thread, if
-- the collector has the internal timer.
pub notime_settick-Change :
    (env : Env) (ec : RandData) (w : World)
    → ticks ec ≡ 0
    → After
        (λ r w'.
          Change w w' 0 0 0 (ticks r.1) × KeptIdle ec r.1 × ((r.0 ≡ false) ⊎ (ticks r.1 ≡ 0)))
        (notime_settick env ec w)
unfolding notime_settick
notime_settick-Change env ec w none_yet = elim (Bool-cases ec.enable_notime) [
  | inr off ↦ rw off (Change-refl w 0 0, Kept-refl _, inl refl)
  | inl on ↦
      let idle : ec.notime_running ≡ false = ground (arith, on, none_yet) in
      let started =
        After-next (λ started w'. Change w w' 0 0 0 0)
          (λ (r : Bool × RandData) w'.
            Change w w' 0 0 0 (ticks r.1) × KeptIdle ec r.1 × ((r.0 ≡ false) ⊎ (ticks r.1 ≡ 0)))
          (handler_start env w.handler ec.notime_thread_ctx w) (note_start env ec)
          (handler_start-Quiet env w.handler ec.notime_thread_ctx w)
          λ started w' c.
            After-imp _ _ (note_start env ec started w')
              (note_start-Change env ec started w' idle on)
              λ r w'' h. (Change-trans c h.0, h.1, h.2) in
      rw on (rw on at started)
]

pub notime_unsettick-Change :
    (ec : RandData) (w : World)
    → After
        (λ r w'. Change w w' 0 0 (ticks ec) 0 × KeptIdle ec r × (ticks r ≡ 0))
        (notime_unsettick ec w)
unfolding notime_unsettick
notime_unsettick-Change ec w = elim (Bool-cases ec.enable_notime) [
  | inr off ↦ rw off (Change-refl w 0 0, Kept-refl _, refl)
  | inl on ↦ elim (Bool-cases ec.notime_running) [
    | inr idle ↦ rw (on, idle) (Change-refl w 0 0, Kept-refl _, refl)
    | inl running ↦
        rw (on, running)
          (Change-counts w _ _ _ _ _ 0 0 1 0 (omega arith) (omega arith), Kept-refl _, refl)
  ]
]

handler_fini-Change :
    (handler : Option ℕ) (w : World)
    → After (λ r w'. Change w w' (context handler true) 0 0 0) (handler_fini handler w)
unfolding handler_fini
handler_fini-Change none w = zfree-Change w
handler_fini-Change (some h) w = Change-refl w 0 0

-- The collector but for its context.
abbrev pub KeptBare : RandData → RandData → Type 0
KeptBare a b = Kept a (record b { notime_thread_ctx = a.notime_thread_ctx })

pub notime_disable-Change :
    (ec : RandData) (w : World)
    → After
        (λ r w'. Change w w' (context w.handler ec.notime_thread_ctx) 0 0 0 × KeptBare ec r)
        (notime_disable ec w)
unfolding notime_disable
notime_disable-Change ec w = elim (Bool-cases ec.notime_thread_ctx) [
  | inl there ↦
      let freed =
        After-next (λ (r : Unit {0}) w'. Change w w' (context w.handler true) 0 0 0)
          (λ (r : RandData) w'. Change w w' (context w.handler true) 0 0 0 × KeptBare ec r)
          (handler_fini w.handler w) (λ r. pure (record ec { notime_thread_ctx = false }))
          (handler_fini-Change w.handler w) λ r w' c. (c, Kept-refl ec) in
      rw there (rw there at freed)
  | inr absent ↦ rw absent (none_held w.handler, Kept-refl _)
]
  where
    none_held : (h : Option ℕ) → Change w w (context h false) 0 0 0
    none_held none = Change-refl w 0 0
    none_held (some h) = Change-refl w 0 0

-- What the registered handler gives: a context that it holds, or an error and none.
abbrev Answers : Option ℕ → World → Option NotimeError × Bool → World → Type 0
Answers handler w r w' = Change w w' 0 (context handler r.1) 0 0 × ((r.0 ≡ none) ⊎ (r.1 ≡ false))

new_context-Change :
    (env : Env) (w : World)
    → After (λ failed w'. Answers none w (builtin_answer failed) w') (new_context env w)
unfolding new_context builtin_answer
new_context-Change env w =
    After-next (λ ok w'. Change w w' 0 (if ok then 1 else 0) 0 0)
      (λ failed w'. Answers none w (builtin_answer failed) w') (zalloc env w) _
      (zalloc-Change env w) λ ok w' c. by_answer ok w' c
  where
    by_answer :
        (ok : Bool) (w' : World)
        → Change w w' 0 (if ok then 1 else 0) 0 0
        → Answers none w (builtin_answer (if ok then none else some NotimeError.enomem)) w'
    by_answer true w' c = (c, inl refl)
    by_answer false w' c = (c, inr refl)

init_on-Change :
    (env : Env) (ncpu : Option ℕ) (w : World)
    → After (λ failed w'. Answers none w (builtin_answer failed) w') (init_on env ncpu w)
unfolding init_on builtin_answer
init_on-Change env none w = (Change-refl w 0 0, inr refl)
init_on-Change env (some n) w =
    After-if (λ failed w'. Answers none w (builtin_answer failed) w') (ltb n 2)
      (pure (some NotimeError.enoent)) (new_context env) w (Change-refl w 0 0, inr refl)
      (new_context-Change env w)

external-Answers :
    (h : ℕ) (answer : Option Bool) (w : World)
    → Answers (some h) w (external_answer answer) (record w { reads = w.reads + 1 })
unfolding external_answer
external-Answers h none w = (request-Change w, inr refl)
external-Answers h (some ctx) w = (request-Change w, inl refl)

handler_init-Change :
    (env : Env) (handler : Option ℕ) (w : World)
    → After (λ r w'. Answers handler w r w') (handler_init env handler w)
unfolding handler_init ask notime_init_flags
handler_init-Change env none w =
    After-next (λ failed w'. Answers none w (builtin_answer failed) w')
      (λ r w'. Answers none w r w') (notime_init_flags env w) _ (init_on-Change env env.ncpu w)
      (λ failed w' h. h)
handler_init-Change env (some h) w = external-Answers h (env.handler_init w.reads) w

-- The clock of the counting thread comes with the context of its handler, or with none.
pub notime_enable_thread-Change :
    (env : Env) (ec : RandData) (w : World)
    → After
        (λ r w'.
          Change w w' 0 (context w.handler r.1.notime_thread_ctx) 0 0
          × KeptBare ec r.1
          × ((r.0 ≡ none) ⊎ (r.1.notime_thread_ctx ≡ false)))
        (notime_enable_thread env ec w)
unfolding notime_enable_thread
notime_enable_thread-Change env ec w =
    After-next (λ r w'. Answers w.handler w r w')
      (λ r w'.
        Change w w' 0 (context w.handler r.1.notime_thread_ctx) 0 0
        × KeptBare ec r.1
        × ((r.0 ≡ none) ⊎ (r.1.notime_thread_ctx ≡ false)))
      (handler_init env w.handler w) _ (handler_init-Change env w.handler w)
      λ r w' h. (h.0, Kept-refl ec, h.1)
