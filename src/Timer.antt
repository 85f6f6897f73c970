-- ===== src/Timer.antt =====
-- The timer thread, src/jitterentropy-timer.c: the handler that runs it, whether it is forced, and
-- the start and the stop of the thread of a collector.
--
-- `notime_thread` is never null: it starts as the builtin handler, and no null is registered. The
-- thread itself is the second clock of `Env`; the CPU that it is pinned to is only recorded. An
-- operation that fails gives true, or its error.
pub mod Changes
pub mod Clocked
pub mod Same
use jitterentropy_library.Prelude.{ℕ, ◌+◌, Bool, true, false, not, Option, none, some, ◌||◌, ◌&&◌}
use jitterentropy_library.Prelude.{ltb, if◌then◌else◌}
use jitterentropy_library.Collector.{RandData, force_internal_timer}
use jitterentropy_library.Config.{flag_set}
use jitterentropy_library.Gcd.{InitError}
use jitterentropy_library.World.{
  Env, World, M, next, ◌>>=◌, ◌>>◌, pure, gets, modify, zalloc, zfree,
}

pub data NotimeError : Type 0 where
  encpu enoent enomem einval eagain ehealth eexternal : NotimeError

unfoldable pub notime_block_switch : M (Unit {0})
notime_block_switch = modify λ w. record w { switch_blocked = true }

unfoldable pub notime_set_cpu : ℕ → M (Option NotimeError)
notime_set_cpu cpu = do
  blocked ← gets λ w. w.switch_blocked
  if blocked
      then pure (some NotimeError.eagain)
      else (do modify λ w. record w { notime_cpu = some cpu }; pure none)

-- What a caller hands over: the builtin handler, one that lacks a function, or one of its own.
pub data Handler : Type 0 where
  builtin incomplete : Handler
  external : ℕ → Handler

register : Handler → M (Option NotimeError)
register incomplete = pure (some NotimeError.einval)
register builtin = do modify λ w. record w { handler = none }; pure none
register (external h) = do modify λ w. record w { handler = some h }; pure none

unfoldable pub notime_switch : Handler → M (Option NotimeError)
unfolding register
notime_switch h = do
  blocked ← gets λ w. w.switch_blocked
  if blocked then pure (some NotimeError.eagain) else register h

unfoldable pub notime_force : M (Unit {0})
notime_force = modify λ w. record w { forced = true }

unfoldable pub notime_forced : M Bool
notime_forced = gets λ w. w.forced

-- The next request of an external handler, by `answer`.
unfoldable pub ask : {A : Type 0} → (ℕ → A) → M A
ask answer w = some (answer w.reads, record w { reads = w.reads + 1 })

-- An answer of the builtin handler, and of an external one: an error, or whether there is a
-- context.
unfoldable pub builtin_answer : Option NotimeError → Option NotimeError × Bool
builtin_answer none = (none, true)
builtin_answer (some e) = (some e, false)

unfoldable pub external_answer : Option Bool → Option NotimeError × Bool
external_answer none = (some NotimeError.eexternal, false)
external_answer (some ctx) = (none, ctx)

module _ (env : Env) where
  unfoldable pub new_context : M (Option NotimeError)
  new_context = do ok ← zalloc env; pure (if ok then none else some NotimeError.enomem)

  -- `jent_notime_init_flags` in a hosted build, by the number of CPUs: the context is there where
  -- there is no error.
  unfoldable pub init_on : Option ℕ → M (Option NotimeError)
  init_on none = pure (some NotimeError.encpu)
  init_on (some n) = if ltb n 2 then pure (some NotimeError.enoent) else new_context

  unfoldable pub notime_init_flags : M (Option NotimeError)
  unfolding new_context init_on
  notime_init_flags = init_on env.ncpu

  -- The start of the registered handler on a context: whether a thread runs.
  unfoldable pub handler_start : Option ℕ → Bool → M Bool
  handler_start (some h) ctx = ask env.handler_start
  handler_start none true = ask env.thread_create
  handler_start none false = pure false

  -- What a start that was tried leaves.
  unfoldable pub note_start : RandData → Bool → M (Bool × RandData)
  note_start ec true = do
    modify λ w. record w { starts = w.starts + 1 }
    pure (false, record ec { notime_running = true })
  note_start ec false = pure (true, ec)

  unfoldable pub notime_settick : RandData → M (Bool × RandData)
  unfolding handler_start note_start
  notime_settick ec = if not ec.enable_notime then pure (false, ec) else (do
    handler ← gets λ w. w.handler
    started ← handler_start handler ec.notime_thread_ctx
    note_start ec started)

  -- The initialization of the registered handler.
  unfoldable pub handler_init : Option ℕ → M (Option NotimeError × Bool)
  unfolding notime_init_flags builtin_answer external_answer
  handler_init none = do failed ← notime_init_flags; pure (builtin_answer failed)
  handler_init (some h) = do ctx ← ask env.handler_init; pure (external_answer ctx)

  unfoldable pub notime_enable_thread : RandData → M (Option NotimeError × RandData)
  unfolding handler_init
  notime_enable_thread ec = do
    handler ← gets λ w. w.handler
    answer ← handler_init handler
    pure (answer.0, record ec { notime_thread_ctx = answer.1 })

  -- Behind the counting thread's own startup.
  unfoldable pub enable_tested : RandData → Option InitError → M (Option NotimeError × RandData)
  enable_tested ec none = notime_enable_thread (record ec { enable_notime = true })
  enable_tested ec (some e) = pure (some NotimeError.ehealth, ec)

  -- `jent_notime_enable`; `time_entropy_init` is the startup that it may have to run.
  unfoldable pub notime_enable :
      M (Option InitError) → RandData → ℕ → M (Option NotimeError × RandData)
  unfolding enable_tested
  notime_enable time_entropy_init ec flags = do
    forced ← gets λ w. w.forced
    if forced
        then notime_enable_thread (record ec { enable_notime = true })
        else if flag_set flags force_internal_timer
        then (do failed ← time_entropy_init; enable_tested ec failed)
        else pure (none, ec)

unfoldable pub notime_unsettick : RandData → M RandData
notime_unsettick ec = if not ec.enable_notime || not ec.notime_running then pure ec else (do
  modify λ w. record w { stops = w.stops + 1 }
  pure (record ec { notime_running = false }))

-- Only the context of the builtin handler is memory of the library.
unfoldable pub handler_fini : Option ℕ → M (Unit {0})
handler_fini none = zfree
handler_fini (some h) = pure tt

unfoldable pub notime_disable : RandData → M RandData
unfolding handler_fini
notime_disable ec =
    if ec.notime_thread_ctx
    then (do
      handler ← gets λ w. w.handler
      handler_fini handler
      pure (record ec { notime_thread_ctx = false }))
    else pure ec
