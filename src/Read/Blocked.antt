-- ===== src/Read/Blocked.antt =====
-- A read of a collector with a recorded failure in FIPS mode: it returns, with an error.
use jitterentropy_library.Prelude.{
  ℕ, zero, suc, ◌<◌, ◌≡◌, refl, arith, Bool, true, false, List, Option, none, some,
}
use jitterentropy_library.Prelude.{not, ◌||◌, Bool-cases, inl, inr}
use jitterentropy_library.World.{Env, World, ◌>>=◌, pure, gets}
use jitterentropy_library.Timer.{ask, handler_start, note_start, notime_settick, notime_unsettick}
use jitterentropy_library.Read.Thread.{
  note_read, read_ticking, read_started, stop_reading, read_entropy,
}
use jitterentropy_library.Prelude.{length, ◌==◌, if◌then◌else◌, ap, ◌∙◌}
use jitterentropy_library.Collector.{RandData, Machine}
use jitterentropy_library.Health.Failure.{Error, Process, health_failure, health_failure_query}
use jitterentropy_library.Noise.Blocked.{
  IsBlocked, random_data-IsBlocked, health_failure_query-IsBlocked,
}
use jitterentropy_library.Sha3.Sponge.{write_at}
use jitterentropy_library.Read.{
  Progress, Outcome, error, emit, read_block, read_blocks, finish_read, read_running, clamped_len,
  start_read, refuse_notime,
}

-- It returns with an error, and nothing more is written.
abbrev IsStopped : Progress → Option Progress → Type 0
IsStopped p o =
    (q : Progress) × (o ≡ some q)
    × ((e : Error) × (q.failed ≡ some e))
    × (q.written ≡ p.written)
    × (q.buffer ≡ p.buffer)

IsStopped-if :
    (p : Progress) (b : Bool) (x y : Option Progress)
    → IsStopped p x
    → IsStopped p y
    → IsStopped p (if b then x else y)
IsStopped-if p true x y h g = h
IsStopped-if p false x y h g = g

IsStopped-continue :
    (p q : Progress) (failed : Option Error) (e : Error) (rest : Option Progress)
    → failed ≡ some e
    → IsStopped p (some q)
    → IsStopped p (elim failed [ none ↦ rest | some x ↦ some q ])
IsStopped-continue p q none e rest h g = absurd (ground (arith, h))
IsStopped-continue p q (some x) e rest h g = g

health_failure-query :
    (p : Process) (ec : RandData) → (health_failure p ec).0 ≡ health_failure_query ec
unfolding health_failure
health_failure-query p ec = ground arith

emit-IsBlocked :
    (k len : ℕ) (p : Progress) (collected : Machine)
    → IsBlocked k collected.ec
    → IsStopped p (some (emit len p collected))
unfolding emit
emit-IsBlocked k len p collected blocked =
    let failing : ((health_failure p.process collected.ec).0 == 0) ≡ false =
      ap (λ f. f == 0) (health_failure-query p.process collected.ec)
      ∙ health_failure_query-IsBlocked k collected.ec blocked in
    rw failing (_, refl, (_, refl), refl, refl)

module _ (clock : ℕ → ℕ) (k fuel : ℕ) where
  read_block-IsBlocked :
      (len : ℕ) (p : Progress)
      → IsBlocked k p.state.ec
      → IsStopped p (read_block clock (suc fuel) len p)
  unfolding read_block
  read_block-IsBlocked len p blocked =
      let (collected, e, h) = random_data-IsBlocked clock k fuel p.state blocked in
      IsStopped-if p p.state.ec.selftest_failed _ _ (_, refl, (_, refl), refl, refl)
        (rw e (emit-IsBlocked k len p collected h))

  read_blocks-IsBlocked :
      (rounds len : ℕ) (p : Progress)
      → 0 < rounds
      → 0 < len
      → IsBlocked k p.state.ec
      → IsStopped p (read_blocks clock (suc fuel) rounds len p)
  unfolding read_blocks
  read_blocks-IsBlocked zero len p some_rounds positive blocked = absurd (omega arith)
  read_blocks-IsBlocked (suc rounds) len p some_rounds positive blocked =
      let nonempty : (len == 0) ≡ false = ground arith in
      let (q, e, failed, written, buffer) = read_block-IsBlocked len p blocked in
      rw (nonempty, e)
        (IsStopped-continue p q q.failed failed.0 _ failed.1 (q, refl, failed, written, buffer))

-- The end of a read that was stopped before its first byte.
finish_read-stopped :
    (orig_len : ℕ) (q : Progress) (buffer : List ℕ) (e : Error)
    → q.failed ≡ some e
    → q.written ≡ 0
    → q.buffer ≡ buffer
    → ((finish_read orig_len q).return ≡ error e) × ((finish_read orig_len q).data_out ≡ buffer)
unfolding finish_read write_at
finish_read-stopped orig_len q buffer e failed written same = rw (failed, written) (refl, same)

abbrev Stopped : List ℕ → Option Outcome → Type 0
Stopped buffer o =
    (out : Outcome) × (o ≡ some out)
    × ((e : Error) × (out.return ≡ error e))
    × (out.data_out ≡ buffer)

read_running-IsBlocked :
    (clock : ℕ → ℕ) (k fuel : ℕ) (m : Machine) (p : Process) (buffer : List ℕ)
    → 0 < length buffer
    → IsBlocked k m.ec
    → Stopped buffer (read_running clock (suc fuel) m p buffer)
unfolding read_running
read_running-IsBlocked clock k fuel m p buffer positive blocked =
    let some_len : 0 < clamped_len buffer = ground arith in
    let (q, e, failed, written, same) =
      read_blocks-IsBlocked clock k fuel (clamped_len buffer) (clamped_len buffer)
        (start_read m p buffer) some_len some_len blocked in
    let (returned, kept) =
      finish_read-stopped (clamped_len buffer) q buffer failed.0 failed.1 written same in
    rw e (_, refl, (failed.0, returned), kept)

-- It returns in the world, with an error and with the buffer as it was.
abbrev pub IsRefused : List ℕ → Option (Outcome × World) → Type 0
IsRefused buffer o =
    (out : Outcome × World) × (o ≡ some out)
    × ((e : Error) × (out.0.return ≡ error e))
    × (out.0.data_out ≡ buffer)

-- The start of the thread returns, and leaves what blocks the collector.
abbrev Starts : ℕ → Option ((Bool × RandData) × World) → Type 0
Starts k o = (r : (Bool × RandData) × World) × (o ≡ some r) × IsBlocked k r.0.1

note_start-Starts :
    (env : Env) (k : ℕ) (ec : RandData) (started : Bool) (w : World)
    → IsBlocked k ec
    → Starts k (note_start env ec started w)
unfolding note_start
note_start-Starts env k ec true w blocked = (_, refl, blocked)
note_start-Starts env k ec false w blocked = (_, refl, blocked)

handler_start-returns :
    (env : Env) (handler : Option ℕ) (ctx : Bool) (w : World)
    → (r : Bool × World) × (handler_start env handler ctx w ≡ some r)
unfolding handler_start ask
handler_start-returns env (some h) ctx w = (_, refl)
handler_start-returns env none true w = (_, refl)
handler_start-returns env none false w = (_, refl)

notime_settick-Starts :
    (env : Env) (k : ℕ) (ec : RandData) (w : World)
    → IsBlocked k ec
    → Starts k (notime_settick env ec w)
unfolding notime_settick
notime_settick-Starts env k ec w blocked = by_timer ec.enable_notime
  where
    begun : Starts k ((handler_start env w.handler ec.notime_thread_ctx >>= note_start env ec) w)
    begun =
        let started = handler_start-returns env w.handler ec.notime_thread_ctx w in
        rw started.1 (note_start-Starts env k ec started.0.0 started.0.1 blocked)

    by_timer :
        (on : Bool)
        → Starts k (
            (if not on then pure (false, ec) else (do
              handler ← gets λ v. v.handler
              started ← handler_start env handler ec.notime_thread_ctx
              note_start env ec started))
              w)
    by_timer true = begun
    by_timer false = (_, refl, blocked)

notime_unsettick-returns :
    (ec : RandData) (w : World) → (r : RandData × World) × (notime_unsettick ec w ≡ some r)
unfolding notime_unsettick
notime_unsettick-returns ec w = elim (Bool-cases (not ec.enable_notime || not ec.notime_running)) [
  | inl idle ↦ rw idle (_, refl)
  | inr running ↦ rw running (_, refl)
]

read_started-IsBlocked :
    (env : Env) (k fuel : ℕ) (buffer : List ℕ) (started : Bool × RandData) (w : World)
    → 0 < length buffer
    → IsBlocked k started.1
    → IsRefused buffer (read_started env (suc fuel) buffer started w)
unfolding read_started read_ticking note_read stop_reading refuse_notime
read_started-IsBlocked env k fuel buffer (true, ec) w positive blocked = (_, refl, (_, refl), refl)
read_started-IsBlocked env k fuel buffer (false, ec) w positive blocked =
    let (out, same, refused, kept) =
      read_running-IsBlocked (env.clock ec.enable_notime) k fuel
        (record { ec = ec; reads = w.reads }) w.process buffer positive blocked in
    let w1 = record w { reads = out.machine.reads; process = out.process } in
    let stopped = notime_unsettick-returns out.machine.ec w1 in
    rw (same, stopped.1) (_, refl, refused, kept)

-- A read of a buffer that is not empty, of a collector with a recorded failure in FIPS mode,
-- returns, whatever the clock, the startup state, the callback and the start of a thread are, with
-- an error and with the buffer as it was.
pub read_entropy-IsBlocked :
    (env : Env) (k fuel : ℕ) (ec : RandData) (buffer : List ℕ) (w : World)
    → 0 < length buffer
    → IsBlocked k ec
    → IsRefused buffer (read_entropy env (suc fuel) ec buffer w)
unfolding read_entropy
read_entropy-IsBlocked env k fuel ec buffer w positive blocked =
    let nonempty : (length buffer == 0) ≡ false = ground arith in
    let (started, same, still) = notime_settick-Starts env k ec w blocked in
    rw (nonempty, same)
      (read_started-IsBlocked env k fuel buffer started.0 started.1 positive still)
