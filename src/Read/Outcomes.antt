-- ===== src/Read/Outcomes.antt =====
-- What a read reports and leaves: success with its accounting, or an error with nothing of the
-- output, src/jitterentropy-base.c.
use jitterentropy_library.Prelude.{ℕ, ◌+◌, ◌<◌, ◌≡◌, ◌⊎◌, inl, inr, ◌∙◌, refl, ap}
use jitterentropy_library.Prelude.{
  Bool, true, false, subst, List, Option, none, some, length, get_or, arith,
}
use jitterentropy_library.Prelude.{
  Bool-cases, Option-cases, Ends, Ends-bind, ltb, ◌==◌, replicate, length-replicate,
  get_or-replicate, u64, ◌^◌,
}
use jitterentropy_library.Collector.{RandData, Machine}
use jitterentropy_library.Health.Failure.{Error, Process}
use jitterentropy_library.Health.Stuck.Kept.{Kept, Kept-refl}
use jitterentropy_library.Sha3.Sponge.{write_at}
use jitterentropy_library.Sha3.Buffer.{get_or-write_at_ge, get_or-write_at_lt}
use jitterentropy_library.Read.{
  clamped_len, start_read, refuse_notime, Progress, Outcome, bytes, error, read_blocks, finish_read,
  read_running,
}
use jitterentropy_library.World.{Env, World, pure, After, After-next, After-imp}
use jitterentropy_library.Timer.{notime_settick, notime_unsettick}
use jitterentropy_library.Timer.Changes.{KeptIdle, notime_unsettick-Change}
use jitterentropy_library.Read.Thread.{
  note_read, read_ticking, read_started, stop_reading, read_entropy,
}
use jitterentropy_library.Read.Idle.{Kept-Idle, KeptIdle-trans, notime_settick-Idle}
use jitterentropy_library.Read.Safety.{IsReading, read_blocks-IsReading}

-- Each byte of a wiped buffer is zero or what the caller had there.
abbrev pub IsWiped : List ℕ → List ℕ → Type 0
IsWiped buffer data_out =
    (i : ℕ) → (get_or data_out i 0 ≡ 0) ⊎ (get_or data_out i 0 ≡ get_or buffer i 0)

wipe-IsWiped :
    (m : Machine) (buffer : List ℕ) (p : Progress)
    → IsReading m buffer 0 p
    → IsWiped buffer (write_at p.buffer 0 (replicate p.written 0))
wipe-IsWiped m buffer p h i = elim (Bool-cases (ltb i p.written)) [
  | inl written ↦ inl (
      get_or-write_at_lt p.buffer (replicate p.written 0) i
        (ground (arith, length-replicate {A = ℕ} p.written 0))
      ∙ get_or-replicate {A = ℕ} p.written i 0)
  | inr beyond ↦ inr (
      get_or-write_at_ge p.buffer 0 (replicate p.written 0) i
        (omega (arith, length-replicate {A = ℕ} p.written 0, h.inside, h.buffer_len))
        (ground (arith, length-replicate {A = ℕ} p.written 0))
      ∙ h.tail i (ground arith))
]

finish_read-failed :
    (m : Machine) (buffer : List ℕ) (orig_len : ℕ) (p : Progress) (e : Error)
    → IsReading m buffer 0 p
    → p.failed ≡ some e
    → ((finish_read orig_len p).return ≡ error e)
      × IsWiped buffer (finish_read orig_len p).data_out
      × Kept m.ec (finish_read orig_len p).machine.ec
unfolding finish_read
finish_read-failed m buffer orig_len p e h failed =
    rw failed (refl, wipe-IsWiped m buffer p h, h.kept)

finish_read-done :
    (m : Machine) (buffer : List ℕ) (orig_len : ℕ) (p : Progress)
    → IsReading m buffer 0 p
    → p.failed ≡ none
    → ((finish_read orig_len p).return ≡ bytes orig_len)
      × ((finish_read orig_len p).machine.ec.read_invocations ≡ u64 (m.ec.read_invocations + 1))
      × ((finish_read orig_len p).machine.ec.bytes_output ≡ u64 (m.ec.bytes_output + orig_len))
unfolding finish_read
finish_read-done m buffer orig_len p h done = rw done (
  refl,
  ap (λ n. u64 (n + 1)) h.kept.read_invocations,
  ap (λ n. u64 (n + orig_len)) h.kept.bytes_output,
)

-- What a read of a buffer reports, and what it leaves then: an error, or all of the buffer.
abbrev pub IsReported : RandData → List ℕ → Outcome → Type 0
IsReported ec buffer o =
    (((e : Error) × (o.return ≡ error e)) × IsWiped buffer o.data_out × KeptIdle ec o.machine.ec)
    ⊎ ((o.return ≡ bytes (length buffer))
        × (o.machine.ec.read_invocations ≡ u64 (ec.read_invocations + 1))
        × (o.machine.ec.bytes_output ≡ u64 (ec.bytes_output + length buffer)))

finish_read-IsReported :
    (m : Machine) (buffer : List ℕ) (p : Progress)
    → IsReading m buffer 0 p
    → IsReported m.ec buffer (finish_read (length buffer) p)
finish_read-IsReported m buffer p h = elim (Option-cases p.failed) [
  | inl done ↦ inr (finish_read-done m buffer (length buffer) p h done)
  | inr failed ↦
      let (returned, wiped, kept) =
        finish_read-failed m buffer (length buffer) p failed.0 h failed.1 in
      inl ((failed.0, returned), wiped, Kept-Idle m.ec _ kept)
]

start-IsReading :
    (m : Machine) (p : Process) (buffer : List ℕ)
    → IsReading m buffer (length buffer) (start_read m p buffer)
start-IsReading m p buffer = record {
  inside = omega arith;
  buffer_len = refl;
  tail = λ i h. refl;
  kept = Kept-refl m.ec;
}

read_running-Reports :
    (clock : ℕ → ℕ) (fuel : ℕ) (m : Machine) (p : Process) (buffer : List ℕ)
    → length buffer < 2 ^ 63
    → Ends (IsReported m.ec buffer) (read_running clock fuel m p buffer)
unfolding read_running
read_running-Reports clock fuel m p buffer fits =
    let clamped : clamped_len buffer ≡ length buffer = ground arith in
    rw clamped (
      Ends-bind (IsReading m buffer 0) (IsReported m.ec buffer)
        (read_blocks clock fuel (length buffer) (length buffer) (start_read m p buffer)) _
        (read_blocks-IsReading clock fuel m buffer (length buffer) (length buffer)
          (start_read m p buffer) (start-IsReading m p buffer))
        (λ done h. finish_read-IsReported m buffer done h))

-- From another collector that differs in its thread only, and to one.
IsReported-from :
    (ec started : RandData) (buffer : List ℕ) (o : Outcome)
    → KeptIdle ec started
    → IsReported started buffer o
    → IsReported ec buffer o
IsReported-from ec started buffer o same (inl (e, wiped, kept)) =
    inl (e, wiped, KeptIdle-trans ec started o.machine.ec same kept)
IsReported-from ec started buffer o same (inr (whole, invocations, output)) = inr (
  whole,
  invocations ∙ ap (λ n. u64 (n + 1)) same.read_invocations,
  output ∙ ap (λ n. u64 (n + length buffer)) same.bytes_output,
)

IsReported-to :
    (ec stopped : RandData) (buffer : List ℕ) (o : Outcome)
    → KeptIdle o.machine.ec stopped
    → IsReported ec buffer o
    → IsReported ec buffer (record o { machine = record (o.machine) { ec = stopped } })
IsReported-to ec stopped buffer o same (inl (e, wiped, kept)) =
    inl (e, wiped, KeptIdle-trans ec o.machine.ec stopped kept same)
IsReported-to ec stopped buffer o same (inr (whole, invocations, output)) =
    inr (whole, same.read_invocations ∙ invocations, same.bytes_output ∙ output)

note_read-After :
    (P : Outcome → Type 0) (w : World) (o : Option Outcome)
    → Ends P o
    → After (λ r w'. P r) (note_read w o)
unfolding note_read
note_read-After P w none h = tt
note_read-After P w (some o) h = h

read_started-Reports :
    (env : Env) (fuel : ℕ) (ec : RandData) (buffer : List ℕ) (started : Bool × RandData) (w : World)
    → length buffer < 2 ^ 63
    → KeptIdle ec started.1
    → After (λ o w'. IsReported ec buffer o) (read_started env fuel buffer started w)
unfolding read_started read_ticking stop_reading refuse_notime
read_started-Reports env fuel ec buffer (true, started) w fits same =
    inl ((_, refl), (λ i. inr refl), same)
read_started-Reports env fuel ec buffer (false, started) w fits same =
    After-next (λ (o : Outcome) w'. IsReported started buffer o)
      (λ (o : Outcome) w'. IsReported ec buffer o) (read_ticking env fuel buffer started w)
      stop_reading
      (note_read-After (IsReported started buffer) w _ (
        read_running-Reports (env.clock started.enable_notime) fuel
          (record { ec = started; reads = w.reads }) w.process buffer fits))
      λ o w1 h.
        After-next (λ r w'. KeptIdle o.machine.ec r) (λ (o : Outcome) w'. IsReported ec buffer o)
          (notime_unsettick o.machine.ec w1)
          (λ stopped. pure (record o { machine = record (o.machine) { ec = stopped } }))
          (After-imp _ _ (notime_unsettick o.machine.ec w1)
            (notime_unsettick-Change o.machine.ec w1) (λ r w2 k. k.1))
          λ stopped w2 idle.
            IsReported-to ec stopped buffer o idle (IsReported-from ec started buffer o same h)

-- A read of a buffer that is not empty and below 2 ^ 63 bytes, where it returns, does so in one of two
-- ways. With an error, each byte of the buffer is zero or what it was before, and the collector's
-- accounting, configuration and recorded failures are kept. With success, the number returned is
-- the length of the buffer, and one invocation and that many bytes are added to the accounting,
-- modulo 2 ^ 64.
pub read_entropy-IsReported :
    (env : Env) (fuel : ℕ) (ec : RandData) (buffer : List ℕ) (w w' : World) (o : Outcome)
    → 0 < length buffer
    → length buffer < 2 ^ 63
    → read_entropy env fuel ec buffer w ≡ some (o, w')
    → IsReported ec buffer o
unfolding read_entropy
read_entropy-IsReported env fuel ec buffer w w' o positive fits e =
    let nonempty : (length buffer == 0) ≡ false = ground arith in
    let reports =
      After-next (λ r w1. KeptIdle ec r.1) (λ (o : Outcome) w1. IsReported ec buffer o)
        (notime_settick env ec w) (read_started env fuel buffer) (notime_settick-Idle env ec w)
        (λ started w1 same. read_started-Reports env fuel ec buffer started w1 fits same) in
    subst (After (λ (o : Outcome) w1. IsReported ec buffer o)) (rw nonempty at e) reports
