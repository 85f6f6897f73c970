-- ===== src/Read.antt =====
-- `jent_read_entropy` of src/jitterentropy-base.c: output for a caller, or an error.
--
-- The buffer and its length are a list; a write that succeeds gives the whole buffer back, and
-- `written` is how many of its bytes the call has filled so far. The function with the start and
-- the stop of the timer thread is in Thread. The stack scrubbing has no model.
pub mod Thread
pub mod Idle
pub mod Safety
pub mod Outcomes
pub mod Blocked
pub mod Shape
use jitterentropy_library.Prelude.{
  ℕ, zero, suc, ◌+◌, ◌-◌, ◌^◌, Bool, true, false, Option, none, some,
}
use jitterentropy_library.Prelude.{
  List, [], ◌∷◌, length, replicate, u64, ltb, ◌==◌, if◌then◌else◌, ◌>>=◌,
}
use jitterentropy_library.Collector.{RandData, Machine}
use jitterentropy_library.Health.Failure.{Process, Error, health_failure, health_err}
use jitterentropy_library.Health.Failure
use jitterentropy_library.Noise.Collect.{random_data, read_random_block}
use jitterentropy_library.Sha3.Sponge.{write_at}

pub data Return : Type 0 where
  bytes : ℕ → Return
  error : Error → Return

pub record Outcome : Type 0 where
  pub return : Return
  pub data_out : List ℕ
  pub machine : Machine
  pub process : Process

-- The largest `ssize_t`.
abbrev pub ssize_max : ℕ
ssize_max = 2 ^ 63 - 1

-- What the loop over the blocks leaves: an error with the bytes written so far, or none.
pub record Progress : Type 0 where
  pub failed : Option Error
  pub written : ℕ
  pub buffer : List ℕ
  pub state : Machine
  pub process : Process

-- `tocopy` bytes of output behind those that are written.
unfoldable pub put_block : ℕ → Progress → Machine → Process → Progress
put_block tocopy p collected process =
    let (ec, out) = read_random_block collected.ec tocopy in
    record {
      failed = none;
      written = p.written + tocopy;
      buffer = write_at p.buffer p.written out;
      state = record collected { ec = ec };
      process = process;
    }

-- What becomes of a collected block: the health tests' verdict, or at most 32 bytes of output.
unfoldable pub emit : ℕ → Progress → Machine → Progress
emit len p collected =
    let (failure, process) = health_failure p.process collected.ec in
    if failure == 0
    then put_block (if ltb 32 len then 32 else len) p collected process
    else record p { failed = some (health_err failure); state = collected; process = process }

-- The end of a read: a failure wipes what was written, a success is counted.
unfoldable pub finish_read : ℕ → Progress → Outcome
finish_read orig_len p = elim p.failed [
  | none ↦ record {
    return = bytes orig_len;
    data_out = p.buffer;
    machine = record (p.state) {
      ec = record (p.state.ec) {
        read_invocations = u64 (p.state.ec.read_invocations + 1);
        bytes_output = u64 (p.state.ec.bytes_output + orig_len);
      };
    };
    process = p.process;
  }
  | some e ↦ record {
    return = error e;
    data_out = write_at p.buffer 0 (replicate p.written 0);
    machine = p.state;
    process = p.process;
  }
]

-- The state of the instance, for a read of nothing.
unfoldable pub read_nothing : Machine → Process → List ℕ → Outcome
read_nothing m p buffer =
    let (failure, process) = health_failure p m.ec in
    if m.ec.selftest_failed
    then record { return = error Error.selftest; data_out = buffer; machine = m; process = p }
    else record {
      return = if failure == 0 then bytes 0 else error (health_err failure);
      data_out = buffer;
      machine = m;
      process = process;
    }

abbrev pub clamped_len : List ℕ → ℕ
clamped_len buffer = if ltb ssize_max (length buffer) then ssize_max else length buffer

abbrev pub start_read : Machine → Process → List ℕ → Progress
start_read m p buffer = record {
  failed = none;
  written = 0;
  buffer = buffer;
  state = m;
  process = p;
}

-- The timer thread did not start.
unfoldable pub refuse_notime : Machine → Process → List ℕ → Outcome
refuse_notime m p buffer = record {
  return = error Error.notime;
  data_out = buffer;
  machine = m;
  process = p;
}

module _ (clock : ℕ → ℕ) (fuel : ℕ) where
  -- One block: the self test's verdict, a collection, and what becomes of it.
  unfoldable pub read_block : ℕ → Progress → Option Progress
  read_block len p =
      let generated = (do
        collected ← random_data clock fuel p.state
        some (emit len p collected)) in
      if p.state.ec.selftest_failed
      then some (record p { failed = some Error.selftest })
      else generated

  -- `rounds` is at least the number of blocks that are left.
  unfoldable pub read_blocks : ℕ → ℕ → Progress → Option Progress
  read_blocks zero len p = some p
  read_blocks (suc rounds) len p =
      let next = (do
        p' ← read_block len p
        let rest = read_blocks rounds (len - 32) p'
        elim p'.failed [ none ↦ rest | some e ↦ some p' ]) in
      if len == 0 then some p else next

  -- Behind the start of the thread: the blocks, and what is returned.
  unfoldable pub read_running : Machine → Process → List ℕ → Option Outcome
  read_running m p buffer =
      let len = clamped_len buffer in
      (do done ← read_blocks len len (start_read m p buffer); some (finish_read len done))
