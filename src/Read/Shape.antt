-- ===== src/Read/Shape.antt =====
-- What a read changes of the collector and of the process: the accounting and the calls of the
-- callback, and no configuration, src/jitterentropy-base.c.
use jitterentropy_library.Prelude.{
  ℕ, zero, suc, ◌-◌, ◌≤◌, ◌≡◌, refl, ◌∙◌, arith, List, Option, none, some, length,
}
use jitterentropy_library.Prelude.{
  Bool-cases, Option-cases, inl, inr, Ends, Ends-bind, Ends-if, Ends-both, ltb, ◌==◌, ◌+◌,
  if◌then◌else◌,
}
use jitterentropy_library.Collector.{RandData, Machine}
use jitterentropy_library.Health.Failure.{Process, health_failure}
use jitterentropy_library.Health.Failure.Codes.{health_failure-keeps}
use jitterentropy_library.Health.Stuck.Kept.{Kept, Kept-refl}
use jitterentropy_library.Noise.Collect.{random_data}
use jitterentropy_library.Read.{
  Progress, Outcome, put_block, emit, finish_read, read_nothing, read_block, read_blocks,
  read_running, start_read, clamped_len, ssize_max,
}
use jitterentropy_library.Read.Safety.{IsReading, read_blocks-IsReading, Ends-continue}

-- The collector but for its accounting.
abbrev pub KeptUncounted : RandData → RandData → Type 0
KeptUncounted a b =
    Kept a (record b { read_invocations = a.read_invocations; bytes_output = a.bytes_output })

Kept-Uncounted : (a b : RandData) → Kept a b → KeptUncounted a b
Kept-Uncounted a b k = record {
  sticky = k.sticky;
  osr = k.osr;
  flags = k.flags;
  uuid = k.uuid;
  reinit_count = k.reinit_count;
  read_invocations = refl;
  bytes_output = refl;
  selftest_failed = k.selftest_failed;
  is_fips_enabled = k.is_fips_enabled;
  enable_notime = k.enable_notime;
  notime_running = k.notime_running;
  notime_thread_ctx = k.notime_thread_ctx;
  max_mem_set = k.max_mem_set;
  memmask = k.memmask;
  common_timer_gcd = k.common_timer_gcd;
}

-- The callback and its window.
abbrev pub SameCallback : Process → Process → Type 0
SameCallback p p' = (p'.fips_cb ≡ p.fips_cb) × (p'.cb_switch_blocked ≡ p.cb_switch_blocked)

emit-SameCallback :
    (len : ℕ) (p : Progress) (collected : Machine)
    → SameCallback p.process (emit len p collected).process
unfolding emit put_block
emit-SameCallback len p collected =
    elim (Bool-cases ((health_failure p.process collected.ec).0 == 0)) [
      | inr failing ↦ rw failing (health_failure-keeps p.process collected.ec)
      | inl healthy ↦ rw healthy (health_failure-keeps p.process collected.ec)
    ]

SameCallback-trans : (a b c : Process) → SameCallback a b → SameCallback b c → SameCallback a c
SameCallback-trans a b c p q = (q.0 ∙ p.0, q.1 ∙ p.1)

module _ (clock : ℕ → ℕ) (fuel : ℕ) where
  read_block-SameCallback :
      (start : Process) (len : ℕ) (p : Progress)
      → SameCallback start p.process
      → Ends (λ (p' : Progress). SameCallback start p'.process) (read_block clock fuel len p)
  unfolding read_block
  read_block-SameCallback start len p h =
      Ends-if (λ (p' : Progress). SameCallback start p'.process) p.state.ec.selftest_failed _ _ h
        (Ends-bind (λ (x : Machine). Unit {0}) (λ (p' : Progress). SameCallback start p'.process)
          (random_data clock fuel p.state) _ (anything (random_data clock fuel p.state))
          λ collected u.
            SameCallback-trans start p.process (emit len p collected).process h
              (emit-SameCallback len p collected))
    where
      anything : (o : Option Machine) → Ends (λ (x : Machine). Unit {0}) o
      anything none = tt
      anything (some m) = tt

  read_blocks-SameCallback :
      (start : Process) (rounds len : ℕ) (p : Progress)
      → SameCallback start p.process
      → Ends
          (λ (p' : Progress). SameCallback start p'.process)
          (read_blocks clock fuel rounds len p)
  unfolding read_blocks
  read_blocks-SameCallback start zero len p h = h
  read_blocks-SameCallback start (suc rounds) len p h =
      Ends-if (λ (p' : Progress). SameCallback start p'.process) (len == 0) (some p) _ h
        (Ends-bind (λ (p' : Progress). SameCallback start p'.process)
          (λ (p' : Progress). SameCallback start p'.process) (read_block clock fuel len p) _
          (read_block-SameCallback start len p h)
          λ next h'.
            Ends-continue (λ (p' : Progress). SameCallback start p'.process) next.failed next _ h'
              (read_blocks-SameCallback start rounds (len - 32) next h'))

-- What a read leaves.
abbrev pub Shaped : RandData → Process → Outcome → Type 0
Shaped ec process o = KeptUncounted ec o.machine.ec × SameCallback process o.process

finish_read-Shaped :
    (m : Machine) (process : Process) (buffer : List ℕ) (orig_len : ℕ) (p : Progress)
    → IsReading m buffer 0 p
    → SameCallback process p.process
    → Shaped m.ec process (finish_read orig_len p)
unfolding finish_read
finish_read-Shaped m process buffer orig_len p h same =
    let kept = Kept-Uncounted m.ec p.state.ec h.kept in
    elim (Option-cases p.failed) [
      | inl done ↦ rw done (kept, same)
      | inr failed ↦ rw failed.1 (kept, same)
    ]

pub nothing-Shaped :
    (m : Machine) (p : Process) (buffer : List ℕ) → Shaped m.ec p (read_nothing m p buffer)
unfolding read_nothing
nothing-Shaped m p buffer =
    let kept = Kept-Uncounted m.ec m.ec (Kept-refl m.ec) in
    elim (Bool-cases m.ec.selftest_failed) [
      | inl broken ↦ rw broken (rw broken at kept, (refl, refl))
      | inr sound ↦ rw sound (rw sound at kept, health_failure-keeps p _)
    ]

start-IsReading :
    (m : Machine) (p : Process) (buffer : List ℕ)
    → IsReading m buffer (clamped_len buffer) (start_read m p buffer)
start-IsReading m p buffer = record {
  inside = clamped-le (length buffer);
  buffer_len = refl;
  tail = λ i h. refl;
  kept = Kept-refl m.ec;
}
  where
    clamped-le : (n : ℕ) → 0 + (if ltb ssize_max n then ssize_max else n) ≤ n
    clamped-le n = ground arith

-- A read behind the start of the thread, where it returns, keeps the collector but for its
-- accounting and its sources, and keeps the callback.
pub read_running-Shaped :
    (clock : ℕ → ℕ) (fuel : ℕ) (m : Machine) (p : Process) (buffer : List ℕ)
    → Ends (Shaped m.ec p) (read_running clock fuel m p buffer)
unfolding read_running
read_running-Shaped clock fuel m p buffer =
    let len = clamped_len buffer in
    let begun = start_read m p buffer in
    Ends-bind (λ (done : Progress). IsReading m buffer 0 done × SameCallback p done.process)
      (Shaped m.ec p) (read_blocks clock fuel len len begun) _
      (Ends-both (IsReading m buffer 0) (λ (done : Progress). SameCallback p done.process) _
        (read_blocks-IsReading clock fuel m buffer len len begun (start-IsReading m p buffer))
        (read_blocks-SameCallback clock fuel p len len begun (refl, refl)))
      (λ done h. finish_read-Shaped m p buffer len done h.0 h.1)
