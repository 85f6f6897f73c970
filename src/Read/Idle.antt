-- ===== src/Read/Idle.antt =====
-- What the start and the stop of the timer thread leave of a collector in a read.
use jitterentropy_library.Prelude.{refl, ◌∙◌, arith, Bool, true, false, Bool-cases, inl, inr}
use jitterentropy_library.Collector.{RandData}
use jitterentropy_library.Health.Stuck.Kept.{Kept, Kept-refl}
use jitterentropy_library.World.{Env, World, After, After-next, Anything, anything}
use jitterentropy_library.Timer.{note_start, handler_start, notime_settick}
use jitterentropy_library.Timer.Changes.{KeptIdle}

pub Kept-Idle : (a b : RandData) → Kept a b → KeptIdle a b
Kept-Idle a b k = record {
  sticky = k.sticky;
  osr = k.osr;
  flags = k.flags;
  uuid = k.uuid;
  reinit_count = k.reinit_count;
  read_invocations = k.read_invocations;
  bytes_output = k.bytes_output;
  selftest_failed = k.selftest_failed;
  is_fips_enabled = k.is_fips_enabled;
  enable_notime = k.enable_notime;
  notime_thread_ctx = k.notime_thread_ctx;
  max_mem_set = k.max_mem_set;
  memmask = k.memmask;
  common_timer_gcd = k.common_timer_gcd;
  notime_running = refl;
}

pub KeptIdle-trans : (a b c : RandData) → KeptIdle a b → KeptIdle b c → KeptIdle a c
KeptIdle-trans a b c p q = record {
  sticky = λ k. omega (arith, p.sticky k, q.sticky k);
  osr = q.osr ∙ p.osr;
  flags = q.flags ∙ p.flags;
  uuid = q.uuid ∙ p.uuid;
  reinit_count = q.reinit_count ∙ p.reinit_count;
  read_invocations = q.read_invocations ∙ p.read_invocations;
  bytes_output = q.bytes_output ∙ p.bytes_output;
  selftest_failed = q.selftest_failed ∙ p.selftest_failed;
  is_fips_enabled = q.is_fips_enabled ∙ p.is_fips_enabled;
  enable_notime = q.enable_notime ∙ p.enable_notime;
  notime_thread_ctx = q.notime_thread_ctx ∙ p.notime_thread_ctx;
  max_mem_set = q.max_mem_set ∙ p.max_mem_set;
  memmask = q.memmask ∙ p.memmask;
  common_timer_gcd = q.common_timer_gcd ∙ p.common_timer_gcd;
  notime_running = refl;
}

note_start-Idle :
    (env : Env) (ec : RandData) (started : Bool) (w : World)
    → After (λ r w'. KeptIdle ec r.1) (note_start env ec started w)
unfolding note_start
note_start-Idle env ec true w = Kept-refl ec
note_start-Idle env ec false w = Kept-refl ec

pub notime_settick-Idle :
    (env : Env) (ec : RandData) (w : World)
    → After (λ r w'. KeptIdle ec r.1) (notime_settick env ec w)
unfolding notime_settick
notime_settick-Idle env ec w = elim (Bool-cases ec.enable_notime) [
  | inr off ↦ rw off (Kept-refl _)
  | inl on ↦
      let started =
        After-next Anything (λ (r : Bool × RandData) w'. KeptIdle ec r.1)
          (handler_start env w.handler ec.notime_thread_ctx w) (note_start env ec)
          (anything (handler_start env w.handler ec.notime_thread_ctx w))
          (λ started w' t. note_start-Idle env ec started w') in
      rw on (rw on at started)
]
