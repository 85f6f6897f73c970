-- ===== src/Timer/Clocked.antt =====
-- What choosing the clock of a new collector leaves, `jent_notime_enable` of
-- src/jitterentropy-timer.c.
use jitterentropy_library.Prelude.{ℕ, ◌≡◌, refl, ◌∙◌, true, false, Option, none, some, subst}
use jitterentropy_library.Collector.{RandData, force_internal_timer}
use jitterentropy_library.Config.{flag_set}
use jitterentropy_library.Gcd.{InitError}
use jitterentropy_library.Health.Stuck.Kept.{Kept, Kept-refl}
use jitterentropy_library.World.{Env, World, M, ◌>>=◌, pure, After, After-next, After-imp, After-if}
use jitterentropy_library.World.Changes.{Change, Change-refl, Change-trans, Quiet}
use jitterentropy_library.Timer.{NotimeError, notime_enable_thread, enable_tested, notime_enable}
use jitterentropy_library.Timer.Changes.{context, KeptBare, notime_enable_thread-Change}

-- The collector but for its clock.
abbrev pub KeptClockless : RandData → RandData → Type 0
KeptClockless a b = Kept a (record b {
  enable_notime = a.enable_notime;
  notime_running = a.notime_running;
  notime_thread_ctx = a.notime_thread_ctx;
})

-- A collector without a thread and without a context.
abbrev pub IsFresh : RandData → Type 0
IsFresh ec = (ec.notime_running ≡ false) × (ec.notime_thread_ctx ≡ false)

-- What choosing the clock of a fresh collector leaves.
abbrev pub Clocked : RandData → World → Option NotimeError × RandData → World → Type 0
Clocked ec w r w' =
    Change w w' 0 (context w.handler r.1.notime_thread_ctx) 0 0
    × KeptClockless ec r.1
    × (r.1.notime_running ≡ false)

pub Clocked-none :
    (ec : RandData) (failed : Option NotimeError) (w w' : World)
    → IsFresh ec
    → Change w w' 0 0 0 0
    → Clocked ec w (failed, ec) w'
Clocked-none ec failed w w' fresh c = (held_none w.handler, Kept-refl ec, fresh.0)
  where
    held_none : (h : Option ℕ) → Change w w' 0 (context h ec.notime_thread_ctx) 0 0
    held_none none = rw fresh.1 c
    held_none (some h) = c

KeptBare-Clockless :
    (ec r : RandData) → KeptBare (record ec { enable_notime = true }) r → KeptClockless ec r
KeptBare-Clockless ec r k = record {
  sticky = k.sticky;
  osr = k.osr;
  flags = k.flags;
  uuid = k.uuid;
  reinit_count = k.reinit_count;
  read_invocations = k.read_invocations;
  bytes_output = k.bytes_output;
  selftest_failed = k.selftest_failed;
  is_fips_enabled = k.is_fips_enabled;
  enable_notime = refl;
  notime_running = refl;
  notime_thread_ctx = refl;
  max_mem_set = k.max_mem_set;
  memmask = k.memmask;
  common_timer_gcd = k.common_timer_gcd;
}

enable-Clocked :
    (env : Env) (ec : RandData) (w w1 : World)
    → IsFresh ec
    → Change w w1 0 0 0 0
    → After
        (λ r w'. Clocked ec w r w')
        (notime_enable_thread env (record ec { enable_notime = true }) w1)
enable-Clocked env ec w w1 fresh c =
    After-imp _ _ (notime_enable_thread env (record ec { enable_notime = true }) w1)
      (notime_enable_thread-Change env (record ec { enable_notime = true }) w1)
      λ r w' h. (
        Change-trans c
            (subst (λ k. Change w1 w' 0 (context k r.1.notime_thread_ctx) 0 0) c.handler h.0),
        KeptBare-Clockless ec r.1 h.1,
        h.1.notime_running ∙ fresh.0,
      )

enable_tested-Clocked :
    (env : Env) (ec : RandData) (failed : Option InitError) (w w1 : World)
    → IsFresh ec
    → Change w w1 0 0 0 0
    → After (λ r w'. Clocked ec w r w') (enable_tested env ec failed w1)
unfolding enable_tested
enable_tested-Clocked env ec none w w1 fresh c = enable-Clocked env ec w w1 fresh c
enable_tested-Clocked env ec (some e) w w1 fresh c =
    Clocked-none ec (some NotimeError.ehealth) w w1 fresh c

pub notime_enable-Clocked :
    (env : Env) (time_entropy_init : M (Option InitError)) (ec : RandData) (flags : ℕ) (w : World)
    → Quiet time_entropy_init
    → IsFresh ec
    → After (λ r w'. Clocked ec w r w') (notime_enable env time_entropy_init ec flags w)
unfolding notime_enable
notime_enable-Clocked env time_entropy_init ec flags w quiet fresh =
    After-if (λ r w'. Clocked ec w r w') w.forced
      (notime_enable_thread env (record ec { enable_notime = true })) _ w
      (enable-Clocked env ec w w fresh (Change-refl w 0 0))
      (After-if (λ r w'. Clocked ec w r w') (flag_set flags force_internal_timer)
        (time_entropy_init >>= enable_tested env ec) (pure (none, ec)) w
        (After-next (λ r w'. Change w w' 0 0 0 0) (λ r w'. Clocked ec w r w') (time_entropy_init w)
          _ (quiet w) (λ failed w' c. enable_tested-Clocked env ec failed w w' fresh c))
        (Clocked-none ec none w w fresh (Change-refl w 0 0)))
