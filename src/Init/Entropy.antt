-- ===== src/Init/Entropy.antt =====
-- What a whole initialization takes and gives back, `jent_entropy_init*` of
-- src/jitterentropy-base.c.
use jitterentropy_library.Prelude.{ℕ, inr, refl, Bool, true, false, not, Option, none, some, bit_or}
use jitterentropy_library.Prelude.{if◌then◌else◌, ◌&&◌}
use jitterentropy_library.Collector.{force_internal_timer, disable_internal_timer, ntg1}
use jitterentropy_library.Config.{flag_set, update_secure_mem}
use jitterentropy_library.Gcd.{InitError, gcd_selftest}
use jitterentropy_library.Health.Failure.{health_cb_block_switch}
use jitterentropy_library.Sha3.Selftest.{sha3_tester}
use jitterentropy_library.World.{
  Env, World, M, ◌>>=◌, pure, modify, After, After-next, zalloc, zfree,
}
use jitterentropy_library.World.Changes.{Change, Change-trans, Latched-refl, Quiet}
use jitterentropy_library.World.Quiet.{Quiet-next, Quiet-if, Quiet-pure, latch-Quiet}
use jitterentropy_library.Timer.{notime_block_switch}
use jitterentropy_library.Timer.Changes.{zalloc-Change, zfree-Change}
use jitterentropy_library.Init.Changes.{time_entropy_init-Quiet}
use jitterentropy_library.Init.{
  mark_selftest, run_gcd_selftest, gcd_selftest_in, block_switches, selftests, note_selftests,
  entropy_init_common_pre, entropy_init_common_post, fall_back, choose_clock, either_clock,
  measure_tested, entropy_init, init_contradicts, init_checked, entropy_init_ex,
}

-- Marking the self tests is no change.
mark_selftest-Quiet : (mark : Bool) → Quiet (mark_selftest mark)
unfolding mark_selftest
mark_selftest-Quiet mark =
    latch-Quiet (λ w. w.forced) (λ w. w.switch_blocked) (λ w. mark) (λ w. Latched-refl w.forced)
      (λ w. Latched-refl w.switch_blocked)

note_selftests-Quiet :
    (env : Env) (fuel : ℕ) (r : Option InitError) → Quiet (note_selftests env fuel r)
unfolding note_selftests
note_selftests-Quiet env fuel none = Quiet-pure {A = Option InitError} none
note_selftests-Quiet env fuel (some e) =
    Quiet-next (mark_selftest false) (λ r. pure (some e)) (mark_selftest-Quiet false)
      (λ r. Quiet-pure (some e))

entropy_init_common_post-Quiet :
    (env : Env) (fuel : ℕ) (r : Option InitError) → Quiet (entropy_init_common_post env fuel r)
unfolding entropy_init_common_post
entropy_init_common_post-Quiet env fuel none =
    Quiet-next (mark_selftest true) (λ r. pure {A = Option InitError} none)
      (mark_selftest-Quiet true) (λ r. Quiet-pure {A = Option InitError} none)
entropy_init_common_post-Quiet env fuel (some e) =
    Quiet-next (mark_selftest false) (λ r. pure (some e)) (mark_selftest-Quiet false)
      (λ r. Quiet-pure (some e))

cb_block-Quiet : Quiet (modify λ w. record w { process = health_cb_block_switch w.process })
unfolding health_cb_block_switch
cb_block-Quiet w = record {
  memory = refl;
  threads = refl;
  forced = Latched-refl w.forced;
  switch_blocked = Latched-refl w.switch_blocked;
  cb_blocked = inr refl;
  platform = inr refl;
  notime = inr refl;
  handler = refl;
  notime_cpu = refl;
  fips_cb = refl;
}

module _ (env : Env) (fuel : ℕ) where
  block_switches-Quiet : Quiet (block_switches env fuel)
  unfolding block_switches notime_block_switch
  block_switches-Quiet =
      Quiet-next notime_block_switch
        (λ r. modify λ w. record w { process = health_cb_block_switch w.process })
        (latch-Quiet (λ w. w.forced) (λ w. true) (λ w. w.selftest_run) (λ w. Latched-refl w.forced)
          (λ w. inr refl))
        (λ r. cb_block-Quiet)

  run_gcd_selftest-Change :
      (ok : Bool) (w w1 : World)
      → Change w w1 0 (if ok then 1 else 0) 0 0
      → After (λ r w'. Change w w' 0 0 0 0) (run_gcd_selftest env fuel ok w1)
  unfolding run_gcd_selftest
  run_gcd_selftest-Change true w w1 c =
      After-next (λ r w'. Change w1 w' 1 0 0 0) (λ (r : Option InitError) w'. Change w w' 0 0 0 0)
        (zfree w1) (λ r. pure (gcd_selftest true)) (zfree-Change w1) λ r w2 d. Change-trans c d
  run_gcd_selftest-Change false w w1 c = c

  gcd_selftest_in-Quiet : Quiet (gcd_selftest_in env fuel)
  unfolding gcd_selftest_in
  gcd_selftest_in-Quiet w =
      After-next (λ ok w'. Change w w' 0 (if ok then 1 else 0) 0 0)
        (λ (r : Option InitError) w'. Change w w' 0 0 0 0) (zalloc env w) _ (zalloc-Change env w)
        λ ok w1 c. run_gcd_selftest-Change ok w w1 c

  pub entropy_init_common_pre-Quiet : Quiet (entropy_init_common_pre env fuel)
  unfolding entropy_init_common_pre selftests
  entropy_init_common_pre-Quiet =
      Quiet-next (block_switches env fuel) (λ r. selftests env fuel >>= note_selftests env fuel)
        block_switches-Quiet
        λ r.
          Quiet-next (selftests env fuel) (note_selftests env fuel)
            (Quiet-if sha3_tester (pure (some InitError.ehash)) (gcd_selftest_in env fuel)
              (Quiet-pure (some InitError.ehash)) gcd_selftest_in-Quiet)
            (note_selftests-Quiet env fuel)

  fall_back-Quiet :
      (allowed : Bool) (osr flags : ℕ) (r : Option InitError)
      → Quiet (fall_back env fuel allowed osr flags r)
  unfolding fall_back
  fall_back-Quiet allowed osr flags none = Quiet-pure {A = Option InitError} none
  fall_back-Quiet allowed osr flags (some e) =
      Quiet-if allowed _ (pure (some e)) (time_entropy_init-Quiet env fuel osr _)
        (Quiet-pure (some e))

  choose_clock-Quiet : (osr flags : ℕ) → Quiet (choose_clock env fuel osr flags)
  unfolding choose_clock
  choose_clock-Quiet osr flags =
      Quiet-next _
        (fall_back env fuel (not (flag_set flags (bit_or disable_internal_timer ntg1))) osr flags)
        (Quiet-if _ (pure (some InitError.enotime)) _ (Quiet-pure (some InitError.enotime))
          (time_entropy_init-Quiet env fuel osr _))
        (fall_back-Quiet _ osr flags)

  either_clock-Quiet : (flags : ℕ) → Quiet (either_clock env fuel flags)
  unfolding either_clock
  either_clock-Quiet flags =
      Quiet-next _ (fall_back env fuel true 0 flags) (time_entropy_init-Quiet env fuel 0 _)
        (fall_back-Quiet true 0 flags)

  measure_tested-Quiet :
      (measuring : M (Option InitError)) (r : Option InitError)
      → Quiet measuring
      → Quiet (measure_tested env fuel measuring r)
  unfolding measure_tested
  measure_tested-Quiet measuring none quiet =
      Quiet-next measuring (entropy_init_common_post env fuel) quiet
        (entropy_init_common_post-Quiet env fuel)
  measure_tested-Quiet measuring (some e) quiet = Quiet-pure (some e)

  pub entropy_init-Quiet : Quiet (entropy_init env fuel)
  unfolding entropy_init
  entropy_init-Quiet =
      let measuring = either_clock env fuel (update_secure_mem env.fips 0) in
      Quiet-next (entropy_init_common_pre env fuel) (measure_tested env fuel measuring)
        entropy_init_common_pre-Quiet (λ r. measure_tested-Quiet measuring r (either_clock-Quiet _))

  -- An initialization, whatever its verdict, gives back the memory and stops the threads that it
  -- takes. It forgets neither that the internal timer is forced nor a divisor, and opens no window
  -- of configuration again.
  pub entropy_init_ex-Quiet : (osr flags : ℕ) → Quiet (entropy_init_ex env fuel osr flags)
  unfolding entropy_init_ex init_checked
  entropy_init_ex-Quiet osr given =
      let flags = update_secure_mem env.fips given in
      Quiet-next (block_switches env fuel) _ block_switches-Quiet λ r.
        Quiet-if (init_contradicts env fuel osr flags) (pure (some InitError.eprogerr)) _
          (Quiet-pure (some InitError.eprogerr))
          (Quiet-if (flag_set flags ntg1 && flag_set flags force_internal_timer)
            (pure (some InitError.enotime)) (init_checked env fuel osr flags)
            (Quiet-pure (some InitError.enotime))
            (Quiet-next (entropy_init_common_pre env fuel)
              (measure_tested env fuel (choose_clock env fuel osr flags))
              entropy_init_common_pre-Quiet
              (λ r.
                measure_tested-Quiet (choose_clock env fuel osr flags) r
                  (choose_clock-Quiet osr flags))))
