-- ===== src/Timer/Same.antt =====
-- Choosing the clock changes the fields of the clock only.
use jitterentropy_library.Prelude.{ℕ, ◌≡◌, refl, true, Option, none, some}
use jitterentropy_library.Collector.{RandData, force_internal_timer}
use jitterentropy_library.Config.{flag_set}
use jitterentropy_library.Gcd.{InitError}
use jitterentropy_library.World.{
  Env, World, M, ◌>>=◌, pure, After, After-next, After-if, Anything, anything,
}
use jitterentropy_library.Timer.{
  NotimeError, handler_init, notime_enable_thread, enable_tested, notime_enable,
}

abbrev pub SameButClock : RandData → Option NotimeError × RandData → World → Type 0
SameButClock ec r w' =
    r.1 ≡ record ec { enable_notime = r.1.enable_notime; notime_thread_ctx = r.1.notime_thread_ctx }

notime_enable_thread-Same :
    (env : Env) (ec : RandData) (w : World)
    → After (SameButClock ec) (notime_enable_thread env (record ec { enable_notime = true }) w)
unfolding notime_enable_thread
notime_enable_thread-Same env ec w =
    After-next Anything (SameButClock ec) (handler_init env w.handler w) _
      (anything (handler_init env w.handler w)) (λ answer w' u. refl)

enable_tested-Same :
    (env : Env) (ec : RandData) (failed : Option InitError) (w : World)
    → After (SameButClock ec) (enable_tested env ec failed w)
unfolding enable_tested
enable_tested-Same env ec none w = notime_enable_thread-Same env ec w
enable_tested-Same env ec (some e) w = refl

pub notime_enable-Same :
    (env : Env) (time_entropy_init : M (Option InitError)) (ec : RandData) (flags : ℕ) (w : World)
    → After (SameButClock ec) (notime_enable env time_entropy_init ec flags w)
unfolding notime_enable
notime_enable-Same env time_entropy_init ec flags w =
    After-if (SameButClock ec) w.forced
      (notime_enable_thread env (record ec { enable_notime = true })) _ w
      (notime_enable_thread-Same env ec w)
      (After-if (SameButClock ec) (flag_set flags force_internal_timer)
        (time_entropy_init >>= enable_tested env ec) (pure (none, ec)) w
        (After-next Anything (SameButClock ec) (time_entropy_init w) (enable_tested env ec)
          (anything (time_entropy_init w)) (λ failed w' u. enable_tested-Same env ec failed w'))
        refl)
