-- ===== src/Powerup/Judged.antt =====
-- When the tests of a startup pass.
use jitterentropy_library.Prelude.{ℕ, ◌≤◌, ◌≡◌, ◌↔◌, arith}
use jitterentropy_library.Gcd.{Verdict, gcd_verdict}
use jitterentropy_library.Powerup.{Powerup, judge_powerup}

-- The tests behind the measurements of a startup establish a divisor exactly when the clock has run
-- backwards three times at most, no failure of a health test is reported, the delta history has
-- that divisor by its own verdict, and 921 of the measurements at most were stuck.
pub judge_powerup-established :
    (p : Powerup) (failure gcd : ℕ)
    → (judge_powerup p failure ≡ Verdict.established gcd) ↔ (
        (p.time_backwards ≤ 3)
        × (failure ≡ 0)
        × (gcd_verdict p.delta_history p.machine.ec.osr ≡ Verdict.established gcd)
        × (p.count_stuck ≤ 921))
unfolding judge_powerup
judge_powerup-established p failure gcd = ground arith
