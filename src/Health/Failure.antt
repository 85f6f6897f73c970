-- ===== src/Health/Failure.antt =====
-- The failure bits as a caller sees them: `jent_health_failure*` and the failure callback of
-- src/jitterentropy-health.c, and `jent_health_err` of src/jitterentropy-base.c.
pub mod Codes
use jitterentropy_library.Prelude.{ℕ, Bool, true, false, not, bit_and, Option, none, some, List}
use jitterentropy_library.Prelude.{◌∷◌, ◌==◌, if◌then◌else◌}
use jitterentropy_library.Collector.{
  RandData, rct_failure, apt_failure, rct_mem_failure, rct_failure_permanent, apt_failure_permanent,
  lag_failure_permanent, rct_mem_failure_permanent,
}

-- The callback that is registered in the process, as a name; whether it may still be changed; and
-- the calls made of it, latest first, each with the failure bits.
pub record Process : Type 0 where
  pub fips_cb : Option ℕ
  pub cb_switch_blocked : Bool
  pub calls : List (ℕ × ℕ)

unfoldable pub health_cb_block_switch : Process → Process
health_cb_block_switch p = record p { cb_switch_blocked = true }

-- `false` is -EAGAIN.
unfoldable pub set_fips_failure_callback : Process → Option ℕ → Bool × Process
set_fips_failure_callback p cb =
    if p.cb_switch_blocked then (false, p) else (true, record p { fips_cb = cb })

unfoldable pub health_failure_query : RandData → ℕ
health_failure_query ec = if ec.is_fips_enabled then ec.health_failure else 0

unfoldable pub call_back : Process → ℕ → Process
call_back p failure = elim p.fips_cb [
  | none ↦ p
  | some cb ↦ record p { calls = (cb, failure) ∷ p.calls }
]

unfoldable pub health_failure : Process → RandData → ℕ × Process
unfolding health_failure_query call_back
health_failure p ec =
    let failure = health_failure_query ec in
    if failure == 0 then (0, p) else (failure, call_back p failure)

-- The `JENT_ERR_*` codes.
pub data Error : Type 0 where
  einval rct apt notime lag rct_permanent apt_permanent lag_permanent rct_mem rct_mem_permanent
        selftest :
      Error

-- `f & bit` as a condition.
abbrev pub has : ℕ → ℕ → Bool
has f failure = not (bit_and f failure == 0)

unfoldable pub health_err : ℕ → Error
health_err f =
    if has f rct_failure_permanent
    then rct_permanent
    else if has f apt_failure_permanent
    then apt_permanent
    else if has f lag_failure_permanent
    then lag_permanent
    else if has f rct_mem_failure_permanent
    then rct_mem_permanent
    else if has f rct_failure
    then rct
    else if has f apt_failure
    then apt
    else if has f rct_mem_failure
    then rct_mem
    else lag
