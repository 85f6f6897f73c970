-- ===== src/Health/Failure/Codes.antt =====
-- What the failure bits mean to a caller: the error codes, and the callback.
use jitterentropy_library.Prelude.{ℕ, Bool, true, false, none, some}
use jitterentropy_library.Prelude.{◌∷◌, ◌≡◌, ◌≢◌, ◌↔◌, ◌⊎◌, bit, bit_and-bit, bit-le-one, arith}
use jitterentropy_library.Collector.{RandData}
use jitterentropy_library.Health.Failure.{Process, Error, health_failure, health_err}

-- The codes that `jent_read_entropy_safe` gives up on, of those `jent_health_err` returns.
abbrev pub is_permanent : Error → Bool
is_permanent Error.rct_permanent = true
is_permanent Error.apt_permanent = true
is_permanent Error.lag_permanent = true
is_permanent Error.rct_mem_permanent = true
is_permanent e = false

-- The code is a permanent one exactly if one of the four permanent bits is set.
pub health_err-permanent_iff :
    (f : ℕ)
    → (is_permanent (health_err f) ≡ true)
      ↔ ((bit 16 f ≡ 1) ⊎ (bit 17 f ≡ 1) ⊎ (bit 18 f ≡ 1) ⊎ (bit 19 f ≡ 1))
unfolding health_err
health_err-permanent_iff f = ground (
  arith,
  bit_and-bit 16 f,
  bit_and-bit 17 f,
  bit_and-bit 18 f,
  bit_and-bit 19 f,
  bit_and-bit 0 f,
  bit_and-bit 1 f,
  bit_and-bit 3 f,
  bit-le-one 16 f,
  bit-le-one 17 f,
  bit-le-one 18 f,
  bit-le-one 19 f,
)

-- Outside FIPS mode no failure is reported and the callback is not run. In FIPS mode a failure is
-- reported as it stands, and a registered callback runs once, with it.
pub health_failure_lem :
    (p : Process) (ec : RandData)
    → ((ec.is_fips_enabled ≡ false) ⊎ (ec.health_failure ≡ 0) → health_failure p ec ≡ (0, p))
      × ((ec.is_fips_enabled ≡ true)
          → ec.health_failure ≢ 0
          → ((health_failure p ec).0 ≡ ec.health_failure)
            × ((cb : ℕ)
                → p.fips_cb ≡ some cb
                → (health_failure p ec).1.calls ≡ (cb, ec.health_failure) ∷ p.calls)
            × (p.fips_cb ≡ none → (health_failure p ec).1 ≡ p))
unfolding health_failure
health_failure_lem p ec = ground arith

-- Asking for the failures changes no configuration of the callback.
pub health_failure-keeps :
    (p : Process) (ec : RandData)
    → let p' = (health_failure p ec).1 in
      (p'.fips_cb ≡ p.fips_cb) × (p'.cb_switch_blocked ≡ p.cb_switch_blocked)
unfolding health_failure
health_failure-keeps p ec = ground arith
