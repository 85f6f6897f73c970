-- ===== src/Health/Stuck/Derivatives.antt =====
-- The stuck test as a condition on the last three deltas.
use jitterentropy_library.Prelude.{
  ℕ, ◌+◌, ◌*◌, ◌%◌, ◌^◌, ◌<◌, ◌≡◌, ◌↔◌, ◌⊎◌, true, arith, length, length-set, ap, ◌∙◌,
}
use jitterentropy_library.Collector.{RandData}
use jitterentropy_library.Health.Lag.{lag_insert, lag_history, delta, delta2, delta3}
use jitterentropy_library.Health.Lag.History.{lag_history-lag_insert, lag_insert-stores}
use jitterentropy_library.Health.Stuck.{is_stuck}

is_stuck_lem :
    (ec : RandData) (current : ℕ)
    → current < 2 ^ 64
    → lag_history ec.lag 0 < 2 ^ 64
    → lag_history ec.lag 1 < 2 ^ 64
    → (is_stuck ec current ≡ true) ↔ (
        (current ≡ 0)
        ⊎ (current ≡ lag_history ec.lag 0)
        ⊎ ((current + lag_history ec.lag 1) % 2 ^ 64 ≡ (2 * lag_history ec.lag 0) % 2 ^ 64))
unfolding is_stuck delta2 delta3 delta
is_stuck_lem ec current h h0 h1 = ground arith

-- After two insertions of deltas that do not end a window of the lag test, a third delta is stuck
-- just when it is zero, or equal to the second, or when the three are in arithmetic progression
-- modulo 2 ^ 64: its first, second or third derivative of time vanishes.
pub is_stuck-derivatives :
    (ec : RandData) (d0 d1 d2 : ℕ)
    → ec.lag.observations + 2 < 2 ^ 17
    → length ec.lag.delta_history ≡ 8
    → d0 < 2 ^ 64
    → d1 < 2 ^ 64
    → d2 < 2 ^ 64
    → (is_stuck (lag_insert (lag_insert ec d0) d1) d2 ≡ true)
      ↔ ((d2 ≡ 0) ⊎ (d2 ≡ d1) ⊎ ((d2 + d0) % 2 ^ 64 ≡ (2 * d1) % 2 ^ 64))
is_stuck-derivatives ec d0 d1 d2 h len h0 h1 h2 =
    let once = lag_insert ec d0 in
    let twice = lag_insert once d1 in
    let stored = lag_insert-stores ec d0 (omega arith) in
    let first = lag_history-lag_insert ec d0 0 (omega arith) len (omega arith) in
    let kept : length once.lag.delta_history ≡ 8 =
      ap length stored.1 ∙ length-set ec.lag.delta_history (ec.lag.observations % 8) d0 ∙ len in
    let second = lag_history-lag_insert once d1 0 (omega (arith, stored.0)) kept (omega arith) in
    let older : lag_history twice.lag 1 ≡ d0 = omega (arith, second.1, first.0) in
    ground (arith, second.0, older, is_stuck_lem twice d2)
