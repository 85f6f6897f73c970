-- ===== src/Examples/Health.antt =====
-- The stuck test, the lag predictor and the start of the health tests, at concrete values.
use jitterentropy_library.Prelude.{ℕ, ◌+◌, ◌*◌, ◌%◌, ◌^◌, ◌≡◌, ◌≢◌, ◌↔◌, ◌⊎◌, refl, arith, true}
use jitterentropy_library.Prelude.{none, some, Ends}
use jitterentropy_library.Collector.{RandData, Machine}
use jitterentropy_library.Examples.{collector, machine, lag}
use jitterentropy_library.Health.Lag.{lag_insert, lag_history, lag_reset}
use jitterentropy_library.Health.Lag.Valid.{IsValid, lag_reset-IsValid, lag_insert-IsValid}
use jitterentropy_library.Health.Lag.History.{lag_history-lag_insert}
use jitterentropy_library.Health.RctMem.{rct_mem_insert}
use jitterentropy_library.Health.RctMem.Recovery.{rct_mem_insert-in_recovery}
use jitterentropy_library.Health.Stuck.{is_stuck, jent_stuck}
use jitterentropy_library.Health.Stuck.Derivatives.{is_stuck-derivatives}
use jitterentropy_library.Health.Stuck.Kept.{Kept, jent_stuck-Kept}

abbrev with_reset_lag : RandData
with_reset_lag = record collector { lag = lag_reset lag }

lag_insert-IsValid_example : IsValid (lag_insert with_reset_lag 42).lag
lag_insert-IsValid_example = lag_insert-IsValid with_reset_lag 42 (lag_reset-IsValid lag)

lag_history-lag_insert_example :
    (lag_history (lag_insert collector 42).lag 0 ≡ 42)
    × (lag_history (lag_insert collector 42).lag 4 ≡ lag_history collector.lag 3)
lag_history-lag_insert_example =
    lag_history-lag_insert collector 42 3 (omega arith) refl (omega arith)

abbrev last_delta : ℕ
last_delta = 30

is_stuck-derivatives_example :
    (is_stuck (lag_insert (lag_insert collector 10) 20) last_delta ≡ true)
    ↔ ((last_delta ≡ 0) ⊎ (last_delta ≡ 20) ⊎ ((last_delta + 10) % 2 ^ 64 ≡ (2 * 20) % 2 ^ 64))
is_stuck-derivatives_example =
    is_stuck-derivatives collector 10 20 last_delta (omega arith) refl (omega arith) (omega arith)
      (omega arith)

jent_stuck-Kept_example :
    Ends (λ after. Kept machine.ec after.1.ec) (jent_stuck (λ m. none) machine 42)
jent_stuck-Kept_example = jent_stuck-Kept (λ m. none) (λ m. tt) machine 42

abbrev recovering : Machine
recovering = record { ec = record collector { in_recovery = true }; reads = 0 }

rct_mem_insert-in_recovery_example :
    (rct_mem_insert (λ m. none) recovering true ≡ rct_mem_insert (λ m. some m) recovering true)
    × (rct_mem_insert (λ m. none) recovering true ≢ none)
rct_mem_insert-in_recovery_example =
    rct_mem_insert-in_recovery (λ m. none) (λ m. some m) recovering true refl
