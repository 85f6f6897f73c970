-- ===== src/Health/Lag.antt =====
-- The lag predictor test, src/jitterentropy-health.c, and the deltas that the stuck test takes
-- from its history.
pub mod History
pub mod Valid
use jitterentropy_library.Prelude.{ℕ, zero, suc, ◌+◌, ◌-◌, ◌^◌, ◌||◌, bit_and, bit_or}
use jitterentropy_library.Prelude.{u32, sub_u32, sub_u64, ltb, leb, ◌==◌, if◌then◌else◌}
use jitterentropy_library.Prelude.{get_or, set, replicate}
use jitterentropy_library.Collector.{RandData, Lag, lag_failure, lag_failure_permanent}

abbrev pub lag_window_size : ℕ
lag_window_size = 2 ^ 17

abbrev pub lag_history_size : ℕ
lag_history_size = 8

abbrev pub lag_mask : ℕ
lag_mask = lag_history_size - 1

unfoldable pub lag_reset : Lag → Lag
lag_reset lag = record lag {
  prediction_success_count = 0;
  prediction_success_run = 0;
  best_predictor = 0;
  observations = 0;
  scoreboard = replicate lag_history_size 0;
  delta_history = replicate lag_history_size 0;
}

-- The place of the symbol observed `loc + 1` inputs ago.
abbrev pub lag_index : Lag → ℕ → ℕ
lag_index lag loc = bit_and (sub_u32 (sub_u32 lag.observations loc) 1) lag_mask

unfoldable pub lag_history : Lag → ℕ → ℕ
lag_history lag loc = get_or lag.delta_history (lag_index lag loc) 0

-- The bits for a guess that was right: `run` and `count` are the new lengths.
unfoldable pub lag_verdict : Lag → ℕ → ℕ → ℕ → ℕ
lag_verdict lag run count health_failure =
    if leb lag.local_cutoff_permanent run || leb lag.global_cutoff_permanent count
    then bit_or health_failure lag_failure_permanent
    else if leb lag.local_cutoff run || leb lag.global_cutoff count
    then bit_or health_failure lag_failure
    else health_failure

-- The guess of the best predictor so far against the new value.
unfoldable pub lag_guess : RandData → ℕ → RandData
unfolding lag_history lag_verdict
lag_guess ec current_delta =
    if lag_history ec.lag ec.lag.best_predictor == current_delta
    then (let count = u32 (ec.lag.prediction_success_count + 1) in
        let run = u32 (ec.lag.prediction_success_run + 1) in
        record ec {
          lag = record (ec.lag) { prediction_success_count = count; prediction_success_run = run };
          health_failure = lag_verdict ec.lag run count ec.health_failure;
        })
    else record ec { lag = record (ec.lag) { prediction_success_run = 0 } }

-- The score of predictor `i`, and whether it is the best now.
unfoldable pub lag_score : Lag → ℕ → Lag
lag_score lag i =
    let score = u32 (get_or lag.scoreboard i 0 + 1) in
    let scoreboard = set lag.scoreboard i score in
    record lag {
      scoreboard = scoreboard;
      best_predictor =
          if ltb (get_or scoreboard lag.best_predictor 0) score then i else lag.best_predictor;
    }

-- Predictor `i` against the new value.
unfoldable pub lag_try : Lag → ℕ → ℕ → Lag
unfolding lag_score lag_history
lag_try lag i current_delta = if lag_history lag i == current_delta then lag_score lag i else lag

-- The loop over the predictors, with `left` of them to go and `i` the next one.
unfoldable pub lag_update : ℕ → ℕ → Lag → ℕ → Lag
unfolding lag_try
lag_update zero i lag current_delta = lag
lag_update (suc left) i lag current_delta =
    lag_update left (i + 1) (lag_try lag i current_delta) current_delta

-- The new value goes into the history, and a full window ends.
unfoldable pub lag_store : Lag → ℕ → Lag
unfolding lag_reset
lag_store lag current_delta =
    let observations = u32 (lag.observations + 1) in
    let stored = record lag {
      delta_history = set lag.delta_history (bit_and lag.observations lag_mask) current_delta;
      observations = observations;
    } in
    if leb lag_window_size observations then lag_reset stored else stored

unfoldable pub lag_insert : RandData → ℕ → RandData
unfolding lag_guess lag_update lag_store
lag_insert ec current_delta =
    if ltb ec.lag.observations lag_history_size
    then record ec {
      lag = record (ec.lag) {
        delta_history = set ec.lag.delta_history ec.lag.observations current_delta;
        observations = u32 (ec.lag.observations + 1);
      };
    }
    else (let guessed = lag_guess ec current_delta in
        let updated = lag_update lag_history_size 0 guessed.lag current_delta in
        record guessed { lag = lag_store updated current_delta })

-- `jent_delta`: the difference of two readings of a counter that may wrap.
unfoldable pub delta : ℕ → ℕ → ℕ
delta prev next = sub_u64 next prev

unfoldable pub delta2 : Lag → ℕ → ℕ
unfolding delta lag_history
delta2 lag current_delta = delta (lag_history lag 0) current_delta

unfoldable pub delta3 : Lag → ℕ → ℕ
unfolding delta lag_history
delta3 lag second = delta (delta (lag_history lag 1) (lag_history lag 0)) second

-- The cutoffs stay those of the new collector.
unfoldable pub lag_duplicate : Lag → Lag → Lag
lag_duplicate new old = record new {
  prediction_success_run = old.prediction_success_run;
  prediction_success_count = old.prediction_success_count;
  best_predictor = old.best_predictor;
  observations = old.observations;
  scoreboard = old.scoreboard;
  delta_history = old.delta_history;
}
