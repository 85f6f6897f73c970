-- ===== src/Health/Lag/History.antt =====
-- The ring of the last eight deltas: its places, and what an insertion does to it.
use jitterentropy_library.Prelude.{zero, suc, set}
use jitterentropy_library.Prelude.{ℕ, ◌+◌, ◌-◌, ◌%◌, ◌<◌, ◌^◌, ◌≡◌, length, arith}
use jitterentropy_library.Prelude.{bit_and_seven, get_or-set_self, get_or-set_ne}
use jitterentropy_library.Collector.{RandData, Lag}
use jitterentropy_library.Health.Lag.{
  lag_index, lag_history, lag_try, lag_update, lag_guess, lag_insert,
}

-- Whatever the observation counter holds, a read of the history is inside it.
pub lag_index-lt : (lag : Lag) (loc : ℕ) → lag_index lag loc < 8
lag_index-lt lag loc = rw bit_and_seven (omega arith)

-- The place of the symbol of `loc + 1` inputs ago, behind the place of the next one.
pub lag_index-lem :
    (lag : Lag) (loc : ℕ)
    → lag.observations < 2 ^ 17
    → loc < 8
    → lag_index lag loc ≡ (lag.observations + 7 - loc) % 8
lag_index-lem lag loc h k = rw bit_and_seven (omega arith)

-- The bookkeeping of an insertion beside the history.
pub lag_try-keeps :
    (lag : Lag) (i delta : ℕ)
    → ((lag_try lag i delta).observations ≡ lag.observations)
      × ((lag_try lag i delta).delta_history ≡ lag.delta_history)
unfolding lag_try
lag_try-keeps lag i delta = ground arith

pub lag_update-keeps :
    (left i : ℕ) (lag : Lag) (delta : ℕ)
    → ((lag_update left i lag delta).observations ≡ lag.observations)
      × ((lag_update left i lag delta).delta_history ≡ lag.delta_history)
unfolding lag_update
lag_update-keeps zero i lag delta = ground arith
lag_update-keeps (suc left) i lag delta =
    ground
      (arith, lag_try-keeps lag i delta, lag_update-keeps left (i + 1) (lag_try lag i delta) delta)

pub lag_guess-keeps :
    (ec : RandData) (delta : ℕ)
    → ((lag_guess ec delta).lag.observations ≡ ec.lag.observations)
      × ((lag_guess ec delta).lag.delta_history ≡ ec.lag.delta_history)
unfolding lag_guess
lag_guess-keeps ec delta = ground arith

-- Outside the last value of a window, an insertion writes the delta at its place and counts it.
pub lag_insert-stores :
    (ec : RandData) (delta : ℕ)
    → ec.lag.observations + 1 < 2 ^ 17
    → ((lag_insert ec delta).lag.observations ≡ ec.lag.observations + 1)
      × ((lag_insert ec delta).lag.delta_history
          ≡ set ec.lag.delta_history (ec.lag.observations % 8) delta)
unfolding lag_insert
lag_insert-stores ec delta h = ground (
  arith,
  lag_guess-keeps ec delta,
  lag_update-keeps 8 0 (lag_guess ec delta).lag delta,
  bit_and_seven (lag_update 8 0 (lag_guess ec delta).lag delta).observations,
)

-- After an insertion that does not end a window, into a history of eight, the history holds the new
-- delta first and then what it held before.
pub lag_history-lag_insert :
    (ec : RandData) (delta loc : ℕ)
    → ec.lag.observations + 1 < 2 ^ 17
    → length ec.lag.delta_history ≡ 8
    → loc < 7
    → (lag_history (lag_insert ec delta).lag 0 ≡ delta)
      × (lag_history (lag_insert ec delta).lag (loc + 1) ≡ lag_history ec.lag loc)
unfolding lag_history
lag_history-lag_insert ec delta loc h len k = ground (
  arith,
  lag_insert-stores ec delta h,
  lag_index-lem ec.lag loc (omega arith) (omega arith),
  lag_index-lem (lag_insert ec delta).lag 0,
  lag_index-lem (lag_insert ec delta).lag (loc + 1),
  get_or-set_self ec.lag.delta_history (ec.lag.observations % 8) delta 0,
  get_or-set_ne ec.lag.delta_history (ec.lag.observations % 8) ((ec.lag.observations + 7 - loc) % 8)
      delta 0,
)
