-- ===== src/Health/Lag/Valid.antt =====
-- The invariant of the lag predictor: its arrays and indices, the best predictor, and the counters.
use jitterentropy_library.Prelude.{ℕ, zero, suc, ◌+◌, ◌≤◌, ◌<◌, ◌^◌, ◌≡◌, refl}
use jitterentropy_library.Prelude.{
  length, length-set, get_or, get_or-set, get_or-replicate, ◌∙◌, leb, bit_and, u32, subst,
  Bool-cases, inl, inr,
}
use jitterentropy_library.Prelude.{arith, ltb, ◌==◌, if◌then◌else◌}
use jitterentropy_library.Collector.{RandData, Lag}
use jitterentropy_library.Health.Lag.{
  lag_try, lag_update, lag_score, lag_guess, lag_store, lag_insert, lag_reset, lag_history,
}

-- During the loop over the predictors, `i` being the next one: a score is at most the number of
-- observations, or one more where the predictor has been tried already.
pub record IsScored (lag : Lag) (i : ℕ) : Type 0 where
  pub history_len : length lag.delta_history ≡ 8
  pub scores_len : length lag.scoreboard ≡ 8
  pub best_in : lag.best_predictor < 8
  pub observations_lt : lag.observations < 2 ^ 17
  pub tried : (j : ℕ) → get_or lag.scoreboard j 0 ≤ lag.observations + 1
  pub untried : (j : ℕ) → i ≤ j → get_or lag.scoreboard j 0 ≤ lag.observations
  pub is_best : (j : ℕ) → get_or lag.scoreboard j 0 ≤ get_or lag.scoreboard lag.best_predictor 0

module _ (lag : Lag) (i : ℕ) (h : i < 8) (v : IsScored lag i) where
  abbrev score : ℕ
  score = get_or lag.scoreboard i 0 + 1

  -- The scoreboard afterwards, and where the best predictor is.
  lag_score-at :
      (j : ℕ)
      → get_or (lag_score lag i).scoreboard j 0
        ≡ (if i == j then score else get_or lag.scoreboard j 0)
  unfolding lag_score
  lag_score-at j = ground (arith, v.untried i, v.scores_len, get_or-set lag.scoreboard i j score 0)

  lag_score-best : (lag_score lag i).best_predictor ≡ (
      if ltb (get_or (lag_score lag i).scoreboard lag.best_predictor 0) score
      then i
      else lag.best_predictor)
  unfolding lag_score
  lag_score-best = ground (arith, v.untried i)

  lag_score-IsScored : IsScored (lag_score lag i) (i + 1)
  lag_score-IsScored = record {
    history_len = unfold lag_score in v.history_len;
    scores_len = unfold lag_score in (ground (arith, length-set lag.scoreboard i (u32 score)));
    best_in = ground (arith, lag_score-best);
    observations_lt = unfold lag_score in v.observations_lt;
    tried = λ j. ground (arith, lag_score-at j, v.tried j, v.untried i, same);
    untried = λ j p. ground (arith, lag_score-at j, v.untried j, same);
    is_best = λ j. ground (
      arith,
      lag_score-best,
      lag_score-at j,
      lag_score-at i,
      lag_score-at lag.best_predictor,
      v.is_best j,
      v.is_best i,
    );
  }
    where
      same : (lag_score lag i).observations ≡ lag.observations
      same = unfold lag_score in refl

IsScored-later : (lag : Lag) (i : ℕ) → IsScored lag i → IsScored lag (i + 1)
IsScored-later lag i v = record {
  history_len = v.history_len;
  scores_len = v.scores_len;
  best_in = v.best_in;
  observations_lt = v.observations_lt;
  tried = v.tried;
  untried = λ j p. v.untried j (omega arith);
  is_best = v.is_best;
}

lag_try-IsScored :
    (lag : Lag) (i delta : ℕ) → i < 8 → IsScored lag i → IsScored (lag_try lag i delta) (i + 1)
unfolding lag_try
lag_try-IsScored lag i delta h v = elim (Bool-cases (lag_history lag i == delta)) [
  | inl hit ↦ rw hit (lag_score-IsScored lag i h v)
  | inr miss ↦ rw miss (IsScored-later lag i v)
]

lag_update-IsScored :
    (left i : ℕ) (lag : Lag) (delta : ℕ)
    → i + left ≡ 8
    → IsScored lag i
    → IsScored (lag_update left i lag delta) 8
unfolding lag_update
lag_update-IsScored zero i lag delta e v = subst (λ n. IsScored lag n) (omega arith) v
lag_update-IsScored (suc left) i lag delta e v =
    lag_update-IsScored left (i + 1) (lag_try lag i delta) delta (omega arith)
      (lag_try-IsScored lag i delta (omega arith) v)

-- Between insertions: the arrays have eight entries, the best predictor is one of them and has the
-- largest score, and no score is above the number of observations, which is below a window.
abbrev pub IsValid : Lag → Type 0
IsValid lag = IsScored lag 0

-- The counters of successes play no part in it.
IsScored-lag_guess : (ec : RandData) (delta : ℕ) → IsValid ec.lag → IsValid (lag_guess ec delta).lag
unfolding lag_guess
IsScored-lag_guess ec delta v =
    elim (Bool-cases (lag_history ec.lag ec.lag.best_predictor == delta)) [
      | inl hit ↦ rw hit (
          same
            (record (ec.lag) {
              prediction_success_count = u32 (ec.lag.prediction_success_count + 1);
              prediction_success_run = u32 (ec.lag.prediction_success_run + 1);
            })
            refl refl refl refl)
      | inr miss ↦
          rw miss (same (record (ec.lag) { prediction_success_run = 0 }) refl refl refl refl)
    ]
  where
    same :
        (lag : Lag)
        → lag.delta_history ≡ ec.lag.delta_history
        → lag.scoreboard ≡ ec.lag.scoreboard
        → lag.best_predictor ≡ ec.lag.best_predictor
        → lag.observations ≡ ec.lag.observations
        → IsValid lag
    same lag a b c d = record {
      history_len = rw a v.history_len;
      scores_len = rw b v.scores_len;
      best_in = rw c v.best_in;
      observations_lt = rw d v.observations_lt;
      tried = λ j. rw (b, d) (v.tried j);
      untried = λ j p. rw (b, d) (v.untried j p);
      is_best = λ j. rw (b, c) (v.is_best j);
    }

pub lag_reset-IsValid : (lag : Lag) → IsValid (lag_reset lag)
unfolding lag_reset
lag_reset-IsValid lag = record {
  history_len = refl;
  scores_len = refl;
  best_in = omega arith;
  observations_lt = omega arith;
  tried = λ j. omega (arith, get_or-replicate {A = ℕ} 8 j 0);
  untried = λ j p. omega (arith, get_or-replicate {A = ℕ} 8 j 0);
  is_best = λ j. omega (arith, get_or-replicate {A = ℕ} 8 j 0);
}

lag_store-IsValid : (lag : Lag) (delta : ℕ) → IsScored lag 8 → IsValid (lag_store lag delta)
unfolding lag_store
lag_store-IsValid lag delta v = elim (Bool-cases (leb (2 ^ 17) (u32 (lag.observations + 1)))) [
  | inl full ↦ rw full (lag_reset-IsValid lag)
  | inr room ↦ rw room (record {
    history_len = length-set lag.delta_history (bit_and lag.observations 7) delta ∙ v.history_len;
    scores_len = v.scores_len;
    best_in = v.best_in;
    observations_lt = ground arith;
    tried = λ j. ground (arith, v.tried j);
    untried = λ j p. ground (arith, v.tried j);
    is_best = v.is_best;
  })
]

-- Every insertion, the end of a window included, keeps the invariant: two arrays of eight, a best
-- predictor below eight with the highest score, fewer than 2 ^ 17 observations, and scores bounded
-- by the observations.
pub lag_insert-IsValid :
    (ec : RandData) (delta : ℕ) → IsValid ec.lag → IsValid (lag_insert ec delta).lag
unfolding lag_insert
lag_insert-IsValid ec delta v = elim (Bool-cases (ltb ec.lag.observations 8)) [
  | inl filling ↦ rw filling (record {
    history_len =
        ground (arith, v.history_len, length-set ec.lag.delta_history ec.lag.observations delta);
    scores_len = v.scores_len;
    best_in = v.best_in;
    observations_lt = ground arith;
    tried = λ j. ground (arith, v.untried j);
    untried = λ j p. ground (arith, v.untried j);
    is_best = v.is_best;
  })
  | inr full ↦ rw full (
      lag_store-IsValid _ delta (
        lag_update-IsScored 8 0 (lag_guess ec delta).lag delta refl
          (IsScored-lag_guess ec delta v)))
]
