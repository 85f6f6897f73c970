-- ===== src/Health/Stuck/Start.antt =====
-- What an initialization of the health tests establishes.
use jitterentropy_library.Prelude.{ℕ, ◌≤◌, ◌<◌, ◌≡◌, ◌↔◌, true, false, refl, arith}
use jitterentropy_library.Prelude.{ltb, ◌==◌, ◌||◌}
use jitterentropy_library.Collector.{RandData}
use jitterentropy_library.Health.Lag.{lag_reset}
use jitterentropy_library.Health.Lag.Valid.{IsValid, lag_reset-IsValid, IsScored}
use jitterentropy_library.Health.Apt.{apt_reset}
use jitterentropy_library.Health.Cutoffs.{
  lag_init, rct_init, apt_init, apt_init_ntg1, rct_mem_init, rct_mem_init_ntg1,
}
use jitterentropy_library.Health.Cutoffs.Ordered.{
  IsOrderedLag, IsOrderedApt, IsOrderedRct, IsOrderedRctMem, lag_init-IsOrderedLag,
  apt_init-IsOrderedApt, rct_init-IsOrderedRct, rct_mem_init-IsOrderedRctMem,
}
use jitterentropy_library.Health.Stuck.{
  HealthInitType, common, ntg1, health_init, health_init_cutoffs,
}

-- The cutoffs of every test are in order, the counters and the history are cleared, and the stuck
-- test takes its reference anew.
pub record IsStarted (ec : RandData) : Type 0 where
  pub lag_order : IsOrderedLag ec.lag
  pub apt_order : IsOrderedApt ec.apt
  pub rct_order : IsOrderedRct ec.rct
  pub rct_mem_order : IsOrderedRctMem ec.rct_mem
  pub lag_valid : IsValid ec.lag
  pub lag_new : ec.lag.observations ≡ 0
  pub rct_new : ec.rct.count ≡ 0
  pub apt_new : ec.apt.base_set ≡ false
  pub primed : ec.stuck_prime ≡ 2

IsValid-lag_init : (ec : RandData) → IsValid (lag_init (lag_reset ec.lag) ec.osr)
unfolding lag_init
IsValid-lag_init ec = record {
  history_len = v.history_len;
  scores_len = v.scores_len;
  best_in = v.best_in;
  observations_lt = v.observations_lt;
  tried = v.tried;
  untried = v.untried;
  is_best = v.is_best;
}
  where
    v : IsScored (lag_reset ec.lag) 0
    v = lag_reset-IsValid ec.lag

-- The test on the oversampling rate.
in_range : (osr : ℕ) → 0 < osr → osr ≤ 20 → (osr == 0 || ltb 20 osr) ≡ false
in_range osr low high = ground arith

pub health_init-IsStarted :
    (ec : RandData) (inittype : HealthInitType)
    → 0 < ec.osr
    → ec.osr ≤ 20
    → IsStarted (health_init ec inittype).1
unfolding health_init health_init_cutoffs apt_reset lag_reset rct_init apt_init apt_init_ntg1
    lag_init rct_mem_init rct_mem_init_ntg1
health_init-IsStarted ec common low high = rw (in_range ec.osr low high) (record {
  lag_order = lag_init-IsOrderedLag ec.osr low high (lag_reset ec.lag);
  apt_order = (apt_init-IsOrderedApt ec.osr low high ec.apt).0;
  rct_order = (rct_init-IsOrderedRct ec.osr low high ec.rct).0;
  rct_mem_order = (rct_mem_init-IsOrderedRctMem ec.osr low high ec.rct_mem).0;
  lag_valid = IsValid-lag_init ec;
  lag_new = refl;
  rct_new = refl;
  apt_new = refl;
  primed = refl;
})
health_init-IsStarted ec ntg1 low high = rw (in_range ec.osr low high) (record {
  lag_order = lag_init-IsOrderedLag ec.osr low high (lag_reset ec.lag);
  apt_order = (apt_init-IsOrderedApt ec.osr low high ec.apt).1;
  rct_order = (rct_init-IsOrderedRct ec.osr low high ec.rct).1;
  rct_mem_order = (rct_mem_init-IsOrderedRctMem ec.osr low high ec.rct_mem).1;
  lag_valid = IsValid-lag_init ec;
  lag_new = refl;
  rct_new = refl;
  apt_new = refl;
  primed = refl;
})

pub health_init-accepts :
    (ec : RandData) (inittype : HealthInitType)
    → ((health_init ec inittype).0 ≡ true) ↔ ((0 < ec.osr) × (ec.osr ≤ 20))
unfolding health_init
health_init-accepts ec inittype = ground arith

-- The memory region is left alone.
pub health_init-keeps_mem :
    (ec : RandData) (inittype : HealthInitType) → (health_init ec inittype).1.mem ≡ ec.mem
unfolding health_init health_init_cutoffs
health_init-keeps_mem ec common = ground arith
health_init-keeps_mem ec ntg1 = ground arith
