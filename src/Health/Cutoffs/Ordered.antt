-- ===== src/Health/Cutoffs/Ordered.antt =====
-- The cutoffs that an initialization sets, for every oversampling rate that it accepts.
use jitterentropy_library.Prelude.{ℕ, ◌+◌, ◌-◌, ◌*◌, ◌≤◌, ◌<◌, ◌≡◌, refl, true, ◌&&◌, get_or, arith}
use jitterentropy_library.Prelude.{ltb, leb, ◌==◌, all_below, all_below_sound}
use jitterentropy_library.Collector.{Rct, Apt, RctMem, Lag}
use jitterentropy_library.Health.Cutoffs.{
  lag_init, apt_init, apt_init_ntg1, rct_init, rct_mem_init, rct_mem_init_ntg1,
  lag_global_cutoff_lookup, lag_global_cutoff_permanent_lookup, lag_local_cutoff_lookup,
  lag_local_cutoff_permanent_lookup, apt_cutoff_lookup, apt_cutoff_permanent_lookup,
  apt_cutoff_lookup_ntg1, apt_cutoff_permanent_lookup_ntg1, rct_mem_cutoff_lookup,
  rct_mem_cutoff_permanent_lookup, rct_mem_cutoff_lookup_ntg1, rct_mem_cutoff_permanent_lookup_ntg1,
}

-- A lag window can reach its cutoffs, and the permanent ones come later.
abbrev pub IsOrderedLag : Lag → Type 0
IsOrderedLag lag =
    (0 < lag.global_cutoff)
    × (lag.global_cutoff < lag.global_cutoff_permanent)
    × (lag.global_cutoff_permanent < 131072)
    × (0 < lag.local_cutoff)
    × (lag.local_cutoff < lag.local_cutoff_permanent)

-- A window of 512 values can reach both cutoffs.
abbrev pub IsOrderedApt : Apt → Type 0
IsOrderedApt apt =
    (1 < apt.cutoff) × (apt.cutoff ≤ apt.cutoff_permanent) × (apt.cutoff_permanent ≤ 512)

abbrev pub IsOrderedRct : Rct → Type 0
IsOrderedRct rct = (0 < rct.cutoff) × (rct.cutoff < rct.cutoff_permanent)

abbrev pub IsOrderedRctMem : RctMem → Type 0
IsOrderedRctMem rct_mem = (0 < rct_mem.cutoff) × (rct_mem.cutoff < rct_mem.cutoff_permanent)

lag_table :
    all_below 20 (λ i.
      ltb 0 (get_or lag_global_cutoff_lookup i 0)
      && ltb (get_or lag_global_cutoff_lookup i 0) (get_or lag_global_cutoff_permanent_lookup i 0)
      && ltb (get_or lag_global_cutoff_permanent_lookup i 0) 131072
      && ltb 0 (get_or lag_local_cutoff_lookup i 0)
      && ltb (get_or lag_local_cutoff_lookup i 0) (get_or lag_local_cutoff_permanent_lookup i 0))
    ≡ true
unfolding all_below
lag_table = refl

apt_table :
    all_below 20 (λ i.
      ltb 1 (get_or apt_cutoff_lookup i 0)
      && leb (get_or apt_cutoff_lookup i 0) (get_or apt_cutoff_permanent_lookup i 0)
      && leb (get_or apt_cutoff_permanent_lookup i 0) 512
      && ltb 1 (get_or apt_cutoff_lookup_ntg1 i 0)
      && leb (get_or apt_cutoff_lookup_ntg1 i 0) (get_or apt_cutoff_permanent_lookup_ntg1 i 0)
      && leb (get_or apt_cutoff_permanent_lookup_ntg1 i 0) 512)
    ≡ true
unfolding all_below
apt_table = refl

rct_mem_table :
    all_below 20 (λ i.
      (get_or rct_mem_cutoff_lookup i 0 == 107 * (i + 1))
      && (get_or rct_mem_cutoff_permanent_lookup i 0 == 107 * (i + 1) + 1)
      && ltb 0 (get_or rct_mem_cutoff_lookup_ntg1 i 0)
      && ltb
          (get_or rct_mem_cutoff_lookup_ntg1 i 0)
          (get_or rct_mem_cutoff_permanent_lookup_ntg1 i 0))
    ≡ true
unfolding all_below
rct_mem_table = refl

module _ (osr : ℕ) (low : 0 < osr) (high : osr ≤ 20) where
  -- For a rate from 1 to 20 the local cutoffs and the global ones of the lag predictor are in
  -- order, whatever the test held before.
  pub lag_init-IsOrderedLag : (lag : Lag) → IsOrderedLag (lag_init lag osr)
  unfolding lag_init
  lag_init-IsOrderedLag lag = ground (arith, all_below_sound 20 _ (osr - 1) lag_table (omega arith))

  -- For a rate from 1 to 20 the cutoffs of the adaptive proportion test are in order, in both
  -- startup types.
  pub apt_init-IsOrderedApt :
      (apt : Apt) → IsOrderedApt (apt_init apt osr) × IsOrderedApt (apt_init_ntg1 apt osr)
  unfolding apt_init apt_init_ntg1
  apt_init-IsOrderedApt apt = ground (arith, all_below_sound 20 _ (osr - 1) apt_table (omega arith))

  -- For a rate from 1 to 20 the cutoffs of the repetition count test with memory are in order, in
  -- both startup types, and in the common case they are 107 measurements for each unit of the rate,
  -- and one more.
  pub rct_mem_init-IsOrderedRctMem :
      (rct_mem : RctMem)
      → IsOrderedRctMem (rct_mem_init rct_mem osr)
        × IsOrderedRctMem (rct_mem_init_ntg1 rct_mem osr)
        × ((rct_mem_init rct_mem osr).cutoff ≡ 107 * osr)
        × ((rct_mem_init rct_mem osr).cutoff_permanent ≡ 107 * osr + 1)
  unfolding rct_mem_init rct_mem_init_ntg1
  rct_mem_init-IsOrderedRctMem rct_mem =
      ground (arith, all_below_sound 20 _ (osr - 1) rct_mem_table (omega arith))

  -- For a rate from 1 to 20 the cutoffs of the repetition count test are in order, with both margins.
  pub rct_init-IsOrderedRct :
      (rct : Rct) → IsOrderedRct (rct_init rct osr 0) × IsOrderedRct (rct_init rct osr 8)
  unfolding rct_init
  rct_init-IsOrderedRct rct = ground arith
