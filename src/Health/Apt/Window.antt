-- ===== src/Health/Apt/Window.antt =====
-- The adaptive proportion test against its specification: in a window, how often its first value
-- occurs.
use jitterentropy_library.Prelude.{ℕ, ◌+◌, ◌≤◌, ◌<◌, ◌^◌, true, false, List, [], ◌∷◌}
use jitterentropy_library.Prelude.{◌≡◌, ◌⊎◌, ◌↔◌, length, ltb, bit, bit-bit_or, bit-le-one, arith}
use jitterentropy_library.Prelude.{◌==◌, if◌then◌else◌, bit_and-mask_of_lt}
use jitterentropy_library.Collector.{RandData}
use jitterentropy_library.Health.Apt.{apt_insert}

-- The deltas in the order in which they come.
abbrev pub apt_feed : RandData → List ℕ → RandData
apt_feed ec [] = ec
apt_feed ec (delta ∷ rest) = apt_feed (apt_insert ec delta) rest

abbrev pub occurrences : ℕ → List ℕ → ℕ
occurrences base [] = 0
occurrences base (delta ∷ rest) =
    if delta == base then occurrences base rest + 1 else occurrences base rest

abbrev pub AllU64 : List ℕ → Type 0
AllU64 [] = Unit {0}
AllU64 (delta ∷ rest) = (delta < 2 ^ 64) × AllU64 rest

-- A window that has begun: the base is `base`, `seen` values are in, `count` of them the base.
record Window (ec : RandData) (base seen count : ℕ) : Type 0 where
  base_set : ec.apt.base_set ≡ true
  base_is : ec.apt.base ≡ base
  observations : ec.apt.observations ≡ seen
  counts : ec.apt.count ≡ count
  seen_lt : seen < 512
  count-le : count ≤ seen
  order : ec.apt.cutoff ≤ ec.apt.cutoff_permanent
  permanent : ec.apt.cutoff_permanent ≤ count → bit 17 ec.health_failure ≡ 1
  intermittent :
      ec.apt.cutoff < ec.apt.cutoff_permanent → ec.apt.cutoff ≤ count → bit 1 ec.health_failure ≡ 1

-- The two bits for `count` occurrences of the base, and what is left alone.
record Judged (ec : RandData) (count : ℕ) (after : RandData) : Type 0 where
  cutoff : after.apt.cutoff ≡ ec.apt.cutoff
  cutoff_permanent : after.apt.cutoff_permanent ≡ ec.apt.cutoff_permanent
  permanent :
      (bit 17 after.health_failure ≡ 1)
      ↔ ((bit 17 ec.health_failure ≡ 1) ⊎ (ec.apt.cutoff_permanent ≤ count))
  intermittent : (bit 1 after.health_failure ≡ 1) ↔ (
      (bit 1 ec.health_failure ≡ 1)
      ⊎ ((ec.apt.cutoff < ec.apt.cutoff_permanent) × (ec.apt.cutoff ≤ count)))

abbrev count_next : ℕ → ℕ → ℕ → ℕ
count_next delta base count = if delta == base then count + 1 else count

apt_insert-begins :
    (ec : RandData) (delta : ℕ)
    → delta < 2 ^ 64
    → ec.apt.base_set ≡ false
    → 1 < ec.apt.cutoff
    → ec.apt.cutoff ≤ ec.apt.cutoff_permanent
    → Window (apt_insert ec delta) delta 1 1 × Judged ec 1 (apt_insert ec delta)
unfolding apt_insert
apt_insert-begins ec delta h unset low order = ground (arith, bit_and-mask_of_lt 64 delta h)

-- One more value in the window.
apt_insert-Judged :
    (ec : RandData) (delta base seen count : ℕ)
    → delta < 2 ^ 64
    → Window ec base seen count
    → Judged ec (count_next delta base count) (apt_insert ec delta)
unfolding apt_insert
apt_insert-Judged ec delta base seen count h w = ground (
  arith,
  bit_and-mask_of_lt 64 delta h,
  bit-bit_or 17 ec.health_failure (2 ^ 17),
  bit-bit_or 17 ec.health_failure (2 ^ 1),
  bit-bit_or 1 ec.health_failure (2 ^ 17),
  bit-bit_or 1 ec.health_failure (2 ^ 1),
  bit-le-one 17 ec.health_failure,
  bit-le-one 1 ec.health_failure,
)

apt_insert-observes :
    (ec : RandData) (delta base seen count : ℕ)
    → delta < 2 ^ 64
    → Window ec base seen count
    → ((apt_insert ec delta).apt.base_set ≡ ltb (seen + 1) 512)
      × ((apt_insert ec delta).apt.base ≡ base)
      × ((apt_insert ec delta).apt.observations ≡ seen + 1)
      × ((apt_insert ec delta).apt.count ≡ count_next delta base count)
unfolding apt_insert
apt_insert-observes ec delta base seen count h w = ground (arith, bit_and-mask_of_lt 64 delta h)

apt_insert-Window :
    (ec : RandData) (delta base seen count : ℕ)
    → delta < 2 ^ 64
    → seen + 1 < 512
    → Window ec base seen count
    → Window (apt_insert ec delta) base (seen + 1) (count_next delta base count)
apt_insert-Window ec delta base seen count h room w = ground (
  arith,
  apt_insert-Judged ec delta base seen count h w,
  apt_insert-observes ec delta base seen count h w,
)

occurrences-cons :
    (base delta count : ℕ) (rest : List ℕ)
    → count_next delta base count + occurrences base rest ≡ count + occurrences base (delta ∷ rest)
occurrences-cons base delta count rest = ground arith

-- The rest of a window, up to its end.
apt_feed-Judged :
    (ec : RandData) (base seen count : ℕ) (rest : List ℕ)
    → AllU64 rest
    → seen + length rest ≤ 512
    → Window ec base seen count
    → Judged ec (count + occurrences base rest) (apt_feed ec rest)
      × ((apt_feed ec rest).apt.base_set ≡ ltb (seen + length rest) 512)
apt_feed-Judged ec base seen count [] all fits w = ground arith
apt_feed-Judged ec base seen count (delta ∷ []) all fits w = ground (
  arith,
  apt_insert-Judged ec delta base seen count all.0 w,
  apt_insert-observes ec delta base seen count all.0 w,
)
apt_feed-Judged ec base seen count (delta ∷ next ∷ rest) all fits w = ground (
  arith,
  apt_insert-Judged ec delta base seen count all.0 w,
  occurrences-cons base delta count (next ∷ rest),
  apt_feed-Judged (apt_insert ec delta) base (seen + 1) (count_next delta base count) (next ∷ rest)
      all.1 (omega arith) (apt_insert-Window ec delta base seen count all.0 (omega arith) w),
)

-- A window of at most 512 values, from where no base is set, with cutoffs above one and in order:
-- the permanent bit is set at its end exactly if it was set before or the first value occurs as
-- often as the permanent cutoff, and the intermittent bit exactly if it was set before or its
-- cutoff is below the permanent one and the first value occurs as often as it. The next value
-- starts a new window exactly if this one had 512.
pub apt_feed-window :
    (ec : RandData) (first : ℕ) (rest : List ℕ)
    → AllU64 (first ∷ rest)
    → length rest < 512
    → ec.apt.base_set ≡ false
    → 1 < ec.apt.cutoff
    → ec.apt.cutoff ≤ ec.apt.cutoff_permanent
    → let after = apt_feed ec (first ∷ rest) in
      let count = occurrences first (first ∷ rest) in
      ((bit 17 after.health_failure ≡ 1)
        ↔ ((bit 17 ec.health_failure ≡ 1) ⊎ (ec.apt.cutoff_permanent ≤ count)))
      × ((bit 1 after.health_failure ≡ 1) ↔ (
          (bit 1 ec.health_failure ≡ 1)
          ⊎ ((ec.apt.cutoff < ec.apt.cutoff_permanent) × (ec.apt.cutoff ≤ count))))
      × ((after.apt.base_set ≡ false) ↔ (length rest ≡ 511))
apt_feed-window ec first rest all short unset low order = ground (
  arith,
  apt_insert-begins ec first all.0 unset low order,
  occurrences-cons first first 0 rest,
  apt_feed-Judged (apt_insert ec first) first 1 1 rest all.1 (omega arith)
      (apt_insert-begins ec first all.0 unset low order).0,
)
