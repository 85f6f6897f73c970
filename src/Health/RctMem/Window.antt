-- ===== src/Health/RctMem/Window.antt =====
-- The repetition count test with memory over one window: what it counts, and what that means for
-- the cutoffs of the common case.
use jitterentropy_library.Prelude.{ℕ, ◌+◌, ◌-◌, ◌*◌, ◌/◌, ◌%◌, ◌≤◌, ◌<◌, ◌^◌, Bool, true, false}
use jitterentropy_library.Prelude.{
  List, [], ◌∷◌, ◌≡◌, length, arith, if◌then◌else◌, ◌==◌, ◌&&◌, ◌⊎◌, inl, inr,
}
use jitterentropy_library.Prelude.{Option, some, ◌>>=◌, refl, ap, sym, ◌∙◌, subst, leb}
use jitterentropy_library.Collector.{RctMem, RandData, Machine}
use jitterentropy_library.Health.RctMem.{
  rct_mem_count_stuck, rct_mem_advance, rct_mem_judge, rct_mem_insert,
}
use jitterentropy_library.Health.Cutoffs.{rct_mem_init}
use jitterentropy_library.Health.Cutoffs.Ordered.{rct_mem_init-IsOrderedRctMem}

-- What the insertions of a window do to the counters, where none starts a recovery.
abbrev rct_mem_feed : RctMem → List Bool → RctMem
rct_mem_feed r [] = r
rct_mem_feed r (stuck ∷ rest) = rct_mem_feed (rct_mem_advance (rct_mem_count_stuck r stuck)) rest

-- How many of every third verdict are stuck, where `i` verdicts stand before the list.
abbrev pub stuck_thirds : ℕ → List Bool → ℕ
stuck_thirds i [] = 0
stuck_thirds i (true ∷ rest) =
    if i % 3 == 0 then stuck_thirds (i + 1) rest + 1 else stuck_thirds (i + 1) rest
stuck_thirds i (false ∷ rest) = stuck_thirds (i + 1) rest

-- How many third places there are.
abbrev pub thirds : ℕ → ℕ → ℕ
thirds i n = (i + n + 2) / 3 - (i + 2) / 3

stuck_thirds-le : (i : ℕ) (stuck : List Bool) → stuck_thirds i stuck ≤ thirds i (length stuck)
stuck_thirds-le i [] = omega arith
stuck_thirds-le i (true ∷ rest) = ground (arith, stuck_thirds-le (i + 1) rest)
stuck_thirds-le i (false ∷ rest) = ground (arith, stuck_thirds-le (i + 1) rest)

abbrev third : ℕ → Bool → ℕ
third i stuck = if stuck && (i % 3 == 0) then 1 else 0

stuck_thirds-cons :
    (i : ℕ) (stuck : Bool) (rest : List Bool)
    → stuck_thirds i (stuck ∷ rest) ≡ third i stuck + stuck_thirds (i + 1) rest
stuck_thirds-cons i true rest = ground arith
stuck_thirds-cons i false rest = ground arith

-- One measurement inside the window; the first one does not see the count before.
rct_mem_step :
    (r : RctMem) (stuck : Bool)
    → r.ctr < r.nosr
    → r.nosr < 2 ^ 16
    → r.count ≤ r.ctr ⊎ (r.ctr ≡ 0)
    → let after = rct_mem_advance (rct_mem_count_stuck r stuck) in
      (after.ctr ≡ r.ctr + 1)
      × (after.nosr ≡ r.nosr)
      × (after.count ≡ (if r.ctr == 0 then 0 else r.count) + third r.ctr stuck)
unfolding rct_mem_advance rct_mem_count_stuck
rct_mem_step r true inside small bound = ground arith
rct_mem_step r false inside small bound = ground arith

rct_mem_feed-count :
    (r : RctMem) (stuck : List Bool)
    → 0 < r.ctr
    → r.ctr + length stuck ≤ r.nosr
    → r.nosr < 2 ^ 16
    → r.count ≤ r.ctr
    → (rct_mem_feed r stuck).count ≡ r.count + stuck_thirds r.ctr stuck
rct_mem_feed-count r [] pos fits small bound = omega arith
rct_mem_feed-count r (stuck ∷ rest) pos fits small bound = ground (
  arith,
  rct_mem_step r stuck (omega arith) small (inl bound),
  stuck_thirds-cons r.ctr stuck rest,
  rct_mem_feed-count (rct_mem_advance (rct_mem_count_stuck r stuck)) rest,
)

-- A window counts every third measurement that is stuck, whatever count was left from the one before.
rct_mem_feed-stuck_thirds :
    (r : RctMem) (stuck : List Bool)
    → r.ctr ≡ 0
    → 0 < length stuck
    → length stuck ≤ r.nosr
    → r.nosr < 2 ^ 16
    → (rct_mem_feed r stuck).count ≡ stuck_thirds 0 stuck
rct_mem_feed-stuck_thirds r [] new some_ fits small = absurd (omega arith)
rct_mem_feed-stuck_thirds r (stuck ∷ rest) new some_ fits small = ground (
  arith,
  rct_mem_step r stuck (omega arith) small (inr new),
  stuck_thirds-cons 0 stuck rest,
  rct_mem_feed-count (rct_mem_advance (rct_mem_count_stuck r stuck)) rest,
)

-- The measurements of a window, one after the other.
abbrev pub rct_mem_inserts : (Machine → Option Machine) → Machine → List Bool → Option Machine
rct_mem_inserts random_data m [] = some m
rct_mem_inserts random_data m (stuck ∷ rest) = do
  m' ← rct_mem_insert random_data m stuck
  rct_mem_inserts random_data m' rest

-- It returns, with these counters and no failure recorded.
abbrev IsQuiet : RandData → RctMem → Option Machine → Type 0
IsQuiet ec r o =
    (after : Machine) × (o ≡ some after)
    × (after.ec.rct_mem ≡ r)
    × (after.ec.health_failure ≡ ec.health_failure)

-- Every count of these measurements is below the cutoff.
abbrev Below : RctMem → List Bool → Type 0
Below r [] = Unit {0}
Below r (stuck ∷ rest) =
    ((rct_mem_count_stuck r stuck).count < r.cutoff)
    × Below (rct_mem_advance (rct_mem_count_stuck r stuck)) rest

rct_mem_step-cutoff :
    (r : RctMem) (stuck : Bool)
    → ((rct_mem_advance (rct_mem_count_stuck r stuck)).cutoff ≡ r.cutoff)
      × ((rct_mem_advance (rct_mem_count_stuck r stuck)).count
          ≡ (rct_mem_count_stuck r stuck).count)
      × ((rct_mem_count_stuck r stuck).cutoff ≡ r.cutoff)
unfolding rct_mem_advance rct_mem_count_stuck
rct_mem_step-cutoff r stuck = ground arith

Below-stuck_thirds :
    (r : RctMem) (stuck : List Bool)
    → r.ctr + length stuck ≤ r.nosr
    → r.nosr < 2 ^ 16
    → r.count ≤ r.ctr ⊎ (r.ctr ≡ 0)
    → (if r.ctr == 0 then 0 else r.count) + stuck_thirds r.ctr stuck < r.cutoff
    → Below r stuck
Below-stuck_thirds r [] fits small bound below = tt
Below-stuck_thirds r (stuck ∷ rest) fits small bound below =
    let after = rct_mem_advance (rct_mem_count_stuck r stuck) in
    let step = rct_mem_step r stuck (omega (arith, fits)) small bound in
    let same = rct_mem_step-cutoff r stuck in
    let split = stuck_thirds-cons r.ctr stuck rest in
    let next = ap (λ n. stuck_thirds n rest) step.0 in
    (
      omega (arith, same.1, step.2, split, below),
      Below-stuck_thirds after rest (omega (arith, step.0, step.1, fits))
          (omega (arith, step.1, small)) (inl (ground (arith, step, bound)))
          (ground (arith, step, same, split, below, next)),
    )

step-cutoff_permanent :
    (r : RctMem) (stuck : Bool)
    → ((rct_mem_count_stuck r stuck).cutoff_permanent ≡ r.cutoff_permanent)
      × ((rct_mem_advance (rct_mem_count_stuck r stuck)).cutoff_permanent ≡ r.cutoff_permanent)
unfolding rct_mem_advance rct_mem_count_stuck
step-cutoff_permanent r stuck = ground arith

not_reached : (n cutoff : ℕ) → n < cutoff → (n == cutoff) ≡ false
not_reached n cutoff h = ground (arith, h)

not_permanent : (n cutoff : ℕ) → n < cutoff → leb cutoff n ≡ false
not_permanent n cutoff h = ground (arith, h)

module _ (random_data : Machine → Option Machine) where
  rct_mem_judge-below :
      (m : Machine)
      → m.ec.rct_mem.count < m.ec.rct_mem.cutoff
      → m.ec.rct_mem.cutoff ≤ m.ec.rct_mem.cutoff_permanent
      → rct_mem_judge random_data m ≡ some m
  unfolding rct_mem_judge
  rct_mem_judge-below m below order =
      rw
        (
          not_permanent m.ec.rct_mem.count m.ec.rct_mem.cutoff_permanent
              (omega (arith, below, order)),
          not_reached m.ec.rct_mem.count m.ec.rct_mem.cutoff below,
        )
        refl

  rct_mem_insert-IsQuiet :
      (m : Machine) (stuck : Bool)
      → (rct_mem_count_stuck m.ec.rct_mem stuck).count < m.ec.rct_mem.cutoff
      → m.ec.rct_mem.cutoff ≤ m.ec.rct_mem.cutoff_permanent
      → IsQuiet m.ec
          (rct_mem_advance (rct_mem_count_stuck m.ec.rct_mem stuck))
          (rct_mem_insert random_data m stuck)
  unfolding rct_mem_insert
  rct_mem_insert-IsQuiet m stuck below order =
      let counted = record m {
        ec = record (m.ec) { rct_mem = rct_mem_count_stuck m.ec.rct_mem stuck };
      } in
      let same = rct_mem_step-cutoff m.ec.rct_mem stuck in
      let kept = step-cutoff_permanent m.ec.rct_mem stuck in
      let judged =
        rct_mem_judge-below counted (omega (arith, below, same.2))
          (omega (arith, order, same.2, kept.0)) in
      rw judged (_, refl, refl, refl)

  rct_mem_inserts-IsQuiet :
      (m : Machine) (stuck : List Bool)
      → Below m.ec.rct_mem stuck
      → m.ec.rct_mem.cutoff ≤ m.ec.rct_mem.cutoff_permanent
      → IsQuiet m.ec (rct_mem_feed m.ec.rct_mem stuck) (rct_mem_inserts random_data m stuck)
  rct_mem_inserts-IsQuiet m [] below order = (m, refl, refl, refl)
  rct_mem_inserts-IsQuiet m (stuck ∷ rest) below order =
      let r = rct_mem_advance (rct_mem_count_stuck m.ec.rct_mem stuck) in
      let (next, same, counters, clear) = rct_mem_insert-IsQuiet m stuck below.0 order in
      let ordered : r.cutoff ≤ r.cutoff_permanent = omega (
        arith,
        order,
        (rct_mem_step-cutoff m.ec.rct_mem stuck).0,
        (step-cutoff_permanent m.ec.rct_mem stuck).1,
      ) in
      let (last, done, counted, still) =
        rct_mem_inserts-IsQuiet next rest (subst (λ x. Below x rest) (sym counters) below.1)
          (subst (λ (x : RctMem). x.cutoff ≤ x.cutoff_permanent) (sym counters) ordered) in
      rw same (last, done, counted ∙ ap (λ x. rct_mem_feed x rest) counters, still ∙ clear)

-- A window of at most `rct_mem_nosr` insertions in which fewer than the intermittent cutoff of every
-- third measurement are stuck returns whatever a recovery would do, as none begins: it records no
-- failure, and its count is the number of those that are stuck, whatever was left from before.
pub rct_mem_inserts-stuck_thirds :
    (random_data : Machine → Option Machine) (m : Machine) (stuck : List Bool)
    → m.ec.rct_mem.ctr ≡ 0
    → 0 < length stuck
    → length stuck ≤ m.ec.rct_mem.nosr
    → m.ec.rct_mem.nosr < 2 ^ 16
    → m.ec.rct_mem.cutoff ≤ m.ec.rct_mem.cutoff_permanent
    → stuck_thirds 0 stuck < m.ec.rct_mem.cutoff
    → (after : Machine) × (rct_mem_inserts random_data m stuck ≡ some after)
      × (after.ec.rct_mem.count ≡ stuck_thirds 0 stuck)
      × (after.ec.health_failure ≡ m.ec.health_failure)
rct_mem_inserts-stuck_thirds random_data m stuck new some_ fits small order below =
    let zero_first = ap (λ n. stuck_thirds n stuck) new in
    let first : (m.ec.rct_mem.ctr == 0) ≡ true = ground (arith, new) in
    let (after, returned, counted, clear) =
      rct_mem_inserts-IsQuiet random_data m stuck
        (Below-stuck_thirds m.ec.rct_mem stuck (omega (arith, new, fits)) small (inr new)
          (rw first (omega (arith, below, zero_first))))
        order in
    (
      after,
      returned,
      ap (λ (r : RctMem). r.count) counted
          ∙ rct_mem_feed-stuck_thirds m.ec.rct_mem stuck new some_ fits small,
      clear,
    )

-- With the cutoffs of the common case and a whole window of the FIPS mode, 321 measurements for each
-- unit of the oversampling rate, a window in which one of every third measurement is not stuck
-- returns, without a recovery and without a failure, and with its count below the cutoff.
pub rct_mem_inserts-common :
    (random_data : Machine → Option Machine) (m : Machine) (osr : ℕ) (stuck : List Bool)
    → 0 < osr
    → osr ≤ 20
    → m.ec.rct_mem ≡ rct_mem_init m.ec.rct_mem osr
    → m.ec.rct_mem.ctr ≡ 0
    → m.ec.rct_mem.nosr ≡ 321 * osr
    → length stuck ≡ 321 * osr
    → stuck_thirds 0 stuck < thirds 0 (length stuck)
    → (after : Machine) × (rct_mem_inserts random_data m stuck ≡ some after)
      × (after.ec.rct_mem.count < m.ec.rct_mem.cutoff)
      × (after.ec.health_failure ≡ m.ec.health_failure)
rct_mem_inserts-common random_data m osr stuck low high cutoffs new window len some_sound =
    let init = rct_mem_init-IsOrderedRctMem osr low high m.ec.rct_mem in
    let cutoff = ap (λ (r : RctMem). r.cutoff) cutoffs ∙ init.2 in
    let permanent = ap (λ (r : RctMem). r.cutoff_permanent) cutoffs ∙ init.3 in
    let count_thirds = ap (λ n. thirds 0 n) len in
    let below : stuck_thirds 0 stuck < m.ec.rct_mem.cutoff =
      omega (arith, some_sound, count_thirds, cutoff) in
    let (after, returned, counted, clear) =
      rct_mem_inserts-stuck_thirds random_data m stuck new (omega (arith, len, low))
        (omega (arith, len, window)) (omega (arith, high, window))
        (omega (arith, cutoff, permanent)) below in
    (after, returned, omega (arith, counted, below), clear)
