-- ===== src/Reset/Heir.antt =====
-- What a replacement keeps of the collector that it replaces, and its oversampling rate.
use jitterentropy_library.Prelude.{ℕ, zero, suc, ◌+◌, ◌≤◌, ◌<◌, arith, Option, none, some}
use jitterentropy_library.Prelude.{ltb, Bool-cases, inl, inr}
use jitterentropy_library.Collector.{RandData, max_osr}
use jitterentropy_library.Config.{ensure_osr_is_at_least_minimal}
use jitterentropy_library.Gcd.{InitError}
use jitterentropy_library.Health.Stuck.{health_duplicate}
use jitterentropy_library.World.{Env, World, M, pure, After, After-next, Anything, anything}
use jitterentropy_library.Alloc.{alloc_internal, collector_free}
use jitterentropy_library.Alloc.Ready.{RateGiven, alloc_internal-RateGiven}
use jitterentropy_library.Init.{time_entropy_init, entropy_init_ex}
use jitterentropy_library.Reset.{
  carry_over, reset_flags, if_some, alloc_ready, climb_on, climb, replace, reset_with_new, reset_at,
  reset_with,
}
use jitterentropy_library.Reset.Continued.{
  IsHeir, InheritsFrom, IsHeir-trans, health_duplicate-IsHeir, health_duplicate-osr,
}

-- The rate that a climb ends with.
abbrev Climbed : ℕ → Option ℕ → World → Type 0
Climbed osr none w = Unit {0}
Climbed osr (some found) w = (osr ≤ found) × (found ≤ 20)

Climbed-lower :
    (osr : ℕ) (o : Option (Option ℕ × World)) → After (Climbed (osr + 1)) o → After (Climbed osr) o
Climbed-lower osr none h = tt
Climbed-lower osr (some (none, w)) h = tt
Climbed-lower osr (some (some found, w)) h = (omega (arith, h.0), h.1)

climb_on-Climbed :
    (env : Env) (fuel : ℕ) (higher : M (Option ℕ)) (osr : ℕ) (failed : Option InitError) (w : World)
    → osr ≤ 20
    → (osr + 1 ≤ 20 → After (Climbed (osr + 1)) (higher w))
    → After (Climbed osr) (climb_on env fuel higher osr failed w)
unfolding climb_on
climb_on-Climbed env fuel higher osr none w le rest = (omega arith, le)
climb_on-Climbed env fuel higher osr (some e) w le rest =
    elim (Bool-cases (ltb max_osr (osr + 1))) [
      | inl over ↦ rw over tt
      | inr within ↦ rw within (Climbed-lower osr (higher w) (rest (ground arith)))
    ]

climb-Climbed :
    (env : Env) (fuel left osr flags : ℕ) (w : World)
    → osr ≤ 20
    → After (Climbed osr) (climb env fuel left osr flags w)
unfolding climb
climb-Climbed env fuel zero osr flags w le = tt
climb-Climbed env fuel (suc left) osr flags w le =
    After-next Anything (Climbed osr) (entropy_init_ex env fuel osr flags w)
      (climb_on env fuel (climb env fuel left (osr + 1) flags) osr)
      (anything (entropy_init_ex env fuel osr flags w))
      λ failed w1 u.
        climb_on-Climbed env fuel (climb env fuel left (osr + 1) flags) osr failed w1 le
          (λ le'. climb-Climbed env fuel left (osr + 1) flags w1 le')

-- `b` replaces `a`: an heir, at a rate that is higher by one at least, and 20 at most.
abbrev pub Succeeds : RandData → Option RandData → World → Type 0
Succeeds a none w = Unit {0}
Succeeds a (some b) w = IsHeir a b × (a.osr < b.osr) × (b.osr ≤ 20)

-- A rate that the tables have.
abbrev pub Bounded : Option RandData → Type 0
Bounded none = Unit {0}
Bounded (some ec) = ec.osr ≤ 20

-- A startup that keeps what an heir keeps, at most at the rate 20.
abbrev pub Keeping : (RandData → M (Option RandData)) → Type 0
Keeping startup =
    (ec : RandData) (w : World)
    → ec.osr ≤ 20
    → After (λ r w'. InheritsFrom ec r w' × Bounded r) (startup ec w)

replace-Succeeds :
    (env : Env) (fuel : ℕ) (old : RandData) (started : Option RandData) (w : World)
    → Succeeds old started w
    → After (Succeeds old) (if_some (replace env fuel old) started w)
unfolding if_some replace
replace-Succeeds env fuel old none w h = tt
replace-Succeeds env fuel old (some new_ec) w h =
    After-next Anything (Succeeds old) (collector_free old w)
      (λ r. pure (some (health_duplicate new_ec old))) (anything (collector_free old w))
      λ r w' u.
        let same = health_duplicate-IsHeir new_ec old in
        (
          IsHeir-trans old new_ec (health_duplicate new_ec old) h.0 same,
          omega (arith, h.1, same.4),
          omega (arith, h.2, health_duplicate-osr new_ec old),
        )

module _ (env : Env) (fuel : ℕ) (startup : RandData → M (Option RandData))
    (keeping : Keeping startup) where
  reset_with_new-Succeeds :
      (old : RandData) (osr : ℕ) (allocated : Option RandData) (w : World)
      → old.osr < osr
      → RateGiven osr allocated w
      → After (Succeeds old) (if_some (reset_with_new env fuel startup old) allocated w)
  unfolding if_some reset_with_new carry_over ensure_osr_is_at_least_minimal
  reset_with_new-Succeeds old osr none w lt given = tt
  reset_with_new-Succeeds old osr (some new_ec) w lt given =
      let heir = carry_over old new_ec in
      let higher : old.osr < new_ec.osr = ground (arith, given.0) in
      After-next (λ r w'. InheritsFrom heir r w' × Bounded r) (Succeeds old) (startup heir w)
        (if_some (replace env fuel old)) (keeping heir w given.2)
        λ started w1 h. replace-Succeeds env fuel old started w1 (inherits started w1 higher h)
    where
      inherits :
          (started : Option RandData) (w1 : World)
          → old.osr < new_ec.osr
          → InheritsFrom (carry_over old new_ec) started w1 × Bounded started
          → Succeeds old started w1
      inherits none w1 higher h = tt
      inherits (some ec) w1 higher h =
          let q = h.0 in ((q.0, q.1, q.2, q.3, omega (arith, q.4)), omega (arith, q.4), h.1)

  reset_at-Succeeds :
      (old : RandData) (flags : ℕ) (climbed : Option ℕ) (w : World)
      → Climbed (old.osr + 1) climbed w
      → After (Succeeds old) (reset_at env fuel startup old flags climbed w)
  unfolding reset_at alloc_ready
  reset_at-Succeeds old flags none w h = tt
  reset_at-Succeeds old flags (some osr) w h =
      After-next (RateGiven osr) (Succeeds old)
        (alloc_internal env (time_entropy_init env fuel) (entropy_init_ex env fuel) osr flags w)
        (if_some (reset_with_new env fuel startup old))
        (alloc_internal-RateGiven env (time_entropy_init env fuel) (entropy_init_ex env fuel) osr
          flags w)
        λ allocated w1 given.
          reset_with_new-Succeeds old osr allocated w1 (omega (arith, h.0)) given

  pub reset_with-Succeeds :
      (old : RandData) (w : World) → After (Succeeds old) (reset_with env fuel startup old w)
  unfolding reset_with
  reset_with-Succeeds old w =
      let flags = reset_flags env.cache_size old in
      elim (Bool-cases (ltb max_osr (old.osr + 1))) [
        | inl over ↦ rw over tt
        | inr within ↦ rw within (
            After-next (Climbed (old.osr + 1)) (Succeeds old)
              (climb env fuel max_osr (old.osr + 1) flags w) (reset_at env fuel startup old flags)
              (climb-Climbed env fuel max_osr (old.osr + 1) flags w (ground arith))
              (λ climbed w1 h. reset_at-Succeeds old flags climbed w1 h))
      ]
