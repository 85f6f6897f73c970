-- ===== src/World/Changes.antt =====
-- How an operation may change the process: what it takes and gives back, and what only ever goes
-- one way.
use jitterentropy_library.Prelude.{
  ℕ, ◌+◌, ◌≡◌, ◌⊎◌, inl, inr, refl, arith, ◌∙◌, Bool, true, false, Option,
}
use jitterentropy_library.World.{World, M, After, After-next, next}

-- A flag that is set stays set.
abbrev pub Latched : Bool → Bool → Type 0
Latched before after = (before ≡ false) ⊎ (after ≡ true)

-- A divisor that is established stays.
abbrev pub WrittenOnce : ℕ → ℕ → Type 0
WrittenOnce before after = (before ≡ 0) ⊎ (after ≡ before)

-- From `w` to `w'`, where the caller held `before` allocations and `ticking` threads and now holds
-- `after` and `ticking'`. The registered handlers, the callback and the CPU stay.
pub record Change (w w' : World) (before after ticking ticking' : ℕ) : Type 0 where
  pub memory : w'.allocs + w.frees + before ≡ w.allocs + w'.frees + after
  pub threads : w'.starts + w.stops + ticking ≡ w.starts + w'.stops + ticking'
  pub forced : Latched w.forced w'.forced
  pub switch_blocked : Latched w.switch_blocked w'.switch_blocked
  pub cb_blocked : Latched w.process.cb_switch_blocked w'.process.cb_switch_blocked
  pub platform : WrittenOnce w.gcd.platform w'.gcd.platform
  pub notime : WrittenOnce w.gcd.notime w'.gcd.notime
  pub handler : w'.handler ≡ w.handler
  pub notime_cpu : w'.notime_cpu ≡ w.notime_cpu
  pub fips_cb : w'.process.fips_cb ≡ w.process.fips_cb

pub Latched-refl : (b : Bool) → Latched b b
Latched-refl true = inr refl
Latched-refl false = inl refl

pub Latched-trans : (a b c : Bool) → Latched a b → Latched b c → Latched a c
Latched-trans a b c p q = ground (arith, p, q)

pub WrittenOnce-trans : (a b c : ℕ) → WrittenOnce a b → WrittenOnce b c → WrittenOnce a c
WrittenOnce-trans a b c p q = ground (arith, p, q)

pub Change-refl : (w : World) (held ticking : ℕ) → Change w w held held ticking ticking
Change-refl w held ticking = record {
  memory = refl;
  threads = refl;
  forced = Latched-refl w.forced;
  switch_blocked = Latched-refl w.switch_blocked;
  cb_blocked = Latched-refl w.process.cb_switch_blocked;
  platform = inr refl;
  notime = inr refl;
  handler = refl;
  notime_cpu = refl;
  fips_cb = refl;
}

-- Only the difference of what the caller held and holds counts.
pub Change-as :
    {w w' : World} {a b p q : ℕ} (c d r s : ℕ)
    → a + d ≡ c + b
    → p + s ≡ r + q
    → Change w w' a b p q
    → Change w w' c d r s
Change-as c d r s memory threads x = record {
  memory = omega (arith, x.memory, memory);
  threads = omega (arith, x.threads, threads);
  forced = x.forced;
  switch_blocked = x.switch_blocked;
  cb_blocked = x.cb_blocked;
  platform = x.platform;
  notime = x.notime;
  handler = x.handler;
  notime_cpu = x.notime_cpu;
  fips_cb = x.fips_cb;
}

pub Change-trans :
    {w w' w'' : World} {a b c p q r : ℕ}
    → Change w w' a b p q
    → Change w' w'' b c q r
    → Change w w'' a c p r
Change-trans {w} {w'} {w''} {a} {b} {c} {p} {q} {r} x y = record {
  memory = omega (arith, x.memory, y.memory);
  threads = omega (arith, x.threads, y.threads);
  forced = Latched-trans w.forced w'.forced w''.forced x.forced y.forced;
  switch_blocked =
      Latched-trans w.switch_blocked w'.switch_blocked w''.switch_blocked x.switch_blocked
        y.switch_blocked;
  cb_blocked =
      Latched-trans w.process.cb_switch_blocked w'.process.cb_switch_blocked
        w''.process.cb_switch_blocked x.cb_blocked y.cb_blocked;
  platform =
      WrittenOnce-trans w.gcd.platform w'.gcd.platform w''.gcd.platform x.platform y.platform;
  notime = WrittenOnce-trans w.gcd.notime w'.gcd.notime w''.gcd.notime x.notime y.notime;
  handler = y.handler ∙ x.handler;
  notime_cpu = y.notime_cpu ∙ x.notime_cpu;
  fips_cb = y.fips_cb ∙ x.fips_cb;
}

-- Two changes together, whatever the caller holds.
pub Change-add :
    {w w' w'' : World} {a b c d p q r s : ℕ}
    → Change w w' a b p q
    → Change w' w'' c d r s
    → Change w w'' (a + c) (b + d) (p + r) (q + s)
Change-add {w} {w'} {w''} {a} {b} {c} {d} {p} {q} {r} {s} x y =
    Change-trans (Change-as (a + c) (b + c) (p + r) (q + r) (omega arith) (omega arith) x)
      (Change-as (b + c) (b + d) (q + r) (q + s) (omega arith) (omega arith) y)

-- Without a net effect on what the caller holds.
abbrev pub Quiet : {A : Type 0} → (World → Option (A × World)) → Type 0
Quiet m = (w : World) → After (λ r w'. Change w w' 0 0 0 0) (m w)

-- Only the counters move.
pub Change-counts :
    (w : World) (reads allocs frees starts stops a b p q : ℕ)
    → allocs + w.frees + a ≡ w.allocs + frees + b
    → starts + w.stops + p ≡ w.starts + stops + q
    → Change w
        (record w { reads = reads; allocs = allocs; frees = frees; starts = starts; stops = stops })
        a
        b
        p
        q
Change-counts w reads allocs frees starts stops a b p q memory threads = record {
  memory = memory;
  threads = threads;
  forced = Latched-refl w.forced;
  switch_blocked = Latched-refl w.switch_blocked;
  cb_blocked = Latched-refl w.process.cb_switch_blocked;
  platform = inr refl;
  notime = inr refl;
  handler = refl;
  notime_cpu = refl;
  fips_cb = refl;
}

-- A step of a chain: what is known of it, and of the rest behind it.
pub After-step :
    {A B : Type 0} (P : A → World → Type 0) (Q : B → World → Type 0) (m : M A) (f : A → M B)
    (w : World)
    → After P (m w)
    → ((a : A) (w' : World) → P a w' → After Q (f a w'))
    → After Q (next (m w) f)
After-step P Q m f w h k = After-next P Q (m w) f h k
