-- ===== src/World.antt =====
-- What an operation on collectors sees besides the collector: the process-wide variables of
-- src/jitterentropy-base.c, jitterentropy-gcd.c, jitterentropy-health.c and jitterentropy-timer.c,
-- and what the operating system answers.
--
-- `Env` holds what the code asks of the world outside, by the number of the request: the clocks
-- (the second is the counting thread's), whether memory is there, whether a thread starts, and the
-- handler of the timer that a caller may have registered. `none` for the number of CPUs is an
-- error. `World` counts the requests so far, and the memory and the threads that were taken and
-- given back.
pub mod Changes
pub mod Quiet
use jitterentropy_library.Prelude.{
  ℕ, ◌+◌, Bool, true, false, Option, none, some, List, if◌then◌else◌, Ends,
}
use jitterentropy_library.Gcd.{Store}
use jitterentropy_library.Health.Failure.{Process}

pub record Env : Type 0 where
  pub clock : Bool → ℕ → ℕ
  pub memory : ℕ → Bool
  pub thread_create : ℕ → Bool
  pub handler_init : ℕ → Option Bool
  pub handler_start : ℕ → Bool
  pub ncpu : Option ℕ
  pub cache_size : Bool → ℕ
  pub fips : Bool
  pub uuid : ℕ → List ℕ

-- `handler` is the registered handler of the timer, `none` the builtin one.
pub record World : Type 0 where
  pub reads : ℕ
  pub allocs : ℕ
  pub frees : ℕ
  pub starts : ℕ
  pub stops : ℕ
  pub gcd : Store
  pub process : Process
  pub selftest_run : Bool
  pub forced : Bool
  pub switch_blocked : Bool
  pub notime_cpu : Option ℕ
  pub handler : Option ℕ

-- An operation; `none` means that the fuel ran out. What the code returns on an error is a value.
abbrev pub M : Type 0 → Type 0
M A = World → Option (A × World)

abbrev pub next : {A B : Type 0} → Option (A × World) → (A → M B) → Option (B × World)
next none f = none
next (some (a, w)) f = f a w

infixl 5 ◌>>=◌ ◌>>◌
abbrev pub ◌>>=◌ : {A B : Type 0} → M A → (A → M B) → M B
◌>>=◌ m f w = next (m w) f

abbrev pub ◌>>◌ : {A B : Type 0} → M A → M B → M B
m >> k = m >>= λ _. k

abbrev pub pure : {A : Type 0} → A → M A
pure a w = some (a, w)

abbrev pub gets : {A : Type 0} → (World → A) → M A
gets f w = some (f w, w)

abbrev pub modify : (World → World) → M (Unit {0})
modify f w = some (tt, f w)

-- What holds of the result and of the world behind it, where the operation returns.
abbrev pub After : {A : Type 0} → (A → World → Type 0) → Option (A × World) → Type 0
After P none = Unit {0}
After P (some (a, w)) = P a w

-- Nothing is asked of it.
abbrev pub Anything : {A : Type 0} → A → World → Type 0
Anything a w = Unit {0}

pub anything : {A : Type 0} (o : Option (A × World)) → After Anything o
anything none = tt
anything (some r) = tt

pub After-next :
    {A B : Type 0} (P : A → World → Type 0) (Q : B → World → Type 0) (o : Option (A × World))
    (f : A → M B)
    → After P o
    → ((a : A) (w : World) → P a w → After Q (f a w))
    → After Q (next o f)
After-next P Q none f h k = tt
After-next P Q (some (a, w)) f h k = k a w h

pub After-imp :
    {A : Type 0} (P Q : A → World → Type 0) (o : Option (A × World))
    → After P o
    → ((a : A) (w : World) → P a w → Q a w)
    → After Q o
After-imp P Q none h k = tt
After-imp P Q (some (a, w)) h k = k a w h

pub After-if :
    {A : Type 0} (P : A → World → Type 0) (b : Bool) (x y : M A) (w : World)
    → After P (x w)
    → After P (y w)
    → After P ((if b then x else y) w)
After-if P true x y w p q = p
After-if P false x y w p q = q

module _ (env : Env) where
  -- `jent_zalloc`: whether the memory was there.
  unfoldable pub zalloc : M Bool
  zalloc w =
      if env.memory w.reads
      then some (true, record w { reads = w.reads + 1; allocs = w.allocs + 1 })
      else some (false, record w { reads = w.reads + 1 })

unfoldable pub zfree : M (Unit {0})
zfree w = some (tt, record w { frees = w.frees + 1 })
