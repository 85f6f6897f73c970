-- ===== src/Reset/Continued.antt =====
-- What a replacement keeps of the collector that it replaces.
use jitterentropy_library.Prelude.{
  ◌+◌, ◌≤◌, ◌≡◌, refl, arith, ◌∙◌, Bool, true, false, not, ◌||◌, Option, none, some,
}
use jitterentropy_library.Prelude.{Bool-cases, inl, inr, bool_eq}
use jitterentropy_library.Collector.{RandData}
use jitterentropy_library.Health.Stuck.{health_duplicate}
use jitterentropy_library.Health.Stuck.Kept.{Kept}
use jitterentropy_library.World.{
  Env, World, next, pure, After, After-next, After-if, Anything, anything,
}
use jitterentropy_library.Timer.{notime_settick, notime_unsettick, note_start, handler_start}
use jitterentropy_library.Alloc.{collector_free, fail}

-- `b` has the identity, the accounting and the cap of `a`, at no lower an oversampling rate.
abbrev pub IsHeir : RandData → RandData → Type 0
IsHeir a b =
    (b.uuid ≡ a.uuid)
    × (b.read_invocations ≡ a.read_invocations)
    × (b.bytes_output ≡ a.bytes_output)
    × (b.max_mem_set ≡ a.max_mem_set)
    × (a.osr ≤ b.osr)

abbrev pub InheritsFrom : RandData → Option RandData → World → Type 0
InheritsFrom a none w = Unit {0}
InheritsFrom a (some b) w = IsHeir a b

pub IsHeir-refl : (a : RandData) → IsHeir a a
IsHeir-refl a = (refl, refl, refl, refl, omega arith)

pub IsHeir-trans : (a b c : RandData) → IsHeir a b → IsHeir b c → IsHeir a c
IsHeir-trans a b c p q = (q.0 ∙ p.0, q.1 ∙ p.1, q.2 ∙ p.2, q.3 ∙ p.3, omega (arith, p.4, q.4))

pub Kept-IsHeir : (a b : RandData) → Kept a b → IsHeir a b
Kept-IsHeir a b k =
    (k.uuid, k.read_invocations, k.bytes_output, k.max_mem_set, omega (arith, k.osr))

InheritsFrom-trans :
    (a b : RandData) (o : Option (Option RandData × World))
    → IsHeir a b
    → After (InheritsFrom b) o
    → After (InheritsFrom a) o
InheritsFrom-trans a b none p q = tt
InheritsFrom-trans a b (some (none, w)) p q = tt
InheritsFrom-trans a b (some (some c, w)) p q = IsHeir-trans a b c p q

fail-IsHeir : (a ec : RandData) (w : World) → After (InheritsFrom a) (fail ec w)
fail-IsHeir a ec w =
    After-next Anything (InheritsFrom a) (collector_free ec w) (λ r. pure none)
      (anything (collector_free ec w)) (λ r w' u. tt)

-- The same collector in all that an heir has.
abbrev pub Continues : RandData → RandData → Type 0
Continues a b = IsHeir a b × (b.osr ≡ a.osr)

Continues-refl : (a : RandData) → Continues a a
Continues-refl a = (IsHeir-refl a, refl)

-- The start and the stop of the thread.
note_start-Continues :
    (env : Env) (ec : RandData) (started : Bool) (w : World)
    → After (λ r w'. Continues ec r.1) (note_start env ec started w)
unfolding note_start
note_start-Continues env ec true w = Continues-refl ec
note_start-Continues env ec false w = Continues-refl ec

pub settick-Continues :
    (env : Env) (ec : RandData) (w : World)
    → After (λ r w'. Continues ec r.1) (notime_settick env ec w)
unfolding notime_settick
settick-Continues env ec w =
    After-if (λ (r : Bool × RandData) w'. Continues ec r.1) (not ec.enable_notime)
      (pure (false, ec))
      (λ w'. next (handler_start env w'.handler ec.notime_thread_ctx w') (note_start env ec)) w
      (Continues-refl ec)
      (After-next Anything (λ (r : Bool × RandData) w'. Continues ec r.1)
        (handler_start env w.handler ec.notime_thread_ctx w) (note_start env ec)
        (anything (handler_start env w.handler ec.notime_thread_ctx w))
        (λ started w' u. note_start-Continues env ec started w'))

pub unsettick-Continues :
    (ec : RandData) (w : World) → After (λ r w'. Continues ec r) (notime_unsettick ec w)
unfolding notime_unsettick
unsettick-Continues ec w =
    After-if (λ (r : RandData) w'. Continues ec r) (not ec.enable_notime || not ec.notime_running)
      (pure ec)
      (λ w'. some (record ec { notime_running = false }, record w' { stops = w'.stops + 1 })) w
      (Continues-refl ec) (Continues-refl ec)

pub health_duplicate-IsHeir : (new_ec old : RandData) → IsHeir new_ec (health_duplicate new_ec old)
unfolding health_duplicate
health_duplicate-IsHeir new_ec old =
    elim (Bool-cases (bool_eq new_ec.enable_notime old.enable_notime)) [
      | inl same ↦ rw same (IsHeir-refl new_ec)
      | inr other ↦ rw other (IsHeir-refl new_ec)
    ]

pub health_duplicate-osr : (new_ec old : RandData) → (health_duplicate new_ec old).osr ≡ new_ec.osr
unfolding health_duplicate
health_duplicate-osr new_ec old =
    elim (Bool-cases (bool_eq new_ec.enable_notime old.enable_notime)) [
      | inl same ↦ rw same refl
      | inr other ↦ rw other refl
    ]
