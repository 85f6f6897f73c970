-- ===== src/Gcd.antt =====
-- The common divisor of the time deltas, src/jitterentropy-gcd.c.
--
-- A delta history and its length are one list. `Sums` is what the analysis writes through its two
-- pointers, and `none` its -EAGAIN. `Divisors` is the process-wide array, one divisor a clock.
pub mod Euclid
pub mod Analysis
pub mod Divisors
use mathlib.Core.WellFounded.{Acc}
use mathlib.Core.Logic.{dite}
use jitterentropy_library.Prelude.{
  ℕ, zero, suc, ◌+◌, ◌-◌, ◌*◌, ◌/◌, ◌%◌, ◌^◌, ◌<◌, Bool, true, false,
}
use jitterentropy_library.Prelude.{List, [], ◌∷◌, Option, none, some, length, u32, u64, arith}
use jitterentropy_library.Prelude.{ltb, leb, ◌==◌, if◌then◌else◌, dec_lt}
use jitterentropy_library.Prelude.Order.{lt_wf}

-- The error codes of the initialization.
pub data InitError : Type 0 where
  enotime ecoarsetime enomonotonic eminvarvar estuck ehealth erct ehash emem egcd eprogerr :
      InitError

-- The loop of `jent_gcd64`.
gcd_loop : (a b : ℕ) → Acc ◌<◌ b → ℕ
gcd_loop a b (Acc.intro _ smaller) =
    dite (dec_lt 0 b) (λ h. gcd_loop b (a % b) (smaller (a % b) (omega arith))) (λ _. a)

unfoldable pub gcd64 : ℕ → ℕ → ℕ
unfolding gcd_loop lt_wf dec_lt
gcd64 a b = if ltb a b then gcd_loop b a (lt_wf.apply a) else gcd_loop a b (lt_wf.apply b)

pub record Sums : Type 0 where
  pub running_gcd : ℕ
  pub delta_sum : ℕ

abbrev pub distance : ℕ → ℕ → ℕ
distance prev next = if leb prev next then next - prev else prev - next

-- The loop of the analysis: `prev` is the delta before the list.
unfoldable pub analyze_from : ℕ → Sums → List ℕ → Sums
unfolding gcd64
analyze_from prev s [] = s
analyze_from prev s (next ∷ rest) =
    analyze_from next
      (record {
        running_gcd = gcd64 next s.running_gcd;
        delta_sum = u64 (s.delta_sum + distance prev next);
      })
      rest

unfoldable pub gcd_analyze_internal : List ℕ → Option Sums
unfolding analyze_from
gcd_analyze_internal [] = none
gcd_analyze_internal (first ∷ rest) =
    some (analyze_from first (record { running_gcd = first; delta_sum = 0 }) rest)

pub data Verdict : Type 0 where
  established : ℕ → Verdict
  refused : InitError → Verdict

-- What `jent_gcd_verdict` makes of the sums of `nelem` deltas.
unfoldable pub judge_sums : Sums → ℕ → ℕ → Verdict
judge_sums s nelem osr =
    let delta_sum = if s.running_gcd == 0 then s.delta_sum else s.delta_sum / s.running_gcd in
    if ltb (u64 (delta_sum * osr)) nelem
    then refused eminvarvar
    else if leb ((2 ^ 32 - 1) / 2) s.running_gcd
    then refused ecoarsetime
    else established s.running_gcd

unfoldable pub gcd_verdict : List ℕ → ℕ → Verdict
unfolding gcd_analyze_internal judge_sums
gcd_verdict delta_history osr = elim (gcd_analyze_internal delta_history) [
  | none ↦ refused enomonotonic
  | some s ↦ judge_sums s (length delta_history) osr
]

-- `jent_common_timer_gcd`: zero is a divisor that is not established.
pub record Store : Type 0 where
  pub platform : ℕ
  pub notime : ℕ

unfoldable pub common_timer_gcd : Store → Bool → ℕ
common_timer_gcd d true = d.notime
common_timer_gcd d false = d.platform

-- `jent_atomic_cmpxchg_u32 (&word, 0, value)`.
abbrev pub cmpxchg_unset : ℕ → ℕ → ℕ
cmpxchg_unset word value = if word == 0 then value else word

unfoldable pub gcd_store : Store → ℕ → Bool → Store
gcd_store d gcd true =
    if gcd == 0 then d else record d { notime = cmpxchg_unset d.notime (u32 gcd) }
gcd_store d gcd false =
    if gcd == 0 then d else record d { platform = cmpxchg_unset d.platform (u32 gcd) }

unfoldable pub gcd_analyze : Store → List ℕ → ℕ → Bool → Option InitError × Store
unfolding gcd_verdict gcd_store
gcd_analyze d delta_history osr notime = elim (gcd_verdict delta_history osr) [
  | established gcd ↦ (none, gcd_store d gcd notime)
  | refused e ↦ (some e, d)
]

-- `none` is the nonzero return.
unfoldable pub gcd_get : Store → Bool → Option ℕ
unfolding common_timer_gcd
gcd_get d notime = if common_timer_gcd d notime == 0 then none else some (common_timer_gcd d notime)

abbrev pub selftest_exp : ℕ
selftest_exp = 3

-- The history of the self test: `left` elements to go, `i` the next one.
unfoldable pub selftest_history : ℕ → ℕ → List ℕ
selftest_history zero i = []
selftest_history (suc left) i = i * selftest_exp ∷ selftest_history left (i + 1)

-- `allocated` says whether the memory for the history was there; `none` is a pass.
unfoldable pub gcd_selftest : Bool → Option InitError
unfolding selftest_history gcd_analyze_internal
gcd_selftest false = some emem
gcd_selftest true = elim (gcd_analyze_internal (selftest_history 10 0)) [
  | none ↦ some egcd
  | some s ↦ if s.running_gcd == selftest_exp then none else some egcd
]
