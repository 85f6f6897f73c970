-- ===== src/Config/Log2.antt =====
-- The integer logarithm of src/jitterentropy-base.c.
use native.Mathlib.Nat.{pow-suc}
use jitterentropy_library.Prelude.{ℕ, zero, suc, ◌+◌, ◌/◌, ◌^◌, ◌≤◌, ◌<◌, ◌≡◌, arith, ◌==◌}
use jitterentropy_library.Prelude.{Bool-cases, inl, inr, ==_iff, subst, sym}
use jitterentropy_library.Config.{log2_loop, log2_simple}

-- What the loop adds to its index.
abbrev IsLog : ℕ → ℕ → Type 0
IsLog val k = (2 ^ k ≤ val) × (val < 2 ^ suc k)

log2_loop_lem :
    (fuel val idx : ℕ)
    → 0 < val
    → val < 2 ^ fuel
    → (k : ℕ) × (log2_loop fuel val idx ≡ idx + k) × IsLog val k
unfolding log2_loop
log2_loop_lem zero val idx positive h = absurd (omega arith)
log2_loop_lem (suc fuel) val idx positive h = elim (Bool-cases (val / 2 == 0)) [
  | inl last ↦ rw last (0, omega arith, (omega arith, ground (arith, (==_iff (val / 2) 0).0 last)))
  | inr more ↦ rw more (
      let rest =
        log2_loop_lem fuel (val / 2) (idx + 1) (ground arith) (omega (arith, pow-suc 2 fuel)) in
      let below : IsLog (val / 2) rest.0 = rest.2 in
      (
        suc rest.0,
        omega (arith, rest.1),
        (omega (arith, pow-suc 2 rest.0, below.0), omega (arith, pow-suc 2 (suc rest.0), below.1)),
      ))
]

-- `jent_log2_simple` is the integer logarithm of every positive 64-bit number: the power of two at
-- the result is at most the number, and the next one is above it.
pub log2_simple_lem :
    (val : ℕ)
    → 0 < val
    → val < 2 ^ 64
    → (2 ^ log2_simple val ≤ val) × (val < 2 ^ (log2_simple val + 1))
unfolding log2_simple
log2_simple_lem val positive h =
    let result = log2_loop_lem 64 val 0 positive h in
    let log : IsLog val result.0 = result.2 in
    let same : log2_loop 64 val 0 ≡ result.0 = omega (arith, result.1) in
    (
      subst (λ k. 2 ^ k ≤ val) (sym same) log.0,
      subst (λ k. val < 2 ^ k) (omega (arith, same)) log.1,
    )
