-- ===== src/Examples/Common.antt =====
-- The divisors, the configuration, the failure codes and the reads, at concrete values.
use Prim.Native.Nat.{◌∣◌}
use jitterentropy_library.Prelude.{
  ℕ, ◌+◌, ◌*◌, ◌/◌, ◌<◌, ◌≤◌, ◌^◌, ◌≡◌, ◌↔◌, ◌⊎◌, refl, arith, true, false, inl,
}
use jitterentropy_library.Prelude.{[], ◌∷◌, some, length, min, bit, u64, ◌-◌}
use jitterentropy_library.Examples.{failed, clock}
use jitterentropy_library.Sha3.Sponge.{ptr_to_le64, le64_to_ptr}
use jitterentropy_library.Sha3.Bytes.{ptr_to_le64-le64_to_ptr}
use jitterentropy_library.Gcd.{
  Verdict, Sums, gcd64, common_timer_gcd, gcd_verdict, gcd_analyze_internal, gcd_get,
}
use jitterentropy_library.Gcd.Analysis.{
  gcd_analyze_internal_lem, gcd_verdict-established, DividesAll, variation,
}
use jitterentropy_library.Gcd.Divisors.{stores, first_of, gcd_get-stores}
use jitterentropy_library.Config.{hashloop_cnt, update_hashloop, jent_memsize, update_memsize}
use jitterentropy_library.Config.HashLoop.{hashloop_cnt-update_hashloop, bit-update_hashloop}
use jitterentropy_library.Config.MemSize.{jent_memsize-update_memsize}
use jitterentropy_library.Health.Failure.{health_err}
use jitterentropy_library.Health.Failure.Codes.{is_permanent, health_err-permanent_iff}
use jitterentropy_library.Health.Stuck.Kept.{Kept}
use jitterentropy_library.Noise.Collect.{random_data}
use jitterentropy_library.Noise.Collected.{random_data-Kept}
use jitterentropy_library.Noise.Blocked.{random_data-IsBlocked, ReturnsBlocked}

gcd_analyze_internal_example :
    (s : Sums) × (gcd_analyze_internal (12 ∷ 20 ∷ 8 ∷ []) ≡ some s)
    × ((c : ℕ) → (c ∣ s.running_gcd) ↔ DividesAll c (12 ∷ 20 ∷ 8 ∷ []))
    × (s.delta_sum ≡ u64 (variation 12 (20 ∷ 8 ∷ [])))
gcd_analyze_internal_example = gcd_analyze_internal_lem 12 (20 ∷ 8 ∷ [])

twelve : gcd_verdict (12 ∷ 20 ∷ 8 ∷ []) 3 ≡ Verdict.established 4
unfolding gcd_verdict gcd_analyze_internal gcd64
twelve = refl

gcd_verdict-established_example :
    ((c : ℕ) → (c ∣ 4) ↔ DividesAll c (12 ∷ 20 ∷ 8 ∷ []))
    × (0 < 4)
    × (4 < 2 ^ 31 - 1)
    × (length {A = ℕ} (12 ∷ 20 ∷ 8 ∷ []) ≤ u64 (u64 (variation 12 (20 ∷ 8 ∷ [])) / 4 * 3))
gcd_verdict-established_example = gcd_verdict-established 12 (20 ∷ 8 ∷ []) 3 4 twelve

gcd_get-stores_example :
    gcd_get
      (stores
        ((0, false) ∷ (7, true) ∷ (9, false) ∷ (3, false) ∷ [])
        (record { platform = 0; notime = 0 }))
      false
    ≡ first_of false ((0, false) ∷ (7, true) ∷ (9, false) ∷ (3, false) ∷ [])
unfolding common_timer_gcd
gcd_get-stores_example =
    gcd_get-stores ((0, false) ∷ (7, true) ∷ (9, false) ∷ (3, false) ∷ [])
      (record { platform = 0; notime = 0 }) false
      (omega arith, (omega arith, (omega arith, (omega arith, tt)))) refl

hashloop_cnt-update_hashloop_example :
    hashloop_cnt (update_hashloop (2 * 2 ^ 23 + 5) 1) ≡ min 128 (2 * hashloop_cnt (2 * 2 ^ 23 + 5))
hashloop_cnt-update_hashloop_example = hashloop_cnt-update_hashloop (2 * 2 ^ 23 + 5)

bit-update_hashloop_example : bit 2 (update_hashloop (2 * 2 ^ 23 + 5) 1) ≡ bit 2 (2 * 2 ^ 23 + 5)
bit-update_hashloop_example =
    bit-update_hashloop 2 (2 * 2 ^ 23 + 5) (omega arith) (inl (omega arith))

jent_memsize-update_memsize_example :
    jent_memsize (update_memsize (λ all. 0) (9 * 2 ^ 27 + 1) 1)
    ≡ min (2 ^ 29) (2 * jent_memsize (9 * 2 ^ 27 + 1))
jent_memsize-update_memsize_example =
    jent_memsize-update_memsize (λ all. 0) (9 * 2 ^ 27 + 1) (omega arith) (omega arith)

health_err-permanent_iff_example :
    (is_permanent (health_err 131074) ≡ true)
    ↔ ((bit 16 131074 ≡ 1) ⊎ (bit 17 131074 ≡ 1) ⊎ (bit 18 131074 ≡ 1) ⊎ (bit 19 131074 ≡ 1))
health_err-permanent_iff_example = health_err-permanent_iff 131074

collected : ReturnsBlocked 1 (random_data clock 1 failed)
collected = random_data-IsBlocked clock 1 0 failed (refl, refl)

random_data-IsBlocked_example : ReturnsBlocked 1 (random_data clock 1 failed)
random_data-IsBlocked_example = random_data-IsBlocked clock 1 0 failed (refl, refl)

random_data-Kept_example : Kept failed.ec (collected.0).ec
random_data-Kept_example = random_data-Kept clock 1 failed collected.0 collected.1

ptr_to_le64-le64_to_ptr_example : ptr_to_le64 (le64_to_ptr 81985529216486895) ≡ 81985529216486895
ptr_to_le64-le64_to_ptr_example = ptr_to_le64-le64_to_ptr 81985529216486895 (omega arith)
