-- ===== src/Sha3/Generator.antt =====
-- The generator of src/jitterentropy-sha3.c against XDRBG-256 on the reference sponge.
use jitterentropy_library.Prelude.{
  ℕ, zero, suc, ◌+◌, ◌*◌, ◌/◌, ◌^◌, ◌≤◌, ◌<◌, ◌≡◌, refl, ap, ap₂, subst, ◌∙◌, arith, List, [], ◌∷◌,
  ◌++◌, min,
}
use jitterentropy_library.Prelude.{
  take, drop, length, replicate, length-append, length-take, length-replicate, u8, if◌then◌else◌,
  ltb,
}
use jitterentropy_library.Collector.{HashCtx}
use jitterentropy_library.Sha3.Sponge.{
  sha3_init, sha3_update, sha3_final, absorb_block, squeeze_words, le64_to_ptr,
}
use jitterentropy_library.Sha3.Buffer.{length-write_at}
use jitterentropy_library.Sha3.Xdrbg.{
  shake256_set_digestsize, xdrbg_finalize, xdrbg_expand, xdrbg256_generate_block, encode_n,
}
use jitterentropy_library.Sha3.Message.{absorb_message, sponge}
use jitterentropy_library.Sha3.Update.{Holds, sha3_update-Holds}
use jitterentropy_library.Sha3.Digest.{
  sha3_update-SameConfig, sha3_final-sponge, set_digestsize-Holds,
}

-- XDRBG-256: V' of all that was absorbed, seeding for the first time (0) or again (1), and the
-- 96 bytes of V and output made of it.
unfoldable pub seed_state : ℕ → List ℕ → List ℕ
seed_state again message = sponge 0x1f 64 (message ++ (85 * again) ∷ [])

unfoldable pub expand : List ℕ → List ℕ
expand v = sponge 0x1f 96 (v ++ 170 ∷ [])

-- A generator: a SHAKE-256 context that holds what was absorbed since the last generation.
pub record Generator (again : ℕ) (message : List ℕ) (ctx : HashCtx) : Type 0 where
  pub holds : Holds message ctx
  pub domain : ctx.padding ≡ 0x1f
  pub seeded : ctx.initially_seeded ≡ again

squeeze_words-le : (n : ℕ) (state : List ℕ) → length (squeeze_words n state) ≤ n * 8
unfolding squeeze_words le64_to_ptr
squeeze_words-le zero state = omega arith
squeeze_words-le (suc n) [] = omega arith
squeeze_words-le (suc n) (word ∷ state) = omega (arith, squeeze_words-le n state)

sponge-le : (size : ℕ) (message : List ℕ) → length (sponge 0x1f size message) ≤ size
unfolding sponge
sponge-le size message = omega (arith, squeeze_words-le (size / 8) _)

seed_state-le : (again : ℕ) (message : List ℕ) → length (seed_state again message) ≤ 64
unfolding seed_state
seed_state-le again message = sponge-le 64 (message ++ (85 * again) ∷ [])

-- The buffer for a block plays no part.
block-Generator :
    (again : ℕ) (message block : List ℕ) (ctx : HashCtx)
    → Generator again message ctx
    → Generator again message (record ctx { xdrbg_block = block })
block-Generator again message block ctx g = record {
  holds = record {
    rate = g.holds.rate;
    counted = g.holds.counted;
    absorbed = g.holds.absorbed;
    buffered = g.holds.buffered;
    room = g.holds.room;
  };
  domain = g.domain;
  seeded = g.seeded;
}

output_len : (len : ℕ) → (if ltb 32 len then 32 else len) ≡ min 32 len
output_len len = ground arith

-- The context starts anew behind a digest.
final-Generator :
    (again : ℕ) (message : List ℕ) (ctx : HashCtx)
    → Generator again message ctx
    → Generator again [] (sha3_final ctx).0
unfolding sha3_final sha3_init absorb_block absorb_message
final-Generator again message ctx g = record {
  holds = record {
    rate = g.holds.rate;
    counted = refl;
    absorbed = refl;
    buffered = refl;
    room =
        length-write_at ctx.partial 0 (replicate ctx.r 0)
          (omega (arith, length-replicate {A = ℕ} ctx.r 0, g.holds.rate.0, g.holds.room))
        ∙ g.holds.room;
  };
  domain = g.domain;
  seeded = g.seeded;
}

update-Generator :
    (again : ℕ) (message input : List ℕ) (ctx : HashCtx)
    → length (message ++ input) < 2 ^ 64
    → Generator again message ctx
    → Generator again (message ++ input) (sha3_update ctx input)
update-Generator again message input ctx fits g =
    let same = sha3_update-SameConfig ctx input in
    record {
      holds = sha3_update-Holds message input ctx fits g.holds;
      domain = same.0 ∙ g.domain;
      seeded = same.2 ∙ g.seeded;
    }

size-Generator :
    (again : ℕ) (message : List ℕ) (ctx : HashCtx) (size : ℕ)
    → Generator again message ctx
    → Generator again message (shake256_set_digestsize ctx size)
unfolding shake256_set_digestsize
size-Generator again message ctx size g = record {
  holds = set_digestsize-Holds message ctx size g.holds;
  domain = g.domain;
  seeded = g.seeded;
}

-- A digest of a generator's context.
final-sponge :
    (again size : ℕ) (message : List ℕ) (ctx : HashCtx)
    → size < 256
    → Generator again message ctx
    → (sha3_final (shake256_set_digestsize ctx size)).1 ≡ sponge 0x1f size message
unfolding shake256_set_digestsize
final-sponge again size message ctx small g =
    sha3_final-sponge message (shake256_set_digestsize ctx size)
      (set_digestsize-Holds message ctx size g.holds)
    ∙ ap₂ (λ p d. sponge p d message) g.domain (omega (arith, small))

xdrbg_finalize-seed_state :
    (again : ℕ) (message : List ℕ) (ctx : HashCtx)
    → again ≤ 1
    → length message + 1 < 2 ^ 64
    → Generator again message ctx
    → ((xdrbg_finalize ctx).1 ≡ seed_state again message) × Generator 1 [] (xdrbg_finalize ctx).0
unfolding xdrbg_finalize seed_state
xdrbg_finalize-seed_state again message ctx once fits g =
    let byte = u8 (encode_n ctx.initially_seeded) in
    let marked : byte ≡ 85 * again = omega (arith, g.seeded, once) in
    let seeded = record ctx { initially_seeded = 1 } in
    let whole = message ++ byte ∷ [] in
    let encoded = sha3_update seeded (byte ∷ []) in
    let held : Generator 1 whole encoded =
      update-Generator 1 message (byte ∷ []) seeded
        (omega (arith, fits, length-append message (byte ∷ [])))
        (record {
          holds = record {
            rate = g.holds.rate;
            counted = g.holds.counted;
            absorbed = g.holds.absorbed;
            buffered = g.holds.buffered;
            room = g.holds.room;
          };
          domain = g.domain;
          seeded = refl;
        }) in
    (
      final-sponge 1 64 whole encoded (omega arith) held
          ∙ ap (λ b. sponge 0x1f 64 (message ++ b ∷ [])) marked,
      final-Generator 1 whole (shake256_set_digestsize encoded 64)
          (size-Generator 1 whole encoded 64 held),
    )

xdrbg_expand-expand :
    (v : List ℕ) (ctx : HashCtx)
    → length v + 1 < 2 ^ 64
    → Generator 1 [] ctx
    → ((xdrbg_expand ctx v).1 ≡ expand v) × Generator 1 [] (xdrbg_expand ctx v).0
unfolding xdrbg_expand expand
xdrbg_expand-expand v ctx fits g =
    let whole = v ++ 170 ∷ [] in
    let held : Generator 1 whole (sha3_update (sha3_update ctx v) (170 ∷ [])) =
      update-Generator 1 v (170 ∷ []) (sha3_update ctx v)
        (omega (arith, fits, length-append v (170 ∷ [])))
        (update-Generator 1 [] v ctx (omega (arith, fits)) g) in
    let absorbed = sha3_update (sha3_update ctx v) (170 ∷ []) in
    (
      final-sponge 1 96 whole absorbed (omega arith) held,
      final-Generator 1 whole (shake256_set_digestsize absorbed 96)
          (size-Generator 1 whole absorbed 96 held),
    )

-- The generation of a block gives the output that XDRBG-256 defines on the reference sponge for all
-- that was absorbed since the last generation, at most 32 bytes of it, and leaves a generator that
-- is seeded and has absorbed the next state, the first 64 of the 96 bytes, and nothing else.
pub xdrbg256_generate_block-expand :
    (again : ℕ) (message : List ℕ) (ctx : HashCtx) (len : ℕ)
    → again ≤ 1
    → length message + 1 < 2 ^ 64
    → Generator again message ctx
    → let block = expand (seed_state again message) in
      ((xdrbg256_generate_block ctx len).1 ≡ take (min 32 len) (drop 64 block))
      × Generator 1 (take 64 block) (xdrbg256_generate_block ctx len).0
unfolding xdrbg256_generate_block
xdrbg256_generate_block-expand again message ctx len once fits g =
    let (v, fresh) = xdrbg_finalize-seed_state again message ctx once fits g in
    let seeded = (xdrbg_finalize ctx).0 in
    let v' = (xdrbg_finalize ctx).1 in
    let (block, anew) =
      xdrbg_expand-expand v' seeded (omega (arith, ap length v, seed_state-le again message))
        fresh in
    let made = (xdrbg_expand seeded v').1 in
    let same : made ≡ expand (seed_state again message) = block ∙ ap expand v in
    (
      ap₂ (λ n b. take n (drop 64 b)) (output_len len) same,
      subst (λ b. Generator 1 (take 64 b) (xdrbg256_generate_block ctx len).0) same
          (block-Generator 1 (take 64 made) (replicate 96 0)
            (sha3_update (xdrbg_expand seeded v').0 (take 64 made))
            (update-Generator 1 [] (take 64 made) (xdrbg_expand seeded v').0
              (omega (arith, length-take 64 made)) anew)),
    )
