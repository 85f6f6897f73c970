-- ===== src/Sha3/Digest.antt =====
-- The digests of src/jitterentropy-sha3.c, on a message that comes in pieces.
use jitterentropy_library.Prelude.{
  ℕ, zero, suc, ◌+◌, ◌-◌, ◌*◌, ◌/◌, ◌%◌, ◌^◌, ◌<◌, ◌≤◌, ◌≡◌, refl, ap, ap₂, sym, subst, ◌∙◌, arith,
  List, [], ◌∷◌, ◌++◌, Bool, true, false,
}
use jitterentropy_library.Prelude.{
  take, drop, length, replicate, length-append, if◌then◌else◌, ltb, ◌==◌, u64,
}
use jitterentropy_library.Prelude.Slices.{drop-append_le, append-nil}
use mathlib.Core.List.{append_assoc}
use jitterentropy_library.Collector.{HashCtx}
use jitterentropy_library.Sha3.Sponge.{
  sha3_256_init, shake256_init, sha3_update, sha3_final, absorb_block, absorb_blocks, absorb_input,
  write_at, pad_block, squeeze_words,
}
use jitterentropy_library.Sha3.Xdrbg.{shake256_set_digestsize}
use jitterentropy_library.Sha3.Message.{
  absorb_lanes, absorb_message, absorb_message-add, absorb_message-append, absorb_message-one, pad,
  sponge,
}
use jitterentropy_library.Sha3.Absorb.{absorb_block-lanes}
use jitterentropy_library.Sha3.Update.{Holds, sha3_update-Holds}
use jitterentropy_library.Sha3.Padding.{pad_block-pad}

-- The digest of a context is that of the message that it holds.
pub sha3_final-sponge :
    (message : List ℕ) (ctx : HashCtx)
    → Holds message ctx
    → (sha3_final ctx).1 ≡ sponge ctx.padding ctx.digestsize message
unfolding sha3_final sponge
sha3_final-sponge message ctx h =
    let n = length message / 136 in
    let end = pad ctx.padding (136 - length message % 136) in
    let tail : drop (n * 136) message ++ end ≡ drop (n * 136) (message ++ end) =
      sym (drop-append_le (n * 136) message end (omega arith)) in
    ap (λ c. squeeze_words (c.digestsize / 8) c.state)
      (absorb_block-lanes ctx (pad_block ctx) h.rate.1)
    ∙ ap (squeeze_words (ctx.digestsize / 8)) (
        ap₂ (λ s b. absorb_lanes s (take 136 b))
          (h.absorbed ∙ sym (absorb_message-append n (replicate 25 0) message end (omega arith)))
          (pad_block-pad message ctx h ∙ tail)
        ∙ sym (
            absorb_message-one (absorb_message n (replicate 25 0) (message ++ end))
              (drop (n * 136) (message ++ end)))
        ∙ sym (absorb_message-add n 1 (replicate 25 0) (message ++ end)))

-- The domain, the size of the digest, and whether the generator is seeded.
abbrev pub SameConfig : HashCtx → HashCtx → Type 0
SameConfig a b =
    (b.padding ≡ a.padding)
    × (b.digestsize ≡ a.digestsize)
    × (b.initially_seeded ≡ a.initially_seeded)

absorb_block-SameConfig : (ctx : HashCtx) (block : List ℕ) → SameConfig ctx (absorb_block ctx block)
unfolding absorb_block
absorb_block-SameConfig ctx block = (refl, refl, refl)

pub SameConfig-trans : (a b c : HashCtx) → SameConfig a b → SameConfig b c → SameConfig a c
SameConfig-trans a b c p q = (q.0 ∙ p.0, q.1 ∙ p.1, q.2 ∙ p.2)

-- Whichever branch is taken.
either {ℓ} : {A : Type ℓ} (P : A → Type 0) (b : Bool) (x y : A) → P x → P y → P (if b then x else y)
either P true x y p q = p
either P false x y p q = q

absorb_blocks-SameConfig :
    (fuel : ℕ) (ctx : HashCtx) (input : List ℕ) → SameConfig ctx (absorb_blocks fuel ctx input).0
unfolding absorb_blocks
absorb_blocks-SameConfig zero ctx input = (refl, refl, refl)
absorb_blocks-SameConfig (suc fuel) ctx input =
    either (λ r. SameConfig ctx r.0) (ltb (length input) ctx.r) (ctx, input)
      (absorb_blocks fuel (absorb_block ctx input) (drop ctx.r input)) (refl, refl, refl)
      (SameConfig-trans ctx (absorb_block ctx input)
        (absorb_blocks fuel (absorb_block ctx input) (drop ctx.r input)).0
        (absorb_block-SameConfig ctx input)
        (absorb_blocks-SameConfig fuel (absorb_block ctx input) (drop ctx.r input)))

absorb_input-SameConfig : (ctx : HashCtx) (input : List ℕ) → SameConfig ctx (absorb_input ctx input)
unfolding absorb_input
absorb_input-SameConfig ctx input = absorb_blocks-SameConfig (length input) ctx input

pub sha3_update-SameConfig :
    (ctx : HashCtx) (input : List ℕ) → SameConfig ctx (sha3_update ctx input)
unfolding sha3_update
sha3_update-SameConfig ctx input =
    let counted = record ctx { msg_len = u64 (ctx.msg_len + length input) } in
    let partial = ctx.msg_len % ctx.r in
    let todo = ctx.r - partial in
    let filled = record counted { partial = write_at ctx.partial partial (take todo input) } in
    let short = record counted { partial = write_at ctx.partial partial input } in
    let long = absorb_input (absorb_block filled filled.partial) (drop todo input) in
    either (SameConfig ctx) (partial == 0) (absorb_input counted input)
      (if ltb (length input) todo then short else long) (absorb_input-SameConfig counted input)
      (either (SameConfig ctx) (ltb (length input) todo) short long (refl, refl, refl)
        (SameConfig-trans ctx (absorb_block filled filled.partial) long
          (absorb_block-SameConfig filled filled.partial)
          (absorb_input-SameConfig (absorb_block filled filled.partial) (drop todo input))))

-- A message in pieces, and all of it.
abbrev pub feed : HashCtx → List (List ℕ) → HashCtx
feed ctx [] = ctx
feed ctx (piece ∷ pieces) = feed (sha3_update ctx piece) pieces

abbrev pub concat : List (List ℕ) → List ℕ
concat [] = []
concat (piece ∷ pieces) = piece ++ concat pieces

-- Behind a message, the pieces in turn are held as one.
feed-Holds :
    (pieces : List (List ℕ)) (message : List ℕ) (ctx : HashCtx)
    → length (message ++ concat pieces) < 2 ^ 64
    → Holds message ctx
    → Holds (message ++ concat pieces) (feed ctx pieces) × SameConfig ctx (feed ctx pieces)
feed-Holds [] message ctx fits h =
    (subst (λ l. Holds l ctx) (sym (append-nil message)) h, (refl, refl, refl))
feed-Holds (piece ∷ pieces) message ctx fits h =
    let whole = append_assoc message piece (concat pieces) in
    let first = sha3_update ctx piece in
    let (held, same) =
      feed-Holds pieces (message ++ piece) first (omega (arith, fits, ap length whole)) (
        sha3_update-Holds message piece ctx
          (omega (
            arith,
            fits,
            length-append message piece,
            length-append message (piece ++ concat pieces),
            length-append piece (concat pieces),
          ))
          h) in
    (
      subst (λ l. Holds l (feed first pieces)) whole held,
      SameConfig-trans ctx first (feed first pieces) (sha3_update-SameConfig ctx piece) same,
    )

sha3_256_init-Holds : (ctx : HashCtx) → length ctx.partial ≡ 136 → Holds [] (sha3_256_init ctx)
unfolding sha3_256_init absorb_message
sha3_256_init-Holds ctx room = record {
  rate = (refl, refl);
  counted = refl;
  absorbed = refl;
  buffered = refl;
  room = room;
}

pub shake256_init-Holds : (ctx : HashCtx) → length ctx.partial ≡ 136 → Holds [] (shake256_init ctx)
unfolding shake256_init absorb_message
shake256_init-Holds ctx room = record {
  rate = (refl, refl);
  counted = refl;
  absorbed = refl;
  buffered = refl;
  room = room;
}

-- A new digest size, over the same message.
pub set_digestsize-Holds :
    (message : List ℕ) (ctx : HashCtx) (size : ℕ)
    → Holds message ctx
    → Holds message (shake256_set_digestsize ctx size)
unfolding shake256_set_digestsize
set_digestsize-Holds message ctx size h = record {
  rate = h.rate;
  counted = h.counted;
  absorbed = h.absorbed;
  buffered = h.buffered;
  room = h.room;
}

-- Whatever the pieces are that a message comes in, whole blocks, parts of one or none, its SHA3-256
-- digest and its SHAKE-256 output of `size` bytes, whole words up to the rate of 136 bytes, are those
-- of the reference sponge on the message as a whole, where its length fits 64 bits.
pub sha3_final-feed :
    (ctx : HashCtx) (pieces : List (List ℕ)) (size : ℕ)
    → length ctx.partial ≡ 136
    → length (concat pieces) < 2 ^ 64
    → size ≤ 136
    → size % 8 ≡ 0
    → ((sha3_final (feed (sha3_256_init ctx) pieces)).1 ≡ sponge 0x06 32 (concat pieces))
      × ((sha3_final (shake256_set_digestsize (feed (shake256_init ctx) pieces) size)).1
          ≡ sponge 0x1f size (concat pieces))
unfolding sha3_256_init shake256_init shake256_set_digestsize
sha3_final-feed ctx pieces size room fits small words =
    let message = concat pieces in
    let (hashed, same) =
      feed-Holds pieces [] (sha3_256_init ctx) fits (sha3_256_init-Holds ctx room) in
    let (output, like) =
      feed-Holds pieces [] (shake256_init ctx) fits (shake256_init-Holds ctx room) in
    let shake = feed (shake256_init ctx) pieces in
    (
      sha3_final-sponge message (feed (sha3_256_init ctx) pieces) hashed
          ∙ ap₂ (λ p d. sponge p d message) same.0 same.1,
      sha3_final-sponge message (shake256_set_digestsize shake size)
            (set_digestsize-Holds message shake size output)
          ∙ ap₂ (λ p d. sponge p d message) like.0 (omega (arith, small)),
    )
