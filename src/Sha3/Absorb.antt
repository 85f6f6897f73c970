-- ===== src/Sha3/Absorb.antt =====
-- The absorbing loops of src/jitterentropy-sha3.c against the blocks of the reference sponge.
use jitterentropy_library.Prelude.{
  ℕ, zero, suc, ◌+◌, ◌*◌, ◌/◌, ◌≤◌, ◌<◌, ◌≡◌, refl, ap, ap₂, sym, ◌∙◌, arith, List, Bool, true,
  false,
}
use jitterentropy_library.Prelude.{
  bit_xor, take, drop, length, get_or, set, length-drop, ltb, if◌then◌else◌,
}
use jitterentropy_library.Prelude.Slices.{get_or-take_lt, get_or-drop, drop-drop}
use jitterentropy_library.Collector.{HashCtx}
use jitterentropy_library.Sha3.Keccak.{keccakp_1600}
use jitterentropy_library.Sha3.Sponge.{
  ptr_to_le64, fill_words, absorb_block, absorb_blocks, absorb_input, write_at,
}
use jitterentropy_library.Sha3.Message.{absorb_lanes, absorb_message}

-- The same bytes where they are looked at.
abbrev Agree : ℕ → List ℕ → List ℕ → Type 0
Agree n p q = (i : ℕ) → i < n → get_or p i 0 ≡ get_or q i 0

Agree-drop : (k n : ℕ) (p q : List ℕ) → Agree (k + n) p q → Agree n (drop k p) (drop k q)
Agree-drop k n p q h i lt =
    get_or-drop k p i 0 ∙ h (k + i) (omega (arith, lt)) ∙ sym (get_or-drop k q i 0)

ptr_to_le64-Agree : (p q : List ℕ) → Agree 8 p q → ptr_to_le64 p ≡ ptr_to_le64 q
unfolding ptr_to_le64
ptr_to_le64-Agree p q h =
    let d = Agree-drop 4 4 p q h in
    rw
      (
        h 0 (omega arith),
        h 1 (omega arith),
        h 2 (omega arith),
        h 3 (omega arith),
        d 0 (omega arith),
        d 1 (omega arith),
        d 2 (omega arith),
        d 3 (omega arith),
      )
      refl

fill_words-Agree :
    (n i : ℕ) (state p q : List ℕ)
    → Agree (n * 8) p q
    → fill_words n i state p ≡ fill_words n i state q
unfolding fill_words
fill_words-Agree zero i state p q h = refl
fill_words-Agree (suc n) i state p q h =
    ap (λ w. fill_words n (i + 1) (set state i (bit_xor (get_or state i 0) w)) (drop 8 p))
      (ptr_to_le64-Agree p q (λ j lt. h j (omega (arith, lt))))
    ∙ fill_words-Agree n (i + 1) (set state i (bit_xor (get_or state i 0) (ptr_to_le64 q)))
        (drop 8 p) (drop 8 q) (Agree-drop 8 (n * 8) p q (λ j lt. h j (omega (arith, lt))))

pub absorb_lanes-take :
    (state block : List ℕ) → absorb_lanes state (take 136 block) ≡ absorb_lanes state block
unfolding absorb_lanes
absorb_lanes-take state block = ap keccakp_1600 (
    fill_words-Agree 17 0 state (take 136 block) block
      (λ i lt. get_or-take_lt 136 block i 0 (omega (arith, lt))))

-- A context at the rate of 17 lanes.
abbrev pub IsRate : HashCtx → Type 0
IsRate ctx = (ctx.r ≡ 136) × (ctx.rword ≡ 17)

pub absorb_block-lanes :
    (ctx : HashCtx) (block : List ℕ)
    → ctx.rword ≡ 17
    → absorb_block ctx block ≡ record ctx { state = absorb_lanes ctx.state (take 136 block) }
unfolding absorb_block absorb_lanes
absorb_block-lanes ctx block h =
    ap (λ n. record ctx { state = keccakp_1600 (fill_words n 0 ctx.state block) }) h
    ∙ ap (λ s. record ctx { state = s }) (sym (absorb_lanes-take ctx.state block))

-- Both branches of a conditional.
pub if_eq {ℓ} :
    {A : Type ℓ} (b : Bool) (x y z : A)
    → (b ≡ true → x ≡ z)
    → (b ≡ false → y ≡ z)
    → (if b then x else y) ≡ z
if_eq true x y z p q = p refl
if_eq false x y z p q = q refl

-- The blocks of an input, and what is left of it.
abbrev Absorbed : HashCtx → List ℕ → HashCtx × List ℕ
Absorbed ctx input = (
  record ctx { state = absorb_message (length input / 136) ctx.state input },
  drop (length input / 136 * 136) input,
)

small-Absorbed :
    (ctx : HashCtx) (input : List ℕ) → length input < 136 → (ctx, input) ≡ Absorbed ctx input
unfolding absorb_message
small-Absorbed ctx input h =
    let none : 0 ≡ length input / 136 = omega (arith, h) in
    ap
      (λ n.
        let r : HashCtx × List ℕ =
          (record ctx { state = absorb_message n ctx.state input }, drop n input) in
        r)
      none
    ∙ ap
        (λ n.
          let r : HashCtx × List ℕ = (
            record ctx { state = absorb_message (length input / 136) ctx.state input },
            drop n input,
          ) in
          r)
        (omega (arith, none))

next-Absorbed :
    (ctx : HashCtx) (input : List ℕ)
    → 136 ≤ length input
    → Absorbed (record ctx { state = absorb_lanes ctx.state (take 136 input) }) (drop 136 input)
      ≡ Absorbed ctx input
unfolding absorb_message
next-Absorbed ctx input h =
    let count : suc (length (drop 136 input) / 136) ≡ length input / 136 =
      omega (arith, h, length-drop 136 input) in
    ap₂
      (λ n rest.
        let r : HashCtx × List ℕ =
          (record ctx { state = absorb_message n ctx.state input }, rest) in
        r)
      count
      (drop-drop (length (drop 136 input) / 136 * 136) 136 input
        ∙ ap (λ n. drop n input) (omega (arith, count)))

absorb_blocks-Absorbed :
    (fuel : ℕ) (ctx : HashCtx) (input : List ℕ)
    → IsRate ctx
    → length input ≤ fuel
    → absorb_blocks fuel ctx input ≡ Absorbed ctx input
unfolding absorb_blocks
absorb_blocks-Absorbed zero ctx input rate h = small-Absorbed ctx input (omega (arith, h))
absorb_blocks-Absorbed (suc fuel) ctx input rate h =
    let block = record ctx { state = absorb_lanes ctx.state (take 136 input) } in
    if_eq (ltb (length input) ctx.r) (ctx, input)
      (absorb_blocks fuel (absorb_block ctx input) (drop ctx.r input)) (Absorbed ctx input)
      (λ short. small-Absorbed ctx input (ground (arith, short, rate.0)))
      λ full.
        let long : 136 ≤ length input = ground (arith, full, rate.0) in
        ap₂ (λ c n. absorb_blocks fuel c (drop n input)) (absorb_block-lanes ctx input rate.1)
          rate.0
        ∙ absorb_blocks-Absorbed fuel block (drop 136 input) rate
            (omega (arith, h, long, length-drop 136 input))
        ∙ next-Absorbed ctx input long

-- The blocks go into the state, and what is left into the buffer.
pub absorb_input-blocks :
    (ctx : HashCtx) (input : List ℕ)
    → IsRate ctx
    → absorb_input ctx input ≡ record ctx {
      state = absorb_message (length input / 136) ctx.state input;
      partial = write_at ctx.partial 0 (drop (length input / 136 * 136) input);
    }
unfolding absorb_input
absorb_input-blocks ctx input rate =
    ap (λ r. record (r.0) { partial = write_at r.0.partial 0 r.1 })
      (absorb_blocks-Absorbed (length input) ctx input rate (omega arith))
