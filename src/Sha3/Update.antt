-- ===== src/Sha3/Update.antt =====
-- What a context of src/jitterentropy-sha3.c holds of the message that it was given.
use jitterentropy_library.Prelude.{
  ℕ, ◌+◌, ◌-◌, ◌*◌, ◌/◌, ◌%◌, ◌^◌, ◌≤◌, ◌<◌, ◌≡◌, refl, ap, ap₂, sym, ◌∙◌, arith, List, ◌++◌, subst,
  Bool, true, false,
}
use jitterentropy_library.Prelude.{
  take, drop, length, replicate, length-drop, length-take, length-append, ltb, ◌==◌, if◌then◌else◌,
  u64, take-append-drop,
}
use jitterentropy_library.Prelude.Slices.{
  take-append_le, drop-append_le, drop-append_ge, take_all, drop-drop,
}
use mathlib.Core.List.{append_assoc}
use jitterentropy_library.Collector.{HashCtx}
use jitterentropy_library.Sha3.Sponge.{absorb_block, absorb_input, write_at, sha3_update}
use jitterentropy_library.Sha3.Buffer.{length-write_at}
use jitterentropy_library.Sha3.Message.{
  absorb_lanes, absorb_message, absorb_message-add, absorb_message-append, absorb_message-one,
}
use jitterentropy_library.Sha3.Absorb.{IsRate, absorb_block-lanes, absorb_input-blocks}

-- The whole blocks of the message are in the state, and the rest is in the buffer.
pub record Holds (message : List ℕ) (ctx : HashCtx) : Type 0 where
  pub rate : IsRate ctx
  pub counted : ctx.msg_len ≡ length message
  pub absorbed : ctx.state ≡ absorb_message (length message / 136) (replicate 25 0) message
  pub buffered : take (length message % 136) ctx.partial ≡ drop (length message / 136 * 136) message
  pub room : length ctx.partial ≡ 136

pub take-write_at :
    (buf : List ℕ) (off : ℕ) (bytes : List ℕ)
    → off + length bytes ≤ length buf
    → take (off + length bytes) (write_at buf off bytes) ≡ take off buf ++ bytes
unfolding write_at
take-write_at buf off bytes h =
    ap (take (off + length bytes))
      (sym (append_assoc (take off buf) bytes (drop (off + length bytes) buf)))
    ∙ take-append_le (off + length bytes) (take off buf ++ bytes) _
        (omega (arith, h, length-append (take off buf) bytes, length-take off buf))
    ∙ take_all (off + length bytes) (take off buf ++ bytes)
        (omega (arith, h, length-append (take off buf) bytes, length-take off buf))

-- An input behind a message of whole blocks that are absorbed.
absorb_input-Holds :
    (n : ℕ) (blocks input : List ℕ) (ctx : HashCtx)
    → IsRate ctx
    → length blocks ≡ n * 136
    → ctx.msg_len ≡ length (blocks ++ input)
    → ctx.state ≡ absorb_message n (replicate 25 0) blocks
    → length ctx.partial ≡ 136
    → Holds (blocks ++ input) (absorb_input ctx input)
absorb_input-Holds n blocks input ctx rate whole counted absorbed room =
    let k = length input / 136 in
    let rest = drop (k * 136) input in
    let total = length-append blocks input in
    let behind : drop (n * 136) (blocks ++ input) ≡ input =
      drop-append_ge (n * 136) blocks input (omega (arith, whole))
      ∙ ap (λ m. drop m input) {y = 0} (omega (arith, whole)) in
    let count : n + k ≡ length (blocks ++ input) / 136 = omega (arith, total, whole) in
    subst (Holds (blocks ++ input)) (sym (absorb_input-blocks ctx input rate)) (record {
      rate = rate;
      counted = counted;
      absorbed =
          ap (λ s. absorb_message k s input) absorbed
          ∙ ap₂ (absorb_message k)
              (sym (absorb_message-append n (replicate 25 0) blocks input (omega (arith, whole))))
              (sym behind)
          ∙ sym (absorb_message-add n k (replicate 25 0) (blocks ++ input))
          ∙ ap (λ m. absorb_message m (replicate 25 0) (blocks ++ input)) count;
      buffered =
          ap (λ m. take m (write_at ctx.partial 0 rest)) {y = 0 + length rest}
            (omega (arith, total, whole, length-drop (k * 136) input))
          ∙ take-write_at ctx.partial 0 rest (omega (arith, room, length-drop (k * 136) input))
          ∙ ap (drop (k * 136)) (sym behind)
          ∙ drop-drop (k * 136) (n * 136) (blocks ++ input)
          ∙ ap (λ m. drop m (blocks ++ input)) (omega (arith, count));
      room =
          length-write_at ctx.partial 0 rest (omega (arith, room, length-drop (k * 136) input))
          ∙ room;
    })

-- An input that stays below a block is kept.
short_input-Holds :
    (message input : List ℕ) (ctx : HashCtx)
    → Holds message ctx
    → length message % 136 + length input < 136
    → Holds (message ++ input) (record ctx {
      msg_len = length (message ++ input);
      partial = write_at ctx.partial (length message % 136) input;
    })
short_input-Holds message input ctx h short =
    let total = length-append message input in
    let n = length message / 136 in
    let p = length message % 136 in
    let same : n ≡ length (message ++ input) / 136 = omega (arith, total, short) in
    record {
      rate = h.rate;
      counted = refl;
      absorbed =
          h.absorbed
          ∙ sym (absorb_message-append n (replicate 25 0) message input (omega arith))
          ∙ ap (λ m. absorb_message m (replicate 25 0) (message ++ input)) same;
      buffered =
          ap (λ m. take m (write_at ctx.partial p input)) (omega (arith, total, short))
          ∙ take-write_at ctx.partial p input (omega (arith, h.room, short))
          ∙ ap (λ l. l ++ input) h.buffered
          ∙ sym (drop-append_le (n * 136) message input (omega arith))
          ∙ ap (λ m. drop m (message ++ input)) (omega (arith, same));
      room = length-write_at ctx.partial p input (omega (arith, h.room, short)) ∙ h.room;
    }

-- The buffer is filled to a block, which goes into the state.
fill_block-Holds :
    (message x : List ℕ) (ctx : HashCtx)
    → Holds message ctx
    → length message % 136 + length x ≡ 136
    → let block = write_at ctx.partial (length message % 136) x in
      (absorb_lanes ctx.state (take 136 block)
        ≡ absorb_message (length message / 136 + 1) (replicate 25 0) (message ++ x))
      × (length block ≡ 136)
fill_block-Holds message x ctx h full =
    let n = length message / 136 in
    let p = length message % 136 in
    let block = write_at ctx.partial p x in
    let tail : take 136 block ≡ take 136 (drop (n * 136) (message ++ x)) =
      ap (λ m. take m block) (sym full)
      ∙ take-write_at ctx.partial p x (omega (arith, h.room, full))
      ∙ ap (λ l. l ++ x) h.buffered
      ∙ sym (drop-append_le (n * 136) message x (omega arith))
      ∙ sym (
          take_all 136 (drop (n * 136) (message ++ x))
            (omega (arith, full, length-append message x, length-drop (n * 136) (message ++ x)))) in
    (
      ap₂ (λ s b. absorb_lanes s b)
            (h.absorbed ∙ sym (absorb_message-append n (replicate 25 0) message x (omega arith)))
            tail
          ∙ sym (
              absorb_message-one (absorb_message n (replicate 25 0) (message ++ x))
                (drop (n * 136) (message ++ x)))
          ∙ sym (absorb_message-add n 1 (replicate 25 0) (message ++ x)),
      length-write_at ctx.partial p x (omega (arith, h.room, full)) ∙ h.room,
    )

if_Holds :
    (message : List ℕ) (b : Bool) (x y : HashCtx)
    → (b ≡ true → Holds message x)
    → (b ≡ false → Holds message y)
    → Holds message (if b then x else y)
if_Holds message true x y p q = p refl
if_Holds message false x y p q = q refl

-- The update of a context that has `p` bytes in its buffer, at the rate `r` and the new count `len`.
update_from : ℕ → ℕ → ℕ → HashCtx → List ℕ → HashCtx
update_from r len p ctx input =
    let counted = record ctx { msg_len = len } in
    if p == 0
    then absorb_input counted input
    else if ltb (length input) (r - p)
    then record counted { partial = write_at ctx.partial p input }
    else (let filled = record counted { partial = write_at ctx.partial p (take (r - p) input) } in
        absorb_input (absorb_block filled filled.partial) (drop (r - p) input))

-- The branch that fills the buffer first.
long_input-Holds :
    (message input : List ℕ) (ctx : HashCtx)
    → Holds message ctx
    → let todo = 136 - length message % 136 in
      todo ≤ length input
      → let filled : HashCtx = record ctx {
        msg_len = length (message ++ input);
        partial = write_at ctx.partial (length message % 136) (take todo input);
      } in
        Holds
          (message ++ input)
          (absorb_input (absorb_block filled filled.partial) (drop todo input))
long_input-Holds message input ctx h long =
    let todo = 136 - length message % 136 in
    let x = take todo input in
    let size : length message % 136 + length x ≡ 136 =
      omega (arith, long, length-take todo input) in
    let (state, room) = fill_block-Holds message x ctx h size in
    let filled : HashCtx = record ctx {
      msg_len = length (message ++ input);
      partial = write_at ctx.partial (length message % 136) x;
    } in
    let whole : (message ++ x) ++ drop todo input ≡ message ++ input =
      append_assoc message x (drop todo input)
      ∙ ap (λ l. message ++ l) (take-append-drop todo input) in
    subst (λ c. Holds (message ++ input) (absorb_input c (drop todo input)))
      (sym (absorb_block-lanes filled filled.partial h.rate.1))
      (subst
        (λ l. Holds l (
          absorb_input
            (record filled { state = absorb_lanes filled.state (take 136 filled.partial) })
            (drop todo input)))
        whole
        (absorb_input-Holds (length message / 136 + 1) (message ++ x) (drop todo input)
          (record filled { state = absorb_lanes filled.state (take 136 filled.partial) }) h.rate
          (omega (arith, size, length-append message x)) (ap length (sym whole)) state room))

update_from-Holds :
    (message input : List ℕ) (ctx : HashCtx)
    → Holds message ctx
    → Holds
        (message ++ input)
        (update_from 136 (length (message ++ input)) (length message % 136) ctx input)
unfolding update_from
update_from-Holds message input ctx h =
    let p = length message % 136 in
    if_Holds (message ++ input) (p == 0) _ _
      (λ whole.
        let none : length message % 136 ≡ 0 = ground (arith, whole) in
        absorb_input-Holds (length message / 136) message input
          (record ctx { msg_len = length (message ++ input) }) h.rate (omega (arith, none)) refl
          h.absorbed h.room)
      λ part.
        if_Holds (message ++ input) (ltb (length input) (136 - p)) _ _
          (λ short. short_input-Holds message input ctx h (ground (arith, short)))
          λ long. long_input-Holds message input ctx h (ground (arith, long))

-- An update behind a message makes the context hold both, where their length fits a count of 64
-- bits.
pub sha3_update-Holds :
    (message input : List ℕ) (ctx : HashCtx)
    → length (message ++ input) < 2 ^ 64
    → Holds message ctx
    → Holds (message ++ input) (sha3_update ctx input)
unfolding sha3_update update_from
sha3_update-Holds message input ctx fits h =
    let len : u64 (ctx.msg_len + length input) ≡ length (message ++ input) =
      omega (arith, fits, h.counted, length-append message input) in
    let part : ctx.msg_len % ctx.r ≡ length message % 136 = ap₂ (λ a b. a % b) h.counted h.rate.0 in
    subst (λ c. Holds (message ++ input) c)
      (sym (
        ap₂ (λ r p. update_from r (u64 (ctx.msg_len + length input)) p ctx input) h.rate.0 part
        ∙ ap (λ l. update_from 136 l (length message % 136) ctx input) len))
      (update_from-Holds message input ctx h)
