-- ===== src/Sha3/Padding.antt =====
-- The last block of src/jitterentropy-sha3.c against the padding of the reference sponge.
use jitterentropy_library.Prelude.{
  ℕ, zero, suc, ◌+◌, ◌-◌, ◌*◌, ◌/◌, ◌%◌, ◌≤◌, ◌<◌, ◌≡◌, refl, ap, ap₂, sym, subst, ◌∙◌, arith, List,
  [], ◌∷◌, ◌++◌,
}
use jitterentropy_library.Prelude.{
  bit_or, take, drop, set, get_or, length, replicate, length-drop, length-replicate,
  get_or-replicate,
}
use jitterentropy_library.Prelude.Slices.{get_or-append_ge, take_all}
use jitterentropy_library.Collector.{HashCtx}
use jitterentropy_library.Sha3.Sponge.{pad_block, write_at}
use jitterentropy_library.Sha3.Message.{pad}
use jitterentropy_library.Sha3.Buffer.{length-write_at}
use jitterentropy_library.Sha3.Update.{Holds, take-write_at}

set-append_ge :
    (xs ys : List ℕ) (i v : ℕ) → length xs ≤ i → set (xs ++ ys) i v ≡ xs ++ set ys (i - length xs) v
set-append_ge [] ys i v h = ap (λ j. set ys j v) (omega arith)
set-append_ge (x ∷ xs) ys zero v h = absurd (omega arith)
set-append_ge (x ∷ xs) ys (suc i) v h =
    ap (λ l. x ∷ l)
      (set-append_ge xs ys i v (omega arith) ∙ ap (λ j. xs ++ set ys j v) (omega arith))

set-replicate_last : (k v : ℕ) → set (replicate (suc k) 0) k v ≡ replicate k 0 ++ v ∷ []
set-replicate_last zero v = refl
set-replicate_last (suc k) v = ap (λ l. 0 ∷ l) (set-replicate_last k v)

-- The bytes that are written behind the message.
pad_lem :
    (padding q : ℕ)
    → 0 < q
    → set
        (set (replicate q 0) 0 padding)
        (q - 1)
        (bit_or (get_or (set (replicate q 0) 0 padding) (q - 1) 0) 0x80)
      ≡ pad padding q
unfolding pad
pad_lem padding zero h = absurd (omega arith)
pad_lem padding (suc zero) h = refl
pad_lem padding (suc (suc k)) h =
    ap₂ (λ j v. set (padding ∷ replicate (suc k) 0) j v) {x = suc (suc k) - 1} {y = suc k}
      (omega arith)
      (ap (λ j. bit_or (get_or (padding ∷ replicate (suc k) 0) j 0) 0x80) {y = suc k} (omega arith)
        ∙ ap (λ b. bit_or b 0x80) (get_or-replicate (suc k) k 0))
    ∙ ap (λ l. padding ∷ l) (set-replicate_last k 0x80)

-- The zeros behind what is in the buffer.
zeroed-tail :
    (buf : List ℕ) (p : ℕ)
    → length buf ≡ 136
    → p < 136
    → write_at buf p (replicate (136 - p) 0) ≡ take p buf ++ replicate (136 - p) 0
zeroed-tail buf p room h =
    let q = length-replicate {A = ℕ} (136 - p) 0 in
    let fits : p + length (replicate {A = ℕ} (136 - p) 0) ≤ length buf =
      omega (arith, q, room, h) in
    sym (
      take_all (p + length (replicate {A = ℕ} (136 - p) 0)) (write_at buf p (replicate (136 - p) 0))
        (omega (arith, q, room, h, length-write_at buf p (replicate (136 - p) 0) fits)))
    ∙ take-write_at buf p (replicate (136 - p) 0) fits

-- The marks behind a part of a block of 136 bytes.
marks-append :
    (tail : List ℕ) (padding : ℕ)
    → length tail < 136
    → let zeroed = tail ++ replicate (136 - length tail) 0 in
      let domain = set zeroed (length tail) padding in
      set domain 135 (bit_or (get_or domain 135 0) 0x80) ≡ tail ++ pad padding (136 - length tail)
marks-append tail padding h =
    let p = length tail in
    let q = 136 - p in
    let domain = set (replicate q 0) 0 padding in
    let front : set (tail ++ replicate q 0) p padding ≡ tail ++ domain =
      set-append_ge tail (replicate q 0) p padding (omega arith)
      ∙ ap (λ j. tail ++ set (replicate q 0) j padding) (omega arith) in
    ap (λ l. set l 135 (bit_or (get_or l 135 0) 0x80)) front
    ∙ set-append_ge tail domain 135 (bit_or (get_or (tail ++ domain) 135 0) 0x80) (omega (arith, h))
    ∙ ap₂ (λ j b. tail ++ set domain j (bit_or b 0x80)) {y = q - 1} (omega (arith, h))
        (get_or-append_ge tail domain 135 0 (omega (arith, h))
          ∙ ap (λ j. get_or domain j 0) {y = q - 1} (omega (arith, h)))
    ∙ ap (λ l. tail ++ l) (pad_lem padding q (omega (arith, h)))

-- The last block of a context, at a rate and with so many bytes in the buffer.
pad_from : ℕ → ℕ → HashCtx → List ℕ
pad_from r p ctx =
    let zeroed = write_at ctx.partial p (replicate (r - p) 0) in
    let padded = set zeroed p ctx.padding in
    set padded (r - 1) (bit_or (get_or padded (r - 1) 0) 0x80)

-- The last block is the rest of the message and its padding.
pub pad_block-pad :
    (message : List ℕ) (ctx : HashCtx)
    → Holds message ctx
    → pad_block ctx
      ≡ drop (length message / 136 * 136) message ++ pad ctx.padding (136 - length message % 136)
unfolding pad_block pad_from
pad_block-pad message ctx h =
    let p = length message % 136 in
    let tail = drop (length message / 136 * 136) message in
    let size : length tail ≡ p = omega (arith, length-drop (length message / 136 * 136) message) in
    let part : ctx.msg_len % ctx.r ≡ p = ap₂ (λ a b. a % b) h.counted h.rate.0 in
    ap₂ (λ r k. pad_from r k ctx) h.rate.0 part
    ∙ ap (λ z. set (set z p ctx.padding) 135 (bit_or (get_or (set z p ctx.padding) 135 0) 0x80))
        (zeroed-tail ctx.partial p h.room (omega arith)
          ∙ ap (λ l. l ++ replicate (136 - p) 0) h.buffered)
    ∙ subst
        (λ k.
          set (set (tail ++ replicate (136 - k) 0) k ctx.padding) 135
            (bit_or (get_or (set (tail ++ replicate (136 - k) 0) k ctx.padding) 135 0) 0x80)
          ≡ tail ++ pad ctx.padding (136 - k))
        size (marks-append tail ctx.padding (omega (arith, size)))
