-- ===== src/Sha3/Message.antt =====
-- A reference for src/jitterentropy-sha3.c: the sponge on a whole message, as FIPS 202 writes it, at
-- the rate of 136 bytes that SHA3-256 and SHAKE-256 share.
use jitterentropy_library.Prelude.{
  ℕ, zero, suc, ◌+◌, ◌-◌, ◌*◌, ◌/◌, ◌%◌, ◌≤◌, ◌≡◌, refl, ap, ap₂, ◌∙◌, arith, List, [], ◌∷◌, ◌++◌,
}
use jitterentropy_library.Prelude.{bit_or, take, drop, length, replicate, length-drop}
use jitterentropy_library.Prelude.Slices.{take-append_le, drop-append_le, drop-drop}
use jitterentropy_library.Sha3.Keccak.{keccakp_1600}
use jitterentropy_library.Sha3.Sponge.{fill_words, squeeze_words}

-- A block of 17 lanes is added to the state, which is then permuted.
unfoldable pub absorb_lanes : List ℕ → List ℕ → List ℕ
absorb_lanes state block = keccakp_1600 (fill_words 17 0 state block)

-- The first blocks of a message.
unfoldable pub absorb_message : ℕ → List ℕ → List ℕ → List ℕ
absorb_message zero state message = state
absorb_message (suc n) state message =
    absorb_message n (absorb_lanes state (take 136 message)) (drop 136 message)

-- The domain bits, zeros, and the final bit, in `q` bytes.
unfoldable pub pad : ℕ → ℕ → List ℕ
pad padding zero = []
pad padding (suc zero) = bit_or padding 0x80 ∷ []
pad padding (suc (suc q)) = padding ∷ (replicate q 0 ++ 0x80 ∷ [])

-- The digest of a message, in whole words that fit one block.
unfoldable pub sponge : ℕ → ℕ → List ℕ → List ℕ
sponge padding digestsize message = squeeze_words (digestsize / 8) (
    absorb_message (length message / 136 + 1) (replicate 25 0)
      (message ++ pad padding (136 - length message % 136)))

pub absorb_message-add :
    (n m : ℕ) (state message : List ℕ)
    → absorb_message (n + m) state message
      ≡ absorb_message m (absorb_message n state message) (drop (n * 136) message)
unfolding absorb_message
absorb_message-add zero m state message =
    ap₂ (λ k l. absorb_message k state l) {x = 0 + m} {y = m} (omega arith)
      (ap (λ k. drop k message) {x = 0} {y = 0 * 136} (omega arith))
absorb_message-add (suc n) m state message =
    ap (λ k. absorb_message k state message) {x = suc n + m} {y = suc (n + m)} (omega arith)
    ∙ absorb_message-add n m (absorb_lanes state (take 136 message)) (drop 136 message)
    ∙ ap (λ l. absorb_message m (absorb_message (suc n) state message) l)
        (drop-drop (n * 136) 136 message ∙ ap (λ k. drop k message) (omega arith))

-- What stands behind the blocks plays no part.
pub absorb_message-append :
    (n : ℕ) (state message rest : List ℕ)
    → n * 136 ≤ length message
    → absorb_message n state (message ++ rest) ≡ absorb_message n state message
unfolding absorb_message
absorb_message-append zero state message rest h = refl
absorb_message-append (suc n) state message rest h =
    ap₂ (λ block l. absorb_message n (absorb_lanes state block) l)
      (take-append_le 136 message rest (omega (arith, h)))
      (drop-append_le 136 message rest (omega (arith, h)))
    ∙ absorb_message-append n (absorb_lanes state (take 136 message)) (drop 136 message) rest
        (omega (arith, h, length-drop 136 message))

pub absorb_message-one :
    (state message : List ℕ)
    → absorb_message 1 state message ≡ absorb_lanes state (take 136 message)
unfolding absorb_message
absorb_message-one state message = refl
