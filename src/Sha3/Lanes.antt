-- ===== src/Sha3/Lanes.antt =====
-- The permutation of src/jitterentropy-sha3.c keeps the number of lanes.
use jitterentropy_library.Prelude.{
  ℕ, zero, suc, ◌+◌, ◌*◌, ◌/◌, ◌≡◌, ◌≤◌, refl, ◌∙◌, arith, List, [], ◌∷◌, min, take, replicate,
}
use jitterentropy_library.Prelude.{length, length-set, drop, set, get_or, bit_xor}
use jitterentropy_library.Sha3.Keccak.{
  rotate_lanes, shift_lanes, lane_index, rol64, lane, rho_rol, chi_column, keccakp_theta,
  keccakp_rho, keccakp_pi, keccakp_chi, keccakp_iota, keccakp_rounds, keccakp_1600, rho_order,
  pi_order,
}
use jitterentropy_library.Sha3.Sponge.{ptr_to_le64, fill_words, squeeze_words, le64_to_ptr}
use jitterentropy_library.Sha3.Message.{absorb_lanes, absorb_message, sponge}

length-rotate_lanes :
    (s : List ℕ) (t : ℕ) (order : List (ℕ × ℕ)) → length (rotate_lanes s t order) ≡ length s
unfolding rotate_lanes
length-rotate_lanes s t [] = refl
length-rotate_lanes s t ((x, y) ∷ rest) =
    let v = rol64 (lane s x y) (rho_rol t) in
    length-rotate_lanes (set s (lane_index x y) v) (t + 1) rest ∙ length-set s (lane_index x y) v

length-shift_lanes :
    (s : List ℕ) (saved : ℕ) (at : ℕ × ℕ) (order : List (ℕ × ℕ))
    → length (shift_lanes s saved at order) ≡ length s
unfolding shift_lanes
length-shift_lanes s saved (x, y) [] = length-set s (lane_index x y) saved
length-shift_lanes s saved (x, y) ((x', y') ∷ rest) =
    length-shift_lanes (set s (lane_index x y) (lane s x' y')) saved (x', y') rest
    ∙ length-set s (lane_index x y) (lane s x' y')

length-keccakp_rho : (s : List ℕ) → length (keccakp_rho s) ≡ length s
unfolding keccakp_rho
length-keccakp_rho s = length-rotate_lanes s 0 rho_order

length-keccakp_pi : (s : List ℕ) → length (keccakp_pi s) ≡ length s
unfolding keccakp_pi
length-keccakp_pi s = length-shift_lanes s (lane s 4 4) (4, 4) (drop 1 pi_order)

length-chi_column :
    (s : List ℕ) (x : ℕ) (f g : List ℕ → ℕ → ℕ) → length (chi_column s x f g) ≡ length s
length-chi_column s x f g = simp length-set

length-keccakp_theta : (s : List ℕ) → length (keccakp_theta s) ≡ length s
unfolding keccakp_theta
length-keccakp_theta s = simp length-set

length-keccakp_iota : (s : List ℕ) (round : ℕ) → length (keccakp_iota s round) ≡ length s
unfolding keccakp_iota
length-keccakp_iota s round = length-set s 0 _

length-keccakp_chi : (s : List ℕ) → length (keccakp_chi s) ≡ length s
unfolding keccakp_chi
length-keccakp_chi s = simp length-chi_column

length-round :
    (round : ℕ) (s : List ℕ)
    → length (keccakp_iota (keccakp_chi (keccakp_pi (keccakp_rho (keccakp_theta s)))) round)
      ≡ length s
length-round round s =
    let mixed = keccakp_theta s in
    let rotated = keccakp_rho mixed in
    let moved = keccakp_pi rotated in
    length-keccakp_iota (keccakp_chi moved) round
    ∙ length-keccakp_chi moved
    ∙ length-keccakp_pi rotated
    ∙ length-keccakp_rho mixed
    ∙ length-keccakp_theta s

length-keccakp_rounds :
    (left round : ℕ) (s : List ℕ) → length (keccakp_rounds left round s) ≡ length s
unfolding keccakp_rounds
length-keccakp_rounds zero round s = refl
length-keccakp_rounds (suc left) round s =
    length-keccakp_rounds left (round + 1)
      (keccakp_iota (keccakp_chi (keccakp_pi (keccakp_rho (keccakp_theta s)))) round)
    ∙ length-round round s

length-fill_words :
    (n i : ℕ) (state bytes : List ℕ) → length (fill_words n i state bytes) ≡ length state
unfolding fill_words
length-fill_words zero i state bytes = refl
length-fill_words (suc n) i state bytes =
    let v = bit_xor (get_or state i 0) (ptr_to_le64 bytes) in
    length-fill_words n (i + 1) (set state i v) (drop 8 bytes) ∙ length-set state i v

length-absorb_message :
    (n : ℕ) (state message : List ℕ) → length (absorb_message n state message) ≡ length state
unfolding absorb_message absorb_lanes keccakp_1600
length-absorb_message zero state message = refl
length-absorb_message (suc n) state message =
    length-absorb_message n (absorb_lanes state (take 136 message)) (drop 136 message)
    ∙ length-keccakp_rounds 24 0 (fill_words 17 0 state (take 136 message))
    ∙ length-fill_words 17 0 state (take 136 message)

length-squeeze_words :
    (n : ℕ) (state : List ℕ) → length (squeeze_words n state) ≡ min n (length state) * 8
unfolding squeeze_words le64_to_ptr
length-squeeze_words zero state = omega arith
length-squeeze_words (suc n) [] = omega arith
length-squeeze_words (suc n) (word ∷ state) = omega (arith, length-squeeze_words n state)

-- A digest has the size that is asked for.
pub length-sponge :
    (padding size : ℕ) (message : List ℕ)
    → size ≤ 25
    → length (sponge padding (size * 8) message) ≡ size * 8
unfolding sponge
length-sponge padding size message h =
    length-squeeze_words (size * 8 / 8) _
    ∙ omega (arith, h, length-absorb_message (length message / 136 + 1) (replicate 25 0) _)
