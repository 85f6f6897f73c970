-- ===== src/Sha3/Keccak.antt =====
-- The Keccak-p[1600] permutation of src/jitterentropy-sha3.c, on a list of 25 lanes that is
-- written in place, in the source's order of assignments.
use jitterentropy_library.Prelude.{ℕ, zero, suc, ◌+◌, ◌-◌, ◌*◌, ◌/◌, ◌%◌, ◌^◌, List, [], ◌∷◌}
use jitterentropy_library.Prelude.{bit_and, bit_or, bit_xor, u64, ◌<<<◌, ◌>>>◌, get_or, set}

unfoldable pub rol64 : ℕ → ℕ → ℕ
rol64 x n = bit_or (u64 (x <<< bit_and n 63)) (x >>> bit_and (64 - n) 63)

-- `~x` on 64 bits.
abbrev pub not64 : ℕ → ℕ
not64 x = 2 ^ 64 - 1 - x

-- The place of lane (x, y).
abbrev pub lane_index : ℕ → ℕ → ℕ
lane_index x y = x + 5 * y

abbrev pub lane : List ℕ → ℕ → ℕ → ℕ
lane s x y = get_or s (lane_index x y) 0

-- Column parity C[x].
abbrev pub parity : List ℕ → ℕ → ℕ
parity s x =
    bit_xor (bit_xor (bit_xor (bit_xor (lane s x 0) (lane s x 1)) (lane s x 2)) (lane s x 3))
      (lane s x 4)

abbrev pub xor_lane : List ℕ → ℕ → ℕ → ℕ → List ℕ
xor_lane s x y v = set s (lane_index x y) (bit_xor (lane s x y) v)

-- One row of step 3, D[0] to D[4].
abbrev pub theta_row : List ℕ → ℕ → ℕ → ℕ → ℕ → ℕ → ℕ → List ℕ
theta_row s y d0 d1 d2 d3 d4 =
    xor_lane (xor_lane (xor_lane (xor_lane (xor_lane s 0 y d0) 1 y d1) 2 y d2) 3 y d3) 4 y d4

unfoldable pub keccakp_theta : List ℕ → List ℕ
unfolding rol64
keccakp_theta s =
    let c0 = parity s 0 in
    let c1 = parity s 1 in
    let c2 = parity s 2 in
    let c3 = parity s 3 in
    let c4 = parity s 4 in
    let d0 = bit_xor c4 (rol64 c1 1) in
    let d1 = bit_xor c0 (rol64 c2 1) in
    let d2 = bit_xor c1 (rol64 c3 1) in
    let d3 = bit_xor c2 (rol64 c4 1) in
    let d4 = bit_xor c3 (rol64 c0 1) in
    let s0 = theta_row s 0 d0 d1 d2 d3 d4 in
    let s1 = theta_row s0 1 d0 d1 d2 d3 d4 in
    let s2 = theta_row s1 2 d0 d1 d2 d3 d4 in
    let s3 = theta_row s2 3 d0 d1 d2 d3 d4 in theta_row s3 4 d0 d1 d2 d3 d4

-- `RHO_ROL`.
abbrev pub rho_rol : ℕ → ℕ
rho_rol t = (t + 1) * (t + 2) / 2 % 64

-- The lanes in the order in which they are rotated, the t-th by `rho_rol t`.
abbrev pub rho_order : List (ℕ × ℕ)
rho_order =
    (1, 0)
    ∷ (0, 2)
    ∷ (2, 1)
    ∷ (1, 2)
    ∷ (2, 3)
    ∷ (3, 3)
    ∷ (3, 0)
    ∷ (0, 1)
    ∷ (1, 3)
    ∷ (3, 1)
    ∷ (1, 4)
    ∷ (4, 4)
    ∷ (4, 0)
    ∷ (0, 3)
    ∷ (3, 4)
    ∷ (4, 3)
    ∷ (3, 2)
    ∷ (2, 2)
    ∷ (2, 0)
    ∷ (0, 4)
    ∷ (4, 2)
    ∷ (2, 4)
    ∷ (4, 1)
    ∷ (1, 1)
    ∷ []

unfoldable pub rotate_lanes : List ℕ → ℕ → List (ℕ × ℕ) → List ℕ
unfolding rol64
rotate_lanes s t [] = s
rotate_lanes s t ((x, y) ∷ rest) =
    rotate_lanes (set s (lane_index x y) (rol64 (lane s x y) (rho_rol t))) (t + 1) rest

unfoldable pub keccakp_rho : List ℕ → List ℕ
unfolding rotate_lanes
keccakp_rho s = rotate_lanes s 0 rho_order

-- The chain of assignments: each lane takes the value of the next one in the list, all but the
-- last, which takes the saved first.
abbrev pub pi_order : List (ℕ × ℕ)
pi_order =
    (4, 4)
    ∷ (1, 4)
    ∷ (3, 1)
    ∷ (1, 3)
    ∷ (0, 1)
    ∷ (3, 0)
    ∷ (3, 3)
    ∷ (2, 3)
    ∷ (1, 2)
    ∷ (2, 1)
    ∷ (0, 2)
    ∷ (1, 0)
    ∷ (1, 1)
    ∷ (4, 1)
    ∷ (2, 4)
    ∷ (4, 2)
    ∷ (0, 4)
    ∷ (2, 0)
    ∷ (2, 2)
    ∷ (3, 2)
    ∷ (4, 3)
    ∷ (3, 4)
    ∷ (0, 3)
    ∷ (4, 0)
    ∷ []

unfoldable pub shift_lanes : List ℕ → ℕ → ℕ × ℕ → List (ℕ × ℕ) → List ℕ
shift_lanes s saved (x, y) [] = set s (lane_index x y) saved
shift_lanes s saved (x, y) ((x', y') ∷ rest) =
    shift_lanes (set s (lane_index x y) (lane s x' y')) saved (x', y') rest

unfoldable pub keccakp_pi : List ℕ → List ℕ
unfolding shift_lanes
keccakp_pi s = elim pi_order [ [] ↦ s | first ∷ rest ↦ shift_lanes s (lane s 4 4) first rest ]

abbrev pub chi_lane : List ℕ → ℕ → ℕ → ℕ → ℕ → List ℕ
chi_lane s x y a b = xor_lane s x y (bit_and (not64 a) b)

-- Column `x` for all rows: `f` and `g` give the two operands from the state as it is then.
abbrev pub chi_column : List ℕ → ℕ → (List ℕ → ℕ → ℕ) → (List ℕ → ℕ → ℕ) → List ℕ
chi_column s x f g =
    let s0 = chi_lane s x 0 (f s 0) (g s 0) in
    let s1 = chi_lane s0 x 1 (f s0 1) (g s0 1) in
    let s2 = chi_lane s1 x 2 (f s1 2) (g s1 2) in
    let s3 = chi_lane s2 x 3 (f s2 3) (g s2 3) in chi_lane s3 x 4 (f s3 4) (g s3 4)

-- `t0` and `t1` are the saved columns 0 and 1.
unfoldable pub keccakp_chi : List ℕ → List ℕ
keccakp_chi s =
    let t0 = λ (v : List ℕ) (y : ℕ). lane s 0 y in
    let t1 = λ (v : List ℕ) (y : ℕ). lane s 1 y in
    let column = λ (x : ℕ) (v : List ℕ) (y : ℕ). lane v x y in
    let s0 = chi_column s 0 (column 1) (column 2) in
    let s1 = chi_column s0 1 (column 2) (column 3) in
    let s2 = chi_column s1 2 (column 3) (column 4) in
    let s3 = chi_column s2 3 (column 4) t0 in chi_column s3 4 t0 t1

abbrev pub iota_vals : List ℕ
iota_vals =
    0x0000000000000001 ∷ 0x0000000000008082 ∷ 0x800000000000808a ∷ 0x8000000080008000
    ∷ 0x000000000000808b ∷ 0x0000000080000001 ∷ 0x8000000080008081 ∷ 0x8000000000008009
    ∷ 0x000000000000008a ∷ 0x0000000000000088 ∷ 0x0000000080008009 ∷ 0x000000008000000a
    ∷ 0x000000008000808b ∷ 0x800000000000008b ∷ 0x8000000000008089 ∷ 0x8000000000008003
    ∷ 0x8000000000008002 ∷ 0x8000000000000080 ∷ 0x000000000000800a ∷ 0x800000008000000a
    ∷ 0x8000000080008081 ∷ 0x8000000000008080 ∷ 0x0000000080000001 ∷ 0x8000000080008008 ∷ []

unfoldable pub keccakp_iota : List ℕ → ℕ → List ℕ
keccakp_iota s round = set s 0 (bit_xor (get_or s 0 0) (get_or iota_vals round 0))

unfoldable pub keccakp_rounds : ℕ → ℕ → List ℕ → List ℕ
unfolding keccakp_theta keccakp_rho keccakp_pi keccakp_chi keccakp_iota
keccakp_rounds zero round s = s
keccakp_rounds (suc left) round s =
    keccakp_rounds left (round + 1)
      (keccakp_iota (keccakp_chi (keccakp_pi (keccakp_rho (keccakp_theta s)))) round)

unfoldable pub keccakp_1600 : List ℕ → List ℕ
unfolding keccakp_rounds
keccakp_1600 s = keccakp_rounds 24 0 s
