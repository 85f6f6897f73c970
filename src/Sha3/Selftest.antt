-- ===== src/Sha3/Selftest.antt =====
-- The known-answer tests of src/jitterentropy-sha3.c. A test is true where the source returns 1, for
-- a failure. `jent_sha3_256_tester` has no body in the source and always passes.
use jitterentropy_library.Prelude.{ℕ, zero, suc, ◌+◌, Bool, true, false, ◌||◌, List, [], ◌∷◌}
use jitterentropy_library.Prelude.{take, replicate, u8, ◌==◌, if◌then◌else◌}
use jitterentropy_library.Collector.{HashCtx}
use jitterentropy_library.Sha3.Sponge.{shake256_init, sha3_256_init, sha3_update, sha3_final}
use jitterentropy_library.Sha3.Xdrbg.{shake256_set_digestsize, xdrbg256_generate_block}

-- `HASH_CTX_ON_STACK`.
abbrev pub blank : HashCtx
blank = record {
  state = [];
  msg_len = 0;
  partial = replicate 136 0;
  xdrbg_block = replicate 96 0;
  r = 0;
  rword = 0;
  digestsize = 0;
  padding = 0;
  initially_seeded = 0;
}

-- Whether the loop over `exp` finds another byte in `act`.
unfoldable pub differs : List ℕ → List ℕ → Bool
differs [] act = false
differs (e ∷ exp) [] = true
differs (e ∷ exp) (a ∷ act) = if e == a then differs exp act else true

abbrev shake256_msg : List ℕ
shake256_msg =
    0x6C ∷ 0x9E ∷ 0xC8 ∷ 0x5C ∷ 0xBA ∷ 0xBA ∷ 0x62 ∷ 0xF5 ∷ 0xBC ∷ 0xFE ∷ 0xA1 ∷ 0x9E ∷ 0xB9 ∷ 0xC9
    ∷ 0x20 ∷ 0x52 ∷ 0xD8 ∷ 0xFF ∷ 0x18 ∷ 0x81 ∷ 0x52 ∷ 0xE9 ∷ 0x61 ∷ 0xC1 ∷ 0xEC ∷ 0x5C ∷ 0x75
    ∷ 0xBF ∷ 0xC3 ∷ 0xC9 ∷ 0x1C ∷ 0x8D ∷ []

abbrev shake256_exp : List ℕ
shake256_exp =
    0x7d ∷ 0x6a ∷ 0x09 ∷ 0x6e ∷ 0x13 ∷ 0x66 ∷ 0x1d ∷ 0x9d ∷ 0x0e ∷ 0xca ∷ 0xf5 ∷ 0x38 ∷ 0x30 ∷ 0xa1
    ∷ 0x92 ∷ 0x87 ∷ 0xe0 ∷ 0xb3 ∷ 0x6e ∷ 0xce ∷ 0x48 ∷ 0x82 ∷ 0xeb ∷ 0x58 ∷ 0x0b ∷ 0x78 ∷ 0x5c
    ∷ 0x1d ∷ 0xef ∷ 0x2d ∷ 0xe5 ∷ 0xaa ∷ []

unfoldable pub shake256_tester : Bool
shake256_tester =
    differs shake256_exp
      (sha3_final (shake256_set_digestsize (sha3_update (shake256_init blank) shake256_msg) 32)).1

abbrev xdrbg256_exp : List ℕ
xdrbg256_exp =
    0x51 ∷ 0xe4 ∷ 0x3c ∷ 0xf6 ∷ 0x4b ∷ 0xa2 ∷ 0x80 ∷ 0x77 ∷ 0x33 ∷ 0x1a ∷ 0x47 ∷ 0xe3 ∷ 0xf8 ∷ 0xb4
    ∷ 0x1a ∷ 0x42 ∷ 0xad ∷ 0xd3 ∷ 0xa0 ∷ 0xf2 ∷ 0x53 ∷ 0x97 ∷ 0x10 ∷ 0xdd ∷ 0x6e ∷ 0xa1 ∷ 0x16
    ∷ 0x1d ∷ 0x37 ∷ 0x8a ∷ 0x6f ∷ 0xb6 ∷ []

-- The bytes 0, 1, 2 and so on, wrapping: `left` to go, `i` the next one.
unfoldable pub counting : ℕ → ℕ → List ℕ
counting zero i = []
counting (suc left) i = u8 i ∷ counting left (i + 1)

unfoldable pub xdrbg256_tester : Bool
xdrbg256_tester =
    let seed = counting 9 0 in
    let first = xdrbg256_generate_block (sha3_update (shake256_init blank) seed) 32 in
    differs xdrbg256_exp (xdrbg256_generate_block (sha3_update first.0 seed) 32).1

abbrev multiblock_exp : List ℕ
multiblock_exp =
    0xC5 ∷ 0xE3 ∷ 0x16 ∷ 0x92 ∷ 0x0A ∷ 0x0D ∷ 0x7E ∷ 0x5D ∷ 0x6C ∷ 0x84 ∷ 0x4C ∷ 0x52 ∷ 0x9C ∷ 0xA8
    ∷ 0x82 ∷ 0x18 ∷ 0x8A ∷ 0xB2 ∷ 0x29 ∷ 0x9D ∷ 0xA5 ∷ 0xED ∷ 0x65 ∷ 0x0D ∷ 0xC6 ∷ 0x16 ∷ 0xF0
    ∷ 0xD4 ∷ 0xA3 ∷ 0x72 ∷ 0x2E ∷ 0x02 ∷ []

unfoldable pub sha3_256_multiblock_tester : Bool
sha3_256_multiblock_tester =
    let msg = counting 300 0 in
    let absorbed =
      sha3_update (sha3_update (sha3_update (sha3_256_init blank) (take 1 msg)) (take 140 msg))
        msg in
    differs multiblock_exp (sha3_final absorbed).1

unfoldable pub sha3_tester : Bool
sha3_tester = sha3_256_multiblock_tester || shake256_tester || xdrbg256_tester
