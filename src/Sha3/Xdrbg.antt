-- ===== src/Sha3/Xdrbg.antt =====
-- XDRBG-256 of src/jitterentropy-sha3.c, over the sponge.
use jitterentropy_library.Prelude.{ℕ, ◌+◌, ◌*◌, List, [], ◌∷◌, take, drop, replicate}
use jitterentropy_library.Prelude.{ltb, if◌then◌else◌, u8}
use jitterentropy_library.Collector.{HashCtx, sha3_256_size_digest}
use jitterentropy_library.Sha3.Sponge.{sha3_update, sha3_final}

abbrev pub xdrbg_size_state : ℕ
xdrbg_size_state = 64

abbrev pub encode_n : ℕ → ℕ
encode_n x = x * 85

unfoldable pub shake256_set_digestsize : HashCtx → ℕ → HashCtx
shake256_set_digestsize ctx size = record ctx { digestsize = u8 size }

-- The seeding: the state V' from all that was absorbed.
unfoldable pub xdrbg_finalize : HashCtx → HashCtx × List ℕ
xdrbg_finalize ctx =
    let seeded = record ctx { initially_seeded = 1 } in
    let encoded = sha3_update seeded (u8 (encode_n ctx.initially_seeded) ∷ []) in
    sha3_final (shake256_set_digestsize encoded xdrbg_size_state)

-- The generation: 96 bytes from V'.
unfoldable pub xdrbg_expand : HashCtx → List ℕ → HashCtx × List ℕ
xdrbg_expand ctx v =
    let absorbed = sha3_update (sha3_update ctx v) (u8 (encode_n 2) ∷ []) in
    sha3_final (shake256_set_digestsize absorbed (xdrbg_size_state + sha3_256_size_digest))

-- The context holds the next state V, and the bytes are the output, at most 32 of them.
unfoldable pub xdrbg256_generate_block : HashCtx → ℕ → HashCtx × List ℕ
xdrbg256_generate_block ctx dst_len =
    let (seeded, v) = xdrbg_finalize ctx in
    let (expanded, block) = xdrbg_expand seeded v in
    let len = if ltb sha3_256_size_digest dst_len then sha3_256_size_digest else dst_len in
    let reseeded = sha3_update expanded (take xdrbg_size_state block) in
    (
      record reseeded { xdrbg_block = replicate (xdrbg_size_state + sha3_256_size_digest) 0 },
      take len (drop xdrbg_size_state block),
    )
