-- ===== src/Sha3/Sponge.antt =====
-- The sponge of src/jitterentropy-sha3.c: initialization, update and final, with the contexts for
-- SHA3-256 and SHAKE-256. A buffer and its length are one list of bytes.
use jitterentropy_library.Prelude.{ℕ, zero, suc, ◌+◌, ◌-◌, ◌/◌, ◌%◌, List, [], ◌∷◌, ◌++◌}
use jitterentropy_library.Prelude.{bit_or, bit_xor, u8, u32, u64, ◌<<<◌, ◌>>>◌, get_or, set}
use jitterentropy_library.Prelude.{take, drop, replicate, length, ltb, ◌==◌, if◌then◌else◌}
use jitterentropy_library.Collector.{HashCtx, sha3_256_size_block, sha3_256_size_digest}
use jitterentropy_library.Sha3.Keccak.{keccakp_1600}

unfoldable pub ptr_to_le32 : List ℕ → ℕ
ptr_to_le32 p =
    bit_or (bit_or (bit_or (get_or p 0 0) (get_or p 1 0 <<< 8)) (get_or p 2 0 <<< 16))
      (get_or p 3 0 <<< 24)

unfoldable pub ptr_to_le64 : List ℕ → ℕ
unfolding ptr_to_le32
ptr_to_le64 p = bit_or (ptr_to_le32 p) (ptr_to_le32 (drop 4 p) <<< 32)

unfoldable pub le32_to_ptr : ℕ → List ℕ
le32_to_ptr value = u8 value ∷ u8 (value >>> 8) ∷ u8 (value >>> 16) ∷ u8 (value >>> 24) ∷ []

unfoldable pub le64_to_ptr : ℕ → List ℕ
unfolding le32_to_ptr
le64_to_ptr value = le32_to_ptr (u32 value) ++ le32_to_ptr (u32 (value >>> 32))

-- `memcpy (buf + off, bytes)`.
unfoldable pub write_at : List ℕ → ℕ → List ℕ → List ℕ
write_at buf off bytes = take off buf ++ (bytes ++ drop (off + length bytes) buf)

-- `jent_sha3_init`.
unfoldable pub sha3_init : HashCtx → HashCtx
sha3_init ctx = record ctx { state = replicate 25 0; msg_len = 0 }

unfoldable pub sha3_256_init : HashCtx → HashCtx
unfolding sha3_init
sha3_256_init ctx = record (sha3_init ctx) {
  r = sha3_256_size_block;
  rword = sha3_256_size_block / 8;
  digestsize = sha3_256_size_digest;
  padding = 0x06;
}

unfoldable pub shake256_init : HashCtx → HashCtx
unfolding sha3_init
shake256_init ctx = record (sha3_init ctx) {
  r = sha3_256_size_block;
  rword = sha3_256_size_block / 8;
  digestsize = 0;
  padding = 0x1f;
  initially_seeded = 0;
}

-- The loop of `jent_sha3_fill_state`: `left` words to go, `i` the next one.
unfoldable pub fill_words : ℕ → ℕ → List ℕ → List ℕ → List ℕ
unfolding ptr_to_le64
fill_words zero i state bytes = state
fill_words (suc left) i state bytes =
    fill_words left (i + 1) (set state i (bit_xor (get_or state i 0) (ptr_to_le64 bytes)))
      (drop 8 bytes)

unfoldable pub sha3_fill_state : HashCtx → List ℕ → HashCtx
unfolding fill_words
sha3_fill_state ctx bytes = record ctx { state = fill_words ctx.rword 0 ctx.state bytes }

-- One block into the state, and the permutation.
unfoldable pub absorb_block : HashCtx → List ℕ → HashCtx
unfolding sha3_fill_state keccakp_1600
absorb_block ctx block =
    let filled = sha3_fill_state ctx block in record filled { state = keccakp_1600 filled.state }

-- The loop over full blocks: what it leaves of the input comes back with the context. The fuel is
-- at least the length of the input.
unfoldable pub absorb_blocks : ℕ → HashCtx → List ℕ → HashCtx × List ℕ
unfolding absorb_block
absorb_blocks zero ctx input = (ctx, input)
absorb_blocks (suc fuel) ctx input =
    let rest = absorb_blocks fuel (absorb_block ctx input) (drop ctx.r input) in
    if ltb (length input) ctx.r then (ctx, input) else rest

-- Full blocks, then what is left into the partial buffer.
unfoldable pub absorb_input : HashCtx → List ℕ → HashCtx
unfolding absorb_blocks write_at
absorb_input ctx input =
    let (absorbed, rest) = absorb_blocks (length input) ctx input in
    record absorbed { partial = write_at absorbed.partial 0 rest }

unfoldable pub sha3_update : HashCtx → List ℕ → HashCtx
unfolding write_at absorb_block absorb_input
sha3_update ctx input =
    let partial = ctx.msg_len % ctx.r in
    let counted = record ctx { msg_len = u64 (ctx.msg_len + length input) } in
    let todo = ctx.r - partial in
    if partial == 0
    then absorb_input counted input
    else if ltb (length input) todo
    then record counted { partial = write_at ctx.partial partial input }
    else (let filled = record counted {
      partial = write_at ctx.partial partial (take todo input);
    } in
        absorb_input (absorb_block filled filled.partial) (drop todo input))

-- The squeezed words as bytes. The source's squeeze is for sizes in whole words up to the rate, so
-- that the state has the words that are asked for.
unfoldable pub squeeze_words : ℕ → List ℕ → List ℕ
unfolding le64_to_ptr
squeeze_words zero state = []
squeeze_words (suc left) [] = []
squeeze_words (suc left) (word ∷ state) = le64_to_ptr word ++ squeeze_words left state

-- The last block: zeros behind the message, the padding byte, and the last bit.
unfoldable pub pad_block : HashCtx → List ℕ
unfolding write_at
pad_block ctx =
    let partial = ctx.msg_len % ctx.r in
    let zeroed = write_at ctx.partial partial (replicate (ctx.r - partial) 0) in
    let padded = set zeroed partial ctx.padding in
    set padded (ctx.r - 1) (bit_or (get_or padded (ctx.r - 1) 0) 0x80)

-- The context starts anew, and the digest is returned.
unfoldable pub sha3_final : HashCtx → HashCtx × List ℕ
unfolding pad_block absorb_block squeeze_words write_at sha3_init
sha3_final ctx =
    let absorbed = absorb_block ctx (pad_block ctx) in
    (
      sha3_init (record absorbed { partial = write_at absorbed.partial 0 (replicate ctx.r 0) }),
      squeeze_words (ctx.digestsize / 8) absorbed.state,
    )
