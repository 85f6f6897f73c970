-- ===== src/Noise/Sources.antt =====
-- The pieces of a measurement, src/jitterentropy-noise.c: the hash loop, the two memory access
-- loops and the insertion into the entropy pool. The host is little-endian.
--
-- `clock` gives the n-th reading of `jent_get_nstime_internal`, of whichever clock the collector
-- uses; a `Machine` counts the readings.
use jitterentropy_library.Prelude.{ℕ, zero, suc, ◌+◌, ◌-◌, ◌*◌, ◌/◌, ◌%◌, List, [], ◌∷◌}
use jitterentropy_library.Prelude.{bit_and, bit_or, bit_xor, u8, u32, ◌<<<◌, ◌>>>◌}
use jitterentropy_library.Prelude.{get_or, set, take, drop, replicate}
use jitterentropy_library.Prelude.{◌==◌, if◌then◌else◌}
use jitterentropy_library.Collector.{HashCtx, RandData, Machine}
use jitterentropy_library.Collector.{sha3_256_size_block, sha3_256_size_digest}
use jitterentropy_library.Sha3.Sponge.{sha3_256_init, sha3_update, sha3_final, write_at}
use jitterentropy_library.Health.Lag.{delta}

-- Offsets in the intermediary buffer.
abbrev pub offset_timedelta : ℕ
offset_timedelta = 0

abbrev pub offset_domainseparator : ℕ
offset_domainseparator = 8

abbrev pub offset_hash_block : ℕ
offset_hash_block = 9

-- The bytes of an integer in memory, the lowest first.
abbrev pub bytes_of : ℕ → ℕ → List ℕ
bytes_of zero n = []
bytes_of (suc size) n = n % 256 ∷ bytes_of size (n / 256)

-- The intermediary is cleared by the source afterwards; the model drops it.
unfoldable pub hash_insert : RandData → ℕ → List ℕ → RandData
hash_insert ec time_delta intermediary = record ec {
  hash_state =
      sha3_update ec.hash_state
        (take ec.hash_state.r (write_at intermediary offset_timedelta (bytes_of 8 time_delta)));
}

-- One pass of the hash loop, with the digest of the pass before: the new context and digest.
unfoldable pub hash_pass : RandData → HashCtx → List ℕ → ℕ → HashCtx × List ℕ
hash_pass ec ctx digest j = sha3_final (
    sha3_update
      (sha3_update
        (sha3_update
          (sha3_update
            (sha3_update
              (sha3_update (sha3_update (sha3_update ctx digest) (bytes_of 4 ec.rct.count))
                (bytes_of 4 ec.apt.cutoff))
              (bytes_of 4 ec.apt.observations))
            (bytes_of 4 ec.apt.count))
          (bytes_of 8 ec.apt.base))
        (bytes_of 2 ec.rct_mem.count))
      (bytes_of 8 j))

unfoldable pub hash_passes : RandData → ℕ → ℕ → HashCtx → List ℕ → List ℕ
hash_passes ec zero j ctx digest = digest
hash_passes ec (suc left) j ctx digest =
    let (ctx', digest') = hash_pass ec ctx digest j in hash_passes ec left (j + 1) ctx' digest'

-- The context on the stack before it is initialized: nothing reads its contents.
abbrev pub stack_ctx : HashCtx
stack_ctx = record {
  state = replicate 25 0;
  msg_len = 0;
  partial = replicate sha3_256_size_block 0;
  xdrbg_block = replicate 96 0;
  r = 0;
  rword = 0;
  digestsize = 0;
  padding = 0;
  initially_seeded = 0;
}

-- The intermediary with the digest in its place.
unfoldable pub hash_loop : RandData → List ℕ → ℕ → List ℕ
hash_loop ec intermediary loop_cnt =
    let hash_loop_cnt = if loop_cnt == 0 then ec.hashloopcnt else loop_cnt in
    let digest = take sha3_256_size_digest (drop offset_hash_block intermediary) in
    write_at intermediary offset_hash_block
      (hash_passes ec hash_loop_cnt 0 (sha3_256_init stack_ctx) digest)

unfoldable pub uint32rotl : ℕ → ℕ → ℕ
uint32rotl x k = bit_or (u32 (x <<< k)) (x >>> (32 - k))

pub record Xoshiro : Type 0 where
  pub s0 : ℕ
  pub s1 : ℕ
  pub s2 : ℕ
  pub s3 : ℕ

unfoldable pub xoshiro128starstar : Xoshiro → ℕ × Xoshiro
xoshiro128starstar s =
    let result = u32 (uint32rotl (u32 (s.s1 * 5)) 7 * 9) in
    let t = u32 (s.s1 <<< 9) in
    let s2 = bit_xor s.s2 s.s0 in
    let s3 = bit_xor s.s3 s.s1 in
    let s1 = bit_xor s.s1 s2 in
    let s0 = bit_xor s.s0 s3 in
    (result, record { s0 = s0; s1 = s1; s2 = bit_xor s2 t; s3 = uint32rotl s3 11 })

-- One byte of the memory goes up by 1, wrapping at 255.
unfoldable pub touch : List ℕ → ℕ → List ℕ
touch mem place = set mem place (bit_and (get_or mem place 0 + 1) 0xff)

unfoldable pub pseudorandom_accesses : ℕ → ℕ → Xoshiro → List ℕ → List ℕ
pseudorandom_accesses zero mask s mem = mem
pseudorandom_accesses (suc left) mask s mem =
    let (out, s') = xoshiro128starstar s in
    pseudorandom_accesses left mask s' (touch mem (bit_and out mask))

abbrev pub memory_blocksize : ℕ
memory_blocksize = 128

-- The memory and the place of the next access.
unfoldable pub deterministic_accesses : ℕ → ℕ → ℕ → List ℕ → List ℕ × ℕ
deterministic_accesses zero wrap place mem = (mem, place)
deterministic_accesses (suc left) wrap place mem =
    deterministic_accesses left wrap (u32 (place + memory_blocksize - 1) % wrap) (touch mem place)

-- Byte `i` of the generator's state as an array of bytes.
unfoldable pub mix_byte : Xoshiro → ℕ → ℕ → Xoshiro
mix_byte s i byte =
    let v = byte <<< (8 * (i % 4)) in
    if i / 4 == 0
    then record s { s0 = bit_xor s.s0 v }
    else if i / 4 == 1
    then record s { s1 = bit_xor s.s1 v }
    else if i / 4 == 2
    then record s { s2 = bit_xor s.s2 v }
    else record s { s3 = bit_xor s.s3 v }

module _ (clock : ℕ → ℕ) where
  -- The state of the generator takes the low byte of a reading for each of its bytes.
  unfoldable pub mix_clock : ℕ → ℕ → ℕ → Xoshiro → Xoshiro
  mix_clock zero i reads s = s
  mix_clock (suc left) i reads s =
      mix_clock left (i + 1) (reads + 1) (mix_byte s i (u8 (bit_and (clock reads) 0xff)))

  -- `jent_memaccess_pseudorandom` with no delta asked for, as its only caller calls it.
  unfoldable pub memaccess_pseudorandom : Machine → ℕ → Machine
  memaccess_pseudorandom m loop_cnt = elim m.ec.mem [
    | [] ↦ m
    | byte ∷ rest ↦
        let mem_loop_cnt = if loop_cnt == 0 then m.ec.memaccessloops else loop_cnt in
        let seed : Xoshiro = record {
          s0 = 0x8e93eec0;
          s1 = 0xce65608a;
          s2 = 0xa8d46b46;
          s3 = 0xe83cef69;
        } in
        record m {
          ec = record (m.ec) {
            mem =
                pseudorandom_accesses mem_loop_cnt m.ec.memmask (mix_clock 16 0 m.reads seed)
                  (byte ∷ rest);
          };
          reads = m.reads + 16;
        }
  ]

  -- `jent_memaccess_deterministic` with a delta asked for, as its caller calls it: the delta is
  -- left at 0 without a memory.
  unfoldable pub memaccess_deterministic : Machine → ℕ → ℕ × Machine
  memaccess_deterministic m loop_cnt = elim m.ec.mem [
    | [] ↦ (0, m)
    | byte ∷ rest ↦
        let mem_loop_cnt = if loop_cnt == 0 then m.ec.memaccessloops else loop_cnt in
        let (mem, place) =
          deterministic_accesses mem_loop_cnt (u32 (m.ec.memmask + 1)) m.ec.memlocation
            (byte ∷ rest) in
        (
          delta (clock m.reads) (clock (m.reads + 1)) / m.ec.common_timer_gcd,
          record m { ec = record (m.ec) { mem = mem; memlocation = place }; reads = m.reads + 2 },
        )
  ]
