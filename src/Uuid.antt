-- ===== src/Uuid.antt =====
-- The identifier of a collector, src/jitterentropy-uuid.c.
--
-- The bytes of the operating system's generator and the clock are arguments: `none` where there is
-- no generator. The process-wide counter goes in and comes out.
pub mod Text
pub mod Generated
use jitterentropy_library.Prelude.{ℕ, ◌+◌, List, [], ◌∷◌, ◌++◌, ◌||◌, Option, none, some}
use jitterentropy_library.Prelude.{
  bit_and, bit_or, ◌==◌, if◌then◌else◌, get_or, set, take, u32, ◌>>>◌,
}
use jitterentropy_library.Collector.{HashCtx}
use jitterentropy_library.Sha3.Sponge.{
  le32_to_ptr, le64_to_ptr, sha3_256_init, sha3_update, sha3_final,
}

abbrev pub hex : List ℕ
hex =
    b'0' ∷ b'1' ∷ b'2' ∷ b'3' ∷ b'4' ∷ b'5' ∷ b'6' ∷ b'7' ∷ b'8' ∷ b'9' ∷ b'a' ∷ b'b' ∷ b'c' ∷ b'd'
    ∷ b'e' ∷ b'f' ∷ []

-- The loop of `jent_uuid_format`, at byte `i`; the text ends with a zero byte.
unfoldable pub uuid_format_from : ℕ → List ℕ → List ℕ
uuid_format_from i [] = 0 ∷ []
uuid_format_from i (b ∷ bytes) =
    let digits =
      get_or hex (b >>> 4) 0 ∷ get_or hex (bit_and b 0x0f) 0 ∷ uuid_format_from (i + 1) bytes in
    if i == 4 || i == 6 || i == 8 || i == 10 then b'-' ∷ digits else digits

unfoldable pub uuid_format : List ℕ → List ℕ
unfolding uuid_format_from
uuid_format b = uuid_format_from 0 b

-- The version and the variant go into a byte.
unfoldable pub stamp : ℕ → ℕ → ℕ → List ℕ → List ℕ
stamp i mask mark b = set b i (bit_or (bit_and (get_or b i 0) mask) mark)

-- `jent_uuid_from_counter`, on the number that the counter gave.
unfoldable pub uuid_from_counter : HashCtx → ℕ → ℕ → List ℕ
unfolding stamp
uuid_from_counter ctx val now =
    let input = le32_to_ptr val ++ le64_to_ptr now in
    let digest = (sha3_final (sha3_update (sha3_256_init ctx) input)).1 in
    stamp 6 0x0f 0x80 (take 16 digest)

-- The bytes, and the counter that they leave.
unfoldable pub uuid_bytes : Option (List ℕ) → HashCtx → ℕ → ℕ → List ℕ × ℕ
unfolding stamp
uuid_bytes (some b) ctx now counter = (stamp 6 0x0f 0x40 b, counter)
uuid_bytes none ctx now counter =
    let val = u32 (counter + 1) in (uuid_from_counter ctx val now, val)

-- `jent_uuid_generate`.
unfoldable pub uuid_generate : Option (List ℕ) → HashCtx → ℕ → ℕ → List ℕ × ℕ
unfolding uuid_bytes uuid_format stamp
uuid_generate random ctx now counter =
    let (b, counted) = uuid_bytes random ctx now counter in
    (uuid_format (stamp 8 0x3f 0x80 b), counted)
