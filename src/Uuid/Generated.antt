-- ===== src/Uuid/Generated.antt =====
-- An identifier against its format: RFC 9562, version 4 from random bytes and version 8 from a digest.
use jitterentropy_library.Prelude.{
  ℕ, zero, suc, ◌+◌, ◌*◌, ◌%◌, ◌<◌, ◌≡◌, refl, ap, sym, ◌∙◌, arith, List, [], ◌∷◌, ◌++◌, true, ◌&&◌,
  none, some,
}
use jitterentropy_library.Prelude.{
  bit_and, bit_or, ◌==◌, get_or, set, take, u32, length, length-set, length-take, all_below,
  all_below_sound,
}
use jitterentropy_library.Collector.{HashCtx}
use jitterentropy_library.Sha3.Sponge.{le32_to_ptr, le64_to_ptr, squeeze_words}
use jitterentropy_library.Sha3.Message.{sponge}
use jitterentropy_library.Sha3.Digest.{sha3_final-feed}
use jitterentropy_library.Sha3.Lanes.{length-sponge}
use jitterentropy_library.Uuid.{
  uuid_format, uuid_format_from, stamp, uuid_from_counter, uuid_bytes, uuid_generate,
}
use jitterentropy_library.Uuid.Text.{AreBytes, uuid_parse, uuid_parse-uuid_format_from}

-- The version is in the upper half of byte 6, the variant in the upper two bits of byte 8.
unfoldable pub versioned : ℕ → List ℕ → List ℕ
versioned version b = set b 6 (version * 16 + get_or b 6 0 % 16)

unfoldable pub variant : List ℕ → List ℕ
variant b = set b 8 (128 + get_or b 8 0 % 64)

-- What the counter is made into.
unfoldable pub counter_bytes : ℕ → ℕ → List ℕ
counter_bytes val now = take 16 (sponge 0x06 32 (le32_to_ptr val ++ le64_to_ptr now))

AreBytes-set : (b : List ℕ) (i v : ℕ) → v < 256 → AreBytes b → AreBytes (set b i v)
AreBytes-set [] i v small h = tt
AreBytes-set (x ∷ b) zero v small h = (small, h.1)
AreBytes-set (x ∷ b) (suc i) v small h = (h.0, AreBytes-set b i v small h.1)

get_or-AreBytes : (b : List ℕ) (i : ℕ) → AreBytes b → get_or b i 0 < 256
get_or-AreBytes [] i h = omega arith
get_or-AreBytes (x ∷ b) zero h = h.0
get_or-AreBytes (x ∷ b) (suc i) h = get_or-AreBytes b i h.1

AreBytes-append : (a b : List ℕ) → AreBytes a → AreBytes b → AreBytes (a ++ b)
AreBytes-append [] b p q = q
AreBytes-append (x ∷ a) b p q = (p.0, AreBytes-append a b p.1 q)

AreBytes-take : (n : ℕ) (b : List ℕ) → AreBytes b → AreBytes (take n b)
AreBytes-take zero b h = tt
AreBytes-take (suc n) [] h = tt
AreBytes-take (suc n) (x ∷ b) h = (h.0, AreBytes-take n b h.1)

le64_to_ptr-AreBytes : (v : ℕ) → AreBytes (le64_to_ptr v)
unfolding le64_to_ptr
le64_to_ptr-AreBytes v = omega arith

squeeze_words-AreBytes : (n : ℕ) (state : List ℕ) → AreBytes (squeeze_words n state)
unfolding squeeze_words
squeeze_words-AreBytes zero state = tt
squeeze_words-AreBytes (suc n) [] = tt
squeeze_words-AreBytes (suc n) (word ∷ state) =
    AreBytes-append (le64_to_ptr word) (squeeze_words n state) (le64_to_ptr-AreBytes word)
      (squeeze_words-AreBytes n state)

counter_bytes-AreBytes : (val now : ℕ) → AreBytes (counter_bytes val now)
unfolding counter_bytes sponge
counter_bytes-AreBytes val now = AreBytes-take 16 _ (squeeze_words-AreBytes 4 _)

length-counter_bytes : (val now : ℕ) → length (counter_bytes val now) ≡ 16
unfolding counter_bytes
length-counter_bytes val now =
    let message = le32_to_ptr val ++ le64_to_ptr now in
    omega
      (arith, length-take 16 (sponge 0x06 32 message), length-sponge 0x06 4 message (omega arith))

stamps_table :
    all_below 256 (λ b.
      (bit_or (bit_and b 0x0f) 0x40 == 64 + b % 16)
      && (bit_or (bit_and b 0x0f) 0x80 == 128 + b % 16)
      && (bit_or (bit_and b 0x3f) 0x80 == 128 + b % 64))
    ≡ true
unfolding all_below
stamps_table = refl

stamps :
    (b : ℕ)
    → b < 256
    → (bit_or (bit_and b 0x0f) 0x40 ≡ 64 + b % 16)
      × (bit_or (bit_and b 0x0f) 0x80 ≡ 128 + b % 16)
      × (bit_or (bit_and b 0x3f) 0x80 ≡ 128 + b % 64)
stamps b h = ground (arith, all_below_sound 256 _ b stamps_table h)

-- Any sixteen bytes under the variant, as text and back.
formatted :
    (b : List ℕ)
    → length b ≡ 16
    → AreBytes b
    → uuid_parse 16 0 (uuid_format (stamp 8 0x3f 0x80 b)) ≡ some (variant b)
unfolding uuid_format stamp variant
formatted b size h =
    let byte = stamps (get_or b 8 0) (get_or-AreBytes b 8 h) in
    let whole = set b 8 (128 + get_or b 8 0 % 64) in
    ap (λ v. uuid_parse 16 0 (uuid_format_from 0 (set b 8 v))) byte.2
    ∙ ap (λ n. uuid_parse n 0 (uuid_format_from 0 whole))
        (sym (length-set b 8 (128 + get_or b 8 0 % 64) ∙ size))
    ∙ uuid_parse-uuid_format_from 0 whole
        (AreBytes-set b 8 (128 + get_or b 8 0 % 64) (omega arith) h)

random_bytes-versioned : (b : List ℕ) → AreBytes b → stamp 6 0x0f 0x40 b ≡ versioned 4 b
unfolding stamp versioned
random_bytes-versioned b h = ap (set b 6) (stamps (get_or b 6 0) (get_or-AreBytes b 6 h)).0

from_counter-versioned :
    (ctx : HashCtx) (val now : ℕ)
    → length ctx.partial ≡ 136
    → uuid_from_counter ctx val now ≡ versioned 8 (counter_bytes val now)
unfolding uuid_from_counter stamp versioned counter_bytes le32_to_ptr le64_to_ptr
from_counter-versioned ctx val now room =
    let input = le32_to_ptr val ++ le64_to_ptr now in
    let bytes = counter_bytes val now in
    ap (λ d. stamp 6 0x0f 0x80 (take 16 d))
      (sha3_final-feed ctx (input ∷ []) 0 room (omega arith) (omega arith) refl).0
    ∙ ap (set bytes 6)
        (stamps (get_or bytes 6 0) (get_or-AreBytes bytes 6 (counter_bytes-AreBytes val now))).1

versioned-AreBytes :
    (version : ℕ) (b : List ℕ) → version < 16 → AreBytes b → AreBytes (versioned version b)
unfolding versioned
versioned-AreBytes version b small h = AreBytes-set b 6 _ (omega (arith, small)) h

length-versioned : (version : ℕ) (b : List ℕ) → length (versioned version b) ≡ length b
unfolding versioned
length-versioned version b = length-set b 6 _

-- The text of a generated identifier reads back as its sixteen bytes, in groups of 4, 2, 2, 2 and 6
-- with nothing behind the zero byte: the bytes of the system's generator with version 4, or else the
-- first sixteen of the SHA3-256 digest of the next value of the counter and the time with version
-- 8, both with the variant of RFC 9562. Only the second moves the counter, by one on 32 bits.
pub uuid_generate-uuid_parse :
    (b : List ℕ) (ctx : HashCtx) (now counter : ℕ)
    → length b ≡ 16
    → AreBytes b
    → length ctx.partial ≡ 136
    → let next = u32 (counter + 1) in
      (uuid_parse 16 0 (uuid_generate (some b) ctx now counter).0 ≡ some (variant (versioned 4 b)))
      × ((uuid_generate (some b) ctx now counter).1 ≡ counter)
      × (uuid_parse 16 0 (uuid_generate none ctx now counter).0
          ≡ some (variant (versioned 8 (counter_bytes next now))))
      × ((uuid_generate none ctx now counter).1 ≡ next)
unfolding uuid_generate uuid_bytes
uuid_generate-uuid_parse b ctx now counter size bytes room =
    let next = u32 (counter + 1) in
    let digest = counter_bytes next now in
    (
      ap (λ v. uuid_parse 16 0 (uuid_format (stamp 8 0x3f 0x80 v))) (random_bytes-versioned b bytes)
          ∙ formatted (versioned 4 b) (length-versioned 4 b ∙ size)
              (versioned-AreBytes 4 b (omega arith) bytes),
      refl,
      ap (λ v. uuid_parse 16 0 (uuid_format (stamp 8 0x3f 0x80 v)))
            (from_counter-versioned ctx next now room)
          ∙ formatted (versioned 8 digest)
              (length-versioned 8 digest ∙ length-counter_bytes next now)
              (versioned-AreBytes 8 digest (omega arith) (counter_bytes-AreBytes next now)),
      refl,
    )
