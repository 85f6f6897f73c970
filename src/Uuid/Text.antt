-- ===== src/Uuid/Text.antt =====
-- The text of an identifier, read back.
use jitterentropy_library.Prelude.{
  ℕ, zero, suc, ◌+◌, ◌-◌, ◌*◌, ◌/◌, ◌%◌, ◌<◌, ◌≡◌, refl, ap, ap₂, ◌∙◌, arith, List, [], ◌∷◌, ◌||◌,
  ◌&&◌, Bool, true, false, Option, none, some,
}
use jitterentropy_library.Prelude.{
  bit_and, ◌==◌, leb, if◌then◌else◌, ◌>>=◌, get_or, length, all_below, all_below_sound, ==_iff,
}
use jitterentropy_library.Uuid.{hex, uuid_format_from}

-- Readers of the text, written for themselves: a digit, a byte, and the groups.
abbrev pub hex_value : ℕ → Option ℕ
hex_value c =
    if leb b'0' c && leb c b'9'
    then some (c - b'0')
    else if leb b'a' c && leb c b'f'
    then some (c - b'a' + 10)
    else none

abbrev pub read_byte : List ℕ → Option (ℕ × List ℕ)
read_byte [] = none
read_byte (c ∷ []) = none
read_byte (c ∷ d ∷ rest) = do high ← hex_value c; low ← hex_value d; some (high * 16 + low, rest)

-- A group ends before byte 4, 6, 8 and 10.
abbrev pub starts_group : ℕ → Bool
starts_group i = i == 4 || i == 6 || i == 8 || i == 10

abbrev pub skip_dash : Bool → List ℕ → Option (List ℕ)
skip_dash false text = some text
skip_dash true [] = none
skip_dash true (c ∷ text) = if c == b'-' then some text else none

abbrev pub ends : List ℕ → Option (List ℕ)
ends [] = none
ends (c ∷ []) = if c == 0 then some [] else none
ends (c ∷ d ∷ rest) = none

-- The bytes of a text, `left` of them from byte `i` on, and nothing behind its zero byte.
abbrev pub uuid_parse : ℕ → ℕ → List ℕ → Option (List ℕ)
uuid_parse zero i text = ends text
uuid_parse (suc left) i text = do
  digits ← skip_dash (starts_group i) text
  read ← read_byte digits
  bytes ← uuid_parse left (i + 1) read.1
  some (read.0 ∷ bytes)

abbrev pub AreBytes : List ℕ → Type 0
AreBytes [] = Unit {0}
AreBytes (b ∷ bytes) = (b < 256) × AreBytes bytes

is_value : ℕ → Option ℕ → Bool
is_value n none = false
is_value n (some v) = v == n

is_value_sound : (n : ℕ) (o : Option ℕ) → is_value n o ≡ true → o ≡ some n
unfolding is_value
is_value_sound n none h = cc
is_value_sound n (some v) h = ap (λ x. some x) ((==_iff v n).0 h)

hex_table : all_below 16 (λ n. is_value n (hex_value (get_or hex n 0))) ≡ true
unfolding all_below is_value
hex_table = refl

hex_value-hex : (n : ℕ) → n < 16 → hex_value (get_or hex n 0) ≡ some n
hex_value-hex n h =
    is_value_sound n (hex_value (get_or hex n 0))
      (all_below_sound 16 (λ k. is_value k (hex_value (get_or hex k 0))) n hex_table h)

nibble_table : all_below 256 (λ b. bit_and b 0x0f == b % 16) ≡ true
unfolding all_below
nibble_table = refl

nibble : (b : ℕ) → b < 256 → bit_and b 0x0f ≡ b % 16
nibble b h = (==_iff _ _).0 (all_below_sound 256 (λ x. bit_and x 0x0f == x % 16) b nibble_table h)

read_byte-digits :
    (b : ℕ) (rest : List ℕ)
    → b < 256
    → read_byte (get_or hex (b / 16) 0 ∷ get_or hex (bit_and b 0x0f) 0 ∷ rest) ≡ some (b, rest)
read_byte-digits b rest h =
    ap (λ n. read_byte (get_or hex (b / 16) 0 ∷ get_or hex n 0 ∷ rest)) (nibble b h)
    ∙ ap₂ (λ high low. do x ← high; y ← low; let r : ℕ × List ℕ = (x * 16 + y, rest) in some r)
        (hex_value-hex (b / 16) (omega (arith, h))) (hex_value-hex (b % 16) (omega arith))
    ∙ ap (λ n. let r : ℕ × List ℕ = (n, rest) in some r) (omega arith)

pub uuid_parse-uuid_format_from :
    (i : ℕ) (bytes : List ℕ)
    → AreBytes bytes
    → uuid_parse (length bytes) i (uuid_format_from i bytes) ≡ some bytes
unfolding uuid_format_from
uuid_parse-uuid_format_from i [] h = refl
uuid_parse-uuid_format_from i (b ∷ bytes) h =
    let digits =
      get_or hex (b / 16) 0 ∷ get_or hex (bit_and b 0x0f) 0 ∷ uuid_format_from (i + 1) bytes in
    skipped (starts_group i) (length bytes) (i + 1) digits
    ∙ ap (λ o. do read ← o; rest ← uuid_parse (length bytes) (i + 1) read.1; some (read.0 ∷ rest))
        (read_byte-digits b (uuid_format_from (i + 1) bytes) h.0)
    ∙ ap (λ o. do rest ← o; some (b ∷ rest)) (uuid_parse-uuid_format_from (i + 1) bytes h.1)
  where
    skipped :
        (dash : Bool) (left j : ℕ) (digits : List ℕ)
        → (do
          text ← skip_dash dash (if dash then b'-' ∷ digits else digits)
          read ← read_byte text
          rest ← uuid_parse left j read.1
          some (read.0 ∷ rest))
          ≡ (do read ← read_byte digits; rest ← uuid_parse left j read.1; some (read.0 ∷ rest))
    skipped true left j digits = refl
    skipped false left j digits = refl
