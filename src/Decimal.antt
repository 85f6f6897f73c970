-- ===== src/Decimal.antt =====
-- Numbers in the text that the operating system gives: `strtol` to base 10, as
-- rngd/jitterentropy-rngd.c and the backends in arch/ use it, on a `long` of 64 bits.
--
-- A text is the bytes before its zero byte.
use jitterentropy_library.Prelude.{
  ℕ, ◌+◌, ◌-◌, ◌*◌, ◌^◌, Bool, true, false, List, [], ◌∷◌, ◌||◌, ◌&&◌, if◌then◌else◌, ◌==◌, leb,
  ltb,
}

abbrev pub is_digit : ℕ → Bool
is_digit c = leb b'0' c && leb c b'9'

abbrev pub is_space : ℕ → Bool
is_space c = c == b' ' || leb 9 c && leb c 13

unfoldable pub skip_space : List ℕ → List ℕ
skip_space [] = []
skip_space (c ∷ text) = let rest = skip_space text in if is_space c then rest else c ∷ text

-- What is read of a number, and the text behind it; `converted` is that a digit was there.
pub record Number : Type 0 where
  pub negative : Bool
  pub magnitude : ℕ
  pub rest : List ℕ
  pub converted : Bool

unfoldable pub digits : Number → List ℕ → Number
digits n [] = record n { rest = [] }
digits n (c ∷ text) =
    let more =
      digits (record n { magnitude = n.magnitude * 10 + (c - b'0'); converted = true }) text in
    if is_digit c then more else record n { rest = c ∷ text }

unfoldable pub signed : List ℕ → Number
unfolding digits
signed [] = record { negative = false; magnitude = 0; rest = []; converted = false }
signed (c ∷ text) =
    let none_yet = λ (negative : Bool).
      let n : Number = record {
        negative = negative;
        magnitude = 0;
        rest = [];
        converted = false;
      } in
      n in
    if c == b'-'
    then digits (none_yet true) text
    else if c == b'+'
    then digits (none_yet false) text
    else digits (none_yet false) (c ∷ text)

-- The conversion; its result is the value with its sign.
unfoldable pub strtol : List ℕ → Number
unfolding skip_space signed
strtol text = signed (skip_space text)

-- `errno` is set: the value does not fit.
unfoldable pub out_of_range : Number → Bool
out_of_range n = if n.negative then ltb (2 ^ 63) n.magnitude else ltb (2 ^ 63 - 1) n.magnitude
