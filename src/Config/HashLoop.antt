-- ===== src/Config/HashLoop.antt =====
-- The hash loop count in the flags, src/jitterentropy-base.c.
use jitterentropy_library.Prelude.{ℕ, ◌*◌, ◌/◌, ◌%◌, ◌^◌, ◌<◌, ◌≡◌, refl, arith}
use jitterentropy_library.Prelude.{bit_and, bit_or, min, u32, ◌==◌, ==_iff, leb}
use jitterentropy_library.Prelude.{all_below, all_below_sound, bit, bit-bit_or, bit-bit_and, ap}
use jitterentropy_library.Prelude.{◌∙◌, ◌⊎◌, ◌||◌, ◌&&◌, Bool, true, bit-le-one, ltb}
use jitterentropy_library.Prelude.Shifts.{
  shift-bit_or, shift-bit_and, bit_and_fifteen, low-bit_or, low-bit_and,
}
use jitterentropy_library.Config.{
  flags_to_hashloop, set_hashloop, next_hashloop_field, update_hashloop, count_of_field,
  hashloop_cnt, cover_default,
}

-- The field that is written is the one that is read.
flags_to_hashloop-set_hashloop :
    (flags v : ℕ) → v < 16 → flags_to_hashloop (set_hashloop flags v) ≡ v
unfolding set_hashloop
flags_to_hashloop-set_hashloop flags v h = omega (
  arith,
  bit_and_fifteen (bit_or (bit_and flags 4169138175) (u32 (v * 2 ^ 23)) / 2 ^ 23),
  shift-bit_or 23 (bit_and flags 4169138175) (u32 (v * 2 ^ 23)),
  low-bit_or (bit_and flags 4169138175 / 2 ^ 23) (u32 (v * 2 ^ 23) / 2 ^ 23) cleared,
)
  where
    cleared : bit_and flags 4169138175 / 2 ^ 23 % 16 ≡ 0
    cleared = omega (
      arith,
      shift-bit_and 23 flags 4169138175,
      low-bit_and (flags / 2 ^ 23) (4169138175 / 2 ^ 23) (omega arith),
    )

next_field-lt : (field : ℕ) → next_hashloop_field field 1 < 9
unfolding next_hashloop_field
next_field-lt field = ground arith

-- The fields that fit into the four bits, one by one.
count_of_field-next :
    (field : ℕ)
    → field < 16
    → count_of_field (next_hashloop_field field 1) ≡ min 128 (2 * count_of_field field)
unfolding count_of_field next_hashloop_field cover_default all_below
count_of_field-next field h = (==_iff _ _).0 (
    all_below_sound 16
      (λ x. count_of_field (next_hashloop_field x 1) == min 128 (2 * count_of_field x)) field refl
      h)

update_hashloop-lem :
    (flags : ℕ)
    → update_hashloop flags 1 ≡ set_hashloop flags (next_hashloop_field (flags_to_hashloop flags) 1)
unfolding update_hashloop
update_hashloop-lem flags = ground arith

-- One step of the ladder doubles the hash loop count that the flags select, up to 128, whatever
-- the flags are: also from the unset field, and from the fields above the largest.
pub hashloop_cnt-update_hashloop :
    (flags : ℕ) → hashloop_cnt (update_hashloop flags 1) ≡ min 128 (2 * hashloop_cnt flags)
unfolding hashloop_cnt
hashloop_cnt-update_hashloop flags =
    let field = flags_to_hashloop flags in
    let written =
      flags_to_hashloop-set_hashloop flags (next_hashloop_field field 1)
        (omega (arith, next_field-lt field)) in
    ap count_of_field (ap flags_to_hashloop (update_hashloop-lem flags) ∙ written)
    ∙ count_of_field-next field (omega (arith, bit_and_fifteen (flags / 2 ^ 23)))

mask_bit : (k : ℕ) → k < 32 → ((leb 23 k && ltb k 27) || bit k 4169138175 == 1) ≡ true
unfolding all_below
mask_bit k h = all_below_sound 32 (λ x. (leb 23 x && ltb x 27) || bit x 4169138175 == 1) k refl h

field_bit :
    (v k : ℕ) → v < 9 → k < 32 → ((leb 23 k && ltb k 27) || bit k (u32 (v * 2 ^ 23)) == 0) ≡ true
unfolding all_below
field_bit v k h kh =
    all_below_sound 32 (row v) k (all_below_sound 9 (λ w. all_below 32 (row w)) v refl h) kh
  where
    row : ℕ → ℕ → Bool
    row w x = (leb 23 x && ltb x 27) || bit x (u32 (w * 2 ^ 23)) == 0

-- The bits of the flags below 2 ^ 32 and outside of the field survive a step of the ladder.
pub bit-update_hashloop :
    (k flags : ℕ) → k < 32 → (k < 23) ⊎ (26 < k) → bit k (update_hashloop flags 1) ≡ bit k flags
unfolding set_hashloop
bit-update_hashloop k flags h outside =
    let v = next_hashloop_field (flags_to_hashloop flags) 1 in
    ap (bit k) (update_hashloop-lem flags)
    ∙ ground (
      arith,
      bit-bit_or k (bit_and flags 4169138175) (u32 (v * 2 ^ 23)),
      bit-bit_and k flags 4169138175,
      bit-le-one k flags,
      mask_bit k h,
      field_bit v k (next_field-lt (flags_to_hashloop flags)) h,
    )
