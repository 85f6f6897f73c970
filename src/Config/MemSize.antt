-- ===== src/Config/MemSize.antt =====
-- The memory size in the flags, src/jitterentropy-base.c.
use Prim.Native.Nat.{bit_or-bitwise}
use jitterentropy_library.Prelude.{ℕ, ◌+◌, ◌*◌, ◌/◌, ◌^◌, ◌≤◌, ◌<◌, ◌≡◌, refl, arith, Bool, true}
use jitterentropy_library.Prelude.{
  bit_and, bit_or, min, u32, ◌==◌, ◌∙◌, ap, bit_and-zero, leb, ◌||◌,
}
use jitterentropy_library.Prelude.{all_below, all_below_sound, ltb, if◌then◌else◌, ◌&&◌, ◌-◌}
use jitterentropy_library.Prelude.Shifts.{shift-bit_or, shift-bit_and}
use jitterentropy_library.Config.{
  flags_to_max_memsize, set_memsize, next_memsize_field, update_memsize, size_of_field,
  jent_memsize,
}

zero-bit_or : (b : ℕ) → bit_or 0 b ≡ b
zero-bit_or b = simp bit_or-bitwise refl

-- The field that is written is the one that is read.
flags_to_max_memsize-set_memsize :
    (flags v : ℕ) → v < 32 → flags_to_max_memsize (set_memsize flags v) ≡ v
unfolding set_memsize
flags_to_max_memsize-set_memsize flags v h =
    shift-bit_or 27 (bit_and flags 134217727) (u32 (v * 2 ^ 27))
    ∙ (rw (shift-bit_and 27 flags 134217727, bit_and-zero (flags / 2 ^ 27))
        (omega (arith, zero-bit_or (u32 (v * 2 ^ 27) / 2 ^ 27))))

next_field-lt :
    (cache_size : Bool → ℕ) (flags inc : ℕ) → next_memsize_field cache_size flags inc < 21
unfolding next_memsize_field
next_field-lt cache_size flags inc = ground arith

size_of_field-next :
    (field : ℕ)
    → field < 32
    → 0 < field
    → size_of_field (if ltb 20 (field + 1) then 20 else field + 1)
      ≡ min (2 ^ 29) (2 * size_of_field field)
unfolding size_of_field all_below
size_of_field-next field h positive = ground (
  arith,
  all_below_sound 32
      (λ x.
        x == 0
        || size_of_field (if ltb 20 (x + 1) then 20 else x + 1)
          == min (2 ^ 29) (2 * size_of_field x))
      field refl h,
)

next_field-set :
    (cache_size : Bool → ℕ) (flags : ℕ)
    → flags < 2 ^ 32
    → 0 < flags_to_max_memsize flags
    → next_memsize_field cache_size flags 1
      ≡ (if ltb 20 (flags_to_max_memsize flags + 1) then 20 else flags_to_max_memsize flags + 1)
unfolding next_memsize_field
next_field-set cache_size flags h set = ground arith

-- One step of the ladder doubles the memory size that the flags select, up to 2 ^ 29 bytes, when
-- the flags are a 32-bit word with a memory size; what the caches hold plays no part then.
pub jent_memsize-update_memsize :
    (cache_size : Bool → ℕ) (flags : ℕ)
    → flags < 2 ^ 32
    → 0 < flags_to_max_memsize flags
    → jent_memsize (update_memsize cache_size flags 1) ≡ min (2 ^ 29) (2 * jent_memsize flags)
unfolding jent_memsize update_memsize
jent_memsize-update_memsize cache_size flags h set =
    let written =
      flags_to_max_memsize-set_memsize flags (next_memsize_field cache_size flags 1)
        (omega (arith, next_field-lt cache_size flags 1)) in
    ap size_of_field (written ∙ next_field-set cache_size flags h set)
    ∙ size_of_field-next (flags_to_max_memsize flags) (omega arith) set

sizes :
    (field : ℕ)
    → field < 32
    → ((leb (2 ^ 10) (size_of_field field) && leb (size_of_field field) (2 ^ 29))
        && bit_and (size_of_field field) (size_of_field field - 1) == 0)
      ≡ true
unfolding size_of_field all_below
sizes field h =
    all_below_sound 32
      (λ x.
        ((leb (2 ^ 10) (size_of_field x) && leb (size_of_field x) (2 ^ 29))
          && bit_and (size_of_field x) (size_of_field x - 1) == 0))
      field refl h

-- The memory size of a 32-bit word of flags is between 2 ^ 10 and 2 ^ 29 bytes, and it shares no
-- bit with its predecessor: it is a power of two, so that its predecessor is an index mask.
pub jent_memsize_lem :
    (flags : ℕ)
    → flags < 2 ^ 32
    → (2 ^ 10 ≤ jent_memsize flags)
      × (jent_memsize flags ≤ 2 ^ 29)
      × (bit_and (jent_memsize flags) (jent_memsize flags - 1) ≡ 0)
unfolding jent_memsize
jent_memsize_lem flags h = ground (arith, sizes (flags_to_max_memsize flags) (omega arith))

-- The flags of a collector with memory select a size within the bounds, whatever they were.
pub update_memsize_bounds :
    (cache_size : Bool → ℕ) (flags inc : ℕ)
    → let size = jent_memsize (update_memsize cache_size flags inc) in
      (2 ^ 10 ≤ size) × (size ≤ 2 ^ 29) × (bit_and size (size - 1) ≡ 0)
unfolding jent_memsize update_memsize
update_memsize_bounds cache_size flags inc =
    let below = next_field-lt cache_size flags inc in
    rw
      (flags_to_max_memsize-set_memsize flags (next_memsize_field cache_size flags inc)
        (omega (arith, below)))
      (ground (arith, sizes (next_memsize_field cache_size flags inc) (omega (arith, below))))
