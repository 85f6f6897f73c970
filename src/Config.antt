-- ===== src/Config.antt =====
-- The configuration word of a collector: the helpers of src/jitterentropy-base.c that derive the
-- memory size and the hash loop count from the flags, and the ladder's next step of each.
--
-- `cache_size` stands for `jent_cache_size_roundup` and `fips` for `jent_fips_enabled`, which ask
-- the operating system. The target is a 64-bit one, and the tunables have their defaults.
pub mod MemSize
pub mod HashLoop
pub mod Log2
use jitterentropy_library.Prelude.{ℕ, zero, suc, ◌+◌, ◌-◌, ◌*◌, ◌/◌, ◌^◌, Bool, true, false, not}
use jitterentropy_library.Prelude.{◌&&◌, ◌||◌, bit_and, bit_or, u32, ltb, ◌==◌, if◌then◌else◌}
use jitterentropy_library.Prelude.{◌<<<◌, ◌>>>◌}
use jitterentropy_library.Collector.{
  min_osr, disable_memory_access, force_fips, ntg1, cache_all, force_secure_mem,
}

unfoldable pub ensure_osr_is_at_least_minimal : ℕ → ℕ
ensure_osr_is_at_least_minimal current_osr =
    if ltb current_osr min_osr then min_osr else current_osr

-- The loop `while (val >>= 1) idx++` on a 64-bit value.
unfoldable pub log2_loop : ℕ → ℕ → ℕ → ℕ
log2_loop zero val idx = idx
log2_loop (suc fuel) val idx =
    let rest = log2_loop fuel (val / 2) (idx + 1) in if val / 2 == 0 then idx else rest

unfoldable pub log2_simple : ℕ → ℕ
log2_simple val = log2_loop 64 val 0

abbrev pub memsize_shift : ℕ
memsize_shift = 27

abbrev pub max_memsize_offset : ℕ
max_memsize_offset = 9

abbrev pub default_memory_bits : ℕ
default_memory_bits = 18

-- The field of JENT_MAX_MEMSIZE_MAX.
abbrev pub max_memsize_field : ℕ
max_memsize_field = 20

abbrev pub flags_to_max_memsize : ℕ → ℕ
flags_to_max_memsize flags = flags >>> memsize_shift

-- `flags & mask` as a condition.
abbrev pub flag_set : ℕ → ℕ → Bool
flag_set flags mask = not (bit_and flags mask == 0)

-- The field derived from the cache size, when the flags have none.
unfoldable pub auto_memsize : (Bool → ℕ) → ℕ → ℕ
auto_memsize cache_size flags =
    let bits = log2_simple (cache_size (flag_set flags cache_all)) in
    let sized =
      if bits == 0
      then default_memory_bits
      else if flag_set flags cache_all
      then bits
      else bits + 2 in
    let field = if ltb max_memsize_offset sized then sized - max_memsize_offset else 0 in
    if ltb max_memsize_field field then max_memsize_field else field

unfoldable pub set_memsize : ℕ → ℕ → ℕ
set_memsize flags field = bit_or (bit_and flags 0x07ffffff) (u32 (field <<< memsize_shift))

-- The field after an increment of `field`.
unfoldable pub next_memsize_field : (Bool → ℕ) → ℕ → ℕ → ℕ
next_memsize_field cache_size flags inc =
    let field = flags_to_max_memsize flags in
    let wanted = if field == 0 then auto_memsize cache_size flags else u32 (field + inc) in
    if ltb max_memsize_field wanted then max_memsize_field else wanted

unfoldable pub update_memsize : (Bool → ℕ) → ℕ → ℕ → ℕ
update_memsize cache_size flags inc = set_memsize flags (next_memsize_field cache_size flags inc)

unfoldable pub size_of_field : ℕ → ℕ
size_of_field field =
    let clamped = if ltb max_memsize_field field then max_memsize_field else field in
    u32 (1 <<< (if clamped == 0 then default_memory_bits else clamped + max_memsize_offset))

unfoldable pub jent_memsize : ℕ → ℕ
jent_memsize flags = size_of_field (flags_to_max_memsize flags)

abbrev pub hashloop_shift : ℕ
hashloop_shift = 23

-- The field of JENT_MAX_HASHLOOP.
abbrev pub max_hashloop_field : ℕ
max_hashloop_field = 8

abbrev pub hash_loop_default : ℕ
hash_loop_default = 1

abbrev pub flags_to_hashloop : ℕ → ℕ
flags_to_hashloop flags = bit_and (flags >>> hashloop_shift) 0xf

-- The loop that looks for the field covering the default count.
unfoldable pub cover_default : ℕ → ℕ → ℕ
cover_default zero field = field
cover_default (suc fuel) field =
    let rest = cover_default fuel (field + 1) in
    if ltb (1 <<< (field - 1)) hash_loop_default then rest else field

unfoldable pub set_hashloop : ℕ → ℕ → ℕ
set_hashloop flags field =
    bit_or (bit_and flags (2 ^ 32 - 1 - 0xf * 2 ^ 23)) (u32 (field <<< hashloop_shift))

-- The field after an increment of `field`.
unfoldable pub next_hashloop_field : ℕ → ℕ → ℕ
next_hashloop_field field inc =
    let start = if field == 0 && not (inc == 0) then cover_default 32 1 else field in
    let wanted = u32 (start + inc) in
    if ltb max_hashloop_field wanted then max_hashloop_field else wanted

unfoldable pub update_hashloop : ℕ → ℕ → ℕ
update_hashloop flags inc =
    let field = flags_to_hashloop flags in
    let unset = field == 0 && not (inc == 0) in
    if unset && ltb (1 <<< (max_hashloop_field - 1)) hash_loop_default
    then flags
    else set_hashloop flags (next_hashloop_field field inc)

unfoldable pub count_of_field : ℕ → ℕ
count_of_field field =
    let clamped = if ltb max_hashloop_field field then max_hashloop_field else field in
    if clamped == 0 then hash_loop_default else u32 (1 <<< (clamped - 1))

unfoldable pub hashloop_cnt : ℕ → ℕ
hashloop_cnt flags = count_of_field (flags_to_hashloop flags)

unfoldable pub update_secure_mem : Bool → ℕ → ℕ
update_secure_mem fips flags =
    if flag_set flags (bit_or ntg1 force_fips) || fips then bit_or flags force_secure_mem else flags

unfoldable pub memaccess_contradicts : Bool → ℕ → Bool
memaccess_contradicts fips flags =
    flag_set flags disable_memory_access && (flag_set flags (bit_or ntg1 force_fips) || fips)
