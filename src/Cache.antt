-- ===== src/Cache.antt =====
-- The sizes of the data caches, arch/jitterentropy-arch-cache.c: what is made of them here, and the
-- backends that find them in Registers (CPUID and the cache ID registers) and Files (sysfs, and the
-- choice between the backends on Linux).
--
-- The instructions, the files and sysconf are parameters. The record `Cached` stands for the static
-- variables of `jent_cache_size_roundup`.
pub mod Registers
pub mod Files
pub mod Roundup
pub mod Kept
pub mod Words
pub mod Largest
pub mod Found
use jitterentropy_library.Prelude.{
  ℕ, zero, suc, ◌+◌, ◌-◌, ◌*◌, ◌/◌, ◌^◌, Bool, true, false, if◌then◌else◌, ltb, leb, ◌==◌, bit_or,
  u64, u32,
}

abbrev pub uint64_max : ℕ
uint64_max = 2 ^ 64 - 1

-- The sizes of the three levels in bytes, each 0 when it is not known.
pub record Sizes : Type 0 where
  pub l1 : ℕ
  pub l2 : ℕ
  pub l3 : ℕ

abbrev pub no_sizes : Sizes
no_sizes = record { l1 = 0; l2 = 0; l3 = 0 }

unfoldable pub cache_size_add : ℕ → ℕ → ℕ
cache_size_add sum size = if ltb (uint64_max - sum) size then uint64_max else sum + size

-- `sum |= sum >> n`
abbrev pub spread : ℕ → ℕ → ℕ
spread n sum = bit_or sum (sum / 2 ^ n)

unfoldable pub cache_roundup_from_sizes : Sizes → Bool → ℕ
unfolding cache_size_add
cache_roundup_from_sizes sizes all_caches =
    let sum =
      if all_caches then cache_size_add (cache_size_add sizes.l1 sizes.l2) sizes.l3 else sizes.l1 in
    if sum == 0
    then 0
    else if leb (2 ^ 63) sum
    then 2 ^ 63
    else u64 (spread 32 (spread 16 (spread 8 (spread 4 (spread 2 (spread 1 sum))))) + 1)

-- `while (size >>= 1) bits++`, at most `fuel` rounds.
unfoldable pub size_bits_loop : ℕ → ℕ → ℕ → ℕ
size_bits_loop zero size bits = bits
size_bits_loop (suc fuel) size bits =
    let rest = size_bits_loop fuel (size / 2) (u32 (bits + 1)) in
    if size / 2 == 0 then bits else rest

-- A word has 64 bits.
unfoldable pub cache_size_bits : ℕ → ℕ
unfolding size_bits_loop
cache_size_bits size = size_bits_loop 64 size 0

-- The two exponents, for the first level and for all, once they are valid.
pub record Cached : Type 0 where
  pub first : ℕ
  pub all : ℕ
  pub valid : Bool

-- `discovered` is what the backend finds when it is asked.
unfoldable pub fill_cached : Sizes → Cached → Cached
unfolding cache_size_bits cache_roundup_from_sizes
fill_cached discovered cached = if cached.valid then cached else record {
  first = cache_size_bits (cache_roundup_from_sizes discovered false);
  all = cache_size_bits (cache_roundup_from_sizes discovered true);
  valid = true;
}

unfoldable pub cache_size_roundup : Sizes → Bool → Cached → ℕ × Cached
unfolding fill_cached
cache_size_roundup discovered all_caches cached =
    let filled = fill_cached discovered cached in
    let bits = if all_caches then filled.all else filled.first in
    (if bits == 0 then 0 else u64 (2 ^ bits), filled)
