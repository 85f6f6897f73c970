-- ===== src/Cache/Largest.antt =====
-- The discovery of arch/jitterentropy-arch-cache.c on Linux with CPUID: the size of a level against
-- the caches that sysfs describes.
use jitterentropy_library.Prelude.{ℕ, ◌≤◌, true, some, List, ◌≡◌, if◌then◌else◌, ◌==◌}
use jitterentropy_library.Cache.{Sizes}
use jitterentropy_library.Cache.Files.{
  Sysfs, read_sysfs_attr, parse_cache_level, parse_cache_size, cache_type_is_data, attr_buflen,
}

-- Every level has at least the size that it had.
abbrev Grows : Sizes → Sizes → Type 0
Grows s t = (s.l1 ≤ t.l1) × (s.l2 ≤ t.l2) × (s.l3 ≤ t.l3)

-- The size of a level from 1 to 3.
abbrev pub size_at : ℕ → Sizes → ℕ
size_at level sizes = if level == 1 then sizes.l1 else if level == 2 then sizes.l2 else sizes.l3

-- A cache of data, as its attributes describe it.
pub record IsDescribed (sysfs : Sysfs) (cpu idx level size : ℕ) : Type 0 where
  pub type_read : ℕ × List ℕ
  pub level_read : ℕ × List ℕ
  pub size_read : ℕ × List ℕ
  pub has_type : read_sysfs_attr (sysfs.cache_type cpu idx) ≡ some type_read
  pub is_data : cache_type_is_data type_read.1 ≡ true
  pub has_level : read_sysfs_attr (sysfs.level cpu idx) ≡ some level_read
  pub level_parsed : parse_cache_level level_read.1 ≡ some level
  pub has_size : read_sysfs_attr (sysfs.size cpu idx) ≡ some size_read
  pub size_parsed : parse_cache_size size_read.1 size_read.0 attr_buflen ≡ some size

-- The cache directory `idx` of a CPU has a type, whatever it is.
abbrev pub IsListed : Sysfs → ℕ → ℕ → Type 0
IsListed sysfs cpu idx =
    (read : ℕ × List ℕ) × (read_sysfs_attr (sysfs.cache_type cpu idx) ≡ some read)
