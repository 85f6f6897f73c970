-- ===== src/Cache/Registers.antt =====
-- The backends of arch/jitterentropy-arch-cache.c that read registers: CPUID on x86, and the cache
-- ID registers of AArch64.
use jitterentropy_library.Prelude.{
  ℕ, zero, suc, ◌+◌, ◌-◌, ◌*◌, ◌/◌, ◌^◌, Bool, true, not, Option, none, some, if◌then◌else◌, ltb,
  ◌==◌, ◌&&◌, ◌||◌, bit_and, u64,
}
use jitterentropy_library.Cache.{Sizes, no_sizes}

-- What CPUID gives; EDX is not used.
pub record CpuidAnswer : Type 0 where
  pub eax : ℕ
  pub ebx : ℕ
  pub ecx : ℕ

abbrev pub cpuid_leaf_cache : ℕ
cpuid_leaf_cache = 4

abbrev pub cpuid_leaf_cache_ext : ℕ
cpuid_leaf_cache_ext = 0x8000001d

-- The first size found at a level stays. `holds_data` is that it can be taken for the first level.
unfoldable pub note_level : ℕ → Bool → ℕ → Sizes → Sizes
note_level level holds_data size sizes =
    if level == 1 && holds_data && sizes.l1 == 0
    then record sizes { l1 = size }
    else if level == 2 && sizes.l2 == 0
    then record sizes { l2 = size }
    else if level == 3 && sizes.l3 == 0
    then record sizes { l3 = size }
    else sizes

-- The product of the ways, the partitions, the line size and the sets.
unfoldable pub cpuid_size : CpuidAnswer → ℕ
cpuid_size answer =
    let ways = bit_and (answer.ebx / 2 ^ 22) 0x3ff + 1 in
    let partitions = bit_and (answer.ebx / 2 ^ 12) 0x3ff + 1 in
    let line_size = bit_and answer.ebx 0xfff + 1 in
    let sets = answer.ecx + 1 in u64 (u64 (u64 (ways * partitions) * line_size) * sets)

-- A subleaf that describes a cache.
unfoldable pub note_cpuid : CpuidAnswer → Sizes → Sizes
unfolding note_level cpuid_size
note_cpuid answer sizes =
    let cache_type = bit_and answer.eax 0x1f in
    let cache_level = bit_and (answer.eax / 2 ^ 5) 0x7 in
    if not (cache_type == 1) && not (cache_type == 3) || answer.ecx == 0xffffffff
    then sizes
    else note_level cache_level (cache_type == 1) (cpuid_size answer) sizes

module _ (cpuid : ℕ → ℕ → Option CpuidAnswer) where
  -- The subleaves from `sub` on, `left` of them.
  unfoldable pub cpuid_subleaves : ℕ → ℕ → ℕ → Sizes → Sizes
  unfolding note_cpuid
  cpuid_subleaves leaf zero sub sizes = sizes
  cpuid_subleaves leaf (suc left) sub sizes = elim (cpuid leaf sub) [
    | none ↦ sizes
    | some answer ↦
        let rest = cpuid_subleaves leaf left (sub + 1) (note_cpuid answer sizes) in
        if bit_and answer.eax 0x1f == 0 then sizes else rest
  ]

  unfoldable pub cache_sizes_cpuid_leaf : ℕ → Sizes
  unfolding cpuid_subleaves
  cache_sizes_cpuid_leaf leaf = cpuid_subleaves leaf 16 0 no_sizes

  unfoldable pub cache_sizes_cpuid : Sizes
  unfolding cache_sizes_cpuid_leaf
  cache_sizes_cpuid =
      let intel = cache_sizes_cpuid_leaf cpuid_leaf_cache in
      if intel.l1 == 0 && intel.l2 == 0 && intel.l3 == 0
      then cache_sizes_cpuid_leaf cpuid_leaf_cache_ext
      else intel

abbrev pub cache_arm64_min : ℕ
cache_arm64_min = 4096

-- The size that CCSIDR_EL1 gives, with the wider fields of FEAT_CCIDX or without.
unfoldable pub arm64_size : Bool → ℕ → ℕ
arm64_size ccidx ccsidr =
    let line = bit_and ccsidr 0x7 in
    let assoc = bit_and (ccsidr / 2 ^ 3) (if ccidx then 0x1fffff else 0x3ff) + 1 in
    let sets =
      (if ccidx then bit_and (ccsidr / 2 ^ 32) 0xffffff else bit_and (ccsidr / 2 ^ 13) 0x7fff)
      + 1 in
    u64 (u64 (2 ^ (line + 4) * assoc) * sets)

module _ (clidr : ℕ) (ccidx : Bool) (ccsidr_fn : ℕ → ℕ) where
  unfoldable pub note_arm64 : ℕ → ℕ → Sizes → Sizes
  unfolding note_level arm64_size
  note_arm64 level ctype sizes =
      let size = arm64_size ccidx (ccsidr_fn level) in
      if not (ctype == 2) && not (ctype == 3) && not (ctype == 4) || ltb size cache_arm64_min
      then sizes
      else note_level level true size sizes

  -- The levels from `level` on, `left` of them.
  unfoldable pub arm64_levels : ℕ → ℕ → Sizes → Sizes
  unfolding note_arm64
  arm64_levels zero level sizes = sizes
  arm64_levels (suc left) level sizes =
      let ctype = bit_and (clidr / 2 ^ (3 * (level - 1))) 0x7 in
      let rest = arm64_levels left (level + 1) (note_arm64 level ctype sizes) in
      if ctype == 0 then sizes else rest

  unfoldable pub cache_sizes_arm64 : Sizes
  unfolding arm64_levels
  cache_sizes_arm64 = arm64_levels 7 1 no_sizes
