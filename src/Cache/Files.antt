-- ===== src/Cache/Files.antt =====
-- The sysfs backend of arch/jitterentropy-arch-cache.c, and the order of the backends on Linux with
-- CPUID.
use jitterentropy_library.Prelude.{
  ℕ, zero, suc, ◌+◌, ◌-◌, ◌*◌, ◌/◌, ◌^◌, Bool, true, false, not, Option, none, some, List, [], ◌∷◌,
  if◌then◌else◌, ltb, leb, ◌==◌, ◌&&◌, ◌||◌, take, length, u64,
}
use jitterentropy_library.Decimal.{strtol, out_of_range}
use jitterentropy_library.Cache.{Sizes, no_sizes, uint64_max}
use jitterentropy_library.Cache.Registers.{CpuidAnswer, cache_sizes_cpuid}

-- The text in a buffer: what stands before its zero byte.
unfoldable pub text_of : List ℕ → List ℕ
text_of [] = []
text_of (c ∷ buf) = let rest = text_of buf in if c == 0 then [] else c ∷ rest

-- `!strncmp(buf, word, strlen(word))`
unfoldable pub has_prefix : List ℕ → List ℕ → Bool
has_prefix [] text = true
has_prefix (w ∷ word) [] = false
has_prefix (w ∷ word) (c ∷ text) = w == c && has_prefix word text

-- What stands before the first `c`, if there is one.
unfoldable pub cut_at : ℕ → List ℕ → Option (List ℕ)
cut_at c [] = none
cut_at c (d ∷ text) =
    let rest : Option (List ℕ) = elim (cut_at c text) [
      | none ↦ none
      | some before ↦ some (d ∷ before)
    ] in
    if d == c then some [] else rest

unfoldable pub cache_type_is_data : List ℕ → Bool
unfolding has_prefix
cache_type_is_data text =
    has_prefix (b'D' ∷ b'a' ∷ b't' ∷ b'a' ∷ []) text
    || has_prefix (b'U' ∷ b'n' ∷ b'i' ∷ b'f' ∷ b'i' ∷ b'e' ∷ b'd' ∷ []) text

unfoldable pub parse_cache_level : List ℕ → Option ℕ
unfolding strtol out_of_range
parse_cache_level text =
    let n = strtol text in
    if out_of_range n || not n.converted || n.negative || ltb n.magnitude 1
    then none
    else some n.magnitude

-- The number in a text, times a power of two.
unfoldable pub scaled : List ℕ → ℕ → Option ℕ
unfolding strtol out_of_range
scaled text shift =
    let n = strtol text in
    if out_of_range n
      || not n.converted
      || n.negative
      || n.magnitude == 0
      || n.magnitude == 2 ^ 63 - 1
      || ltb (uint64_max / 2 ^ shift) n.magnitude
    then none
    else some (u64 (n.magnitude * 2 ^ shift))

-- `rlen` bytes were read, into a buffer of `buflen`.
unfoldable pub parse_cache_size : List ℕ → ℕ → ℕ → Option ℕ
unfolding cut_at scaled
parse_cache_size text rlen buflen = if leb buflen rlen then none else elim (cut_at b'K' text) [
  | some before ↦ scaled before 10
  | none ↦ elim (cut_at b'M' text) [ some before ↦ scaled before 20 | none ↦ scaled text 0 ]
]

-- The tree below /sys/devices/system/cpu by the number of a CPU and of a cache: what a read of an
-- attribute gives (`none` where it fails), and whether the directory of a CPU is there.
pub record Sysfs : Type 0 where
  pub cache_type : ℕ → ℕ → Option (List ℕ)
  pub level : ℕ → ℕ → Option (List ℕ)
  pub size : ℕ → ℕ → Option (List ℕ)
  pub present : ℕ → Bool

abbrev pub attr_buflen : ℕ
attr_buflen = 32

-- The number of bytes that were read and the text, if a byte was; the last of the buffer is cleared.
unfoldable pub read_sysfs_attr : Option (List ℕ) → Option (ℕ × List ℕ)
unfolding text_of
read_sysfs_attr none = none
read_sysfs_attr (some []) = none
read_sysfs_attr (some (c ∷ content)) =
    let buf = take attr_buflen (c ∷ content) in
    some (length buf, text_of (take (attr_buflen - 1) buf))

-- The largest size at a level stays.
unfoldable pub keep_largest : ℕ → ℕ → Sizes → Sizes
keep_largest level size sizes =
    if level == 1 && ltb sizes.l1 size
    then record sizes { l1 = size }
    else if level == 2 && ltb sizes.l2 size
    then record sizes { l2 = size }
    else if level == 3 && ltb sizes.l3 size
    then record sizes { l3 = size }
    else sizes

module _ (sysfs : Sysfs) where
  -- The size of a cache that holds data, if its attributes can be read.
  unfoldable pub note_size : ℕ → ℕ → ℕ → Sizes → Sizes
  unfolding read_sysfs_attr parse_cache_size keep_largest
  note_size cpu idx level sizes = elim (read_sysfs_attr (sysfs.size cpu idx)) [
    | none ↦ sizes
    | some read ↦ elim (parse_cache_size read.1 read.0 attr_buflen) [
      | none ↦ sizes
      | some size ↦ keep_largest level size sizes
    ]
  ]

  unfoldable pub note_cache : ℕ → ℕ → Sizes → Sizes
  unfolding read_sysfs_attr parse_cache_level note_size
  note_cache cpu idx sizes = elim (read_sysfs_attr (sysfs.level cpu idx)) [
    | none ↦ sizes
    | some read ↦ elim (parse_cache_level read.1) [
      | none ↦ sizes
      | some level ↦ note_size cpu idx level sizes
    ]
  ]

  -- The caches of a CPU from `idx` on, `left` of them.
  unfoldable pub walk_caches : ℕ → ℕ → ℕ → Sizes → Sizes
  unfolding read_sysfs_attr cache_type_is_data note_cache
  walk_caches cpu zero idx sizes = sizes
  walk_caches cpu (suc left) idx sizes = elim (read_sysfs_attr (sysfs.cache_type cpu idx)) [
    | none ↦ sizes
    | some read ↦
        walk_caches cpu left (idx + 1)
          (if cache_type_is_data read.1 then note_cache cpu idx sizes else sizes)
  ]

  -- The CPUs from `cpu` on, `left` of them; `conf` are configured.
  unfoldable pub walk_cpus : ℕ → ℕ → ℕ → Sizes → Sizes
  unfolding walk_caches
  walk_cpus conf zero cpu sizes = sizes
  walk_cpus conf (suc left) cpu sizes =
      let rest = walk_cpus conf left (cpu + 1) (walk_caches cpu 16 0 sizes) in
      if leb conf cpu && not (sysfs.present cpu) then sizes else rest

  -- `ncpu_set_max` is JENT_NCPU_SET_MAX, 2^16 in the source; `conf` is the answer of sysconf, 0 for one
  -- that is not positive.
  unfoldable pub get_cachesize_sysfs : ℕ → ℕ → Sizes
  unfolding walk_cpus
  get_cachesize_sysfs ncpu_set_max conf =
      let configured =
        if conf == 0 then 1 else if ltb ncpu_set_max conf then ncpu_set_max else conf in
      walk_cpus configured ncpu_set_max 0 no_sizes

unfoldable pub cache_sizes_merge : Sizes → Sizes → Sizes
cache_sizes_merge sizes found = record {
  l1 = if ltb sizes.l1 found.l1 then found.l1 else sizes.l1;
  l2 = if ltb sizes.l2 found.l2 then found.l2 else sizes.l2;
  l3 = if ltb sizes.l3 found.l3 then found.l3 else sizes.l3;
}

abbrev pub is_incomplete : Sizes → Bool
is_incomplete sizes = sizes.l1 == 0 || sizes.l2 == 0 || sizes.l3 == 0

-- A level that is known stays.
unfoldable pub complete : Sizes → Sizes → Sizes
complete sizes found = record {
  l1 = if sizes.l1 == 0 then found.l1 else sizes.l1;
  l2 = if sizes.l2 == 0 then found.l2 else sizes.l2;
  l3 = if sizes.l3 == 0 then found.l3 else sizes.l3;
}

-- What Linux on x86 finds. An answer of sysconf that is not positive is 0 here.
unfoldable pub get_cachesize_uncached : Sysfs → ℕ → ℕ → Sizes → (ℕ → ℕ → Option CpuidAnswer) → Sizes
unfolding get_cachesize_sysfs cache_sizes_merge complete cache_sizes_cpuid
get_cachesize_uncached sysfs ncpu_set_max conf sysconf cpuid =
    let scanned = get_cachesize_sysfs sysfs ncpu_set_max conf in
    let merged = if is_incomplete scanned then cache_sizes_merge scanned sysconf else scanned in
    if is_incomplete merged then complete merged (cache_sizes_cpuid cpuid) else merged
