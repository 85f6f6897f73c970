-- ===== src/Cache/Found.antt =====
-- Whatever files, sysconf and CPUID say, the sizes that arch/jitterentropy-arch-cache.c finds are
-- words of 64 bits.
use jitterentropy_library.Prelude.{
  ℕ, zero, suc, ◌+◌, ◌*◌, ◌-◌, ◌/◌, ◌^◌, ◌<◌, ◌≡◌, arith, Bool, true, false, if◌then◌else◌, ltb,
  leb, ◌==◌, ◌&&◌, ◌||◌, not, Option, none, some, List, ◌∷◌, bit_and, u64,
}
use jitterentropy_library.Decimal.{strtol, out_of_range}
use jitterentropy_library.Cache.{Sizes, Cached, no_sizes, uint64_max}
use jitterentropy_library.Cache.Registers.{
  CpuidAnswer, note_level, cpuid_size, note_cpuid, cpuid_subleaves, cache_sizes_cpuid_leaf,
  cache_sizes_cpuid,
}
use jitterentropy_library.Cache.Files.{
  Sysfs, read_sysfs_attr, parse_cache_size, parse_cache_level, scaled, cut_at, keep_largest,
  note_size, note_cache, walk_caches, walk_cpus, get_cachesize_sysfs, cache_type_is_data,
  cache_sizes_merge, complete, is_incomplete, get_cachesize_uncached,
}
use jitterentropy_library.Cache.Roundup.{AreWords}
use jitterentropy_library.Cache.Kept.{AreRoundups, cache_size_roundup-AreRoundups}

-- A choice between two results that both have a property.
either : {A : Type 0} (P : A → Type 0) (b : Bool) (x y : A) → P x → P y → P (if b then x else y)
either P true x y p q = p
either P false x y p q = q

-- Likewise where something is there or not.
maybe :
    {A B : Type 0} (P : B → Type 0) (o : Option A) (x : B) (f : A → B)
    → P x
    → ((a : A) → P (f a))
    → P (elim o [ none ↦ x | some a ↦ f a ])
maybe P none x f p q = p
maybe P (some a) x f p q = q a

note_level-AreWords :
    (level : ℕ) (holds_data : Bool) (size : ℕ) (sizes : Sizes)
    → size < 2 ^ 64
    → AreWords sizes
    → AreWords (note_level level holds_data size sizes)
unfolding note_level
note_level-AreWords level holds_data size sizes small h =
    either AreWords _ (record sizes { l1 = size }) _ (small, h.1, h.2)
      (either AreWords _ (record sizes { l2 = size }) _ (h.0, small, h.2)
        (either AreWords _ (record sizes { l3 = size }) sizes (h.0, h.1, small) h))

note_cpuid-AreWords :
    (answer : CpuidAnswer) (sizes : Sizes) → AreWords sizes → AreWords (note_cpuid answer sizes)
unfolding note_cpuid cpuid_size
note_cpuid-AreWords answer sizes h =
    let level = bit_and (answer.eax / 2 ^ 5) 7 in
    let holds_data = bit_and answer.eax 0x1f == 1 in
    either AreWords
      (not holds_data && not (bit_and answer.eax 0x1f == 3) || answer.ecx == 0xffffffff) sizes
      (note_level level holds_data (cpuid_size answer) sizes) h
      (note_level-AreWords level holds_data (cpuid_size answer) sizes (omega arith) h)

cpuid_subleaves-AreWords :
    (cpuid : ℕ → ℕ → Option CpuidAnswer) (leaf left sub : ℕ) (sizes : Sizes)
    → AreWords sizes
    → AreWords (cpuid_subleaves cpuid leaf left sub sizes)
unfolding cpuid_subleaves
cpuid_subleaves-AreWords cpuid leaf zero sub sizes h = h
cpuid_subleaves-AreWords cpuid leaf (suc left) sub sizes h =
    maybe AreWords (cpuid leaf sub) sizes
      (λ answer.
        if bit_and answer.eax 0x1f == 0
        then sizes
        else cpuid_subleaves cpuid leaf left (sub + 1) (note_cpuid answer sizes))
      h
      λ answer.
        either AreWords (bit_and answer.eax 0x1f == 0) sizes
          (cpuid_subleaves cpuid leaf left (sub + 1) (note_cpuid answer sizes)) h
          (cpuid_subleaves-AreWords cpuid leaf left (sub + 1) (note_cpuid answer sizes)
            (note_cpuid-AreWords answer sizes h))

cache_sizes_cpuid-AreWords :
    (cpuid : ℕ → ℕ → Option CpuidAnswer) → AreWords (cache_sizes_cpuid cpuid)
unfolding cache_sizes_cpuid cache_sizes_cpuid_leaf
cache_sizes_cpuid-AreWords cpuid =
    either AreWords _ _ _ (cpuid_subleaves-AreWords cpuid 0x8000001d 16 0 no_sizes (omega arith))
      (cpuid_subleaves-AreWords cpuid 4 16 0 no_sizes (omega arith))

-- A word, if anything.
IsWord : Option ℕ → Type 0
IsWord none = Unit
IsWord (some n) = n < 2 ^ 64

scaled-IsWord : (text : List ℕ) (shift : ℕ) → IsWord (scaled text shift)
unfolding scaled IsWord
scaled-IsWord text shift =
    let n = strtol text in
    either IsWord
      (out_of_range n
        || not n.converted
        || n.negative
        || n.magnitude == 0
        || n.magnitude == 2 ^ 63 - 1
        || ltb (uint64_max / 2 ^ shift) n.magnitude)
      none (some (u64 (n.magnitude * 2 ^ shift))) tt (omega arith)

parse_cache_size-IsWord :
    (text : List ℕ) (rlen buflen : ℕ) → IsWord (parse_cache_size text rlen buflen)
unfolding parse_cache_size IsWord
parse_cache_size-IsWord text rlen buflen =
    either IsWord (leb buflen rlen) none _ tt (suffixed (cut_at b'K' text) (cut_at b'M' text))
  where
    suffixed :
        (k m : Option (List ℕ))
        → IsWord (elim k [
          | some before ↦ scaled before 10
          | none ↦ elim m [ some before ↦ scaled before 20 | none ↦ scaled text 0 ]
        ])
    suffixed (some before) m = scaled-IsWord before 10
    suffixed none (some before) = scaled-IsWord before 20
    suffixed none none = scaled-IsWord text 0

keep_largest-AreWords :
    (level size : ℕ) (sizes : Sizes)
    → size < 2 ^ 64
    → AreWords sizes
    → AreWords (keep_largest level size sizes)
unfolding keep_largest
keep_largest-AreWords level size sizes small h =
    either AreWords _ (record sizes { l1 = size }) _ (small, h.1, h.2)
      (either AreWords _ (record sizes { l2 = size }) _ (h.0, small, h.2)
        (either AreWords _ (record sizes { l3 = size }) sizes (h.0, h.1, small) h))

module _ (sysfs : Sysfs) where
  note_size-AreWords :
      (cpu idx level : ℕ) (sizes : Sizes)
      → AreWords sizes
      → AreWords (note_size sysfs cpu idx level sizes)
  unfolding note_size IsWord
  note_size-AreWords cpu idx level sizes h =
      maybe AreWords (read_sysfs_attr (sysfs.size cpu idx)) sizes
        (λ read. elim (parse_cache_size read.1 read.0 32) [
          | none ↦ sizes
          | some size ↦ keep_largest level size sizes
        ])
        h
        (λ read.
          kept (parse_cache_size read.1 read.0 32) (parse_cache_size-IsWord read.1 read.0 32))
    where
      kept :
          (o : Option ℕ)
          → IsWord o
          → AreWords (elim o [ none ↦ sizes | some size ↦ keep_largest level size sizes ])
      kept none w = h
      kept (some size) w = keep_largest-AreWords level size sizes w h

  note_cache-AreWords :
      (cpu idx : ℕ) (sizes : Sizes) → AreWords sizes → AreWords (note_cache sysfs cpu idx sizes)
  unfolding note_cache
  note_cache-AreWords cpu idx sizes h =
      maybe AreWords (read_sysfs_attr (sysfs.level cpu idx)) sizes
        (λ read. elim (parse_cache_level read.1) [
          | none ↦ sizes
          | some level ↦ note_size sysfs cpu idx level sizes
        ])
        h
        λ read.
          maybe AreWords (parse_cache_level read.1) sizes
            (λ level. note_size sysfs cpu idx level sizes) h
            (λ level. note_size-AreWords cpu idx level sizes h)

  walk_caches-AreWords :
      (cpu left idx : ℕ) (sizes : Sizes)
      → AreWords sizes
      → AreWords (walk_caches sysfs cpu left idx sizes)
  unfolding walk_caches
  walk_caches-AreWords cpu zero idx sizes h = h
  walk_caches-AreWords cpu (suc left) idx sizes h =
      let noted = λ (text : List ℕ).
        if cache_type_is_data text then note_cache sysfs cpu idx sizes else sizes in
      maybe AreWords (read_sysfs_attr (sysfs.cache_type cpu idx)) sizes
        (λ read. walk_caches sysfs cpu left (idx + 1) (noted read.1)) h
        λ read. walk_caches-AreWords cpu left (idx + 1) (noted read.1) (
          either AreWords (cache_type_is_data read.1) (note_cache sysfs cpu idx sizes) sizes
            (note_cache-AreWords cpu idx sizes h) h)

  walk_cpus-AreWords :
      (conf left cpu : ℕ) (sizes : Sizes)
      → AreWords sizes
      → AreWords (walk_cpus sysfs conf left cpu sizes)
  unfolding walk_cpus
  walk_cpus-AreWords conf zero cpu sizes h = h
  walk_cpus-AreWords conf (suc left) cpu sizes h = either AreWords _ sizes _ h (
      walk_cpus-AreWords conf left (cpu + 1) (walk_caches sysfs cpu 16 0 sizes)
        (walk_caches-AreWords cpu 16 0 sizes h))

  get_cachesize_sysfs-AreWords :
      (ncpu_set_max conf : ℕ) → AreWords (get_cachesize_sysfs sysfs ncpu_set_max conf)
  unfolding get_cachesize_sysfs
  get_cachesize_sysfs-AreWords ncpu_set_max conf =
      walk_cpus-AreWords _ ncpu_set_max 0 no_sizes (omega arith)

-- Every level comes from one of two.
joined-AreWords :
    (a b c : Bool) (x y : Sizes)
    → AreWords x
    → AreWords y
    → AreWords (record {
      l1 = if a then x.l1 else y.l1;
      l2 = if b then x.l2 else y.l2;
      l3 = if c then x.l3 else y.l3;
    })
joined-AreWords a b c x y h k = (
  either (λ n. n < 2 ^ 64) a x.l1 y.l1 h.0 k.0,
  either (λ n. n < 2 ^ 64) b x.l2 y.l2 h.1 k.1,
  either (λ n. n < 2 ^ 64) c x.l3 y.l3 h.2 k.2,
)

get_cachesize_uncached-AreWords :
    (sysfs : Sysfs) (ncpu_set_max conf : ℕ) (sysconf : Sizes) (cpuid : ℕ → ℕ → Option CpuidAnswer)
    → AreWords sysconf
    → AreWords (get_cachesize_uncached sysfs ncpu_set_max conf sysconf cpuid)
unfolding get_cachesize_uncached cache_sizes_merge complete
get_cachesize_uncached-AreWords sysfs ncpu_set_max conf sysconf cpuid h =
    let scanned = get_cachesize_sysfs sysfs ncpu_set_max conf in
    let merged = if is_incomplete scanned then cache_sizes_merge scanned sysconf else scanned in
    let found = get_cachesize_sysfs-AreWords sysfs ncpu_set_max conf in
    let fits : AreWords merged =
      either AreWords (is_incomplete scanned) (cache_sizes_merge scanned sysconf) scanned
        (joined-AreWords _ _ _ sysconf scanned h found) found in
    either AreWords (is_incomplete merged) (complete merged (cache_sizes_cpuid cpuid)) merged
      (joined-AreWords _ _ _ (cache_sizes_cpuid cpuid) merged (cache_sizes_cpuid-AreWords cpuid)
        fits)
      fits

-- On Linux with CPUID, whatever sysfs, sysconf and CPUID say: from the first call on, whatever is
-- asked and whatever a discovery would find later, every call gives the size for the caches that
-- the first discovery finds, which is nothing if they add up to nothing, and else the least power of
-- two above the first level, or above the sum of the three levels, but 2^63 at most.
pub get_cachesize_uncached-AreRoundups :
    (sysfs : Sysfs) (ncpu_set_max conf : ℕ) (sysconf : Sizes) (cpuid : ℕ → ℕ → Option CpuidAnswer)
    (cached : Cached) (all : Bool) (calls : List (Sizes × Bool))
    → AreWords sysconf
    → cached.valid ≡ false
    → let sizes = get_cachesize_uncached sysfs ncpu_set_max conf sysconf cpuid in
      AreRoundups sizes cached ((sizes, all) ∷ calls)
get_cachesize_uncached-AreRoundups sysfs ncpu_set_max conf sysconf cpuid cached all calls h
      invalid =
    cache_size_roundup-AreRoundups (get_cachesize_uncached sysfs ncpu_set_max conf sysconf cpuid)
      cached all calls (get_cachesize_uncached-AreWords sysfs ncpu_set_max conf sysconf cpuid h)
      invalid
