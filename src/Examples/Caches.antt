-- ===== src/Examples/Caches.antt =====
-- The sizes of caches, at concrete trees and registers.
use jitterentropy_library.Prelude.{
  not, ◌&&◌, ◌||◌, ◌==◌, ◌+◌, ◌*◌, ◌/◌, ◌^◌, ◌<◌, ◌≡◌, refl, arith, true, false, none, some, [],
  ◌∷◌, if◌then◌else◌, bit_and, ltb,
}
use jitterentropy_library.Cache.{Sizes, Cached}
use jitterentropy_library.Cache.Registers.{CpuidAnswer, note_level, note_cpuid, arm64_size}
use jitterentropy_library.Cache.Files.{Sysfs, get_cachesize_uncached}
use jitterentropy_library.Cache.Kept.{AreRoundups}
use jitterentropy_library.Cache.Found.{get_cachesize_uncached-AreRoundups}
use jitterentropy_library.Cache.Words.{note_cpuid-arm64_size}

-- Two CPUs with a first level of 32 and 48 KiB, and one broken attribute.
abbrev sysfs : Sysfs
sysfs = record {
  cache_type = λ cpu idx. if ltb idx 2 then some (b'D' ∷ b'a' ∷ b't' ∷ b'a' ∷ []) else none;
  level = λ cpu idx. some (if ltb idx 1 then b'1' ∷ [] else b'x' ∷ []);
  size = λ cpu idx. some (if ltb cpu 1 then b'3' ∷ b'2' ∷ b'K' ∷ [] else b'4' ∷ b'8' ∷ b'K' ∷ []);
  present = λ cpu. false;
}

abbrev answer : CpuidAnswer
answer = record { eax = 0x43; ebx = 0x01c0003f; ecx = 2047 }

abbrev sysconf : Sizes
sysconf = record { l1 = 0; l2 = 1048576; l3 = 0 }

abbrev found : Sizes
found = get_cachesize_uncached sysfs 4 2 sysconf (λ leaf sub. some answer)

found_sizes : found ≡ (record { l1 = 49152; l2 = 1048576; l3 = 0 })
unfolding get_cachesize_uncached
found_sizes = refl

abbrev unset : Cached
unset = record { first = 0; all = 0; valid = false }

get_cachesize_uncached-AreRoundups_example :
    AreRoundups found unset ((found, true) ∷ (sysconf, false) ∷ (found, true) ∷ [])
get_cachesize_uncached-AreRoundups_example =
    get_cachesize_uncached-AreRoundups sysfs 4 2 sysconf (λ leaf sub. some answer) unset true
      ((sysconf, false) ∷ (found, true) ∷ []) (omega arith) refl

abbrev none_yet : Sizes
none_yet = record { l1 = 0; l2 = 0; l3 = 0 }

note_cpuid-arm64_size_example :
    (note_cpuid answer none_yet ≡ (
      if ((bit_and answer.eax 0x1f == 1) || (bit_and answer.eax 0x1f == 3))
        && not (answer.ecx == 0xffffffff)
      then note_level
          (bit_and (answer.eax / 2 ^ 5) 0x7)
          (bit_and answer.eax 0x1f == 1)
          ((bit_and (answer.ebx / 2 ^ 22) 0x3ff + 1)
            * (bit_and (answer.ebx / 2 ^ 12) 0x3ff + 1)
            * (bit_and answer.ebx 0xfff + 1)
            * (answer.ecx + 1))
          none_yet
      else none_yet))
    × (arm64_size true 0x700ff1a
        ≡ 2 ^ (bit_and 0x700ff1a 0x7 + 4)
          * (bit_and (0x700ff1a / 2 ^ 3) 0x1fffff + 1)
          * (bit_and (0x700ff1a / 2 ^ 32) 0xffffff + 1))
    × (arm64_size true 0x700ff1a < 2 ^ 57)
note_cpuid-arm64_size_example = note_cpuid-arm64_size answer none_yet true 0x700ff1a (omega arith)
