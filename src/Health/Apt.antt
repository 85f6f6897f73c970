-- ===== src/Health/Apt.antt =====
-- The adaptive proportion test, src/jitterentropy-health.c.
pub mod Window
use jitterentropy_library.Prelude.{ℕ, ◌+◌, ◌-◌, ◌^◌, true, false, bit_and, bit_or, u32}
use jitterentropy_library.Prelude.{leb, ◌==◌, if◌then◌else◌}
use jitterentropy_library.Collector.{RandData, Apt, apt_failure, apt_failure_permanent}

abbrev pub apt_window_size : ℕ
apt_window_size = 512

-- All ones: no bit of a delta is masked out.
abbrev pub apt_mask : ℕ
apt_mask = 2 ^ 64 - 1

-- A count of zero primes the test at its intermittent cutoff.
unfoldable pub apt_reinit : Apt → ℕ → ℕ → ℕ → Apt
apt_reinit apt current_delta count observations = record apt {
  base = current_delta;
  base_set = true;
  count = if count == 0 then apt.cutoff else count;
  observations = observations;
}

unfoldable pub apt_duplicate : Apt → Apt → Apt
apt_duplicate new old =
    if old.observations == 0 then new else apt_reinit new old.base 0 old.observations

unfoldable pub apt_reset : Apt → Apt
apt_reset apt = record apt { base_set = false }

-- The count and the failure bits, for a value that equals the base.
unfoldable pub apt_count_base : RandData → RandData
apt_count_base ec =
    let count = u32 (ec.apt.count + 1) in
    let apt = record (ec.apt) { count = count } in
    if leb ec.apt.cutoff_permanent count
    then record ec { apt = apt; health_failure = bit_or ec.health_failure apt_failure_permanent }
    else if count == ec.apt.cutoff
    then record ec { apt = apt; health_failure = bit_or ec.health_failure apt_failure }
    else record ec { apt = apt }

-- The observation counter, and the end of a window.
unfoldable pub apt_observe : Apt → Apt
unfolding apt_reset
apt_observe apt =
    let observations = u32 (apt.observations + 1) in
    let counted = record apt { observations = observations } in
    if leb apt_window_size observations then apt_reset counted else counted

unfoldable pub apt_insert : RandData → ℕ → RandData
unfolding apt_reinit apt_count_base apt_observe
apt_insert ec delta =
    let current_delta = bit_and delta apt_mask in
    if ec.apt.base_set
    then (let judged = if current_delta == ec.apt.base then apt_count_base ec else ec in
        record judged { apt = apt_observe judged.apt })
    else record ec { apt = apt_reinit ec.apt current_delta 1 1 }
