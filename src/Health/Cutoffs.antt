-- ===== src/Health/Cutoffs.antt =====
-- The cutoff tables of src/jitterentropy-health.c and the functions that read them.
pub mod Ordered
use jitterentropy_library.Prelude.{ℕ, ◌+◌, ◌-◌, ◌*◌, ◌/◌, List, [], ◌∷◌, get_or, u16}
use jitterentropy_library.Prelude.{if◌then◌else◌, ◌==◌}
use jitterentropy_library.Collector.{Rct, Apt, RctMem, Lag}

abbrev pub lag_global_cutoff_lookup : List ℕ
lag_global_cutoff_lookup =
    66444 ∷ 93505 ∷ 104762 ∷ 110876 ∷ 114708 ∷ 117331 ∷ 119238 ∷ 120687 ∷ 121824 ∷ 122740 ∷ 123494
    ∷ 124125 ∷ 124661 ∷ 125121 ∷ 125521 ∷ 125872 ∷ 126182 ∷ 126458 ∷ 126705 ∷ 126927 ∷ []

abbrev pub lag_global_cutoff_permanent_lookup : List ℕ
lag_global_cutoff_permanent_lookup =
    66877 ∷ 93897 ∷ 105109 ∷ 111189 ∷ 114994 ∷ 117597 ∷ 119487 ∷ 120921 ∷ 122046 ∷ 122952 ∷ 123697
    ∷ 124319 ∷ 124848 ∷ 125302 ∷ 125696 ∷ 126042 ∷ 126347 ∷ 126618 ∷ 126861 ∷ 127080 ∷ []

abbrev pub lag_local_cutoff_lookup : List ℕ
lag_local_cutoff_lookup =
    38 ∷ 75 ∷ 111 ∷ 146 ∷ 181 ∷ 215 ∷ 250 ∷ 284 ∷ 318 ∷ 351 ∷ 385 ∷ 419 ∷ 452 ∷ 485 ∷ 518 ∷ 551
    ∷ 584 ∷ 617 ∷ 650 ∷ 683 ∷ []

abbrev pub lag_local_cutoff_permanent_lookup : List ℕ
lag_local_cutoff_permanent_lookup =
    60 ∷ 119 ∷ 177 ∷ 234 ∷ 291 ∷ 347 ∷ 404 ∷ 460 ∷ 516 ∷ 571 ∷ 627 ∷ 683 ∷ 738 ∷ 793 ∷ 848 ∷ 903
    ∷ 958 ∷ 1013 ∷ 1068 ∷ 1123 ∷ []

abbrev pub apt_cutoff_lookup : List ℕ
apt_cutoff_lookup =
    325 ∷ 422 ∷ 459 ∷ 477 ∷ 488 ∷ 494 ∷ 499 ∷ 502 ∷ 505 ∷ 507 ∷ 508 ∷ 509 ∷ 510 ∷ 511 ∷ 512 ∷ 512
    ∷ 512 ∷ 512 ∷ 512 ∷ 512 ∷ []

abbrev pub apt_cutoff_permanent_lookup : List ℕ
apt_cutoff_permanent_lookup =
    355 ∷ 447 ∷ 479 ∷ 494 ∷ 502 ∷ 507 ∷ 510 ∷ 512 ∷ 512 ∷ 512 ∷ 512 ∷ 512 ∷ 512 ∷ 512 ∷ 512 ∷ 512
    ∷ 512 ∷ 512 ∷ 512 ∷ 512 ∷ []

abbrev pub apt_cutoff_lookup_ntg1 : List ℕ
apt_cutoff_lookup_ntg1 =
    17 ∷ 71 ∷ 136 ∷ 191 ∷ 236 ∷ 272 ∷ 301 ∷ 325 ∷ 345 ∷ 361 ∷ 375 ∷ 388 ∷ 398 ∷ 407 ∷ 415 ∷ 422
    ∷ 429 ∷ 434 ∷ 439 ∷ 444 ∷ []

abbrev pub apt_cutoff_permanent_lookup_ntg1 : List ℕ
apt_cutoff_permanent_lookup_ntg1 =
    26 ∷ 92 ∷ 162 ∷ 221 ∷ 267 ∷ 303 ∷ 332 ∷ 355 ∷ 375 ∷ 390 ∷ 404 ∷ 415 ∷ 425 ∷ 433 ∷ 440 ∷ 447
    ∷ 453 ∷ 458 ∷ 462 ∷ 466 ∷ []

abbrev pub rct_mem_cutoff_lookup : List ℕ
rct_mem_cutoff_lookup =
    107 ∷ 214 ∷ 321 ∷ 428 ∷ 535 ∷ 642 ∷ 749 ∷ 856 ∷ 963 ∷ 1070 ∷ 1177 ∷ 1284 ∷ 1391 ∷ 1498 ∷ 1605
    ∷ 1712 ∷ 1819 ∷ 1926 ∷ 2033 ∷ 2140 ∷ []

abbrev pub rct_mem_cutoff_permanent_lookup : List ℕ
rct_mem_cutoff_permanent_lookup =
    108 ∷ 215 ∷ 322 ∷ 429 ∷ 536 ∷ 643 ∷ 750 ∷ 857 ∷ 964 ∷ 1071 ∷ 1178 ∷ 1285 ∷ 1392 ∷ 1499 ∷ 1606
    ∷ 1713 ∷ 1820 ∷ 1927 ∷ 2034 ∷ 2141 ∷ []

abbrev pub rct_mem_cutoff_lookup_ntg1 : List ℕ
rct_mem_cutoff_lookup_ntg1 =
    4 ∷ 46 ∷ 134 ∷ 255 ∷ 399 ∷ 560 ∷ 733 ∷ 856 ∷ 963 ∷ 1070 ∷ 1177 ∷ 1284 ∷ 1391 ∷ 1498 ∷ 1605
    ∷ 1712 ∷ 1819 ∷ 1926 ∷ 2033 ∷ 2140 ∷ []

abbrev pub rct_mem_cutoff_permanent_lookup_ntg1 : List ℕ
rct_mem_cutoff_permanent_lookup_ntg1 =
    5 ∷ 50 ∷ 142 ∷ 265 ∷ 410 ∷ 572 ∷ 746 ∷ 857 ∷ 964 ∷ 1071 ∷ 1178 ∷ 1285 ∷ 1392 ∷ 1499 ∷ 1606
    ∷ 1713 ∷ 1820 ∷ 1927 ∷ 2034 ∷ 2141 ∷ []

-- `jent_health_init` checks that `osr - 1` is an index of these tables before it calls these.
unfoldable pub lag_init : Lag → ℕ → Lag
lag_init lag osr = record lag {
  global_cutoff = get_or lag_global_cutoff_lookup (osr - 1) 0;
  global_cutoff_permanent = get_or lag_global_cutoff_permanent_lookup (osr - 1) 0;
  local_cutoff = get_or lag_local_cutoff_lookup (osr - 1) 0;
  local_cutoff_permanent = get_or lag_local_cutoff_permanent_lookup (osr - 1) 0;
}

unfoldable pub apt_init : Apt → ℕ → Apt
apt_init apt osr = record apt {
  cutoff = get_or apt_cutoff_lookup (osr - 1) 0;
  cutoff_permanent = get_or apt_cutoff_permanent_lookup (osr - 1) 0;
}

unfoldable pub apt_init_ntg1 : Apt → ℕ → Apt
apt_init_ntg1 apt osr = record apt {
  cutoff = get_or apt_cutoff_lookup_ntg1 (osr - 1) 0;
  cutoff_permanent = get_or apt_cutoff_permanent_lookup_ntg1 (osr - 1) 0;
}

unfoldable pub rct_mem_init : RctMem → ℕ → RctMem
rct_mem_init rct_mem osr = record rct_mem {
  cutoff = get_or rct_mem_cutoff_lookup (osr - 1) 0;
  cutoff_permanent = get_or rct_mem_cutoff_permanent_lookup (osr - 1) 0;
}

unfoldable pub rct_mem_init_ntg1 : RctMem → ℕ → RctMem
rct_mem_init_ntg1 rct_mem osr = record rct_mem {
  cutoff = get_or rct_mem_cutoff_lookup_ntg1 (osr - 1) 0;
  cutoff_permanent = get_or rct_mem_cutoff_permanent_lookup_ntg1 (osr - 1) 0;
}

-- A safety factor of 0 leaves the cutoffs undivided.
unfoldable pub rct_init : Rct → ℕ → ℕ → Rct
rct_init rct osr safety =
    let cutoff = u16 (u16 osr * 30) in
    let cutoff_permanent = u16 (u16 osr * 60) in
    if safety == 0
    then record rct { cutoff = cutoff; cutoff_permanent = cutoff_permanent }
    else record rct {
      cutoff = u16 ((cutoff + safety - 1) / safety);
      cutoff_permanent = u16 ((cutoff_permanent + safety - 1) / safety);
    }
