-- ===== src/Examples/Services.antt =====
-- The digests, the identifier and the daemon, at concrete values.
use jitterentropy_library.Prelude.{
  ℕ, ◌+◌, ◌<◌, ◌≡◌, refl, arith, true, false, none, some, [], ◌∷◌, replicate, Ends, List, min, take,
  drop, u32,
}
use jitterentropy_library.Examples.{collector, hash_ctx}
use jitterentropy_library.Examples.Instances.{env, fresh}
use jitterentropy_library.Sha3.Sponge.{sha3_256_init, shake256_init, sha3_final}
use jitterentropy_library.Sha3.Xdrbg.{shake256_set_digestsize, xdrbg256_generate_block}
use jitterentropy_library.Sha3.Message.{sponge}
use jitterentropy_library.Sha3.Digest.{feed, concat, sha3_final-feed, shake256_init-Holds}
use jitterentropy_library.Sha3.Generator.{
  Generator, seed_state, expand, xdrbg256_generate_block-expand,
}
use jitterentropy_library.Uuid.{uuid_generate}
use jitterentropy_library.Uuid.Text.{uuid_parse}
use jitterentropy_library.Uuid.Generated.{
  variant, versioned, counter_bytes, uuid_generate-uuid_parse,
}
use jitterentropy_library.Rngd.{Kernel, Options, Daemon}
use jitterentropy_library.Collector.{RandData}
use jitterentropy_library.Rngd.Gather.{gather_entropy}
use jitterentropy_library.Rngd.Refused.{Withholds, gather_entropy-Withholds}
use jitterentropy_library.Rngd.Wakeups.{ready, interrupted}
use jitterentropy_library.Rngd.Accounts.{Left}
use jitterentropy_library.Rngd.Turns.{Event, alarm_signal, term_signal, looped, steps, steps-Left}
use jitterentropy_library.Rngd.Forced.{alarms, alarms-gathers}

abbrev pieces : List (List ℕ)
pieces = (1 ∷ 2 ∷ []) ∷ [] ∷ replicate 140 7 ∷ []

sha3_final-feed_example :
    ((sha3_final (feed (sha3_256_init hash_ctx) pieces)).1 ≡ sponge 0x06 32 (concat pieces))
    × ((sha3_final (shake256_set_digestsize (feed (shake256_init hash_ctx) pieces) 64)).1
        ≡ sponge 0x1f 64 (concat pieces))
sha3_final-feed_example = sha3_final-feed hash_ctx pieces 64 refl (omega arith) (omega arith) refl

unseeded : Generator 0 [] (shake256_init hash_ctx)
unfolding shake256_init
unseeded = record { holds = shake256_init-Holds hash_ctx refl; domain = refl; seeded = refl }

xdrbg256_generate_block-expand_example :
    ((xdrbg256_generate_block (shake256_init hash_ctx) 32).1
      ≡ take (min 32 32) (drop 64 (expand (seed_state 0 []))))
    × Generator 1
        (take 64 (expand (seed_state 0 [])))
        (xdrbg256_generate_block (shake256_init hash_ctx) 32).0
xdrbg256_generate_block-expand_example =
    xdrbg256_generate_block-expand 0 [] (shake256_init hash_ctx) 32 (omega arith) (omega arith)
      unseeded

uuid_generate-uuid_parse_example :
    (uuid_parse 16 0 (uuid_generate (some (replicate 16 255)) hash_ctx 5 9).0
      ≡ some (variant (versioned 4 (replicate 16 255))))
    × ((uuid_generate (some (replicate 16 255)) hash_ctx 5 9).1 ≡ 9)
    × (uuid_parse 16 0 (uuid_generate none hash_ctx 5 9).0
        ≡ some (variant (versioned 8 (counter_bytes (u32 (9 + 1)) 5))))
    × ((uuid_generate none hash_ctx 5 9).1 ≡ u32 (9 + 1))
uuid_generate-uuid_parse_example =
    uuid_generate-uuid_parse (replicate 16 255) hash_ctx 5 9 refl (omega arith) refl

abbrev kernel : Kernel
kernel = record {
  add_entropy = λ n. none;
  reseed = λ n. some 22;
  lrng_present = false;
  entropy_avail = λ n. some (b'2' ∷ b'5' ∷ b'6' ∷ 10 ∷ []);
  entropy_thresh = λ n. some (b'2' ∷ b'5' ∷ b'6' ∷ 10 ∷ []);
}

abbrev opts : Options
opts = record {
  force_sp80090b = false;
  exit_on_error = true;
  jent_osr = 3;
  jent_flags = 0;
  alarm_period = 5 ∷ 50 ∷ [];
  force_reseed_wakeups = 120 ∷ 12 ∷ [];
}

abbrev daemon : Daemon
daemon = record {
  ec = some collector;
  world = fresh;
  rpi = true;
  descriptors = 4;
  requests = 0;
  injected = [];
  reseeds = 0;
  gathers = 0;
  naps = 0;
  seeded = false;
  wakeups = 0;
  phase = 0;
  alarm = none;
  alarm_pending = false;
  term_pending = false;
}

abbrev events : List Event
events = alarm_signal ∷ looped interrupted ∷ looped ready ∷ term_signal ∷ looped interrupted ∷ []

steps-Left_example : Ends (Left daemon) (steps env 5000 kernel opts events daemon)
steps-Left_example = steps-Left env 5000 kernel opts events daemon refl

alarms-gathers_example :
    Ends (λ r. daemon.gathers < r.1.gathers) (alarms env 5000 kernel opts 120 daemon)
alarms-gathers_example = alarms-gathers env 5000 kernel opts 120 daemon (omega arith) (omega arith)

abbrev broken : RandData
broken = record collector { is_fips_enabled = true; health_failure = 2 }

abbrev strict_opts : Options
strict_opts = record opts { force_sp80090b = true; exit_on_error = false }

abbrev broken_daemon : Daemon
broken_daemon = record daemon { ec = some broken }

gather_entropy-Withholds_example :
    Withholds env 0 kernel strict_opts broken_daemon
      (gather_entropy env 1 kernel strict_opts broken_daemon)
gather_entropy-Withholds_example =
    gather_entropy-Withholds env 0 kernel strict_opts 1 broken_daemon broken refl refl refl
      (refl, refl)
