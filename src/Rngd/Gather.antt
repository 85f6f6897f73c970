-- ===== src/Rngd/Gather.antt =====
-- Gathering entropy and its retries, src/rngd/jitterentropy-rngd.c.
use jitterentropy_library.Prelude.{
  ℕ, zero, suc, ◌+◌, Bool, true, false, not, Option, none, some, List, ◌||◌,
}
use jitterentropy_library.Prelude.{ltb, ◌==◌, if◌then◌else◌, ◌>>=◌, replicate}
use jitterentropy_library.Collector.{RandData}
use jitterentropy_library.Gcd.{InitError}
use jitterentropy_library.Safe.{read_entropy_safe}
use jitterentropy_library.Read.Thread.{read_entropy}
use jitterentropy_library.World.{Env}
use jitterentropy_library.Init.{entropy_init_ex}
use jitterentropy_library.Reset.{collector_alloc}
use jitterentropy_library.Rngd.{
  Kernel, Options, Daemon, Written, wrote, failed, ended, rndaddentropy_bufsize, eopnotsupp,
  gather_retries, run, count, write_random, release, dealloc,
}

module _ (env : Env) (fuel : ℕ) (kernel : Kernel) (opts : Options) where
  -- `read_jent`: how many bytes were read, unless it failed, and the buffer.
  unfoldable pub read_jent_with :
      Option RandData → List ℕ → Daemon → Option (Option ℕ × List ℕ × Daemon)
  read_jent_with none buf d = some (none, buf, d)
  read_jent_with (some ec) buf d =
      if opts.force_sp80090b
      then (do
        o ← run (read_entropy env fuel ec buf) d
        some (count o.0.return, o.0.data_out, record (o.1) { ec = some (o.0).machine.ec }))
      else (do
        o ← run (read_entropy_safe env fuel ec buf) d
        some (count o.0.return, o.0.data_out, record (o.1) { ec = some (o.0).ec }))

  unfoldable pub read_jent : List ℕ → Daemon → Option (Option ℕ × List ℕ × Daemon)
  unfolding read_jent_with
  read_jent buf d = read_jent_with d.ec buf d

  -- What was read goes to the kernel; a part of it counts as nothing.
  unfoldable pub inject : Option ℕ → List ℕ → Daemon → Written × Daemon
  unfolding write_random
  inject none buf d = (failed eopnotsupp, d)
  inject (some n) buf d = write_random kernel buf n (not kernel.lrng_present) d

  unfoldable pub judge_written : Written → Written
  judge_written (wrote n) = if n == rndaddentropy_bufsize then wrote n else wrote 0
  judge_written (failed errno) = failed errno
  judge_written (ended status) = ended status

  -- The end of a gathering: an exit where one is asked for, and the note of the first success.
  unfoldable pub conclude : Written → Daemon → Option (Written × Daemon)
  conclude (failed errno) d =
      if opts.exit_on_error
      then (do gone ← dealloc d; some (ended errno, gone))
      else some (failed errno, d)
  conclude (wrote n) d = some (wrote n, record d { seeded = d.seeded || ltb 0 n })
  conclude (ended status) d = some (ended status, d)

  -- `gather_entropy`. The part of the buffer that is used has the size of an injection.
  unfoldable pub gather_entropy : Daemon → Option (Written × Daemon)
  unfolding read_jent inject judge_written conclude
  gather_entropy d = do
    r ← read_jent (replicate rndaddentropy_bufsize 0) (record d { gathers = d.gathers + 1 })
    let w = inject r.0 r.1 r.2
    conclude (judge_written w.0) w.1

  -- The collector anew behind a successful initialization.
  unfoldable pub alloc_jent : Option InitError → Daemon → Option (Bool × Daemon)
  alloc_jent (some e) d = some (false, d)
  alloc_jent none d = do
    made ← run (collector_alloc env fuel opts.jent_osr opts.jent_flags) d
    some (elim made.0 [ none ↦ false | some ec ↦ true ], record (made.1) { ec = made.0 })

  -- `realloc_jent`: whether there is a collector then.
  unfoldable pub realloc_jent : Daemon → Option (Bool × Daemon)
  unfolding alloc_jent release
  realloc_jent d = do
    freed ← release d
    init ← run (entropy_init_ex env fuel opts.jent_osr opts.jent_flags) freed
    alloc_jent init.0 init.1

  -- The retries of `gather_entropy_retry`, `left` of them.
  unfoldable pub retry_loop : ℕ → Written → Daemon → Option (Written × Daemon)
  unfolding realloc_jent gather_entropy
  retry_loop zero w d = some (w, d)
  retry_loop (suc left) (wrote n) d = some (wrote n, d)
  retry_loop (suc left) (ended status) d = some (ended status, d)
  retry_loop (suc left) (failed errno) d = do
    renewed ← realloc_jent d
    let skip = retry_loop left (failed errno) renewed.1
    let again = (do g ← gather_entropy renewed.1; retry_loop left g.0 g.1)
    if renewed.0 then again else skip

  unfoldable pub nap : Written → Daemon → Daemon
  nap (failed errno) d = record d { naps = d.naps + 1 }
  nap (wrote n) d = d
  nap (ended status) d = d

  -- `gather_entropy_retry`.
  unfoldable pub gather_entropy_retry : Daemon → Option (Written × Daemon)
  unfolding gather_entropy retry_loop nap
  gather_entropy_retry d = do
    first ← gather_entropy d
    last ← retry_loop gather_retries first.0 first.1
    some (last.0, nap last.0 last.1)
