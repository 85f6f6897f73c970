-- ===== src/Read/Safety.antt =====
-- What a read leaves in the caller's buffer and in the collector, src/jitterentropy-base.c.
use jitterentropy_library.Prelude.{ℕ, zero, suc, ◌+◌, ◌-◌, ◌≤◌, ◌≡◌, inl, inr, ◌∙◌}
use jitterentropy_library.Prelude.{List, Option, none, some, length, get_or, take, drop, arith}
use jitterentropy_library.Prelude.{
  Bool-cases, Ends, Ends-bind, Ends-if, ltb, ◌==◌, if◌then◌else◌, length-take, subst,
}
use jitterentropy_library.Collector.{RandData, Machine}
use jitterentropy_library.Health.Failure.{Error, Process, health_failure}
use jitterentropy_library.Health.Stuck.Kept.{Kept, Kept-trans}
use jitterentropy_library.Sha3.Xdrbg.{xdrbg256_generate_block, xdrbg_expand, xdrbg_finalize}
use jitterentropy_library.Sha3.Buffer.{length-write_at, get_or-write_at_ge}
use jitterentropy_library.Noise.Collect.{random_data, read_random_block}
use jitterentropy_library.Noise.Collected.{random_data-KeptIn}
use jitterentropy_library.Read.{Progress, put_block, emit, read_block, read_blocks}

-- How far a read has come with `len` bytes to go: it has changed none but the bytes it counts.
pub record IsReading (m : Machine) (buffer : List ℕ) (len : ℕ) (p : Progress) : Type 0 where
  pub inside : p.written + len ≤ length buffer
  pub buffer_len : length p.buffer ≡ length buffer
  pub tail : (i : ℕ) → p.written ≤ i → get_or p.buffer i 0 ≡ get_or buffer i 0
  pub kept : Kept m.ec p.state.ec

length-take_le : (k n : ℕ) (xs : List ℕ) → k ≤ n → length (take k xs) ≤ n
length-take_le k n xs h = omega (arith, length-take k xs)

length-read_random_block : (ec : RandData) (n : ℕ) → length (read_random_block ec n).1 ≤ n
unfolding read_random_block xdrbg256_generate_block
length-read_random_block ec n =
    length-take_le (if ltb 32 n then 32 else n) n
      (drop 64 (xdrbg_expand (xdrbg_finalize ec.hash_state).0 (xdrbg_finalize ec.hash_state).1).1)
      (ground arith)

read_random_block-Kept : (ec : RandData) (n : ℕ) → Kept ec (read_random_block ec n).0
unfolding read_random_block
read_random_block-Kept ec n = grind arith

put_block-IsReading :
    (m : Machine) (buffer : List ℕ) (len tocopy : ℕ) (p : Progress) (collected : Machine)
    (process : Process)
    → tocopy ≤ len
    → IsReading m buffer len p
    → Kept m.ec collected.ec
    → IsReading m buffer (len - tocopy) (put_block tocopy p collected process)
unfolding put_block
put_block-IsReading m buffer len tocopy p collected process le h kept =
    let out = (read_random_block collected.ec tocopy).1 in
    let short = length-read_random_block collected.ec tocopy in
    let fits : p.written + length out ≤ length p.buffer =
      omega (arith, short, h.inside, h.buffer_len) in
    record {
      inside = omega (arith, h.inside);
      buffer_len = length-write_at p.buffer p.written out fits ∙ h.buffer_len;
      tail = λ i hi.
          get_or-write_at_ge p.buffer p.written out i fits (omega (arith, short, hi))
          ∙ h.tail i (omega (arith, hi));
      kept = Kept-trans m.ec collected.ec _ kept (read_random_block-Kept collected.ec tocopy);
    }

failed-IsReading :
    (m : Machine) (buffer : List ℕ) (len tocopy : ℕ) (p : Progress) (collected : Machine)
    (process : Process) (e : Option Error)
    → IsReading m buffer len p
    → Kept m.ec collected.ec
    → IsReading m buffer
        (len - tocopy)
        (record p { failed = e; state = collected; process = process })
failed-IsReading m buffer len tocopy p collected process e h kept = record {
  inside = omega (arith, h.inside);
  buffer_len = h.buffer_len;
  tail = h.tail;
  kept = kept;
}

emit-IsReading :
    (m : Machine) (buffer : List ℕ) (len : ℕ) (p : Progress) (collected : Machine)
    → IsReading m buffer len p
    → Kept m.ec collected.ec
    → IsReading m buffer (len - 32) (emit len p collected)
unfolding emit
emit-IsReading m buffer len p collected h kept =
    elim (Bool-cases ((health_failure p.process collected.ec).0 == 0)) [
      | inr failing ↦ rw failing (failed-IsReading m buffer len 32 p collected _ _ h kept)
      | inl healthy ↦ rw healthy (elim (Bool-cases (ltb 32 len)) [
        | inl full ↦
            rw full (put_block-IsReading m buffer len 32 p collected _ (ground arith) h kept)
        | inr last ↦ rw last (
            let none_left : len - len ≡ len - 32 = ground arith in
            subst
              (λ k.
                IsReading m buffer k
                  (put_block len p collected (health_failure p.process collected.ec).1))
              none_left (put_block-IsReading m buffer len len p collected _ (omega arith) h kept))
      ])
    ]

IsReading-none_left :
    (m : Machine) (buffer : List ℕ) (len : ℕ) (p : Progress)
    → IsReading m buffer len p
    → IsReading m buffer 0 p
IsReading-none_left m buffer len p h = record {
  inside = omega (arith, h.inside);
  buffer_len = h.buffer_len;
  tail = h.tail;
  kept = h.kept;
}

pub Ends-continue :
    (P : Progress → Type 0) (failed : Option Error) (p : Progress) (rest : Option Progress)
    → P p
    → Ends P rest
    → Ends P (elim failed [ none ↦ rest | some e ↦ some p ])
Ends-continue P none p rest h k = k
Ends-continue P (some e) p rest h k = h

module _ (clock : ℕ → ℕ) (fuel : ℕ) where
  read_block-IsReading :
      (m : Machine) (buffer : List ℕ) (len : ℕ) (p : Progress)
      → IsReading m buffer len p
      → Ends (IsReading m buffer (len - 32)) (read_block clock fuel len p)
  unfolding read_block
  read_block-IsReading m buffer len p h =
      Ends-if (IsReading m buffer (len - 32)) p.state.ec.selftest_failed _ _
        (failed-IsReading m buffer len 32 p p.state p.process _ h h.kept)
        (Ends-bind (λ (x : Machine). Kept p.state.ec x.ec) (IsReading m buffer (len - 32))
          (random_data clock fuel p.state) _ (random_data-KeptIn clock fuel p.state)
          λ collected kept.
            emit-IsReading m buffer len p collected h
              (Kept-trans m.ec p.state.ec collected.ec h.kept kept))

  pub read_blocks-IsReading :
      (m : Machine) (buffer : List ℕ) (rounds len : ℕ) (p : Progress)
      → IsReading m buffer len p
      → Ends (IsReading m buffer 0) (read_blocks clock fuel rounds len p)
  unfolding read_blocks
  read_blocks-IsReading m buffer zero len p h = IsReading-none_left m buffer len p h
  read_blocks-IsReading m buffer (suc rounds) len p h =
      Ends-if (IsReading m buffer 0) (len == 0) (some p) _ (IsReading-none_left m buffer len p h) (
        Ends-bind (IsReading m buffer (len - 32)) (IsReading m buffer 0)
          (read_block clock fuel len p) _ (read_block-IsReading m buffer len p h)
          λ next h'.
            Ends-continue (IsReading m buffer 0) next.failed next _
              (IsReading-none_left m buffer (len - 32) next h')
              (read_blocks-IsReading m buffer rounds (len - 32) next h'))
