-- ===== src/Sha3/Buffer.antt =====
-- A write into a buffer: what it changes and what it leaves.
use jitterentropy_library.Prelude.{
  ℕ, ◌+◌, ◌-◌, ◌<◌, ◌≤◌, ◌≡◌, List, length, get_or, take, drop, ◌++◌, arith, ap, ◌∙◌,
}
use jitterentropy_library.Prelude.{length-append, length-take, length-drop}
use jitterentropy_library.Prelude.Slices.{get_or-append_ge, get_or-append_lt, get_or-drop}
use jitterentropy_library.Sha3.Sponge.{write_at}

pub length-write_at :
    (buf : List ℕ) (off : ℕ) (bytes : List ℕ)
    → off + length bytes ≤ length buf
    → length (write_at buf off bytes) ≡ length buf
unfolding write_at
length-write_at buf off bytes h = omega (
  arith,
  length-append (take off buf) (bytes ++ drop (off + length bytes) buf),
  length-append bytes (drop (off + length bytes) buf),
  length-take off buf,
  length-drop (off + length bytes) buf,
)

pub get_or-write_at_ge :
    (buf : List ℕ) (off : ℕ) (bytes : List ℕ) (i : ℕ)
    → off + length bytes ≤ length buf
    → off + length bytes ≤ i
    → get_or (write_at buf off bytes) i 0 ≡ get_or buf i 0
unfolding write_at
get_or-write_at_ge buf off bytes i h hi =
    get_or-append_ge (take off buf) (bytes ++ drop (off + length bytes) buf) i 0
      (omega (arith, length-take off buf))
    ∙ get_or-append_ge bytes (drop (off + length bytes) buf) (i - length (take off buf)) 0
        (omega (arith, length-take off buf))
    ∙ get_or-drop (off + length bytes) buf (i - length (take off buf) - length bytes) 0
    ∙ ap (λ j. get_or buf j 0) (omega (arith, length-take off buf))

pub get_or-write_at_lt :
    (buf bytes : List ℕ) (i : ℕ)
    → i < length bytes
    → get_or (write_at buf 0 bytes) i 0 ≡ get_or bytes i 0
unfolding write_at
get_or-write_at_lt buf bytes i h = get_or-append_lt bytes (drop (0 + length bytes) buf) i 0 h
