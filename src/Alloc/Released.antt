-- ===== src/Alloc/Released.antt =====
-- What the release of a collector gives back.
use jitterentropy_library.Prelude.{ℕ, ◌≡◌, inl, inr, arith, ◌∙◌, ap, ap₂, ◌==◌}
use jitterentropy_library.Prelude.{if◌then◌else◌, Bool-cases}
use jitterentropy_library.Collector.{RandData}
use jitterentropy_library.World.{World, After, After-next, After-imp, zfree}
use jitterentropy_library.World.Changes.{Change, Change-refl, Change-as, Change-add}
use jitterentropy_library.Timer.{notime_unsettick, notime_disable}
use jitterentropy_library.Timer.Changes.{
  context, held, ticks, zfree-Change, notime_unsettick-Change, notime_disable-Change, KeptIdle,
  KeptBare,
}
use jitterentropy_library.Alloc.{free_mem, collector_free}

abbrev pub bare : ℕ → ℕ
bare memmask = if memmask == 0 then 0 else 1

abbrev pub region : RandData → ℕ
region ec = bare ec.memmask

free_mem-Change :
    (ec : RandData) (w : World) → After (λ r w'. Change w w' (region ec) 0 0 0) (free_mem ec w)
unfolding free_mem
free_mem-Change ec w = elim (Bool-cases (ec.memmask == 0)) [
  | inl bare ↦ rw bare (Change-refl w 0 0)
  | inr there ↦ rw there (zfree-Change w)
]

-- A release gives back all that the collector holds, and stops its thread.
pub collector_free-Change :
    (ec : RandData) (w : World)
    → After (λ r w'. Change w w' (held w.handler ec) 0 (ticks ec) 0) (collector_free ec w)
unfolding collector_free
collector_free-Change ec w =
    After-next (λ r w'. Change w w' 0 0 (ticks ec) 0 × KeptIdle ec r × (ticks r ≡ 0)) _
      (notime_unsettick ec w) _ (notime_unsettick-Change ec w)
      λ stopped w1 h1.
        After-next
          (λ r w'.
            Change w1 w' (context w1.handler stopped.notime_thread_ctx) 0 0 0 × KeptBare stopped r)
          _ (notime_disable stopped w1) _ (notime_disable-Change stopped w1)
          λ disabled w2 h2.
            After-next (λ r w'. Change w2 w' (region disabled) 0 0 0) _ (free_mem disabled w2) _
              (free_mem-Change disabled w2)
              λ r3 w3 h3. After-imp _ _ (zfree w3) (zfree-Change w3) λ r4 w4 h4.
                Change-as (held w.handler ec) 0 (ticks ec) 0
                  (omega (
                    arith,
                    ap₂ context h1.0.handler h1.1.notime_thread_ctx,
                    ap bare (h2.1.memmask ∙ h1.1.memmask),
                  ))
                  (omega arith) (Change-add (Change-add (Change-add h1.0 h2.0) h3) h4)
