-- ===== src/World/Quiet.antt =====
-- Operations without a net effect on what the caller holds, put together.
use jitterentropy_library.Prelude.{Bool, inr, refl, if◌then◌else◌}
use jitterentropy_library.World.{World, M, ◌>>=◌, pure, modify, After-next, After-imp, After-if}
use jitterentropy_library.World.Changes.{
  Change, Change-refl, Change-trans, Latched, Latched-refl, Quiet,
}

-- One quiet operation behind another.
pub Quiet-next :
    {A B : Type 0} (m : M A) (f : A → M B) → Quiet m → ((a : A) → Quiet (f a)) → Quiet (m >>= f)
Quiet-next m f p q w =
    After-next (λ r w'. Change w w' 0 0 0 0) (λ r w'. Change w w' 0 0 0 0) (m w) f (p w)
      λ a w' c.
        After-imp (λ r w''. Change w' w'' 0 0 0 0) (λ r w''. Change w w'' 0 0 0 0) (f a w') (q a w')
          λ b w'' d. Change-trans c d

pub Quiet-if : {A : Type 0} (b : Bool) (x y : M A) → Quiet x → Quiet y → Quiet (if b then x else y)
Quiet-if b x y p q w = After-if (λ r w'. Change w w' 0 0 0 0) b x y w (p w) (q w)

pub Quiet-pure : {A : Type 0} (a : A) → Quiet (pure a)
Quiet-pure a w = Change-refl w 0 0

-- What the process remembers of the configuration and of the self tests, latched further.
pub latch-Quiet :
    (forced switch_blocked selftest_run : World → Bool)
    → ((w : World) → Latched w.forced (forced w))
    → ((w : World) → Latched w.switch_blocked (switch_blocked w))
    → Quiet (
        modify λ w. record w {
          forced = forced w;
          switch_blocked = switch_blocked w;
          selftest_run = selftest_run w;
        })
latch-Quiet forced switch_blocked selftest_run force block w = record {
  memory = refl;
  threads = refl;
  forced = force w;
  switch_blocked = block w;
  cb_blocked = Latched-refl w.process.cb_switch_blocked;
  platform = inr refl;
  notime = inr refl;
  handler = refl;
  notime_cpu = refl;
  fips_cb = refl;
}
