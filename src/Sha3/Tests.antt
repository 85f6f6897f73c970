-- ===== src/Sha3/Tests.antt =====
-- The known-answer tests of src/jitterentropy-sha3.c pass on the model.
use jitterentropy_library.Prelude.{◌≡◌, false, refl}
use jitterentropy_library.Sha3.Sponge.{shake256_init, sha3_256_init, sha3_update, sha3_final}
use jitterentropy_library.Sha3.Xdrbg.{
  shake256_set_digestsize, xdrbg_finalize, xdrbg_expand, xdrbg256_generate_block,
}
use jitterentropy_library.Sha3.Selftest.{
  differs, counting, shake256_tester, xdrbg256_tester, sha3_256_multiblock_tester, sha3_tester,
}

shake256_passes : shake256_tester ≡ false
unfolding shake256_tester differs shake256_init sha3_update shake256_set_digestsize sha3_final
shake256_passes = refl

xdrbg256_passes : xdrbg256_tester ≡ false
unfolding xdrbg256_tester differs counting shake256_init sha3_update shake256_set_digestsize
    sha3_final xdrbg_finalize xdrbg_expand xdrbg256_generate_block
xdrbg256_passes = refl

multiblock_passes : sha3_256_multiblock_tester ≡ false
unfolding sha3_256_multiblock_tester differs counting sha3_256_init sha3_update sha3_final
multiblock_passes = refl

sha3_passes : sha3_tester ≡ false
unfolding sha3_tester
sha3_passes = rw (multiblock_passes, shake256_passes, xdrbg256_passes) refl
