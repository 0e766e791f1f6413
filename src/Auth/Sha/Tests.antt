-- ===== src/Auth/Sha/Tests.antt =====
-- The hash of a known text, and the theorems at concrete inputs.
use natt.Prelude.{◌≡◌, refl, [], ◌∷◌, txt}
use natt.Auth.Sha.{
  reset, compress, transform, update_byte, update, length_bytes, output, digest, sha256,
  hmac_sha256,
}
use natt.Auth.Sha.Standard.{sha256_spec, sha256_lem}
use natt.Auth.Sha.Hmac.{hmac_spec, hmac_sha256_lem}

-- FIPS 180-4: the hash of "abc".
sha256_run :
    sha256 (txt "abc")
    ≡ 0xba ∷ 0x78 ∷ 0x16 ∷ 0xbf ∷ 0x8f ∷ 0x01 ∷ 0xcf ∷ 0xea ∷ 0x41 ∷ 0x41 ∷ 0x40 ∷ 0xde ∷ 0x5d
      ∷ 0xae ∷ 0x22 ∷ 0x23 ∷ 0xb0 ∷ 0x03 ∷ 0x61 ∷ 0xa3 ∷ 0x96 ∷ 0x17 ∷ 0x7a ∷ 0x9c ∷ 0xb4 ∷ 0x10
      ∷ 0xff ∷ 0x61 ∷ 0xf2 ∷ 0x00 ∷ 0x15 ∷ 0xad ∷ []
unfolding digest update update_byte transform compress output length_bytes reset
sha256_run = refl

sha256_lem_example : sha256 (txt "abc") ≡ sha256_spec (txt "abc")
sha256_lem_example = sha256_lem (txt "abc")

hmac_sha256_lem_example : hmac_sha256 (txt "key") (txt "text") ≡ hmac_spec (txt "key") (txt "text")
hmac_sha256_lem_example = hmac_sha256_lem (txt "key") (txt "text")
