-- ===== src/Noise/Base64.antt =====
-- The Base64 functions of src/crypto/NoiseProtocol.cpp.
use natt.Prelude.{
  ℕ, ◌-◌, ◌≡◌, refl, ap, ◌∙◌, false, Option, some, [], ◌∷◌, arith, length, is_empty, take, Text,
}
use natt.Json.{◌>>=◌}
use natt.Noise.{OpenSsl, IsOpenSsl, trim, encode_base64, decode_base64}

module _ (ssl : OpenSsl) (laws : IsOpenSsl ssl) where
  pub decode_base64-encode_base64 :
      (bytes : Text) → decode_base64 ssl (encode_base64 ssl bytes) ≡ some bytes
  unfolding decode_base64 encode_base64
  decode_base64-encode_base64 [] = refl
  decode_base64-encode_base64 (c ∷ bytes) =
      let (out, decoded, front, size, full) = laws.decode_block-encode_block c bytes in
      let count : length out - trim (ssl.encode_block (c ∷ bytes)) ≡ length (c ∷ bytes) =
        omega (arith, size) in
      decoded_text (ssl.encode_block (c ∷ bytes)) full
      ∙ ap
          (λ (o : Option Text). o >>= λ (out : Text).
            some (take (length out - trim (ssl.encode_block (c ∷ bytes))) out))
          decoded
      ∙ ap (λ (n : ℕ). some (take n out)) count
      ∙ ap (λ (bytes : Text). some bytes) front
    where
      decoded_text :
          (text : Text)
          → is_empty text ≡ false
          → decode_base64 ssl text
            ≡ (ssl.decode_block text >>= λ (out : Text). some (take (length out - trim text) out))
      decoded_text [] e = cc
      decoded_text (x ∷ text) e = refl
