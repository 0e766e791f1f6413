-- ===== src/Auth/Jwt/Laws.antt =====
-- src/auth/jwt.cpp: issuing and accepting tokens.
use natt.Prelude.{
  append_assoc, ℕ, ◌/◌, ◌≡◌, refl, ap, ◌∙◌, inl, inr, true, false, none, some, ◌∷◌, ◌++◌, arith,
  leb, if◌then◌else◌, Option-cases, All, Text, txt, text_eq, split_at, split_at-append, Splits,
  split_at-Splits, text_eq_refl, eq_of_text_eq, lookup,
}
use natt.Auth.Jwt.{
  JwtConfig, JwtPayload, dot, header_fields, expiry, payload_fields, encoded_signature,
  generate_token, read_payload, verify_token,
}
use mathlib.Core.Path.{subst}
use natt.Prelude.Int.{ℤ, pos, leb_ℤ}
use natt.Clock.{second}
use natt.Json.{is_utf8, utf8_from, are_utf8, dump_object-utf8, JsonLib, IsJson}
use natt.Auth.Base64.{base64_encode, strip_pad}
use natt.Auth.Base64.Digits.{IsByte}
use natt.Auth.Base64.Padding.{base64_lem, strip_pad-encode-Lacks}

module _ (lib : JsonLib) where
  open lib use {Json, parse, dump, object, text_at, number_at}

  read_payload-dump :
      (config : JwtConfig) (now issued later : ℕ) (user_id : ℤ) (username : Text)
      → IsJson lib
      → are_utf8 (payload_fields lib config now issued user_id username) ≡ true
      → All IsByte (dump (object (payload_fields lib config now issued user_id username)))
      → read_payload lib later (
          strip_pad
            (base64_encode (dump (object (payload_fields lib config now issued user_id username)))))
        ≡ (if leb (expiry lib config now) (later / second)
            then none
            else some (record {
              user_id = user_id;
              username = username;
              exp = pos (expiry lib config now);
            }))
  unfolding read_payload lookup text_eq
  read_payload-dump config now issued later user_id username laws utf8 bytes =
      let fields = payload_fields lib config now issued user_id username in
      rw
        (
          base64_lem (dump (object fields)) bytes,
          laws.parse-dump fields utf8,
          laws.number_at-object fields (txt "exp"),
          laws.number_at-object fields (txt "user_id"),
          laws.text_at-object fields (txt "username"),
        )
        (ground arith)

  header_utf8 : are_utf8 (header_fields lib) ≡ true
  unfolding are_utf8 utf8_from
  header_utf8 = refl

  payload_utf8 :
      (config : JwtConfig) (now issued : ℕ) (user_id : ℤ) (username : Text)
      → is_utf8 username ≡ true
      → are_utf8 (payload_fields lib config now issued user_id username) ≡ true
  unfolding are_utf8 utf8_from
  payload_utf8 config now issued user_id username u = rw u refl

  token_of : JwtConfig → Text → Text → Text
  token_of config header payload =
      let input = strip_pad (base64_encode header) ++ dot ∷ strip_pad (base64_encode payload) in
      input ++ dot ∷ encoded_signature lib config input

  -- For a user whose name is UTF-8 a token is issued; where its two parts are dumped to bytes, it is accepted
  -- with the user it was issued for, by every clock reading before its expiry, and by none from then on.
  pub verify_token-generate_token :
      (config : JwtConfig) (now issued later : ℕ) (user_id : ℤ) (username : Text)
      → IsJson lib
      → is_utf8 username ≡ true
      → All IsByte (dump (object (header_fields lib)))
      → All IsByte (dump (object (payload_fields lib config now issued user_id username)))
      → (token : Text) × (generate_token lib config now issued user_id username ≡ some token)
        × (verify_token lib config later token ≡ (
            if leb (expiry lib config now) (later / second)
            then none
            else some (record {
              user_id = user_id;
              username = username;
              exp = pos (expiry lib config now);
            })))
  unfolding verify_token generate_token token_of
  verify_token-generate_token config now issued later user_id username laws u head_bytes bytes =
      let header_text = dump (object (header_fields lib)) in
      let payload_text = dump (object (payload_fields lib config now issued user_id username)) in
      let utf8 = payload_utf8 config now issued user_id username u in
      let header = strip_pad (base64_encode header_text) in
      let payload = strip_pad (base64_encode payload_text) in
      let signature = encoded_signature lib config (header ++ dot ∷ payload) in
      (
        token_of config header_text payload_text,
        rw
            (
              dump_object-utf8 lib (header_fields lib) header_utf8,
              dump_object-utf8 lib (payload_fields lib config now issued user_id username) utf8,
            )
            refl,
        rw
            (
              append_assoc header (dot ∷ payload) (dot ∷ signature),
              split_at-append dot header (payload ++ dot ∷ signature)
                  (strip_pad-encode-Lacks (dump (object (header_fields lib))) head_bytes),
              split_at-append dot payload signature (strip_pad-encode-Lacks _ bytes),
              text_eq_refl signature,
            )
            (read_payload-dump config now issued later user_id username laws utf8 bytes),
      )

  read_payload-exp :
      (now : ℕ) (encoded : Text) (p : JwtPayload)
      → read_payload lib now encoded ≡ some p
      → leb_ℤ p.exp (pos (now / second)) ≡ false
  unfolding read_payload
  read_payload-exp now encoded p e = ground arith

  -- A token that is accepted consists of three parts, of which the third is the signature of the
  -- first two under the secret, and it has not expired.
  pub verify_token-Signed :
      (config : JwtConfig) (now : ℕ) (token : Text) (p : JwtPayload)
      → verify_token lib config now token ≡ some p
      → (header : Text) × (payload : Text) × (token
          ≡ header
            ++ dot ∷ (payload ++ dot ∷ encoded_signature lib config (header ++ dot ∷ payload)))
        × (leb_ℤ p.exp (pos (now / second)) ≡ false)
  unfolding verify_token
  verify_token-Signed config now token p e = elim (Option-cases (split_at dot token)) [
    | inl lacks ↦ absurd (ground (arith, lacks))
    | inr ((header, after), found) ↦ elim (Option-cases (split_at dot after)) [
      | inl lacks ↦ absurd (ground (arith, found, lacks))
      | inr ((payload, signature), found') ↦
          let parts : Splits dot token (some (header, after)) =
            subst (Splits dot token) found (split_at-Splits dot token) in
          let parts' : Splits dot after (some (payload, signature)) =
            subst (Splits dot after) found' (split_at-Splits dot after) in
          let signed : text_eq signature (encoded_signature lib config (header ++ dot ∷ payload))
              ≡ true =
            ground (arith, found, found') in
          let accepted : read_payload lib now payload ≡ some p =
            ground (arith, found, found', signed) in
          (
            header,
            payload,
            parts.0
                ∙ ap (λ (t : Text). header ++ dot ∷ t)
                    (parts'.0
                      ∙ ap (λ (t : Text). payload ++ dot ∷ t) (eq_of_text_eq signature _ signed)),
            read_payload-exp now payload p accepted,
          )
    ]
  ]
