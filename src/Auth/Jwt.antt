-- ===== src/Auth/Jwt.antt =====
-- The tokens of src/auth/jwt.cpp: `JwtManager`. `now` is the system clock at the call, in
-- nanoseconds; the configured lifetime is not negative. `issued` is the second
-- reading of the clock in `generate_token`. The log lines are left out.
pub mod Laws
mod Tests
use natt.Prelude.{
  ℕ, ◌+◌, ◌*◌, ◌/◌, Option, none, some, [], ◌∷◌, ◌++◌, if◌then◌else◌, Text, txt, text_eq, split_at,
  Dict,
}
use natt.Prelude.Int.{ℤ, pos, leb_ℤ}
use natt.Clock.{second}
use natt.Json.{dump_object, JsonLib, Field, text, number, ◌>>=◌}
use natt.Auth.Sha.{hmac_sha256}
use natt.Auth.Base64.{base64_encode, base64_decode, strip_pad, restore_pad}

pub record JwtConfig : Type 0 where
  pub secret : Text
  pub expiration_hours : ℕ

pub record JwtPayload : Type 0 where
  pub user_id : ℤ
  pub username : Text
  pub exp : ℤ

-- The character `.`.
abbrev pub dot : ℕ
dot = 46

module _ (lib : JsonLib) where
  open lib use {Json, parse, dump, object, text_at, number_at}

  abbrev pub header_fields : Dict Field
  header_fields = (txt "alg", text (txt "HS256")) ∷ (txt "typ", text (txt "JWT")) ∷ []

  -- `exp` in seconds.
  abbrev pub expiry : JwtConfig → ℕ → ℕ
  expiry config now = (now + config.expiration_hours * (3600 * second)) / second

  abbrev pub payload_fields : JwtConfig → ℕ → ℕ → ℤ → Text → Dict Field
  payload_fields config now issued user_id username =
      (txt "user_id", number user_id)
      ∷ (txt "username", text username)
      ∷ (txt "exp", number (pos (expiry config now)))
      ∷ (txt "iat", number (pos (issued / second)))
      ∷ []

  -- The signature of what stands in front of it.
  unfoldable pub encoded_signature : JwtConfig → Text → Text
  encoded_signature config signing_input =
      strip_pad (base64_encode (hmac_sha256 config.secret signing_input))

  -- `none` is the exception of `dump`.
  unfoldable pub generate_token : JwtConfig → ℕ → ℕ → ℤ → Text → Option Text
  generate_token config now issued user_id username = do
    header ← dump_object lib header_fields
    payload ← dump_object lib (payload_fields config now issued user_id username)
    let encoded_header = strip_pad (base64_encode header) in
        let encoded_payload = strip_pad (base64_encode payload) in
        let signing_input = encoded_header ++ dot ∷ encoded_payload in
        some (signing_input ++ dot ∷ encoded_signature config signing_input)

  -- The `try` block: the payload with its padding restored. A read outside the table of the decoder is
  -- undefined, and an exception is `nullopt`; both are `none` here.
  unfoldable pub read_payload : ℕ → Text → Option JwtPayload
  read_payload now encoded_payload = do
    payload_json ← base64_decode (restore_pad 3 encoded_payload)
    payload ← parse payload_json
    exp ← number_at payload (txt "exp")
    if leb_ℤ exp (pos (now / second)) then none else do
      user_id ← number_at payload (txt "user_id")
      username ← text_at payload (txt "username")
      some (record { user_id = user_id; username = username; exp = exp })

  unfoldable pub verify_token : JwtConfig → ℕ → Text → Option JwtPayload
  verify_token config now token = do
    (encoded_header, after) ← split_at dot token
    (encoded_payload, signature) ← split_at dot after
    if text_eq signature (encoded_signature config (encoded_header ++ dot ∷ encoded_payload))
        then read_payload now encoded_payload
        else none
