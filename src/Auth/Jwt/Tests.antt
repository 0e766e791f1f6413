-- ===== src/Auth/Jwt/Tests.antt =====
-- A token is issued and checked, and the theorems at concrete inputs.
use natt.Prelude.{◌*◌, ◌/◌, ◌≡◌, refl, true, false, some, ◌∷◌, ◌++◌, arith, Text, txt}
use natt.Auth.Jwt.{JwtConfig, dot, encoded_signature, generate_token, verify_token}
use natt.Prelude.Int.{pos, leb_ℤ}
use natt.Clock.{second}
use natt.Json.{is_utf8, utf8_from}
use natt.Json.Plain.{plain, plain-IsJson, plain_dump}
use natt.Auth.Base64.{base64_encode, base64_decode, strip_pad, restore_pad, digit}
use natt.Auth.Base64.Padding.{base64_lem}
use natt.Auth.Jwt.Laws.{verify_token-generate_token, verify_token-Signed}

-- RFC 4648: the test text "foobar" without and with two bytes over.
base64_run : base64_encode (txt "fooba") ≡ txt "Zm9vYmE="
unfolding base64_encode digit
base64_run = refl

base64_lem_example :
    base64_decode (restore_pad 3 (strip_pad (base64_encode (txt "foob")))) ≡ some (txt "foob")
base64_lem_example =
    base64_lem (txt "foob") (omega arith, (omega arith, (omega arith, (omega arith, tt))))

abbrev config : JwtConfig
config = record { secret = txt "change-me"; expiration_hours = 0 }

-- The concrete library writes a number as one character, so the clock is at 200 seconds, and the
-- token is checked by a clock that is 50 seconds behind.
ascii : is_utf8 (txt "ann") ≡ true
unfolding utf8_from
ascii = refl

verify_token-generate_token_example :
    (token : Text) × (generate_token plain config (200 * second) (200 * second) (pos 7) (txt "ann")
      ≡ some token)
    × (verify_token plain config (150 * second) token
        ≡ some (record { user_id = pos 7; username = txt "ann"; exp = pos 200 }))
unfolding plain_dump
verify_token-generate_token_example =
    verify_token-generate_token plain config (200 * second) (200 * second) (150 * second) (pos 7)
      (txt "ann") plain-IsJson ascii (ground arith) (ground arith)

-- The token that is issued there.
issued :
    (token : Text) × (generate_token plain config (200 * second) (200 * second) (pos 7) (txt "ann")
      ≡ some token)
    × (verify_token plain config (150 * second) token
        ≡ some (record { user_id = pos 7; username = txt "ann"; exp = pos 200 }))
unfolding plain_dump
issued =
    verify_token-generate_token plain config (200 * second) (200 * second) (150 * second) (pos 7)
      (txt "ann") plain-IsJson ascii (ground arith) (ground arith)

abbrev token : Text
token = issued.0

-- It is accepted, so it is one with a signature.
verify_token-Signed_example :
    (header : Text) × (payload : Text) × (token
      ≡ header ++ dot ∷ (payload ++ dot ∷ encoded_signature plain config (header ++ dot ∷ payload)))
    × (leb_ℤ (pos 200) (pos (150 * second / second)) ≡ false)
verify_token-Signed_example =
    verify_token-Signed plain config (150 * second) token
      (record { user_id = pos 7; username = txt "ann"; exp = pos 200 }) issued.2
