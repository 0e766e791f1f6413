-- ===== src/Auth/Base64.antt =====
-- The Base64URL codec of src/auth/jwt.cpp. A loop over the input takes three bytes, or four
-- characters, in a round. A read outside the input or the table is undefined, which is `none`.
pub mod Digits
pub mod Padding
use Prim.Native.Nat.{bit_and, bit_or}
use natt.Json.{◌>>=◌}
use natt.Prelude.{
  ℕ, zero, suc, ◌+◌, ◌-◌, ◌*◌, ◌/◌, ◌%◌, ◌&&◌, Option, none, some, List, [], ◌∷◌, ◌++◌, leb, ◌==◌,
  if◌then◌else◌, length, is_empty, get_or, Text, txt,
}

abbrev pub base64_url : Text
base64_url = txt "ABCDEFGHIJKLMNOPQRSTUVWXYZabcdefghijklmnopqrstuvwxyz0123456789-_"

-- `BASE64_URL[n]`
unfoldable pub digit : ℕ → ℕ
digit n = get_or base64_url n 0

-- The character `=`.
abbrev pub pad : ℕ
pad = 61

unfoldable pub base64_encode : Text → Text
base64_encode [] = []
base64_encode (a ∷ []) = digit (a / 4) ∷ digit (bit_or (bit_and a 3 * 16) (0 / 16)) ∷ pad ∷ pad ∷ []
base64_encode (a ∷ b ∷ []) =
    digit (a / 4)
    ∷ digit (bit_or (bit_and a 3 * 16) (b / 16))
    ∷ digit (bit_or (bit_and b 15 * 4) (0 / 64))
    ∷ pad
    ∷ []
base64_encode (a ∷ b ∷ c ∷ rest) =
    digit (a / 4)
    ∷ digit (bit_or (bit_and a 3 * 16) (b / 16))
    ∷ digit (bit_or (bit_and b 15 * 4) (c / 64))
    ∷ digit (bit_and c 63)
    ∷ base64_encode rest

-- `D64`, from the character `-` (45) to `z` (122).
abbrev pub d64 : List ℕ
d64 =
    62 ∷ 0 ∷ 0 ∷ 52 ∷ 53 ∷ 54 ∷ 55 ∷ 56 ∷ 57 ∷ 58 ∷ 59 ∷ 60 ∷ 61 ∷ 0 ∷ 0 ∷ 0 ∷ 0 ∷ 0 ∷ 0 ∷ 0 ∷ 0 ∷ 1
    ∷ 2 ∷ 3 ∷ 4 ∷ 5 ∷ 6 ∷ 7 ∷ 8 ∷ 9 ∷ 10 ∷ 11 ∷ 12 ∷ 13 ∷ 14 ∷ 15 ∷ 16 ∷ 17 ∷ 18 ∷ 19 ∷ 20 ∷ 21 ∷ 22
    ∷ 23 ∷ 24 ∷ 25 ∷ 0 ∷ 0 ∷ 0 ∷ 0 ∷ 63 ∷ 0 ∷ 26 ∷ 27 ∷ 28 ∷ 29 ∷ 30 ∷ 31 ∷ 32 ∷ 33 ∷ 34 ∷ 35 ∷ 36
    ∷ 37 ∷ 38 ∷ 39 ∷ 40 ∷ 41 ∷ 42 ∷ 43 ∷ 44 ∷ 45 ∷ 46 ∷ 47 ∷ 48 ∷ 49 ∷ 50 ∷ 51 ∷ []

-- The value of a character, where the table has one.
unfoldable pub value_of : ℕ → Option ℕ
value_of c =
    if c == pad
    then some 0
    else if leb 45 c && leb c 122
    then some (get_or d64 (c - 45) 0)
    else none

-- The bytes that a round puts out. `out` is a string of bytes: a shift to the left loses the high bits.
abbrev pub decoded : ℕ → ℕ → ℕ → ℕ → ℕ → ℕ → Text → Text
decoded c2 c3 v0 v1 v2 v3 rest =
    let last = (if c3 == pad then rest else bit_or (bit_and v2 3 * 64 % 256) v3 ∷ rest) in
    bit_or (v0 * 4 % 256) (v1 / 16)
    ∷ (if c2 == pad then last else bit_or (bit_and v1 15 * 16 % 256) (v2 / 4) ∷ last)

unfoldable pub base64_decode : Text → Option Text
base64_decode [] = some []
base64_decode (c0 ∷ c1 ∷ c2 ∷ c3 ∷ input) = do
  v0 ← value_of c0
  v1 ← value_of c1
  v2 ← value_of c2
  v3 ← value_of c3
  rest ← base64_decode input
  some (decoded c2 c3 v0 v1 v2 v3 rest)
base64_decode (_ ∷ _) = none

-- `while (!s.empty() && s.back() == '=') s.pop_back();`
unfoldable pub strip_pad : Text → Text
strip_pad [] = []
strip_pad (c ∷ s) = let rest = strip_pad s in if c == pad && is_empty rest then [] else c ∷ rest

-- `while (s.size() % 4) s.push_back('=');`, for the number of rounds.
unfoldable pub restore_pad : ℕ → Text → Text
restore_pad zero s = s
restore_pad (suc fuel) s =
    let rest = restore_pad fuel (s ++ pad ∷ []) in if length s % 4 == 0 then s else rest
