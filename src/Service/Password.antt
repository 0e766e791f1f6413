-- ===== src/Service/Password.antt =====
-- The password hashes of src/service/user_service.cpp. `InnerSHA256` has the statements of the class in
-- src/auth/jwt.cpp, which the first three functions name.
pub mod Laws
use natt.Prelude.{
  ℕ, zero, suc, ◌+◌, ◌-◌, ◌*◌, ◌%◌, Bool, false, not, ◌&&◌, ◌||◌, Option, none, some, List, [], ◌∷◌,
  ◌++◌, map, leb, ◌==◌, if◌then◌else◌, take, drop, replicate, Text, txt, text_eq, split_at,
}
use Prim.Native.Nat.{bit_xor}
use natt.Auth.Sha.{Sha, reset, transform, update, digest, hex_bytes}

abbrev pub process : Sha → Sha
process s = transform s

abbrev pub write : List ℕ → Sha → Sha
write bytes s = update bytes s

abbrev pub finish : Sha → List ℕ
finish s = digest s

-- The key has 32 bytes.
unfoldable pub hmac_sha256_raw : Text → Text → Text
hmac_sha256_raw key bytes =
    let kpad = key ++ replicate 32 0 in
    let inner = write bytes (write (map (λ k. bit_xor k 0x36) kpad) reset) in
    finish (write (finish inner) (write (map (λ k. bit_xor k 0x5c) kpad) reset))

abbrev pub bytes_to_hex : Text → Text
bytes_to_hex bytes = hex_bytes bytes

-- `for (int i = 0; i < n; ++i) derived = hmac_sha256_raw(derived, derived)`
unfoldable pub iterate : ℕ → Text → Text
iterate zero derived = derived
iterate (suc n) derived = iterate n (hmac_sha256_raw derived derived)

-- 10000 rounds, the first over the password and the salt.
unfoldable pub derive : Text → Text → Text
derive password salt = iterate 9999 (hmac_sha256_raw (replicate 32 0) (password ++ salt))

-- `salt` has 16 bytes; `behind` are the 16 bytes that stand behind it in memory, which the cast to an
-- array of 32 bytes reads.
unfoldable pub hash_password : Text → Text → Text → Text
hash_password salt behind password =
    txt "$sha256$"
    ++ (txt "10000"
        ++ (36 ∷ (bytes_to_hex (salt ++ behind) ++ (36 ∷ bytes_to_hex (derive password salt)))))

abbrev pub hex_value : ℕ → Option ℕ
hex_value c =
    if leb 48 c && leb c 57
    then some (c - 48)
    else if leb 65 c && leb c 70
    then some (c - 55)
    else if leb 97 c && leb c 102
    then some (c - 87)
    else none

abbrev pub is_white : ℕ → Bool
is_white c = c == 32 || leb 9 c && leb c 13

-- `strtol` of two characters in base 16, as a byte: white space and a sign may stand in front.
unfoldable pub salt_byte : ℕ → ℕ → ℕ
salt_byte a b =
    if is_white a || a == 43
    then elim (hex_value b) [ none ↦ 0 | some d ↦ d ]
    else if a == 45
    then elim (hex_value b) [ none ↦ 0 | some d ↦ (256 - d) % 256 ]
    else elim (hex_value a) [
      | none ↦ 0
      | some x ↦ elim (hex_value b) [ none ↦ x | some y ↦ x * 16 + y ]
    ]

-- The first `n` bytes of the salt, which are zero where the text has no two characters for them.
unfoldable pub read_salt : ℕ → Text → Text
read_salt zero salt_hex = []
read_salt (suc n) [] = 0 ∷ read_salt n []
read_salt (suc n) (a ∷ []) = 0 ∷ read_salt n []
read_salt (suc n) (a ∷ b ∷ salt_hex) = salt_byte a b ∷ read_salt n salt_hex

abbrev pub matches : Text → Text → Text → Bool
matches password salt_hex expected_hex =
    text_eq (bytes_to_hex (derive password (read_salt 16 salt_hex))) expected_hex

-- Without a `$` behind the prefix, `second` is `npos`, and the next search starts at 0, where it finds
-- the first character.
unfoldable pub verify_password : Text → Text → Bool
verify_password password hash =
    if not (text_eq (take 8 hash) (txt "$sha256$"))
    then false
    else elim (split_at 36 (drop 8 hash)) [
      | none ↦ matches password [] (drop 1 hash)
      | some (iterations, after) ↦ elim (split_at 36 after) [
        | none ↦ false
        | some (salt_hex, expected_hex) ↦ matches password salt_hex expected_hex
      ]
    ]
