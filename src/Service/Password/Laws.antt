-- ===== src/Service/Password/Laws.antt =====
-- A password of src/service/user_service.cpp against its own hash.
use natt.Prelude.{
  ℕ, ◌+◌, ◌*◌, ◌/◌, ◌%◌, ◌<◌, ◌≡◌, refl, ap, ◌∙◌, ◌≢◌, false, ◌||◌, some, [], ◌∷◌, ◌++◌, arith,
  ◌==◌, length, All, Text, txt, text_eq, split_at-append, Lacks,
}
use natt.Auth.Sha.{hex_digit, hex_bytes}
use natt.Auth.Base64.Digits.{IsByte}
use natt.Service.Password.{
  bytes_to_hex, derive, hash_password, hex_value, is_white, salt_byte, read_salt, verify_password,
}

hex_value-hex_digit : (n : ℕ) → n < 16 → hex_value (hex_digit n) ≡ some n
hex_value-hex_digit n h = ground arith

-- A digit is no white space, no sign and no separator.
hex_digit-plain :
    (n : ℕ)
    → ((is_white (hex_digit n) || hex_digit n == 43) ≡ false)
      × ((hex_digit n == 45) ≡ false)
      × (hex_digit n ≢ 36)
hex_digit-plain n = ground arith

salt_byte-hex : (b : ℕ) → IsByte b → salt_byte (hex_digit (b / 16)) (hex_digit (b % 16)) ≡ b
unfolding salt_byte
salt_byte-hex b h =
    let (white, minus, sign) = hex_digit-plain (b / 16) in
    let whole : b / 16 * 16 + b % 16 ≡ b = omega arith in
    rw
      (
        white,
        minus,
        hex_value-hex_digit (b / 16) (omega arith),
        hex_value-hex_digit (b % 16) (omega arith),
        whole,
      )
      refl

read_salt-hex :
    (salt behind : Text)
    → All IsByte salt
    → read_salt (length salt) (hex_bytes (salt ++ behind)) ≡ salt
unfolding read_salt
read_salt-hex [] behind h = refl
read_salt-hex (b ∷ salt) behind h =
    ap (λ (c : ℕ). c ∷ read_salt (length salt) (hex_bytes (salt ++ behind))) (salt_byte-hex b h.0)
    ∙ ap (◌∷◌ b) (read_salt-hex salt behind h.1)

hex_bytes-Lacks : (bytes : Text) → Lacks 36 (hex_bytes bytes)
hex_bytes-Lacks [] = tt
hex_bytes-Lacks (b ∷ bytes) =
    ((hex_digit-plain (b / 16)).2, ((hex_digit-plain (b % 16)).2, hex_bytes-Lacks bytes))

iterations-Lacks : Lacks 36 (txt "10000")
iterations-Lacks =
    (ground arith, (ground arith, (ground arith, (ground arith, (ground arith, tt)))))

-- The hash of a password with a salt of 16 bytes, whatever stands behind the salt in memory, is accepted
-- for the passwords that derive the same bytes with this salt and for no others; so for the password
-- itself.
pub verify_password-hash_password :
    (salt behind password given : Text)
    → All IsByte salt
    → length salt ≡ 16
    → verify_password given (hash_password salt behind password)
      ≡ text_eq (bytes_to_hex (derive given salt)) (bytes_to_hex (derive password salt))
unfolding verify_password hash_password text_eq
verify_password-hash_password salt behind password given bytes size =
    rw
      (
        split_at-append 36 (txt "10000")
            (bytes_to_hex (salt ++ behind) ++ (36 ∷ bytes_to_hex (derive password salt)))
            iterations-Lacks,
        split_at-append 36 (bytes_to_hex (salt ++ behind)) (bytes_to_hex (derive password salt))
            (hex_bytes-Lacks (salt ++ behind)),
        ← size,
        read_salt-hex salt behind bytes,
      )
      refl
