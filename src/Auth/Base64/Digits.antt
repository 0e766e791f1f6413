-- ===== src/Auth/Base64/Digits.antt =====
-- src/auth/jwt.cpp: the digits of the codec.
use Prim.Native.Nat.{bit_and, bit_or}
use natt.Prelude.{
  ℕ, zero, suc, ◌+◌, ◌*◌, ◌/◌, ◌%◌, ◌<◌, ◌≡◌, refl, ap, ◌∙◌, inl, inr, Bool, true, false, not, ◌&&◌,
  Option, none, some, [], ◌∷◌, arith, ◌==◌, Bool-cases, All, Text,
}
use natt.Address.Bits.{bit_and_low, bit_or_apart}
use natt.Auth.Base64.{digit, pad, base64_encode, value_of, decoded, base64_decode}

abbrev pub IsByte : ℕ → Type 0
IsByte c = c < 256

-- A test holds of every number below the bound.
every_below : ℕ → (ℕ → Bool) → Bool
every_below zero p = true
every_below (suc n) p = p n && every_below n p

of_every_below : (n : ℕ) (p : ℕ → Bool) (k : ℕ) → every_below n p ≡ true → k < n → p k ≡ true
unfolding every_below
of_every_below zero p k h lt = absurd (omega arith)
of_every_below (suc n) p k h lt = elim (Bool-cases (k == n)) [
  | inl last ↦ at_end (ground (arith, last))
  | inr below ↦ of_every_below n p k (ground arith) (ground (arith, below))
]
  where
    at_end : k ≡ n → p k ≡ true
    at_end e = rw e (ground arith)

is_value : Option ℕ → ℕ → Bool
is_value none n = false
is_value (some v) n = v == n

-- What a digit is: a character that is neither `=` nor `.`, with the digit as its value.
good_digit : ℕ → Bool
good_digit n = is_value (value_of (digit n)) n && not (digit n == pad) && not (digit n == 46)

all_good : every_below 64 good_digit ≡ true
unfolding every_below good_digit is_value value_of digit
all_good = refl

pub value_of-digit :
    (n : ℕ)
    → n < 64
    → (value_of (digit n) ≡ some n) × ((digit n == pad) ≡ false) × ((digit n == 46) ≡ false)
unfolding good_digit is_value
value_of-digit n h =
    let e : good_digit n ≡ true = of_every_below 64 good_digit n all_good h in ground (arith, e)

-- The three digits that are put together from two bytes, and their undoing.
abbrev pub second_digit : ℕ → ℕ → ℕ
second_digit a b = bit_or (bit_and a 3 * 16) (b / 16)

abbrev pub third_digit : ℕ → ℕ → ℕ
third_digit b c = bit_or (bit_and b 15 * 4) (c / 64)

second_digit_lem : (a b : ℕ) → b < 256 → second_digit a b ≡ a % 4 * 16 + b / 16
second_digit_lem a b h = rw (bit_and_low 2 a) (bit_or_apart 4 (a % 4) (b / 16) (omega arith))

third_digit_lem : (b c : ℕ) → c < 256 → third_digit b c ≡ b % 16 * 4 + c / 64
third_digit_lem b c h = rw (bit_and_low 4 b) (bit_or_apart 2 (b % 16) (c / 64) (omega arith))

first_byte : (a b : ℕ) → a < 256 → b < 256 → bit_or (a / 4 * 4 % 256) (second_digit a b / 16) ≡ a
first_byte a b h k =
    rw (second_digit_lem a b k, whole)
      (omega (arith, bit_or_apart 2 (a / 4) ((a % 4 * 16 + b / 16) / 16) (omega arith)))
  where
    whole : a / 4 * 4 % 256 ≡ a / 4 * 4
    whole = omega arith

second_byte :
    (a b c : ℕ)
    → b < 256
    → c < 256
    → bit_or (bit_and (second_digit a b) 15 * 16 % 256) (third_digit b c / 4) ≡ b
second_byte a b c h k =
    rw (second_digit_lem a b h, third_digit_lem b c k, bit_and_low 4 (a % 4 * 16 + b / 16), whole)
      (omega (arith, bit_or_apart 4 (b / 16) ((b % 16 * 4 + c / 64) / 4) (omega arith)))
  where
    whole : (a % 4 * 16 + b / 16) % 16 * 16 % 256 ≡ b / 16 * 16
    whole = omega arith

third_byte :
    (b c : ℕ) → c < 256 → bit_or (bit_and (third_digit b c) 3 * 64 % 256) (bit_and c 63) ≡ c
third_byte b c h =
    rw (third_digit_lem b c h, bit_and_low 2 (b % 16 * 4 + c / 64), bit_and_low 6 c, whole)
      (omega (arith, bit_or_apart 6 (c / 64) (c % 64) (omega arith)))
  where
    whole : (b % 16 * 4 + c / 64) % 4 * 64 % 256 ≡ c / 64 * 64
    whole = omega arith

decode_round :
    (c0 c1 c2 c3 v0 v1 v2 v3 : ℕ) (input rest : Text)
    → value_of c0 ≡ some v0
    → value_of c1 ≡ some v1
    → value_of c2 ≡ some v2
    → value_of c3 ≡ some v3
    → base64_decode input ≡ some rest
    → base64_decode (c0 ∷ c1 ∷ c2 ∷ c3 ∷ input) ≡ some (decoded c2 c3 v0 v1 v2 v3 rest)
unfolding base64_decode
decode_round c0 c1 c2 c3 v0 v1 v2 v3 input rest e0 e1 e2 e3 e = rw (e0, e1, e2, e3, e) refl

value_of-pad : value_of pad ≡ some 0
unfolding value_of
value_of-pad = refl

pub second_digit-lt : (a b : ℕ) → b < 256 → second_digit a b < 64
second_digit-lt a b h = omega (arith, second_digit_lem a b h)

pub third_digit-lt : (b c : ℕ) → c < 256 → third_digit b c < 64
third_digit-lt b c h = omega (arith, third_digit_lem b c h)

pub fourth_digit-lt : (c : ℕ) → bit_and c 63 < 64
fourth_digit-lt c = omega (arith, bit_and_low 6 c)

base64_decode-nil : base64_decode [] ≡ some []
unfolding base64_decode
base64_decode-nil = refl

pub base64_decode-encode : (s : Text) → All IsByte s → base64_decode (base64_encode s) ≡ some s
unfolding base64_encode
base64_decode-encode [] h = base64_decode-nil
base64_decode-encode (a ∷ []) h =
    let d0 = value_of-digit (a / 4) (omega arith) in
    let d1 = value_of-digit (second_digit a 0) (second_digit-lt a 0 (omega arith)) in
    decode_round _ _ pad pad (a / 4) (second_digit a 0) 0 0 [] [] d0.0 d1.0 value_of-pad
      value_of-pad base64_decode-nil
    ∙ ap (λ (x : ℕ). some (x ∷ [])) (first_byte a 0 h.0 (omega arith))
base64_decode-encode (a ∷ b ∷ []) h =
    let d0 = value_of-digit (a / 4) (omega arith) in
    let d1 = value_of-digit (second_digit a b) (second_digit-lt a b h.1.0) in
    let d2 = value_of-digit (third_digit b 0) (third_digit-lt b 0 (omega arith)) in
    decode_round _ _ _ pad (a / 4) (second_digit a b) (third_digit b 0) 0 [] [] d0.0 d1.0 d2.0
      value_of-pad base64_decode-nil
    ∙ rw (d2.1, first_byte a b h.0 h.1.0, second_byte a b 0 h.1.0 (omega arith)) refl
base64_decode-encode (a ∷ b ∷ c ∷ rest) h =
    let d0 = value_of-digit (a / 4) (omega arith) in
    let d1 = value_of-digit (second_digit a b) (second_digit-lt a b h.1.0) in
    let d2 = value_of-digit (third_digit b c) (third_digit-lt b c h.1.1.0) in
    let d3 = value_of-digit (bit_and c 63) (fourth_digit-lt c) in
    decode_round _ _ _ _ (a / 4) (second_digit a b) (third_digit b c) (bit_and c 63)
      (base64_encode rest) rest d0.0 d1.0 d2.0 d3.0 (base64_decode-encode rest h.1.1.1)
    ∙ rw
        (
          d2.1,
          d3.1,
          first_byte a b h.0 h.1.0,
          second_byte a b c h.1.0 h.1.1.0,
          third_byte b c h.1.1.0,
        )
        refl
