-- ===== src/Auth/Base64/Padding.antt =====
-- src/auth/jwt.cpp: the padding of the codec, which the tokens strip and restore.
use Prim.Native.Nat.{bit_and}
use natt.Prelude.{
  ℕ, zero, suc, ◌/◌, ◌%◌, ◌≡◌, refl, ◌≢◌, inl, inr, false, some, [], ◌∷◌, ◌++◌, arith, ◌==◌,
  Bool-cases, length, All, length-append, Text, Lacks,
}
use natt.Auth.Base64.{pad, base64_encode, base64_decode, strip_pad, restore_pad}
use natt.Auth.Base64.Digits.{
  IsByte, value_of-digit, second_digit, third_digit, second_digit-lt, third_digit-lt,
  fourth_digit-lt, base64_decode-encode,
}

strip_pad-cons : (c : ℕ) (s : Text) → (c == pad) ≡ false → strip_pad (c ∷ s) ≡ c ∷ strip_pad s
unfolding strip_pad
strip_pad-cons c s h = rw h refl

restore_pad-round :
    (fuel a b c d : ℕ) (s : Text)
    → restore_pad fuel (a ∷ b ∷ c ∷ d ∷ s) ≡ a ∷ b ∷ c ∷ d ∷ restore_pad fuel s
unfolding restore_pad
restore_pad-round zero a b c d s = refl
restore_pad-round (suc fuel) a b c d s = rw again (elim (Bool-cases (length s % 4 == 0)) [
  | inl full ↦ rw full refl
  | inr short ↦ rw (short, restore_pad-round fuel a b c d (s ++ pad ∷ [])) refl
])
  where
    again : (length (a ∷ b ∷ c ∷ d ∷ s) % 4 == 0) ≡ (length s % 4 == 0)
    again = ground arith

-- Three rounds of padding make the length a multiple of four.
pub length-restore_pad : (s : Text) → length (restore_pad 3 s) % 4 ≡ 0
unfolding restore_pad
length-restore_pad s = ground (
  arith,
  length-append s (pad ∷ []),
  length-append (s ++ pad ∷ []) (pad ∷ []),
  length-append ((s ++ pad ∷ []) ++ pad ∷ []) (pad ∷ []),
)

padded_nil : restore_pad 3 (strip_pad []) ≡ []
unfolding restore_pad strip_pad
padded_nil = refl

padded_two : (a b : ℕ) → restore_pad 3 (a ∷ b ∷ strip_pad (pad ∷ pad ∷ [])) ≡ a ∷ b ∷ pad ∷ pad ∷ []
unfolding restore_pad strip_pad
padded_two a b = refl

padded_three : (a b c : ℕ) → restore_pad 3 (a ∷ b ∷ c ∷ strip_pad (pad ∷ [])) ≡ a ∷ b ∷ c ∷ pad ∷ []
unfolding restore_pad strip_pad
padded_three a b c = refl

pub restore_pad-strip_pad-encode :
    (s : Text) → All IsByte s → restore_pad 3 (strip_pad (base64_encode s)) ≡ base64_encode s
unfolding base64_encode
restore_pad-strip_pad-encode [] h = padded_nil
restore_pad-strip_pad-encode (a ∷ []) h =
    let d0 = value_of-digit (a / 4) (omega arith) in
    let d1 = value_of-digit (second_digit a 0) (second_digit-lt a 0 (omega arith)) in
    rw (strip_pad-cons _ _ d0.1, strip_pad-cons _ _ d1.1) (padded_two _ _)
restore_pad-strip_pad-encode (a ∷ b ∷ []) h =
    let d0 = value_of-digit (a / 4) (omega arith) in
    let d1 = value_of-digit (second_digit a b) (second_digit-lt a b h.1.0) in
    let d2 = value_of-digit (third_digit b 0) (third_digit-lt b 0 (omega arith)) in
    rw (strip_pad-cons _ _ d0.1, strip_pad-cons _ _ d1.1, strip_pad-cons _ _ d2.1)
      (padded_three _ _ _)
restore_pad-strip_pad-encode (a ∷ b ∷ c ∷ rest) h =
    let d0 = value_of-digit (a / 4) (omega arith) in
    let d1 = value_of-digit (second_digit a b) (second_digit-lt a b h.1.0) in
    let d2 = value_of-digit (third_digit b c) (third_digit-lt b c h.1.1.0) in
    let d3 = value_of-digit (bit_and c 63) (fourth_digit-lt c) in
    rw
      (
        strip_pad-cons _ _ d0.1,
        strip_pad-cons _ _ d1.1,
        strip_pad-cons _ _ d2.1,
        strip_pad-cons _ _ d3.1,
        restore_pad-round 3 _ _ _ _ (strip_pad (base64_encode rest)),
        restore_pad-strip_pad-encode rest h.1.1.1,
      )
      refl

-- What is encoded without the padding, in the way of the tokens, is read back.
pub base64_lem :
    (s : Text) → All IsByte s → base64_decode (restore_pad 3 (strip_pad (base64_encode s))) ≡ some s
base64_lem s h = rw (restore_pad-strip_pad-encode s h) (base64_decode-encode s h)

strip_nil : strip_pad [] ≡ []
unfolding strip_pad
strip_nil = refl

strip_one : strip_pad (pad ∷ []) ≡ []
unfolding strip_pad
strip_one = refl

strip_two : strip_pad (pad ∷ pad ∷ []) ≡ []
unfolding strip_pad
strip_two = refl

no_dot : {c : ℕ} → (c == 46) ≡ false → c ≢ 46
no_dot {c} h = ground (arith, h)

-- The encoded text without its padding has no dot.
pub strip_pad-encode-Lacks : (s : Text) → All IsByte s → Lacks 46 (strip_pad (base64_encode s))
unfolding base64_encode
strip_pad-encode-Lacks [] h = rw strip_nil tt
strip_pad-encode-Lacks (a ∷ []) h =
    let d0 = value_of-digit (a / 4) (omega arith) in
    let d1 = value_of-digit (second_digit a 0) (second_digit-lt a 0 (omega arith)) in
    rw (strip_pad-cons _ _ d0.1, strip_pad-cons _ _ d1.1, strip_two)
      (no_dot d0.2, (no_dot d1.2, tt))
strip_pad-encode-Lacks (a ∷ b ∷ []) h =
    let d0 = value_of-digit (a / 4) (omega arith) in
    let d1 = value_of-digit (second_digit a b) (second_digit-lt a b h.1.0) in
    let d2 = value_of-digit (third_digit b 0) (third_digit-lt b 0 (omega arith)) in
    rw (strip_pad-cons _ _ d0.1, strip_pad-cons _ _ d1.1, strip_pad-cons _ _ d2.1, strip_one)
      (no_dot d0.2, (no_dot d1.2, (no_dot d2.2, tt)))
strip_pad-encode-Lacks (a ∷ b ∷ c ∷ rest) h =
    let d0 = value_of-digit (a / 4) (omega arith) in
    let d1 = value_of-digit (second_digit a b) (second_digit-lt a b h.1.0) in
    let d2 = value_of-digit (third_digit b c) (third_digit-lt b c h.1.1.0) in
    let d3 = value_of-digit (bit_and c 63) (fourth_digit-lt c) in
    rw
      (
        strip_pad-cons _ _ d0.1,
        strip_pad-cons _ _ d1.1,
        strip_pad-cons _ _ d2.1,
        strip_pad-cons _ _ d3.1,
      )
      (
        no_dot d0.2,
        (no_dot d1.2, (no_dot d2.2, (no_dot d3.2, strip_pad-encode-Lacks rest h.1.1.1))),
      )
