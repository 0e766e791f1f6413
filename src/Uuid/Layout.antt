-- ===== src/Uuid/Layout.antt =====
-- The layout of what src/util/uuid.cpp generates.
use natt.Prelude.{
  ℕ, zero, suc, ◌+◌, ◌/◌, ◌%◌, ◌*◌, ◌^◌, ◌<◌, ◌≡◌, refl, sym, ap, ◌∙◌, Bool, true, ◌&&◌, ◌||◌, [],
  ◌∷◌, ◌++◌, arith, leb, length, take, drop, All, length-append, Text, txt,
}
use Prim.Native.Nat.{bit_and, bit_or}
use native.Mathlib.Nat.{pow-succ', div-div-eq-div-mul}
use natt.Address.Bits.{bit_and_low, bit_and_step, bit_or_step}
use natt.Auth.Sha.{hex_digit}
use natt.Uuid.{hex_fixed, hex8, hex4, with_version, with_variant, generate_uuid}

div_two_pow : (k x : ℕ) → x / 2 ^ suc k ≡ x / 2 / 2 ^ k
div_two_pow k x = ap (◌/◌ x) (pow-succ' 2 k) ∙ sym (div-div-eq-div-mul x 2 (2 ^ k))

div_one : (x : ℕ) → x / 2 ^ 0 ≡ x
div_one x = omega arith

bit_and-shift : (k x y : ℕ) → bit_and x y / 2 ^ k ≡ bit_and (x / 2 ^ k) (y / 2 ^ k)
bit_and-shift zero x y = rw (div_one (bit_and x y), div_one x, div_one y) refl
bit_and-shift (suc k) x y =
    div_two_pow k (bit_and x y)
    ∙ ap (λ (b : ℕ). b / 2 ^ k) (omega (arith, bit_and_step x y))
    ∙ bit_and-shift k (x / 2) (y / 2)
    ∙ rw (div_two_pow k x, div_two_pow k y) refl

bit_or-shift : (k x y : ℕ) → bit_or x y / 2 ^ k ≡ bit_or (x / 2 ^ k) (y / 2 ^ k)
bit_or-shift zero x y = rw (div_one (bit_or x y), div_one x, div_one y) refl
bit_or-shift (suc k) x y =
    div_two_pow k (bit_or x y)
    ∙ ap (λ (b : ℕ). b / 2 ^ k) (omega (arith, bit_or_step x y))
    ∙ bit_or-shift k (x / 2) (y / 2)
    ∙ rw (div_two_pow k x, div_two_pow k y) refl

version_digit : (r1 : ℕ) → with_version r1 / 2 ^ 12 % 16 ≡ 4
unfolding with_version
version_digit r1 =
    ap (λ (b : ℕ). b % 16) (bit_or-shift 12 (bit_and r1 0xFFFFFFFFFFFF0FFF) 0x4000)
    ∙ ap (λ (b : ℕ). bit_or b 4 % 16) (bit_and-shift 12 r1 0xFFFFFFFFFFFF0FFF)
    ∙ four (r1 / 2 ^ 12)
  where
    clear : (x : ℕ) → bit_and x 0xFFFFFFFFFFFF0 % 16 ≡ 0
    clear x = omega (
      arith,
      bit_and_step x 0xFFFFFFFFFFFF0,
      bit_and_step (x / 2) 0x7FFFFFFFFFFF8,
      bit_and_step (x / 2 / 2) 0x3FFFFFFFFFFFC,
      bit_and_step (x / 2 / 2 / 2) 0x1FFFFFFFFFFFE,
    )

    four : (x : ℕ) → bit_or (bit_and x 0xFFFFFFFFFFFF0) 4 % 16 ≡ 4
    four x =
        let y : ℕ = bit_and x 0xFFFFFFFFFFFF0 in
        omega (
          arith,
          clear x,
          bit_or_step y 4,
          bit_or_step (y / 2) 2,
          bit_or_step (y / 2 / 2) 1,
          bit_or_step (y / 2 / 2 / 2) 0,
        )

variant_digit : (r2 : ℕ) → with_variant r2 / 2 ^ 60 % 16 ≡ 8 + r2 / 2 ^ 60 % 4
unfolding with_variant
variant_digit r2 =
    ap (λ (b : ℕ). b % 16) (bit_or-shift 60 (bit_and r2 0x3FFFFFFFFFFFFFFF) 0x8000000000000000)
    ∙ ap (λ (b : ℕ). bit_or b 8 % 16) (bit_and-shift 60 r2 0x3FFFFFFFFFFFFFFF)
    ∙ eight (r2 / 2 ^ 60)
  where
    clear : (x : ℕ) → bit_and x 3 ≡ x % 4
    clear x = bit_and_low 2 x

    eight : (x : ℕ) → bit_or (bit_and x 3) 8 % 16 ≡ 8 + x % 4
    eight x =
        let y : ℕ = bit_and x 3 in
        omega (
          arith,
          clear x,
          bit_or_step y 8,
          bit_or_step (y / 2) 4,
          bit_or_step (y / 2 / 2) 2,
          bit_or_step (y / 2 / 2 / 2) 1,
        )

abbrev pub is_hex : ℕ → Bool
is_hex c = leb 48 c && leb c 57 || leb 97 c && leb c 102

hex_fixed-hex : (n v : ℕ) → All (λ c. is_hex c ≡ true) (hex_fixed n v)
unfolding hex_fixed
hex_fixed-hex zero v = tt
hex_fixed-hex (suc n) v =
    let d : ℕ = v / 16 ^ n in (digit (d % 16) (omega arith), hex_fixed-hex n v)
  where
    digit : (d : ℕ) → d < 16 → is_hex (hex_digit d) ≡ true
    digit d h = ground arith

length-hex_fixed : (n v : ℕ) → length (hex_fixed n v) ≡ n
unfolding hex_fixed
length-hex_fixed zero v = refl
length-hex_fixed (suc n) v = ap suc (length-hex_fixed n v)

-- A group of n lower-case digits.
abbrev pub IsGroup : ℕ → Text → Type 0
IsGroup n s = (length s ≡ n) × All (λ c. is_hex c ≡ true) s

hex_fixed-IsGroup : (n v : ℕ) → IsGroup n (hex_fixed n v)
hex_fixed-IsGroup n v = (length-hex_fixed n v, hex_fixed-hex n v)

-- A UUID of version 4: groups of 8, 4, 4, 4 and 12 digits, of which the third starts with the version and
-- the fourth with the variant.
pub record IsUuid (s : Text) : Type 0 where
  pub first : Text
  pub second : Text
  pub third : Text
  pub fourth : Text
  pub fifth : Text
  pub variant : ℕ
  pub joined : s ≡ first ++ (45 ∷ (second ++ (45 ∷ (third ++ (45 ∷ (fourth ++ (45 ∷ fifth)))))))
  pub first-IsGroup : IsGroup 8 first
  pub second-IsGroup : IsGroup 4 second
  pub third-IsGroup : IsGroup 4 third
  pub fourth-IsGroup : IsGroup 4 fourth
  pub fifth-IsGroup : IsGroup 12 fifth
  pub version_is_4 : take 1 third ≡ txt "4"
  pub small : variant < 4
  pub variant_is_10 : take 1 fourth ≡ hex_digit (8 + variant) ∷ []

All-append : (P : ℕ → Type 0) (xs ys : Text) → All P xs → All P ys → All P (xs ++ ys)
All-append P [] ys h k = k
All-append P (x ∷ xs) ys h k = (h.0, All-append P xs ys h.1 k)

append-IsGroup : (m n : ℕ) (xs ys : Text) → IsGroup m xs → IsGroup n ys → IsGroup (m + n) (xs ++ ys)
append-IsGroup m n xs ys h k =
    (omega (arith, length-append xs ys, h.0, k.0), All-append _ xs ys h.1 k.1)

starts_with_version : (r : ℕ) → r / 2 ^ 12 % 16 ≡ 4 → take 1 (hex4 r 0) ≡ txt "4"
unfolding hex4 hex_fixed
starts_with_version r h =
    let e : r / 2 ^ 0 % 2 ^ 16 / 16 ^ 3 % 16 ≡ 4 = omega (arith, h) in
    ap (λ (d : ℕ). hex_digit d ∷ []) e

starts_with_variant :
    (r k : ℕ) → r / 2 ^ 60 % 16 ≡ 8 + k → take 1 (hex4 r 48) ≡ hex_digit (8 + k) ∷ []
unfolding hex4 hex_fixed
starts_with_variant r k h =
    let e : r / 2 ^ 48 % 2 ^ 16 / 16 ^ 3 % 16 ≡ 8 + k = omega (arith, h) in
    ap (λ (d : ℕ). hex_digit d ∷ []) e

-- The high half of 32 bits is the group above.
twice : (r : ℕ) → hex_fixed 4 (r / 2 ^ 32 % 2 ^ 16) ≡ take 4 (hex_fixed 8 (r / 2 ^ 16 % 2 ^ 32))
unfolding hex_fixed
twice r = ap (λ (d : ℕ). hex_fixed 4 d) high ∙ top (r / 2 ^ 16 % 2 ^ 32)
  where
    top : (v : ℕ) → hex_fixed 4 (v / 2 ^ 16) ≡ take 4 (hex_fixed 8 v)
    top v =
        let d3 : v / 2 ^ 16 / 16 ^ 3 % 16 ≡ v / 16 ^ 7 % 16 = omega arith in
        let d2 : v / 2 ^ 16 / 16 ^ 2 % 16 ≡ v / 16 ^ 6 % 16 = omega arith in
        let d1 : v / 2 ^ 16 / 16 ^ 1 % 16 ≡ v / 16 ^ 5 % 16 = omega arith in
        let d0 : v / 2 ^ 16 / 16 ^ 0 % 16 ≡ v / 16 ^ 4 % 16 = omega arith in
        rw (d3, d2, d1, d0) refl

    high : r / 2 ^ 32 % 2 ^ 16 ≡ r / 2 ^ 16 % 2 ^ 32 / 2 ^ 16
    high = omega arith

parts :
    (a b c d e f : ℕ)
    → let s : Text =
        hex_fixed 8 a
        ++ (45
            ∷ (hex_fixed 4 b
                ++ (45
                    ∷ (hex_fixed 4 c
                        ++ (45 ∷ (hex_fixed 4 d ++ (45 ∷ (hex_fixed 4 e ++ hex_fixed 8 f)))))))) in
      (take 4 (drop 24 s) ≡ hex_fixed 4 e) × (take 4 (drop 28 s) ≡ take 4 (hex_fixed 8 f))
unfolding hex_fixed
parts a b c d e f = (refl, refl)

-- What is above the last 16 bits of the second number.
with_variant-high :
    (x y : ℕ) → x / 2 ^ 16 ≡ y / 2 ^ 16 → with_variant x / 2 ^ 16 ≡ with_variant y / 2 ^ 16
unfolding with_variant
with_variant-high x y h = above x ∙ ap masked h ∙ sym (above y)
  where
    masked : ℕ → ℕ
    masked v = bit_or (bit_and v (0x3FFFFFFFFFFFFFFF / 2 ^ 16)) (0x8000000000000000 / 2 ^ 16)

    above :
        (v : ℕ)
        → bit_or (bit_and v 0x3FFFFFFFFFFFFFFF) 0x8000000000000000 / 2 ^ 16 ≡ masked (v / 2 ^ 16)
    above v =
        bit_or-shift 16 (bit_and v 0x3FFFFFFFFFFFFFFF) 0x8000000000000000
        ∙ ap (λ (b : ℕ). bit_or b (0x8000000000000000 / 2 ^ 16))
            (bit_and-shift 16 v 0x3FFFFFFFFFFFFFFF)

low_unseen : (gen1 x y : ℕ) → x / 2 ^ 16 ≡ y / 2 ^ 16 → generate_uuid gen1 x ≡ generate_uuid gen1 y
unfolding generate_uuid hex8 hex4
low_unseen gen1 x y h =
    let r : ℕ = with_variant x in
    let r' : ℕ = with_variant y in
    let same = with_variant-high x y h in
    let a : r / 2 ^ 48 % 2 ^ 16 ≡ r' / 2 ^ 48 % 2 ^ 16 = omega (arith, same) in
    let b : r / 2 ^ 32 % 2 ^ 16 ≡ r' / 2 ^ 32 % 2 ^ 16 = omega (arith, same) in
    let c : r / 2 ^ 16 % 2 ^ 32 ≡ r' / 2 ^ 16 % 2 ^ 32 = omega (arith, same) in rw (a, b, c) refl

-- Whatever the generator gives, the text is a UUID of version 4; but the first four digits of its last
-- group are there twice, and whatever the last 16 bits of the second number are, the text is the same.
pub generate_uuid-IsUuid :
    (gen1 gen2 low : ℕ)
    → low < 2 ^ 16
    → IsUuid (generate_uuid gen1 gen2)
      × (take 4 (drop 24 (generate_uuid gen1 gen2)) ≡ take 4 (drop 28 (generate_uuid gen1 gen2)))
      × (generate_uuid gen1 (gen2 / 2 ^ 16 * 2 ^ 16 + low) ≡ generate_uuid gen1 gen2)
unfolding generate_uuid hex8 hex4
generate_uuid-IsUuid gen1 gen2 low h = (
  record {
    first = hex8 r1 32;
    second = hex4 r1 16;
    third = hex4 r1 0;
    fourth = hex4 r2 48;
    fifth = hex4 r2 32 ++ hex8 r2 16;
    variant = gen2 / 2 ^ 60 % 4;
    joined = refl;
    first-IsGroup = hex_fixed-IsGroup 8 _;
    second-IsGroup = hex_fixed-IsGroup 4 _;
    third-IsGroup = hex_fixed-IsGroup 4 _;
    fourth-IsGroup = hex_fixed-IsGroup 4 _;
    fifth-IsGroup =
        append-IsGroup 4 8 (hex4 r2 32) (hex8 r2 16) (hex_fixed-IsGroup 4 _)
          (hex_fixed-IsGroup 8 _);
    version_is_4 = starts_with_version r1 (version_digit gen1);
    small = omega arith;
    variant_is_10 = starts_with_variant r2 (gen2 / 2 ^ 60 % 4) (variant_digit gen2);
  },
  (parts _ _ _ _ _ _).0 ∙ twice r2 ∙ sym (parts _ _ _ _ _ _).1,
  low_unseen gen1 (gen2 / 2 ^ 16 * 2 ^ 16 + low) gen2 (omega arith),
)
  where
    r1 : ℕ
    r1 = with_version gen1

    r2 : ℕ
    r2 = with_variant gen2
