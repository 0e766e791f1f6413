-- ===== src/Inet/Dotted.antt =====
-- A concrete reader and printer of dotted addresses, which meets the laws. The tests run on it.
use native.Mathlib.Nat.{pow-succ', mul_assoc}
use natt.Prelude.{
  ℕ, zero, suc, ◌+◌, ◌*◌, ◌/◌, ◌%◌, ◌^◌, ◌<◌, ◌≡◌, refl, ap, ◌∙◌, ◌≢◌, inl, inr, Bool, true, false,
  ◌&&◌, Option, none, some, [], ◌∷◌, ◌++◌, arith, leb, ◌==◌, if◌then◌else◌, Option-cases, length,
  Text, txt, split_at, split_at-append, Lacks,
}
use natt.Inet.{Inet, IsInet}
use natt.Address.{to_string, digits_value, is_digit}

all_digits : Text → Bool
all_digits [] = true
all_digits (c ∷ s) = is_digit c && all_digits s

-- One to three digits with a value of at most 255.
read_octet : Text → Option ℕ
unfolding all_digits digits_value
read_octet s =
    if leb 1 (length s) && (leb (length s) 3 && all_digits s)
    then (let n = digits_value 0 s in if leb n 255 then some n else none)
    else none

abbrev octets : Option ℕ → Option ℕ → Option ℕ
octets none _ = none
octets (some hi) none = none
octets (some hi) (some lo) = some (hi * 256 + lo)

-- The number that n octets behind a text of the first ones stand for.
read_more : ℕ → Option ℕ → Text → Option ℕ
read_more zero hi s = octets hi (read_octet s)
read_more (suc n) hi s = elim (split_at b'.' s) [
  | none ↦ none
  | some (l, r) ↦ read_more n (octets hi (read_octet l)) r
]

unfoldable pub dotted_pton : Text → Option ℕ
unfolding read_more read_octet
dotted_pton = read_more 3 (some 0)

unfoldable pub dotted_ntop : ℕ → Text
dotted_ntop a =
    to_string (a / 2 ^ 24)
    ++ b'.'
      ∷ (to_string (a / 2 ^ 16 % 256)
          ++ b'.' ∷ (to_string (a / 2 ^ 8 % 256) ++ b'.' ∷ to_string (a % 256)))

abbrev pub dotted : Inet
dotted = record { pton = dotted_pton; ntop = dotted_ntop }

dotted_ntop_example : dotted_ntop 0x0a000102 ≡ txt "10.0.1.2"
unfolding dotted_ntop to_string
dotted_ntop_example = refl

dotted_pton_example : dotted_pton (txt "10.0.1.2") ≡ some 0x0a000102
unfolding dotted_pton split_at
dotted_pton_example = refl

-- The printed octets, checked one by one: what is read, and no dot or slash.
lacks : ℕ → Text → Bool
lacks sep [] = true
lacks sep (c ∷ s) = (if c == sep then false else true) && lacks sep s

octet_ok : ℕ → Bool
octet_ok n =
    let s = to_string n in
    elim (read_octet s) [ none ↦ false | some m ↦ m == n ] && (lacks b'.' s && lacks b'/' s)

all_ok : ℕ → Bool
all_ok zero = true
all_ok (suc n) = octet_ok n && all_ok n

octets_ok : all_ok 256 ≡ true
unfolding all_ok octet_ok lacks read_octet to_string
octets_ok = refl

all_ok_sound : (k n : ℕ) → all_ok k ≡ true → n < k → octet_ok n ≡ true
unfolding all_ok
all_ok_sound zero n h l = absurd (omega arith)
all_ok_sound (suc k) n h l = ground (arith, all_ok_sound k n)

Lacks-of_lacks : (sep : ℕ) (s : Text) → lacks sep s ≡ true → Lacks sep s
unfolding lacks
Lacks-of_lacks sep [] h = tt
Lacks-of_lacks sep (c ∷ s) h = ground (arith, Lacks-of_lacks sep s)

octet_facts :
    (n : ℕ)
    → octet_ok n ≡ true
    → (read_octet (to_string n) ≡ some n)
      × (lacks b'.' (to_string n) ≡ true)
      × (lacks b'/' (to_string n) ≡ true)
unfolding octet_ok
octet_facts n e = ground arith

-- An octet is printed without dots and slashes, and read back.
octet_laws :
    (n : ℕ)
    → n < 256
    → (read_octet (to_string n) ≡ some n) × Lacks b'.' (to_string n) × Lacks b'/' (to_string n)
octet_laws n h =
    let (read, dot, slash) = octet_facts n (all_ok_sound 256 n octets_ok h) in
    (read, Lacks-of_lacks b'.' (to_string n) dot, Lacks-of_lacks b'/' (to_string n) slash)

octet_below : (s : Text) (n : ℕ) → read_octet s ≡ some n → n < 256
unfolding read_octet
octet_below s n h = ground arith

octets_below :
    (hi : Option ℕ) (s : Text) (bound a : ℕ)
    → ((h : ℕ) → hi ≡ some h → h < bound)
    → octets hi (read_octet s) ≡ some a
    → a < bound * 256
octets_below none s bound a h e = cc
octets_below (some high) s bound a h e = elim (Option-cases (read_octet s)) [
  | inl f ↦ cc
  | inr (low, f) ↦ ground (arith, f, octet_below s low f, h high refl)
]

read_more_below :
    (n : ℕ) (hi : Option ℕ) (s : Text) (bound a : ℕ)
    → ((h : ℕ) → hi ≡ some h → h < bound)
    → read_more n hi s ≡ some a
    → a < bound * 256 ^ suc n
unfolding read_more
read_more_below zero hi s bound a h e = octets_below hi s bound a h e
read_more_below (suc n) hi s bound a h e = elim (Option-cases (split_at b'.' s)) [
  | inl f ↦ cc
  | inr ((l, r), f) ↦
      rw (pow-succ' 256 (suc n), ← mul_assoc bound 256 (256 ^ suc n))
        (read_more_below n (octets hi (read_octet l)) r (bound * 256) a
          (λ m k. octets_below hi l bound m h k) (ground (arith, f)))
]

dotted_pton-lt : (s : Text) (a : ℕ) → dotted_pton s ≡ some a → a < 2 ^ 32
unfolding dotted_pton
dotted_pton-lt s a h = read_more_below 3 (some 0) s 1 a (λ m e. ground arith) h

read_more_step :
    (n hi o : ℕ) (t : Text)
    → o < 256
    → read_more (suc n) (some hi) (to_string o ++ b'.' ∷ t) ≡ read_more n (some (hi * 256 + o)) t
unfolding read_more
read_more_step n hi o t h =
    let (read, dot, _) = octet_laws o h in
    ground (arith, split_at-append b'.' (to_string o) t dot, read)

read_more_last : (hi o : ℕ) → o < 256 → read_more 0 (some hi) (to_string o) ≡ some (hi * 256 + o)
unfolding read_more
read_more_last hi o h = rw (octet_laws o h).0

dotted_pton-ntop : (a : ℕ) → a < 2 ^ 32 → dotted_pton (dotted_ntop a) ≡ some a
unfolding dotted_ntop dotted_pton
dotted_pton-ntop a h =
    read_more_step 2 0 (a / 2 ^ 24) _ (omega arith)
    ∙ read_more_step 1 _ (a / 2 ^ 16 % 256) _ (omega arith)
    ∙ read_more_step 0 _ (a / 2 ^ 8 % 256) _ (omega arith)
    ∙ read_more_last _ (a % 256) (omega arith)
    ∙ ap some (omega arith)

Lacks-append : (sep : ℕ) (s t : Text) → Lacks sep s → Lacks sep t → Lacks sep (s ++ t)
Lacks-append sep [] t h k = k
Lacks-append sep (c ∷ s) t h k = (h.0, Lacks-append sep s t h.1 k)

octet_slash : (o : ℕ) (t : Text) → o < 256 → Lacks b'/' t → Lacks b'/' (to_string o ++ b'.' ∷ t)
octet_slash o t h k = Lacks-append b'/' (to_string o) _ (octet_laws o h).2 (omega arith, k)

dotted_ntop_no_slash : (a : ℕ) → a < 2 ^ 32 → Lacks b'/' (dotted_ntop a)
unfolding dotted_ntop
dotted_ntop_no_slash a h = octet_slash (a / 2 ^ 24) _ (omega arith) (
    octet_slash (a / 2 ^ 16 % 256) _ (omega arith)
      (octet_slash (a / 2 ^ 8 % 256) _ (omega arith) (octet_laws (a % 256) (omega arith)).2))

append-ne-nil : (s t : Text) (c : ℕ) → s ++ c ∷ t ≢ []
append-ne-nil [] t c e = cc
append-ne-nil (x ∷ s) t c e = cc

dotted_ntop-ne-nil : (a : ℕ) → dotted_ntop a ≢ []
unfolding dotted_ntop
dotted_ntop-ne-nil a = append-ne-nil (to_string (a / 2 ^ 24)) _ b'.'

pub dotted-IsInet : IsInet dotted
dotted-IsInet = record {
  pton-lt = dotted_pton-lt;
  pton-ntop = dotted_pton-ntop;
  ntop-ne-nil = dotted_ntop-ne-nil;
  ntop_no_slash = dotted_ntop_no_slash;
}
