-- ===== src/Prelude/Texts.antt =====
-- `std::string` as the list of its bytes, with its equality and its literals.
use Prim.Native.Nat.{ℕ}
use Prim.Native.Char.{code}
use Prim.Native.String.{String}
use mathlib.Core.Path.{◌≡◌, refl, ap}
use mathlib.Core.Logic.{◌↔◌, ◌≢◌, inl, inr}
use mathlib.Core.Bool.{Bool, true, false, ◌&&◌, ◌||◌}
use mathlib.Core.List.{List, [], ◌∷◌, ◌++◌}
use mathlib.Core.Option.{Option, none, some}
use native.Mathlib.Omega.{arith}
use natt.Prelude.Tests.{◌==◌, if◌then◌else◌, Bool-cases}
use natt.Prelude.Lists.{All}

abbrev pub Text : Type 0
Text = List ℕ

-- The bytes of an ASCII literal.
abbrev pub txt : String → Text
txt String.[] = []
txt (String.◌∷◌ c s) = code c ∷ txt s

unfoldable pub text_eq : Text → Text → Bool
text_eq [] [] = true
text_eq [] (_ ∷ _) = false
text_eq (_ ∷ _) [] = false
text_eq (a ∷ s) (b ∷ t) = a == b && text_eq s t

pub text_eq_refl : (s : Text) → text_eq s s ≡ true
unfolding text_eq
text_eq_refl [] = refl
text_eq_refl (a ∷ s) = ground (arith, text_eq_refl s)

pub eq_of_text_eq : (s t : Text) → text_eq s t ≡ true → s ≡ t
unfolding text_eq
eq_of_text_eq [] [] h = refl
eq_of_text_eq [] (_ ∷ _) h = cc
eq_of_text_eq (_ ∷ _) [] h = cc
eq_of_text_eq (a ∷ s) (b ∷ t) h = ground (arith, eq_of_text_eq s t)

text_eq_of_eq : (s t : Text) → s ≡ t → text_eq s t ≡ true
text_eq_of_eq s t e = rw (← e) (text_eq_refl s)

pub eq_iff : (s t : Text) → (text_eq s t ≡ true) ↔ (s ≡ t)
eq_iff s t = (eq_of_text_eq s t, text_eq_of_eq s t)

-- `s.find(sep)`, with the texts before and behind the first separator.
unfoldable pub split_at : ℕ → Text → Option (Text × Text)
split_at sep [] = none
split_at sep (c ∷ s) =
    if c == sep
    then some ([], s)
    else elim (split_at sep s) [ none ↦ none | some (l, r) ↦ some (c ∷ l, r) ]

-- The character does not stand in the text.
abbrev pub Lacks : ℕ → Text → Type 0
Lacks sep = All (λ c. c ≢ sep)

pub split_at-append :
    (sep : ℕ) (s t : Text) → Lacks sep s → split_at sep (s ++ sep ∷ t) ≡ some (s, t)
unfolding split_at
split_at-append sep [] t h = ground arith
split_at-append sep (c ∷ s) t h = ground (arith, split_at-append sep s t h.1)

pub split_at-none : (sep : ℕ) (s : Text) → Lacks sep s → split_at sep s ≡ none
unfolding split_at
split_at-none sep [] h = refl
split_at-none sep (c ∷ s) h = ground (arith, split_at-none sep s h.1)

-- What a search for the separator tells: that it is not there, or the two parts around the first.
abbrev pub Splits : ℕ → Text → Option (Text × Text) → Type 0
Splits sep s none = Lacks sep s
Splits sep s (some (l, r)) = (s ≡ l ++ sep ∷ r) × Lacks sep l

Splits-cons :
    (sep c : ℕ) (s : Text) (o : Option (Text × Text))
    → c ≢ sep
    → Splits sep s o
    → Splits sep (c ∷ s) (elim o [ none ↦ none | some (l, r) ↦ some (c ∷ l, r) ])
Splits-cons sep c s none ne h = (ne, h)
Splits-cons sep c s (some (l, r)) ne h = (ap (◌∷◌ c) h.0, (ne, h.1))

pub split_at-Splits : (sep : ℕ) (s : Text) → Splits sep s (split_at sep s)
unfolding split_at
split_at-Splits sep [] = tt
split_at-Splits sep (c ∷ s) = elim (Bool-cases (c == sep)) [
  | inl hit ↦ rw (hit, split_at) (ground (arith, hit), tt)
  | inr miss ↦
      rw miss (Splits-cons sep c s (split_at sep s) (ground (arith, miss)) (split_at-Splits sep s))
]

-- The text stands in the list.
unfoldable pub member : Text → List Text → Bool
member s [] = false
member s (t ∷ ts) = text_eq t s || member s ts
