-- ===== src/Json/Plain.antt =====
-- A concrete library that meets the laws: objects of texts and numbers, dumped with the length of
-- each text in front of it. The tests run on it.
use natt.Prelude.{
  ℕ, zero, suc, ◌≤◌, ◌<◌, ◌≡◌, refl, ap, Bool, is_some, Option, none, some, [], ◌∷◌, ◌++◌, arith,
  ◌==◌, if◌then◌else◌, length, take, drop, length-append, Text, Dict, lookup,
}
use natt.Prelude.Int.{ℤ, pos, negsuc}
use natt.Json.{
  JsonLib, IsJson, Field, text, number, text_field, number_field, text_value, number_value, ◌>>=◌,
}

abbrev print_text : Text → Text → Text
print_text s rest = length s ∷ (s ++ rest)

abbrev print_number : ℤ → Text → Text
print_number (pos n) rest = 0 ∷ n ∷ rest
print_number (negsuc n) rest = 1 ∷ n ∷ rest

print : Dict Field → Text
print [] = []
print ((k, text s) ∷ fs) = 0 ∷ print_text k (print_text s (print fs))
print ((k, number n) ∷ fs) = 1 ∷ print_text k (print_number n (print fs))

read_text : Text → Option (Text × Text)
read_text [] = none
read_text (n ∷ r) = some (take n r, drop n r)

read_number : Text → Option (ℤ × Text)
read_number [] = none
read_number (s ∷ []) = none
read_number (s ∷ n ∷ r) = some (if s == 0 then pos n else negsuc n, r)

read : ℕ → Text → Option (Dict Field)
read zero _ = none
read (suc fuel) [] = some []
read (suc fuel) (zero ∷ r) = do
  k ← read_text r
  v ← read_text k.1
  fs ← read fuel v.1
  some ((k.0, text v.0) ∷ fs)
read (suc fuel) (suc _ ∷ r) = do
  k ← read_text r
  v ← read_number k.1
  fs ← read fuel v.1
  some ((k.0, number v.0) ∷ fs)

take-append : (s t : Text) → take (length s) (s ++ t) ≡ s
take-append [] t = refl
take-append (c ∷ s) t = ap (◌∷◌ c) (take-append s t)

drop-append : (s t : Text) → drop (length s) (s ++ t) ≡ t
drop-append [] t = refl
drop-append (c ∷ s) t = drop-append s t

read_text-print : (s rest : Text) → read_text (print_text s rest) ≡ some (s, rest)
unfolding read_text
read_text-print s rest = rw (take-append s rest, drop-append s rest)

read_number-print : (n : ℤ) (rest : Text) → read_number (print_number n rest) ≡ some (n, rest)
unfolding read_number
read_number-print (pos n) rest = refl
read_number-print (negsuc n) rest = refl

read-print : (fuel : ℕ) (fs : Dict Field) → length fs < fuel → read fuel (print fs) ≡ some fs
unfolding read print
read-print zero fs h = absurd (omega arith)
read-print (suc fuel) [] h = refl
read-print (suc fuel) ((k, text s) ∷ fs) h =
    rw (read_text-print k _, read_text-print s _, read-print fuel fs (omega arith))
read-print (suc fuel) ((k, number n) ∷ fs) h =
    rw (read_text-print k _, read_number-print n _, read-print fuel fs (omega arith))

length-print : (fs : Dict Field) → length fs ≤ length (print fs)
unfolding print
length-print [] = omega arith
length-print ((k, text s) ∷ fs) =
    omega (
      arith,
      length-append k (print_text s (print fs)),
      length-append s (print fs),
      length-print fs,
    )
length-print ((k, number (pos n)) ∷ fs) =
    omega (arith, length-append k (print_number (pos n) (print fs)), length-print fs)
length-print ((k, number (negsuc n)) ∷ fs) =
    omega (arith, length-append k (print_number (negsuc n) (print fs)), length-print fs)

unfoldable pub plain_parse : Text → Option (Dict Field)
unfolding read read_text read_number
plain_parse s = read (suc (length s)) s

unfoldable pub plain_dump : Dict Field → Text
unfolding print
plain_dump = print

unfoldable pub plain_text_or : Dict Field → Text → Text → Option Text
plain_text_or fs key default = text_field (lookup key fs) default

unfoldable pub plain_number_or : Dict Field → Text → ℤ → Option ℤ
plain_number_or fs key default = number_field (lookup key fs) default

unfoldable pub plain_has_key : Dict Field → Text → Bool
plain_has_key fs key = is_some (lookup key fs)

unfoldable pub plain_text_at : Dict Field → Text → Option Text
plain_text_at fs key = text_value (lookup key fs)

unfoldable pub plain_number_at : Dict Field → Text → Option ℤ
plain_number_at fs key = number_value (lookup key fs)

abbrev pub plain : JsonLib
plain = record {
  Json = Dict Field;
  parse = plain_parse;
  dump = plain_dump;
  object = λ fs. fs;
  text_or = plain_text_or;
  number_or = plain_number_or;
  has_key = plain_has_key;
  text_at = plain_text_at;
  number_at = plain_number_at;
}

plain_parse-dump : (fs : Dict Field) → plain_parse (plain_dump fs) ≡ some fs
unfolding plain_parse plain_dump
plain_parse-dump fs = read-print (suc (length (print fs))) fs (omega (arith, length-print fs))

plain_text_or-object :
    (fs : Dict Field) (key default : Text)
    → plain_text_or fs key default ≡ text_field (lookup key fs) default
unfolding plain_text_or
plain_text_or-object fs key default = refl

plain_number_or-object :
    (fs : Dict Field) (key : Text) (default : ℤ)
    → plain_number_or fs key default ≡ number_field (lookup key fs) default
unfolding plain_number_or
plain_number_or-object fs key default = refl

plain_has_key-object :
    (fs : Dict Field) (key : Text) → plain_has_key fs key ≡ is_some (lookup key fs)
unfolding plain_has_key
plain_has_key-object fs key = refl

plain_text_at-object :
    (fs : Dict Field) (key : Text) → plain_text_at fs key ≡ text_value (lookup key fs)
unfolding plain_text_at
plain_text_at-object fs key = refl

plain_number_at-object :
    (fs : Dict Field) (key : Text) → plain_number_at fs key ≡ number_value (lookup key fs)
unfolding plain_number_at
plain_number_at-object fs key = refl

pub plain-IsJson : IsJson plain
plain-IsJson = record {
  parse-dump = λ fs utf8. plain_parse-dump fs;
  text_or-object = plain_text_or-object;
  number_or-object = plain_number_or-object;
  has_key-object = plain_has_key-object;
  text_at-object = plain_text_at-object;
  number_at-object = plain_number_at-object;
}
