-- ===== src/Json.antt =====
-- nlohmann::json is a third-party library: the components that read and write messages take this
-- record of the calls that they make.
pub mod Plain
pub mod Values
use natt.Prelude.{
  ℕ, zero, suc, ltb, leb, ◌==◌, ◌&&◌, Text, Dict, ◌∷◌, [], Option, none, some, ◌≡◌, refl, true,
  false, if◌then◌else◌, Bool, is_some, lookup,
}
use natt.Prelude.Int.{ℤ}

-- The values that the program puts into an object it builds.
pub data Field : Type 0 where
  text : Text → Field
  number : ℤ → Field

pub record JsonLib : Type 1 where
  pub Json : Type 0
  -- `json::parse`: `none` is the exception `parse_error`.
  pub parse : Text → Option Json
  -- `j.dump()` where every string of `j` is UTF-8, as in a value that was parsed; see `dump_object`.
  pub dump : Json → Text
  -- `json{{key, value}, …}`
  pub object : Dict Field → Json
  -- `j.value(key, default)` at a string and at an `int64_t`: the default where the key is missing.
  -- `none` is the exception `type_error`: `j` is no object, or the value is of another type.
  pub text_or : Json → Text → Text → Option Text
  pub number_or : Json → Text → ℤ → Option ℤ
  -- `j.find(key) != j.end()`
  pub has_key : Json → Text → Bool
  -- `j[key].get<std::string>()` and `j[key].get<int64_t>()`: `none` is an exception, which a missing
  -- key leads to as well.
  pub text_at : Json → Text → Option Text
  pub number_at : Json → Text → Option ℤ

-- UTF-8 as RFC 3629 defines it: how many bytes a character still needs, and the range of the next one.
abbrev pub utf8_step : ℕ × ℕ × ℕ → ℕ → Option (ℕ × ℕ × ℕ)
utf8_step (zero, lo, hi) c =
    if ltb c 128
    then some (0, 128, 191)
    else if leb 194 c && leb c 223
    then some (1, 128, 191)
    else if c == 224
    then some (2, 160, 191)
    else if c == 237
    then some (2, 128, 159)
    else if leb 225 c && leb c 239
    then some (2, 128, 191)
    else if c == 240
    then some (3, 144, 191)
    else if leb 241 c && leb c 243
    then some (3, 128, 191)
    else if c == 244
    then some (3, 128, 143)
    else none
utf8_step (suc n, lo, hi) c = if leb lo c && leb c hi then some (n, 128, 191) else none

unfoldable pub utf8_from : ℕ × ℕ × ℕ → Text → Bool
utf8_from (zero, lo, hi) [] = true
utf8_from (suc n, lo, hi) [] = false
utf8_from state (c ∷ s) = elim (utf8_step state c) [ none ↦ false | some next ↦ utf8_from next s ]

abbrev pub is_utf8 : Text → Bool
is_utf8 s = utf8_from (0, 128, 191) s

abbrev pub is_utf8_field : Field → Bool
is_utf8_field (text s) = is_utf8 s
is_utf8_field (number n) = true

unfoldable pub are_utf8 : Dict Field → Bool
are_utf8 [] = true
are_utf8 ((k, v) ∷ fs) = is_utf8 k && (is_utf8_field v && are_utf8 fs)

-- `json{{key, value}, …}.dump()`: `none` is the exception `type_error` 316 of a string that is not UTF-8.
unfoldable pub dump_object : (lib : JsonLib) → Dict Field → Option Text
dump_object lib fs = if are_utf8 fs then some (lib.dump (lib.object fs)) else none

pub dump_object-utf8 :
    (lib : JsonLib) (fs : Dict Field)
    → are_utf8 fs ≡ true
    → dump_object lib fs ≡ some (lib.dump (lib.object fs))
unfolding dump_object
dump_object-utf8 lib fs u = rw u refl

-- What a lookup gives in an object that the program built.
abbrev pub text_field : Option Field → Text → Option Text
text_field none default = some default
text_field (some (text s)) default = some s
text_field (some (number n)) default = none

abbrev pub number_field : Option Field → ℤ → Option ℤ
number_field none default = some default
number_field (some (text s)) default = none
number_field (some (number n)) default = some n

abbrev pub text_value : Option Field → Option Text
text_value none = none
text_value (some (text s)) = some s
text_value (some (number n)) = none

abbrev pub number_value : Option Field → Option ℤ
number_value none = none
number_value (some (text s)) = none
number_value (some (number n)) = some n

-- The documented behaviour that the protocol relies on: an object whose strings are UTF-8 is dumped and
-- parsed to itself, and `value` looks the key up.
pub record IsJson (lib : JsonLib) : Type 0 where
  pub parse-dump :
      (fs : Dict Field)
      → are_utf8 fs ≡ true
      → lib.parse (lib.dump (lib.object fs)) ≡ some (lib.object fs)
  pub text_or-object :
      (fs : Dict Field) (key default : Text)
      → lib.text_or (lib.object fs) key default ≡ text_field (lookup key fs) default
  pub number_or-object :
      (fs : Dict Field) (key : Text) (default : ℤ)
      → lib.number_or (lib.object fs) key default ≡ number_field (lookup key fs) default
  pub has_key-object :
      (fs : Dict Field) (key : Text) → lib.has_key (lib.object fs) key ≡ is_some (lookup key fs)
  pub text_at-object :
      (fs : Dict Field) (key : Text) → lib.text_at (lib.object fs) key ≡ text_value (lookup key fs)
  pub number_at-object :
      (fs : Dict Field) (key : Text)
      → lib.number_at (lib.object fs) key ≡ number_value (lookup key fs)

-- A chain of calls that may throw.
infixl 5 ◌>>=◌
abbrev pub ◌>>=◌ {ℓ κ} : {A : Type ℓ} {B : Type κ} → Option A → (A → Option B) → Option B
none >>= f = none
some a >>= f = f a

-- What a chain that gives a result tells of its first call.
pub bind-some {ℓ κ} :
    {A : Type ℓ} {B : Type κ} (o : Option A) (f : A → Option B) (b : B)
    → (o >>= f) ≡ some b
    → (a : A) × (o ≡ some a) × (f a ≡ some b)
bind-some none f b e = cc
bind-some (some a) f b e = (a, refl, e)

-- And what a test in front of the result tells.
pub test-some {ℓ} :
    {A : Type ℓ} (b : Bool) (x y : A) → (if b then some x else none) ≡ some y → (b ≡ true) × (x ≡ y)
test-some true x y e = (refl, cc)
test-some false x y e = cc
