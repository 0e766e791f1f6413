-- ===== src/Prelude/Maps.antt =====
-- `std::unordered_map<std::string, V>` as an association list with one entry to a key. The order
-- of the list is the order in which an iteration over the map meets the entries, which C++ leaves
-- open: statements about such an iteration hold of every order.
use mathlib.Core.Path.{◌≡◌, refl}
use mathlib.Core.Option.{Option, none, some}
use mathlib.Core.List.{List, [], ◌∷◌}
use Prim.Native.Nat.{◌+◌}
use native.Mathlib.Omega.{arith}
use mathlib.Core.Logic.{inl, inr}
use mathlib.Core.Path.{subst}
use natt.Prelude.Tests.{if◌then◌else◌, Bool-cases}
use natt.Prelude.Lists.{length}
use natt.Prelude.Texts.{Text, text_eq, eq_iff}

abbrev pub Dict {ℓ} : Type ℓ → Type ℓ
Dict V = List (Text × V)

module _ {ℓ} {V : Type ℓ} where
  -- `m.find(k)`
  unfoldable pub lookup : Text → Dict V → Option V
  lookup k [] = none
  lookup k ((j, v) ∷ m) = if text_eq j k then some v else lookup k m

  -- `m[k] = v`
  unfoldable pub insert : Text → V → Dict V → Dict V
  insert k v [] = (k, v) ∷ []
  insert k v ((j, w) ∷ m) = if text_eq j k then (j, v) ∷ m else (j, w) ∷ insert k v m

  -- `m.erase(k)`
  unfoldable pub erase : Text → Dict V → Dict V
  erase k [] = []
  erase k ((j, w) ∷ m) = if text_eq j k then erase k m else (j, w) ∷ erase k m

  -- No key has two entries.
  abbrev pub IsMap : Dict V → Type ℓ
  IsMap [] = Unit
  IsMap ((k, v) ∷ m) = (lookup k m ≡ none) × IsMap m

-- Every value of the map has the property.
abbrev pub Every {ℓ κ} : {V : Type ℓ} → (V → Type κ) → Dict V → Type κ
Every P [] = Unit
Every P ((k, v) ∷ m) = P v × Every P m

module _ {ℓ κ} {V : Type ℓ} (P : V → Type κ) where
  pub lookup-Every : (k : Text) (v : V) (m : Dict V) → Every P m → lookup k m ≡ some v → P v
  unfolding lookup
  lookup-Every k v [] h e = cc
  lookup-Every k v ((i, w) ∷ m) h e = elim (Bool-cases (text_eq i k)) [
    | inl hit ↦ subst P (ground (arith, hit)) h.0
    | inr miss ↦ lookup-Every k v m h.1 (ground (arith, miss))
  ]

  pub insert-Every : (k : Text) (v : V) (m : Dict V) → Every P m → P v → Every P (insert k v m)
  unfolding insert
  insert-Every k v [] h p = (p, tt)
  insert-Every k v ((i, w) ∷ m) h p = elim (Bool-cases (text_eq i k)) [
    | inl hit ↦ rw hit (p, h.1)
    | inr miss ↦ rw miss (h.0, insert-Every k v m h.1 p)
  ]

  pub erase-Every : (k : Text) (m : Dict V) → Every P m → Every P (erase k m)
  unfolding erase
  erase-Every k [] h = tt
  erase-Every k ((i, w) ∷ m) h = elim (Bool-cases (text_eq i k)) [
    | inl hit ↦ rw hit (erase-Every k m h.1)
    | inr miss ↦ rw miss (h.0, erase-Every k m h.1)
  ]

module _ {ℓ} {V : Type ℓ} where
  pub lookup-insert :
      (key other : Text) (value : V) (m : Dict V)
      → lookup other (insert key value m)
        ≡ (if text_eq key other then some value else lookup other m)
  unfolding lookup insert
  lookup-insert key other value [] = refl
  lookup-insert key other value ((first, held) ∷ rest) = ground (
    arith,
    lookup-insert key other value rest,
    eq_iff first key,
    eq_iff first other,
    eq_iff key other,
  )

  pub lookup-erase :
      (k j : Text) (m : Dict V) → lookup j (erase k m) ≡ (if text_eq k j then none else lookup j m)
  unfolding lookup erase
  lookup-erase k j [] = ground arith
  lookup-erase k j ((i, w) ∷ m) =
      ground (arith, eq_iff k j, eq_iff i k, eq_iff i j, lookup-erase k j m)

  pub insert-IsMap : (k : Text) (v : V) (m : Dict V) → IsMap m → IsMap (insert k v m)
  unfolding lookup insert
  insert-IsMap k v [] h = (refl, tt)
  insert-IsMap k v ((i, w) ∷ m) h =
      ground (arith, eq_iff i k, eq_iff k i, insert-IsMap k v m h.1, lookup-insert k i v m)

  pub erase-IsMap : (k : Text) (m : Dict V) → IsMap m → IsMap (erase k m)
  unfolding lookup erase
  erase-IsMap k [] h = tt
  erase-IsMap k ((i, w) ∷ m) h = ground (arith, erase-IsMap k m h.1, lookup-erase k i m)

  pub length-insert :
      (k : Text) (v : V) (m : Dict V)
      → length (insert k v m) ≡ (elim (lookup k m) [ none ↦ length m + 1 | some _ ↦ length m ])
  unfolding lookup insert
  length-insert k v [] = omega arith
  length-insert k v ((i, w) ∷ m) = ground (arith, length-insert k v m)
