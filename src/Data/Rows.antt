-- ===== src/Data/Rows.antt =====
-- Lists of rows: distinct keys, ids that count up, and what the statements keep of them.
use natt.Prelude.{
  ℕ, ◌+◌, ◌≤◌, ◌<◌, ◌≡◌, refl, ◌∙◌, inl, inr, Bool, true, false, none, some, List, [], ◌∷◌, ◌++◌,
  arith, if◌then◌else◌, Bool-cases, is_some, keep_if, All,
}
use natt.Data.{find_row, update_rows}

module _ {ℓ} {A : Type ℓ} where
  -- `clash x y` says that the later row y has the key of x.
  abbrev pub Apart : (A → A → Bool) → List A → Type ℓ
  Apart clash [] = Unit
  Apart clash (x ∷ xs) = (find_row (clash x) xs ≡ none) × Apart clash xs

  -- Ids above `lo` that count up, to `hi` at most.
  abbrev pub Rising : (A → ℕ) → ℕ → List A → ℕ → Type 0
  Rising id lo [] hi = lo ≤ hi
  Rising id lo (x ∷ xs) hi = (lo < id x) × Rising id (id x) xs hi

module _ {ℓ} {A : Type ℓ} where
  pub find_row-append :
      (p : A → Bool) (xs : List A) (y : A)
      → find_row p (xs ++ y ∷ [])
        ≡ (elim (find_row p xs) [ none ↦ if p y then some y else none | some x ↦ some x ])
  unfolding find_row
  find_row-append p [] y = refl
  find_row-append p (x ∷ xs) y = elim (Bool-cases (p x)) [
    | inl hit ↦ rw hit refl
    | inr miss ↦ rw miss (find_row-append p xs y)
  ]

  pub found-append :
      (p : A → Bool) (xs : List A) (y : A)
      → is_some (find_row p xs) ≡ true
      → is_some (find_row p (xs ++ y ∷ [])) ≡ true
  found-append p xs y h = ground (arith, find_row-append p xs y)

  pub missed-append :
      (p : A → Bool) (xs : List A) (y : A)
      → find_row p xs ≡ none
      → p y ≡ false
      → find_row p (xs ++ y ∷ []) ≡ none
  missed-append p xs y h k = ground (arith, find_row-append p xs y)

  -- A row that is not among the rows of `xs` by a symmetric test.
  pub append-Apart :
      (clash : A → A → Bool) (xs : List A) (y : A)
      → ((x z : A) → clash x z ≡ clash z x)
      → Apart clash xs
      → find_row (clash y) xs ≡ none
      → Apart clash (xs ++ y ∷ [])
  unfolding find_row
  append-Apart clash [] y sy h k = (refl, tt)
  append-Apart clash (x ∷ xs) y sy h k = elim (Bool-cases (clash y x)) [
    | inl hit ↦ absurd (ground (arith, hit))
    | inr miss ↦ (
      missed-append (clash x) xs y h.0 (sy x y ∙ miss),
      append-Apart clash xs y sy h.1 (ground (arith, miss)),
    )
  ]

  pub missed-keep_if :
      (p k : A → Bool) (xs : List A) → find_row p xs ≡ none → find_row p (keep_if k xs) ≡ none
  unfolding find_row
  missed-keep_if p k [] h = refl
  missed-keep_if p k (x ∷ xs) h = elim (Bool-cases (k x)) [
    | inl hit ↦ rw hit (ground (arith, missed-keep_if p k xs))
    | inr miss ↦ rw miss (ground (arith, missed-keep_if p k xs))
  ]

  pub keep_if-Apart :
      (clash : A → A → Bool) (k : A → Bool) (xs : List A)
      → Apart clash xs
      → Apart clash (keep_if k xs)
  keep_if-Apart clash k [] h = tt
  keep_if-Apart clash k (x ∷ xs) h = elim (Bool-cases (k x)) [
    | inl hit ↦ rw hit (missed-keep_if (clash x) k xs h.0, keep_if-Apart clash k xs h.1)
    | inr miss ↦ rw miss (keep_if-Apart clash k xs h.1)
  ]

  -- A row that is found stays, where the rows that go are not those that are looked for.
  pub found-keep_if :
      (p k : A → Bool) (xs : List A)
      → All (λ x. p x ≡ true → k x ≡ true) xs
      → is_some (find_row p xs) ≡ true
      → is_some (find_row p (keep_if k xs)) ≡ true
  unfolding find_row
  found-keep_if p k [] a h = h
  found-keep_if p k (x ∷ xs) a h = elim (Bool-cases (k x)) [
    | inl hit ↦ rw hit (ground (arith, found-keep_if p k xs a.1))
    | inr miss ↦ rw miss (ground (arith, miss, a.0, found-keep_if p k xs a.1))
  ]

  -- A change that keeps what the test reads.
  pub find_row-update_rows :
      (p q : A → Bool) (f : A → A) (xs : List A)
      → ((x : A) → p (f x) ≡ p x)
      → is_some (find_row p (update_rows q f xs)) ≡ is_some (find_row p xs)
  unfolding find_row update_rows
  find_row-update_rows p q f [] e = refl
  find_row-update_rows p q f (x ∷ xs) e = elim (Bool-cases (q x)) [
    | inl hit ↦ rw (hit, e x) (ground (arith, find_row-update_rows p q f xs e))
    | inr miss ↦ rw miss (ground (arith, find_row-update_rows p q f xs e))
  ]

  pub update_rows-Apart :
      (clash : A → A → Bool) (q : A → Bool) (f : A → A) (xs : List A)
      → ((x y : A) → clash x (f y) ≡ clash x y)
      → ((x : A) → clash (f x) ≡ clash x)
      → Apart clash xs
      → Apart clash (update_rows q f xs)
  unfolding find_row update_rows
  update_rows-Apart clash q f [] e e' h = tt
  update_rows-Apart clash q f (x ∷ xs) e e' h =
      let rest = update_rows-Apart clash q f xs e e' h.1 in
      let same = find_row-update_rows (clash x) q f xs (e x) in
      elim (Bool-cases (q x)) [
        | inl hit ↦ rw (hit, e' x) (ground (arith, same, h.0), rest)
        | inr miss ↦ rw miss (ground (arith, same, h.0), rest)
      ]

module _ {ℓ} {A : Type ℓ} (id : A → ℕ) where
  pub Rising-le : (lo : ℕ) (xs : List A) (hi : ℕ) → Rising id lo xs hi → lo ≤ hi
  Rising-le lo [] hi h = h
  Rising-le lo (x ∷ xs) hi h = omega (arith, h.0, Rising-le (id x) xs hi h.1)

  Rising-lower :
      (lo lo' : ℕ) (xs : List A) (hi : ℕ) → lo' ≤ lo → Rising id lo xs hi → Rising id lo' xs hi
  Rising-lower lo lo' [] hi l h = omega (arith, l, h)
  Rising-lower lo lo' (x ∷ xs) hi l h = (omega (arith, l, h.0), h.1)

  pub append-Rising :
      (lo : ℕ) (xs : List A) (hi : ℕ) (y : A)
      → id y ≡ hi + 1
      → Rising id lo xs hi
      → Rising id lo (xs ++ y ∷ []) (hi + 1)
  append-Rising lo [] hi y e h = (omega (arith, e, h), omega (arith, e))
  append-Rising lo (x ∷ xs) hi y e h = (h.0, append-Rising (id x) xs hi y e h.1)

  pub keep_if-Rising :
      (k : A → Bool) (lo : ℕ) (xs : List A) (hi : ℕ)
      → Rising id lo xs hi
      → Rising id lo (keep_if k xs) hi
  keep_if-Rising k lo [] hi h = h
  keep_if-Rising k lo (x ∷ xs) hi h = elim (Bool-cases (k x)) [
    | inl hit ↦ rw hit (h.0, keep_if-Rising k (id x) xs hi h.1)
    | inr miss ↦ rw miss (
        Rising-lower (id x) lo (keep_if k xs) hi (omega (arith, h.0))
          (keep_if-Rising k (id x) xs hi h.1))
  ]

  pub update_rows-Rising :
      (q : A → Bool) (f : A → A) (lo : ℕ) (xs : List A) (hi : ℕ)
      → ((x : A) → id (f x) ≡ id x)
      → Rising id lo xs hi
      → Rising id lo (update_rows q f xs) hi
  unfolding update_rows
  update_rows-Rising q f lo [] hi e h = h
  update_rows-Rising q f lo (x ∷ xs) hi e h =
      let rest = update_rows-Rising q f (id x) xs hi e h.1 in
      elim (Bool-cases (q x)) [
        | inl hit ↦ rw (hit, e x) (h.0, rest)
        | inr miss ↦ rw miss (h.0, rest)
      ]

module _ {ℓ κ} {A : Type ℓ} (P : A → Type κ) where
  pub All-append : (xs : List A) (y : A) → All P xs → P y → All P (xs ++ y ∷ [])
  All-append [] y h p = (p, tt)
  All-append (x ∷ xs) y h p = (h.0, All-append xs y h.1 p)

  pub All-update_rows :
      (q : A → Bool) (f : A → A) (xs : List A)
      → ((x : A) → P x → P (f x))
      → All P xs
      → All P (update_rows q f xs)
  unfolding update_rows
  All-update_rows q f [] e h = tt
  All-update_rows q f (x ∷ xs) e h = elim (Bool-cases (q x)) [
    | inl hit ↦ rw hit (e x h.0, All-update_rows q f xs e h.1)
    | inr miss ↦ rw miss (h.0, All-update_rows q f xs e h.1)
  ]

  -- What the rows that stay have then.
  pub All-keep_if {μ} :
      (Q : A → Type μ) (k : A → Bool) (xs : List A)
      → ((x : A) → P x → k x ≡ true → Q x)
      → All P xs
      → All Q (keep_if k xs)
  All-keep_if Q k [] e h = tt
  All-keep_if Q k (x ∷ xs) e h = elim (Bool-cases (k x)) [
    | inl hit ↦ rw hit (e x h.0 hit, All-keep_if Q k xs e h.1)
    | inr miss ↦ rw miss (All-keep_if Q k xs e h.1)
  ]

  pub All-map {μ} : (Q : A → Type μ) (xs : List A) → ((x : A) → P x → Q x) → All P xs → All Q xs
  All-map Q [] e h = tt
  All-map Q (x ∷ xs) e h = (e x h.0, All-map Q xs e h.1)
