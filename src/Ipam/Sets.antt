-- ===== src/Ipam/Sets.antt =====
-- The set of taken addresses, `std::unordered_set<uint32_t>`, under insertion and removal.
use natt.Prelude.{
  ℕ, ◌+◌, ◌≡◌, inl, inr, true, false, List, [], ◌∷◌, arith, ◌==◌, if◌then◌else◌, Bool-cases, length,
}
use natt.Ipam.{contains, add_member, remove_member}

pub contains-add_member :
    (a b : ℕ) (xs : List ℕ)
    → contains (add_member a xs) b ≡ (if a == b then true else contains xs b)
unfolding contains add_member
contains-add_member a b xs = elim (Bool-cases (contains xs a)) [
  | inr new ↦ rw new (ground arith)
  | inl old ↦ rw old (ground (arith, old))
]

pub contains-remove_member :
    (a b : ℕ) (xs : List ℕ)
    → contains (remove_member a xs) b ≡ (if a == b then false else contains xs b)
unfolding contains remove_member
contains-remove_member a b [] = ground arith
contains-remove_member a b (x ∷ xs) = ground (arith, contains-remove_member a b xs)

-- Each member is counted once.
abbrev pub IsSetOf : List ℕ → Type 0
IsSetOf [] = Unit
IsSetOf (x ∷ xs) = (contains xs x ≡ false) × IsSetOf xs

pub add_member-IsSetOf : (a : ℕ) (xs : List ℕ) → IsSetOf xs → IsSetOf (add_member a xs)
unfolding add_member
add_member-IsSetOf a xs h = ground arith

pub length-add_member :
    (a : ℕ) (xs : List ℕ) → contains xs a ≡ false → length (add_member a xs) ≡ length xs + 1
unfolding add_member
length-add_member a xs h = ground arith
