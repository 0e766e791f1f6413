-- ===== src/Ipam/Scan.antt =====
-- The search loop of `IpAllocator::allocate`.
use natt.Prelude.{
  ℕ, zero, suc, ◌+◌, ◌%◌, ◌^◌, ◌≤◌, ◌<◌, ◌≡◌, inl, inr, true, false, Option, none, some, List,
  arith, leb, ◌==◌, leb→le, ==_iff, Bool-cases,
}
use native.Mathlib.Nat.{mod-eq_of_lt}
use natt.Address.{u32_mod, Outcome, ok, throws, undefined, hangs}
use natt.Ipam.{contains, scan, free}

-- What a search from `addr` up to `last` has to give: the first free address, or the knowledge that
-- there is none.
abbrev pub FirstFree : ℕ → ℕ → List ℕ → Outcome (Option ℕ) → Type 0
FirstFree addr last allocated (ok none) =
    (x : ℕ) → addr ≤ x → x ≤ last → contains allocated x ≡ true
FirstFree addr last allocated (ok (some r)) =
    (addr ≤ r)
    × (r ≤ last)
    × (contains allocated r ≡ false)
    × ((x : ℕ) → addr ≤ x → x < r → contains allocated x ≡ true)
FirstFree addr last allocated throws = ⊥
FirstFree addr last allocated undefined = ⊥
FirstFree addr last allocated hangs = ⊥

FirstFree-skip :
    (addr last : ℕ) (allocated : List ℕ) (o : Outcome (Option ℕ))
    → contains allocated addr ≡ true
    → FirstFree (addr + 1) last allocated o
    → FirstFree addr last allocated o
FirstFree-skip addr last allocated (ok none) h f = λ x p q. elim (Bool-cases (addr == x)) [
  | inl e ↦ rw (← (==_iff addr x).0 e) h
  | inr n ↦ f x (ground arith) q
]
FirstFree-skip addr last allocated (ok (some r)) h f = (
  omega arith,
  f.1,
  f.2,
  λ x p q. elim (Bool-cases (addr == x)) [
    | inl e ↦ rw (← (==_iff addr x).0 e) h
    | inr n ↦ f.3 x (ground arith) q
  ],
)
FirstFree-skip addr last allocated throws h f = f
FirstFree-skip addr last allocated undefined h f = f
FirstFree-skip addr last allocated hangs h f = f

wrapless :
    (addr last : ℕ) → last + 1 < 2 ^ 32 → leb addr last ≡ true → (addr + 1) % u32_mod ≡ addr + 1
wrapless addr last h inside = mod-eq_of_lt (omega (arith, leb→le addr last inside))

-- Where the counter cannot wrap, the loop ends, and ends at the first free address.
pub scan-FirstFree :
    (fuel addr last : ℕ) (allocated : List ℕ)
    → last + 1 < 2 ^ 32
    → 0 < fuel
    → last + 1 < addr + fuel
    → FirstFree addr last allocated (scan fuel addr last allocated)
unfolding scan
scan-FirstFree zero addr last allocated h some_fuel enough = absurd (omega arith)
scan-FirstFree (suc fuel) addr last allocated h some_fuel enough =
    elim (Bool-cases (leb addr last)) [
      | inr past ↦ rw past (λ x p q. absurd (ground arith))
      | inl inside ↦ elim (Bool-cases (contains allocated addr)) [
        | inr free ↦
            rw (inside, free) (omega arith, ground arith, free, λ x p q. absurd (omega arith))
        | inl used ↦
            rw (inside, used, wrapless addr last h inside)
              (FirstFree-skip addr last allocated _ used (
                scan-FirstFree fuel (addr + 1) last allocated h
                  (omega (arith, leb→le addr last inside)) (omega arith)))
      ]
    ]

-- With or without a wrap, what the loop returns is free and not past the end.
pub scan_sound :
    (fuel addr last : ℕ) (allocated : List ℕ) (r : ℕ)
    → scan fuel addr last allocated ≡ ok (some r)
    → (r ≤ last) × (contains allocated r ≡ false)
unfolding scan
scan_sound zero addr last allocated r h = cc
scan_sound (suc fuel) addr last allocated r h =
    ground (arith, scan_sound fuel ((addr + 1) % u32_mod) last allocated r)
