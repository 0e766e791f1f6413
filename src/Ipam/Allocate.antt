-- ===== src/Ipam/Allocate.antt =====
-- `IpAllocator::allocate`, call by call.
use natt.Prelude.{
  ℕ, ◌+◌, ◌^◌, ◌≤◌, ◌<◌, ◌≡◌, refl, ◌⊎◌, inl, inr, true, false, Option, none, some, [], arith,
  Option-cases, Text, lookup, insert,
}
use natt.Inet.{Inet}
use natt.Ipam.Scan.{FirstFree, scan-FirstFree, scan_sound}
use natt.Address.{Outcome, ok, throws, undefined, hangs, and_then, uint_to_ip}
use natt.Ipam.{contains, add_member, Pool, Allocator, scan, scan_rounds, taken, allocate}

-- What one call of `allocate` has to do for a network that has a pool: hand out the first free
-- address of the range and mark it, or change nothing and return the empty text because every
-- address of the range is taken.
abbrev pub Allocates : Inet → Text → Pool → Allocator → Outcome (Allocator × Text) → Type 0
Allocates net id pool pools o =
    ((o ≡ ok (pools, []))
      × ((x : ℕ) → pool.start_addr ≤ x → x ≤ pool.end_addr → contains pool.allocated x ≡ true))
    ⊎ ((addr : ℕ) × (o
          ≡ ok (
            insert id (record pool { allocated = add_member addr pool.allocated }) pools,
            uint_to_ip net addr,
          ))
        × (pool.start_addr ≤ addr)
        × (addr ≤ pool.end_addr)
        × (contains pool.allocated addr ≡ false)
        × ((x : ℕ) → pool.start_addr ≤ x → x < addr → contains pool.allocated x ≡ true))

Allocates-of_scan :
    (net : Inet) (id : Text) (pool : Pool) (pools : Allocator) (found : Outcome (Option ℕ))
    → FirstFree pool.start_addr pool.end_addr pool.allocated found
    → Allocates net id pool pools (and_then found λ r. ok (taken net id pool pools r))
Allocates-of_scan net id pool pools (ok none) f = inl (refl, f)
Allocates-of_scan net id pool pools (ok (some r)) f = inr (r, refl, f.0, f.1, f.2, f.3)
Allocates-of_scan net id pool pools throws f = absurd f
Allocates-of_scan net id pool pools undefined f = absurd f
Allocates-of_scan net id pool pools hangs f = absurd f

-- On a pool whose last address is below 2 ^ 32 - 1, `allocate` ends, and it hands out the first free
-- address of the range, or reports that none is left and changes nothing.
pub allocate_first_free :
    (net : Inet) (id : Text) (pool : Pool) (pools : Allocator)
    → lookup id pools ≡ some pool
    → pool.end_addr + 1 < 2 ^ 32
    → Allocates net id pool pools (allocate net id pools)
unfolding allocate
allocate_first_free net id pool pools e h =
    rw (e, allocate)
      (Allocates-of_scan net id pool pools _ (
        scan-FirstFree scan_rounds pool.start_addr pool.end_addr pool.allocated h (omega arith)
          (omega arith)))

-- A network with no pool gets the empty text.
pub allocate_unknown :
    (net : Inet) (id : Text) (pools : Allocator)
    → lookup id pools ≡ none
    → allocate net id pools ≡ ok (pools, [])
unfolding allocate
allocate_unknown net id pools e = rw (e, allocate)

-- What a call that returned has done, whatever the pool's range.
abbrev pub Allocated : Inet → Text → Allocator → Allocator × Text → Type 0
Allocated net id pools (after, out) =
    ((after ≡ pools) × (out ≡ []))
    ⊎ ((pool : Pool) × (addr : ℕ) × (lookup id pools ≡ some pool)
        × (after ≡ insert id (record pool { allocated = add_member addr pool.allocated }) pools)
        × (out ≡ uint_to_ip net addr)
        × (addr ≤ pool.end_addr)
        × (contains pool.allocated addr ≡ false))

allocated_of_scan :
    (net : Inet) (id : Text) (pool : Pool) (pools : Allocator) (r : Allocator × Text)
    (found : Outcome (Option ℕ))
    → lookup id pools ≡ some pool
    → scan scan_rounds pool.start_addr pool.end_addr pool.allocated ≡ found
    → and_then found (λ f. ok (taken net id pool pools f)) ≡ ok r
    → Allocated net id pools r
allocated_of_scan net id pool pools r (ok none) e s h = inl (ground arith)
allocated_of_scan net id pool pools r (ok (some addr)) e s h =
    let (below, free) =
      scan_sound scan_rounds pool.start_addr pool.end_addr pool.allocated addr s in
    inr (pool, addr, e, ground arith, ground arith, below, free)
allocated_of_scan net id pool pools r throws e s h = cc
allocated_of_scan net id pool pools r undefined e s h = cc
allocated_of_scan net id pool pools r hangs e s h = cc

pub allocate-Allocated :
    (net : Inet) (id : Text) (pools : Allocator) (r : Allocator × Text)
    → allocate net id pools ≡ ok r
    → Allocated net id pools r
unfolding allocate
allocate-Allocated net id pools r h = elim (Option-cases (lookup id pools)) [
  | inl e ↦ inl (ground (arith, e))
  | inr (pool, e) ↦ allocated_of_scan net id pool pools r _ e refl (rw (e, allocate) at h)
]
