-- ===== src/Ipam/Reuse.antt =====
-- src/ipam/IpAllocator.cpp: the reuse of addresses in a history of calls.
use natt.Prelude.{
  ℕ, ◌+◌, ◌-◌, ◌^◌, ◌≤◌, ◌<◌, ◌≡◌, refl, sym, ◌∙◌, ◌≢◌, ◌⊎◌, inl, inr, Bool, true, false, Option,
  none, some, List, [], ◌∷◌, arith, if◌then◌else◌, Option-cases, All, Text, text_eq, text_eq_refl,
  eq_iff, lookup, insert, lookup-insert, Every, lookup-Every,
}
use natt.Inet.{Inet, IsInet}
use natt.Address.{
  Outcome, ok, throws, undefined, hangs, and_then, and_then-ok, ip_to_uint, uint_to_ip,
}
use natt.Ipam.{
  contains, add_member, remove_member, Pool, Allocator, make_pool, put, add_pool, allocate, free,
}
use natt.Ipam.History.{Call, adds, allocates, frees, step, run, run-Every, allocate-Every}
use natt.Ipam.Sets.{contains-add_member, contains-remove_member}
use natt.Ipam.Allocate.{allocate-Allocated, allocate_first_free}
use natt.Ipam.Shape.{IsPool, range_of_prefix}
use mathlib.Core.Path.{subst}

-- The call neither frees the address in the network nor sets up the network's pool anew.
abbrev pub Keeps : Inet → Text → ℕ → Call → Type 0
Keeps net id addr (adds other cidr reserved) = other ≢ id
Keeps net id addr (allocates other) = Unit
Keeps net id addr (frees other ip) = (other ≡ id) → ip_to_uint net ip ≢ addr

-- The address is marked as taken in the network's pool.
abbrev pub is_taken : Text → ℕ → Allocator → Bool
is_taken id addr pools = elim (lookup id pools) [
  | none ↦ false
  | some pool ↦ contains pool.allocated addr
]

is_taken-insert :
    (id other : Text) (addr : ℕ) (pool : Pool) (pools : Allocator)
    → is_taken id addr (insert other pool pools)
      ≡ (if text_eq other id then contains pool.allocated addr else is_taken id addr pools)
is_taken-insert id other addr pool pools = ground (arith, lookup-insert other id pool pools)

adds-is_taken :
    (net : Inet) (id other cidr : Text) (reserved : List Text) (addr : ℕ) (pools after : Allocator)
    → other ≢ id
    → is_taken id addr pools ≡ true
    → add_pool net other cidr reserved pools ≡ ok after
    → is_taken id addr after ≡ true
unfolding add_pool
adds-is_taken net id other cidr reserved addr pools after h t r =
    added (make_pool net cidr reserved) r
  where
    added :
        (made : Outcome (Option Pool))
        → and_then made (put other pools) ≡ ok after
        → is_taken id addr after ≡ true
    added (ok none) k = ground arith
    added (ok (some pool)) k =
        ground (arith, eq_iff other id, is_taken-insert id other addr pool pools)
    added throws k = cc
    added undefined k = cc
    added hangs k = cc

allocates-is_taken :
    (net : Inet) (id other : Text) (addr : ℕ) (pools after : Allocator) (out : Text)
    → is_taken id addr pools ≡ true
    → allocate net other pools ≡ ok (after, out)
    → is_taken id addr after ≡ true
allocates-is_taken net id other addr pools after out t r =
    elim (allocate-Allocated net other pools (after, out) r) [
      | inl (same, _) ↦ rw same t
      | inr (pool, new, e, made, _, _, _) ↦ ground (
        arith,
        e,
        eq_iff other id,
        is_taken-insert id other addr (record pool { allocated = add_member new pool.allocated })
            pools,
        contains-add_member new addr pool.allocated,
      )
    ]

frees-is_taken :
    (net : Inet) (id other ip : Text) (addr : ℕ) (pools : Allocator)
    → (other ≡ id → ip_to_uint net ip ≢ addr)
    → is_taken id addr pools ≡ true
    → is_taken id addr (free net other ip pools).0 ≡ true
unfolding free
frees-is_taken net id other ip addr pools h t = elim (Option-cases (lookup other pools)) [
  | inl e ↦ rw (e, free) t
  | inr (pool, e) ↦ ground (
    arith,
    e,
    eq_iff other id,
    is_taken-insert id other addr
        (record pool { allocated = remove_member (ip_to_uint net ip) pool.allocated }) pools,
    contains-remove_member (ip_to_uint net ip) addr pool.allocated,
  )
]

step-is_taken :
    (net : Inet) (id : Text) (addr : ℕ) (pools after : Allocator) (c : Call)
    → Keeps net id addr c
    → is_taken id addr pools ≡ true
    → step net pools c ≡ ok after
    → is_taken id addr after ≡ true
unfolding step
step-is_taken net id addr pools after (adds other cidr reserved) h t r =
    adds-is_taken net id other cidr reserved addr pools after h t r
step-is_taken net id addr pools after (allocates other) h t r =
    let (result, e, k) = and_then-ok (allocate net other pools) (λ x. ok x.0) after r in
    subst (λ q. is_taken id addr q ≡ true) (ground arith)
      (allocates-is_taken net id other addr pools result.0 result.1 t e)
step-is_taken net id addr pools after (frees other ip) h t r =
    subst (λ q. is_taken id addr q ≡ true) (ground arith)
      (frees-is_taken net id other ip addr pools h t)

pub run-is_taken :
    (net : Inet) (id : Text) (addr : ℕ) (cs : List Call) (pools after : Allocator)
    → All (Keeps net id addr) cs
    → is_taken id addr pools ≡ true
    → run net pools cs ≡ ok after
    → is_taken id addr after ≡ true
unfolding run
run-is_taken net id addr [] pools after h t r = ground arith
run-is_taken net id addr (c ∷ cs) pools after h t r =
    let (q, e, k) = and_then-ok (step net pools c) (λ x. run net x cs) after r in
    run-is_taken net id addr cs q after h.1 (step-is_taken net id addr pools q c h.0 t e) k

ntop_injective :
    (net : Inet) (a b : ℕ) → IsInet net → a < 2 ^ 32 → b < 2 ^ 32 → net.ntop a ≡ net.ntop b → a ≡ b
ntop_injective net a b laws h k e = cc (laws.pton-ntop a h, laws.pton-ntop b k)

ip_to_uint_of_ntop :
    (net : Inet) (ip : Text) (a : ℕ)
    → IsInet net
    → a < 2 ^ 32
    → ip ≡ net.ntop a
    → ip_to_uint net ip ≡ a
unfolding ip_to_uint
ip_to_uint_of_ntop net ip a laws h e = ground (arith, laws.pton-ntop a h)

-- A call that returned an address has found it free, and leaves it taken.
pub allocate_takes :
    (net : Inet) (id : Text) (pools after : Allocator) (ip : Text)
    → IsInet net
    → Every IsPool pools
    → allocate net id pools ≡ ok (after, ip)
    → ip ≢ []
    → (addr : ℕ) × (ip ≡ net.ntop addr)
      × (addr < 2 ^ 32)
      × (is_taken id addr pools ≡ false)
      × (is_taken id addr after ≡ true)
unfolding uint_to_ip
allocate_takes net id pools after ip laws h r filled =
    elim (allocate-Allocated net id pools (after, ip) r) [
      | inl (_, empty) ↦ absurd (filled empty)
      | inr (pool, addr, e, made, out, below, free) ↦ (
        addr,
        out,
        omega (arith, (lookup-Every IsPool id pool pools h e).ends),
        ground (arith, e, free),
        rw made (
            is_taken-insert id id addr (record pool { allocated = add_member addr pool.allocated })
              pools
            ∙ ground (arith, text_eq_refl id, contains-add_member addr addr pool.allocated)),
      )
    ]

-- After any history from the empty allocator, an address that `allocate` hands out in a network is
-- not handed out there again, as long as no later call frees it or sets up the pool anew.
pub no_reuse :
    (net : Inet) (before later : List Call) (id ip ip' : Text) (p q r s : Allocator)
    → IsInet net
    → run net [] before ≡ ok p
    → allocate net id p ≡ ok (q, ip)
    → ip ≢ []
    → All (Keeps net id (ip_to_uint net ip)) later
    → run net q later ≡ ok r
    → allocate net id r ≡ ok (s, ip')
    → ip' ≢ ip
no_reuse net before later id ip ip' p q r s laws h first filled keeps more second = λ same.
    let shaped = run-Every net before [] p laws tt h in
    let (a, out, small, _, marked) = allocate_takes net id p q ip laws shaped first filled in
    let here : ip_to_uint net ip ≡ a = ip_to_uint_of_ntop net ip a laws small out in
    let held : is_taken id a r ≡ true =
      run-is_taken net id a later q r (subst (λ x. All (Keeps net id x) later) here keeps) marked
        more in
    let shaped' = run-Every net later q r laws (allocate-Every net id p q ip shaped first) more in
    let (b, out', small', fresh, _) =
      allocate_takes net id r s ip' laws shaped' second (λ e. filled (sym same ∙ e)) in
    let same_addr = ntop_injective net b a laws small' small (sym out' ∙ same ∙ out) in cc

-- In an allocator that a history made, `allocate` for a pool of prefix 30 or less returns, and an
-- address that it hands out lies strictly between the gateway and the broadcast address of the
-- pool's block.
pub allocate_inside :
    (net : Inet) (before : List Call) (id : Text) (pools : Allocator) (pool : Pool)
    → IsInet net
    → run net [] before ≡ ok pools
    → lookup id pools ≡ some pool
    → pool.prefix ≤ 30
    → (after : Allocator) × (ip : Text) × (allocate net id pools ≡ ok (after, ip))
      × ((ip ≡ [])
          ⊎ ((addr : ℕ) × (ip ≡ uint_to_ip net addr)
              × (pool.base_addr + 1 < addr)
              × (addr + 1 < pool.base_addr + 2 ^ (32 - pool.prefix))))
allocate_inside net before id pools pool laws h e small =
    let shape = lookup-Every IsPool id pool pools (run-Every net before [] pools laws tt h) e in
    let range = range_of_prefix pool shape small in
    elim (allocate_first_free net id pool pools e range.3) [
      | inl (done, _) ↦ (pools, [], done, inl refl)
      | inr (addr, done, above, below, _, _) ↦ (
        _,
        uint_to_ip net addr,
        done,
        inr (addr, refl, omega (arith, range), omega (arith, range)),
      )
    ]
