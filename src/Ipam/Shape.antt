-- ===== src/Ipam/Shape.antt =====
-- The pools that `addPool` builds: which addresses they can hand out.
use native.Mathlib.Nat.{sub-zero}
use mathlib.Core.Path.{subst}
use natt.Prelude.{
  split_at, ℕ, zero, suc, ◌+◌, ◌-◌, ◌%◌, ◌^◌, ◌≤◌, ◌<◌, ◌≡◌, refl, ap, ◌∙◌, ◌⊎◌, inl, inr, true,
  Option, none, some, List, [], ◌∷◌, arith, ◌==◌, ==_iff, Bool-cases, Option-cases, Text, lookup,
}
use natt.Inet.{Inet, IsInet}
use natt.Address.{ok, and_then-ok, ip_to_uint, parse_cidr}
use natt.Address.Subnet.{
  block, block-ge_four, network_addr-eq, broadcast_addr-eq, broadcast_addr-zero, base_bounds,
  block_bounds,
}
use natt.Ipam.{contains, add_member, Pool, Allocator, reserve, pool_at, built, make_pool, allocate}
use natt.Ipam.Sets.{contains-add_member}
use natt.Ipam.Allocate.{allocate_first_free}

-- The base is the start of a block of the prefix, and the range leaves out the network address, the
-- gateway behind it and the broadcast address, in 32-bit arithmetic.
pub record IsPool (pool : Pool) : Type 0 where
  pub prefix_pos : 0 < pool.prefix
  pub prefix_le : pool.prefix ≤ 32
  pub base_fits : pool.base_addr + block pool.prefix ≤ 2 ^ 32
  pub aligned : pool.base_addr % block pool.prefix ≡ 0
  pub starts : pool.start_addr ≡ (pool.base_addr + 2) % 2 ^ 32
  pub ends : pool.end_addr ≡ (pool.base_addr + (block pool.prefix - 1) + (2 ^ 32 - 1)) % 2 ^ 32

ip_to_uint-lt : (net : Inet) (ip : Text) → IsInet net → ip_to_uint net ip < 2 ^ 32
unfolding ip_to_uint
ip_to_uint-lt net ip laws = elim (Option-cases (net.pton ip)) [
  | inl e ↦ rw (e, ip_to_uint) (omega arith)
  | inr (a, e) ↦ rw (e, ip_to_uint) (laws.pton-lt ip a e)
]

parse_cidr_facts :
    (net : Inet) (cidr : Text) (base p : ℕ)
    → IsInet net
    → parse_cidr net cidr ≡ ok (some (base, p))
    → (p ≤ 32) × (base + block p ≤ 2 ^ 32) × (base % block p ≡ 0)
unfolding parse_cidr
parse_cidr_facts net cidr base p laws h = elim (Option-cases (split_at b'/' cidr)) [
  | inl e ↦ ground (arith, e)
  | inr ((ip, rest), e) ↦ ground (
    arith,
    e,
    network_addr-eq (ip_to_uint net ip) p (ip_to_uint-lt net ip laws),
    base_bounds (ip_to_uint net ip) p (ip_to_uint-lt net ip laws),
  )
]

contains-reserve :
    (net : Inet) (ips : List Text) (xs : List ℕ) (a : ℕ)
    → contains xs a ≡ true
    → contains (reserve net ips xs) a ≡ true
unfolding reserve
contains-reserve net [] xs a h = h
contains-reserve net (ip ∷ ips) xs a h =
    contains-reserve net ips (add_member (ip_to_uint net ip) xs) a
      (ground (arith, contains-add_member (ip_to_uint net ip) a xs))

-- The shape of the pool, and that its gateway is taken.
abbrev IsMade : Pool → Type 0
IsMade pool = IsPool pool × (contains pool.allocated ((pool.base_addr + 1) % 2 ^ 32) ≡ true)

pool_at-IsMade :
    (net : Inet) (reserved : List Text) (base p : ℕ)
    → 0 < p
    → p ≤ 32
    → base + block p ≤ 2 ^ 32
    → base % block p ≡ 0
    → IsMade (pool_at net reserved base p (base + (block p - 1)))
pool_at-IsMade net reserved base p l q fits aligned = (
  record {
    prefix_pos = l;
    prefix_le = q;
    base_fits = fits;
    aligned = aligned;
    starts = refl;
    ends = omega (arith, block_bounds p q);
  },
  contains-reserve net reserved _ _
      (contains-add_member ((base + 1) % 2 ^ 32) ((base + 1) % 2 ^ 32) [] ∙ ground arith),
)

built-IsMade :
    (net : Inet) (cidr : Text) (reserved : List Text) (pool : Pool) (parsed : Option (ℕ × ℕ))
    → IsInet net
    → parse_cidr net cidr ≡ ok parsed
    → built net reserved parsed ≡ ok (some pool)
    → IsMade pool
built-IsMade net cidr reserved pool none laws e h = cc
built-IsMade net cidr reserved pool (some (base, zero)) laws e h = cc (broadcast_addr-zero base)
built-IsMade net cidr reserved pool (some (base, suc p)) laws e h =
    let (q, fits, aligned) = parse_cidr_facts net cidr base (suc p) laws e in
    subst IsMade (same q fits aligned)
      (pool_at-IsMade net reserved base (suc p) (omega arith) q fits aligned)
  where
    same :
        suc p ≤ 32
        → base + block (suc p) ≤ 2 ^ 32
        → base % block (suc p) ≡ 0
        → pool_at net reserved base (suc p) (base + (block (suc p) - 1)) ≡ pool
    same q fits aligned =
        cc (broadcast_addr-eq base (suc p) (omega arith) q, aligned, sub-zero base)

-- A pool that `addPool` makes without undefined behaviour has the shape, and its gateway is taken.
pub make_pool-IsMade :
    (net : Inet) (cidr : Text) (reserved : List Text) (pool : Pool)
    → IsInet net
    → make_pool net cidr reserved ≡ ok (some pool)
    → IsPool pool × (contains pool.allocated ((pool.base_addr + 1) % 2 ^ 32) ≡ true)
unfolding make_pool
make_pool-IsMade net cidr reserved pool laws h =
    let (parsed, e, k) = and_then-ok (parse_cidr net cidr) (built net reserved) (some pool) h in
    built-IsMade net cidr reserved pool parsed laws e k

-- From a prefix of 30 down the range has addresses, and they lie strictly between the gateway and
-- the broadcast address.
pub range_of_prefix :
    (pool : Pool)
    → IsPool pool
    → pool.prefix ≤ 30
    → (pool.start_addr ≡ pool.base_addr + 2)
      × (pool.end_addr + 2 ≡ pool.base_addr + 2 ^ (32 - pool.prefix))
      × (pool.start_addr ≤ pool.end_addr)
      × (pool.end_addr + 1 < 2 ^ 32)
range_of_prefix pool s h = omega (arith, block-ge_four pool.prefix h)

-- In a pool with a prefix of 31 or 32, whose base address is not 0 and less than 2 ^ 32 - 2, a call of
-- `allocate` returns the empty text and changes nothing.
pub allocate_small_pool :
    (net : Inet) (id : Text) (pool : Pool) (pools : Allocator)
    → lookup id pools ≡ some pool
    → IsPool pool
    → 31 ≤ pool.prefix
    → pool.base_addr + 2 < 2 ^ 32
    → 0 < pool.base_addr
    → allocate net id pools ≡ ok (pools, [])
allocate_small_pool net id pool pools e s l fits positive =
    elim (allocate_first_free net id pool pools e (omega (arith, empty))) [
      | inl (done, _) ↦ done
      | inr (addr, _, above, below, _, _) ↦ absurd (omega (arith, empty))
    ]
  where
    size : (block pool.prefix ≡ 1) ⊎ (block pool.prefix ≡ 2)
    size = elim (Bool-cases (pool.prefix == 32)) [
      | inl whole ↦ inl (ap block ((==_iff pool.prefix 32).0 whole))
      | inr pair ↦ inr (ap block {y = 31} (ground (arith, s.prefix_le)))
    ]

    empty : (pool.end_addr + 1 < 2 ^ 32) × (pool.end_addr < pool.start_addr)
    empty = omega (arith, size, s.starts, s.ends)
