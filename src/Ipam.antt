-- ===== src/Ipam.antt =====
-- src/ipam/IpAllocator.{h,cpp}: pools of IPv4 addresses, one to a network. The mutex makes every call
-- atomic, so a history is a sequence of calls. The log lines are left out.
pub mod Sets
pub mod Scan
pub mod Allocate
pub mod Shape
pub mod History
pub mod Reuse
pub mod Free
mod Tests
use natt.Prelude.{
  ℕ, zero, suc, ◌+◌, ◌-◌, ◌*◌, ◌/◌, ◌%◌, ◌^◌, Bool, true, false, ◌||◌, ◌&&◌, Option, none, some,
  List, [], ◌∷◌, ◌++◌, Text, Dict, lookup, insert, leb, ltb, ◌==◌, if◌then◌else◌, is_some, keep_if,
  not, length,
}
use natt.Prelude.Int.{ℤ, pos, sub_ℕ}
use natt.Inet.{Inet}
use natt.Address.{
  u32_mod, Outcome, ok, throws, undefined, hangs, and_then, broadcast_addr, ip_to_uint, uint_to_ip,
  parse_cidr, to_string,
}

-- A `std::unordered_set<uint32_t>` as the list of its members.
unfoldable pub contains : List ℕ → ℕ → Bool
contains [] a = false
contains (x ∷ xs) a = x == a || contains xs a

unfoldable pub add_member : ℕ → List ℕ → List ℕ
add_member a xs = if contains xs a then xs else a ∷ xs

unfoldable pub remove_member : ℕ → List ℕ → List ℕ
remove_member a [] = []
remove_member a (x ∷ xs) = if x == a then remove_member a xs else x ∷ remove_member a xs

pub record Pool : Type 0 where
  pub base_addr : ℕ
  pub start_addr : ℕ
  pub end_addr : ℕ
  pub prefix : ℕ
  pub allocated : List ℕ

abbrev pub Allocator : Type 0
Allocator = Dict Pool

-- `for (ip : reserved) allocated.insert(ipToUint(ip))`
unfoldable pub reserve : Inet → List Text → List ℕ → List ℕ
reserve net [] allocated = allocated
reserve net (ip ∷ ips) allocated = reserve net ips (add_member (ip_to_uint net ip) allocated)

abbrev pub pool_at : Inet → List Text → ℕ → ℕ → ℕ → Pool
pool_at net reserved base prefix broadcast = record {
  base_addr = base;
  start_addr = (base + 2) % u32_mod;
  end_addr = (broadcast + u32_mod - 1) % u32_mod;
  prefix = prefix;
  allocated = reserve net reserved (add_member ((base + 1) % u32_mod) []);
}

abbrev pub built : Inet → List Text → Option (ℕ × ℕ) → Outcome (Option Pool)
built net reserved none = ok none
built net reserved (some (base, prefix)) =
    and_then (broadcast_addr base prefix)
      λ broadcast. ok (some (pool_at net reserved base prefix broadcast))

-- The pool that `addPool` builds: `ok none` for an invalid CIDR text.
unfoldable pub make_pool : Inet → Text → List Text → Outcome (Option Pool)
make_pool net cidr reserved = and_then (parse_cidr net cidr) (built net reserved)

abbrev pub put : Text → Allocator → Option Pool → Outcome Allocator
put network_id pools none = ok pools
put network_id pools (some pool) = ok (insert network_id pool pools)

unfoldable pub add_pool : Inet → Text → Text → List Text → Allocator → Outcome Allocator
add_pool net network_id cidr reserved pools =
    and_then (make_pool net cidr reserved) (put network_id pools)

-- `for (addr = start; addr <= end; ++addr)` up to the first free address. `hangs` is fuel run out;
-- after 2 ^ 32 rounds the counter has been everywhere, so a loop that is still running never ends.
unfoldable pub scan : ℕ → ℕ → ℕ → List ℕ → Outcome (Option ℕ)
scan zero addr last allocated = hangs
scan (suc fuel) addr last allocated =
    let rest = scan fuel ((addr + 1) % u32_mod) last allocated in
    if leb addr last then (if contains allocated addr then rest else ok (some addr)) else ok none

abbrev pub scan_rounds : ℕ
scan_rounds = 2 ^ 32 + 1

abbrev pub taken : Inet → Text → Pool → Allocator → Option ℕ → Allocator × Text
taken net network_id pool pools none = (pools, [])
taken net network_id pool pools (some addr) = (
  insert network_id (record pool { allocated = add_member addr pool.allocated }) pools,
  uint_to_ip net addr,
)

-- The text of the address, or the empty text.
unfoldable pub allocate : Inet → Text → Allocator → Outcome (Allocator × Text)
allocate net network_id pools = elim (lookup network_id pools) [
  | none ↦ ok (pools, [])
  | some pool ↦
      and_then (scan scan_rounds pool.start_addr pool.end_addr pool.allocated)
        λ found. ok (taken net network_id pool pools found)
]

unfoldable pub free : Inet → Text → Text → Allocator → Allocator × Bool
free net network_id ip pools = elim (lookup network_id pools) [
  | none ↦ (pools, false)
  | some pool ↦
      let addr = ip_to_uint net ip in
      if contains pool.allocated addr
      then (
        insert network_id (record pool { allocated = remove_member addr pool.allocated }) pools,
        true,
      )
      else (pools, false)
]

unfoldable pub is_allocated : Inet → Text → Text → Allocator → Bool
is_allocated net network_id ip pools = elim (lookup network_id pools) [
  | none ↦ false
  | some pool ↦ contains pool.allocated (ip_to_uint net ip)
]

unfoldable pub get_subnet : Inet → Text → Allocator → Text
get_subnet net network_id pools = elim (lookup network_id pools) [
  | none ↦ []
  | some pool ↦ uint_to_ip net pool.base_addr ++ (b'/' ∷ to_string pool.prefix)
]

unfoldable pub get_prefix : Text → Allocator → ℕ
get_prefix network_id pools = elim (lookup network_id pools) [ none ↦ 0 | some pool ↦ pool.prefix ]

unfoldable pub gateway_ip : Inet → Text → Allocator → Text
gateway_ip net network_id pools = elim (lookup network_id pools) [
  | none ↦ []
  | some pool ↦ uint_to_ip net ((pool.base_addr + 1) % u32_mod)
]

unfoldable pub allocated_count : Text → Allocator → ℕ
allocated_count network_id pools = elim (lookup network_id pools) [
  | none ↦ 0
  | some pool ↦ length pool.allocated
]
