-- ===== src/Ipam/Free.antt =====
-- `IpAllocator::free` against `isAllocated`, and the subnet text against `parseCidr`.
use natt.Prelude.{
  ◌≡◌, inl, inr, false, ◌&&◌, some, arith, ◌==◌, if◌then◌else◌, Option-cases, Text, text_eq, eq_iff,
  lookup, lookup-insert,
}
use natt.Inet.{Inet, IsInet}
use natt.Address.{ok, ip_to_uint, parse_cidr}
use natt.Address.Cidr.{parse_cidr-print}
use natt.Address.Subnet.{block_bounds}
use natt.Ipam.{remove_member, Pool, Allocator, free, is_allocated, get_subnet}
use natt.Ipam.Sets.{contains-remove_member}
use natt.Ipam.Shape.{IsPool}

-- `free` returns whether the address was marked in the network, and afterwards it is not marked; the
-- marks of every other address and of every other network stay.
pub free_lem :
    (net : Inet) (id ip other ip' : Text) (pools : Allocator)
    → ((free net id ip pools).1 ≡ is_allocated net id ip pools)
      × (is_allocated net other ip' (free net id ip pools).0 ≡ (
          if text_eq id other && ip_to_uint net ip == ip_to_uint net ip'
          then false
          else is_allocated net other ip' pools))
unfolding free is_allocated
free_lem net id ip other ip' pools = elim (Option-cases (lookup id pools)) [
  | inl e ↦ ground (arith, e, eq_iff id other)
  | inr (pool, e) ↦ ground (
    arith,
    e,
    eq_iff id other,
    lookup-insert id other
        (record pool { allocated = remove_member (ip_to_uint net ip) pool.allocated }) pools,
    contains-remove_member (ip_to_uint net ip) (ip_to_uint net ip') pool.allocated,
  )
]

-- The text of `getSubnet` is read by `parseCidr` as the pool's own base address and prefix.
pub parse_cidr-get_subnet :
    (net : Inet) (id : Text) (pool : Pool) (pools : Allocator)
    → IsInet net
    → lookup id pools ≡ some pool
    → IsPool pool
    → parse_cidr net (get_subnet net id pools) ≡ ok (some (pool.base_addr, pool.prefix))
unfolding get_subnet
parse_cidr-get_subnet net id pool pools laws e s =
    rw (e, get_subnet)
      (parse_cidr-print net pool.base_addr pool.prefix laws
        (omega (arith, block_bounds pool.prefix)) s.prefix_le s.aligned)
