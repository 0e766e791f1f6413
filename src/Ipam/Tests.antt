-- ===== src/Ipam/Tests.antt =====
-- Runs of the allocator on dotted addresses, and the theorems at inputs that meet their hypotheses.
use natt.Prelude.{
  ℕ, ◌+◌, ◌-◌, ◌%◌, ◌^◌, ◌≤◌, ◌<◌, ◌≡◌, refl, ◌≢◌, ◌⊎◌, some, List, [], ◌∷◌, arith, All, Text, txt,
  text_eq, split_at, lookup, insert,
}
use natt.Inet.Dotted.{dotted, dotted-IsInet, dotted_pton, dotted_ntop}
use natt.Address.{
  ok, network_addr, broadcast_addr, ip_to_uint, uint_to_ip, parse_cidr, to_string, stoi,
}
use natt.Address.Subnet.{network_broadcast_block}
use natt.Ipam.{
  contains, add_member, remove_member, Pool, Allocator, reserve, make_pool, add_pool, scan,
  allocate, free, is_allocated,
}
use natt.Ipam.Allocate.{Allocates, allocate_first_free}
use natt.Ipam.Shape.{IsPool, make_pool-IsMade}
use natt.Ipam.History.{Call, adds, allocates, frees, step, run}
use natt.Ipam.Free.{free_lem}
use natt.Ipam.Reuse.{Keeps, no_reuse, allocate_inside}

abbrev home : Text
home = txt "home"

-- 10.0.0.0/29 with 10.0.0.3 reserved.
abbrev small_pool : Pool
small_pool = record {
  base_addr = 0x0a000000;
  start_addr = 0x0a000002;
  end_addr = 0x0a000006;
  prefix = 29;
  allocated = 0x0a000003 ∷ 0x0a000001 ∷ [];
}

abbrev pools : Allocator
pools = (home, small_pool) ∷ []

abbrev setup : List Call
setup = adds home (txt "10.0.0.5/29") (txt "10.0.0.3" ∷ []) ∷ []

abbrev between : List Call
between = allocates home ∷ frees home (txt "10.0.0.3") ∷ []

abbrev pool_with : List ℕ → Allocator
pool_with xs = (home, record small_pool { allocated = xs }) ∷ []

add_pool_run : add_pool dotted home (txt "10.0.0.5/29") (txt "10.0.0.3" ∷ []) [] ≡ ok pools
unfolding add_pool make_pool parse_cidr split_at stoi network_addr broadcast_addr ip_to_uint
    dotted_pton reserve add_member contains insert lookup text_eq
add_pool_run = refl

allocate_run :
    allocate dotted home pools
    ≡ ok (
      (home, record small_pool { allocated = 0x0a000002 ∷ 0x0a000003 ∷ 0x0a000001 ∷ [] }) ∷ [],
      txt "10.0.0.2",
    )
unfolding allocate scan contains add_member insert lookup text_eq uint_to_ip dotted_ntop to_string
allocate_run = refl

made : make_pool dotted (txt "10.0.0.5/29") (txt "10.0.0.3" ∷ []) ≡ ok (some small_pool)
unfolding make_pool parse_cidr split_at stoi network_addr broadcast_addr ip_to_uint dotted_pton
    reserve add_member contains
made = refl

found : lookup home pools ≡ some small_pool
unfolding lookup text_eq
found = refl

setup-run : run dotted [] setup ≡ ok pools
unfolding run step
setup-run = rw add_pool_run

keeps : All (Keeps dotted home (ip_to_uint dotted (txt "10.0.0.2"))) between
unfolding ip_to_uint dotted_pton split_at
keeps = (tt, ((λ e f. absurd (omega arith)), tt))

between-run :
    run dotted (pool_with (0x0a000002 ∷ 0x0a000003 ∷ 0x0a000001 ∷ [])) between
    ≡ ok (pool_with (0x0a000004 ∷ 0x0a000002 ∷ 0x0a000001 ∷ []))
unfolding run step allocate free scan contains add_member remove_member insert lookup text_eq
    ip_to_uint dotted_pton split_at
between-run = refl

second_run :
    allocate dotted home (pool_with (0x0a000004 ∷ 0x0a000002 ∷ 0x0a000001 ∷ []))
    ≡ ok (pool_with (0x0a000003 ∷ 0x0a000004 ∷ 0x0a000002 ∷ 0x0a000001 ∷ []), txt "10.0.0.3")
unfolding allocate scan contains add_member insert lookup text_eq uint_to_ip dotted_ntop to_string
second_run = refl

small_pool-IsPool : IsPool small_pool
small_pool-IsPool =
    (make_pool-IsMade dotted (txt "10.0.0.5/29") (txt "10.0.0.3" ∷ []) small_pool dotted-IsInet
      made).0

network_broadcast_block_example :
    (base : ℕ) × (last : ℕ) × (network_addr 0x0a000005 29 ≡ ok base)
    × (broadcast_addr 0x0a000005 29 ≡ ok last)
    × (base ≤ 0x0a000005)
    × (0x0a000005 ≤ last)
    × (last < 2 ^ 32)
    × (base % 2 ^ (32 - 29) ≡ 0)
    × (last + 1 ≡ base + 2 ^ (32 - 29))
    × (network_addr last 29 ≡ ok base)
    × (broadcast_addr base 29 ≡ ok last)
network_broadcast_block_example =
    network_broadcast_block 0x0a000005 29 (omega arith) (omega arith) (omega arith)

allocate_first_free_example : Allocates dotted home small_pool pools (allocate dotted home pools)
allocate_first_free_example = allocate_first_free dotted home small_pool pools found (omega arith)

no_reuse_example : txt "10.0.0.3" ≢ txt "10.0.0.2"
no_reuse_example =
    no_reuse dotted setup between home (txt "10.0.0.2") (txt "10.0.0.3") pools
      (pool_with (0x0a000002 ∷ 0x0a000003 ∷ 0x0a000001 ∷ []))
      (pool_with (0x0a000004 ∷ 0x0a000002 ∷ 0x0a000001 ∷ []))
      (pool_with (0x0a000003 ∷ 0x0a000004 ∷ 0x0a000002 ∷ 0x0a000001 ∷ [])) dotted-IsInet setup-run
      allocate_run (λ e. cc) keeps between-run second_run

allocate_inside_example :
    (after : Allocator) × (ip : Text) × (allocate dotted home pools ≡ ok (after, ip))
    × ((ip ≡ [])
        ⊎ ((addr : ℕ) × (ip ≡ uint_to_ip dotted addr)
            × (0x0a000000 + 1 < addr)
            × (addr + 1 < 0x0a000000 + 2 ^ (32 - 29))))
allocate_inside_example =
    allocate_inside dotted setup home pools small_pool dotted-IsInet setup-run found (omega arith)

free_lem_example :
    ((free dotted home (txt "10.0.0.3") pools).1 ≡ is_allocated dotted home (txt "10.0.0.3") pools)
    × (is_allocated dotted home (txt "10.0.0.1") (free dotted home (txt "10.0.0.3") pools).0
        ≡ is_allocated dotted home (txt "10.0.0.1") pools)
unfolding ip_to_uint dotted_pton split_at text_eq
free_lem_example = free_lem dotted home (txt "10.0.0.3") home (txt "10.0.0.1") pools
