-- ===== src/Ipam/History.antt =====
-- Histories of calls, and the shape of the pools that they lead to.
use natt.Prelude.{
  ℕ, ◌≡◌, refl, inl, inr, Option, none, some, List, [], ◌∷◌, arith, Bool-cases, Text, lookup, Every,
  lookup-Every, insert-Every,
}
use natt.Inet.{Inet, IsInet}
use natt.Address.{Outcome, ok, throws, undefined, hangs, and_then, and_then-ok, ip_to_uint}
use natt.Ipam.{contains, Pool, Allocator, make_pool, put, add_pool, allocate, free}
use natt.Ipam.Allocate.{Allocated, allocate-Allocated}
use natt.Ipam.Shape.{IsPool, make_pool-IsMade}
use mathlib.Core.Path.{subst}

pub data Call : Type 0 where
  adds : Text → Text → List Text → Call
  allocates : Text → Call
  frees : Text → Text → Call

unfoldable pub step : Inet → Allocator → Call → Outcome Allocator
step net pools (adds id cidr reserved) = add_pool net id cidr reserved pools
step net pools (allocates id) = and_then (allocate net id pools) λ r. ok r.0
step net pools (frees id ip) = ok (free net id ip pools).0

unfoldable pub run : Inet → Allocator → List Call → Outcome Allocator
run net pools [] = ok pools
run net pools (c ∷ cs) = and_then (step net pools c) λ q. run net q cs

IsPool-mark : (pool : Pool) (xs : List ℕ) → IsPool pool → IsPool (record pool { allocated = xs })
IsPool-mark pool xs s = record {
  prefix_pos = s.prefix_pos;
  prefix_le = s.prefix_le;
  base_fits = s.base_fits;
  aligned = s.aligned;
  starts = s.starts;
  ends = s.ends;
}

Allocated-Every :
    (net : Inet) (id : Text) (pools : Allocator) (result : Allocator × Text)
    → Every IsPool pools
    → Allocated net id pools result
    → Every IsPool result.0
Allocated-Every net id pools (after, out) h (inl (same, _)) = rw same h
Allocated-Every net id pools (after, out) h (inr (pool, new, e, made, _, _, _)) =
    rw made (
      insert-Every IsPool id _ pools h (IsPool-mark pool _ (lookup-Every IsPool id pool pools h e)))

pub allocate-Every :
    (net : Inet) (id : Text) (pools after : Allocator) (out : Text)
    → Every IsPool pools
    → allocate net id pools ≡ ok (after, out)
    → Every IsPool after
allocate-Every net id pools after out h e =
    Allocated-Every net id pools (after, out) h (allocate-Allocated net id pools (after, out) e)

step-Every :
    (net : Inet) (pools after : Allocator) (c : Call)
    → IsInet net
    → Every IsPool pools
    → step net pools c ≡ ok after
    → Every IsPool after
unfolding step free
step-Every net pools after (adds id cidr reserved) laws h r =
    added (make_pool net cidr reserved) refl (unfold add_pool in r)
  where
    added :
        (made : Outcome (Option Pool))
        → make_pool net cidr reserved ≡ made
        → and_then made (put id pools) ≡ ok after
        → Every IsPool after
    added (ok none) e k = subst (Every IsPool) (ground arith) h
    added (ok (some pool)) e k =
        subst (Every IsPool) (ground arith)
          (insert-Every IsPool id pool pools h (make_pool-IsMade net cidr reserved pool laws e).0)
    added throws e k = cc
    added undefined e k = cc
    added hangs e k = cc
step-Every net pools after (allocates id) laws h r =
    let (result, e, k) = and_then-ok (allocate net id pools) (λ x. ok x.0) after r in
    subst (Every IsPool) (ground arith) (allocate-Every net id pools result.0 result.1 h e)
step-Every net pools after (frees id ip) laws h r =
    subst (Every IsPool) (ground arith) (freed (lookup id pools) refl)
  where
    freed : (found : Option Pool) → lookup id pools ≡ found → Every IsPool (free net id ip pools).0
    freed none e = rw (e, free) h
    freed (some pool) e = elim (Bool-cases (contains pool.allocated (ip_to_uint net ip))) [
      | inl there ↦
          rw (e, free, there)
            (insert-Every IsPool id _ pools h
              (IsPool-mark pool _ (lookup-Every IsPool id pool pools h e)))
      | inr gone ↦ rw (e, free, gone) h
    ]

-- In every allocator that a history of calls makes from the empty one, each pool is a pool that
-- `addPool` shaped.
pub run-Every :
    (net : Inet) (cs : List Call) (pools after : Allocator)
    → IsInet net
    → Every IsPool pools
    → run net pools cs ≡ ok after
    → Every IsPool after
unfolding run
run-Every net [] pools after laws h r = subst (Every IsPool) (ground arith) h
run-Every net (c ∷ cs) pools after laws h r =
    let (q, e, k) = and_then-ok (step net pools c) (λ x. run net x cs) after r in
    run-Every net cs q after laws (step-Every net pools q c laws h e) k
