-- ===== src/Address/Subnet.antt =====
-- The block of addresses that a prefix cuts out: its first and its last address.
use Prim.Native.Nat.{bit_and}
use native.Mathlib.Nat.{
  mod-lt, mod-le, add-mul-mod_self_right, mul-mod_left, div-add-mod', div-lt_iff_lt-mul, mul_comm,
  mod-eq_of_lt, add-zero, add-suc, pow-suc,
}
use natt.Prelude.{
  ℕ, zero, suc, ◌+◌, ◌-◌, ◌*◌, ◌/◌, ◌%◌, ◌^◌, ◌≤◌, ◌<◌, ◌≡◌, refl, ap, ◌∙◌, arith, inl, inr,
  Bool-cases, ==_iff, leb→le, lt→ltb, leb, ◌==◌,
}
use natt.Address.{ok, undefined, not_u32, network_addr, broadcast_addr}
use natt.Address.Bits.{bit_and_high, bit_or_low, pow_pos}

abbrev pub block : ℕ → ℕ
block prefix = 2 ^ (32 - prefix)

pow-add : (k n : ℕ) → 2 ^ (k + n) ≡ 2 ^ k * 2 ^ n
pow-add k zero = omega (arith, ap (◌^◌ 2) (add-zero k))
pow-add k (suc n) = rw (pow-suc 2 n, add-suc k n, pow-suc 2 (k + n), pow-add k n) (omega arith)

-- The blocks of a prefix fill the address space.
pub blocks : (p : ℕ) → p ≤ 32 → block p * 2 ^ p ≡ 2 ^ 32
blocks p q =
    let e : 32 - p + p ≡ 32 = omega arith in omega (arith, pow-add (32 - p) p, ap (◌^◌ 2) e)

-- A block has no more than 2 ^ 32 addresses.
pub block_bounds : (p : ℕ) → p ≤ 32 → (0 < block p) × (block p ≤ 2 ^ 32)
block_bounds p q = (pow_pos (32 - p), rw (← blocks p q) (grind (arith, pow_pos p)))

pub block-ge_four : (p : ℕ) → p ≤ 30 → 4 ≤ block p
block-ge_four p h =
    let e : 32 - p ≡ 30 - p + 2 = omega arith in
    rw (e, pow-add (30 - p) 2) (omega (arith, pow_pos (30 - p)))

high_bits : (a p : ℕ) → a < 2 ^ 32 → p ≤ 32 → bit_and a (not_u32 (block p - 1)) ≡ a - a % block p
high_bits a p h q =
    let e : 32 - p + p ≡ 32 = omega arith in
    let mask : not_u32 (block p - 1) ≡ 2 ^ (32 - p + p) - block p =
      omega (arith, ap (◌^◌ 2) e, block_bounds p q) in
    rw mask (bit_and_high (32 - p) p a (omega (arith, ap (◌^◌ 2) e)))

pub network_addr-eq : (a p : ℕ) → a < 2 ^ 32 → p ≤ 32 → network_addr a p ≡ ok (a - a % block p)
unfolding network_addr
network_addr-eq a p h q = elim (Bool-cases (p == 0)) [
  | inl zero_prefix ↦
      rw (zero_prefix, (==_iff p 0).0 zero_prefix) (ap ok (omega (arith, mod-eq_of_lt h)))
  | inr other ↦ rw (other, lt→ltb (32 - p) 32 (ground arith)) (ap ok (high_bits a p h q))
]

pub broadcast_addr-eq :
    (a p : ℕ) → 0 < p → p ≤ 32 → broadcast_addr a p ≡ ok (a - a % block p + (block p - 1))
unfolding broadcast_addr
broadcast_addr-eq a p h q = elim (Bool-cases (leb 32 p)) [
  | inl whole ↦ rw whole (ap ok (single (omega (arith, leb→le 32 p whole))))
  | inr part ↦ rw (part, lt→ltb (32 - p) 32 (omega arith)) (ap ok (bit_or_low (32 - p) a))
]
  where
    single : 32 - p ≡ 0 → a ≡ a - a % block p + (block p - 1)
    single e = rw e (omega arith)

block_fits : (q B K : ℕ) → q < K → q * B + B ≤ B * K
block_fits q B K h = grind arith

-- The start of the block around an address: aligned, and the whole block lies below 2 ^ 32.
pub base_bounds :
    (a p : ℕ)
    → a < 2 ^ 32
    → p ≤ 32
    → (a - a % block p + block p ≤ 2 ^ 32)
      × ((a - a % block p) % block p ≡ 0)
      × (a % block p < block p)
      × (a % block p ≤ a)
base_bounds a p h q = (
  omega (arith, base, blocks p q, block_fits (a / block p) (block p) (2 ^ p) whole),
  rw base (mul-mod_left (a / block p) (block p)),
  mod-lt a (block_bounds p q).0,
  mod-le a (block p),
)
  where
    split : a / block p * block p + a % block p ≡ a
    split = div-add-mod' a (block p)

    base : a - a % block p ≡ a / block p * block p
    base = omega (arith, split)

    whole : a / block p < 2 ^ p
    whole = (div-lt_iff_lt-mul (block_bounds p q).0).1 (rw mul_comm (rw (blocks p q) h))

mod_of_multiple : (x r B : ℕ) → x % B ≡ 0 → r < B → (x + r) % B ≡ r
mod_of_multiple x r B e h =
    let split : x + r ≡ r + x / B * B = omega (arith, div-add-mod' x B) in
    rw (split, add-mul-mod_self_right r (x / B) B) (mod-eq_of_lt h)

-- For every prefix from 1 to 32 the two helpers give the ends of the aligned block of
-- 2 ^ (32 - prefix) addresses around the address, and are constant on that block.
pub network_broadcast_block :
    (a p : ℕ)
    → a < 2 ^ 32
    → 0 < p
    → p ≤ 32
    → (base : ℕ) × (last : ℕ) × (network_addr a p ≡ ok base)
      × (broadcast_addr a p ≡ ok last)
      × (base ≤ a)
      × (a ≤ last)
      × (last < 2 ^ 32)
      × (base % 2 ^ (32 - p) ≡ 0)
      × (last + 1 ≡ base + 2 ^ (32 - p))
      × (network_addr last p ≡ ok base)
      × (broadcast_addr base p ≡ ok last)
network_broadcast_block a p h l q = (
  base,
  base + (block p - 1),
  network_addr-eq a p h q,
  broadcast_addr-eq a p l q,
  omega arith,
  omega (arith, facts),
  omega (arith, facts, bounds),
  facts.1,
  omega (arith, bounds),
  network_addr-eq last p (omega (arith, facts, bounds)) q ∙ ap ok (omega (arith, last_block)),
  broadcast_addr-eq base p l q ∙ ap ok (omega (arith, facts)),
)
  where
    base : ℕ
    base = a - a % block p

    last : ℕ
    last = base + (block p - 1)

    facts :
        (base + block p ≤ 2 ^ 32)
        × (base % block p ≡ 0)
        × (a % block p < block p)
        × (a % block p ≤ a)
    facts = base_bounds a p h q

    bounds : (0 < block p) × (block p ≤ 2 ^ 32)
    bounds = block_bounds p q

    last_block : last % block p ≡ block p - 1
    last_block = mod_of_multiple base (block p - 1) (block p) facts.1 (omega (arith, bounds))

-- A prefix of 0 is a shift by 32 places, which has no defined result.
pub broadcast_addr-zero : (a : ℕ) → broadcast_addr a 0 ≡ undefined
unfolding broadcast_addr
broadcast_addr-zero a = refl
