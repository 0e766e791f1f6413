-- ===== src/Address.antt =====
-- src/ipam/IpAllocator.cpp, the static helpers: network and broadcast addresses, address texts and
-- CIDR texts. A `uint32_t` is a number below 2 ^ 32, with its wrap-around written out.
pub mod Bits
pub mod Subnet
pub mod Cidr
use Prim.Native.Nat.{bit_and, bit_or}
use natt.Prelude.{
  ℕ, zero, suc, ◌+◌, ◌-◌, ◌*◌, ◌/◌, ◌%◌, ◌^◌, Bool, true, false, ◌||◌, ◌&&◌, Option, none, some,
  List, [], ◌∷◌, ◌++◌, Text, split_at, leb, ltb, ◌==◌, ◌≡◌, refl, if◌then◌else◌, is_some, keep_if,
  not, length, ◌≡◌, refl,
}
use natt.Prelude.Int.{ℤ, pos, sub_ℕ}
use natt.Inet.{Inet}

abbrev pub u32_mod : ℕ
u32_mod = 2 ^ 32

-- How a call ends: with a value, by an exception of `std::stoi`, in undefined behaviour, or never.
pub data Outcome {ℓ} (A : Type ℓ) : Type ℓ where
  ok : A → Outcome A
  throws : Outcome A
  undefined : Outcome A
  hangs : Outcome A

abbrev pub and_then {ℓ κ} : {A : Type ℓ} {B : Type κ} → Outcome A → (A → Outcome B) → Outcome B
and_then (ok a) f = f a
and_then throws f = throws
and_then undefined f = undefined
and_then hangs f = hangs

-- Inversion of a chain that returned.
pub and_then-ok {ℓ κ} :
    {A : Type ℓ} {B : Type κ} (o : Outcome A) (f : A → Outcome B) (b : B)
    → and_then o f ≡ ok b
    → (a : A) × (o ≡ ok a) × (f a ≡ ok b)
and_then-ok (ok a) f b h = (a, refl, h)
and_then-ok throws f b h = cc
and_then-ok undefined f b h = cc
and_then-ok hangs f b h = cc

-- `1u << n`, which C++ leaves undefined from n = 32 on.
abbrev pub shl_one : ℕ → Outcome ℕ
shl_one n = if ltb n 32 then ok (2 ^ n) else undefined

-- `~x`
abbrev pub not_u32 : ℕ → ℕ
not_u32 x = u32_mod - 1 - x

unfoldable pub network_addr : ℕ → ℕ → Outcome ℕ
network_addr addr prefix =
    if prefix == 0
    then ok 0
    else and_then (shl_one (32 - prefix)) λ bit. ok (bit_and addr (not_u32 (bit - 1)))

unfoldable pub broadcast_addr : ℕ → ℕ → Outcome ℕ
broadcast_addr addr prefix =
    if leb 32 prefix
    then ok addr
    else and_then (shl_one (32 - prefix)) λ bit. ok (bit_or addr (bit - 1))

-- `addr` is zeroed first, and a text that is no address leaves it so.
unfoldable pub ip_to_uint : Inet → Text → ℕ
ip_to_uint net ip = elim (net.pton ip) [ none ↦ 0 | some a ↦ a ]

unfoldable pub uint_to_ip : Inet → ℕ → Text
uint_to_ip net addr = net.ntop addr

abbrev pub is_digit : ℕ → Bool
is_digit c = leb b'0' c && leb c b'9'

-- The digits at the front of a text as a number: `none` if there is none.
unfoldable pub digits_value : ℕ → Text → ℕ
digits_value acc [] = acc
digits_value acc (c ∷ s) =
    let rest = digits_value (acc * 10 + (c - b'0')) s in if is_digit c then rest else acc

abbrev pub starts_with_digit : Text → Bool
starts_with_digit [] = false
starts_with_digit (c ∷ s) = is_digit c

abbrev pub is_space : ℕ → Bool
is_space c = c == 32 || (leb 9 c && leb c 13)

unfoldable pub skip_spaces : Text → Text
skip_spaces [] = []
skip_spaces (c ∷ s) = if is_space c then skip_spaces s else c ∷ s

abbrev unsigned : ℕ → Text → Option ℕ
unsigned bound s =
    if starts_with_digit s
    then (let n = digits_value 0 s in if leb n bound then some n else none)
    else none

abbrev signed : Text → Option ℤ
signed [] = none
signed (c ∷ s) =
    if c == b'-'
    then elim (unsigned (2 ^ 31) s) [ none ↦ none | some n ↦ some (sub_ℕ 0 n) ]
    else elim (unsigned (2 ^ 31 - 1) (if c == b'+' then s else c ∷ s)) [
      | none ↦ none
      | some n ↦ some (pos n)
    ]

-- `std::stoi`: white space, a sign, digits, and whatever follows. `none` is `invalid_argument` or
-- `out_of_range`.
unfoldable pub stoi : Text → Option ℤ
unfolding digits_value skip_spaces
stoi s = signed (skip_spaces s)

decimal : ℕ → ℕ → Text → Text
decimal zero n acc = acc
decimal (suc fuel) n acc =
    let rest = decimal fuel (n / 10) ((b'0' + n % 10) ∷ acc) in
    if ltb n 10 then (b'0' + n) ∷ acc else rest

-- `std::to_string` of a number that is not negative. It has fewer digits than `n + 1`.
unfoldable pub to_string : ℕ → Text
unfolding decimal
to_string n = decimal (suc n) n []

-- `parseCidr` returning false is `ok none`.
abbrev pub prefix_in_range : ℤ → Option ℕ
prefix_in_range (pos n) = if leb n 32 then some n else none
prefix_in_range (ℤ.negsuc n) = none

unfoldable pub parse_cidr : Inet → Text → Outcome (Option (ℕ × ℕ))
parse_cidr net cidr = elim (split_at b'/' cidr) [
  | none ↦ ok none
  | some (ip, rest) ↦ elim (stoi rest) [
    | none ↦ throws
    | some value ↦ elim (prefix_in_range value) [
      | none ↦ ok none
      | some prefix ↦
          and_then (network_addr (ip_to_uint net ip) prefix) λ base. ok (some (base, prefix))
    ]
  ]
]
