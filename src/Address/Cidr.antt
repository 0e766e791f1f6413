-- ===== src/Address/Cidr.antt =====
-- Printing a subnet and reading it back.
use natt.Prelude.{
  ℕ, zero, suc, ◌-◌, ◌%◌, ◌^◌, ◌≤◌, ◌<◌, ◌≡◌, refl, arith, Bool, true, false, ◌==◌, ◌++◌, ◌∷◌,
  split_at-append, some, none, ◌&&◌,
}
use natt.Inet.{Inet, IsInet}
use natt.Address.{ok, ip_to_uint, uint_to_ip, stoi, to_string, parse_cidr}
use natt.Address.Subnet.{network_addr-eq}
use natt.Prelude.Int.{ℤ, pos}

is_read : ℕ → Bool
is_read p = elim (stoi (to_string p)) [
  | none ↦ false
  | some (pos n) ↦ n == p
  | some (ℤ.negsuc n) ↦ false
]

all_read : ℕ → Bool
all_read zero = true
all_read (suc n) = is_read n && all_read n

prefixes_read : all_read 33 ≡ true
unfolding all_read is_read stoi to_string
prefixes_read = refl

all_read_sound : (n p : ℕ) → all_read n ≡ true → p < n → is_read p ≡ true
unfolding all_read
all_read_sound zero p h l = absurd (omega arith)
all_read_sound (suc n) p h l = ground (arith, all_read_sound n p)

stoi_of_read : (p : ℕ) → is_read p ≡ true → stoi (to_string p) ≡ some (pos p)
unfolding is_read
stoi_of_read p e = ground arith

stoi-to_string : (p : ℕ) → p ≤ 32 → stoi (to_string p) ≡ some (pos p)
stoi-to_string p h = stoi_of_read p (all_read_sound 33 p prefixes_read (omega arith))

-- A printed network address and prefix are read back as they are.
pub parse_cidr-print :
    (net : Inet) (base p : ℕ)
    → IsInet net
    → base < 2 ^ 32
    → p ≤ 32
    → base % 2 ^ (32 - p) ≡ 0
    → parse_cidr net (uint_to_ip net base ++ b'/' ∷ to_string p) ≡ ok (some (base, p))
unfolding parse_cidr ip_to_uint uint_to_ip
parse_cidr-print net base p laws h q aligned = ground (
  arith,
  split_at-append b'/' (net.ntop base) (to_string p) (laws.ntop_no_slash base h),
  stoi-to_string p q,
  laws.pton-ntop base h,
  network_addr-eq base p h q,
  aligned,
)
