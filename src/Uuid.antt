-- ===== src/Uuid.antt =====
-- src/util/uuid.cpp: the two numbers of 64 bits that the generator gives are arguments.
pub mod Layout
mod Tests
use natt.Prelude.{ℕ, zero, suc, ◌+◌, ◌/◌, ◌%◌, ◌^◌, [], ◌∷◌, ◌++◌, if◌then◌else◌, Text}
use Prim.Native.Nat.{bit_and, bit_or}
use natt.Auth.Sha.{hex_digit}

-- The last `n` digits in base 16. A number of 4 n bits has no others, so this is `std::hex` with
-- `std::setw(n)` and `std::setfill('0')`.
unfoldable pub hex_fixed : ℕ → ℕ → Text
hex_fixed zero v = []
hex_fixed (suc n) v = hex_digit (v / 16 ^ n % 16) ∷ hex_fixed n v

unfoldable pub hex8 : ℕ → ℕ → Text
hex8 v shift = hex_fixed 8 (v / 2 ^ shift % 2 ^ 32)

unfoldable pub hex4 : ℕ → ℕ → Text
hex4 v shift = hex_fixed 4 (v / 2 ^ shift % 2 ^ 16)

-- The version.
unfoldable pub with_version : ℕ → ℕ
with_version r1 = bit_or (bit_and r1 0xFFFFFFFFFFFF0FFF) 0x4000

-- The variant.
unfoldable pub with_variant : ℕ → ℕ
with_variant r2 = bit_or (bit_and r2 0x3FFFFFFFFFFFFFFF) 0x8000000000000000

unfoldable pub generate_uuid : ℕ → ℕ → Text
generate_uuid gen1 gen2 =
    let r1 = with_version gen1 in
    let r2 = with_variant gen2 in
    hex8 r1 32
    ++ (45
        ∷ (hex4 r1 16
            ++ (45 ∷ (hex4 r1 0 ++ (45 ∷ (hex4 r2 48 ++ (45 ∷ (hex4 r2 32 ++ hex8 r2 16))))))))
