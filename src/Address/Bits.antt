-- ===== src/Address/Bits.antt =====
-- The masks of a prefix: `&` with the high bits and `|` with the low bits, as division and
-- remainder. The laws are proved digit by digit, for every width.
use Prim.Native.Nat.{min, max, bit_and, bit_or, digits, bit_and-bitwise, bit_or-bitwise}
use native.Mathlib.Nat.{pow-suc, pow-succ', div-div-eq-div-mul, div-add-mod, zero-add, suc-add}
use natt.Prelude.{ℕ, zero, suc, ◌+◌, ◌-◌, ◌*◌, ◌/◌, ◌%◌, ◌^◌, ◌≤◌, ◌<◌, ◌≡◌, refl, ap, ◌∙◌, arith}

-- The native operations stand for recursions over the digits. Fuel beyond the number is not used.
module _ (off : ℕ → ℕ) (join : ℕ → ℕ → ℕ) where
  digits_enough : (n m a b : ℕ) → a ≤ n → a ≤ m → digits off join n a b ≡ digits off join m a b
  digits_enough zero zero a b p q = refl
  digits_enough zero (suc m) zero b p q = refl
  digits_enough zero (suc m) (suc a) b p q = absurd (omega arith)
  digits_enough (suc n) zero zero b p q = refl
  digits_enough (suc n) zero (suc a) b p q = absurd (omega arith)
  digits_enough (suc n) (suc m) zero b p q = refl
  digits_enough (suc n) (suc m) (suc a) b p q =
      omega (arith, digits_enough n m (suc a / 2) (b / 2) (omega arith) (omega arith))

pub bit_and_step : (x y : ℕ) → bit_and x y ≡ min (x % 2) (y % 2) + 2 * bit_and (x / 2) (y / 2)
bit_and_step zero y = omega (arith, bit_and-bitwise 0 (y / 2), bit_and-bitwise 0 y)
bit_and_step (suc x) y = omega (
  arith,
  bit_and-bitwise (suc x / 2) (y / 2),
  bit_and-bitwise (suc x) y,
  digits_enough (λ y. 0) min x (suc x / 2) (suc x / 2) (y / 2) (omega arith) (omega arith),
)

pub bit_or_step : (x y : ℕ) → bit_or x y ≡ max (x % 2) (y % 2) + 2 * bit_or (x / 2) (y / 2)
bit_or_step zero y = omega (arith, bit_or-bitwise 0 (y / 2), bit_or-bitwise 0 y)
bit_or_step (suc x) y = omega (
  arith,
  bit_or-bitwise (suc x / 2) (y / 2),
  bit_or-bitwise (suc x) y,
  digits_enough (λ y. y) max x (suc x / 2) (suc x / 2) (y / 2) (omega arith) (omega arith),
)

pub pow_pos : (k : ℕ) → 0 < 2 ^ k
pow_pos zero = omega arith
pow_pos (suc k) = omega (arith, pow-suc 2 k, pow_pos k)

bit_or-zero : (n a : ℕ) → a ≤ n → bit_or a 0 ≡ a
bit_or-zero n zero h = refl
bit_or-zero zero (suc a) h = absurd (omega arith)
bit_or-zero (suc n) (suc a) h =
    omega (arith, bit_or_step (suc a) 0, bit_or-zero n (suc a / 2) (omega arith))

-- The remainder by 2 P, digit first.
mod_double : (a P : ℕ) → 0 < P → a % (2 * P) ≡ a / 2 % P * 2 + a % 2
mod_double a P h = omega (
  arith,
  div-div-eq-div-mul a 2 P,
  div-add-mod (a / 2) P,
  div-add-mod a (2 * P),
  ap (λ (t : ℕ). t * P) (div-div-eq-div-mul a 2 P),
)

-- `a & (2 ^ n - 1)` is `a` below 2 ^ n.
bit_and_ones : (n a : ℕ) → a < 2 ^ n → bit_and a (2 ^ n - 1) ≡ a
bit_and_ones zero zero h = refl
bit_and_ones zero (suc a) h = absurd (omega arith)
bit_and_ones (suc n) a h = rw (pow-suc 2 n) (
    omega (
      arith,
      pow-suc 2 n,
      pow_pos n,
      bit_and_step a (2 ^ n * 2 - 1),
      ap (bit_and (a / 2)) half,
      bit_and_ones n (a / 2) (omega (arith, pow-suc 2 n)),
    ))
  where
    half : (2 ^ n * 2 - 1) / 2 ≡ 2 ^ n - 1
    half = omega (arith, pow_pos n)

pub bit_or_low : (k a : ℕ) → bit_or a (2 ^ k - 1) ≡ a - a % 2 ^ k + (2 ^ k - 1)
bit_or_low zero a = omega (arith, bit_or-zero a a)
bit_or_low (suc k) a = rw (pow-succ' 2 k) (
    omega (
      arith,
      pow_pos k,
      bit_or_step a (2 * 2 ^ k - 1),
      ap (bit_or (a / 2)) half,
      mod_double a (2 ^ k) (pow_pos k),
      bit_or_low k (a / 2),
    ))
  where
    half : (2 * 2 ^ k - 1) / 2 ≡ 2 ^ k - 1
    half = omega (arith, pow_pos k)

pub bit_and_high : (k n a : ℕ) → a < 2 ^ (k + n) → bit_and a (2 ^ (k + n) - 2 ^ k) ≡ a - a % 2 ^ k
bit_and_high zero n a h = rw (zero-add n) (omega (arith, bit_and_ones n a (rw zero-add at h)))
bit_and_high (suc k) n a h =
    let e : 2 ^ (suc k + n) ≡ 2 * 2 ^ (k + n) = ap (◌^◌ 2) (suc-add k n) ∙ pow-succ' 2 (k + n) in
    rw (e, pow-succ' 2 k)
      (omega (
        arith,
        pow_pos k,
        bit_and_step a (2 * 2 ^ (k + n) - 2 * 2 ^ k),
        ap (bit_and (a / 2)) half,
        mod_double a (2 ^ k) (pow_pos k),
        bit_and_high k n (a / 2) (omega (arith, e)),
      ))
  where
    half : (2 * 2 ^ (k + n) - 2 * 2 ^ k) / 2 ≡ 2 ^ (k + n) - 2 ^ k
    half = omega arith

bit_and-zero : (n a : ℕ) → a ≤ n → bit_and a 0 ≡ 0
bit_and-zero n zero h = refl
bit_and-zero zero (suc a) h = absurd (omega arith)
bit_and-zero (suc n) (suc a) h =
    omega (arith, bit_and_step (suc a) 0, bit_and-zero n (suc a / 2) (omega arith))

-- `a & (2 ^ k - 1)` is a remainder.
pub bit_and_low : (k a : ℕ) → bit_and a (2 ^ k - 1) ≡ a % 2 ^ k
bit_and_low zero a = omega (arith, bit_and-zero a a (omega arith))
bit_and_low (suc k) a = rw (pow-succ' 2 k) (
    omega (
      arith,
      pow_pos k,
      bit_and_step a (2 * 2 ^ k - 1),
      ap (bit_and (a / 2)) half,
      mod_double a (2 ^ k) (pow_pos k),
      bit_and_low k (a / 2),
    ))
  where
    half : (2 * 2 ^ k - 1) / 2 ≡ 2 ^ k - 1
    half = omega (arith, pow_pos k)

-- `|` of digits that do not overlap is their sum.
pub bit_or_apart : (k x y : ℕ) → y < 2 ^ k → bit_or (x * 2 ^ k) y ≡ x * 2 ^ k + y
bit_or_apart zero x y h =
    let none : y ≡ 0 = omega arith in
    rw none (omega (arith, bit_or-zero (x * 2 ^ 0) (x * 2 ^ 0) (omega arith)))
bit_or_apart (suc k) x y h = rw (pow-succ' 2 k) (
    omega (
      arith,
      bit_or_step (x * (2 * 2 ^ k)) y,
      ap (λ (t : ℕ). bit_or t (y / 2)) halved,
      even,
      bit_or_apart k x (y / 2) (omega (arith, pow-succ' 2 k)),
    ))
  where
    even : x * (2 * 2 ^ k) ≡ x * 2 ^ k * 2
    even = omega arith

    halved : x * (2 * 2 ^ k) / 2 ≡ x * 2 ^ k
    halved = omega (arith, even)
