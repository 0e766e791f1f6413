-- ===== src/Auth/Sha/Standard.antt =====
-- SHA-256 as FIPS 180-4 defines it, written apart from src/auth/jwt.cpp: the constants come from the roots of
-- the first primes.
use natt.Prelude.{
  ℕ, zero, suc, ◌+◌, ◌-◌, ◌*◌, ◌/◌, ◌%◌, ◌^◌, ◌≡◌, refl, ap, ◌∙◌, List, [], ◌∷◌, ◌++◌, map, arith,
  leb, if◌then◌else◌, length, take, drop, replicate, get_or,
}
use Prim.Native.Nat.{bit_and, bit_or, bit_xor}
use natt.Auth.Sha.{
  Words, reset, ror, block_words, next_word, extend, round, rounds, k_table, compress, length_bytes,
  output, sha256,
}
use natt.Auth.Sha.Stream.{blocks, padded, streamed, sha256-streamed}

-- The first 64 primes.
abbrev primes : List ℕ
primes =
    2 ∷ 3 ∷ 5 ∷ 7 ∷ 11 ∷ 13 ∷ 17 ∷ 19 ∷ 23 ∷ 29 ∷ 31 ∷ 37 ∷ 41 ∷ 43 ∷ 47 ∷ 53 ∷ 59 ∷ 61 ∷ 67 ∷ 71
    ∷ 73 ∷ 79 ∷ 83 ∷ 89 ∷ 97 ∷ 101 ∷ 103 ∷ 107 ∷ 109 ∷ 113 ∷ 127 ∷ 131 ∷ 137 ∷ 139 ∷ 149 ∷ 151 ∷ 157
    ∷ 163 ∷ 167 ∷ 173 ∷ 179 ∷ 181 ∷ 191 ∷ 193 ∷ 197 ∷ 199 ∷ 211 ∷ 223 ∷ 227 ∷ 229 ∷ 233 ∷ 239 ∷ 241
    ∷ 251 ∷ 257 ∷ 263 ∷ 269 ∷ 271 ∷ 277 ∷ 281 ∷ 283 ∷ 293 ∷ 307 ∷ 311 ∷ []

-- The largest number of so many bits, above `acc`, whose power is `n` at most.
root : ℕ → ℕ → ℕ → ℕ → ℕ
root power n zero acc = acc
root power n (suc bits) acc =
    root power n bits (if leb ((acc + 2 ^ bits) ^ power) n then acc + 2 ^ bits else acc)

-- The first 32 bits of the fractional part of a root.
fraction : ℕ → ℕ → ℕ
unfolding root
fraction power p = root power (p * 2 ^ (32 * power)) 40 0 % 2 ^ 32

-- 4.2.2: the cube roots of the first 64 primes.
constants : List ℕ
unfolding fraction
constants = map (fraction 3) primes

-- 5.3.3: the square roots of the first 8 primes.
initial : Words
unfolding fraction
initial = record {
  a = fraction 2 2;
  b = fraction 2 3;
  c = fraction 2 5;
  d = fraction 2 7;
  e = fraction 2 11;
  f = fraction 2 13;
  g = fraction 2 17;
  hh = fraction 2 19;
}

-- 4.1.2: the functions on words of 32 bits.
abbrev rotr : ℕ → ℕ → ℕ
rotr n x = bit_or (x / 2 ^ n) (x * 2 ^ (32 - n) % 2 ^ 32)

abbrev ch : ℕ → ℕ → ℕ → ℕ
ch x y z = bit_xor (bit_and x y) (bit_and (2 ^ 32 - 1 - x) z)

abbrev maj : ℕ → ℕ → ℕ → ℕ
maj x y z = bit_xor (bit_xor (bit_and x y) (bit_and x z)) (bit_and y z)

abbrev big_sigma0 : ℕ → ℕ
big_sigma0 x = bit_xor (bit_xor (rotr 2 x) (rotr 13 x)) (rotr 22 x)

abbrev big_sigma1 : ℕ → ℕ
big_sigma1 x = bit_xor (bit_xor (rotr 6 x) (rotr 11 x)) (rotr 25 x)

abbrev small_sigma0 : ℕ → ℕ
small_sigma0 x = bit_xor (bit_xor (rotr 7 x) (rotr 18 x)) (x / 2 ^ 3)

abbrev small_sigma1 : ℕ → ℕ
small_sigma1 x = bit_xor (bit_xor (rotr 17 x) (rotr 19 x)) (x / 2 ^ 10)

-- 6.2.2: the words of a block, the rest of the schedule, the rounds, and the sum with the hash before.
words_of : List ℕ → List ℕ
words_of (b0 ∷ b1 ∷ b2 ∷ b3 ∷ rest) =
    bit_or (bit_or (bit_or (b0 * 2 ^ 24) (b1 * 2 ^ 16)) (b2 * 2 ^ 8)) b3 ∷ words_of rest
words_of _ = []

schedule : ℕ → List ℕ → List ℕ
schedule zero w = w
schedule (suc left) w =
    let t = length w in
    let next =
      (get_or w (t - 16) 0
        + small_sigma0 (get_or w (t - 15) 0)
        + get_or w (t - 7) 0
        + small_sigma1 (get_or w (t - 2) 0))
      % 2 ^ 32 in
    schedule left (w ++ next ∷ [])

main_loop : List ℕ → List ℕ → Words → Words
main_loop (k ∷ ks) (w ∷ ws) v =
    let t1 = (v.hh + big_sigma1 v.e + ch v.e v.f v.g + k + w) % 2 ^ 32 in
    let t2 = (big_sigma0 v.a + maj v.a v.b v.c) % 2 ^ 32 in
    main_loop ks ws (record {
      a = (t1 + t2) % 2 ^ 32;
      b = v.a;
      c = v.b;
      d = v.c;
      e = (v.d + t1) % 2 ^ 32;
      f = v.e;
      g = v.f;
      hh = v.g;
    })
main_loop _ _ v = v

one_block : Words → List ℕ → Words
one_block h block =
    let v = main_loop constants (schedule 48 (words_of block)) h in
    record {
      a = (h.a + v.a) % 2 ^ 32;
      b = (h.b + v.b) % 2 ^ 32;
      c = (h.c + v.c) % 2 ^ 32;
      d = (h.d + v.d) % 2 ^ 32;
      e = (h.e + v.e) % 2 ^ 32;
      f = (h.f + v.f) % 2 ^ 32;
      g = (h.g + v.g) % 2 ^ 32;
      hh = (h.hh + v.hh) % 2 ^ 32;
    }

all_blocks : ℕ → Words → List ℕ → Words
all_blocks zero h message = h
all_blocks (suc n) h message = all_blocks n (one_block h (take 64 message)) (drop 64 message)

abbrev big_endian : ℕ → List ℕ
big_endian x = x / 2 ^ 24 % 256 ∷ x / 2 ^ 16 % 256 ∷ x / 2 ^ 8 % 256 ∷ x % 256 ∷ []

-- 5.1.1: a bit 1, zeros, and the number of bits in 64 bits.
abbrev pad : List ℕ → List ℕ
pad message =
    let bits = length message * 8 % 2 ^ 64 in
    message
    ++ 128
      ∷ (replicate ((119 - length message % 64) % 64) 0
          ++ (big_endian (bits / 2 ^ 32) ++ big_endian bits))

pub sha256_spec : List ℕ → List ℕ
sha256_spec message =
    let h = all_blocks (length (pad message) / 64) initial (pad message) in
    big_endian h.a
    ++ big_endian h.b
    ++ big_endian h.c
    ++ big_endian h.d
    ++ big_endian h.e
    ++ big_endian h.f
    ++ big_endian h.g
    ++ big_endian h.hh

k_table-constants : k_table ≡ constants
unfolding constants fraction root
k_table-constants = refl

reset-initial : reset.h ≡ initial
unfolding reset initial fraction root
reset-initial = refl

block_words-words_of : (block : List ℕ) → block_words block ≡ words_of block
unfolding block_words words_of
block_words-words_of (b0 ∷ b1 ∷ b2 ∷ b3 ∷ rest) =
    ap (λ (ws : List ℕ). bit_or (bit_or (bit_or (b0 * 2 ^ 24) (b1 * 2 ^ 16)) (b2 * 2 ^ 8)) b3 ∷ ws)
      (block_words-words_of rest)
block_words-words_of [] = refl
block_words-words_of (b0 ∷ []) = refl
block_words-words_of (b0 ∷ b1 ∷ []) = refl
block_words-words_of (b0 ∷ b1 ∷ b2 ∷ []) = refl

extend-schedule : (left : ℕ) (w : List ℕ) → extend left w ≡ schedule left w
unfolding extend schedule next_word ror
extend-schedule zero w = refl
extend-schedule (suc left) w = extend-schedule left (w ++ next_word w (length w) ∷ [])

rounds-main_loop : (ks ws : List ℕ) (v : Words) → rounds ks ws v ≡ main_loop ks ws v
unfolding rounds main_loop round ror
rounds-main_loop (k ∷ ks) (w ∷ ws) v = rounds-main_loop ks ws (round v k w)
rounds-main_loop [] ws v = refl
rounds-main_loop (k ∷ ks) [] v = refl

compress-one_block : (h : Words) (block : List ℕ) → compress h block ≡ one_block h block
unfolding compress one_block
compress-one_block h block = ap sum (
    ap (λ (ks : List ℕ). rounds ks (extend 48 (block_words block)) h) k_table-constants
    ∙ ap (λ (ws : List ℕ). rounds constants (extend 48 ws) h) (block_words-words_of block)
    ∙ ap (λ (ws : List ℕ). rounds constants ws h) (extend-schedule 48 (words_of block))
    ∙ rounds-main_loop constants (schedule 48 (words_of block)) h)
  where
    sum : Words → Words
    sum v = record {
      a = (h.a + v.a) % 2 ^ 32;
      b = (h.b + v.b) % 2 ^ 32;
      c = (h.c + v.c) % 2 ^ 32;
      d = (h.d + v.d) % 2 ^ 32;
      e = (h.e + v.e) % 2 ^ 32;
      f = (h.f + v.f) % 2 ^ 32;
      g = (h.g + v.g) % 2 ^ 32;
      hh = (h.hh + v.hh) % 2 ^ 32;
    }

blocks-all_blocks :
    (n : ℕ) (h : Words) (message : List ℕ) → blocks n h message ≡ all_blocks n h message
unfolding blocks all_blocks
blocks-all_blocks zero h message = refl
blocks-all_blocks (suc n) h message =
    ap (λ (w : Words). blocks n w (drop 64 message)) (compress-one_block h (take 64 message))
    ∙ blocks-all_blocks n (one_block h (take 64 message)) (drop 64 message)

length_bytes-big_endian :
    (bits : ℕ) → length_bytes 8 bits ≡ big_endian (bits / 2 ^ 32) ++ big_endian bits
unfolding length_bytes
length_bytes-big_endian bits =
    let b1 : bits / 256 % 256 ≡ bits / 2 ^ 8 % 256 = omega arith in
    let b2 : bits / 256 / 256 % 256 ≡ bits / 2 ^ 16 % 256 = omega arith in
    let b3 : bits / 256 / 256 / 256 % 256 ≡ bits / 2 ^ 24 % 256 = omega arith in
    let b4 : bits / 256 / 256 / 256 / 256 % 256 ≡ bits / 2 ^ 32 % 256 = omega arith in
    let b5 : bits / 256 / 256 / 256 / 256 / 256 % 256 ≡ bits / 2 ^ 32 / 2 ^ 8 % 256 = omega arith in
    let b6 : bits / 256 / 256 / 256 / 256 / 256 / 256 % 256 ≡ bits / 2 ^ 32 / 2 ^ 16 % 256 =
      omega arith in
    let b7 : bits / 256 / 256 / 256 / 256 / 256 / 256 / 256 % 256 ≡ bits / 2 ^ 32 / 2 ^ 24 % 256 =
      omega arith in
    rw (b7, b6, b5, b4, b3, b2, b1) refl

padded-pad : (message : List ℕ) → padded message ≡ pad message
unfolding padded
padded-pad message =
    ap
      (λ (tail : List ℕ). message ++ 128 ∷ (replicate ((119 - length message % 64) % 64) 0 ++ tail))
      (length_bytes-big_endian (length message * 8 % 2 ^ 64))

-- A hash is the one of FIPS 180-4, for every message; beyond 2 ^ 64 bits, which the standard leaves
-- out, both count the bits with wrap-around.
pub sha256_lem : (message : List ℕ) → sha256 message ≡ sha256_spec message
unfolding sha256_spec streamed output
sha256_lem message =
    sha256-streamed message
    ∙ ap (λ (m : List ℕ). output (blocks (length m / 64) reset.h m)) (padded-pad message)
    ∙ ap (λ (h : Words). output (blocks (length (pad message) / 64) h (pad message))) reset-initial
    ∙ ap output (blocks-all_blocks (length (pad message) / 64) initial (pad message))
