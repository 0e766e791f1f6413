-- ===== src/Auth/Sha.antt =====
-- SHA-256 and HMAC of src/auth/jwt.cpp. Words have 32 bits, the byte count 64. `buf` holds the first
-- `buflen_` bytes of the buffer; what lies behind them is never read. A loop is a recursion over what
-- it counts or walks through.
pub mod Stream
pub mod Standard
pub mod Hmac
mod Tests
use Prim.Native.Nat.{bit_and, bit_or, bit_xor}
use natt.Prelude.{
  ℕ, zero, suc, ◌+◌, ◌-◌, ◌*◌, ◌/◌, ◌%◌, ◌^◌, List, [], ◌∷◌, ◌++◌, map, ltb, ◌==◌, if◌then◌else◌,
  length, get_or, replicate,
}

abbrev pub u32_mod : ℕ
u32_mod = 2 ^ 32

-- `h_`, and the working variables of `transform`.
pub record Words : Type 0 where
  pub a : ℕ
  pub b : ℕ
  pub c : ℕ
  pub d : ℕ
  pub e : ℕ
  pub f : ℕ
  pub g : ℕ
  pub hh : ℕ

pub record Sha : Type 0 where
  pub h : Words
  pub buf : List ℕ
  pub totsize : ℕ

unfoldable pub reset : Sha
reset = record {
  h = record {
    a = 0x6a09e667;
    b = 0xbb67ae85;
    c = 0x3c6ef372;
    d = 0xa54ff53a;
    e = 0x510e527f;
    f = 0x9b05688c;
    g = 0x1f83d9ab;
    hh = 0x5be0cd19;
  };
  buf = [];
  totsize = 0;
}

unfoldable pub ror : ℕ → ℕ → ℕ
ror x n = bit_or (x / 2 ^ n) (x * 2 ^ (32 - n) % u32_mod)

-- `~x`
abbrev pub complement : ℕ → ℕ
complement x = u32_mod - 1 - x

-- The first 16 words: four bytes to a word, the highest first.
unfoldable pub block_words : List ℕ → List ℕ
block_words (b0 ∷ b1 ∷ b2 ∷ b3 ∷ rest) =
    bit_or (bit_or (bit_or (b0 * 2 ^ 24) (b1 * 2 ^ 16)) (b2 * 2 ^ 8)) b3 ∷ block_words rest
block_words _ = []

-- `w[i]` from the words before it.
unfoldable pub next_word : List ℕ → ℕ → ℕ
unfolding ror
next_word w i =
    let w15 = get_or w (i - 15) 0 in
    let w2 = get_or w (i - 2) 0 in
    let s0 = bit_xor (bit_xor (ror w15 7) (ror w15 18)) (w15 / 2 ^ 3) in
    let s1 = bit_xor (bit_xor (ror w2 17) (ror w2 19)) (w2 / 2 ^ 10) in
    (get_or w (i - 16) 0 + s0 + get_or w (i - 7) 0 + s1) % u32_mod

-- The loop that fills the rest of `w`, for the number of rounds that are left.
unfoldable pub extend : ℕ → List ℕ → List ℕ
unfolding next_word
extend zero w = w
extend (suc rounds) w = extend rounds (w ++ next_word w (length w) ∷ [])

unfoldable pub round : Words → ℕ → ℕ → Words
unfolding ror
round v k w =
    let s1 = bit_xor (bit_xor (ror v.e 6) (ror v.e 11)) (ror v.e 25) in
    let ch = bit_xor (bit_and v.e v.f) (bit_and (complement v.e) v.g) in
    let temp1 = (v.hh + s1 + ch + k + w) % u32_mod in
    let s0 = bit_xor (bit_xor (ror v.a 2) (ror v.a 13)) (ror v.a 22) in
    let maj = bit_xor (bit_xor (bit_and v.a v.b) (bit_and v.a v.c)) (bit_and v.b v.c) in
    let temp2 = (s0 + maj) % u32_mod in
    record {
      a = (temp1 + temp2) % u32_mod;
      b = v.a;
      c = v.b;
      d = v.c;
      e = (v.d + temp1) % u32_mod;
      f = v.e;
      g = v.f;
      hh = v.g;
    }

-- One round for each constant and word.
unfoldable pub rounds : List ℕ → List ℕ → Words → Words
unfolding round
rounds (k ∷ ks) (w ∷ ws) v = rounds ks ws (round v k w)
rounds _ _ v = v

abbrev pub add_words : Words → Words → Words
add_words x y = record {
  a = (x.a + y.a) % u32_mod;
  b = (x.b + y.b) % u32_mod;
  c = (x.c + y.c) % u32_mod;
  d = (x.d + y.d) % u32_mod;
  e = (x.e + y.e) % u32_mod;
  f = (x.f + y.f) % u32_mod;
  g = (x.g + y.g) % u32_mod;
  hh = (x.hh + y.hh) % u32_mod;
}

-- `K_`
abbrev pub k_table : List ℕ
k_table =
    0x428a2f98 ∷ 0x71374491 ∷ 0xb5c0fbcf ∷ 0xe9b5dba5 ∷ 0x3956c25b ∷ 0x59f111f1 ∷ 0x923f82a4
    ∷ 0xab1c5ed5 ∷ 0xd807aa98 ∷ 0x12835b01 ∷ 0x243185be ∷ 0x550c7dc3 ∷ 0x72be5d74 ∷ 0x80deb1fe
    ∷ 0x9bdc06a7 ∷ 0xc19bf174 ∷ 0xe49b69c1 ∷ 0xefbe4786 ∷ 0x0fc19dc6 ∷ 0x240ca1cc ∷ 0x2de92c6f
    ∷ 0x4a7484aa ∷ 0x5cb0a9dc ∷ 0x76f988da ∷ 0x983e5152 ∷ 0xa831c66d ∷ 0xb00327c8 ∷ 0xbf597fc7
    ∷ 0xc6e00bf3 ∷ 0xd5a79147 ∷ 0x06ca6351 ∷ 0x14292967 ∷ 0x27b70a85 ∷ 0x2e1b2138 ∷ 0x4d2c6dfc
    ∷ 0x53380d13 ∷ 0x650a7354 ∷ 0x766a0abb ∷ 0x81c2c92e ∷ 0x92722c85 ∷ 0xa2bfe8a1 ∷ 0xa81a664b
    ∷ 0xc24b8b70 ∷ 0xc76c51a3 ∷ 0xd192e819 ∷ 0xd6990624 ∷ 0xf40e3585 ∷ 0x106aa070 ∷ 0x19a4c116
    ∷ 0x1e376c08 ∷ 0x2748774c ∷ 0x34b0bcb5 ∷ 0x391c0cb3 ∷ 0x4ed8aa4a ∷ 0x5b9cca4f ∷ 0x682e6ff3
    ∷ 0x748f82ee ∷ 0x78a5636f ∷ 0x84c87814 ∷ 0x8cc70208 ∷ 0x90befffa ∷ 0xa4506ceb ∷ 0xbef9a3f7
    ∷ 0xc67178f2 ∷ []

-- The words of the hash after one block.
unfoldable pub compress : Words → List ℕ → Words
unfolding rounds extend block_words
compress h block = add_words h (rounds k_table (extend 48 (block_words block)) h)

unfoldable pub transform : Sha → Sha
transform s = record { h = compress s.h s.buf; buf = []; totsize = (s.totsize + 64) % 2 ^ 64 }

-- One byte, and the block that it completes.
unfoldable pub update_byte : Sha → ℕ → Sha
update_byte s byte =
    let filled = record s { buf = s.buf ++ byte ∷ [] } in
    if length filled.buf == 64 then transform filled else filled

unfoldable pub update : List ℕ → Sha → Sha
update [] s = s
update (byte ∷ bytes) s = update bytes (update_byte s byte)

-- `while (buflen_ < n) buf_[buflen_++] = 0;`
abbrev pub fill : ℕ → Sha → Sha
fill n s = record s { buf = s.buf ++ replicate (n - length s.buf) 0 }

-- The 64 bits of the number, the highest byte first.
unfoldable pub length_bytes : ℕ → ℕ → List ℕ
length_bytes zero bits = []
length_bytes (suc n) bits = length_bytes n (bits / 256) ++ bits % 256 ∷ []

abbrev pub word_bytes : ℕ → List ℕ
word_bytes x = x / 2 ^ 24 % 256 ∷ x / 2 ^ 16 % 256 ∷ x / 2 ^ 8 % 256 ∷ x % 256 ∷ []

-- The bytes of the words of the hash.
unfoldable pub output : Words → List ℕ
output h =
    word_bytes h.a
    ++ word_bytes h.b
    ++ word_bytes h.c
    ++ word_bytes h.d
    ++ word_bytes h.e
    ++ word_bytes h.f
    ++ word_bytes h.g
    ++ word_bytes h.hh

unfoldable pub digest : Sha → List ℕ
digest s =
    let bits = (s.totsize + length s.buf) * 8 % 2 ^ 64 in
    let ended = record s { buf = s.buf ++ 128 ∷ [] } in
    let roomy = (if ltb 56 (length ended.buf) then transform (fill 64 ended) else ended) in
    let filled = fill 56 roomy in
    output (transform (record filled { buf = filled.buf ++ length_bytes 8 bits })).h

-- A hash of one text, the way the code hashes keys.
abbrev pub sha256 : List ℕ → List ℕ
sha256 message = digest (update message reset)

-- The key is padded to 64 bytes; a longer key is hashed first.
unfoldable pub pad_key : List ℕ → List ℕ
pad_key key =
    let key_copy = (if ltb 64 (length key) then sha256 key else key) in
    key_copy ++ replicate (64 - length key_copy) 0

unfoldable pub hmac_sha256 : List ℕ → List ℕ → List ℕ
hmac_sha256 key bytes =
    let kpad = pad_key key in
    let inner = update bytes (update (map (λ k. bit_xor k 0x36) kpad) reset) in
    let outer = update (digest inner) (update (map (λ k. bit_xor k 0x5c) kpad) reset) in
    digest outer

abbrev pub hex_digit : ℕ → ℕ
hex_digit n = if ltb n 10 then n + 48 else n + 87

abbrev pub hex_bytes : List ℕ → List ℕ
hex_bytes [] = []
hex_bytes (b ∷ bytes) = hex_digit (b / 16) ∷ hex_digit (b % 16) ∷ hex_bytes bytes

-- Two lower-case digits for every byte of the hash.
unfoldable pub hex_digest : Sha → List ℕ
hex_digest s = hex_bytes (digest s)
