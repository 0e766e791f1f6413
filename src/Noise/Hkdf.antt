-- ===== src/Noise/Hkdf.antt =====
-- The loop of `hkdf` in src/crypto/NoiseProtocol.cpp: which blocks it writes.
use Prim.Native.Nat.{min}
use natt.Prelude.{
  append_nil, ℕ, zero, suc, ◌+◌, ◌-◌, ◌*◌, ◌/◌, ◌%◌, ◌≤◌, ◌<◌, ◌≡◌, refl, sym, ap, ◌∙◌, inl, inr,
  Option, none, some, [], ◌∷◌, ◌++◌, arith, leb, leb→le, Bool-cases, length, take, drop,
  length-append, Text,
}
use natt.Noise.{OpenSsl, key_size, full_digest, sha256_bytes, hmac_sha256, hkdf_blocks, hkdf}

length-full_digest : (o : Option Text) → length (full_digest o) ≡ key_size
length-full_digest none = refl
length-full_digest (some out) = ground arith

module _ (ssl : OpenSsl) where
  pub length-sha256_bytes : (a b : Text) → length (sha256_bytes ssl a b) ≡ key_size
  unfolding sha256_bytes
  length-sha256_bytes a b = length-full_digest (ssl.evp_digest (a ++ b))

  pub length-hmac_sha256 : (key bytes : Text) → length (hmac_sha256 ssl key bytes) ≡ key_size
  unfolding hmac_sha256
  length-hmac_sha256 key bytes = length-sha256_bytes _ _

  -- T(i) of RFC 5869, with no information behind the previous block.
  unfoldable pub block : Text → ℕ → Text
  block prk zero = []
  block prk (suc i) = hmac_sha256 ssl prk (block prk i ++ suc i ∷ [])

  -- T(i + 1) | T(i + 2) | …, so many blocks.
  unfoldable pub blocks : Text → ℕ → ℕ → Text
  blocks prk i zero = []
  blocks prk i (suc n) = block prk (suc i) ++ blocks prk (suc i) n

  -- The first bytes of T(1) | T(2) | … | T(N), where N blocks are enough for them.
  unfoldable pub hkdf_blocks_all : Text → Text → ℕ → Text
  hkdf_blocks_all salt ikm len = take len (blocks (hmac_sha256 ssl salt ikm) 0 ((len + 31) / 32))

pub take-more : (n m : ℕ) (xs ys : Text) → length xs ≡ n → take (n + m) (xs ++ ys) ≡ xs ++ take m ys
take-more zero m [] ys e = ap (λ (k : ℕ). take k ys) (omega arith)
take-more zero m (x ∷ xs) ys e = absurd (omega arith)
take-more (suc n) m [] ys e = absurd (omega arith)
take-more (suc n) m (x ∷ xs) ys e =
    ap (λ (k : ℕ). take k (x ∷ xs ++ ys)) (same n m)
    ∙ ap (◌∷◌ x) (take-more n m xs ys (omega arith))
  where
    same : (n m : ℕ) → suc n + m ≡ suc (n + m)
    same n m = omega arith

pub drop-more : (n : ℕ) (xs ys : Text) → length xs ≡ n → drop n (xs ++ ys) ≡ ys
drop-more zero [] ys e = refl
drop-more zero (x ∷ xs) ys e = absurd (omega arith)
drop-more (suc n) [] ys e = absurd (omega arith)
drop-more (suc n) (x ∷ xs) ys e = drop-more n xs ys (omega arith)

take_all : (xs : Text) → take (length xs) xs ≡ xs
take_all [] = refl
take_all (x ∷ xs) = ap (◌∷◌ x) (take_all xs)

module _ (ssl : OpenSsl) where
  length-block : (prk : Text) (i : ℕ) → length (block ssl prk (suc i)) ≡ 32
  unfolding block
  length-block prk i = length-hmac_sha256 ssl prk (block ssl prk i ++ suc i ∷ [])

  -- The round that writes the last bytes, and one before it.
  last_round :
      (fuel : ℕ) (prk : Text) (i need : ℕ)
      → need ≤ 31
      → hkdf_blocks ssl (suc fuel) prk (suc i) (block ssl prk i) (suc need)
        ≡ some (take (suc need) (blocks ssl prk i ((suc need + 31) / 32)))
  unfolding hkdf_blocks block blocks
  last_round fuel prk i need h =
      rw (used, left, rounds)
        (ap (λ (bytes : Text). some bytes)
          (append_nil (take (suc need) (block ssl prk (suc i)))
            ∙ ap (take (suc need)) (sym (append_nil (block ssl prk (suc i))))))
    where
      used : min key_size (suc need) ≡ suc need
      used = omega arith

      left : suc need - suc need ≡ 0
      left = omega arith

      rounds : (suc need + 31) / 32 ≡ 1
      rounds = omega arith

  full_round :
      (fuel : ℕ) (prk : Text) (i need : ℕ)
      → 31 < need
      → hkdf_blocks ssl fuel prk (suc (suc i)) (block ssl prk (suc i)) (suc need - 32)
        ≡ some (take (suc need - 32) (blocks ssl prk (suc i) ((suc need - 32 + 31) / 32)))
      → need + i * 32 < 255 * 32
      → hkdf_blocks ssl (suc fuel) prk (suc i) (block ssl prk i) (suc need)
        ≡ some (take (suc need) (blocks ssl prk i ((suc need + 31) / 32)))
  unfolding hkdf_blocks block blocks
  full_round fuel prk i need h rest b =
      rw (used, counter, rest, rounds)
        (ap (λ (bytes : Text). some bytes)
          (ap (λ (xs : Text). xs ++ take (suc need - 32) later)
              (ap (λ (n : ℕ). take n here) (sym size) ∙ take_all here)
            ∙ sym (take-more 32 (suc need - 32) here later size)
            ∙ ap (λ (n : ℕ). take n (here ++ later)) whole))
    where
      here : Text
      here = block ssl prk (suc i)

      later : Text
      later = blocks ssl prk (suc i) ((suc need - 32 + 31) / 32)

      size : length here ≡ 32
      size = length-block prk i

      whole : 32 + (suc need - 32) ≡ suc need
      whole = omega arith

      used : min key_size (suc need) ≡ 32
      used = omega arith

      counter : (suc i + 1) % 256 ≡ suc (suc i)
      counter = omega arith

      rounds : (suc need + 31) / 32 ≡ suc ((suc need - 32 + 31) / 32)
      rounds = omega arith

  hkdf_blocks-end :
      (fuel : ℕ) (prk : Text) (counter : ℕ) (previous : Text)
      → hkdf_blocks ssl fuel prk counter previous 0 ≡ some []
  unfolding hkdf_blocks
  hkdf_blocks-end zero prk counter previous = refl
  hkdf_blocks-end (suc fuel) prk counter previous = refl

  hkdf_blocks_lem :
      (fuel : ℕ) (prk : Text) (i need : ℕ)
      → need ≤ fuel
      → need + i * 32 ≤ 255 * 32
      → hkdf_blocks ssl fuel prk (suc i) (block ssl prk i) need
        ≡ some (take need (blocks ssl prk i ((need + 31) / 32)))
  hkdf_blocks_lem fuel prk i zero h b = hkdf_blocks-end fuel prk (suc i) (block ssl prk i)
  hkdf_blocks_lem zero prk i (suc need) h b = absurd (omega arith)
  hkdf_blocks_lem (suc fuel) prk i (suc need) h b = elim (Bool-cases (leb need 31)) [
    | inl last ↦ last_round fuel prk i need (leb→le need 31 last)
    | inr more ↦
        full_round fuel prk i need (ground (arith, more))
          (hkdf_blocks_lem fuel prk (suc i) (suc need - 32) (omega arith) (ground (arith, more)))
          (omega arith)
  ]

  -- The loop ends with the first bytes of the blocks, for at most 255 blocks of 32 bytes.
  pub hkdf_rounds :
      (salt ikm : Text) (len : ℕ)
      → len ≤ 255 * 32
      → hkdf ssl salt ikm len ≡ some (hkdf_blocks_all ssl salt ikm len)
  unfolding hkdf hkdf_blocks_all block
  hkdf_rounds salt ikm len h =
      hkdf_blocks_lem len (hmac_sha256 ssl salt ikm) 0 len (omega arith) (omega arith)

  length-two : (prk : Text) → length (block ssl prk 1 ++ block ssl prk 2) ≡ 64
  length-two prk = omega (
    arith,
    length-append (block ssl prk 1) (block ssl prk 2),
    length-block prk 0,
    length-block prk 1,
  )

  -- Two blocks, as `mixKey` and `split` ask for.
  pub hkdf_two :
      (salt ikm : Text)
      → (hkdf ssl salt ikm 64
          ≡ some (block ssl (hmac_sha256 ssl salt ikm) 1 ++ block ssl (hmac_sha256 ssl salt ikm) 2))
        × (length (block ssl (hmac_sha256 ssl salt ikm) 1 ++ block ssl (hmac_sha256 ssl salt ikm) 2)
            ≡ 64)
  unfolding hkdf_blocks_all blocks
  hkdf_two salt ikm = (
    hkdf_rounds salt ikm 64 (omega arith)
        ∙ ap (λ (bytes : Text). some bytes)
            (take-more 32 32 (block ssl prk 1) (block ssl prk 2 ++ []) (length-block prk 0)
              ∙ ap (λ (xs : Text). block ssl prk 1 ++ xs)
                  (take-more 32 0 (block ssl prk 2) [] (length-block prk 1)
                    ∙ append_nil (block ssl prk 2))),
    length-two prk,
  )
    where
      prk : Text
      prk = hmac_sha256 ssl salt ikm

  pub take-two : (prk : Text) → take 32 (block ssl prk 1 ++ block ssl prk 2) ≡ block ssl prk 1
  take-two prk =
      take-more 32 0 (block ssl prk 1) (block ssl prk 2) (length-block prk 0)
      ∙ append_nil (block ssl prk 1)

  pub drop-two : (prk : Text) → drop 32 (block ssl prk 1 ++ block ssl prk 2) ≡ block ssl prk 2
  drop-two prk = drop-more 32 (block ssl prk 1) (block ssl prk 2) (length-block prk 0)
