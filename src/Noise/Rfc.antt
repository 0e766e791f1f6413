-- ===== src/Noise/Rfc.antt =====
-- `hkdf` of src/crypto/NoiseProtocol.cpp against RFC 5869, and the HMAC under it against RFC 2104.
use Prim.Native.Nat.{bit_xor}
use natt.Prelude.{
  append_nil, ℕ, zero, suc, ◌+◌, ◌-◌, ◌*◌, ◌/◌, ◌≤◌, ◌≡◌, refl, ap, ◌∙◌, some, [], ◌∷◌, ◌++◌, map,
  arith, ltb, if◌then◌else◌, length, take, replicate, Text,
}
use natt.Noise.{OpenSsl, sha256_bytes, hmac_sha256, hkdf}
use natt.Noise.Hkdf.{block, blocks, hkdf_blocks_all, hkdf_rounds}

-- The RFCs over a hash with blocks of 64 bytes and 32 bytes of output.
module _ (hash : Text → Text) where
  -- H((K xor opad) | H((K xor ipad) | text)), K being the key, hashed where it is longer than a block, with
  -- zeros behind it.
  pub hmac_rfc : Text → Text → Text
  hmac_rfc key message =
      let short = (if ltb 64 (length key) then hash key else key) in
      let k = short ++ replicate (64 - length short) 0 in
      hash (map (λ b. bit_xor b 0x5c) k ++ hash (map (λ b. bit_xor b 0x36) k ++ message))

  -- T(0) is empty, T(i) is HMAC(PRK, T(i - 1) | i), without an info text.
  pub t_block : Text → ℕ → Text
  t_block prk zero = []
  t_block prk (suc i) = hmac_rfc prk (t_block prk i ++ suc i ∷ [])

  -- T(i + 1) | T(i + 2) | …, so many of them.
  pub t_blocks : Text → ℕ → ℕ → Text
  t_blocks prk i zero = []
  t_blocks prk i (suc n) = t_block prk (suc i) ++ t_blocks prk (suc i) n

  -- PRK is HMAC(salt, IKM), and the output the first bytes of T(1) | … | T(N).
  pub hkdf_spec : Text → Text → ℕ → Text
  hkdf_spec salt ikm len = take len (t_blocks (hmac_rfc salt ikm) 0 ((len + 31) / 32))

module _ (ssl : OpenSsl) (hash : Text → Text)
    (digests : (m : Text) → ssl.evp_digest m ≡ some (hash m))
    (sizes : (m : Text) → length (hash m) ≡ 32) where
  sha256_bytes-hash : (a b : Text) → sha256_bytes ssl a b ≡ hash (a ++ b)
  unfolding sha256_bytes
  sha256_bytes-hash a b = rw (digests (a ++ b)) (ground (arith, sizes (a ++ b)))

  hash_of : (a : Text) → sha256_bytes ssl a [] ≡ hash a
  hash_of a = sha256_bytes-hash a [] ∙ ap hash (append_nil a)

  hmac_sha256-hmac_rfc : (key m : Text) → hmac_sha256 ssl key m ≡ hmac_rfc hash key m
  unfolding hmac_sha256 hmac_rfc
  hmac_sha256-hmac_rfc key m =
      hash_of _
      ∙ ap
          (λ (inner : Text).
            hash (map (λ b. bit_xor b 0x5c) (padded (sha256_bytes ssl key [])) ++ inner))
          (hash_of _)
      ∙ ap
          (λ (s : Text). hash (
            map (λ b. bit_xor b 0x5c) (padded s)
            ++ hash (map (λ b. bit_xor b 0x36) (padded s) ++ m)))
          (hash_of key)
    where
      padded : Text → Text
      padded h =
          let short = (if ltb 64 (length key) then h else key) in
          short ++ replicate (64 - length short) 0

  block-t_block : (prk : Text) (i : ℕ) → block ssl prk i ≡ t_block hash prk i
  unfolding block t_block
  block-t_block prk zero = refl
  block-t_block prk (suc i) =
      hmac_sha256-hmac_rfc prk (block ssl prk i ++ suc i ∷ [])
      ∙ ap (λ (t : Text). hmac_rfc hash prk (t ++ suc i ∷ [])) (block-t_block prk i)

  blocks-t_blocks : (prk : Text) (i n : ℕ) → blocks ssl prk i n ≡ t_blocks hash prk i n
  unfolding blocks t_blocks
  blocks-t_blocks prk i zero = refl
  blocks-t_blocks prk i (suc n) =
      ap (λ (t : Text). t ++ blocks ssl prk (suc i) n) (block-t_block prk (suc i))
      ∙ ap (λ (t : Text). t_block hash prk (suc i) ++ t) (blocks-t_blocks prk (suc i) n)

  -- Where OpenSSL gives a hash of 32 bytes for every message, `hkdf` ends with the bytes that RFC 5869
  -- defines over this hash, with an empty info, for every salt and key material and for every length
  -- that the RFC admits: at most 255 blocks of 32 bytes.
  pub hkdf_lem :
      (salt ikm : Text) (len : ℕ)
      → len ≤ 255 * 32
      → hkdf ssl salt ikm len ≡ some (hkdf_spec hash salt ikm len)
  unfolding hkdf_blocks_all hkdf_spec
  hkdf_lem salt ikm len h =
      hkdf_rounds ssl salt ikm len h
      ∙ ap (λ (prk : Text). some (take len (blocks ssl prk 0 ((len + 31) / 32))))
          (hmac_sha256-hmac_rfc salt ikm)
      ∙ ap (λ (t : Text). some (take len t))
          (blocks-t_blocks (hmac_rfc hash salt ikm) 0 ((len + 31) / 32))
