-- ===== src/Noise.antt =====
-- src/crypto/NoiseProtocol.cpp without its session: keys, Base64, hashes, HKDF and the AEAD. OpenSSL is
-- a parameter: a call that fails gives `none`.
pub mod Hkdf
pub mod Rfc
pub mod Base64
pub mod Session
pub mod Transport
pub mod Complete
pub mod Steps
pub mod Agreement
pub mod Plain
mod Tests
use Prim.Native.Nat.{bit_xor, min}
use natt.Json.{◌>>=◌}
use natt.Prelude.{
  ℕ, zero, suc, ◌+◌, ◌-◌, ◌/◌, ◌%◌, ◌≡◌, false, not, ◌&&◌, Option, none, some, [], ◌∷◌, ◌++◌, map,
  ltb, ◌==◌, if◌then◌else◌, length, is_empty, get_or, take, drop, replicate, Text,
}

abbrev pub key_size : ℕ
key_size = 32

abbrev pub tag_size : ℕ
tag_size = 16

-- The calls of OpenSSL, with X25519 and ChaCha20-Poly1305 as the source selects them.
pub record OpenSsl : Type 1 where
  pub PrivateKey : Type 0
  pub PublicKey : Type 0
  -- EVP_PKEY_new_raw_private_key_ex, EVP_PKEY_new_raw_public_key_ex
  pub new_private_key : Text → Option PrivateKey
  pub new_public_key : Text → Option PublicKey
  -- EVP_PKEY_get_raw_public_key
  pub raw_public_key : PrivateKey → Option Text
  -- EVP_PKEY_derive_init, EVP_PKEY_derive_set_peer and EVP_PKEY_derive
  pub derive : PrivateKey → PublicKey → Option Text
  -- EVP_DigestInit_ex, EVP_DigestUpdate and EVP_DigestFinal_ex, for EVP_sha256
  pub evp_digest : Text → Option Text
  -- EVP_EncodeBlock and EVP_DecodeBlock
  pub encode_block : Text → Text
  pub decode_block : Text → Option Text
  -- EVP_EncryptInit_ex up to EVP_CTRL_AEAD_GET_TAG, from key, nonce, associated data and text: the
  -- ciphertext and the tag
  pub seal : Text → Text → Text → Text → Option (Text × Text)
  -- EVP_DecryptInit_ex up to EVP_DecryptFinal_ex, which takes the tag as well
  pub unseal : Text → Text → Text → Text → Text → Option Text

pub record StaticKeypair : Type 0 where
  pub private_key : Text
  pub public_key : Text

-- `(nonce >> (i * 8)) & 0xff` for each byte that is left.
unfoldable pub nonce_bytes : ℕ → ℕ → Text
nonce_bytes zero nonce = []
nonce_bytes (suc n) nonce = nonce % 256 ∷ nonce_bytes n (nonce / 256)

unfoldable pub build_nonce : ℕ → Text
unfolding nonce_bytes
build_nonce nonce = replicate 4 0 ++ nonce_bytes 8 nonce

-- `trim`: the signs `=` at the last two places.
unfoldable pub trim : Text → ℕ
trim text =
    (if get_or text (length text - 1) 0 == 61 then 1 else 0)
    + (if ltb 1 (length text) && get_or text (length text - 2) 0 == 61 then 1 else 0)

-- `written != out.size()`, and `out.fill(0)`.
abbrev pub full_digest : Option Text → Text
full_digest none = replicate key_size 0
full_digest (some out) = if length out == key_size then out else replicate key_size 0

module _ (ssl : OpenSsl) where
  -- The hash of the two texts one after the other, or zeros where OpenSSL fails.
  unfoldable pub sha256_bytes : Text → Text → Text
  sha256_bytes a b = full_digest (ssl.evp_digest (a ++ b))

  unfoldable pub hmac_sha256 : Text → Text → Text
  hmac_sha256 key bytes =
      let short = (if ltb 64 (length key) then sha256_bytes key [] else key) in
      let key_block = short ++ replicate (64 - length short) 0 in
      let inner_hash = sha256_bytes (map (λ k. bit_xor k 0x36) key_block ++ bytes) [] in
      sha256_bytes (map (λ k. bit_xor k 0x5c) key_block ++ inner_hash) []

  -- The loop of `hkdf`, while `need` bytes are missing. `counter` is a `uint8_t`.
  unfoldable pub hkdf_blocks : ℕ → Text → ℕ → Text → ℕ → Option Text
  hkdf_blocks fuel prk counter previous zero = some []
  hkdf_blocks zero prk counter previous (suc need) = none
  hkdf_blocks (suc fuel) prk counter previous (suc need) =
      let step = hmac_sha256 prk (previous ++ counter ∷ []) in
      let used = min key_size (suc need) in
      do
        rest ← hkdf_blocks fuel prk ((counter + 1) % 256) step (suc need - used)
        some (take used step ++ rest)

  -- A round writes a byte at least, so that as many rounds as bytes are enough.
  unfoldable pub hkdf : Text → Text → ℕ → Option Text
  hkdf chaining_key ikm output_len =
      hkdf_blocks output_len (hmac_sha256 chaining_key ikm) 1 [] output_len

  unfoldable pub encode_base64 : Text → Text
  encode_base64 [] = []
  encode_base64 (c ∷ bytes) = ssl.encode_block (c ∷ bytes)

  unfoldable pub decode_base64 : Text → Option Text
  decode_base64 [] = some []
  decode_base64 (c ∷ text) = do
    out ← ssl.decode_block (c ∷ text)
    some (take (length out - trim (c ∷ text)) out)

  unfoldable pub build_static_keypair_from_private : Text → Option StaticKeypair
  build_static_keypair_from_private private_key = do
    key ← ssl.new_private_key private_key
    public_key ← ssl.raw_public_key key
    if length public_key == key_size
        then some (record { private_key = private_key; public_key = public_key })
        else none

  -- The argument is what RAND_bytes wrote, `none` where it failed.
  unfoldable pub generate_static_keypair : Option Text → Option StaticKeypair
  generate_static_keypair none = none
  generate_static_keypair (some private_key) = build_static_keypair_from_private private_key

  unfoldable pub load_static_keypair_base64 : Text → Option StaticKeypair
  load_static_keypair_base64 private_key_base64 = do
    decoded ← decode_base64 private_key_base64
    if length decoded == key_size then build_static_keypair_from_private decoded else none

  unfoldable pub dh : Text → Text → Option Text
  dh private_key public_key = do
    local ← ssl.new_private_key private_key
    peer ← ssl.new_public_key public_key
    ssl.derive local peer

-- The result of `aeadEncrypt`: a ciphertext, `std::nullopt`, or a write behind the end of the buffer.
pub data Sealed : Type 0 where
  ciphertext : Text → Sealed
  nullopt : Sealed
  overrun : Sealed

module _ (ssl : OpenSsl) where
  -- `out_len` is left from the associated data where there is no text, and the tag is then written that
  -- much further on.
  unfoldable pub aead_encrypt : Text → ℕ → Text → Text → Sealed
  aead_encrypt key nonce plaintext ad = elim (ssl.seal key (build_nonce nonce) ad plaintext) [
    | none ↦ nullopt
    | some (bytes, tag) ↦
        if is_empty plaintext && not (is_empty ad) then overrun else ciphertext (bytes ++ tag)
  ]

  -- Without a text the result is resized to the `out_len` of the associated data.
  unfoldable pub aead_decrypt : Text → ℕ → Text → Text → Option Text
  aead_decrypt key nonce bytes ad =
      if ltb (length bytes) tag_size
      then none
      else (let plaintext_len = length bytes - tag_size in
          elim (ssl.unseal key (build_nonce nonce) ad (take plaintext_len bytes)
            (drop plaintext_len bytes)) [
              | none ↦ none
              | some plaintext ↦
                  if plaintext_len == 0 then some (replicate (length ad) 0) else some plaintext
            ])

-- What OpenSSL documents of these calls.
pub record IsOpenSsl (ssl : OpenSsl) : Type 1 where
  -- Both sides of an exchange of keys derive the same secret.
  pub derive_comm :
      (p q : ssl.PrivateKey) (p_raw q_raw : Text) (p_public q_public : ssl.PublicKey)
      → ssl.raw_public_key p ≡ some p_raw
      → ssl.raw_public_key q ≡ some q_raw
      → ssl.new_public_key p_raw ≡ some p_public
      → ssl.new_public_key q_raw ≡ some q_public
      → ssl.derive p q_public ≡ ssl.derive q p_public
  -- A public key that was exported can be imported.
  pub import-public :
      (p : ssl.PrivateKey) (raw : Text)
      → ssl.raw_public_key p ≡ some raw
      → (q : ssl.PublicKey) × (ssl.new_public_key raw ≡ some q)
  -- A tag has 16 bytes, a stream cipher keeps the length, and the right key, nonce, data and tag give the
  -- text back.
  pub seal-tag :
      (key nonce ad plaintext bytes tag : Text)
      → ssl.seal key nonce ad plaintext ≡ some (bytes, tag)
      → (length tag ≡ tag_size) × (length bytes ≡ length plaintext)
  pub unseal-seal :
      (key nonce ad plaintext bytes tag : Text)
      → ssl.seal key nonce ad plaintext ≡ some (bytes, tag)
      → ssl.unseal key nonce ad bytes tag ≡ some plaintext
  -- Four characters to three bytes, with a sign `=` for each byte that is missing, which is decoded as zero.
  pub decode_block-encode_block :
      (c : ℕ) (bytes : Text)
      → (out : Text) × (ssl.decode_block (ssl.encode_block (c ∷ bytes)) ≡ some out)
        × (take (length (c ∷ bytes)) out ≡ c ∷ bytes)
        × (length out ≡ length (c ∷ bytes) + trim (ssl.encode_block (c ∷ bytes)))
        × (is_empty (ssl.encode_block (c ∷ bytes)) ≡ false)
