-- ===== src/Auth/Sha/Hmac.antt =====
-- HMAC against its definition in RFC 2104, and the bytes of a hash.
use Prim.Native.Nat.{bit_xor}
use natt.Prelude.{
  ℕ, ◌-◌, ◌≡◌, refl, sym, ap, ◌∙◌, List, [], ◌++◌, map, arith, ltb, if◌then◌else◌, length,
  replicate, All,
}
use natt.Auth.Sha.{Words, reset, update, word_bytes, output, digest, pad_key, hmac_sha256}
use natt.Auth.Sha.Stream.{update-append}
use natt.Auth.Sha.Standard.{sha256_spec, sha256_lem}
use natt.Auth.Base64.Digits.{IsByte}

-- H((K' ⊕ opad) || H((K' ⊕ ipad) || m)), where K' is the key, hashed if it is longer than a block,
-- with zeros up to 64 bytes.
unfoldable pub hmac_spec : List ℕ → List ℕ → List ℕ
hmac_spec key message =
    let short = (if ltb 64 (length key) then sha256_spec key else key) in
    let block = short ++ replicate (64 - length short) 0 in
    sha256_spec
      (map (λ k. bit_xor k 0x5c) block ++ sha256_spec (map (λ k. bit_xor k 0x36) block ++ message))

one_shot : (xs ys : List ℕ) → digest (update ys (update xs reset)) ≡ sha256_spec (xs ++ ys)
one_shot xs ys = ap digest (sym (update-append xs ys reset)) ∙ sha256_lem (xs ++ ys)

-- The code's HMAC-SHA-256 is the one of the RFC over the hash of the standard, for every key, of any
-- length, and every message.
pub hmac_sha256_lem : (key message : List ℕ) → hmac_sha256 key message ≡ hmac_spec key message
unfolding hmac_sha256 hmac_spec pad_key
hmac_sha256_lem key message =
    one_shot (masked 0x5c) (digest (update message (update (masked 0x36) reset)))
    ∙ ap (λ (xs : List ℕ). sha256_spec (masked 0x5c ++ xs)) (one_shot (masked 0x36) message)
    ∙ ap
        (λ (k : List ℕ).
          let short = (if ltb 64 (length key) then k else key) in
          let block = short ++ replicate (64 - length short) 0 in
          sha256_spec (
            map (λ k. bit_xor k 0x5c) block
            ++ sha256_spec (map (λ k. bit_xor k 0x36) block ++ message)))
        (sha256_lem key)
  where
    masked : ℕ → List ℕ
    masked mask = map (λ k. bit_xor k mask) (pad_key key)

word_bytes-IsByte : (x : ℕ) (rest : List ℕ) → All IsByte rest → All IsByte (word_bytes x ++ rest)
word_bytes-IsByte x rest h = (omega arith, (omega arith, (omega arith, (omega arith, h))))

last_bytes : (x : ℕ) → All IsByte (word_bytes x)
last_bytes x = word_bytes-IsByte x [] tt

output-bytes : (h : Words) → (length (output h) ≡ 32) × All IsByte (output h)
unfolding output
output-bytes h = (refl, search (word_bytes-IsByte, last_bytes) depth 12)

-- A hash is 32 bytes.
pub hmac_sha256-bytes :
    (key message : List ℕ)
    → (length (hmac_sha256 key message) ≡ 32) × All IsByte (hmac_sha256 key message)
unfolding hmac_sha256 digest
hmac_sha256-bytes key message = output-bytes _
