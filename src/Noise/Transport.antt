-- ===== src/Noise/Transport.antt =====
-- What `encrypt` and `decrypt` of src/crypto/NoiseProtocol.cpp do between two sessions.
use natt.Prelude.{
  append_nil, ℕ, ◌+◌, ◌-◌, ◌≡◌, refl, sym, ap, ◌∙◌, Bool, true, false, not, ◌&&◌, Option, none,
  some, [], ◌∷◌, ◌++◌, arith, ltb, ◌==◌, if◌then◌else◌, length, is_empty, take, drop, replicate,
  length-append, Text,
}
use natt.Noise.{
  OpenSsl, IsOpenSsl, Sealed, ciphertext, nullopt, overrun, build_nonce, tag_size, aead_encrypt,
  aead_decrypt,
}
use natt.Noise.Hkdf.{take-more, drop-more}
use natt.Noise.Session.{Noise, encrypt, decrypt}

-- What a ciphertext tells of the call of OpenSSL behind it.
sealed-inv :
    (o : Option (Text × Text)) (plaintext ad bytes : Text)
    → (elim o [
      | none ↦ nullopt
      | some (c, t) ↦
          if is_empty plaintext && not (is_empty ad) then overrun else ciphertext (c ++ t)
    ])
      ≡ ciphertext bytes
    → (c : Text) × (t : Text) × (o ≡ some (c, t))
      × (bytes ≡ c ++ t)
      × ((is_empty plaintext && not (is_empty ad)) ≡ false)
sealed-inv none plaintext ad bytes e = cc
sealed-inv (some (c, t)) (x ∷ plaintext) ad bytes e = (c, t, refl, cc, refl)
sealed-inv (some (c, t)) [] [] bytes e = (c, t, refl, cc, refl)
sealed-inv (some (c, t)) [] (y ∷ ad) bytes e = cc

-- What decryption makes of the text that OpenSSL gives back.
opened :
    (n : ℕ) (plaintext ad : Text)
    → n ≡ length plaintext
    → (is_empty plaintext && not (is_empty ad)) ≡ false
    → (if n == 0 then some (replicate (length ad) 0) else some plaintext) ≡ some plaintext
opened n [] [] e h = ground (arith, e)
opened n [] (y ∷ ad) e h = cc
opened n (x ∷ plaintext) ad e h = ground (arith, e)

parts :
    (c t bytes : Text) (n : ℕ)
    → bytes ≡ c ++ t
    → n ≡ length c
    → (take n bytes ≡ c) × (drop n bytes ≡ t)
parts c t bytes n e l = (
  ap (take n) e
      ∙ ap (λ (k : ℕ). take k (c ++ t)) (l ∙ omega arith)
      ∙ take-more (length c) 0 c t refl
      ∙ append_nil c,
  ap (drop n) e ∙ ap (λ (k : ℕ). drop k (c ++ t)) l ∙ drop-more (length c) c t refl,
)

encrypted :
    (ready : Bool) (s : Sealed) (bytes : Text)
    → (if not ready then nullopt else s) ≡ ciphertext bytes
    → (ready ≡ true) × (s ≡ ciphertext bytes)
encrypted true s bytes e = (refl, e)
encrypted false s bytes e = cc

module _ (ssl : OpenSsl) (laws : IsOpenSsl ssl) where
  -- With one key, what one side encrypts the other decrypts.
  aead-round :
      (key : Text) (nonce : ℕ) (plaintext ad bytes : Text)
      → aead_encrypt ssl key nonce plaintext ad ≡ ciphertext bytes
      → (length bytes ≡ length plaintext + tag_size)
        × (aead_decrypt ssl key nonce bytes ad ≡ some plaintext)
  unfolding aead_encrypt aead_decrypt
  aead-round key nonce plaintext ad bytes e =
      let (c, t, hit, whole, sound) =
        sealed-inv (ssl.seal key (build_nonce nonce) ad plaintext) plaintext ad bytes e in
      let (tag, len) = laws.seal-tag key (build_nonce nonce) ad plaintext c t hit in
      let size : length bytes ≡ length plaintext + tag_size =
        ap length whole ∙ omega (arith, length-append c t, tag, len) in
      let enough : ltb (length bytes) tag_size ≡ false = ground (arith, size) in
      let left : length bytes - tag_size ≡ length plaintext = omega (arith, size) in
      let (front, back) =
        parts c t bytes (length bytes - tag_size) whole (omega (arith, left, len)) in
      (
        size,
        rw (enough, front, back, laws.unseal-seal key (build_nonce nonce) ad plaintext c t hit)
            (opened (length bytes - tag_size) plaintext ad left sound),
      )

  -- A session that has finished its handshake decrypts, under the same number and associated data,
  -- whatever a session whose sending key is its receiving key encrypts, and a ciphertext is 16 bytes
  -- longer than its text. Nothing but a finished session gives a ciphertext.
  pub decrypt-encrypt :
      (s r : Noise) (nonce : ℕ) (plaintext ad bytes : Text)
      → s.send_key ≡ r.recv_key
      → r.handshake_complete ≡ true
      → encrypt ssl s nonce plaintext ad ≡ ciphertext bytes
      → (s.handshake_complete ≡ true)
        × (length bytes ≡ length plaintext + tag_size)
        × (decrypt ssl r nonce bytes ad ≡ some plaintext)
  unfolding encrypt decrypt
  decrypt-encrypt s r nonce plaintext ad bytes keys done e =
      let (ready, sealed) =
        encrypted s.handshake_complete (aead_encrypt ssl s.send_key nonce plaintext ad) bytes e in
      let (size, back) = aead-round s.send_key nonce plaintext ad bytes sealed in
      (
        ready,
        size,
        rw done (ap (λ (k : Text). aead_decrypt ssl k nonce bytes ad) (sym keys) ∙ back),
      )
