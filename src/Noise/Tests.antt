-- ===== src/Noise/Tests.antt =====
-- Tests of the model of src/crypto/NoiseProtocol.cpp, on the stand-in for OpenSSL.
use natt.Prelude.{
  false, ℕ, ◌+◌, ◌≡◌, refl, true, false, none, some, [], ◌∷◌, arith, length, take, length-take,
  length-append, ◌++◌, replicate, Text,
}
use natt.Noise.{
  trim, OpenSsl, IsOpenSsl, StaticKeypair, Sealed, ciphertext, nullopt, overrun, build_nonce,
  tag_size, build_static_keypair_from_private, generate_static_keypair, dh, hkdf,
  load_static_keypair_base64, encode_base64,
}
use natt.Noise.Rfc.{hkdf_spec, hkdf_lem}
use natt.Noise.Session.{Role, initiator, responder, Noise, make_noise, encrypt, decrypt}
use natt.Noise.Transport.{decrypt-encrypt}
use natt.Noise.Agreement.{handshake, handshake-agreed}
use natt.Noise.Steps.{last_chain, first_key, second_key}
use natt.Noise.Plain.{tag, plain_ssl, plain_ssl-IsOpenSsl}

abbrev bytes_of : ℕ → Text
bytes_of n = replicate 32 n

abbrev pair_of : ℕ → StaticKeypair
pair_of n = record { private_key = bytes_of n; public_key = bytes_of n }

built : (n : ℕ) → build_static_keypair_from_private plain_ssl (bytes_of n) ≡ some (pair_of n)
unfolding build_static_keypair_from_private
built n = refl

generated : (n : ℕ) → generate_static_keypair plain_ssl (some (bytes_of n)) ≡ some (pair_of n)
unfolding generate_static_keypair
generated n = built n

derived : (m n : ℕ) → dh plain_ssl (bytes_of m) (bytes_of n) ≡ some (bytes_of (m + n))
unfolding dh
derived m n = refl

short_hash : Text → Text
short_hash m = take 32 (m ++ replicate 32 0)

short_hash-length : (m : Text) → length (short_hash m) ≡ 32
unfolding short_hash
short_hash-length m =
    omega (arith, length-take 32 (m ++ replicate 32 0), length-append m (replicate 32 0))

digests : (m : Text) → plain_ssl.evp_digest m ≡ some (short_hash m)
unfolding short_hash
digests m = refl

hkdf_lem_example :
    hkdf plain_ssl (1 ∷ []) (2 ∷ []) 100 ≡ some (hkdf_spec short_hash (1 ∷ []) (2 ∷ []) 100)
hkdf_lem_example =
    hkdf_lem plain_ssl short_hash digests short_hash-length (1 ∷ []) (2 ∷ []) 100 (omega arith)

handshake-agreed_example :
    let es = bytes_of 5 in
    let ss = bytes_of 3 in
    let ee = bytes_of 7 in
    (i : Noise) × (r : Noise) × (handshake plain_ssl
        (some (bytes_of 3))
        (some (bytes_of 4))
        (make_noise plain_ssl initiator (pair_of 1) (bytes_of 2))
        (make_noise plain_ssl responder (pair_of 2) (bytes_of 1))
      ≡ some (i, r))
    × (i.handshake_complete ≡ true)
    × (r.handshake_complete ≡ true)
    × (i.send_key ≡ first_key plain_ssl (last_chain plain_ssl es ss ee))
    × (r.send_key ≡ second_key plain_ssl (last_chain plain_ssl es ss ee))
    × (r.recv_key ≡ i.send_key)
    × (i.recv_key ≡ r.send_key)
    × (i.h ≡ r.h)
handshake-agreed_example =
    handshake-agreed plain_ssl plain_ssl-IsOpenSsl (pair_of 1) (pair_of 2) (pair_of 3) (pair_of 4)
      (some (bytes_of 3)) (some (bytes_of 4)) (bytes_of 5) (bytes_of 3) (bytes_of 7) (built 1)
      (built 2) (generated 3) (generated 4) (derived 3 2) (derived 1 2) (derived 3 4)

abbrev running : Role → Text → Text → Noise
running role send_key recv_key = record {
  role = role;
  local_static = pair_of 1;
  remote_static = bytes_of 2;
  local_ephemeral = none;
  remote_ephemeral = [];
  h = [];
  ck = [];
  send_key = send_key;
  recv_key = recv_key;
  msg1_sent = true;
  msg1_received = false;
  handshake_complete = true;
}

decrypt-encrypt_example :
    (true ≡ true)
    × (length (1 ∷ 2 ∷ 3 ∷ tag) ≡ 3 + tag_size)
    × (decrypt plain_ssl (running responder (8 ∷ []) (9 ∷ [])) 7 (1 ∷ 2 ∷ 3 ∷ tag) (65 ∷ [])
        ≡ some (1 ∷ 2 ∷ 3 ∷ []))
unfolding encrypt natt.Noise.aead_encrypt
decrypt-encrypt_example =
    decrypt-encrypt plain_ssl plain_ssl-IsOpenSsl (running initiator (9 ∷ []) (8 ∷ []))
      (running responder (8 ∷ []) (9 ∷ [])) 7 (1 ∷ 2 ∷ 3 ∷ []) (65 ∷ []) (1 ∷ 2 ∷ 3 ∷ tag) refl refl
      refl

-- An empty text under associated data writes the tag behind the buffer.
encrypt-empty : encrypt plain_ssl (running initiator (9 ∷ []) (8 ∷ [])) 7 [] (65 ∷ []) ≡ overrun
unfolding encrypt natt.Noise.aead_encrypt
encrypt-empty = refl

build_nonce-run : build_nonce 258 ≡ 0 ∷ 0 ∷ 0 ∷ 0 ∷ 2 ∷ 1 ∷ 0 ∷ 0 ∷ 0 ∷ 0 ∷ 0 ∷ 0 ∷ []
unfolding build_nonce natt.Noise.nonce_bytes
build_nonce-run = refl
