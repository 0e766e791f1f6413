-- ===== src/Noise/Steps.antt =====
-- The steps of the handshake of src/crypto/NoiseProtocol.cpp: keys mixed in, the chain split, key pairs read
-- back, and what each side computes.
use natt.Prelude.{◌≡◌, refl, sym, ap, ◌∙◌, true, Option, none, some, [], ◌==◌, ==_iff, length, Text}
use natt.Json.{bind-some, test-some}
use natt.Noise.{
  OpenSsl, IsOpenSsl, StaticKeypair, key_size, hmac_sha256, sha256_bytes, generate_static_keypair,
  build_static_keypair_from_private, dh,
}
use natt.Noise.Hkdf.{block, hkdf_two, take-two, drop-two}
use natt.Noise.Session.{
  initiator, responder, Noise, mix_hash, protocol_name, mix_key, mix_keys, split, finish, respond,
}

module _ (ssl : OpenSsl) where
  -- The chaining key after a secret is mixed in.
  unfoldable pub chain : Text → Text → Text
  chain ck secret = block ssl (hmac_sha256 ssl ck secret) 1

  pub mix_key_lem :
      (ikm : Text) (s : Noise) → mix_key ssl ikm s ≡ (record s { ck = chain s.ck ikm }, true)
  unfolding mix_key chain
  mix_key_lem ikm s =
      rw
        (
          mix_key,
          (hkdf_two ssl s.ck ikm).0,
          (hkdf_two ssl s.ck ikm).1,
          take-two ssl (hmac_sha256 ssl s.ck ikm),
        )
        refl

  pub mix_keys_lem :
      (a b : Text) (s : Noise)
      → mix_keys ssl (some a) (some b) s ≡ (record s { ck = chain (chain s.ck a) b }, true)
  unfolding mix_keys
  mix_keys_lem a b s = rw (mix_key_lem a s) (mix_key_lem b (record s { ck = chain s.ck a }))

  -- The chaining key at the end of the handshake. The third pattern of the second message derives the
  -- first secret again.
  abbrev pub last_chain : Text → Text → Text → Text
  last_chain es ss ee = chain (chain (chain (chain protocol_name es) ss) ee) es

  -- The two keys that `split` takes from a chaining key.
  abbrev pub first_key : Text → Text
  first_key ck = block ssl (hmac_sha256 ssl ck []) 1

  abbrev pub second_key : Text → Text
  second_key ck = block ssl (hmac_sha256 ssl ck []) 2

  pub split_initiator :
      (s : Noise)
      → s.role ≡ initiator
      → split ssl s ≡ (record s { send_key = first_key s.ck; recv_key = second_key s.ck }, true)
  unfolding split
  split_initiator s e =
      rw
        (
          split,
          (hkdf_two ssl s.ck []).0,
          (hkdf_two ssl s.ck []).1,
          take-two ssl (hmac_sha256 ssl s.ck []),
          drop-two ssl (hmac_sha256 ssl s.ck []),
          e,
        )
        refl

  pub split_responder :
      (s : Noise)
      → s.role ≡ responder
      → split ssl s ≡ (record s { recv_key = first_key s.ck; send_key = second_key s.ck }, true)
  unfolding split
  split_responder s e =
      rw
        (
          split,
          (hkdf_two ssl s.ck []).0,
          (hkdf_two ssl s.ck []).1,
          take-two ssl (hmac_sha256 ssl s.ck []),
          drop-two ssl (hmac_sha256 ssl s.ck []),
          e,
        )
        refl

-- What a key pair from `buildStaticKeypairFromPrivate` is.
pub pair-inv :
    (ssl : OpenSsl) (private_key : Text) (pair : StaticKeypair)
    → build_static_keypair_from_private ssl private_key ≡ some pair
    → (key : ssl.PrivateKey) × (ssl.new_private_key pair.private_key ≡ some key)
      × (ssl.raw_public_key key ≡ some pair.public_key)
      × (length pair.public_key ≡ key_size)
unfolding build_static_keypair_from_private
pair-inv ssl private_key pair e =
    let (key, made, rest) = bind-some (ssl.new_private_key private_key) _ pair e in
    let (raw, shown, last) = bind-some (ssl.raw_public_key key) _ pair rest in
    let (full, same) = test-some (length raw == key_size) _ pair last in
    (
      key,
      ap ssl.new_private_key (ap (λ (k : StaticKeypair). k.private_key) (sym same)) ∙ made,
      shown ∙ ap (λ (k : StaticKeypair). some k.public_key) same,
      ap (λ (k : StaticKeypair). length k.public_key) (sym same)
          ∙ (==_iff (length raw) key_size).0 full,
    )

pub generated-inv :
    (ssl : OpenSsl) (random : Option Text) (pair : StaticKeypair)
    → generate_static_keypair ssl random ≡ some pair
    → (key : ssl.PrivateKey) × (ssl.new_private_key pair.private_key ≡ some key)
      × (ssl.raw_public_key key ≡ some pair.public_key)
      × (length pair.public_key ≡ key_size)
unfolding generate_static_keypair
generated-inv ssl none pair e = cc
generated-inv ssl (some private_key) pair e = pair-inv ssl private_key pair e

module _ (ssl : OpenSsl) (laws : IsOpenSsl ssl) where
  -- Both sides of an exchange compute the same secret.
  pub dh_comm :
      (k l : StaticKeypair) (key key' : ssl.PrivateKey)
      → ssl.new_private_key k.private_key ≡ some key
      → ssl.raw_public_key key ≡ some k.public_key
      → ssl.new_private_key l.private_key ≡ some key'
      → ssl.raw_public_key key' ≡ some l.public_key
      → dh ssl k.private_key l.public_key ≡ dh ssl l.private_key k.public_key
  unfolding dh
  dh_comm k l key key' made shown made' shown' =
      let (public, known) = laws.import-public key k.public_key shown in
      let (public', known') = laws.import-public key' l.public_key shown' in
      rw (made, made', known, known')
        (laws.derive_comm key key' k.public_key l.public_key public public' shown shown' known
          known')

module _ (ssl : OpenSsl) where
  pub finish_initiator :
      (ee se : Text) (s : Noise)
      → s.role ≡ initiator
      → finish ssl (some ee) (some se) s ≡ (
        let ck = chain ssl (chain ssl s.ck ee) se in
            record s {
              ck = ck;
              send_key = first_key ssl ck;
              recv_key = second_key ssl ck;
              handshake_complete = true;
            },
        true,
      )
  unfolding finish
  finish_initiator ee se s e =
      rw
        (
          mix_keys_lem ssl ee se s,
          split_initiator ssl (record s { ck = chain ssl (chain ssl s.ck ee) se }) e,
        )
        refl

  pub finish_responder :
      (ee se : Text) (s : Noise)
      → s.role ≡ responder
      → finish ssl (some ee) (some se) s ≡ (
        let ck = chain ssl (chain ssl s.ck ee) se in
            record s {
              ck = ck;
              recv_key = first_key ssl ck;
              send_key = second_key ssl ck;
              handshake_complete = true;
            },
        true,
      )
  unfolding finish
  finish_responder ee se s e =
      rw
        (
          mix_keys_lem ssl ee se s,
          split_responder ssl (record s { ck = chain ssl (chain ssl s.ck ee) se }) e,
        )
        refl

  pub respond_lem :
      (random : Option Text) (pair : StaticKeypair) (ee se : Text) (s : Noise)
      → s.role ≡ responder
      → generate_static_keypair ssl random ≡ some pair
      → dh ssl pair.private_key s.remote_ephemeral ≡ some ee
      → dh ssl s.local_static.private_key s.remote_ephemeral ≡ some se
      → respond ssl random s ≡ (
        let ck = chain ssl (chain ssl s.ck ee) se in
            record s {
              local_ephemeral = some pair;
              h = sha256_bytes ssl s.h pair.public_key;
              ck = ck;
              recv_key = first_key ssl ck;
              send_key = second_key ssl ck;
              handshake_complete = true;
            },
        some pair.public_key,
      )
  unfolding respond mix_hash
  respond_lem random pair ee se s role g h k =
      rw
        (
          respond,
          g,
          h,
          k,
          finish_responder ee se
              (record s { local_ephemeral = some pair; h = sha256_bytes ssl s.h pair.public_key })
              role,
        )
        refl
