-- ===== src/Noise/Session.antt =====
-- The class NoiseProtocol of src/crypto/NoiseProtocol.cpp: its fields, the handshake and the transport.
-- A method that draws an ephemeral key takes what RAND_bytes wrote, `none` where it failed.
use natt.Prelude.{
  ℕ, ◌-◌, Bool, true, false, not, ◌||◌, Option, none, some, [], ◌++◌, leb, ◌==◌, if◌then◌else◌,
  length, take, drop, replicate, Text, txt,
}
use natt.Noise.{
  OpenSsl, StaticKeypair, Sealed, nullopt, key_size, sha256_bytes, hkdf, generate_static_keypair,
  dh, aead_encrypt, aead_decrypt,
}

pub data Role : Type 0 where
  initiator responder : Role

abbrev pub is_initiator : Role → Bool
is_initiator initiator = true
is_initiator responder = false

pub record Noise : Type 0 where
  pub role : Role
  pub local_static : StaticKeypair
  pub remote_static : Text
  pub local_ephemeral : Option StaticKeypair
  pub remote_ephemeral : Text
  pub h : Text
  pub ck : Text
  pub send_key : Text
  pub recv_key : Text
  pub msg1_sent : Bool
  pub msg1_received : Bool
  pub handshake_complete : Bool

-- `kProtocolName`
abbrev pub protocol_name : Text
protocol_name = txt "Noise_KK_25519_ChaChaPoly_SHA256"

module _ (ssl : OpenSsl) where
  unfoldable pub mix_hash : Text → Noise → Noise
  mix_hash bytes s = record s { h = sha256_bytes ssl s.h bytes }

  unfoldable pub initialize_symmetric : Noise → Noise
  initialize_symmetric s =
      let name_len = length protocol_name in
      let first =
        (if leb name_len key_size
          then protocol_name ++ replicate (key_size - name_len) 0
          else sha256_bytes ssl protocol_name []) in
      let initiator_static =
        (if is_initiator s.role then s.local_static.public_key else s.remote_static) in
      let responder_static =
        (if is_initiator s.role then s.remote_static else s.local_static.public_key) in
      mix_hash responder_static (mix_hash initiator_static (record s { h = first; ck = first }))

  -- The constructor.
  unfoldable pub make_noise : Role → StaticKeypair → Text → Noise
  make_noise role local_static remote_static = initialize_symmetric (record {
    role = role;
    local_static = local_static;
    remote_static = remote_static;
    local_ephemeral = none;
    remote_ephemeral = replicate key_size 0;
    h = replicate key_size 0;
    ck = replicate key_size 0;
    send_key = replicate key_size 0;
    recv_key = replicate key_size 0;
    msg1_sent = false;
    msg1_received = false;
    handshake_complete = false;
  })

  unfoldable pub mix_key : Text → Noise → Noise × Bool
  mix_key ikm s = elim (hkdf ssl s.ck ikm 64) [
    | none ↦ (s, false)
    | some derived ↦
        if length derived == 64 then (record s { ck = take key_size derived }, true) else (s, false)
  ]

  -- `!a || !b || !mixKey(*a) || !mixKey(*b)` is false.
  unfoldable pub mix_keys : Option Text → Option Text → Noise → Noise × Bool
  mix_keys (some a) (some b) s =
      let (mixed, ok) = mix_key a s in if ok then mix_key b mixed else (mixed, false)
  mix_keys _ _ s = (s, false)

  unfoldable pub split : Noise → Noise × Bool
  split s = elim (hkdf ssl s.ck [] 64) [
    | none ↦ (s, false)
    | some derived ↦
        if length derived == 64
        then (if is_initiator s.role
            then (
              record s { send_key = take key_size derived; recv_key = drop key_size derived },
              true,
            )
            else (
              record s { recv_key = take key_size derived; send_key = drop key_size derived },
              true,
            ))
        else (s, false)
  ]

  unfoldable pub build_handshake_message1 : Option Text → Noise → Noise × Option Text
  build_handshake_message1 random s =
      if not (is_initiator s.role) || s.msg1_sent || s.handshake_complete
      then (s, none)
      else (elim (generate_static_keypair ssl random) [
        | none ↦ (record s { local_ephemeral = none }, none)
        | some pair ↦
            let drawn = mix_hash pair.public_key (record s { local_ephemeral = some pair }) in
            let es = dh ssl pair.private_key s.remote_static in
            let ss = dh ssl s.local_static.private_key s.remote_static in
            let (mixed, ok) = mix_keys es ss drawn in
            if ok then (record mixed { msg1_sent = true }, some pair.public_key) else (mixed, none)
      ])

  -- The end of both handlers: `!ee || !se || !mixKey(*ee) || !mixKey(*se) || !split()` is false, and
  -- `handshake_complete_ = true`.
  unfoldable pub finish : Option Text → Option Text → Noise → Noise × Bool
  finish ee se s =
      let (mixed, ok) = mix_keys ee se s in
      if ok
      then (let (keyed, done) = split mixed in
          if done then (record keyed { handshake_complete = true }, true) else (keyed, false))
      else (mixed, false)

  -- The response, from the ephemeral key on.
  unfoldable pub respond : Option Text → Noise → Noise × Option Text
  respond random s = elim (generate_static_keypair ssl random) [
    | none ↦ (record s { local_ephemeral = none }, none)
    | some pair ↦
        let drawn = mix_hash pair.public_key (record s { local_ephemeral = some pair }) in
        let ee = dh ssl pair.private_key s.remote_ephemeral in
        let se = dh ssl s.local_static.private_key s.remote_ephemeral in
        let (finished, ok) = finish ee se drawn in
        (finished, if ok then some pair.public_key else none)
  ]

  unfoldable pub handle_handshake_message1 : Option Text → Text → Noise → Noise × Option Text
  handle_handshake_message1 random payload s =
      if is_initiator s.role || s.handshake_complete
      then (s, none)
      else if not (length payload == key_size)
      then (s, none)
      else (let heard =
            mix_hash payload (record s { remote_ephemeral = payload; msg1_received = true }) in
          let es = dh ssl s.local_static.private_key payload in
          let ss = dh ssl s.local_static.private_key s.remote_static in
          let (mixed, ok) = mix_keys es ss heard in
          if ok then respond random mixed else (mixed, none))

  unfoldable pub handle_handshake_message2 : Text → Noise → Noise × Bool
  handle_handshake_message2 payload s =
      if not (is_initiator s.role) || not s.msg1_sent || s.handshake_complete
      then (s, false)
      else if not (length payload == key_size)
      then (s, false)
      else (elim s.local_ephemeral [
        | none ↦ (s, false)
        | some pair ↦
            let heard = mix_hash payload (record s { remote_ephemeral = payload }) in
            let ee = dh ssl pair.private_key payload in
            let se = dh ssl pair.private_key s.remote_static in finish ee se heard
      ])

  unfoldable pub encrypt : Noise → ℕ → Text → Text → Sealed
  encrypt s nonce plaintext ad =
      if not s.handshake_complete then nullopt else aead_encrypt ssl s.send_key nonce plaintext ad

  unfoldable pub decrypt : Noise → ℕ → Text → Text → Option Text
  decrypt s nonce bytes ad =
      if not s.handshake_complete then none else aead_decrypt ssl s.recv_key nonce bytes ad
