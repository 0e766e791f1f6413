-- ===== src/Noise/Agreement.antt =====
-- The handshake of src/crypto/NoiseProtocol.cpp between an initiator and a responder.
use natt.Prelude.{◌≡◌, refl, ◌∙◌, true, Option, none, some, if◌then◌else◌, length, Text}
use natt.Json.{◌>>=◌}
use natt.Noise.{
  OpenSsl, IsOpenSsl, StaticKeypair, key_size, generate_static_keypair,
  build_static_keypair_from_private, dh,
}
use natt.Noise.Session.{
  initiator, responder, Noise, mix_hash, protocol_name, make_noise, initialize_symmetric,
  build_handshake_message1, handle_handshake_message1, handle_handshake_message2,
}
use natt.Noise.Steps.{
  chain, last_chain, first_key, second_key, mix_keys_lem, pair-inv, generated-inv, dh_comm,
  finish_initiator, respond_lem,
}

module _ (ssl : OpenSsl) where
  -- One run of the handshake, with the two messages delivered as they are.
  unfoldable pub handshake : Option Text → Option Text → Noise → Noise → Option (Noise × Noise)
  handshake random random' i r =
      let (sent, first) = build_handshake_message1 ssl random i in
      do
        message1 ← first
        let (r', second) = handle_handshake_message1 ssl random' message1 r in
            do
              message2 ← second
              let (i', ok) = handle_handshake_message2 ssl message2 sent in
                  if ok then some (i', r') else none

module _ (ssl : OpenSsl) (a b e f : StaticKeypair) (es ss ee : Text) where
  -- The initiator behind its message, and both sides at the end.
  unfoldable sent : Noise
  unfolding make_noise initialize_symmetric mix_hash
  sent =
      let s = make_noise ssl initiator a b.public_key in
      record (mix_hash ssl e.public_key (record s { local_ephemeral = some e })) {
        ck = chain ssl (chain ssl protocol_name es) ss;
        msg1_sent = true;
      }

  unfoldable initiator_done : Noise
  unfolding sent mix_hash
  initiator_done = record (mix_hash ssl f.public_key sent) {
    remote_ephemeral = f.public_key;
    ck = last_chain ssl es ss ee;
    send_key = first_key ssl (last_chain ssl es ss ee);
    recv_key = second_key ssl (last_chain ssl es ss ee);
    handshake_complete = true;
  }

  unfoldable responder_done : Noise
  unfolding make_noise initialize_symmetric mix_hash
  responder_done =
      let s = make_noise ssl responder b a.public_key in
      record (mix_hash ssl f.public_key (mix_hash ssl e.public_key s)) {
        local_ephemeral = some f;
        remote_ephemeral = e.public_key;
        ck = last_chain ssl es ss ee;
        recv_key = first_key ssl (last_chain ssl es ss ee);
        send_key = second_key ssl (last_chain ssl es ss ee);
        msg1_received = true;
        handshake_complete = true;
      }

  build_lem :
      (random : Option Text)
      → generate_static_keypair ssl random ≡ some e
      → dh ssl e.private_key b.public_key ≡ some es
      → dh ssl a.private_key b.public_key ≡ some ss
      → build_handshake_message1 ssl random (make_noise ssl initiator a b.public_key)
        ≡ (sent, some e.public_key)
  unfolding build_handshake_message1 sent make_noise initialize_symmetric mix_hash
  build_lem random g h k = rw (g, h, k, mix_keys_lem ssl es ss _) refl

  handle1_lem :
      (random : Option Text)
      → length e.public_key ≡ key_size
      → generate_static_keypair ssl random ≡ some f
      → dh ssl b.private_key e.public_key ≡ some es
      → dh ssl b.private_key a.public_key ≡ some ss
      → dh ssl f.private_key e.public_key ≡ some ee
      → handle_handshake_message1 ssl random e.public_key (make_noise ssl responder b a.public_key)
        ≡ (responder_done, some f.public_key)
  unfolding handle_handshake_message1 responder_done make_noise initialize_symmetric mix_hash
  handle1_lem random size g h k l =
      rw (size, h, k, mix_keys_lem ssl es ss _) (respond_lem ssl random f ee es _ refl g l h)

  handle2_lem :
      length f.public_key ≡ key_size
      → dh ssl e.private_key b.public_key ≡ some es
      → dh ssl e.private_key f.public_key ≡ some ee
      → handle_handshake_message2 ssl f.public_key sent ≡ (initiator_done, true)
  unfolding handle_handshake_message2 sent initiator_done make_noise initialize_symmetric mix_hash
  handle2_lem size h k = rw (size, h, k) (finish_initiator ssl ee es _ refl)

module _ (ssl : OpenSsl) (laws : IsOpenSsl ssl) where
  -- A handshake whose messages are delivered as they are, between two parties that hold each other's
  -- public keys, ends whenever the three derivations of OpenSSL give a secret: both sides are then
  -- complete, each one's sending key is the other's receiving key, their transcript hashes are equal, and
  -- the two keys are taken from the chain of the secrets es, ss, ee and es.
  pub handshake-agreed :
      (a b e f : StaticKeypair) (random random' : Option Text) (es ss ee : Text)
      → build_static_keypair_from_private ssl a.private_key ≡ some a
      → build_static_keypair_from_private ssl b.private_key ≡ some b
      → generate_static_keypair ssl random ≡ some e
      → generate_static_keypair ssl random' ≡ some f
      → dh ssl e.private_key b.public_key ≡ some es
      → dh ssl a.private_key b.public_key ≡ some ss
      → dh ssl e.private_key f.public_key ≡ some ee
      → (i : Noise) × (r : Noise) × (handshake ssl random random'
            (make_noise ssl initiator a b.public_key)
            (make_noise ssl responder b a.public_key)
          ≡ some (i, r))
        × (i.handshake_complete ≡ true)
        × (r.handshake_complete ≡ true)
        × (i.send_key ≡ first_key ssl (last_chain ssl es ss ee))
        × (r.send_key ≡ second_key ssl (last_chain ssl es ss ee))
        × (r.recv_key ≡ i.send_key)
        × (i.recv_key ≡ r.send_key)
        × (i.h ≡ r.h)
  unfolding handshake initiator_done responder_done sent make_noise initialize_symmetric mix_hash
  handshake-agreed a b e f random random' es ss ee ga gb ge gf h k l =
      let (pa, pa1, pa2, pa3) = pair-inv ssl a.private_key a ga in
      let (pb, pb1, pb2, pb3) = pair-inv ssl b.private_key b gb in
      let (pe, pe1, pe2, pe3) = generated-inv ssl random e ge in
      let (pf, pf1, pf2, pf3) = generated-inv ssl random' f gf in
      let h' = dh_comm ssl laws b e pb pe pb1 pb2 pe1 pe2 ∙ h in
      let k' = dh_comm ssl laws b a pb pa pb1 pb2 pa1 pa2 ∙ k in
      let l' = dh_comm ssl laws f e pf pe pf1 pf2 pe1 pe2 ∙ l in
      (
        initiator_done ssl a b e f es ss ee,
        responder_done ssl a b e f es ss ee,
        rw
            (
              build_lem ssl a b e f es ss ee random ge h k,
              handle1_lem ssl a b e f es ss ee random' pe3 gf h' k' l',
              handle2_lem ssl a b e f es ss ee pf3 h l,
            )
            refl,
        refl,
        refl,
        refl,
        refl,
        refl,
        refl,
        refl,
      )
