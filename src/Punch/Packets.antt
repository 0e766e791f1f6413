-- ===== src/Punch/Packets.antt =====
-- A packet from one puncher of src/client/UdpPuncher.cpp to the other.
use natt.Prelude.{
  ℕ, zero, suc, List, ◌≡◌, refl, ap, ◌∙◌, ◌≢◌, inl, inr, Bool, true, false, Option, some, [], ◌∷◌,
  ◌++◌, arith, Bool-cases, set, length, take, ◌≤◌, Text, txt, text_eq, eq_iff, lookup,
}
use natt.Prelude.Int.{pos, ltb_ℤ}
use natt.Address.{ok}
use natt.Json.{JsonLib, IsJson, is_utf8, are_utf8, utf8_from, dump_object-utf8}
use natt.Relay.Registry.{Endpoint}
use natt.Relay.Server.{received}
use natt.Noise.{OpenSsl, IsOpenSsl, ciphertext, encode_base64}
use natt.Noise.Base64.{decode_base64-encode_base64}
use natt.Noise.Session.{Noise, encrypt, decrypt}
use natt.Noise.Transport.{decrypt-encrypt}
use natt.Punch.{
  Puncher, Call, packet_seen, peer_packet, notify, send_to, do_receive, build_packet_ad,
}
use natt.Punch.Send.{peer_fields, send_peer_packet}
use natt.Punch.Receive.{
  is_ignored, read_packet, read_header, open_packet, handle_peer_packet, dispatch, handle_message,
  handle_receive, max_buf,
}

take-all {ℓ} : {A : Type ℓ} (n : ℕ) (xs : List A) → length xs ≤ n → take n xs ≡ xs
take-all zero [] h = refl
take-all zero (x ∷ xs) h = absurd (omega (arith, h))
take-all (suc n) [] h = refl
take-all (suc n) (x ∷ xs) h = ap (◌∷◌ x) (take-all n xs (omega (arith, h)))

not_negative : (n : ℕ) → ltb_ℤ (pos n) (pos 0) ≡ false
not_negative n = ground arith

-- A packet for this node from another one is not ignored.
not_ignored :
    (from_node_id to_node_id my_node_id : Text)
    → to_node_id ≡ my_node_id
    → from_node_id ≢ my_node_id
    → is_ignored (txt "p2p_packet") from_node_id to_node_id my_node_id ≡ false
unfolding is_ignored
not_ignored from_node_id to_node_id my_node_id to_me from_other =
    ground (arith, eq_iff to_node_id my_node_id, eq_iff from_node_id my_node_id)

module _ (lib : JsonLib) (ssl : OpenSsl) where
  open lib use {dump, object}

  -- The payload of the packet.
  abbrev pub payload_of : Text → Text → ℕ → Text → Text
  payload_of from_node_id to_node_id n bytes =
      dump (object (peer_fields lib ssl from_node_id to_node_id (pos n) bytes))

  send_peer_packet-sent :
      (from_node_id to_node_id : Text) (n : ℕ) (payload bytes : Text) (noise : Noise) (s : Puncher)
      → s.noise ≡ some noise
      → s.success ≡ true
      → s.peer_endpoint_known ≡ true
      → s.noise_enabled ≡ true
      → s.noise_ready ≡ true
      → encrypt ssl noise n payload (build_packet_ad from_node_id to_node_id (pos n))
        ≡ ciphertext bytes
      → are_utf8 (peer_fields lib ssl from_node_id to_node_id (pos n) bytes) ≡ true
      → send_peer_packet lib ssl false from_node_id to_node_id (pos n) payload s
        ≡ ok (send_to (payload_of from_node_id to_node_id n bytes) s.peer_endpoint s, true)
  unfolding send_peer_packet
  send_peer_packet-sent from_node_id to_node_id n payload bytes noise s held good known enabled
        ready e utf8 =
      simp
        (
          send_peer_packet,
          held,
          good,
          known,
          enabled,
          ready,
          e,
          not_negative n,
          dump_object-utf8 lib (peer_fields lib ssl from_node_id to_node_id (pos n) bytes) utf8,
        )
        refl

module _ (lib : JsonLib) (json_laws : IsJson lib) (ssl : OpenSsl) (laws : IsOpenSsl ssl) where
  open lib use {dump, object}

  module _ (from_node_id to_node_id bytes : Text) (n : ℕ) where
    read_header-sent :
        read_header lib ssl (object (peer_fields lib ssl from_node_id to_node_id (pos n) bytes))
        ≡ some (txt "p2p_packet", from_node_id, to_node_id, pos 0)
    unfolding read_header lookup text_eq
    read_header-sent =
        let fields = peer_fields lib ssl from_node_id to_node_id (pos n) bytes in
        rw
          (
            json_laws.text_at-object fields (txt "type"),
            json_laws.text_or-object fields (txt "from_node_id") [],
            json_laws.text_or-object fields (txt "to_node_id") [],
            json_laws.number_or-object fields (txt "timestamp") (pos 0),
          )
          refl

    read_packet-sent :
        read_packet lib (object (peer_fields lib ssl from_node_id to_node_id (pos n) bytes))
        ≡ some (from_node_id, encode_base64 ssl bytes, pos n)
    unfolding read_packet lookup text_eq
    read_packet-sent =
        let fields = peer_fields lib ssl from_node_id to_node_id (pos n) bytes in
        rw
          (
            json_laws.text_or-object fields (txt "from_node_id") [],
            json_laws.text_or-object fields (txt "payload") [],
            json_laws.number_or-object fields (txt "seq") (pos 0),
          )
          refl

  open_packet-sent :
      (from_node_id to_node_id payload bytes : Text) (n : ℕ) (noise : Noise) (t : Puncher)
      → t.noise ≡ some noise
      → t.noise_enabled ≡ true
      → t.noise_ready ≡ true
      → decrypt ssl noise n bytes (build_packet_ad from_node_id to_node_id (pos n)) ≡ some payload
      → open_packet lib ssl from_node_id to_node_id (pos n) (encode_base64 ssl bytes) t
        ≡ some payload
  unfolding open_packet
  open_packet-sent from_node_id to_node_id payload bytes n noise t held enabled ready e =
      simp
        (
          open_packet,
          held,
          enabled,
          ready,
          decode_base64-encode_base64 ssl laws bytes,
          e,
          not_negative n,
        )
        refl

  handle_peer_packet-heard :
      (from_node_id to_node_id payload bytes : Text) (n : ℕ) (remote : Endpoint) (t : Puncher)
      → t.callbacks.peer_packet_cb ≡ true
      → open_packet lib ssl from_node_id to_node_id (pos n) (encode_base64 ssl bytes) t
        ≡ some payload
      → (handle_peer_packet lib ssl to_node_id
          (object (peer_fields lib ssl from_node_id to_node_id (pos n) bytes))
          remote
          t).calls
        ≡ t.calls ++ peer_packet from_node_id payload (pos n) ∷ []
  unfolding handle_peer_packet notify
  handle_peer_packet-heard from_node_id to_node_id payload bytes n remote t set e =
      elim (Bool-cases (text_eq from_node_id t.target_node_id)) [
        | inl hit ↦
            simp (handle_peer_packet, read_packet-sent from_node_id to_node_id bytes n, e, hit, set)
              refl
        | inr miss ↦
            simp
              (handle_peer_packet, read_packet-sent from_node_id to_node_id bytes n, e, miss, set)
              refl
      ]

  packet_utf8 :
      (from_node_id to_node_id bytes : Text) (n : ℕ)
      → is_utf8 from_node_id ≡ true
      → is_utf8 to_node_id ≡ true
      → is_utf8 (encode_base64 ssl bytes) ≡ true
      → are_utf8 (peer_fields lib ssl from_node_id to_node_id (pos n) bytes) ≡ true
  unfolding are_utf8 utf8_from
  packet_utf8 from_node_id to_node_id bytes n u v b = rw (u, v, b) refl

  -- The dispatch of a packet for this node.
  handle_message-packet :
      (from_node_id to_node_id bytes : Text) (n now : ℕ) (random : Option Text) (remote : Endpoint)
      (t : Puncher)
      → to_node_id ≡ t.my_node_id
      → from_node_id ≢ t.my_node_id
      → are_utf8 (peer_fields lib ssl from_node_id to_node_id (pos n) bytes) ≡ true
      → handle_message lib ssl now random
          (payload_of lib ssl from_node_id to_node_id n bytes)
          remote
          t
        ≡ handle_peer_packet lib ssl to_node_id
            (object (peer_fields lib ssl from_node_id to_node_id (pos n) bytes))
            remote
            (notify t.callbacks.packet_cb
              (packet_seen from_node_id (txt "p2p_packet") (pos 0) remote)
              t)
  unfolding handle_message dispatch text_eq
  handle_message-packet from_node_id to_node_id bytes n now random remote t to_me from_other utf8 =
      let fields = peer_fields lib ssl from_node_id to_node_id (pos n) bytes in
      rw
        (
          handle_message,
          json_laws.parse-dump fields utf8,
          read_header-sent from_node_id to_node_id bytes n,
          not_ignored from_node_id to_node_id t.my_node_id to_me from_other,
        )
        refl

-- The state from which a packet can be sent or read: a session with these keys is in use.
pub record IsOpen (s : Puncher) (noise : Noise) : Type 0 where
  pub held : s.noise ≡ some noise
  pub enabled : s.noise_enabled ≡ true
  pub ready : s.noise_ready ≡ true

module _ (lib : JsonLib) (json_laws : IsJson lib) (ssl : OpenSsl) (laws : IsOpenSsl ssl) where
  -- Between two punchers whose sessions are in use, the receiver's one complete with the sender's sending
  -- key as its receiving key, what `sendPeerPacket` puts into a datagram for the other node the receiver's
  -- peer packet callback is told, with the sender and the number, whoever delivers the datagram. The
  -- sender's punch has succeeded, OpenSSL gives a ciphertext, the ids are UTF-8, its Base64 is so too as
  -- ASCII, and the datagram fits into the receiver's buffer.
  pub peer_packet_arrives :
      (from_node_id to_node_id payload bytes : Text) (n now : ℕ) (i r : Noise) (s t : Puncher)
      (random : Option Text) (remote : Endpoint)
      → IsOpen s i
      → s.success ≡ true
      → s.peer_endpoint_known ≡ true
      → IsOpen t r
      → r.handshake_complete ≡ true
      → i.send_key ≡ r.recv_key
      → t.callbacks.peer_packet_cb ≡ true
      → to_node_id ≡ t.my_node_id
      → from_node_id ≢ t.my_node_id
      → encrypt ssl i n payload (build_packet_ad from_node_id to_node_id (pos n)) ≡ ciphertext bytes
      → is_utf8 from_node_id ≡ true
      → is_utf8 to_node_id ≡ true
      → is_utf8 (encode_base64 ssl bytes) ≡ true
      → length (payload_of lib ssl from_node_id to_node_id n bytes) ≤ max_buf
      → (sent : Text) × (send_peer_packet lib ssl false from_node_id to_node_id (pos n) payload s
          ≡ ok (send_to sent s.peer_endpoint s, true))
        × ((handle_receive lib ssl now random (received sent remote) t).calls
            ≡ (notify t.callbacks.packet_cb
                (packet_seen from_node_id (txt "p2p_packet") (pos 0) remote)
                t).calls
              ++ peer_packet from_node_id payload (pos n) ∷ [])
  unfolding handle_receive do_receive notify
  peer_packet_arrives from_node_id to_node_id payload bytes n now i r s t random remote out good
        known into done keys set to_me from_other e u v b fits =
      let back =
        decrypt-encrypt ssl laws i r n payload (build_packet_ad from_node_id to_node_id (pos n))
          bytes keys done e in
      let utf8 = packet_utf8 lib json_laws ssl laws from_node_id to_node_id bytes n u v b in
      let whole = take-all max_buf (payload_of lib ssl from_node_id to_node_id n bytes) fits in
      (
        payload_of lib ssl from_node_id to_node_id n bytes,
        send_peer_packet-sent lib ssl from_node_id to_node_id n payload bytes i s out.held good
            known out.enabled out.ready e utf8,
        ap (λ (u : Puncher). u.calls)
              (ap (λ (p : Text). handle_message lib ssl now random p remote idle) whole
                ∙ handle_message-packet lib json_laws ssl laws from_node_id to_node_id bytes n now
                    random remote idle to_me from_other utf8)
            ∙ heard t.callbacks.packet_cb back.2,
      )
    where
      idle : Puncher
      idle = record t { receiving = false }

      seen : Call
      seen = packet_seen from_node_id (txt "p2p_packet") (pos 0) remote

      heard :
          (b : Bool)
          → decrypt ssl r n bytes (build_packet_ad from_node_id to_node_id (pos n)) ≡ some payload
          → (handle_peer_packet lib ssl to_node_id
              (lib.object (peer_fields lib ssl from_node_id to_node_id (pos n) bytes))
              remote
              (notify b seen idle)).calls
            ≡ (notify b seen t).calls ++ peer_packet from_node_id payload (pos n) ∷ []
      heard true back =
          handle_peer_packet-heard lib json_laws ssl laws from_node_id to_node_id payload bytes n
            remote (record idle { calls = t.calls ++ seen ∷ [] }) set
            (open_packet-sent lib json_laws ssl laws from_node_id to_node_id payload bytes n r
              (record idle { calls = t.calls ++ seen ∷ [] }) into.held into.enabled into.ready back)
      heard false back =
          handle_peer_packet-heard lib json_laws ssl laws from_node_id to_node_id payload bytes n
            remote idle set
            (open_packet-sent lib json_laws ssl laws from_node_id to_node_id payload bytes n r idle
              into.held into.enabled into.ready back)
