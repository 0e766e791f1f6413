-- ===== src/Relay/Client.antt =====
-- The messages that src/client/UdpPuncher.cpp sends to a relay server, and what the server makes of
-- them.
use natt.Prelude.{
  Option, ℕ, ◌≡◌, refl, ap, ◌∙◌, ◌≢◌, true, false, some, [], ◌∷◌, arith, is_empty, Text, txt,
  text_eq, eq_iff, Dict, lookup, insert,
}
use natt.Prelude.Int.{ℤ, pos}
use natt.Json.{
  JsonLib, IsJson, Field, text, number, text_field, number_field, is_utf8, utf8_from, are_utf8,
  dump_object, dump_object-utf8,
}
use natt.Relay.Registry.{Endpoint, NodeEntry, register_node, update_heartbeat, is_online}
use natt.Relay.Server.{
  Server, received, send_to, do_receive, register_ok_payload, handle_register, handle_relay_packet,
  handle_heartbeat, dispatch, handle_message, handle_receive,
}
use natt.Relay.Server.Packet.{known_pair}

module _ (lib : JsonLib) where
  open lib use {Json, parse, dump, object, text_or, number_or}

  abbrev register_fields : Text → Text → Text → Dict Field
  register_fields node_id network_id token =
      (txt "type", text (txt "relay_register"))
      ∷ (txt "node_id", text node_id)
      ∷ (txt "network_id", text network_id)
      ∷ (txt "token", text token)
      ∷ []

  abbrev heartbeat_fields : Text → Dict Field
  heartbeat_fields node_id =
      (txt "type", text (txt "relay_heartbeat")) ∷ (txt "node_id", text node_id) ∷ []

  abbrev packet_fields : Text → Text → ℤ → Text → Dict Field
  packet_fields from_node_id to_node_id seq payload_data =
      (txt "type", text (txt "relay_packet"))
      ∷ (txt "from_node_id", text from_node_id)
      ∷ (txt "to_node_id", text to_node_id)
      ∷ (txt "seq", number seq)
      ∷ (txt "payload", text payload_data)
      ∷ []

  -- The payloads of `sendRelayRegister`, `sendRelayHeartbeat` and `sendRelayPacket`. `none` is the exception
  -- of `dump`, before anything is sent.
  unfoldable pub send_relay_register : Text → Text → Text → Option Text
  send_relay_register node_id network_id token =
      dump_object lib (register_fields node_id network_id token)

  unfoldable pub send_relay_heartbeat : Text → Option Text
  send_relay_heartbeat node_id = dump_object lib (heartbeat_fields node_id)

  unfoldable pub send_relay_packet : Text → Text → ℤ → Text → Option Text
  send_relay_packet from_node_id to_node_id seq payload_data =
      dump_object lib (packet_fields from_node_id to_node_id seq payload_data)

module _ (lib : JsonLib) (laws : IsJson lib) where
  open lib use {Json, parse, dump, object, text_or, number_or}

  message_of :
      (now : ℕ) (fs : Dict Field) (type : Text) (sender : Endpoint) (s : Server)
      → are_utf8 fs ≡ true
      → text_field (lookup (txt "type") fs) [] ≡ some type
      → handle_message lib now (dump (object fs)) sender s
        ≡ dispatch lib now (object fs) type sender s
  unfolding handle_message
  message_of now fs type sender s utf8 e =
      rw (laws.parse-dump fs utf8, laws.text_or-object fs (txt "type") [], e)

  field :
      (fs : Dict Field) (key value : Text)
      → text_field (lookup key fs) [] ≡ some value
      → text_or (object fs) key [] ≡ some value
  field fs key value e = laws.text_or-object fs key [] ∙ e

  filled : (s : Text) → s ≢ [] → is_empty s ≡ false
  filled [] h = absurd (h refl)
  filled (c ∷ s) h = refl

  same_network :
      (ea eb : NodeEntry)
      → ea.network_id ≡ eb.network_id
      → text_eq ea.network_id eb.network_id ≡ true
  same_network ea eb e = (eq_iff _ _).1 e

  receives :
      (now : ℕ) (payload : Text) (sender : Endpoint) (s t : Server)
      → handle_message lib now payload sender s ≡ some t
      → handle_receive lib now (received payload sender) s ≡ do_receive t
  unfolding handle_receive
  receives now payload sender s t e = rw e

  register_utf8 :
      (id net token : Text)
      → is_utf8 id ≡ true
      → is_utf8 net ≡ true
      → is_utf8 token ≡ true
      → are_utf8 (register_fields lib id net token) ≡ true
  unfolding are_utf8 utf8_from
  register_utf8 id net token u v w = rw (u, v, w) refl

  heartbeat_utf8 : (id : Text) → is_utf8 id ≡ true → are_utf8 (heartbeat_fields lib id) ≡ true
  unfolding are_utf8 utf8_from
  heartbeat_utf8 id u = rw u refl

  packet_utf8 :
      (a b : Text) (seq : ℤ) (content : Text)
      → is_utf8 a ≡ true
      → is_utf8 b ≡ true
      → is_utf8 content ≡ true
      → are_utf8 (packet_fields lib a b seq content) ≡ true
  unfolding are_utf8 utf8_from
  packet_utf8 a b seq content u v w = rw (u, v, w) refl

  -- A registration with a name, a network and a token that are UTF-8 is sent and arrives: the node is
  -- entered with the sender's endpoint and the time, and the sender is told so.
  pub register_arrives :
      (now : ℕ) (id net token : Text) (sender : Endpoint) (s : Server)
      → id ≢ []
      → net ≢ []
      → token ≢ []
      → is_utf8 id ≡ true
      → is_utf8 net ≡ true
      → is_utf8 token ≡ true
      → (payload : Text) × (send_relay_register lib id net token ≡ some payload)
        × (handle_receive lib now (received payload sender) s
            ≡ do_receive (
                send_to
                  (register_ok_payload lib id)
                  sender
                  (record s { registry = (register_node now id net sender s.registry).0 })))
  unfolding handle_register send_relay_register lookup text_eq
  register_arrives now id net token sender s a b c u v w =
      let fs = register_fields lib id net token in
      let utf8 = register_utf8 id net token u v w in
      (
        dump (object fs),
        dump_object-utf8 lib fs utf8,
        receives now (dump (object fs)) sender s _ (
            message_of now fs (txt "relay_register") sender s utf8 refl
            ∙ rw (
              field fs (txt "node_id") id refl,
              field fs (txt "network_id") net refl,
              field fs (txt "token") token refl,
              filled id a,
              filled net b,
              filled token c,
            )),
      )

  heartbeat_type :
      (id : Text)
      → text_field (lookup (txt "type") (heartbeat_fields lib id)) [] ≡ some (txt "relay_heartbeat")
  unfolding lookup text_eq
  heartbeat_type id = refl

  heartbeat_name :
      (id : Text) → text_field (lookup (txt "node_id") (heartbeat_fields lib id)) [] ≡ some id
  unfolding lookup text_eq
  heartbeat_name id = refl

  heartbeat_handled :
      (now : ℕ) (msg : Json) (id : Text) (sender : Endpoint) (s : Server) (entry : NodeEntry)
      → text_or msg (txt "node_id") [] ≡ some id
      → id ≢ []
      → lookup id s.registry ≡ some entry
      → dispatch lib now msg (txt "relay_heartbeat") sender s
        ≡ some (record s { registry = insert id (record entry { last_seen = now }) s.registry })
  unfolding handle_heartbeat is_online update_heartbeat text_eq
  heartbeat_handled now msg id sender s entry f a e = ground (arith, f, filled id a, e)

  -- A heartbeat of a registered node renews the time of its entry, and nothing is sent.
  pub heartbeat_arrives :
      (now : ℕ) (id : Text) (sender : Endpoint) (s : Server) (entry : NodeEntry)
      → id ≢ []
      → is_utf8 id ≡ true
      → lookup id s.registry ≡ some entry
      → (payload : Text) × (send_relay_heartbeat lib id ≡ some payload)
        × (handle_receive lib now (received payload sender) s
            ≡ do_receive
                (record s { registry = insert id (record entry { last_seen = now }) s.registry }))
  unfolding send_relay_heartbeat
  heartbeat_arrives now id sender s entry a u e =
      let fs = heartbeat_fields lib id in
      (
        dump (object fs),
        dump_object-utf8 lib fs (heartbeat_utf8 id u),
        receives now (dump (object fs)) sender s _ (
            message_of now fs (txt "relay_heartbeat") sender s (heartbeat_utf8 id u)
              (heartbeat_type id)
            ∙ heartbeat_handled now (object fs) id sender s entry
                (field fs (txt "node_id") id (heartbeat_name id)) a e),
      )

  packet_keys :
      (a b : Text) (seq : ℤ) (content : Text)
      → let fs = packet_fields lib a b seq content in
        (text_field (lookup (txt "type") fs) [] ≡ some (txt "relay_packet"))
        × (text_field (lookup (txt "from_node_id") fs) [] ≡ some a)
        × (text_field (lookup (txt "to_node_id") fs) [] ≡ some b)
        × (text_field (lookup (txt "payload") fs) [] ≡ some content)
        × (number_field (lookup (txt "seq") fs) (pos 0) ≡ some seq)
  unfolding lookup text_eq
  packet_keys a b seq content = (refl, refl, refl, refl, refl)

  packet_handled :
      (now : ℕ) (msg : Json) (a b : Text) (sender : Endpoint) (s : Server) (ea eb : NodeEntry)
      → text_or msg (txt "from_node_id") [] ≡ some a
      → text_or msg (txt "to_node_id") [] ≡ some b
      → (content : Text) × (text_or msg (txt "payload") [] ≡ some content)
      → (seq : ℤ) × (number_or msg (txt "seq") (pos 0) ≡ some seq)
      → a ≢ []
      → b ≢ []
      → lookup a s.registry ≡ some ea
      → lookup b s.registry ≡ some eb
      → ea.network_id ≡ eb.network_id
      → dispatch lib now msg (txt "relay_packet") sender s ≡ some (send_to (dump msg) eb.endpoint s)
  unfolding handle_relay_packet text_eq
  packet_handled now msg a b sender s ea eb fa fb (content, fc) (seq, fs) na nb la lb same =
      rw (fa, fb, fc, fs)
        (ap some (
          known_pair lib a b msg s ea eb (filled a na) (filled b nb) la lb
          ∙ rw (same_network ea eb same)))

  -- A packet between two registered nodes of one network, whose names and content are UTF-8, is sent
  -- and arrives: its bytes are sent, unchanged, to the endpoint that the receiver registered, and to
  -- nobody else.
  pub packet_arrives :
      (now : ℕ) (a b : Text) (seq : ℤ) (content : Text) (sender : Endpoint) (s : Server)
      (ea eb : NodeEntry)
      → a ≢ []
      → b ≢ []
      → is_utf8 a ≡ true
      → is_utf8 b ≡ true
      → is_utf8 content ≡ true
      → lookup a s.registry ≡ some ea
      → lookup b s.registry ≡ some eb
      → ea.network_id ≡ eb.network_id
      → (payload : Text) × (send_relay_packet lib a b seq content ≡ some payload)
        × (handle_receive lib now (received payload sender) s
            ≡ do_receive (send_to payload eb.endpoint s))
  unfolding send_relay_packet
  packet_arrives now a b seq content sender s ea eb na nb u v w la lb same =
      let fs = packet_fields lib a b seq content in
      let keys = packet_keys a b seq content in
      let utf8 = packet_utf8 a b seq content u v w in
      (
        dump (object fs),
        dump_object-utf8 lib fs utf8,
        receives now (dump (object fs)) sender s _ (
            message_of now fs (txt "relay_packet") sender s utf8 keys.0
            ∙ packet_handled now (object fs) a b sender s ea eb
                (field fs (txt "from_node_id") a keys.1) (field fs (txt "to_node_id") b keys.2)
                (content, field fs (txt "payload") content keys.3)
                (seq, laws.number_or-object fs (txt "seq") (pos 0) ∙ keys.4) na nb la lb same),
      )
