-- ===== src/Punch/Receive.antt =====
-- `handle_receive` of src/client/UdpPuncher.cpp, a function for each type of message. A value that is
-- missing or of another type is an exception, which is caught: the state stays as it is then.
use natt.Prelude.{
  take, ℕ, ◌-◌, ◌%◌, ◌^◌, Bool, true, false, not, ◌&&◌, ◌||◌, Option, none, some, List, [], ◌∷◌,
  ◌++◌, ltb, ◌==◌, if◌then◌else◌, is_empty, Text, txt, text_eq,
}
use natt.Prelude.Int.{ℤ, pos, negsuc, ltb_ℤ}
use natt.Json.{JsonLib, ◌>>=◌}
use natt.Relay.Registry.{Endpoint}
use natt.Relay.Server.{Completion, aborted, failed, received}
use natt.Noise.{OpenSsl, decode_base64}
use natt.Noise.Session.{Noise, handle_handshake_message1, handle_handshake_message2, decrypt}
use natt.Punch.{
  PunchTarget, Puncher, packet_seen, peer_packet, relay_packet, relay_event, do_receive, notify,
  arm_timeout, complete_secure_punch, build_packet_ad,
}
use natt.Punch.Send.{send_ack, send_noise_handshake, start_noise_handshake, nonce_of, is_stage}

-- `MAX_BUF`
abbrev pub max_buf : ℕ
max_buf = 4096

-- A number that `json.value(key, 0)` casts to `int`.
abbrev pub as_int : ℤ → ℤ
as_int (pos n) = let r = n % 2 ^ 32 in if ltb r (2 ^ 31) then pos r else negsuc (2 ^ 32 - 1 - r)
as_int (negsuc n) =
    let r = 2 ^ 32 - 1 - n % 2 ^ 32 in if ltb r (2 ^ 31) then pos r else negsuc (2 ^ 32 - 1 - r)

-- The loop over the targets: `t.ip == ip && t.port == port`.
unfoldable pub has_target : Endpoint → List PunchTarget → Bool
has_target remote [] = false
has_target remote (t ∷ targets) =
    text_eq t.ip remote.address && t.port == remote.port || has_target remote targets

unfoldable pub discover : Endpoint → List PunchTarget → List PunchTarget
discover remote targets =
    if has_target remote targets
    then targets
    else targets ++ record { ip = remote.address; port = remote.port } ∷ []

unfoldable pub path_from : Endpoint → Puncher → Puncher
path_from remote s = record s {
  peer_endpoint = remote;
  peer_endpoint_known = true;
  punch_path_ready = true;
}

unfoldable pub is_p2p_message : Text → Bool
is_p2p_message type =
    text_eq type (txt "punch")
    || text_eq type (txt "punch_ack")
    || text_eq type (txt "noise_handshake")
    || text_eq type (txt "p2p_packet")

-- The message is for another node, or came back to its sender.
unfoldable pub is_ignored : Text → Text → Text → Text → Bool
is_ignored type from_node_id to_node_id my_node_id =
    is_p2p_message type
    && (not (is_empty to_node_id) && not (text_eq to_node_id my_node_id)
        || not (is_empty from_node_id) && text_eq from_node_id my_node_id)

module _ (lib : JsonLib) where
  open lib use {Json, text_or, number_or}

  unfoldable pub handle_punch : ℕ → Text → Endpoint → Puncher → Puncher
  handle_punch now from_node_id remote s = send_ack lib now s.my_node_id from_node_id remote (
      if text_eq from_node_id s.target_node_id
      then record (path_from remote s) { targets = discover remote s.targets }
      else s)

  -- What both branches for packets read.
  unfoldable pub read_packet : Json → Option (Text × Text × ℤ)
  read_packet json = do
    from_id ← text_or json (txt "from_node_id") []
    payload ← text_or json (txt "payload") []
    seq ← number_or json (txt "seq") (pos 0)
    some (from_id, payload, seq)

  unfoldable pub handle_relay_packet : Json → Puncher → Puncher
  handle_relay_packet json s = elim (read_packet json) [
    | none ↦ s
    | some (from_id, payload, seq) ↦
        notify s.callbacks.relay_packet_cb (relay_packet from_id payload seq) s
  ]

  -- The value is only read where the callback is set.
  unfoldable pub handle_register_ok : Json → Puncher → Puncher
  handle_register_ok json s = elim (text_or json (txt "node_id") []) [
    | none ↦ s
    | some node_id ↦
        notify s.callbacks.relay_event_cb
          (relay_event (txt "relay_register_ok") (txt "node_id") node_id) s
  ]

  unfoldable pub handle_error : Json → Puncher → Puncher
  handle_error json s = elim (text_or json (txt "message") []) [
    | none ↦ s
    | some message ↦
        notify s.callbacks.relay_event_cb (relay_event (txt "relay_error") (txt "message") message)
          s
  ]

module _ (lib : JsonLib) (ssl : OpenSsl) where
  open lib use {Json, parse, text_at, text_or, number_or}

  unfoldable pub handle_punch_ack : ℕ → Option Text → Text → Endpoint → Puncher → Puncher
  handle_punch_ack now random from_node_id remote s =
      let heard = record (path_from remote s) {
        ack_time_ms = now;
        targets = discover remote s.targets;
      } in
      if s.noise_enabled
      then (let quiet = record heard { punching = false; punch_armed = false } in
          if s.noise_initiator
          then start_noise_handshake lib ssl random quiet
          else arm_timeout quiet)
      else if s.success
      then heard
      else complete_secure_punch now from_node_id heard

  unfoldable pub first_handshake : ℕ → Option Text → Text → Text → Noise → Puncher → Puncher
  first_handshake now random from_node_id payload noise s =
      let (after, response) = handle_handshake_message1 ssl random payload noise in
      let kept = record s { noise = some after } in
      elim response [
        | some bytes ↦
            let (sent, threw) = send_noise_handshake lib ssl (pos 2) bytes kept in
            if threw then sent else complete_secure_punch now from_node_id sent
        | none ↦
            if after.handshake_complete && not (is_empty s.last_noise_message)
            then (send_noise_handshake lib ssl s.last_noise_stage s.last_noise_message kept).0
            else kept
      ]

  unfoldable pub second_handshake : ℕ → Text → Text → Noise → Puncher → Puncher
  second_handshake now from_node_id payload noise s =
      if noise.handshake_complete
      then s
      else (let (after, ok) = handle_handshake_message2 ssl payload noise in
          let kept = record s { noise = some after } in
          if ok then complete_secure_punch now from_node_id kept else kept)

  unfoldable pub handshake_stage : ℕ → Option Text → Text → ℤ → Text → Noise → Puncher → Puncher
  handshake_stage now random from_node_id stage payload noise s =
      if is_stage stage 1 && not s.noise_initiator
      then first_handshake now random from_node_id payload noise s
      else if is_stage stage 2 && s.noise_initiator
      then second_handshake now from_node_id payload noise s
      else s

  unfoldable pub read_handshake : Json → Option (ℤ × Text)
  read_handshake json = do
    stage ← number_or json (txt "stage") (pos 0)
    encoded ← text_or json (txt "payload") []
    payload ← decode_base64 ssl encoded
    some (as_int stage, payload)

  unfoldable pub handle_noise_handshake :
      ℕ → Option Text → Text → Json → Endpoint → Puncher → Puncher
  handle_noise_handshake now random from_node_id json remote s =
      if not s.noise_enabled then s else elim s.noise [
        | none ↦ s
        | some noise ↦ elim (read_handshake json) [
          | none ↦ s
          | some (stage, payload) ↦
              handshake_stage now random from_node_id stage payload noise (path_from remote s)
        ]
      ]

  -- What the guards and the cipher let through.
  unfoldable pub open_packet : Text → Text → ℤ → Text → Puncher → Option Text
  open_packet from_id to_node_id seq payload s = elim s.noise [
    | none ↦ none
    | some noise ↦
        if not s.noise_enabled || not s.noise_ready || ltb_ℤ seq (pos 0) then none else do
          bytes ← decode_base64 ssl payload
          decrypt ssl noise (nonce_of seq) bytes (build_packet_ad from_id to_node_id seq)
  ]

  unfoldable pub handle_peer_packet : Text → Json → Endpoint → Puncher → Puncher
  handle_peer_packet to_node_id json remote s = elim (read_packet lib json) [
    | none ↦ s
    | some (from_id, payload, seq) ↦
        let heard =
          (if text_eq from_id s.target_node_id
            then record s { peer_endpoint = remote; peer_endpoint_known = true }
            else s) in
        elim (open_packet from_id to_node_id seq payload s) [
          | none ↦ heard
          | some cleartext ↦
              notify s.callbacks.peer_packet_cb (peer_packet from_id cleartext seq) heard
        ]
  ]

  unfoldable pub dispatch :
      ℕ → Option Text → Json → Text → Text → Text → Endpoint → Puncher → Puncher
  dispatch now random json type from_node_id to_node_id remote s =
      if text_eq type (txt "punch")
      then handle_punch lib now from_node_id remote s
      else if text_eq type (txt "punch_ack")
      then handle_punch_ack now random from_node_id remote s
      else if text_eq type (txt "noise_handshake")
      then handle_noise_handshake now random from_node_id json remote s
      else if text_eq type (txt "p2p_packet")
      then handle_peer_packet to_node_id json remote s
      else if text_eq type (txt "relay_packet")
      then handle_relay_packet lib json s
      else if text_eq type (txt "relay_register_ok")
      then handle_register_ok lib json s
      else if text_eq type (txt "error")
      then handle_error lib json s
      else s

  -- The type, the sender, the receiver and the time.
  unfoldable pub read_header : Json → Option (Text × Text × Text × ℤ)
  read_header json = do
    type ← text_at json (txt "type")
    from_node_id ← text_or json (txt "from_node_id") []
    to_node_id ← text_or json (txt "to_node_id") []
    timestamp ← number_or json (txt "timestamp") (pos 0)
    some (type, from_node_id, to_node_id, timestamp)

  unfoldable pub handle_message : ℕ → Option Text → Text → Endpoint → Puncher → Puncher
  handle_message now random payload remote s = elim (parse payload) [
    | none ↦ s
    | some json ↦ elim (read_header json) [
      | none ↦ s
      | some (type, from_node_id, to_node_id, timestamp) ↦
          if is_ignored type from_node_id to_node_id s.my_node_id
          then s
          else dispatch now random json type from_node_id to_node_id remote
              (notify s.callbacks.packet_cb (packet_seen from_node_id type timestamp remote) s)
    ]
  ]

  -- A datagram is cut to the 4096 bytes of `recv_buffer_`.
  unfoldable pub handle_receive : ℕ → Option Text → Completion → Puncher → Puncher
  handle_receive now random aborted s = record s { receiving = false }
  handle_receive now random failed s = do_receive (record s { receiving = false })
  handle_receive now random (received payload remote) s =
      do_receive
        (handle_message now random (take max_buf payload) remote (record s { receiving = false }))
