-- ===== src/Punch/Datagrams.antt =====
-- The handlers of datagrams in src/client/UdpPuncher.cpp and what they tell the punch callback.
use natt.Prelude.{
  take, ℕ, ◌≡◌, refl, ap, ◌∙◌, Bool, true, false, not, ◌&&◌, Option, none, some, [], arith,
  if◌then◌else◌, is_empty, Text, txt, text_eq,
}
use natt.Prelude.Int.{ℤ, pos}
use natt.Json.{JsonLib, dump_object}
use natt.Relay.Registry.{Endpoint}
use natt.Noise.{OpenSsl}
use natt.Noise.Session.{Noise}
use natt.Punch.{Puncher, notify, arm_timeout, complete_secure_punch, do_receive}
use natt.Punch.Send.{send_noise_handshake, start_noise_handshake, is_stage}
use natt.Noise.Session.{handle_handshake_message1, handle_handshake_message2}
use natt.Noise.Complete.{handle_handshake_message1_complete, handle_handshake_message2_complete}
use natt.Relay.Server.{Completion, aborted, failed, received}
use natt.Punch.{packet_seen}
use natt.Punch.Timers.{send_to-Keeps, notify-Keeps, complete_secure_punch-Keeps}
use natt.Punch.Handshake.{send_noise_handshake-Keeps, renew-Keeps, start_noise_handshake-Keeps}
use natt.Punch.Receive.{
  read_handshake, read_header, discover, path_from, handle_punch, handle_relay_packet,
  handle_register_ok, handle_error, handle_punch_ack, first_handshake, second_handshake,
  handshake_stage, handle_noise_handshake, open_packet, read_packet, handle_peer_packet, dispatch,
  is_ignored, handle_message, max_buf, handle_receive,
}
use natt.Punch.Send.{send_ack, punch_fields}
use natt.Punch.Told.{results, Keeps, Keeps-trans, Keeps-quiet, Keeps-refl, Keeps-if, Keeps-elim}

module _ (lib : JsonLib) where
  open lib use {Json, text_or, number_or}

  handle_punch-Keeps :
      (now : ℕ) (from_node_id : Text) (remote : Endpoint) (s : Puncher)
      → Keeps s (handle_punch lib now from_node_id remote s)
  unfolding handle_punch send_ack path_from
  handle_punch-Keeps now from_node_id remote s =
      Keeps-trans s heard _
        (Keeps-if s (text_eq from_node_id s.target_node_id) _ s
          (λ _.
            Keeps-quiet s (record (path_from remote s) { targets = discover remote s.targets }) refl
              refl refl (λ i. i))
          (λ _. Keeps-refl s))
        (Keeps-elim heard
          (dump_object lib (punch_fields lib (txt "punch_ack") s.my_node_id from_node_id now)) heard
          _ (Keeps-refl heard) (λ payload dumped. send_to-Keeps payload remote heard))
    where
      heard : Puncher
      heard =
          (if text_eq from_node_id s.target_node_id
            then record (path_from remote s) { targets = discover remote s.targets }
            else s)

  handle_relay_packet-Keeps : (json : Json) (s : Puncher) → Keeps s (handle_relay_packet lib json s)
  unfolding handle_relay_packet results
  handle_relay_packet-Keeps json s =
      Keeps-elim s (read_packet lib json) s _ (Keeps-refl s)
        (λ p e. notify-Keeps s.callbacks.relay_packet_cb _ s refl)

  handle_register_ok-Keeps : (json : Json) (s : Puncher) → Keeps s (handle_register_ok lib json s)
  unfolding handle_register_ok results
  handle_register_ok-Keeps json s =
      Keeps-elim s (text_or json (txt "node_id") []) s _ (Keeps-refl s)
        (λ node_id e. notify-Keeps s.callbacks.relay_event_cb _ s refl)

  handle_error-Keeps : (json : Json) (s : Puncher) → Keeps s (handle_error lib json s)
  unfolding handle_error results
  handle_error-Keeps json s =
      Keeps-elim s (text_or json (txt "message") []) s _ (Keeps-refl s)
        (λ message e. notify-Keeps s.callbacks.relay_event_cb _ s refl)

module _ (lib : JsonLib) (ssl : OpenSsl) where
  open lib use {Json, parse, text_at, text_or, number_or}

  handle_punch_ack-Keeps :
      (now : ℕ) (random : Option Text) (from_node_id : Text) (remote : Endpoint) (s : Puncher)
      → Keeps s (handle_punch_ack lib ssl now random from_node_id remote s)
  unfolding handle_punch_ack path_from arm_timeout
  handle_punch_ack-Keeps now random from_node_id remote s =
      Keeps-trans s heard _ (Keeps-quiet s heard refl refl refl (λ i. i)) (
        Keeps-if heard s.noise_enabled
          (if s.noise_initiator
            then start_noise_handshake lib ssl random quiet
            else arm_timeout quiet)
          (if s.success then heard else complete_secure_punch now from_node_id heard)
          (λ _. Keeps-trans heard quiet _ (Keeps-quiet heard quiet refl refl refl (λ i. i)) (
            Keeps-if quiet s.noise_initiator (start_noise_handshake lib ssl random quiet)
              (arm_timeout quiet) (λ _. start_noise_handshake-Keeps lib ssl random quiet)
              (λ _. Keeps-quiet quiet (arm_timeout quiet) refl refl refl (λ i. i))))
          (λ _.
            Keeps-if heard s.success heard _ (λ _. Keeps-refl heard)
              (λ _. complete_secure_punch-Keeps now from_node_id heard)))
    where
      heard : Puncher
      heard = record (path_from remote s) { ack_time_ms = now; targets = discover remote s.targets }

      quiet : Puncher
      quiet = record heard { punching = false; punch_armed = false }

  first_handshake-Keeps :
      (now : ℕ) (random : Option Text) (from_node_id payload : Text) (noise : Noise) (s : Puncher)
      → s.noise ≡ some noise
      → Keeps s (first_handshake lib ssl now random from_node_id payload noise s)
  unfolding first_handshake
  first_handshake-Keeps now random from_node_id payload noise s held =
      let after = handle_handshake_message1 ssl random payload noise in
      let kept = record s { noise = some after.0 } in
      let renewed = renew-Keeps lib ssl noise after.0 s held (λ complete.
        ap (λ (p : Noise × Option Text). p.0.handshake_complete)
          (handle_handshake_message1_complete ssl noise complete random payload)
        ∙ complete) in
      Keeps-elim s after.1 _ _
        (Keeps-if s (after.0.handshake_complete && not (is_empty s.last_noise_message)) _ kept
          (λ _. Keeps-trans s kept _ renewed (send_noise_handshake-Keeps lib ssl _ _ kept))
          (λ _. renewed))
        (λ bytes e.
          let sent = send_noise_handshake lib ssl (pos 2) bytes kept in
          let told = send_noise_handshake-Keeps lib ssl (pos 2) bytes kept in
          Keeps-trans s kept _ renewed (
            Keeps-if kept sent.1 sent.0 (complete_secure_punch now from_node_id sent.0) (λ _. told)
              (λ _.
                Keeps-trans kept sent.0 _ told
                  (complete_secure_punch-Keeps now from_node_id sent.0))))

  second_handshake-Keeps :
      (now : ℕ) (from_node_id payload : Text) (noise : Noise) (s : Puncher)
      → s.noise ≡ some noise
      → Keeps s (second_handshake lib ssl now from_node_id payload noise s)
  unfolding second_handshake
  second_handshake-Keeps now from_node_id payload noise s held =
      let after = handle_handshake_message2 ssl payload noise in
      let kept = record s { noise = some after.0 } in
      let renewed = renew-Keeps lib ssl noise after.0 s held (λ complete.
        ap (λ (p : Noise × Bool). p.0.handshake_complete)
          (handle_handshake_message2_complete ssl noise complete payload)
        ∙ complete) in
      Keeps-if s noise.handshake_complete s _ (λ _. Keeps-refl s)
        (λ _.
          Keeps-if s after.1 (complete_secure_punch now from_node_id kept) kept
            (λ _. Keeps-trans s kept _ renewed (complete_secure_punch-Keeps now from_node_id kept))
            (λ _. renewed))

  handshake_stage-Keeps :
      (now : ℕ) (random : Option Text) (from_node_id : Text) (stage : ℤ) (payload : Text)
      (noise : Noise) (s : Puncher)
      → s.noise ≡ some noise
      → Keeps s (handshake_stage lib ssl now random from_node_id stage payload noise s)
  unfolding handshake_stage
  handshake_stage-Keeps now random from_node_id stage payload noise s held =
      Keeps-if s (is_stage stage 1 && not s.noise_initiator) _
        (if is_stage stage 2 && s.noise_initiator
          then second_handshake lib ssl now from_node_id payload noise s
          else s)
        (λ _. first_handshake-Keeps now random from_node_id payload noise s held)
        (λ _.
          Keeps-if s (is_stage stage 2 && s.noise_initiator) _ s
            (λ _. second_handshake-Keeps now from_node_id payload noise s held) (λ _. Keeps-refl s))

  handle_noise_handshake-Keeps :
      (now : ℕ) (random : Option Text) (from_node_id : Text) (json : Json) (remote : Endpoint)
      (s : Puncher)
      → Keeps s (handle_noise_handshake lib ssl now random from_node_id json remote s)
  unfolding handle_noise_handshake path_from
  handle_noise_handshake-Keeps now random from_node_id json remote s =
      Keeps-if s (not s.noise_enabled) s
        (elim s.noise [
          | none ↦ s
          | some noise ↦ elim (read_handshake lib ssl json) [
            | none ↦ s
            | some message ↦ go noise message
          ]
        ])
        (λ _. Keeps-refl s)
        (λ _. Keeps-elim s s.noise s _ (Keeps-refl s) (λ noise held.
          Keeps-elim s (read_handshake lib ssl json) s (go noise) (Keeps-refl s) (λ message e.
            Keeps-trans s (path_from remote s) _
              (Keeps-quiet s (path_from remote s) refl refl refl (λ i. i))
              (handshake_stage-Keeps now random from_node_id message.0 message.1 noise
                (path_from remote s) held))))
    where
      go : Noise → ℤ × Text → Puncher
      go noise message =
          handshake_stage lib ssl now random from_node_id message.0 message.1 noise
            (path_from remote s)

  handle_peer_packet-Keeps :
      (to_node_id : Text) (json : Json) (remote : Endpoint) (s : Puncher)
      → Keeps s (handle_peer_packet lib ssl to_node_id json remote s)
  unfolding handle_peer_packet results
  handle_peer_packet-Keeps to_node_id json remote s =
      Keeps-elim s (read_packet lib json) s _ (Keeps-refl s) (λ p e.
        let heard =
          (if text_eq p.0 s.target_node_id
            then record s { peer_endpoint = remote; peer_endpoint_known = true }
            else s) in
        let quiet =
          Keeps-if s (text_eq p.0 s.target_node_id)
            (record s { peer_endpoint = remote; peer_endpoint_known = true }) s
            (λ _.
              Keeps-quiet s (record s { peer_endpoint = remote; peer_endpoint_known = true }) refl
                refl refl (λ i. i))
            (λ _. Keeps-refl s) in
        Keeps-elim s (open_packet lib ssl p.0 to_node_id p.2 p.1 s) heard _ quiet (λ cleartext d.
          Keeps-trans s heard _ quiet (notify-Keeps s.callbacks.peer_packet_cb _ heard refl)))

  dispatch-Keeps :
      (now : ℕ) (random : Option Text) (json : Json) (type from_node_id to_node_id : Text)
      (remote : Endpoint) (s : Puncher)
      → Keeps s (dispatch lib ssl now random json type from_node_id to_node_id remote s)
  unfolding dispatch
  dispatch-Keeps now random json type from_node_id to_node_id remote s = ground (
    arith,
    handle_punch-Keeps lib now from_node_id remote s,
    handle_punch_ack-Keeps now random from_node_id remote s,
    handle_noise_handshake-Keeps now random from_node_id json remote s,
    handle_peer_packet-Keeps to_node_id json remote s,
    handle_relay_packet-Keeps lib json s,
    handle_register_ok-Keeps lib json s,
    handle_error-Keeps lib json s,
    Keeps-refl s,
  )

  handle_message-Keeps :
      (now : ℕ) (random : Option Text) (payload : Text) (remote : Endpoint) (s : Puncher)
      → Keeps s (handle_message lib ssl now random payload remote s)
  unfolding handle_message results
  handle_message-Keeps now random payload remote s =
      Keeps-elim s (parse payload) s _ (Keeps-refl s) (λ json e.
        Keeps-elim s (read_header lib ssl json) s _ (Keeps-refl s) (λ p d.
          let noted = notify s.callbacks.packet_cb (packet_seen p.1 p.0 p.3 remote) s in
          Keeps-if s (is_ignored p.0 p.1 p.2 s.my_node_id) s
            (dispatch lib ssl now random json p.0 p.1 p.2 remote noted) (λ _. Keeps-refl s)
            (λ _.
              Keeps-trans s noted _ (notify-Keeps s.callbacks.packet_cb _ s refl)
                (dispatch-Keeps now random json p.0 p.1 p.2 remote noted))))

  pub handle_receive-Keeps :
      (now : ℕ) (random : Option Text) (completion : Completion) (s : Puncher)
      → Keeps s (handle_receive lib ssl now random completion s)
  unfolding handle_receive do_receive
  handle_receive-Keeps now random aborted s =
      Keeps-quiet s (record s { receiving = false }) refl refl refl (λ i. i)
  handle_receive-Keeps now random failed s =
      Keeps-quiet s (record s { receiving = true }) refl refl refl (λ i. i)
  handle_receive-Keeps now random (received payload remote) s =
      Keeps-trans s idle _ (Keeps-quiet s idle refl refl refl (λ i. i)) (
        Keeps-trans idle (handle_message lib ssl now random (take max_buf payload) remote idle) _
          (handle_message-Keeps now random (take max_buf payload) remote idle)
          (Keeps-quiet _ _ refl refl refl (λ i. i)))
    where
      idle : Puncher
      idle = record s { receiving = false }
