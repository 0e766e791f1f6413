-- ===== src/Punch/Send.antt =====
-- The messages of src/client/UdpPuncher.cpp: punches, acknowledgements, the Noise handshake, packets to the
-- peer and the relay heartbeat. `now` is `now_ms()`.
use natt.Prelude.{
  ℕ, ◌+◌, ◌-◌, ◌^◌, Bool, true, false, not, ◌&&◌, ◌||◌, Option, none, some, List, [], ◌∷◌, ◌==◌,
  if◌then◌else◌, is_empty, Text, txt, Dict,
}
use natt.Prelude.Int.{ℤ, pos, negsuc, ltb_ℤ}
use natt.Address.{Outcome, ok, throws, undefined}
use natt.Json.{dump_object, JsonLib, Field, text, number, ◌>>=◌}
use natt.Relay.Registry.{Endpoint}
use natt.Relay.Client.{send_relay_heartbeat}
use natt.Noise.{OpenSsl, ciphertext, nullopt, overrun, encode_base64}
use natt.Noise.Session.{Noise, build_handshake_message1, encrypt}
use natt.Punch.{
  PunchTarget, Puncher, send_to, arm_timeout, build_packet_ad, start_relay_heartbeat, MakeAddress,
}

abbrev pub is_stage : ℤ → ℕ → Bool
is_stage (pos n) m = n == m
is_stage (negsuc n) m = false

-- `static_cast<std::uint64_t>`
abbrev pub nonce_of : ℤ → ℕ
nonce_of (pos n) = n
nonce_of (negsuc n) = 2 ^ 64 - 1 - n

module _ (lib : JsonLib) where
  open lib use {dump, object}

  abbrev pub punch_fields : Text → Text → Text → ℕ → Dict Field
  punch_fields type my_node_id target_node_id now =
      (txt "type", text type)
      ∷ (txt "from_node_id", text my_node_id)
      ∷ (txt "to_node_id", text target_node_id)
      ∷ (txt "timestamp", number (pos now))
      ∷ []

  -- `none` is an exception, of `dump` for an id that is not UTF-8 or of `make_address`.
  unfoldable pub send_punch : MakeAddress → ℕ → Text → Text → PunchTarget → Puncher → Option Puncher
  send_punch make_address now my_node_id target_node_id target s = do
    payload ← dump_object lib (punch_fields (txt "punch") my_node_id target_node_id now)
    address ← make_address target.ip
    some (send_to payload (record { address = address; port = target.port }) s)

  -- The last call of its caller, which catches what `dump` throws: nothing is sent then.
  unfoldable pub send_ack : ℕ → Text → Text → Endpoint → Puncher → Puncher
  send_ack now my_node_id target_node_id target s =
      elim (dump_object lib (punch_fields (txt "punch_ack") my_node_id target_node_id now)) [
        | none ↦ s
        | some payload ↦ send_to payload target s
      ]

  -- The loop over the targets. The flag says that it ends with an exception.
  unfoldable pub send_punches : MakeAddress → ℕ → List PunchTarget → Puncher → Puncher × Bool
  send_punches make_address now [] s = (s, false)
  send_punches make_address now (target ∷ targets) s =
      elim (send_punch make_address now s.my_node_id s.target_node_id target s) [
        | none ↦ (s, true)
        | some t ↦ send_punches make_address now targets t
      ]

  unfoldable pub do_send_punch : MakeAddress → ℕ → Puncher → Puncher × Bool
  do_send_punch make_address now s =
      if not s.punching || s.success || is_empty s.targets
      then (s, false)
      else (let (t, threw) = send_punches make_address now s.targets s in
          if threw then (t, true) else (record t { punch_armed = true }, false))

  -- The handler of `punch_timer_`.
  unfoldable pub punch_timer_fires : MakeAddress → ℕ → Puncher → Puncher × Bool
  punch_timer_fires make_address now s =
      do_send_punch make_address now (record s { punch_armed = false })

  unfoldable pub start_punching : MakeAddress → ℕ → Text → Text → ℤ → Puncher → Puncher × Bool
  start_punching make_address now my_node_id target_node_id interval_ms s =
      do_send_punch make_address now (
        arm_timeout (record s {
          my_node_id = my_node_id;
          target_node_id = target_node_id;
          interval_ms = interval_ms;
          punching = true;
          success = false;
          peer_endpoint_known = false;
          punch_path_ready = false;
          noise_ready = false;
          last_noise_stage = pos 0;
          handshake_retry_count = 0;
          last_noise_message = [];
          start_time_ms = now;
        }))

  -- The handler of `relay_hb_timer_`, which sends and sets the timer again; it does not get there where
  -- `dump` throws.
  unfoldable pub relay_hb_fires : Puncher → Puncher
  relay_hb_fires s = elim s.relay_hb [
    | none ↦ s
    | some (node_id, relay_ep, interval_sec) ↦ elim (send_relay_heartbeat lib node_id) [
      | none ↦ record s { relay_hb = none }
      | some payload ↦
          start_relay_heartbeat node_id relay_ep interval_sec (send_to payload relay_ep s)
    ]
  ]

module _ (lib : JsonLib) (ssl : OpenSsl) where
  open lib use {dump, object}

  abbrev pub handshake_fields : Text → Text → ℤ → Text → Dict Field
  handshake_fields my_node_id target_node_id stage payload =
      (txt "type", text (txt "noise_handshake"))
      ∷ (txt "from_node_id", text my_node_id)
      ∷ (txt "to_node_id", text target_node_id)
      ∷ (txt "stage", number stage)
      ∷ (txt "payload", text (encode_base64 ssl payload))
      ∷ []

  -- The flag says that `dump` throws.
  unfoldable pub send_noise_handshake : ℤ → Text → Puncher → Puncher × Bool
  send_noise_handshake stage payload s =
      if not s.peer_endpoint_known
      then (s, false)
      else (let kept = record s { last_noise_stage = stage; last_noise_message = payload } in
          elim (dump_object lib (handshake_fields s.my_node_id s.target_node_id stage payload)) [
            | none ↦ (kept, true)
            | some message ↦ (send_to message s.peer_endpoint kept, false)
          ])

  unfoldable pub schedule_noise_retry : Puncher → Puncher
  schedule_noise_retry s =
      if not s.noise_initiator
        || s.success
        || not s.peer_endpoint_known
        || not (is_stage s.last_noise_stage 1)
        || is_empty s.last_noise_message
      then s
      else record s { noise_retry_armed = true }

  -- The handler of `noise_retry_timer_`.
  unfoldable pub noise_retry_fires : Puncher → Puncher
  noise_retry_fires s =
      let idle = record s { noise_retry_armed = false } in
      if s.success || not s.noise_initiator
      then idle
      else (let (sent, threw) =
            send_noise_handshake s.last_noise_stage s.last_noise_message
              (record idle { handshake_retry_count = s.handshake_retry_count + 1 }) in
          if threw then sent else schedule_noise_retry sent)

  unfoldable pub first_message : Option Text → Noise → Puncher → Puncher
  first_message random noise s =
      let (after, message) = build_handshake_message1 ssl random noise in
      let kept = record s { noise = some after } in
      elim message [
        | none ↦ kept
        | some msg1 ↦
            let (sent, threw) = send_noise_handshake (pos 1) msg1 kept in
            if threw then sent else schedule_noise_retry (arm_timeout sent)
      ]

  unfoldable pub start_noise_handshake : Option Text → Puncher → Puncher
  start_noise_handshake random s =
      if not s.noise_enabled || not s.noise_initiator || not s.peer_endpoint_known || s.success
      then s
      else if is_stage s.last_noise_stage 1 && not (is_empty s.last_noise_message)
      then elim s.noise [
        | none ↦ s
        | some _ ↦ (send_noise_handshake s.last_noise_stage s.last_noise_message s).0
      ]
      else elim s.noise [ none ↦ s | some noise ↦ first_message random noise s ]

  abbrev pub peer_fields : Text → Text → ℤ → Text → Dict Field
  peer_fields from_node_id to_node_id seq bytes =
      (txt "type", text (txt "p2p_packet"))
      ∷ (txt "from_node_id", text from_node_id)
      ∷ (txt "to_node_id", text to_node_id)
      ∷ (txt "seq", number seq)
      ∷ (txt "payload", text (encode_base64 ssl bytes))
      ∷ []

  -- `failed` says that `send_to` ends with an error. A write behind a buffer is `undefined`, and `dump`
  -- throws where an id is not UTF-8.
  unfoldable pub send_peer_packet :
      Bool → Text → Text → ℤ → Text → Puncher → Outcome (Puncher × Bool)
  send_peer_packet failed from_node_id to_node_id seq payload_data s = elim s.noise [
    | none ↦ ok (s, false)
    | some noise ↦
        if not s.success
          || not s.peer_endpoint_known
          || not s.noise_enabled
          || not s.noise_ready
          || ltb_ℤ seq (pos 0)
        then ok (s, false)
        else elim (encrypt ssl noise (nonce_of seq) payload_data
            (build_packet_ad from_node_id to_node_id seq)) [
              | overrun ↦ undefined
              | nullopt ↦ ok (s, false)
              | ciphertext bytes ↦
                  elim (dump_object lib (peer_fields from_node_id to_node_id seq bytes)) [
                    | none ↦ throws
                    | some payload ↦
                        if failed
                        then ok (s, false)
                        else ok (send_to payload s.peer_endpoint s, true)
                  ]
            ]
  ]
