-- ===== src/Punch/Tests.antt =====
-- Tests of the model of src/client/UdpPuncher.cpp.
use natt.Prelude.{
  ℕ, ◌≡◌, refl, ◌≢◌, Bool, true, false, Option, none, some, List, [], ◌∷◌, ◌++◌, arith, replicate,
  length, ◌≤◌, Text, txt, text_eq, lookup,
}
use natt.Prelude.Int.{pos}
use natt.Address.{ok}
use natt.Json.{is_utf8, utf8_from}
use natt.Json.Plain.{
  plain_parse, plain_dump, plain_text_at, plain_text_or, plain_number_or, plain, plain-IsJson,
}
use natt.Relay.Registry.{Endpoint}
use natt.Relay.Server.{received}
use natt.Noise.{aead_encrypt, StaticKeypair, ciphertext, encode_base64}
use natt.Noise.Plain.{tag, plain_ssl, plain_ssl-IsOpenSsl}
use natt.Noise.Session.{Role, initiator, responder, Noise, encrypt}
use natt.Punch.{
  Puncher, Callbacks, Call, punch_result, packet_seen, peer_packet, make_puncher, timeout_fires,
  complete_secure_punch, do_receive, arm_timeout, notify, send_to, build_packet_ad,
}
use natt.Punch.Send.{start_punching, do_send_punch, send_peer_packet}
use natt.Punch.Receive.{
  handle_message, read_header, is_ignored, is_p2p_message, dispatch, handle_punch_ack, path_from,
  discover, has_target, handle_receive, max_buf,
}
use natt.Punch.Events.{Event, punching_started, completed, timed_out, step, run}
use natt.Punch.Told.{results, Told, IsComplete}
use natt.Punch.Run.{round-Told}
use natt.Punch.Packets.{payload_of, peer_packet_arrives}

abbrev all_set : Callbacks
all_set = record {
  punch_cb = true;
  packet_cb = true;
  peer_packet_cb = true;
  relay_packet_cb = true;
  relay_event_cb = true;
}

abbrev peer_at : Endpoint
peer_at = record { address = txt "198.51.100.7"; port = 4000 }

abbrev pair_of : ℕ → StaticKeypair
pair_of n = let key : Text = replicate 32 n in record { private_key = key; public_key = key }

abbrev first_state : Puncher
first_state = make_puncher all_set

abbrev address_of : Text → Option Text
address_of ip = some ip

-- The acknowledgement of the node b.
abbrev ack : Text
ack =
    plain.dump
      (plain.object (natt.Punch.Send.punch_fields plain (txt "punch_ack") (txt "b") (txt "a") 0))

-- A timeout, then the acknowledgement.
abbrev late : List Event
late = timed_out ∷ completed 5 none (received ack peer_at) ∷ timed_out ∷ []

late-results :
    results
      (run plain plain_ssl address_of
        (punching_started 1 (txt "a") (txt "b") (pos 100) ∷ late)
        first_state).calls
    ≡ false ∷ true ∷ []
unfolding run results step start_punching do_send_punch arm_timeout timeout_fires notify
    handle_receive do_receive handle_message plain_parse plain_dump read_header plain_text_at lookup
    text_eq plain_text_or plain_number_or is_ignored is_p2p_message dispatch handle_punch_ack
    path_from discover has_target complete_secure_punch make_puncher
late-results = refl

all_on : first_state.callbacks.punch_cb ≡ true
unfolding make_puncher
all_on = refl

other : txt "a" ≢ txt "b"
other = ground arith

round-Told_example :
    let t =
      run plain plain_ssl address_of
        (punching_started 1 (txt "a") (txt "b") (pos 100) ∷ late)
        first_state in
    (new : List Bool) × (results t.calls ≡ results first_state.calls ++ new)
    × Told false t.success new
    × (t.noise_enabled ≡ true → t.noise_ready ≡ true → IsComplete t.noise)
round-Told_example =
    round-Told plain plain_ssl address_of late first_state 1 (txt "a") (txt "b") (pos 100) all_on
      (tt, (tt, (tt, tt)))

-- The two sides of a punched path whose handshake is over.
abbrev session : Role → Text → Text → Noise
session role send_key recv_key = record {
  role = role;
  local_static = pair_of 1;
  remote_static = [];
  local_ephemeral = none;
  remote_ephemeral = [];
  h = [];
  ck = [];
  send_key = send_key;
  recv_key = recv_key;
  msg1_sent = true;
  msg1_received = true;
  handshake_complete = true;
}

abbrev side : Text → Text → Noise → Puncher
side my_node_id target_node_id noise = record first_state {
  my_node_id = my_node_id;
  target_node_id = target_node_id;
  success = true;
  peer_endpoint = peer_at;
  peer_endpoint_known = true;
  noise_enabled = true;
  noise_ready = true;
  noise = some noise;
  callbacks = all_set;
}

abbrev side_a : Puncher
side_a = side (txt "a") (txt "b") (session initiator (9 ∷ []) (8 ∷ []))

abbrev side_b : Puncher
side_b = side (txt "b") (txt "a") (session responder (8 ∷ []) (9 ∷ []))

sealed_hi :
    encrypt plain_ssl
      (session initiator (9 ∷ []) (8 ∷ []))
      3
      (txt "hi")
      (build_packet_ad (txt "a") (txt "b") (pos 3))
    ≡ ciphertext (txt "hi" ++ tag)
unfolding encrypt aead_encrypt build_packet_ad
sealed_hi = refl

texts :
    (is_utf8 (txt "a") ≡ true)
    × (is_utf8 (txt "b") ≡ true)
    × (is_utf8 (encode_base64 plain_ssl (txt "hi" ++ tag)) ≡ true)
unfolding utf8_from encode_base64
texts = (refl, refl, refl)

fits : length (payload_of plain plain_ssl (txt "a") (txt "b") 3 (txt "hi" ++ tag)) ≤ max_buf
unfolding plain_dump encode_base64
fits = omega arith

peer_packet_arrives_example :
    (sent : Text) × (send_peer_packet plain plain_ssl false
        (txt "a")
        (txt "b")
        (pos 3)
        (txt "hi")
        side_a
      ≡ ok (send_to sent peer_at side_a, true))
    × ((handle_receive plain plain_ssl 7 none (received sent peer_at) side_b).calls
        ≡ (notify true (packet_seen (txt "a") (txt "p2p_packet") (pos 0) peer_at) side_b).calls
          ++ peer_packet (txt "a") (txt "hi") (pos 3) ∷ [])
peer_packet_arrives_example =
    peer_packet_arrives plain plain-IsJson plain_ssl plain_ssl-IsOpenSsl (txt "a") (txt "b")
      (txt "hi") (txt "hi" ++ tag) 3 7 (session initiator (9 ∷ []) (8 ∷ []))
      (session responder (8 ∷ []) (9 ∷ [])) side_a side_b none peer_at
      (record { held = refl; enabled = refl; ready = refl }) refl refl
      (record { held = refl; enabled = refl; ready = refl }) refl refl refl refl other sealed_hi
      texts.0 texts.1 texts.2 fits
