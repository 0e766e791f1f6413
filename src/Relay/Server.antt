-- ===== src/Relay/Server.antt =====
-- src/relay/RelayServer.{h,cpp}: the UDP server, handler by handler. The sockets, the timers and the
-- JSON library are outside: an asynchronous call that is under way is a flag of the state, what is
-- sent is a list in the order of sending (an error of `send_to` is only logged), and a completed
-- receive is an event. `now` is the steady clock when a handler runs. The log lines are left out.
pub mod Packet
pub mod Receive
pub mod History
use natt.Prelude.{
  ℕ, ◌+◌, ◌-◌, Bool, true, false, not, ◌||◌, Option, none, some, List, [], ◌∷◌, ◌++◌, if◌then◌else◌,
  is_empty, Text, txt, text_eq,
}
use natt.Prelude.Int.{ℤ, pos}
use natt.Json.{JsonLib, Field, text, ◌>>=◌}
use natt.Relay.Registry.{
  Endpoint, Registry, register_node, find_endpoint, find_network_id, update_heartbeat,
  cleanup_expired, is_online,
}

pub record Datagram : Type 0 where
  pub payload : Text
  pub dest : Endpoint

pub record Server : Type 0 where
  pub registry : Registry
  pub sent : List Datagram
  pub receiving : Bool
  pub cleanup_armed : Bool

-- `CLEANUP_INTERVAL_SEC`, `NODE_TIMEOUT_SEC`
abbrev pub cleanup_interval_sec : ℕ
cleanup_interval_sec = 10

abbrev pub node_timeout_sec : ℤ
node_timeout_sec = pos 30

-- How an asynchronous receive completes.
pub data Completion : Type 0 where
  aborted : Completion
  failed : Completion
  received : Text → Endpoint → Completion

unfoldable pub send_to : Text → Endpoint → Server → Server
send_to payload dest s = record s {
  sent = s.sent ++ record { payload = payload; dest = dest } ∷ [];
}

unfoldable pub do_receive : Server → Server
do_receive s = record s { receiving = true }

unfoldable pub schedule_cleanup : Server → Server
schedule_cleanup s = record s { cleanup_armed = true }

unfoldable pub start : Server → Server
unfolding do_receive schedule_cleanup
start s = schedule_cleanup (do_receive s)

-- Both asynchronous calls end with `operation_aborted`.
unfoldable pub stop : Server → Server
stop s = record s { receiving = false; cleanup_armed = false }

unfoldable pub do_cleanup : ℕ → Server → Server
unfolding schedule_cleanup
do_cleanup now s =
    schedule_cleanup (record s { registry = (cleanup_expired now node_timeout_sec s.registry).0 })

-- `findNetworkId` leaves the text empty where the node is not known.
abbrev pub network_or_empty : Text → Server → Text
network_or_empty node_id s = elim (find_network_id node_id s.registry) [
  | none ↦ []
  | some network_id ↦ network_id
]

module _ (lib : JsonLib) where
  open lib use {Json, parse, dump, object, text_or, number_or}

  abbrev pub error_payload : Text → Text
  error_payload message =
      dump (object ((txt "type", text (txt "error")) ∷ (txt "message", text message) ∷ []))

  abbrev pub register_ok_payload : Text → Text
  register_ok_payload node_id =
      dump
        (object ((txt "type", text (txt "relay_register_ok")) ∷ (txt "node_id", text node_id) ∷ []))

  unfoldable pub send_error : Endpoint → Text → Server → Server
  send_error dest message s = send_to (error_payload message) dest s

  -- `none` is an exception of the JSON library: every value is read before anything is changed.
  unfoldable pub handle_register : ℕ → Json → Endpoint → Server → Option Server
  handle_register now msg sender s = do
    node_id ← text_or msg (txt "node_id") []
    network_id ← text_or msg (txt "network_id") []
    token ← text_or msg (txt "token") []
    if is_empty node_id || is_empty network_id
        then some (send_error sender (txt "missing_fields") s)
        else if is_empty token
        then some (send_error sender (txt "missing_token") s)
        else some (
            send_to (register_ok_payload node_id) sender
              (record s { registry = (register_node now node_id network_id sender s.registry).0 }))

  -- An error to the endpoint of the node, if it has one.
  abbrev pub send_error_to_node : Text → Text → Server → Server
  send_error_to_node node_id message s = elim (find_endpoint node_id s.registry) [
    | none ↦ s
    | some ep ↦ send_error ep message s
  ]

  -- The guards of `handle_relay_packet` behind the reading of the message.
  unfoldable pub relay_packet : Text → Text → Json → Server → Server
  relay_packet from_node_id to_node_id msg s =
      if is_empty from_node_id || is_empty to_node_id
      then s
      else if not (is_online from_node_id s.registry)
      then send_error_to_node from_node_id (txt "sender_not_registered") s
      else elim (find_endpoint to_node_id s.registry) [
        | none ↦ send_error_to_node from_node_id (txt "target_offline") s
        | some target_ep ↦
            if text_eq (network_or_empty from_node_id s) (network_or_empty to_node_id s)
            then send_to (dump msg) target_ep s
            else send_error_to_node from_node_id (txt "network_mismatch") s
      ]

  unfoldable pub handle_relay_packet : Json → Server → Option Server
  handle_relay_packet msg s = do
    from_node_id ← text_or msg (txt "from_node_id") []
    to_node_id ← text_or msg (txt "to_node_id") []
    payload ← text_or msg (txt "payload") []
    seq ← number_or msg (txt "seq") (pos 0)
    some (relay_packet from_node_id to_node_id msg s)

  unfoldable pub handle_heartbeat : ℕ → Json → Endpoint → Server → Option Server
  handle_heartbeat now msg sender s = do
    node_id ← text_or msg (txt "node_id") []
    if is_empty node_id
        then some s
        else if not (is_online node_id s.registry)
        then some (send_error sender (txt "not_registered") s)
        else some (record s { registry = update_heartbeat now node_id s.registry })

  abbrev pub dispatch : ℕ → Json → Text → Endpoint → Server → Option Server
  dispatch now msg type sender s =
      if text_eq type (txt "relay_register")
      then handle_register now msg sender s
      else if text_eq type (txt "relay_packet")
      then handle_relay_packet msg s
      else if text_eq type (txt "relay_heartbeat")
      then handle_heartbeat now msg sender s
      else some (send_error sender (txt "unknown_type") s)

  -- The body of the `try`.
  unfoldable pub handle_message : ℕ → Text → Endpoint → Server → Option Server
  handle_message now payload sender s = do
    msg ← parse payload
    type ← text_or msg (txt "type") []
    dispatch now msg type sender s

  unfoldable pub handle_receive : ℕ → Completion → Server → Server
  unfolding do_receive
  handle_receive now aborted s = record s { receiving = false }
  handle_receive now failed s = do_receive s
  handle_receive now (received payload sender) s =
      do_receive (elim (handle_message now payload sender s) [
        | none ↦ send_error sender (txt "invalid_message") s
        | some s' ↦ s'
      ])
