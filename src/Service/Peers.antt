-- ===== src/Service/Peers.antt =====
-- src/service/peer_manager.cpp: the sessions that are online by node id, the call that makes two nodes
-- punch to each other, and the peer lists. The sessions lie in a store, as in natt.Nat.Sessions; `dump` is
-- that of the JSON library.
pub mod Calls
use natt.Prelude.{
  Dict, lookup, insert, erase, ℕ, Bool, Option, none, some, List, [], ◌∷◌, is_some, length, Text,
  txt,
}
use natt.Json.Values.{Value, string, array, object, Values, nil, item, end, field}
use natt.Ws.Device.{Device, to_peer_json}
use natt.Ws.Session.{send_json}
use natt.Nat.Sessions.{Store, call_at}

pub record PeerManager : Type 0 where
  pub sessions : Dict ℕ
  pub store : Store

unfoldable pub register_session : Text → ℕ → PeerManager → PeerManager
register_session node_id session m = record m { sessions = insert node_id session m.sessions }

unfoldable pub unregister_session : Text → PeerManager → PeerManager
unregister_session node_id m = record m { sessions = erase node_id m.sessions }

unfoldable pub get_session : Text → PeerManager → Option ℕ
get_session node_id m = lookup node_id m.sessions

unfoldable pub is_online : Text → PeerManager → Bool
is_online node_id m = is_some (lookup node_id m.sessions)

unfoldable pub online_count : PeerManager → ℕ
online_count m = length m.sessions

abbrev pub punch_start : Text → Device → Value
punch_start direction peer = object (
    field (txt "type") (string (txt "punch_start"))
      (field (txt "direction") (string direction) (field (txt "peer") (to_peer_json peer) end)))

-- The peers of a message, in their order.
unfoldable pub peer_values : List Device → Values
peer_values [] = nil
peer_values (peer ∷ peers) = item (to_peer_json peer) (peer_values peers)

abbrev pub peer_list : List Device → Value
peer_list peers = object (
    field (txt "type") (string (txt "peer_list"))
      (field (txt "peers") (array (peer_values peers)) end))

module _ (dump : Value → Text) where
  -- `session->send_json(value.dump())`
  abbrev pub send_value : ℕ → Value → Store → Store
  send_value session value store = call_at session (send_json (dump value)) store

  -- The error, or the empty text.
  unfoldable pub handle_connect_peer : Text → Text → PeerManager → PeerManager × Text
  handle_connect_peer requester_node_id target_node_id m = elim (get_session requester_node_id m) [
    | none ↦ (m, txt "Requester device is not online")
    | some requester ↦ elim (get_session target_node_id m) [
      | none ↦ (m, txt "Target device is not online")
      | some target ↦ elim (m.store target).device_info [
        | none ↦ (m, txt "Target device info not available")
        | some target_device ↦ elim (m.store requester).device_info [
          | none ↦ (m, txt "Requester device info not available")
          | some requester_device ↦
              let told =
                send_value requester (punch_start (txt "outgoing") target_device) m.store in
              (
                record m {
                  store = send_value target (punch_start (txt "incoming") requester_device) told;
                },
                [],
              )
        ]
      ]
    ]
  ]

  -- Every session gets the peers of its own node.
  unfoldable pub send_lists : (Text → List Device) → Dict ℕ → Store → Store
  send_lists get_peers [] store = store
  send_lists get_peers ((node_id, session) ∷ sessions) store =
      send_lists get_peers sessions (send_value session (peer_list (get_peers node_id)) store)

  -- The node that has changed is not used.
  unfoldable pub broadcast_peer_list : Text → (Text → List Device) → PeerManager → PeerManager
  broadcast_peer_list changed_node_id get_peers m = record m {
    store = send_lists get_peers m.sessions m.store;
  }
