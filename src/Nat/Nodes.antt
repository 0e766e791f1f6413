-- ===== src/Nat/Nodes.antt =====
-- src/nat/node_registry.{h,cpp}: the nodes of the control server, by node id. `now` is the system
-- clock at the call; the mutex makes every call atomic. The log lines and the JSON views are left out.
use natt.Prelude.{
  ℕ, ◌+◌, Bool, true, false, not, ◌&&◌, Option, none, some, List, [], ◌∷◌, if◌then◌else◌, is_empty,
  Text, txt, text_eq, Dict, lookup, insert, erase,
}
pub mod Life
pub mod Timeouts
mod Tests
use natt.Prelude.Int.{ℤ, pos, ltb_ℤ, leb_ℤ}
use natt.Clock.{elapsed_seconds}

pub record NodeInfo : Type 0 where
  pub node_id : Text
  pub network_id : Text
  pub public_key : Text
  pub public_ip : Text
  pub public_port : ℤ
  pub local_addrs : List Text
  pub virtual_ip : Text
  pub gateway_ip : Text
  pub subnet : Text
  pub online : Bool
  pub session_online : Bool
  pub connection_state : Text
  pub transport_mode : Text
  pub last_transport_rtt_ms : ℤ
  pub reconnect_count : ℕ
  pub last_disconnect_reason : Text
  pub last_seen : ℕ

abbrev pub Nodes : Type 0
Nodes = Dict NodeInfo

-- The initial values of the fields. The epoch is time 0.
abbrev pub fresh_node : NodeInfo
fresh_node = record {
  node_id = [];
  network_id = [];
  public_key = [];
  public_ip = [];
  public_port = pos 0;
  local_addrs = [];
  virtual_ip = [];
  gateway_ip = [];
  subnet = [];
  online = false;
  session_online = false;
  connection_state = txt "offline";
  transport_mode = txt "unknown";
  last_transport_rtt_ms = pos 0;
  reconnect_count = 0;
  last_disconnect_reason = [];
  last_seen = 0;
}

-- `nodes_[node_id]`, which makes the entry where there is none.
abbrev pub node_at : Text → Nodes → NodeInfo
node_at node_id nodes = elim (lookup node_id nodes) [ none ↦ fresh_node | some node ↦ node ]

-- What `registerNode` makes of the new data and of the entry that it finds.
unfoldable pub registered : ℕ → NodeInfo → NodeInfo → NodeInfo
registered now info node =
    let was_known = not (is_empty node.node_id) in
    let was_session_online = node.session_online in
    record info {
      online = true;
      session_online = true;
      connection_state = txt "online";
      last_disconnect_reason = [];
      last_seen = now;
      transport_mode =
          (if is_empty node.transport_mode then txt "unknown" else node.transport_mode);
      last_transport_rtt_ms = node.last_transport_rtt_ms;
      reconnect_count =
          node.reconnect_count + (if was_known && not was_session_online then 1 else 0);
    }

unfoldable pub register_node : ℕ → NodeInfo → Nodes → Nodes
register_node now info nodes =
    insert info.node_id (registered now info (node_at info.node_id nodes)) nodes

-- The entry of a node is changed in place, where there is one.
unfoldable pub with_node : Text → (NodeInfo → NodeInfo) → Nodes → Nodes
with_node node_id change nodes = elim (lookup node_id nodes) [
  | none ↦ nodes
  | some node ↦ insert node_id (change node) nodes
]

abbrev pub heartbeat : ℕ → NodeInfo → NodeInfo
heartbeat now node = record node {
  last_seen = now;
  online = true;
  connection_state =
      (if text_eq node.connection_state (txt "online")
        then node.connection_state
        else if node.session_online
        then txt "online"
        else txt "grace");
}

unfoldable pub update_heartbeat : ℕ → Text → Nodes → Nodes
update_heartbeat now node_id nodes = with_node node_id (heartbeat now) nodes

unfoldable pub update_address : ℕ → Text → Text → ℤ → List Text → Nodes → Nodes
update_address now node_id public_ip public_port local_addrs nodes =
    with_node node_id
      (λ node. record node {
        public_ip = public_ip;
        public_port = public_port;
        local_addrs = local_addrs;
        last_seen = now;
      })
      nodes

abbrev pub session_state : ℕ → Bool → Text → Text → NodeInfo → NodeInfo
session_state now session_online connection_state disconnect_reason node =
    let marked = record node {
      session_online = session_online;
      connection_state = connection_state;
      last_disconnect_reason =
          (if is_empty disconnect_reason then node.last_disconnect_reason else disconnect_reason);
    } in
    if session_online
    then record marked { online = true; last_disconnect_reason = []; last_seen = now }
    else marked

unfoldable pub update_session_state : ℕ → Text → Bool → Text → Text → Nodes → Nodes
update_session_state now node_id session_online connection_state disconnect_reason nodes =
    with_node node_id (session_state now session_online connection_state disconnect_reason) nodes

unfoldable pub update_transport_state : Text → Text → ℤ → Nodes → Nodes
update_transport_state node_id transport_mode rtt_ms nodes =
    with_node node_id
      (λ node. record node {
        transport_mode = transport_mode;
        last_transport_rtt_ms =
            (if ltb_ℤ (pos 0) rtt_ms then rtt_ms else node.last_transport_rtt_ms);
      })
      nodes

unfoldable pub find_node : Text → Nodes → Option NodeInfo
find_node node_id nodes = lookup node_id nodes

unfoldable pub list_network_nodes : Text → Nodes → List NodeInfo
list_network_nodes network_id [] = []
list_network_nodes network_id ((id, info) ∷ nodes) =
    let rest = list_network_nodes network_id nodes in
    if text_eq info.network_id network_id && info.session_online then info ∷ rest else rest

unfoldable pub list_all_nodes : Nodes → List NodeInfo
list_all_nodes [] = []
list_all_nodes ((id, info) ∷ nodes) = info ∷ list_all_nodes nodes

unfoldable pub remove_node : Text → Nodes → Nodes
remove_node node_id nodes = erase node_id nodes

unfoldable pub is_online : Text → Nodes → Bool
is_online node_id nodes = elim (lookup node_id nodes) [
  | none ↦ false
  | some node ↦ node.session_online
]

unfoldable pub online_count : Nodes → ℕ
online_count [] = 0
online_count ((id, info) ∷ nodes) =
    let rest = online_count nodes in if info.session_online then rest + 1 else rest

abbrev pub is_timed_out : ℕ → ℤ → NodeInfo → Bool
is_timed_out now timeout_sec info =
    info.online && leb_ℤ timeout_sec (elapsed_seconds now info.last_seen)

unfoldable pub find_timed_out_nodes : ℕ → ℤ → Nodes → List Text
find_timed_out_nodes now timeout_sec [] = []
find_timed_out_nodes now timeout_sec ((id, info) ∷ nodes) =
    let rest = find_timed_out_nodes now timeout_sec nodes in
    if is_timed_out now timeout_sec info then id ∷ rest else rest
