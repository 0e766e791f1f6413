-- ===== src/Relay/Registry.antt =====
-- src/relay/RelayRegistry.{h,cpp}: the nodes that a relay server knows, by node id. `now` is the
-- steady clock at the call; the mutex makes every call atomic. The log lines are left out.
pub mod Laws
use natt.Prelude.{
  ℕ, suc, ◌+◌, Bool, true, false, Option, none, some, List, [], ◌∷◌, Text, Dict, lookup, insert,
  erase, if◌then◌else◌, is_some, length,
}
use natt.Prelude.Int.{ℤ, leb_ℤ}
use natt.Clock.{elapsed_seconds}

-- `udp::endpoint`, by the text of its address.
pub record Endpoint : Type 0 where
  pub address : Text
  pub port : ℕ

pub record NodeEntry : Type 0 where
  pub endpoint : Endpoint
  pub network_id : Text
  pub last_seen : ℕ

abbrev pub Registry : Type 0
Registry = Dict NodeEntry

-- A node that is known gets the new endpoint, and keeps its network.
unfoldable pub register_node : ℕ → Text → Text → Endpoint → Registry → Registry × Bool
register_node now node_id network_id endpoint nodes = elim (lookup node_id nodes) [
  | some entry ↦
      (insert node_id (record entry { endpoint = endpoint; last_seen = now }) nodes, false)
  | none ↦ (
    insert node_id (record { endpoint = endpoint; network_id = network_id; last_seen = now }) nodes,
    true,
  )
]

unfoldable pub remove_node : Text → Registry → Registry
remove_node node_id nodes = elim (lookup node_id nodes) [
  | some _ ↦ erase node_id nodes
  | none ↦ nodes
]

unfoldable pub find_endpoint : Text → Registry → Option Endpoint
find_endpoint node_id nodes = elim (lookup node_id nodes) [
  | none ↦ none
  | some entry ↦ some entry.endpoint
]

unfoldable pub find_network_id : Text → Registry → Option Text
find_network_id node_id nodes = elim (lookup node_id nodes) [
  | none ↦ none
  | some entry ↦ some entry.network_id
]

unfoldable pub update_heartbeat : ℕ → Text → Registry → Registry
update_heartbeat now node_id nodes = elim (lookup node_id nodes) [
  | some entry ↦ insert node_id (record entry { last_seen = now }) nodes
  | none ↦ nodes
]

abbrev pub is_expired : ℕ → ℤ → NodeEntry → Bool
is_expired now timeout_seconds entry = leb_ℤ timeout_seconds (elapsed_seconds now entry.last_seen)

-- The loop over the map, which erases as it goes, and the number that it erased.
unfoldable pub cleanup_expired : ℕ → ℤ → Registry → Registry × ℕ
cleanup_expired now timeout_seconds [] = ([], 0)
cleanup_expired now timeout_seconds ((id, entry) ∷ nodes) =
    let (rest, removed) = cleanup_expired now timeout_seconds nodes in
    if is_expired now timeout_seconds entry
    then (rest, removed + 1)
    else ((id, entry) ∷ rest, removed)

unfoldable pub is_online : Text → Registry → Bool
is_online node_id nodes = is_some (lookup node_id nodes)

unfoldable pub size : Registry → ℕ
size nodes = length nodes
