-- ===== src/Relay/Tests.antt =====
-- The relay at work on concrete messages, and its theorems at inputs that meet their hypotheses.
use natt.Prelude.{
  ℕ, ◌-◌, ◌*◌, ◌≡◌, refl, ◌⊎◌, true, false, not, none, some, List, [], ◌∷◌, ◌++◌, arith, ltb,
  if◌then◌else◌, Text, txt, text_eq, lookup, insert, IsMap,
}
use natt.Prelude.Int.{pos}
use natt.Clock.{second}
use natt.Relay.Registry.{
  Endpoint, NodeEntry, Registry, register_node, find_network_id, cleanup_expired, is_online,
}
use natt.Relay.Registry.Laws.{network_of, register_node_lem}
use natt.Relay.Server.{
  Datagram, Server, Completion, received, send_to, do_receive, do_cleanup, register_ok_payload,
  relay_packet, handle_receive,
}
use natt.Json.{is_utf8, utf8_from, are_utf8, dump_object}
use natt.Json.Plain.{plain, plain-IsJson}
use natt.Relay.Server.Packet.{Relayed, relay_packet-Relayed}
use natt.Relay.Server.Receive.{handle_receive_modest}
use natt.Relay.Server.History.{
  Event, completes, cleanup_fires, run, Alive, stays_registered, do_cleanup_lem,
}
use natt.Relay.Client.{send_relay_register, send_relay_packet, register_arrives, packet_arrives}

abbrev alice : NodeEntry
alice = record {
  endpoint = record { address = txt "192.0.2.1"; port = 40001 };
  network_id = txt "home";
  last_seen = 5 * second;
}

abbrev bob : NodeEntry
bob = record {
  endpoint = record { address = txt "192.0.2.2"; port = 40002 };
  network_id = txt "home";
  last_seen = 40 * second;
}

abbrev carol : Endpoint
carol = record { address = txt "192.0.2.3"; port = 40003 }

abbrev nodes : Registry
nodes = (txt "a", alice) ∷ (txt "b", bob) ∷ []

abbrev server : Server
server = record { registry = nodes; sent = []; receiving = true; cleanup_armed = true }

nodes-IsMap : IsMap nodes
unfolding lookup text_eq
nodes-IsMap = (refl, (refl, tt))

alice_found : lookup (txt "a") nodes ≡ some alice
unfolding lookup text_eq
alice_found = refl

bob_found : lookup (txt "b") nodes ≡ some bob
unfolding lookup text_eq
bob_found = refl

-- At 41 seconds only the second node is left.
cleanup_run : cleanup_expired (41 * second) (pos 30) nodes ≡ ((txt "b", bob) ∷ [], 1)
unfolding cleanup_expired
cleanup_run = refl

-- A node registers again from another network: it is told "ok" and stays in the first one.
register_again_run : (register_node (41 * second) (txt "a") (txt "office") carol nodes) ≡ (
  (txt "a", record alice { endpoint = carol; last_seen = 41 * second }) ∷ (txt "b", bob) ∷ [],
  false,
)
unfolding register_node lookup insert text_eq
register_again_run = refl

register_node_lem_example :
    ((register_node (41 * second) (txt "c") (txt "office") carol nodes).1
      ≡ not (is_online (txt "c") nodes))
    × ((j : Text)
        → lookup j (register_node (41 * second) (txt "c") (txt "office") carol nodes).0 ≡ (
            if text_eq (txt "c") j
            then some (record {
              endpoint = carol;
              network_id = network_of (txt "c") (txt "office") nodes;
              last_seen = 41 * second;
            })
            else lookup j nodes))
register_node_lem_example = register_node_lem (41 * second) (txt "c") (txt "office") carol nodes

relay_packet-Relayed_example :
    Relayed plain (txt "a") (txt "b") [] server (relay_packet plain (txt "a") (txt "b") [] server)
relay_packet-Relayed_example = relay_packet-Relayed plain (txt "a") (txt "b") [] server

handle_receive_modest_example :
    let t = handle_receive plain (41 * second) (received (txt "junk") carol) server in
    ((t.sent ≡ []) ⊎ ((d : Datagram) × (t.sent ≡ [] ++ d ∷ [])))
    × ((j net : Text)
        → find_network_id j nodes ≡ some net
        → find_network_id j t.registry ≡ some net)
    × (t.receiving ≡ true)
handle_receive_modest_example = handle_receive_modest plain (41 * second) (txt "junk") carol server

abbrev noise : List (ℕ × Event)
noise =
    (41 * second, completes (received (txt "junk") carol))
    ∷ (42 * second, cleanup_fires)
    ∷ (43 * second, completes Completion.failed)
    ∷ []

stays_registered_example :
    Alive (txt "b") (txt "home") (40 * second) (run plain noise server).registry
stays_registered_example =
    stays_registered plain noise server (txt "b") (txt "home") (40 * second) nodes-IsMap
      (bob, bob_found, refl, omega arith) (omega arith)

do_cleanup_lem_example :
    (lookup (txt "b") (do_cleanup (41 * second) server).registry ≡ (elim (lookup (txt "b") nodes) [
      | none ↦ none
      | some entry ↦ if ltb (41 * second - entry.last_seen) (30 * second) then some entry else none
    ]))
    × ((do_cleanup (41 * second) server).cleanup_armed ≡ true)
do_cleanup_lem_example = do_cleanup_lem (41 * second) server (txt "b") nodes-IsMap

plain_words :
    (is_utf8 (txt "a") ≡ true)
    × (is_utf8 (txt "b") ≡ true)
    × (is_utf8 (txt "c") ≡ true)
    × (is_utf8 (txt "home") ≡ true)
    × (is_utf8 (txt "tok") ≡ true)
    × (is_utf8 (txt "hello") ≡ true)
unfolding utf8_from
plain_words = (refl, refl, refl, refl, refl, refl)

-- A payload of raw bytes is not sent.
raw_run : send_relay_packet plain (txt "a") (txt "b") (pos 7) (255 ∷ []) ≡ none
unfolding send_relay_packet dump_object are_utf8 utf8_from
raw_run = refl

register_arrives_example :
    (payload : Text) × (send_relay_register plain (txt "c") (txt "home") (txt "tok") ≡ some payload)
    × (handle_receive plain (41 * second) (received payload carol) server
        ≡ do_receive (
            send_to (register_ok_payload plain (txt "c")) carol (record server {
              registry = (register_node (41 * second) (txt "c") (txt "home") carol nodes).0;
            })))
register_arrives_example =
    register_arrives plain plain-IsJson (41 * second) (txt "c") (txt "home") (txt "tok") carol
      server (λ e. cc) (λ e. cc) (λ e. cc) plain_words.2 plain_words.3 plain_words.4

packet_arrives_example :
    (payload : Text) × (send_relay_packet plain (txt "a") (txt "b") (pos 7) (txt "hello")
      ≡ some payload)
    × (handle_receive plain (41 * second) (received payload carol) server
        ≡ do_receive (send_to payload bob.endpoint server))
packet_arrives_example =
    packet_arrives plain plain-IsJson (41 * second) (txt "a") (txt "b") (pos 7) (txt "hello") carol
      server alice bob (λ e. cc) (λ e. cc) plain_words.0 plain_words.1 plain_words.5 alice_found
      bob_found refl
