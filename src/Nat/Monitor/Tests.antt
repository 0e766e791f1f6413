-- ===== src/Nat/Monitor/Tests.antt =====
-- The monitor over a small registry.
use natt.Prelude.{◌*◌, ◌≡◌, refl, true, false, none, [], ◌∷◌, txt, text_eq, lookup, IsMap}
use natt.Prelude.Int.{pos}
use natt.Clock.{second}
use natt.Nat.Nodes.{Nodes, fresh_node}
use natt.Nat.Monitor.{Monitor, start, stop, do_check, registry_monitor, monitor_lem}

abbrev nodes : Nodes
nodes =
    (txt "old", record fresh_node { node_id = txt "old"; online = true; last_seen = 10 * second })
    ∷ (txt "new", record fresh_node { node_id = txt "new"; online = true; last_seen = 50 * second })
    ∷ []

abbrev monitor : Monitor Nodes
monitor = record { running = false; timer_armed = false; online_check = none; timeout_cb = none }

nodes-IsMap : IsMap nodes
unfolding lookup text_eq
nodes-IsMap = (refl, (refl, tt))

monitor_lem_example :
    (lookup (txt "old") (start Nodes (registry_monitor (60 * second) (pos 30) monitor) nodes).1
      ≡ none)
    × ((start Nodes (registry_monitor (60 * second) (pos 30) monitor) nodes).0.timer_armed ≡ true)
    × (do_check Nodes (stop Nodes monitor) nodes ≡ (stop Nodes monitor, nodes))
unfolding lookup text_eq
monitor_lem_example = monitor_lem (60 * second) (pos 30) (txt "old") monitor nodes nodes-IsMap
