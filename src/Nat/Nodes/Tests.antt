-- ===== src/Nat/Nodes/Tests.antt =====
-- Runs of the node registry, and its theorems at inputs that meet their hypotheses.
use natt.Prelude.{
  ◌*◌, ◌≡◌, refl, false, none, some, List, [], ◌∷◌, txt, text_eq, lookup, insert, member,
}
use natt.Nat.Nodes.{
  NodeInfo, fresh_node, registered, register_node, with_node, update_session_state,
  find_timed_out_nodes,
}
use natt.Prelude.Int.{pos, leb_ℤ}
use natt.Clock.{second, elapsed_seconds}
use natt.Nat.Nodes.Life.{
  Call, registers, beats, sets_session, run, unknown, up, link_of, link_step, link_run, step, Fits,
  run_lem,
}
use natt.Nat.Nodes.Timeouts.{find_timed_out_nodes_lem}

abbrev laptop : NodeInfo
laptop = record fresh_node { node_id = txt "n1"; network_id = txt "home" }

-- A node comes, loses its session, beats while it is gone, and comes back.
abbrev calls : List Call
calls =
    registers (10 * second) laptop
    ∷ sets_session (20 * second) (txt "n1") false (txt "grace") (txt "ws_disconnected")
    ∷ beats (25 * second) (txt "n1")
    ∷ registers (30 * second) laptop
    ∷ []

count_run : link_run (txt "n1") calls unknown ≡ up 1
unfolding link_run link_step text_eq
count_run = refl

-- A disconnected node is reported as silent like any other.
silent_run :
    find_timed_out_nodes
      (60 * second)
      (pos 30)
      (run (registers 0 laptop ∷ sets_session 0 (txt "n1") false (txt "grace") [] ∷ []) [])
    ≡ txt "n1" ∷ []
unfolding find_timed_out_nodes run step register_node update_session_state with_node registered
    lookup insert text_eq
silent_run = refl

run_lem_example :
    (link_of (lookup (txt "n1") (run calls [])) ≡ link_run (txt "n1") calls unknown)
    × Fits (txt "n1") (lookup (txt "n1") (run calls []))
run_lem_example = run_lem (txt "n1") calls refl

find_timed_out_nodes_lem_example :
    member (txt "n1") (find_timed_out_nodes (60 * second) (pos 30) (run calls []))
    ≡ (elim (lookup (txt "n1") (run calls [])) [
      | none ↦ false
      | some info ↦ leb_ℤ (pos 30) (elapsed_seconds (60 * second) info.last_seen)
    ])
find_timed_out_nodes_lem_example =
    find_timed_out_nodes_lem (60 * second) (pos 30) (txt "n1") calls refl
