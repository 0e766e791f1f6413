-- ===== src/Nat/Nodes/Timeouts.antt =====
-- The search for the nodes that have been silent for too long.
use natt.Prelude.{
  ℕ, ◌+◌, ◌*◌, ◌≤◌, ◌<◌, ◌≡◌, refl, inl, inr, false, Option, none, some, List, [], ◌∷◌, arith,
  if◌then◌else◌, Bool-cases, is_empty, Text, text_eq, text_eq_refl, eq_of_text_eq, lookup, IsMap,
  member,
}
use natt.Nat.Nodes.{
  NodeInfo, Nodes, with_node, heartbeat, update_heartbeat, is_timed_out, find_timed_out_nodes,
}
use natt.Prelude.Int.{ℤ, pos, leb_ℤ}
use natt.Clock.{second, elapsed_seconds}
use mathlib.Core.Path.{subst}
use natt.Nat.Nodes.Life.{Call, run, run-IsMap, run_lem, Fits, lookup-with_node, with_node-IsMap}

pub member-find_timed_out_nodes :
    (now : ℕ) (timeout : ℤ) (id : Text) (nodes : Nodes)
    → IsMap nodes
    → member id (find_timed_out_nodes now timeout nodes)
      ≡ (elim (lookup id nodes) [ none ↦ false | some info ↦ is_timed_out now timeout info ])
unfolding find_timed_out_nodes lookup member
member-find_timed_out_nodes now timeout id [] h = refl
member-find_timed_out_nodes now timeout id ((j, info) ∷ nodes) h =
    elim (Bool-cases (is_timed_out now timeout info)) [
      | inl old ↦ rw old (elim (Bool-cases (text_eq j id)) [
        | inl hit ↦ rw (hit, old) refl
        | inr miss ↦ rw miss (member-find_timed_out_nodes now timeout id nodes h.1)
      ])
      | inr young ↦ rw young (elim (Bool-cases (text_eq j id)) [
        | inl hit ↦
            rw
              (
                hit,
                young,
                member-find_timed_out_nodes now timeout id nodes h.1,
                subst (λ (x : Text). lookup x nodes ≡ none) (eq_of_text_eq j id hit) h.0,
              )
              refl
        | inr miss ↦ rw miss (member-find_timed_out_nodes now timeout id nodes h.1)
      ])
    ]

-- Once any calls have been made on an empty registry, the search reports exactly the nodes that were
-- seen last at least the timeout ago, whether their session is open or gone.
pub find_timed_out_nodes_lem :
    (now : ℕ) (timeout : ℤ) (id : Text) (cs : List Call)
    → is_empty id ≡ false
    → member id (find_timed_out_nodes now timeout (run cs [])) ≡ (elim (lookup id (run cs [])) [
      | none ↦ false
      | some info ↦ leb_ℤ timeout (elapsed_seconds now info.last_seen)
    ])
find_timed_out_nodes_lem now timeout id cs ne =
    rw (member-find_timed_out_nodes now timeout id (run cs []) (run-IsMap cs [] tt))
      (flagged (lookup id (run cs [])) (run_lem id cs ne).1)
  where
    flagged :
        (o : Option NodeInfo)
        → Fits id o
        → (elim o [ none ↦ false | some info ↦ is_timed_out now timeout info ]) ≡ (elim o [
          | none ↦ false
          | some info ↦ leb_ℤ timeout (elapsed_seconds now info.last_seen)
        ])
    flagged none h = refl
    flagged (some info) h = ground (arith, h.1)

-- From a heartbeat on, for less than the timeout, a node is not on the list of the silent ones.
pub heartbeat_in_time :
    (seen now : ℕ) (timeout : ℕ) (id : Text) (nodes : Nodes)
    → IsMap nodes
    → seen ≤ now
    → now < seen + timeout * second
    → member id (find_timed_out_nodes now (pos timeout) (update_heartbeat seen id nodes)) ≡ false
unfolding update_heartbeat
heartbeat_in_time seen now timeout id nodes h since soon =
    rw
      (
        member-find_timed_out_nodes now (pos timeout) id beaten
            (with_node-IsMap id (heartbeat seen) nodes h),
        lookup-with_node id id (heartbeat seen) nodes,
      )
      (young (lookup id nodes))
  where
    beaten : Nodes
    beaten = with_node id (heartbeat seen) nodes

    idle : leb_ℤ (pos timeout) (elapsed_seconds now seen) ≡ false
    idle = ground arith

    young :
        (o : Option NodeInfo)
        → (let p : Option NodeInfo = elim o [
          | none ↦ none
          | some node ↦ some (if text_eq id id then heartbeat seen node else node)
        ] in
            elim p [ none ↦ false | some info ↦ is_timed_out now (pos timeout) info ])
          ≡ false
    young none = refl
    young (some node) = ground (arith, idle, text_eq_refl id)
