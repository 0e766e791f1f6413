-- ===== src/Relay/Registry/Laws.antt =====
-- What each call of the registry does to every entry.
use natt.Prelude.{
  ℕ, ◌+◌, ◌≡◌, refl, ◌⊎◌, inl, inr, not, Option, none, some, [], ◌∷◌, arith, if◌then◌else◌,
  Bool-cases, Option-cases, Text, text_eq, eq_of_text_eq, eq_iff, lookup, IsMap, lookup-insert,
  lookup-erase,
}
use natt.Prelude.Int.{ℤ}
use natt.Relay.Registry.{
  Endpoint, NodeEntry, Registry, register_node, remove_node, update_heartbeat, is_expired,
  cleanup_expired, is_online, size,
}

-- The network that an id is registered in from now on: the one of its first registration.
abbrev pub network_of : Text → Text → Registry → Text
network_of node_id network_id nodes = elim (lookup node_id nodes) [
  | none ↦ network_id
  | some entry ↦ entry.network_id
]

-- A registration reports whether the id is new, sets the endpoint and the time of that id, keeps
-- the network of an id that is known, and touches no other entry.
pub register_node_lem :
    (now : ℕ) (id net : Text) (ep : Endpoint) (nodes : Registry)
    → ((register_node now id net ep nodes).1 ≡ not (is_online id nodes))
      × ((j : Text)
          → lookup j (register_node now id net ep nodes).0 ≡ (
              if text_eq id j
              then some
                  (record { endpoint = ep; network_id = network_of id net nodes; last_seen = now })
              else lookup j nodes))
unfolding register_node is_online
register_node_lem now id net ep nodes =
    (ground arith, λ j. registered j (Option-cases (lookup id nodes)))
  where
    registered :
        (j : Text)
        → (lookup id nodes ≡ none) ⊎ ((a : NodeEntry) × (lookup id nodes ≡ some a))
        → lookup j (register_node now id net ep nodes).0 ≡ (
            if text_eq id j
            then some
                (record { endpoint = ep; network_id = network_of id net nodes; last_seen = now })
            else lookup j nodes)
    registered j (inl e) = ground (
      arith,
      e,
      lookup-insert id j (record { endpoint = ep; network_id = net; last_seen = now }) nodes,
    )
    registered j (inr (entry, e)) =
        ground
          (arith, e, lookup-insert id j (record entry { endpoint = ep; last_seen = now }) nodes)

pub lookup-update_heartbeat :
    (now : ℕ) (id j : Text) (nodes : Registry)
    → lookup j (update_heartbeat now id nodes) ≡ (elim (lookup j nodes) [
      | none ↦ none
      | some entry ↦ some (if text_eq id j then record entry { last_seen = now } else entry)
    ])
unfolding update_heartbeat
lookup-update_heartbeat now id j nodes = elim (Option-cases (lookup id nodes)) [
  | inl e ↦ ground (arith, e, eq_iff id j)
  | inr (entry, e) ↦
      ground (arith, e, eq_iff id j, lookup-insert id j (record entry { last_seen = now }) nodes)
]

pub lookup-remove_node :
    (id j : Text) (nodes : Registry)
    → lookup j (remove_node id nodes) ≡ (if text_eq id j then none else lookup j nodes)
unfolding remove_node
lookup-remove_node id j nodes = ground (arith, eq_iff id j, lookup-erase id j nodes)

-- What the sweep leaves of an entry.
abbrev pub swept : ℕ → ℤ → Option NodeEntry → Option NodeEntry
swept now timeout none = none
swept now timeout (some entry) = if is_expired now timeout entry then none else some entry

pub lookup-cleanup_expired :
    (now : ℕ) (timeout : ℤ) (j : Text) (nodes : Registry)
    → IsMap nodes
    → lookup j (cleanup_expired now timeout nodes).0 ≡ swept now timeout (lookup j nodes)
unfolding cleanup_expired lookup
lookup-cleanup_expired now timeout j [] h = refl
lookup-cleanup_expired now timeout j ((id, entry) ∷ nodes) h =
    elim (Bool-cases (is_expired now timeout entry)) [
      | inl old ↦ rw old (elim (Bool-cases (text_eq id j)) [
        | inl hit ↦ rw (
          hit,
          old,
          lookup-cleanup_expired now timeout j nodes h.1,
          ← eq_of_text_eq id j hit,
          h.0,
        )
        | inr miss ↦ rw miss (lookup-cleanup_expired now timeout j nodes h.1)
      ])
      | inr young ↦ rw young (elim (Bool-cases (text_eq id j)) [
        | inl hit ↦ rw (hit, young)
        | inr miss ↦ rw miss (lookup-cleanup_expired now timeout j nodes h.1)
      ])
    ]

pub cleanup_expired-IsMap :
    (now : ℕ) (timeout : ℤ) (nodes : Registry)
    → IsMap nodes
    → IsMap (cleanup_expired now timeout nodes).0
unfolding cleanup_expired
cleanup_expired-IsMap now timeout [] h = tt
cleanup_expired-IsMap now timeout ((id, entry) ∷ nodes) h =
    elim (Bool-cases (is_expired now timeout entry)) [
      | inl old ↦ rw old (cleanup_expired-IsMap now timeout nodes h.1)
      | inr young ↦ rw young (
        rw (lookup-cleanup_expired now timeout id nodes h.1, h.0),
        cleanup_expired-IsMap now timeout nodes h.1,
      )
    ]

pub size-cleanup_expired :
    (now : ℕ) (timeout : ℤ) (nodes : Registry)
    → size (cleanup_expired now timeout nodes).0 + (cleanup_expired now timeout nodes).1
      ≡ size nodes
unfolding cleanup_expired size
size-cleanup_expired now timeout [] = refl
size-cleanup_expired now timeout ((id, entry) ∷ nodes) =
    elim (Bool-cases (is_expired now timeout entry)) [
      | inl old ↦ rw old (omega (arith, size-cleanup_expired now timeout nodes))
      | inr young ↦ rw young (omega (arith, size-cleanup_expired now timeout nodes))
    ]
