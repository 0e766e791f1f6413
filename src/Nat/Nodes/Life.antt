-- ===== src/Nat/Nodes/Life.antt =====
-- Every sequence of calls of the node registry, seen from one node.
use natt.Prelude.{
  ℕ, ◌+◌, ◌≡◌, refl, ap, ◌∙◌, inl, inr, Bool, true, false, Option, none, some, List, [], ◌∷◌, arith,
  if◌then◌else◌, Bool-cases, Option-cases, is_empty, Text, text_eq, eq_iff, lookup, IsMap,
  lookup-insert, lookup-erase, insert-IsMap, erase-IsMap,
}
use natt.Nat.Nodes.{
  NodeInfo, Nodes, node_at, registered, register_node, with_node, heartbeat, update_heartbeat,
  update_address, session_state, update_session_state, update_transport_state, remove_node,
}
use natt.Prelude.Int.{ℤ, pos, ltb_ℤ}

pub data Call : Type 0 where
  registers : ℕ → NodeInfo → Call
  beats : ℕ → Text → Call
  readdresses : ℕ → Text → Text → ℤ → List Text → Call
  sets_session : ℕ → Text → Bool → Text → Text → Call
  sets_transport : Text → Text → ℤ → Call
  removes : Text → Call

unfoldable pub step : Call → Nodes → Nodes
step (registers now info) nodes = register_node now info nodes
step (beats now id) nodes = update_heartbeat now id nodes
step (readdresses now id ip port addrs) nodes = update_address now id ip port addrs nodes
step (sets_session now id on state reason) nodes = update_session_state now id on state reason nodes
step (sets_transport id mode rtt) nodes = update_transport_state id mode rtt nodes
step (removes id) nodes = remove_node id nodes

unfoldable pub run : List Call → Nodes → Nodes
run [] nodes = nodes
run (c ∷ cs) nodes = run cs (step c nodes)

pub lookup-with_node :
    (id j : Text) (f : NodeInfo → NodeInfo) (nodes : Nodes)
    → lookup j (with_node id f nodes) ≡ (elim (lookup j nodes) [
      | none ↦ none
      | some node ↦ some (if text_eq id j then f node else node)
    ])
unfolding with_node
lookup-with_node id j f nodes = elim (Option-cases (lookup id nodes)) [
  | inl e ↦ ground (arith, e, eq_iff id j)
  | inr (node, e) ↦ ground (arith, e, eq_iff id j, lookup-insert id j (f node) nodes)
]

-- Every call keeps one entry to an id.
pub with_node-IsMap :
    (id : Text) (f : NodeInfo → NodeInfo) (nodes : Nodes)
    → IsMap nodes
    → IsMap (with_node id f nodes)
unfolding with_node
with_node-IsMap id f nodes h = elim (Option-cases (lookup id nodes)) [
  | inl e ↦ rw (e, with_node) h
  | inr (node, e) ↦ rw (e, with_node) (insert-IsMap id (f node) nodes h)
]

pub step-IsMap : (c : Call) (nodes : Nodes) → IsMap nodes → IsMap (step c nodes)
unfolding step register_node update_heartbeat update_address update_session_state
    update_transport_state remove_node
step-IsMap (registers now info) nodes h =
    insert-IsMap info.node_id (registered now info (node_at info.node_id nodes)) nodes h
step-IsMap (beats now id) nodes h = with_node-IsMap id _ nodes h
step-IsMap (readdresses now id ip port addrs) nodes h = with_node-IsMap id _ nodes h
step-IsMap (sets_session now id on state reason) nodes h = with_node-IsMap id _ nodes h
step-IsMap (sets_transport id mode rtt) nodes h = with_node-IsMap id _ nodes h
step-IsMap (removes id) nodes h = erase-IsMap id nodes h

pub run-IsMap : (cs : List Call) (nodes : Nodes) → IsMap nodes → IsMap (run cs nodes)
unfolding run
run-IsMap [] nodes h = h
run-IsMap (c ∷ cs) nodes h = run-IsMap cs (step c nodes) (step-IsMap c nodes h)

-- A node on the outside: not known, connected or disconnected, and how often it has come back.
pub data Link : Type 0 where
  unknown : Link
  up : ℕ → Link
  down : ℕ → Link

abbrev pub link_of : Option NodeInfo → Link
link_of none = unknown
link_of (some node) =
    if node.session_online then up node.reconnect_count else down node.reconnect_count

abbrev pub set_link : Bool → Link → Link
set_link on unknown = unknown
set_link on (up n) = if on then up n else down n
set_link on (down n) = if on then up n else down n

-- A registration counts where it finds the node disconnected.
abbrev pub connect : Link → Link
connect unknown = up 0
connect (up n) = up n
connect (down n) = up (n + 1)

unfoldable pub link_step : Text → Call → Link → Link
link_step id (registers now info) l = if text_eq info.node_id id then connect l else l
link_step id (beats now j) l = l
link_step id (readdresses now j ip port addrs) l = l
link_step id (sets_session now j on state reason) l = if text_eq j id then set_link on l else l
link_step id (sets_transport j mode rtt) l = l
link_step id (removes j) l = if text_eq j id then unknown else l

unfoldable pub link_run : Text → List Call → Link → Link
link_run id [] l = l
link_run id (c ∷ cs) l = link_run id cs (link_step id c l)

-- An entry holds its own id, and its flag `online` is set: no call ever clears it.
abbrev pub Fits : Text → Option NodeInfo → Type 0
Fits id none = Unit
Fits id (some node) = (node.node_id ≡ id) × (node.online ≡ true)

lookup-register_node :
    (now : ℕ) (info : NodeInfo) (j : Text) (nodes : Nodes)
    → lookup j (register_node now info nodes) ≡ (
        if text_eq info.node_id j
        then some (registered now info (node_at info.node_id nodes))
        else lookup j nodes)
unfolding register_node
lookup-register_node now info j nodes =
    lookup-insert info.node_id j (registered now info (node_at info.node_id nodes)) nodes

step-link_of :
    (id : Text) (c : Call) (nodes : Nodes)
    → is_empty id ≡ false
    → Fits id (lookup id nodes)
    → link_of (lookup id (step c nodes)) ≡ link_step id c (link_of (lookup id nodes))
unfolding step link_step update_heartbeat update_address update_session_state update_transport_state
    remove_node registered
step-link_of id (registers now info) nodes ne h =
    ground (arith, lookup-register_node now info id nodes, eq_iff info.node_id id)
step-link_of id (beats now j) nodes ne h =
    ground (arith, lookup-with_node j id (heartbeat now) nodes)
step-link_of id (readdresses now j ip port addrs) nodes ne h = ground (
  arith,
  lookup-with_node j id
      (λ node. record node {
        public_ip = ip;
        public_port = port;
        local_addrs = addrs;
        last_seen = now;
      })
      nodes,
)
step-link_of id (sets_session now j on state reason) nodes ne h =
    ground (arith, lookup-with_node j id (session_state now on state reason) nodes)
step-link_of id (sets_transport j mode rtt) nodes ne h = ground (
  arith,
  lookup-with_node j id
      (λ node. record node {
        transport_mode = mode;
        last_transport_rtt_ms = (if ltb_ℤ (pos 0) rtt then rtt else node.last_transport_rtt_ms);
      })
      nodes,
)
step-link_of id (removes j) nodes ne h = ground (arith, lookup-erase j id nodes)

with_node-Fits :
    (id j : Text) (f : NodeInfo → NodeInfo) (nodes : Nodes)
    → ((node : NodeInfo) → Fits id (some node) → Fits id (some (f node)))
    → Fits id (lookup id nodes)
    → Fits id (lookup id (with_node j f nodes))
with_node-Fits id j f nodes keeps h = rw (lookup-with_node j id f nodes) (kept (lookup id nodes) h)
  where
    kept :
        (o : Option NodeInfo)
        → Fits id o
        → Fits id
            (elim o [ none ↦ none | some node ↦ some (if text_eq j id then f node else node) ])
    kept none h = tt
    kept (some node) h = elim (Bool-cases (text_eq j id)) [
      | inl hit ↦ rw hit (keeps node h)
      | inr miss ↦ rw miss h
    ]

step-Fits :
    (id : Text) (c : Call) (nodes : Nodes)
    → Fits id (lookup id nodes)
    → Fits id (lookup id (step c nodes))
unfolding step update_heartbeat update_address update_session_state update_transport_state
    remove_node registered
step-Fits id (registers now info) nodes h =
    rw (lookup-register_node now info id nodes) (elim (Bool-cases (text_eq info.node_id id)) [
      | inl hit ↦ rw hit (ground (arith, hit, eq_iff info.node_id id), refl)
      | inr miss ↦ rw miss h
    ])
step-Fits id (beats now j) nodes h = with_node-Fits id j _ nodes (λ node g. (g.0, refl)) h
step-Fits id (readdresses now j ip port addrs) nodes h = with_node-Fits id j _ nodes (λ node g. g) h
step-Fits id (sets_session now j on state reason) nodes h =
    with_node-Fits id j _ nodes (λ node g. ground arith) h
step-Fits id (sets_transport j mode rtt) nodes h = with_node-Fits id j _ nodes (λ node g. g) h
step-Fits id (removes j) nodes h =
    rw (lookup-erase j id nodes)
      (elim (Bool-cases (text_eq j id)) [ inl hit ↦ rw hit tt | inr miss ↦ rw miss h ])

run-link_of :
    (id : Text) (cs : List Call) (nodes : Nodes)
    → is_empty id ≡ false
    → Fits id (lookup id nodes)
    → (link_of (lookup id (run cs nodes)) ≡ link_run id cs (link_of (lookup id nodes)))
      × Fits id (lookup id (run cs nodes))
unfolding run link_run
run-link_of id [] nodes ne h = (refl, h)
run-link_of id (c ∷ cs) nodes ne h =
    let rest = run-link_of id cs (step c nodes) ne (step-Fits id c nodes h) in
    (rest.0 ∙ ap (link_run id cs) (step-link_of id c nodes ne h), rest.1)

-- After any calls on an empty registry, an id that is not empty is unknown, connected or
-- disconnected exactly as the outside view counts it, with that many reconnects; its entry, if there
-- is one, holds the id and is flagged `online`, also while its session is gone.
pub run_lem :
    (id : Text) (cs : List Call)
    → is_empty id ≡ false
    → (link_of (lookup id (run cs [])) ≡ link_run id cs unknown) × Fits id (lookup id (run cs []))
unfolding lookup
run_lem id cs ne = run-link_of id cs [] ne tt
