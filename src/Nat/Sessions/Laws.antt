-- ===== src/Nat/Sessions/Laws.antt =====
-- Who receives a message, and which session a node has.
use natt.Prelude.{
  ℕ, zero, suc, ◌≡◌, refl, sym, ap, ◌∙◌, inl, inr, Bool, true, false, ◌&&◌, Option, none, some, [],
  ◌∷◌, ◌==◌, if◌then◌else◌, Bool-cases, is_some, Text, text_eq, eq_of_text_eq, Dict, lookup, IsMap,
  lookup-insert,
}
use natt.Nat.Sessions.{
  Store, call_at, SessionManager, register_session, get_session, has_session, send_each,
  send_message, broadcast_if,
}
use natt.Ws.Session.{Session, send_json, mark_stale}
use mathlib.Core.Path.{subst}
use natt.Json.{JsonLib}

abbrev pub repeat : ℕ → (Session → Session) → Session → Session
repeat zero f s = s
repeat (suc n) f s = repeat n f (f s)

-- The number of entries that pass the filter and lead to the session.
unfoldable pub targets : (Text → Bool) → ℕ → Dict ℕ → ℕ
targets filter q [] = 0
targets filter q ((id, session) ∷ sessions) =
    let rest = targets filter q sessions in if filter id && session == q then suc rest else rest

send_each-repeat :
    (filter : Text → Bool) (payload : Text) (sessions : Dict ℕ) (store : Store) (q : ℕ)
    → send_each filter payload sessions store q
      ≡ repeat (targets filter q sessions) (send_json payload) (store q)
unfolding send_each targets call_at
send_each-repeat filter payload [] store q = refl
send_each-repeat filter payload ((id, p) ∷ sessions) store q = elim (Bool-cases (filter id)) [
  | inl picked ↦ elim (Bool-cases (p == q)) [
    | inl hit ↦
        rw (picked, hit)
          (send_each-repeat filter payload sessions (call_at p (send_json payload) store) q
            ∙ rw hit refl)
    | inr miss ↦
        rw (picked, miss)
          (send_each-repeat filter payload sessions (call_at p (send_json payload) store) q
            ∙ rw miss refl)
  ]
  | inr left ↦ rw left (send_each-repeat filter payload sessions store q)
]

abbrev named_target : ℕ → Option ℕ → ℕ
named_target q none = 0
named_target q (some p) = if p == q then 1 else 0

targets-named :
    (node_id : Text) (q : ℕ) (sessions : Dict ℕ)
    → IsMap sessions
    → targets (λ j. text_eq j node_id) q sessions ≡ named_target q (lookup node_id sessions)
unfolding targets lookup
targets-named node_id q [] h = refl
targets-named node_id q ((id, p) ∷ sessions) h = elim (Bool-cases (text_eq id node_id)) [
  | inl hit ↦
      rw
        (
          hit,
          targets-named node_id q sessions h.1,
          subst (λ (x : Text). lookup x sessions ≡ none) (eq_of_text_eq id node_id hit) h.0,
        )
        refl
  | inr miss ↦ rw miss (targets-named node_id q sessions h.1)
]

-- A message for one node is a broadcast to the nodes of that name; there is at most one, and the
-- result says whether there is one. A broadcast to a filter sends the message to every session as
-- often as there are nodes that pass the filter and have that session, and does nothing else.
pub broadcast_if_lem :
    (lib : JsonLib) (msg : lib.Json) (filter : Text → Bool) (node_id : Text) (m : SessionManager)
    → IsMap m.sessions
    → ((q : ℕ)
        → (broadcast_if lib msg filter m).store q
          ≡ repeat (targets filter q m.sessions) (send_json (lib.dump msg)) (m.store q))
      × ((q : ℕ)
          → (send_message lib node_id msg m).0.store q
            ≡ (broadcast_if lib msg (λ j. text_eq j node_id) m).store q)
      × ((send_message lib node_id msg m).1 ≡ has_session node_id m)
unfolding broadcast_if send_message get_session has_session call_at
broadcast_if_lem lib msg filter node_id m h = (
  (λ q. send_each-repeat filter (lib.dump msg) m.sessions m.store q),
  (λ q.
      one q (lookup node_id m.sessions)
      ∙ ap (λ (n : ℕ). repeat n (send_json (lib.dump msg)) (m.store q))
          (sym (targets-named node_id q m.sessions h))
      ∙ sym (send_each-repeat (λ j. text_eq j node_id) (lib.dump msg) m.sessions m.store q)),
  told (lookup node_id m.sessions),
)
  where
    sent : Option ℕ → SessionManager × Bool
    sent o = elim o [
      | none ↦ (m, false)
      | some session ↦
          (record m { store = call_at session (send_json (lib.dump msg)) m.store }, true)
    ]

    one :
        (q : ℕ) (o : Option ℕ)
        → (sent o).0.store q ≡ repeat (named_target q o) (send_json (lib.dump msg)) (m.store q)
    one q none = refl
    one q (some p) = elim (Bool-cases (p == q)) [ inl hit ↦ rw hit refl | inr miss ↦ rw miss refl ]

    told : (o : Option ℕ) → (sent o).1 ≡ is_some o
    told none = refl
    told (some p) = refl

-- A node that gets a session has it from then on, and the session that it had before is stale; the
-- sessions of the other nodes, and all other objects, are as they were.
pub register_session_lem :
    (node_id j : Text) (p q : ℕ) (m : SessionManager)
    → (get_session j (register_session node_id p m)
        ≡ (if text_eq node_id j then some p else get_session j m))
      × ((register_session node_id p m).store q ≡ (elim (get_session node_id m) [
        | none ↦ m.store q
        | some old ↦ if old == q then mark_stale (m.store q) else m.store q
      ]))
unfolding register_session get_session call_at
register_session_lem node_id j p q m =
    (lookup-insert node_id j p m.sessions, marked (lookup node_id m.sessions))
  where
    marked :
        (o : Option ℕ)
        → (let store : Store = elim o [
          | none ↦ m.store
          | some old ↦ call_at old mark_stale m.store
        ] in
            store q)
          ≡ (elim o [
            | none ↦ m.store q
            | some old ↦ if old == q then mark_stale (m.store q) else m.store q
          ])
    marked none = refl
    marked (some old) = refl
