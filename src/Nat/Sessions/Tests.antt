-- ===== src/Nat/Sessions/Tests.antt =====
-- The session manager at work, and its theorems at inputs that meet their hypotheses.
use natt.Prelude.{ℕ, ◌≡◌, refl, true, some, [], ◌∷◌, txt, text_eq, lookup, IsMap}
use natt.Nat.Sessions.{
  call_at, SessionManager, register_session, get_session, has_session, send_message, broadcast_if,
}
use natt.Ws.Session.{send_json, mark_stale, created}
use natt.Json.Plain.{plain, plain_dump}
use natt.Nat.Sessions.Laws.{repeat, targets, broadcast_if_lem, register_session_lem}

abbrev manager : SessionManager
manager = record { sessions = (txt "n1", 1) ∷ (txt "n2", 2) ∷ []; store = λ p. created p }

manager-IsMap : IsMap manager.sessions
unfolding lookup text_eq
manager-IsMap = (refl, (refl, tt))

-- A new session of a node makes the old one stale.
reconnect-run : ((register_session (txt "n1") 3 manager).store 1).stale ≡ true
unfolding register_session lookup text_eq call_at mark_stale created
reconnect-run = refl

broadcast_if_lem_example :
    ((q : ℕ)
      → (broadcast_if plain [] (λ j. text_eq j (txt "n2")) manager).store q
        ≡ repeat
            (targets (λ j. text_eq j (txt "n2")) q manager.sessions)
            (send_json (plain_dump []))
            (created q))
    × ((q : ℕ)
        → (send_message plain (txt "n1") [] manager).0.store q
          ≡ (broadcast_if plain [] (λ j. text_eq j (txt "n1")) manager).store q)
    × ((send_message plain (txt "n1") [] manager).1 ≡ has_session (txt "n1") manager)
broadcast_if_lem_example =
    broadcast_if_lem plain [] (λ j. text_eq j (txt "n2")) (txt "n1") manager manager-IsMap

register_session_lem_example :
    (get_session (txt "n1") (register_session (txt "n1") 3 manager) ≡ some 3)
    × ((register_session (txt "n1") 3 manager).store 1 ≡ mark_stale (created 1))
unfolding get_session lookup text_eq
register_session_lem_example = register_session_lem (txt "n1") (txt "n1") 3 1 manager
