-- ===== src/Nat/Sessions.antt =====
-- src/nat/session_manager.{h,cpp}: which session belongs to which node. A `std::shared_ptr` is a
-- number, and the sessions lie in a store, so that two entries may share one. The mutex makes every
-- call atomic; the log lines are left out.
pub mod Laws
mod Tests
use natt.Prelude.{
  ℕ, Bool, true, false, Option, none, some, List, [], ◌∷◌, map, ◌==◌, if◌then◌else◌, is_some,
  length, Text, Dict, lookup, insert, erase,
}
use natt.Json.{JsonLib}
use natt.Ws.Session.{Session, send_json, mark_stale}

abbrev pub Store : Type 0
Store = ℕ → Session

-- A call of the session behind a pointer.
unfoldable pub call_at : ℕ → (Session → Session) → Store → Store
call_at p f store q = if p == q then f (store q) else store q

pub record SessionManager : Type 0 where
  pub sessions : Dict ℕ
  pub store : Store

unfoldable pub register_session : Text → ℕ → SessionManager → SessionManager
register_session node_id session m = record m {
  sessions = insert node_id session m.sessions;
  store = (elim (lookup node_id m.sessions) [
    | none ↦ m.store
    | some old ↦ call_at old mark_stale m.store
  ]);
}

unfoldable pub remove_session : Text → SessionManager → SessionManager
remove_session node_id m = record m { sessions = erase node_id m.sessions }

unfoldable pub get_session : Text → SessionManager → Option ℕ
get_session node_id m = lookup node_id m.sessions

unfoldable pub session_count : SessionManager → ℕ
session_count m = length m.sessions

unfoldable pub list_sessions : SessionManager → List Text
list_sessions m = map (λ e. e.0) m.sessions

unfoldable pub has_session : Text → SessionManager → Bool
has_session node_id m = is_some (lookup node_id m.sessions)

-- The loop over the sessions whose node passes the filter.
unfoldable pub send_each : (Text → Bool) → Text → Dict ℕ → Store → Store
send_each filter payload [] store = store
send_each filter payload ((id, session) ∷ sessions) store =
    send_each filter payload sessions
      (if filter id then call_at session (send_json payload) store else store)

module _ (lib : JsonLib) where
  open lib use {Json, dump}

  unfoldable pub send_message : Text → Json → SessionManager → SessionManager × Bool
  send_message node_id msg m = elim (get_session node_id m) [
    | none ↦ (m, false)
    | some session ↦ (record m { store = call_at session (send_json (dump msg)) m.store }, true)
  ]

  unfoldable pub broadcast_if : Json → (Text → Bool) → SessionManager → SessionManager
  broadcast_if msg filter m = record m { store = send_each filter (dump msg) m.sessions m.store }

  unfoldable pub broadcast : Json → SessionManager → SessionManager
  broadcast msg m = record m { store = send_each (λ id. true) (dump msg) m.sessions m.store }
