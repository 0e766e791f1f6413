-- ===== src/Nat/Dispatcher/Tests.antt =====
-- The dispatcher over a count of the messages.
use natt.Prelude.{ℕ, ◌+◌, ◌≡◌, refl, true, false, some, [], ◌∷◌, txt, text_eq, Dict, lookup}
use natt.Json.{Field, text}
use natt.Json.Plain.{plain, plain_has_key, plain_text_at}
use natt.Nat.Dispatcher.{
  Handler, register_handler, unregister_handler, dispatch_message, dispatch_message_lem,
}

abbrev count : Handler plain ℕ
count session node_id msg n = n + 1

abbrev ping : Dict Field
ping = (txt "type", text (txt "ping")) ∷ []

dispatch_message_lem_example :
    (dispatch_message plain ℕ 1 (txt "n1") ping (register_handler plain ℕ (txt "ping") count []) 4
      ≡ some (5, true))
    × (dispatch_message plain ℕ 1 (txt "n1") ping (unregister_handler plain ℕ (txt "ping") []) 4
        ≡ some (4, false))
unfolding plain_has_key plain_text_at lookup text_eq
dispatch_message_lem_example =
    dispatch_message_lem plain ℕ 1 (txt "n1") (txt "ping") (txt "ping") ping count [] 4 refl refl
