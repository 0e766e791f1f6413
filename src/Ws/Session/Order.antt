-- ===== src/Ws/Session/Order.antt =====
-- src/ws/ws_session.cpp: the handlers of messages and the write queue.
use natt.Prelude.{
  append_nil, append_assoc, ℕ, refl, sym, ap, ◌∙◌, inl, inr, true, not, ◌&&◌, Option, none, some,
  List, [], ◌∷◌, ◌++◌, if◌then◌else◌, Bool-cases, is_empty, Text, txt, text_eq,
}
use natt.Ws.Session.{
  AuthResult, handled, Task, sends, closes, Session, send_json, close, note, send_all, Callbacks,
  error_text, call_disconnect, auth_ok_node, auth_ok_user, node_auth_result, node_auth, token_auth,
  delegate,
}
use natt.Json.{JsonLib, text}
use natt.Auth.Jwt.{JwtPayload}
use natt.Ws.Session.Queue.{Quiet}
use natt.Ws.Session.Cases.{Reaction, answers, checks_node, checks_token, delegates}

pub Quiet-refl : (s : Session) → Quiet s s
Quiet-refl s = (refl, refl, refl, refl, ([], sym (append_nil s.posted)))

pub Quiet-trans : (s t u : Session) → Quiet s t → Quiet t u → Quiet s u
Quiet-trans s t u (a, b, c, d, (m, e)) (a', b', c', d', (n, f)) = (
  a' ∙ a,
  b' ∙ b,
  c' ∙ c,
  d' ∙ d,
  (m ++ n, f ∙ ap (λ (xs : List Task). xs ++ n) e ∙ append_assoc s.posted m n),
)

pub Quiet-send_json : (msg : Text) (s : Session) → Quiet s (send_json msg s)
unfolding send_json
Quiet-send_json msg s = (refl, refl, refl, refl, (sends msg ∷ [], refl))

pub Quiet-send_all : (ms : List Text) (s : Session) → Quiet s (send_all ms s)
unfolding send_all
Quiet-send_all [] s = Quiet-refl s
Quiet-send_all (m ∷ ms) s =
    Quiet-trans s (send_json m s) (send_all ms (send_json m s)) (Quiet-send_json m s)
      (Quiet-send_all ms (send_json m s))

pub Quiet-close : (reason : Text) (s : Session) → Quiet s (close reason s)
unfolding close
Quiet-close reason s = (refl, refl, refl, refl, (closes reason ∷ [], refl))

module _ (lib : JsonLib) (cb : Callbacks lib) where
  pub Quiet-call_disconnect : (s : Session) → Quiet s (call_disconnect lib cb s)
  unfolding call_disconnect
  Quiet-call_disconnect s =
      elim (Bool-cases (not (is_empty s.node_id) && cb.has_disconnect_handler)) [
        | inl told ↦ rw told (Quiet-refl s)
        | inr still ↦ rw still (Quiet-refl s)
      ]

  pub Quiet-node_auth_result :
      (now : ℕ) (r : AuthResult) (s : Session) → Quiet s (node_auth_result lib cb now r s)
  Quiet-node_auth_result now r s = elim (Bool-cases r.success) [
    | inl ok ↦ rw ok (
        Quiet-trans s (send_json greeting begun)
          (send_all (cb.post_node_auth_cb r.node_id) (send_json greeting begun))
          (Quiet-send_json greeting begun)
          (Quiet-send_all (cb.post_node_auth_cb r.node_id) (send_json greeting begun)))
    | inr bad ↦ rw bad (Quiet-send_json _ s)
  ]
    where
      begun : Session
      begun = record s {
        authenticated = true;
        node_id = r.node_id;
        network_id = r.network_id;
        public_key = r.public_key;
        last_heartbeat = now;
      }

      greeting : Text
      greeting = auth_ok_node lib r.node_id r.network_id

  pub Quiet-node_auth :
      (now : ℕ) (id net key : Text) (s : Session) → Quiet s (node_auth lib cb now id net key s)
  unfolding node_auth
  Quiet-node_auth now id net key s = elim (Bool-cases (is_empty id)) [
    | inl empty ↦ rw empty (Quiet-send_json _ s)
    | inr named ↦ rw named (checked cb.node_auth_cb)
  ]
    where
      checked :
          (o : Option (Text → Text → Text → AuthResult))
          → Quiet s (elim o [
            | none ↦ send_json (error_text lib (txt "Server does not support node auth")) s
            | some check ↦ node_auth_result lib cb now (check id net key) s
          ])
      checked none = Quiet-send_json _ s
      checked (some check) = Quiet-node_auth_result now (check id net key) s

  pub Quiet-token_auth :
      (now : ℕ) (token : Text) (s : Session) → Quiet s (token_auth lib cb now token s)
  unfolding token_auth
  Quiet-token_auth now token s = answered (cb.auth_cb token)
    where
      begun : Session
      begun = record s { authenticated = true; last_heartbeat = now }

      answered :
          (o : Option JwtPayload)
          → Quiet s (elim o [
            | none ↦ send_json (error_text lib (txt "Invalid token")) s
            | some payload ↦ send_json (auth_ok_user lib payload.user_id payload.username) (
                send_all
                  (cb.post_auth_cb payload.user_id payload.username)
                  (record s { authenticated = true; last_heartbeat = now }))
          ])
      answered none = Quiet-send_json _ s
      answered (some p) =
          let more : Session = send_all (cb.post_auth_cb p.user_id p.username) begun in
          Quiet-trans s more (send_json (auth_ok_user lib p.user_id p.username) more)
            (Quiet-send_all (cb.post_auth_cb p.user_id p.username) begun)
            (Quiet-send_json (auth_ok_user lib p.user_id p.username) more)

  pub Quiet-delegate :
      (now : ℕ) (type payload : Text) (json : lib.Json) (s : Session)
      → Quiet s (delegate lib cb now type payload json s)
  unfolding delegate
  Quiet-delegate now type payload json s = handed cb.msg_handler
    where
      active : Session
      active = record s { last_heartbeat = now }

      handed :
          (o : Option (Text → lib.Json → List Text))
          → Quiet s (elim o [
            | some handler ↦
                send_all
                  (handler active.node_id json)
                  (note (handled active.node_id payload) active)
            | none ↦
                if text_eq type (txt "heartbeat")
                then send_json (lib.dump (lib.object ((txt "type", text (txt "pong")) ∷ []))) active
                else active
          ])
      handed (some handler) =
          Quiet-send_all (handler active.node_id json)
            (note (handled active.node_id payload) active)
      handed none = elim (Bool-cases (text_eq type (txt "heartbeat"))) [
        | inl beat ↦ rw beat (Quiet-send_json _ active)
        | inr other ↦ rw other (Quiet-refl active)
      ]

  pub Quiet-Reaction :
      (now : ℕ) (payload : Text) (s t : Session) → Reaction lib cb now payload s t → Quiet s t
  Quiet-Reaction now payload s _ (answers m) = Quiet-send_json m s
  Quiet-Reaction now payload s _ (checks_node id net key out) = Quiet-node_auth now id net key s
  Quiet-Reaction now payload s _ (checks_token token out) = Quiet-token_auth now token s
  Quiet-Reaction now payload s _ (delegates type json within) =
      Quiet-delegate now type payload json s
