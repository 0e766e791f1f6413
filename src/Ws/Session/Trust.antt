-- ===== src/Ws/Session/Trust.antt =====
-- A session as far as it is trusted, and the handlers of its messages.
use natt.Prelude.{
  member, ℕ, ◌≡◌, refl, sym, ◌∙◌, ◌⊎◌, inl, inr, true, false, not, ◌&&◌, Option, none, some, List,
  [], ◌∷◌, ◌++◌, arith, if◌then◌else◌, Bool-cases, is_empty, All, Text, txt, text_eq,
}
use natt.Ws.Session.{
  AuthResult, Call, handled, disconnected, closed, Session, send_json, note, send_all, Callbacks,
  error_text, call_disconnect, auth_ok_node, auth_ok_user, node_auth_result, node_auth, token_auth,
  delegate,
}
use mathlib.Core.Path.{subst}
use natt.Json.{JsonLib, text}
use natt.Auth.Jwt.{JwtPayload}
use natt.Ws.Session.Cases.{Reaction, answers, checks_node, checks_token, delegates}

abbrev pub IsClosed : Call → Type 0
IsClosed (handled node_id payload) = ⊥
IsClosed (disconnected node_id) = ⊥
IsClosed (closed reason) = Unit

pub All-snoc :
    (cs : List Call) (c : Call) → All IsClosed cs → IsClosed c → All IsClosed (cs ++ c ∷ [])
All-snoc [] c h k = (k, tt)
All-snoc (d ∷ cs) c h k = (h.0, All-snoc cs c h.1 k)

module _ (lib : JsonLib) (cb : Callbacks lib) (ids : List Text) where
  -- The callback accepted a node id that is not empty and gave the session this one, or accepted a token.
  abbrev pub Admitted : Text → Type 0
  Admitted node_id =
      ((check : Text → Text → Text → AuthResult) × (id : Text) × (net : Text) × (key : Text)
        × (cb.node_auth_cb ≡ some check)
        × (is_empty id ≡ false)
        × ((check id net key).success ≡ true)
        × ((check id net key).node_id ≡ node_id))
      ⊎ ((token : Text) × (p : JwtPayload) × (cb.auth_cb token ≡ some p) × (node_id ≡ []))

  -- The session has the id that it was let in with, or that of a device which was shown since.
  abbrev pub Known : Text → Type 0
  Known node_id =
      (first : Text) × Admitted first × ((node_id ≡ first) ⊎ (member node_id ids ≡ true))

  abbrev pub Trusted : Session → Type 0
  Trusted s =
      (s.authenticated ≡ false → (s.node_id ≡ []) × All IsClosed s.calls)
      × (s.authenticated ≡ true → Known s.node_id)

  abbrev Ident : Session → Session → Type 0
  Ident s t = (t.authenticated ≡ s.authenticated) × (t.node_id ≡ s.node_id) × (t.calls ≡ s.calls)

  pub Trusted-Ident : (s t : Session) → Ident s t → Trusted s → Trusted t
  Trusted-Ident s t (a, b, c) (h, k) = (
    (λ out. (b ∙ (h (sym a ∙ out)).0, subst (All IsClosed) (sym c) (h (sym a ∙ out)).1)),
    (λ within. subst Known (sym b) (k (sym a ∙ within))),
  )

  Ident-send_all : (ms : List Text) (s : Session) → Ident s (send_all ms s)
  unfolding send_all send_json
  Ident-send_all [] s = (refl, refl, refl)
  Ident-send_all (m ∷ ms) s = Ident-send_all ms (send_json m s)

  Ident-send_json : (m : Text) (s : Session) → Ident s (send_json m s)
  unfolding send_json
  Ident-send_json m s = (refl, refl, refl)

  pub Trusted-send_json : (m : Text) (s : Session) → Trusted s → Trusted (send_json m s)
  Trusted-send_json m s h = Trusted-Ident s (send_json m s) (Ident-send_json m s) h

  pub Trusted-send_all : (ms : List Text) (s : Session) → Trusted s → Trusted (send_all ms s)
  Trusted-send_all ms s h = Trusted-Ident s (send_all ms s) (Ident-send_all ms s) h

  known : (node_id : Text) → Admitted node_id → Known node_id
  known node_id a = (node_id, a, inl refl)

  -- A session that the callback let in.
  pub Trusted-within : (s : Session) → s.authenticated ≡ true → Known s.node_id → Trusted s
  Trusted-within s within a = ((λ out. absurd (ground (arith, within, out))), (λ again. a))

  pub Trusted-call_disconnect : (s : Session) → Trusted s → Trusted (call_disconnect lib cb s)
  unfolding call_disconnect
  Trusted-call_disconnect s (h, k) =
      elim (Bool-cases (not (is_empty s.node_id) && cb.has_disconnect_handler)) [
        | inl told ↦ rw told ((λ out. absurd (ground (arith, told, (h out).0))), k)
        | inr still ↦ rw still (h, k)
      ]

  pub Trusted-node_auth_result :
      (now : ℕ) (r : AuthResult) (s : Session)
      → Trusted s
      → (r.success ≡ true → Admitted r.node_id)
      → Trusted (node_auth_result lib cb now r s)
  Trusted-node_auth_result now r s h a = elim (Bool-cases r.success) [
    | inl ok ↦ rw ok (
        Trusted-send_all (cb.post_node_auth_cb r.node_id) (send_json greeting begun)
          (Trusted-send_json greeting begun (Trusted-within begun refl (known r.node_id (a ok)))))
    | inr bad ↦ rw bad (Trusted-send_json (error_text lib r.error_msg) s h)
  ]
    where
      begun : Session
      begun = record s {
        authenticated = true;
        node_id = r.node_id;
        network_id = r.network_id;
        public_key = r.public_key;
        last_heartbeat = now;
      }

      greeting : Text
      greeting = auth_ok_node lib r.node_id r.network_id

  pub Trusted-node_auth :
      (now : ℕ) (id net key : Text) (s : Session)
      → Trusted s
      → Trusted (node_auth lib cb now id net key s)
  unfolding node_auth
  Trusted-node_auth now id net key s h = elim (Bool-cases (is_empty id)) [
    | inl empty ↦ rw empty (Trusted-send_json (error_text lib (txt "node_id is required")) s h)
    | inr named ↦ rw named (checked named cb.node_auth_cb refl)
  ]
    where
      checked :
          is_empty id ≡ false
          → (o : Option (Text → Text → Text → AuthResult)) → cb.node_auth_cb ≡ o
          → Trusted (elim o [
            | none ↦ send_json (error_text lib (txt "Server does not support node auth")) s
            | some check ↦ node_auth_result lib cb now (check id net key) s
          ])
      checked named none e =
          Trusted-send_json (error_text lib (txt "Server does not support node auth")) s h
      checked named (some check) e =
          Trusted-node_auth_result now (check id net key) s h
            (λ ok. inl (check, id, net, key, e, named, ok, refl))

  pub Trusted-token_auth :
      (now : ℕ) (token : Text) (s : Session)
      → s.authenticated ≡ false
      → Trusted s
      → Trusted (token_auth lib cb now token s)
  unfolding token_auth
  Trusted-token_auth now token s out h = answered (cb.auth_cb token) refl
    where
      begun : Session
      begun = record s { authenticated = true; last_heartbeat = now }

      answered :
          (o : Option JwtPayload)
          → cb.auth_cb token ≡ o
          → Trusted (elim o [
            | none ↦ send_json (error_text lib (txt "Invalid token")) s
            | some payload ↦ send_json (auth_ok_user lib payload.user_id payload.username) (
                send_all
                  (cb.post_auth_cb payload.user_id payload.username)
                  (record s { authenticated = true; last_heartbeat = now }))
          ])
      answered none e = Trusted-send_json (error_text lib (txt "Invalid token")) s h
      answered (some p) e =
          let more : Session = send_all (cb.post_auth_cb p.user_id p.username) begun in
          Trusted-send_json (auth_ok_user lib p.user_id p.username) more (
            Trusted-send_all (cb.post_auth_cb p.user_id p.username) begun
              (Trusted-within begun refl (known s.node_id (inr (token, p, e, (h.0 out).0)))))

  pub Trusted-delegate :
      (now : ℕ) (type payload : Text) (json : lib.Json) (s : Session)
      → s.authenticated ≡ true
      → Trusted s
      → Trusted (delegate lib cb now type payload json s)
  unfolding delegate
  Trusted-delegate now type payload json s within h = handed cb.msg_handler
    where
      active : Session
      active = record s { last_heartbeat = now }

      handed :
          (o : Option (Text → lib.Json → List Text))
          → Trusted (elim o [
            | some handler ↦
                send_all
                  (handler active.node_id json)
                  (note (handled active.node_id payload) active)
            | none ↦
                if text_eq type (txt "heartbeat")
                then send_json (lib.dump (lib.object ((txt "type", text (txt "pong")) ∷ []))) active
                else active
          ])
      handed (some handler) =
          let told : Session = note (handled active.node_id payload) active in
          Trusted-send_all (handler active.node_id json) told
            (Trusted-within told within (h.1 within))
      handed none = elim (Bool-cases (text_eq type (txt "heartbeat"))) [
        | inl beat ↦ rw beat (
            Trusted-send_json (lib.dump (lib.object ((txt "type", text (txt "pong")) ∷ []))) active
              h)
        | inr other ↦ rw other h
      ]

  pub Trusted-Reaction :
      (now : ℕ) (payload : Text) (s t : Session)
      → Reaction lib cb now payload s t
      → Trusted s
      → Trusted t
  Trusted-Reaction now payload s _ (answers m) h = Trusted-send_json m s h
  Trusted-Reaction now payload s _ (checks_node id net key out) h =
      Trusted-node_auth now id net key s h
  Trusted-Reaction now payload s _ (checks_token token out) h = Trusted-token_auth now token s out h
  Trusted-Reaction now payload s _ (delegates type json within) h =
      Trusted-delegate now type payload json s within h
