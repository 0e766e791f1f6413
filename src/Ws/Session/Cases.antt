-- ===== src/Ws/Session/Cases.antt =====
-- What a message may lead to, and what every handler leaves alone.
use natt.Prelude.{
  ℕ, ◌≡◌, refl, Bool, true, false, not, Option, none, some, [], arith, if◌then◌else◌, Text, txt,
  text_eq,
}
use natt.Ws.Session.{
  Session, send_json, Callbacks, error_text, node_auth, token_auth, handle_auth_message, delegate,
  try_message, handle_message,
}
use natt.Json.{JsonLib, ◌>>=◌}

-- What holds of a result, if there is one.
abbrev Holds {ℓ} : (Session → Type ℓ) → Option Session → Type ℓ
Holds P none = Unit
Holds P (some t) = P t

module _ {ℓ} (P : Session → Type ℓ) where
  Holds-bind :
      {A : Type 0} (o : Option A) (f : A → Option Session)
      → ((a : A) → Holds P (f a))
      → Holds P (o >>= f)
  Holds-bind none f h = tt
  Holds-bind (some a) f h = h a

  Holds-if :
      (b : Bool) (x y : Option Session)
      → (b ≡ true → Holds P x)
      → (b ≡ false → Holds P y)
      → Holds P (if b then x else y)
  Holds-if true x y h k = h refl
  Holds-if false x y h k = k refl

module _ (lib : JsonLib) (cb : Callbacks lib) (now : ℕ) (payload : Text) (s : Session) where
  -- A message is answered with a text, or is an attempt to authenticate a session that is not, or is
  -- delegated by a session that is.
  pub data Reaction : Session → Type 0 where
    answers : (m : Text) → Reaction (send_json m s)
    checks_node :
        (id net key : Text) → s.authenticated ≡ false → Reaction (node_auth lib cb now id net key s)
    checks_token :
        (token : Text) → s.authenticated ≡ false → Reaction (token_auth lib cb now token s)
    delegates :
        (type : Text) (json : lib.Json)
        → s.authenticated ≡ true
        → Reaction (delegate lib cb now type payload json s)

  handle_auth_message-Reaction :
      (json : lib.Json)
      → s.authenticated ≡ false
      → Holds Reaction (handle_auth_message lib cb now json s)
  unfolding handle_auth_message
  handle_auth_message-Reaction json out =
      Holds-bind Reaction (lib.text_at json (txt "type")) _ λ type.
        Holds-if Reaction (not (text_eq type (txt "auth"))) _ _ (λ other. answers _)
          λ auth.
            Holds-if Reaction cb.use_node_auth _ _
              (λ node. Holds-bind Reaction (lib.text_or json (txt "node_id") []) _ λ id.
                Holds-bind Reaction (lib.text_or json (txt "network_id") []) _ λ net.
                  Holds-bind Reaction (lib.text_or json (txt "public_key") []) _
                    λ key. checks_node id net key out)
              (λ legacy.
                Holds-bind Reaction (lib.text_at json (txt "token")) _
                  λ token. checks_token token out)

  try_message-Reaction : Holds Reaction (try_message lib cb now payload s)
  unfolding try_message
  try_message-Reaction = Holds-bind Reaction (lib.parse payload) _ λ json.
      Holds-if Reaction (not (lib.has_key json (txt "type"))) _ _ (λ missing. answers _)
        λ there. Holds-bind Reaction (lib.text_at json (txt "type")) _ λ type.
          Holds-if Reaction (not s.authenticated) _ _
            (λ out. handle_auth_message-Reaction json (ground (arith, out)))
            (λ within. delegates type json (ground (arith, within)))

  pub handle_message-Reaction : Reaction (handle_message lib cb now payload s)
  unfolding handle_message
  handle_message-Reaction = settle (try_message lib cb now payload s) try_message-Reaction
    where
      settle :
          (o : Option Session)
          → Holds Reaction o
          → Reaction (elim o [
            | none ↦ send_json (error_text lib (txt "Invalid message format")) s
            | some s' ↦ s'
          ])
      settle none h = answers _
      settle (some t) h = h
