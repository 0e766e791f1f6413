-- ===== src/Stun.antt =====
-- src/stun/StunServer.{h,cpp}: the UDP server that tells a client its public address. The socket is
-- outside: a receive that is under way is a flag, what is sent is a list, a completed receive is an
-- event. The log lines are left out.
mod Tests
use natt.Prelude.{
  ℕ, ◌+◌, ◌-◌, ◌≡◌, refl, sym, ap, ◌∙◌, ◌⊎◌, inl, inr, Bool, true, false, not, ◌&&◌, ◌||◌, Option,
  none, some, List, [], ◌∷◌, ◌++◌, arith, leb, ◌==◌, if◌then◌else◌, Bool-cases, take, Text, txt,
  text_eq, text_eq_refl, eq_of_text_eq,
}
use natt.Prelude.Int.{pos}
use natt.Json.{JsonLib, text, number, ◌>>=◌, bind-some}
use natt.Relay.Registry.{Endpoint}
use natt.Relay.Server.{Datagram, Completion, aborted, failed, received}

pub record StunServer : Type 0 where
  pub receiving : Bool
  pub is_open : Bool
  pub sent : List Datagram

unfoldable pub do_receive : StunServer → StunServer
do_receive s = record s { receiving = true }

unfoldable pub start : StunServer → StunServer
unfolding do_receive
start s = do_receive s

-- The receive ends with `operation_aborted`.
unfoldable pub stop : StunServer → StunServer
stop s = record s { receiving = false; is_open = false }

-- The size of `recv_buffer_`, to which a datagram is cut.
abbrev pub max_buf : ℕ
max_buf = 4096

-- `std::isspace` in the locale "C".
abbrev pub is_space : ℕ → Bool
is_space c = c == 32 || leb 9 c && leb c 13

-- `*std::find_if_not(data.begin(), data.end(), isspace)`, where there is one.
unfoldable pub first_non_ws : Text → Option ℕ
first_non_ws [] = none
first_non_ws (c ∷ s) = let rest = first_non_ws s in if is_space c then rest else some c

module _ (lib : JsonLib) where
  open lib use {Json, parse, dump, object, text_or, text_at}

  abbrev pub response : Endpoint → Text
  response remote = dump (
      object (
        (txt "type", text (txt "stun_response"))
        ∷ (txt "public_ip", text remote.address)
        ∷ (txt "public_port", number (pos remote.port))
        ∷ []))

  unfoldable pub send_response : Endpoint → StunServer → StunServer
  send_response remote s = record s {
    sent = s.sent ++ record { payload = response remote; dest = remote } ∷ [];
  }

  -- The body of the `try`. `none` is an exception.
  unfoldable pub handle_request : Text → Endpoint → StunServer → Option StunServer
  handle_request payload remote s = do
    json ← parse payload
    type ← text_at json (txt "type")
    if text_eq type (txt "stun_request")
        then (do node_id ← text_or json (txt "node_id") []; some (send_response remote s))
        else some s

  unfoldable pub handle_datagram : Text → Endpoint → StunServer → StunServer
  handle_datagram payload remote s = elim (first_non_ws payload) [
    | none ↦ do_receive s
    | some c ↦ if not (c == 123) then do_receive s else elim (handle_request payload remote s) [
      | none ↦ do_receive s
      | some s' ↦ do_receive s'
    ]
  ]

  unfoldable pub handle_receive : Completion → StunServer → StunServer
  handle_receive aborted s = record s { receiving = false }
  handle_receive failed s = do_receive s
  handle_receive (received payload remote) s = handle_datagram (take max_buf payload) remote s

  -- What makes a datagram a request: its first character behind spaces is `{`, it is JSON with the
  -- type `stun_request`, and its node id, if it has one, is a text.
  abbrev pub IsRequest : Text → Type 0
  IsRequest payload =
      (json : Json) × (node_id : Text) × (first_non_ws payload ≡ some 123)
      × (parse payload ≡ some json)
      × (text_at json (txt "type") ≡ some (txt "stun_request"))
      × (text_or json (txt "node_id") [] ≡ some node_id)

  abbrev pub Answered : Text → Endpoint → StunServer → StunServer → Type 0
  Answered payload remote s t =
      IsRequest payload
      × (t.sent ≡ s.sent ++ record { payload = response remote; dest = remote } ∷ [])

  abbrev sent_of : Option StunServer → List Datagram
  sent_of none = []
  sent_of (some t) = t.sent

  -- What a request leads to, if it is one.
  request_sent :
      (payload : Text) (remote : Endpoint) (s : StunServer) (o : Option StunServer)
      → first_non_ws payload ≡ some 123
      → handle_request payload remote s ≡ o
      → (let t : StunServer = elim o [ none ↦ do_receive s | some s' ↦ do_receive s' ] in
          (t.sent ≡ s.sent) ⊎ Answered payload remote s t)
  unfolding do_receive handle_request send_response
  request_sent payload remote s none brace e = inl refl
  request_sent payload remote s (some t) brace e =
      let (json, parsed, typed) = bind-some (parse payload) _ t e in
      let (type, named, asked) = bind-some (text_at json (txt "type")) _ t typed in
      elim (Bool-cases (text_eq type (txt "stun_request"))) [
        | inl hit ↦
            let (node_id, found, done) =
              bind-some (text_or json (txt "node_id") []) _ t (rw hit at asked) in
            inr (
              (
                json,
                node_id,
                brace,
                parsed,
                named ∙ ap some (eq_of_text_eq type (txt "stun_request") hit),
                found,
              ),
              sym (ap sent_of done),
            )
        | inr miss ↦ let done : some s ≡ some t = rw miss at asked in inl (sym (ap sent_of done))
      ]

  datagram_lem :
      (payload : Text) (remote : Endpoint) (s : StunServer)
      → ((handle_datagram payload remote s).receiving ≡ true)
        × (((handle_datagram payload remote s).sent ≡ s.sent)
            ⊎ (IsRequest payload
                × ((handle_datagram payload remote s).sent
                    ≡ s.sent ++ record { payload = response remote; dest = remote } ∷ [])))
        × (IsRequest payload
            → (handle_datagram payload remote s).sent
              ≡ s.sent ++ record { payload = response remote; dest = remote } ∷ [])
  unfolding handle_datagram handle_request send_response do_receive
  datagram_lem payload remote s = (
    listening (first_non_ws payload) (handle_request payload remote s),
    sent_or_not (first_non_ws payload) refl,
    (λ (json, node_id, brace, parsed, asked, found).
        ap (λ (o : Option ℕ). (outcome o (handle_request payload remote s)).sent) brace
        ∙ ap (λ (x : Option StunServer). (outcome (some 123) x).sent)
            (requested json node_id parsed asked found)),
  )
    where
      outcome : Option ℕ → Option StunServer → StunServer
      outcome o x = elim o [
        | none ↦ do_receive s
        | some c ↦
            if not (c == 123)
            then do_receive s
            else elim x [ none ↦ do_receive s | some s' ↦ do_receive s' ]
      ]

      requested :
          (json : Json) (node_id : Text)
          → parse payload ≡ some json
          → text_at json (txt "type") ≡ some (txt "stun_request")
          → text_or json (txt "node_id") [] ≡ some node_id
          → handle_request payload remote s ≡ some (send_response remote s)
      requested json node_id parsed asked found =
          rw (parsed, asked, found, text_eq_refl (txt "stun_request"), handle_request) refl

      listening : (o : Option ℕ) (x : Option StunServer) → (outcome o x).receiving ≡ true
      listening none x = refl
      listening (some c) none = ground arith
      listening (some c) (some t) = ground arith

      sent_or_not :
          (o : Option ℕ)
          → first_non_ws payload ≡ o
          → ((outcome o (handle_request payload remote s)).sent ≡ s.sent)
            ⊎ Answered payload remote s (outcome o (handle_request payload remote s))
      sent_or_not none e = inl refl
      sent_or_not (some c) e = elim (Bool-cases (c == 123)) [
        | inl brace ↦ rw brace (
            request_sent payload remote s (handle_request payload remote s)
              (e ∙ ap some (ground (arith, brace))) refl)
        | inr other ↦ rw other (inl refl)
      ]

  -- A datagram of any content leaves the server receiving. Either nothing is sent, or the datagram, cut to
  -- the buffer, is a request and one answer is sent, to the sender and with the sender's own address; and a
  -- request is always answered so.
  pub stun_receive_lem :
      (payload : Text) (remote : Endpoint) (s : StunServer)
      → ((handle_receive (received payload remote) s).receiving ≡ true)
        × (((handle_receive (received payload remote) s).sent ≡ s.sent)
            ⊎ (IsRequest (take max_buf payload)
                × ((handle_receive (received payload remote) s).sent
                    ≡ s.sent ++ record { payload = response remote; dest = remote } ∷ [])))
        × (IsRequest (take max_buf payload)
            → (handle_receive (received payload remote) s).sent
              ≡ s.sent ++ record { payload = response remote; dest = remote } ∷ [])
  unfolding handle_receive
  stun_receive_lem payload remote s = datagram_lem (take max_buf payload) remote s
