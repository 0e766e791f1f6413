-- ===== src/Relay/Server/Receive.antt =====
-- What one completed receive may do to the relay server.
use natt.Prelude.{
  ℕ, ◌≡◌, refl, ◌≢◌, ◌⊎◌, inl, inr, Bool, true, false, not, ◌||◌, Option, none, some, [], ◌∷◌, ◌++◌,
  arith, if◌then◌else◌, is_empty, Text, txt, text_eq, eq_iff,
}
use natt.Prelude.Int.{pos}
use natt.Json.{JsonLib, ◌>>=◌}
use natt.Relay.Registry.{
  Endpoint, Registry, register_node, find_network_id, update_heartbeat, is_online,
}
use natt.Relay.Registry.Laws.{register_node_lem, lookup-update_heartbeat}
use natt.Relay.Server.{
  Datagram, Server, received, send_to, do_receive, error_payload, send_error, handle_register,
  handle_relay_packet, handle_heartbeat, handle_message, handle_receive,
}
use natt.Relay.Server.Packet.{
  Relayed, unnamed, unknown_sender, target_offline, network_mismatch, forwarded,
  relay_packet-Relayed,
}

-- Every node that was registered still is, in the same network.
abbrev pub Pinned : Registry → Registry → Type 0
Pinned nodes after =
    (j net : Text) → find_network_id j nodes ≡ some net → find_network_id j after ≡ some net

-- What a message can do to the registry.
pub data Touch (now : ℕ) (nodes : Registry) (after : Registry) : Type 0 where
  kept : after ≡ nodes → Touch now nodes after
  registered :
      (id net : Text) (ep : Endpoint)
      → id ≢ []
      → net ≢ []
      → after ≡ (register_node now id net ep nodes).0
      → Touch now nodes after
  heard : (id : Text) → after ≡ update_heartbeat now id nodes → Touch now nodes after

-- At most one datagram is sent, and at most one entry of the registry is touched.
pub record Modest (now : ℕ) (s t : Server) : Type 0 where
  pub replies : (t.sent ≡ s.sent) ⊎ ((d : Datagram) × (t.sent ≡ s.sent ++ d ∷ []))
  pub touched : Touch now s.registry t.registry

Modest-same : (now : ℕ) (s : Server) → Modest now s s
Modest-same now s = record { replies = inl refl; touched = kept refl }

Modest-send :
    (now : ℕ) (payload : Text) (dest : Endpoint) (nodes : Registry) (s : Server)
    → Touch now s.registry nodes
    → Modest now s (send_to payload dest (record s { registry = nodes }))
unfolding send_to
Modest-send now payload dest nodes s h = record { replies = inr (_, refl); touched = h }

Modest-error :
    (lib : JsonLib) (now : ℕ) (dest : Endpoint) (message : Text) (s : Server)
    → Modest now s (send_error lib dest message s)
unfolding send_error
Modest-error lib now dest message s =
    Modest-send now (error_payload lib message) dest s.registry s (kept refl)

register_node-Pinned :
    (now : ℕ) (id net : Text) (ep : Endpoint) (nodes : Registry)
    → Pinned nodes (register_node now id net ep nodes).0
unfolding find_network_id
register_node-Pinned now id net ep nodes j n h =
    ground (arith, eq_iff id j, (register_node_lem now id net ep nodes).1 j)

update_heartbeat-Pinned :
    (now : ℕ) (id : Text) (nodes : Registry) → Pinned nodes (update_heartbeat now id nodes)
unfolding find_network_id
update_heartbeat-Pinned now id nodes j n h = ground (arith, lookup-update_heartbeat now id j nodes)

pub Touch-Pinned : (now : ℕ) (nodes after : Registry) → Touch now nodes after → Pinned nodes after
Touch-Pinned now nodes after (kept e) = rw e (λ j net h. h)
Touch-Pinned now nodes after (registered id net ep _ _ e) =
    rw e (register_node-Pinned now id net ep nodes)
Touch-Pinned now nodes after (heard id e) = rw e (update_heartbeat-Pinned now id nodes)

Modest-update :
    (now : ℕ) (nodes : Registry) (s : Server)
    → Touch now s.registry nodes
    → Modest now s (record s { registry = nodes })
Modest-update now nodes s h = record { replies = inl refl; touched = h }

-- If the handler returned, its result is modest.
abbrev IsModest : ℕ → Server → Option Server → Type 0
IsModest now s none = Unit
IsModest now s (some t) = Modest now s t

>>=-IsModest {ℓ} :
    {A : Type ℓ} (now : ℕ) (s : Server) (o : Option A) (f : A → Option Server)
    → ((a : A) → IsModest now s (f a))
    → IsModest now s (o >>= f)
>>=-IsModest now s none f h = tt
>>=-IsModest now s (some a) f h = h a

if-IsModest :
    (now : ℕ) (s : Server) (b : Bool) (x y : Option Server)
    → IsModest now s x
    → IsModest now s y
    → IsModest now s (if b then x else y)
if-IsModest now s true x y h k = h
if-IsModest now s false x y h k = k

guard-IsModest :
    (now : ℕ) (s : Server) (b : Bool) (x y : Option Server)
    → IsModest now s x
    → (b ≡ false → IsModest now s y)
    → IsModest now s (if b then x else y)
guard-IsModest now s true x y h k = h
guard-IsModest now s false x y h k = k refl

both_given : (a b : Text) → (is_empty a || is_empty b) ≡ false → (a ≢ []) × (b ≢ [])
both_given [] b h = cc
both_given (x ∷ a) [] h = cc
both_given (x ∷ a) (y ∷ b) h = (λ e. cc, λ e. cc)

Modest-receive : (now : ℕ) (s t : Server) → Modest now s t → Modest now s (do_receive t)
unfolding do_receive
Modest-receive now s t h = record { replies = h.replies; touched = h.touched }

module _ (lib : JsonLib) where
  open lib use {Json, parse, dump, text_or, number_or}

  Relayed-Modest :
      (now : ℕ) (from_id to_id : Text) (msg : Json) (s t : Server)
      → Relayed lib from_id to_id msg s t
      → Modest now s t
  Relayed-Modest now from_id to_id msg s t (unnamed _ e) = rw e (Modest-same now s)
  Relayed-Modest now from_id to_id msg s t (unknown_sender _ _ _ e) = rw e (Modest-same now s)
  Relayed-Modest now from_id to_id msg s t (target_offline a _ _ _ _ e) =
      rw e (Modest-error lib now a.endpoint _ s)
  Relayed-Modest now from_id to_id msg s t (network_mismatch a b _ _ _ _ _ e) =
      rw e (Modest-error lib now a.endpoint _ s)
  Relayed-Modest now from_id to_id msg s t (forwarded a b _ _ _ _ _ e) =
      rw e (Modest-send now (dump msg) b.endpoint s.registry s (kept refl))

  handle_register-IsModest :
      (now : ℕ) (msg : Json) (sender : Endpoint) (s : Server)
      → IsModest now s (handle_register lib now msg sender s)
  unfolding handle_register
  handle_register-IsModest now msg sender s =
      >>=-IsModest now s (text_or msg (txt "node_id") []) _ λ id.
        >>=-IsModest now s (text_or msg (txt "network_id") []) _ λ net.
          >>=-IsModest now s (text_or msg (txt "token") []) _ λ token.
            guard-IsModest now s (is_empty id || is_empty net) _ _
              (Modest-error lib now sender (txt "missing_fields") s)
              λ named.
                let (some_id, some_net) = both_given id net named in
                if-IsModest now s (is_empty token) _ _
                  (Modest-error lib now sender (txt "missing_token") s)
                  (Modest-send now _ sender _ s (registered id net sender some_id some_net refl))

  handle_relay_packet-IsModest :
      (now : ℕ) (msg : Json) (s : Server) → IsModest now s (handle_relay_packet lib msg s)
  unfolding handle_relay_packet
  handle_relay_packet-IsModest now msg s =
      >>=-IsModest now s (text_or msg (txt "from_node_id") []) _ λ from_id.
        >>=-IsModest now s (text_or msg (txt "to_node_id") []) _ λ to_id.
          >>=-IsModest now s (text_or msg (txt "payload") []) _ λ payload.
            >>=-IsModest now s (number_or msg (txt "seq") (pos 0)) _ λ seq.
              Relayed-Modest now from_id to_id msg s _
                (relay_packet-Relayed lib from_id to_id msg s)

  handle_heartbeat-IsModest :
      (now : ℕ) (msg : Json) (sender : Endpoint) (s : Server)
      → IsModest now s (handle_heartbeat lib now msg sender s)
  unfolding handle_heartbeat
  handle_heartbeat-IsModest now msg sender s =
      >>=-IsModest now s (text_or msg (txt "node_id") []) _ λ id.
        if-IsModest now s (is_empty id) _ _ (Modest-same now s) (
          if-IsModest now s (not (is_online id s.registry)) _ _
            (Modest-error lib now sender (txt "not_registered") s)
            (Modest-update now _ s (heard id refl)))

  handle_message-IsModest :
      (now : ℕ) (payload : Text) (sender : Endpoint) (s : Server)
      → IsModest now s (handle_message lib now payload sender s)
  unfolding handle_message
  handle_message-IsModest now payload sender s = >>=-IsModest now s (parse payload) _ λ msg.
      >>=-IsModest now s (text_or msg (txt "type") []) _ λ type.
        if-IsModest now s (text_eq type (txt "relay_register")) _ _
          (handle_register-IsModest now msg sender s)
          (if-IsModest now s (text_eq type (txt "relay_packet")) _ _
            (handle_relay_packet-IsModest now msg s)
            (if-IsModest now s (text_eq type (txt "relay_heartbeat")) _ _
              (handle_heartbeat-IsModest now msg sender s)
              (Modest-error lib now sender (txt "unknown_type") s)))

  pub handle_receive-Modest :
      (now : ℕ) (payload : Text) (sender : Endpoint) (s : Server)
      → Modest now s (handle_receive lib now (received payload sender) s)
  unfolding handle_receive
  handle_receive-Modest now payload sender s =
      handled (handle_message lib now payload sender s)
        (handle_message-IsModest now payload sender s)
    where
      handled :
          (o : Option Server)
          → IsModest now s o
          → Modest now s (
              do_receive
                (elim o [ none ↦ send_error lib sender (txt "invalid_message") s | some t ↦ t ]))
      handled none h =
          Modest-receive now s _ (Modest-error lib now sender (txt "invalid_message") s)
      handled (some t) h = Modest-receive now s t h

  -- A datagram, whatever its bytes are and whoever sent it, is answered by at most one datagram; it
  -- neither removes a registered node nor moves it to another network; and the server goes on
  -- receiving.
  pub handle_receive_modest :
      (now : ℕ) (payload : Text) (sender : Endpoint) (s : Server)
      → let t = handle_receive lib now (received payload sender) s in
        ((t.sent ≡ s.sent) ⊎ ((d : Datagram) × (t.sent ≡ s.sent ++ d ∷ [])))
        × ((j net : Text)
            → find_network_id j s.registry ≡ some net
            → find_network_id j t.registry ≡ some net)
        × (t.receiving ≡ true)
  unfolding handle_receive do_receive
  handle_receive_modest now payload sender s =
      let m = handle_receive-Modest now payload sender s in
      (m.replies, Touch-Pinned now _ _ m.touched, refl)
