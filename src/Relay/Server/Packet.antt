-- ===== src/Relay/Server/Packet.antt =====
-- `RelayServer::handle_relay_packet`: who gets what.
use natt.Prelude.{
  ◌≡◌, refl, ◌∙◌, ◌≢◌, ◌⊎◌, inl, inr, true, false, none, some, [], ◌∷◌, arith, if◌then◌else◌,
  Bool-cases, Option-cases, is_empty, Text, txt, text_eq, eq_of_text_eq, eq_iff, lookup,
}
use natt.Json.{JsonLib}
use natt.Relay.Registry.{NodeEntry, find_endpoint, find_network_id, is_online}
use natt.Relay.Server.{Server, send_to, send_error, relay_packet}

empty_of : (s : Text) → is_empty s ≡ true → s ≡ []
empty_of [] h = refl
empty_of (c ∷ s) h = cc

filled_of : (s : Text) → is_empty s ≡ false → s ≢ []
filled_of [] h = absurd (cc)
filled_of (c ∷ s) h = λ e. cc

module _ (lib : JsonLib) where
  open lib use {Json, dump}

  -- What becomes of a packet, with the state of the registry that is the reason for it.
  pub data Relayed (from_id to_id : Text) (msg : Json) (s : Server) : Server → Type 0 where
    unnamed : {t : Server} → (from_id ≡ []) ⊎ (to_id ≡ []) → t ≡ s → Relayed from_id to_id msg s t
    unknown_sender :
        {t : Server}
        → from_id ≢ []
        → to_id ≢ []
        → lookup from_id s.registry ≡ none
        → t ≡ s
        → Relayed from_id to_id msg s t
    target_offline :
        {t : Server} (from_entry : NodeEntry)
        → from_id ≢ []
        → to_id ≢ []
        → lookup from_id s.registry ≡ some from_entry
        → lookup to_id s.registry ≡ none
        → t ≡ send_error lib from_entry.endpoint (txt "target_offline") s
        → Relayed from_id to_id msg s t
    network_mismatch :
        {t : Server} (from_entry to_entry : NodeEntry)
        → from_id ≢ []
        → to_id ≢ []
        → lookup from_id s.registry ≡ some from_entry
        → lookup to_id s.registry ≡ some to_entry
        → from_entry.network_id ≢ to_entry.network_id
        → t ≡ send_error lib from_entry.endpoint (txt "network_mismatch") s
        → Relayed from_id to_id msg s t
    forwarded :
        {t : Server} (from_entry to_entry : NodeEntry)
        → from_id ≢ []
        → to_id ≢ []
        → lookup from_id s.registry ≡ some from_entry
        → lookup to_id s.registry ≡ some to_entry
        → from_entry.network_id ≡ to_entry.network_id
        → t ≡ send_to (dump msg) to_entry.endpoint s
        → Relayed from_id to_id msg s t

  relay_unnamed :
      (from_id to_id : Text) (msg : Json) (s : Server)
      → (is_empty from_id ≡ true) ⊎ (is_empty to_id ≡ true)
      → relay_packet lib from_id to_id msg s ≡ s
  unfolding relay_packet
  relay_unnamed from_id to_id msg s e = ground arith

  pub known_pair :
      (from_id to_id : Text) (msg : Json) (s : Server) (a b : NodeEntry)
      → is_empty from_id ≡ false
      → is_empty to_id ≡ false
      → lookup from_id s.registry ≡ some a
      → lookup to_id s.registry ≡ some b
      → relay_packet lib from_id to_id msg s ≡ (
          if text_eq a.network_id b.network_id
          then send_to (dump msg) b.endpoint s
          else send_error lib a.endpoint (txt "network_mismatch") s)
  unfolding relay_packet find_endpoint find_network_id is_online
  known_pair from_id to_id msg s a b f t ea eb = ground (arith, f, t, ea, eb)

  relay_to_unknown :
      (from_id to_id : Text) (msg : Json) (s : Server) (a : NodeEntry)
      → is_empty from_id ≡ false
      → is_empty to_id ≡ false
      → lookup from_id s.registry ≡ some a
      → lookup to_id s.registry ≡ none
      → relay_packet lib from_id to_id msg s ≡ send_error lib a.endpoint (txt "target_offline") s
  unfolding relay_packet find_endpoint is_online
  relay_to_unknown from_id to_id msg s a f t ea eb = ground (arith, f, t, ea, eb)

  -- The answer "sender_not_registered" is never sent: its branch looks for the endpoint of a node
  -- that was just found to be unknown.
  pub relay_from_unknown :
      (from_id to_id : Text) (msg : Json) (s : Server)
      → lookup from_id s.registry ≡ none
      → relay_packet lib from_id to_id msg s ≡ s
  unfolding relay_packet find_endpoint is_online
  relay_from_unknown from_id to_id msg s e = ground (arith, e)

  both_named :
      (from_id to_id : Text) (msg : Json) (s : Server)
      → is_empty from_id ≡ false
      → is_empty to_id ≡ false
      → Relayed from_id to_id msg s (relay_packet lib from_id to_id msg s)
  both_named from_id to_id msg s f t = elim (Option-cases (lookup from_id s.registry)) [
    | inl e ↦ unknown_sender (filled_of from_id f) (filled_of to_id t) e (no_sender e)
    | inr (a, ea) ↦ elim (Option-cases (lookup to_id s.registry)) [
      | inl e ↦ target_offline a (filled_of from_id f) (filled_of to_id t) ea e (no_target a ea e)
      | inr (b, eb) ↦ elim (Bool-cases (text_eq a.network_id b.network_id)) [
        | inl same ↦
            forwarded a b (filled_of from_id f) (filled_of to_id t) ea eb
              (eq_of_text_eq a.network_id b.network_id same)
              (known_pair from_id to_id msg s a b f t ea eb ∙ rw same)
        | inr differ ↦
            network_mismatch a b (filled_of from_id f) (filled_of to_id t) ea eb
              (ground (arith, differ, eq_iff a.network_id b.network_id))
              (known_pair from_id to_id msg s a b f t ea eb ∙ rw differ)
      ]
    ]
  ]
    where
      no_sender : lookup from_id s.registry ≡ none → relay_packet lib from_id to_id msg s ≡ s
      no_sender e = relay_from_unknown from_id to_id msg s e

      no_target :
          (a : NodeEntry)
          → lookup from_id s.registry ≡ some a
          → lookup to_id s.registry ≡ none
          → relay_packet lib from_id to_id msg s
            ≡ send_error lib a.endpoint (txt "target_offline") s
      no_target a ea e = relay_to_unknown from_id to_id msg s a f t ea e

  -- Whatever a packet names: it is sent on, as it came, only to the registered endpoint of its
  -- target, and only if both are named and registered in the same network; with a named target that is
  -- unknown or in another network, one error goes to the registered endpoint of the named sender; with an
  -- unknown sender or an empty name nothing is sent.
  pub relay_packet-Relayed :
      (from_id to_id : Text) (msg : Json) (s : Server)
      → Relayed from_id to_id msg s (relay_packet lib from_id to_id msg s)
  relay_packet-Relayed from_id to_id msg s = elim (Bool-cases (is_empty from_id)) [
    | inl e ↦ unnamed (inl (empty_of from_id e)) (relay_unnamed from_id to_id msg s (inl e))
    | inr f ↦ elim (Bool-cases (is_empty to_id)) [
      | inl e ↦ unnamed (inr (empty_of to_id e)) (relay_unnamed from_id to_id msg s (inr e))
      | inr t ↦ both_named from_id to_id msg s f t
    ]
  ]
