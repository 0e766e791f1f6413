-- ===== src/Service/Peers/Calls.antt =====
-- Who is told what by src/service/peer_manager.cpp.
use natt.Prelude.{
  Dict, ℕ, ◌≡◌, refl, ◌∙◌, ◌≢◌, ◌⊎◌, inl, inr, some, List, [], ◌∷◌, ◌==◌, if◌then◌else◌, Bool-cases,
  Text, txt,
}
use natt.Json.Values.{Value}
use natt.Ws.Device.{Device}
use natt.Ws.Session.{Session, send_json}
use natt.Nat.Sessions.{Store, call_at}
use natt.Service.Peers.{
  PeerManager, get_session, punch_start, peer_list, handle_connect_peer, send_lists,
  broadcast_peer_list,
}
use natt.Service.Networks.Joins.{option_cases}

cons≢nil : {A : Type 0} {x : A} {xs : List A} → x ∷ xs ≢ []
cons≢nil = λ e. absurd (cc)

module _ (dump : Value → Text) where
  -- The sessions of two nodes are told of each other, and the others of nothing.
  abbrev pub Told : ℕ → ℕ → Device → Device → Store → Store → Type 0
  Told requester target requester_device target_device store after =
      (q : ℕ)
      → after q ≡ (
          let out =
            (if requester == q
              then send_json (dump (punch_start (txt "outgoing") target_device)) (store q)
              else store q) in
          if target == q
          then send_json (dump (punch_start (txt "incoming") requester_device)) out
          else out)

  -- An error leaves everything; without one both nodes were online with a device each, and their sessions
  -- are told.
  abbrev pub Connected : Text → Text → PeerManager → PeerManager × Text → Type 0
  Connected requester_id target_id m r =
      ((r.1 ≢ []) × (r.0 ≡ m))
      ⊎ ((r.1 ≡ [])
          × (r.0.sessions ≡ m.sessions)
          × (requester : ℕ) × (target : ℕ) × (requester_device : Device) × (target_device : Device)
          × (get_session requester_id m ≡ some requester)
          × (get_session target_id m ≡ some target)
          × ((m.store requester).device_info ≡ some requester_device)
          × ((m.store target).device_info ≡ some target_device)
          × Told requester target requester_device target_device m.store r.0.store)

  -- A request to connect two nodes either ends with an error and changes nothing, or both nodes are online
  -- and have shown a device, the session of the first is sent the device of the second as `outgoing`, the
  -- session of the second the device of the first as `incoming`, in this order, and no other
  -- session is sent anything.
  pub handle_connect_peer-Connected :
      (requester_id target_id : Text) (m : PeerManager)
      → Connected requester_id target_id m (handle_connect_peer dump requester_id target_id m)
  unfolding handle_connect_peer call_at
  handle_connect_peer-Connected requester_id target_id m =
      let P = Connected requester_id target_id m in
      option_cases P (get_session requester_id m) _ _ (inl (cons≢nil, refl)) (λ requester e.
        option_cases P (get_session target_id m) _ _ (inl (cons≢nil, refl)) (λ target f.
          option_cases P (m.store target).device_info _ _ (inl (cons≢nil, refl)) (λ target_device g.
            option_cases P (m.store requester).device_info _ _ (inl (cons≢nil, refl))
              (λ requester_device h. inr (
                refl,
                refl,
                requester,
                target,
                requester_device,
                target_device,
                e,
                f,
                h,
                g,
                λ q. refl,
              )))))

  -- The nodes whose entry leads to a session, in the order of the map.
  unfoldable pub owners : ℕ → Dict ℕ → List Text
  owners q [] = []
  owners q ((node_id, session) ∷ sessions) =
      let rest = owners q sessions in if session == q then node_id ∷ rest else rest

  -- One message after the other.
  unfoldable pub told_lists : (Text → List Device) → List Text → Session → Session
  told_lists get_peers [] s = s
  told_lists get_peers (node_id ∷ nodes) s =
      told_lists get_peers nodes (send_json (dump (peer_list (get_peers node_id))) s)

  send_lists-owners :
      (get_peers : Text → List Device) (sessions : Dict ℕ) (store : Store) (q : ℕ)
      → send_lists dump get_peers sessions store q
        ≡ told_lists get_peers (owners q sessions) (store q)
  unfolding send_lists owners told_lists call_at
  send_lists-owners get_peers [] store q = refl
  send_lists-owners get_peers ((node_id, session) ∷ sessions) store q =
      elim (Bool-cases (session == q)) [
        | inl hit ↦ rw hit (send_lists-owners get_peers sessions _ q ∙ rw hit refl)
        | inr miss ↦ rw miss (send_lists-owners get_peers sessions _ q ∙ rw miss refl)
      ]

  -- A broadcast sends to each session the peer lists of the nodes whose entries lead to it, one message to
  -- an entry, and to no other session anything; the entries stay.
  pub broadcast_peer_list_lem :
      (changed_node_id : Text) (get_peers : Text → List Device) (m : PeerManager) (q : ℕ)
      → ((broadcast_peer_list dump changed_node_id get_peers m).sessions ≡ m.sessions)
        × ((broadcast_peer_list dump changed_node_id get_peers m).store q
            ≡ told_lists get_peers (owners q m.sessions) (m.store q))
  unfolding broadcast_peer_list
  broadcast_peer_list_lem changed_node_id get_peers m q =
      (refl, send_lists-owners get_peers m.sessions m.store q)
