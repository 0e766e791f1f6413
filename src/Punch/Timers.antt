-- ===== src/Punch/Timers.antt =====
-- The methods and timers of src/client/UdpPuncher.cpp that hear nothing from the network: what they tell
-- the punch callback.
use natt.Prelude.{
  append_nil, ℕ, ◌≡◌, refl, ap, ◌∙◌, inl, inr, Bool, true, false, not, ◌||◌, Option, none, some,
  List, [], ◌∷◌, ◌++◌, if◌then◌else◌, Option-cases, is_empty, Text, txt,
}
use natt.Json.{JsonLib, bind-some, dump_object}
use natt.Relay.Registry.{Endpoint}
use natt.Relay.Client.{send_relay_heartbeat}
use natt.Noise.Session.{Noise}
use natt.Punch.{
  PunchTarget, Puncher, Call, MakeAddress, notify, send_to, timeout_fires, complete_secure_punch,
  start_relay_heartbeat,
}
use natt.Punch.Send.{
  punch_fields, send_punch, send_punches, do_send_punch, punch_timer_fires, relay_hb_fires,
}
use natt.Punch.Told.{
  results, results-append, IsComplete, Keeps, Keeps-trans, Keeps-quiet, Keeps-told, Keeps-refl,
  Keeps-some, Keeps-if, Keeps-if-pair, Keeps-elim,
}

pub notify-Keeps :
    (is_set : Bool) (call : Call) (s : Puncher)
    → results (call ∷ []) ≡ []
    → Keeps s (notify is_set call s)
unfolding notify
notify-Keeps true call s e =
    Keeps-quiet s (record s { calls = s.calls ++ call ∷ [] }) refl
      (results-append s.calls (call ∷ [])
        ∙ ap (λ (r : List Bool). results s.calls ++ r) e
        ∙ append_nil (results s.calls))
      refl (λ i. i)
notify-Keeps false call s e = Keeps-refl s

pub timeout_fires-Keeps : (s : Puncher) → Keeps s (timeout_fires s)
unfolding timeout_fires notify results
timeout_fires-Keeps s =
    Keeps-if s s.success _ _
      (λ done.
        Keeps-quiet s (record s { timeout_armed = false; punching = false }) refl refl refl
          (λ i. i))
      (λ pending.
        Keeps-told s
          (record s { timeout_armed = false; punching = false; noise_retry_armed = false }) _
          s.callbacks.punch_cb refl pending refl refl pending (λ i. i))

computed_ready :
    (enabled : Bool) (noise : Option Noise)
    → enabled ≡ true
    → (if enabled then elim noise [ none ↦ false | some n ↦ n.handshake_complete ] else true) ≡ true
    → IsComplete noise
computed_ready true none e h = absurd (cc)
computed_ready true (some n) e h = h
computed_ready false noise e h = absurd (cc)

pub complete_secure_punch-Keeps :
    (now : ℕ) (remote_node_id : Text) (s : Puncher)
    → Keeps s (complete_secure_punch now remote_node_id s)
unfolding complete_secure_punch
complete_secure_punch-Keeps now remote_node_id s =
    Keeps-if s s.success _ _ (λ done. Keeps-refl s)
      (λ pending.
        Keeps-told s
          (record s {
            success = true;
            noise_ready =
                (if s.noise_enabled
                  then elim s.noise [ none ↦ false | some noise ↦ noise.handshake_complete ]
                  else true);
            ack_time_ms = now;
            punching = false;
            timeout_armed = false;
            punch_armed = false;
            noise_retry_armed = false;
          })
          _ s.callbacks.punch_cb refl pending refl refl refl
          (λ i. computed_ready s.noise_enabled s.noise))

pub send_to-Keeps :
    (payload : Text) (dest : Endpoint) (s : Puncher) → Keeps s (send_to payload dest s)
unfolding send_to
send_to-Keeps payload dest s = Keeps-quiet s _ refl refl refl (λ i. i)

module _ (lib : JsonLib) (make_address : MakeAddress) where
  send_punch-Keeps :
      (now : ℕ) (my_node_id target_node_id : Text) (target : PunchTarget) (s t : Puncher)
      → send_punch lib make_address now my_node_id target_node_id target s ≡ some t
      → Keeps s t
  unfolding send_punch send_to
  send_punch-Keeps now my_node_id target_node_id target s t e =
      let (payload, dumped, after) =
        bind-some (dump_object lib (punch_fields lib (txt "punch") my_node_id target_node_id now)) _
          t e in
      let (address, good, rest) = bind-some (make_address target.ip) _ t after in
      Keeps-some s _ t rest (send_to-Keeps _ _ s)

  send_punches-Keeps :
      (now : ℕ) (targets : List PunchTarget) (s : Puncher)
      → Keeps s (send_punches lib make_address now targets s).0
  unfolding send_punches
  send_punches-Keeps now [] s = Keeps-refl s
  send_punches-Keeps now (target ∷ targets) s =
      elim (Option-cases (send_punch lib make_address now s.my_node_id s.target_node_id target s)) [
        | inl bad ↦ rw (send_punches, bad) (Keeps-refl s)
        | inr (t, good) ↦
            rw (send_punches, good)
              (Keeps-trans s t _ (send_punch-Keeps now _ _ target s t good)
                (send_punches-Keeps now targets t))
      ]

  pub do_send_punch-Keeps :
      (now : ℕ) (s : Puncher) → Keeps s (do_send_punch lib make_address now s).0
  unfolding do_send_punch
  do_send_punch-Keeps now s =
      let burst = send_punches-Keeps now s.targets s in
      Keeps-if-pair s (not s.punching || s.success || is_empty s.targets) _ _ (λ _. Keeps-refl s)
        (λ _.
          Keeps-if-pair s (send_punches lib make_address now s.targets s).1 _ _ (λ _. burst)
            (λ _.
              Keeps-trans s (send_punches lib make_address now s.targets s).0 _ burst
                (Keeps-quiet _ _ refl refl refl (λ i. i))))

  pub punch_timer_fires-Keeps :
      (now : ℕ) (s : Puncher) → Keeps s (punch_timer_fires lib make_address now s).0
  unfolding punch_timer_fires
  punch_timer_fires-Keeps now s =
      Keeps-trans s (record s { punch_armed = false }) _ (Keeps-quiet _ _ refl refl refl (λ i. i))
        (do_send_punch-Keeps now _)

  pub relay_hb_fires-Keeps : (s : Puncher) → Keeps s (relay_hb_fires lib s)
  unfolding relay_hb_fires start_relay_heartbeat send_to
  relay_hb_fires-Keeps s = Keeps-elim s s.relay_hb s _ (Keeps-refl s) (λ captured set.
      Keeps-elim s (send_relay_heartbeat lib captured.0) (record s { relay_hb = none }) _
        (Keeps-quiet s _ refl refl refl (λ i. i))
        (λ payload dumped.
          Keeps-trans s (send_to payload captured.1 s) _ (send_to-Keeps _ _ s)
            (Keeps-quiet _ _ refl refl refl (λ i. i))))
