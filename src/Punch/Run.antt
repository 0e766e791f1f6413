-- ===== src/Punch/Run.antt =====
-- A puncher of src/client/UdpPuncher.cpp over every sequence of events.
use natt.Prelude.{
  ℕ, ◌≡◌, refl, inl, inr, Bool, true, false, not, ◌||◌, Option, none, some, List, [], ◌∷◌, ◌++◌,
  if◌then◌else◌, Option-cases, All, Text,
}
use natt.Prelude.Int.{ℤ, pos, ltb_ℤ}
use natt.Address.{Outcome, ok, throws, undefined}
use natt.Json.{JsonLib, dump_object}
use natt.Noise.{OpenSsl, Sealed, ciphertext, nullopt, overrun}
use natt.Noise.Session.{encrypt}
use natt.Punch.{
  Puncher, MakeAddress, start, stop, add_target, send_to, configure_noise, start_relay_heartbeat,
  stop_relay_heartbeat, do_receive, arm_timeout, build_packet_ad,
}
use natt.Punch.Send.{start_punching, send_peer_packet, peer_fields, nonce_of}
use natt.Punch.Events.{
  Event, started, stopped, target_added, noise_configured, punching_started, completed, timed_out,
  burst_due, retry_due, packet_given, relay_started, relay_stopped, relay_due, InRound, state_of,
  step, run,
}
use natt.Punch.Told.{results, Told, IsComplete, Keeps, Keeps-trans, Keeps-quiet, Keeps-refl}
use natt.Punch.Timers.{
  send_to-Keeps, timeout_fires-Keeps, do_send_punch-Keeps, punch_timer_fires-Keeps,
  relay_hb_fires-Keeps,
}
use natt.Punch.Handshake.{noise_retry_fires-Keeps}
use natt.Punch.Datagrams.{handle_receive-Keeps}

module _ (lib : JsonLib) (ssl : OpenSsl) (make_address : MakeAddress) where
  sealed-Keeps :
      (refused failed : Bool) (sealed : Sealed) (dumped : Text → Option Text) (s : Puncher)
      → Keeps s (
          state_of s (
            if refused then ok (s, false) else elim sealed [
              | overrun ↦ undefined
              | nullopt ↦ ok (s, false)
              | ciphertext bytes ↦ elim (dumped bytes) [
                | none ↦ throws
                | some payload ↦
                    if failed then ok (s, false) else ok (send_to payload s.peer_endpoint s, true)
              ]
            ]))
  sealed-Keeps true failed sealed dumped s = Keeps-refl s
  sealed-Keeps false failed overrun dumped s = Keeps-refl s
  sealed-Keeps false failed nullopt dumped s = Keeps-refl s
  sealed-Keeps false failed (ciphertext bytes) dumped s = given (dumped bytes) failed
    where
      given :
          (o : Option Text) (failed : Bool)
          → Keeps s (
              state_of s (elim o as (λ _. Outcome (Puncher × Bool)) [
                | none ↦ throws
                | some payload ↦
                    if failed then ok (s, false) else ok (send_to payload s.peer_endpoint s, true)
              ]))
      given none failed = Keeps-refl s
      given (some payload) true = Keeps-refl s
      given (some payload) false = send_to-Keeps payload s.peer_endpoint s

  send_peer_packet-Keeps :
      (failed : Bool) (from_node_id to_node_id : Text) (seq : ℤ) (bytes : Text) (s : Puncher)
      → Keeps s (state_of s (send_peer_packet lib ssl failed from_node_id to_node_id seq bytes s))
  unfolding send_peer_packet
  send_peer_packet-Keeps failed from_node_id to_node_id seq bytes s = elim (Option-cases s.noise) [
    | inl unset ↦ simp (send_peer_packet, unset) (Keeps-refl s)
    | inr (noise, set) ↦
        simp (send_peer_packet, set)
          (sealed-Keeps
            (not s.success
              || not s.peer_endpoint_known
              || not s.noise_enabled
              || not s.noise_ready
              || ltb_ℤ seq (pos 0))
            failed
            (encrypt ssl noise (nonce_of seq) bytes (build_packet_ad from_node_id to_node_id seq))
            (λ x. dump_object lib (peer_fields lib ssl from_node_id to_node_id seq x)) s)
  ]

  step-Keeps : (e : Event) (s : Puncher) → InRound e → Keeps s (step lib ssl make_address e s)
  unfolding step start stop add_target configure_noise start_relay_heartbeat stop_relay_heartbeat
      do_receive
  step-Keeps started s h = Keeps-quiet s _ refl refl refl (λ i. i)
  step-Keeps stopped s h = Keeps-quiet s _ refl refl refl (λ i enabled ready. absurd (cc))
  step-Keeps (target_added target) s h = Keeps-quiet s _ refl refl refl (λ i. i)
  step-Keeps (noise_configured role local_static peer_key) s h =
      Keeps-quiet s _ refl refl refl (λ i enabled ready. absurd (cc))
  step-Keeps (punching_started now my_node_id target_node_id interval_ms) s h = absurd h
  step-Keeps (completed now random completion) s h =
      handle_receive-Keeps lib ssl now random completion s
  step-Keeps timed_out s h = timeout_fires-Keeps s
  step-Keeps (burst_due now) s h = punch_timer_fires-Keeps lib make_address now s
  step-Keeps retry_due s h = noise_retry_fires-Keeps lib ssl s
  step-Keeps (packet_given failed from_node_id to_node_id seq byte bytes) s h =
      send_peer_packet-Keeps failed from_node_id to_node_id seq (byte ∷ bytes) s
  step-Keeps (relay_started node_id relay_ep interval_sec) s h =
      Keeps-quiet s _ refl refl refl (λ i. i)
  step-Keeps relay_stopped s h = Keeps-quiet s _ refl refl refl (λ i. i)
  step-Keeps relay_due s h = relay_hb_fires-Keeps lib make_address s

  run-Keeps :
      (es : List Event) (s : Puncher) → All InRound es → Keeps s (run lib ssl make_address es s)
  unfolding run
  run-Keeps [] s h = Keeps-refl s
  run-Keeps (e ∷ es) s h =
      Keeps-trans s (step lib ssl make_address e s) _ (step-Keeps e s h.0)
        (run-Keeps es (step lib ssl make_address e s) h.1)

  -- From a call of `startPunching` to the next, over every sequence of other calls, datagrams from anyone
  -- and timers, the punch callback is told failures and then at most one success, behind which it is told
  -- nothing; it is told a success if and only if `isSuccess` holds at the end. A puncher with Noise that
  -- says that it is ready then has a session that has finished its handshake.
  pub round-Told :
      (es : List Event) (s : Puncher) (now : ℕ) (my_node_id target_node_id : Text) (interval_ms : ℤ)
      → s.callbacks.punch_cb ≡ true
      → All InRound es
      → (let t =
            run lib ssl make_address
              (punching_started now my_node_id target_node_id interval_ms ∷ es)
              s in
          (new : List Bool) × (results t.calls ≡ results s.calls ++ new)
          × Told false t.success new
          × (t.noise_enabled ≡ true → t.noise_ready ≡ true → IsComplete t.noise))
  unfolding run step start_punching arm_timeout
  round-Told es s now my_node_id target_node_id interval_ms set h =
      let k =
        Keeps-trans fresh (step lib ssl make_address event s) _
          (do_send_punch-Keeps lib make_address now fresh) (run-Keeps es _ h) in
      let (new, e, told) = k.reported set in (new, e, told, k.secure (λ enabled ready. absurd (cc)))
    where
      event : Event
      event = punching_started now my_node_id target_node_id interval_ms

      fresh : Puncher
      fresh = record s {
        my_node_id = my_node_id;
        target_node_id = target_node_id;
        interval_ms = interval_ms;
        punching = true;
        success = false;
        peer_endpoint_known = false;
        punch_path_ready = false;
        noise_ready = false;
        last_noise_stage = pos 0;
        handshake_retry_count = 0;
        last_noise_message = [];
        start_time_ms = now;
        timeout_armed = true;
      }
