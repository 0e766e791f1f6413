-- ===== src/Punch/Handshake.antt =====
-- The Noise messages of src/client/UdpPuncher.cpp and what they leave of the session.
use natt.Prelude.{
  ◌+◌, ◌≡◌, refl, ap, ◌∙◌, Bool, true, false, not, ◌&&◌, ◌||◌, Option, none, some, if◌then◌else◌,
  is_empty, Text,
}
use natt.Prelude.Int.{ℤ, pos}
use natt.Json.{JsonLib, dump_object}
use natt.Noise.{OpenSsl}
use natt.Noise.Session.{Noise, build_handshake_message1}
use mathlib.Core.Path.{subst}
use natt.Noise.Complete.{build_handshake_message1_complete}
use natt.Punch.{Puncher, arm_timeout, send_to}
use natt.Punch.Send.{
  noise_retry_fires, send_noise_handshake, schedule_noise_retry, first_message,
  start_noise_handshake, is_stage, handshake_fields,
}
use natt.Punch.Timers.{send_to-Keeps}
use natt.Punch.Told.{
  IsComplete, Keeps, Keeps-trans, Keeps-quiet, Keeps-refl, Keeps-if, Keeps-if-pair, Keeps-elim,
}

module _ (lib : JsonLib) (ssl : OpenSsl) where
  pub send_noise_handshake-Keeps :
      (stage : ℤ) (payload : Text) (s : Puncher)
      → Keeps s (send_noise_handshake lib ssl stage payload s).0
  unfolding send_noise_handshake
  send_noise_handshake-Keeps stage payload s =
      Keeps-if-pair s (not s.peer_endpoint_known) _ _ (λ _. Keeps-refl s)
        (λ _.
          sent (
            dump_object lib (handshake_fields lib ssl s.my_node_id s.target_node_id stage payload)))
    where
      kept : Puncher
      kept = record s { last_noise_stage = stage; last_noise_message = payload }

      sent :
          (dumped : Option Text)
          → Keeps s
              (elim dumped as (λ _. Puncher × Bool) [
                | none ↦ (kept, true)
                | some message ↦ (send_to message s.peer_endpoint kept, false)
              ]).0
      sent none = Keeps-quiet s kept refl refl refl (λ i. i)
      sent (some message) =
          Keeps-trans s kept _ (Keeps-quiet s kept refl refl refl (λ i. i))
            (send_to-Keeps message s.peer_endpoint kept)

  schedule_noise_retry-Keeps : (s : Puncher) → Keeps s (schedule_noise_retry lib ssl s)
  unfolding schedule_noise_retry
  schedule_noise_retry-Keeps s =
      Keeps-if s _ _ _ (λ _. Keeps-refl s)
        (λ _. Keeps-quiet s (record s { noise_retry_armed = true }) refl refl refl (λ i. i))

  pub noise_retry_fires-Keeps : (s : Puncher) → Keeps s (noise_retry_fires lib ssl s)
  unfolding noise_retry_fires
  noise_retry_fires-Keeps s =
      Keeps-if s (s.success || not s.noise_initiator) _ _
        (λ _. Keeps-quiet s (record s { noise_retry_armed = false }) refl refl refl (λ i. i))
        (λ _. Keeps-trans s counted _ (Keeps-quiet s counted refl refl refl (λ i. i)) (
          Keeps-if counted sent.1 sent.0 (schedule_noise_retry lib ssl sent.0) (λ _. told)
            (λ _. Keeps-trans counted sent.0 _ told (schedule_noise_retry-Keeps sent.0))))
    where
      counted : Puncher
      counted = record s {
        noise_retry_armed = false;
        handshake_retry_count = s.handshake_retry_count + 1;
      }

      sent : Puncher × Bool
      sent = send_noise_handshake lib ssl s.last_noise_stage s.last_noise_message counted

      told : Keeps counted sent.0
      told = send_noise_handshake-Keeps s.last_noise_stage s.last_noise_message counted

  -- A session that takes the place of another one, which was not complete unless it is.
  pub renew-Keeps :
      (noise after : Noise) (s : Puncher)
      → s.noise ≡ some noise
      → (noise.handshake_complete ≡ true → after.handshake_complete ≡ true)
      → Keeps s (record s { noise = some after })
  renew-Keeps noise after s held grows =
      Keeps-quiet s (record s { noise = some after }) refl refl refl
        (λ i enabled ready. grows (subst IsComplete held (i enabled ready)))

  first_message-Keeps :
      (random : Option Text) (noise : Noise) (s : Puncher)
      → s.noise ≡ some noise
      → Keeps s (first_message lib ssl random noise s)
  unfolding first_message arm_timeout
  first_message-Keeps random noise s held =
      let after = build_handshake_message1 ssl random noise in
      let kept = record s { noise = some after.0 } in
      let renewed = renew-Keeps noise after.0 s held (λ complete.
        ap (λ (p : Noise × Option Text). p.0.handshake_complete)
          (build_handshake_message1_complete ssl noise complete random)
        ∙ complete) in
      Keeps-elim s after.1 kept _ renewed (λ msg1 e.
        let told = send_noise_handshake lib ssl (pos 1) msg1 kept in
        Keeps-trans s kept _ renewed (
          Keeps-trans kept told.0 _ (send_noise_handshake-Keeps (pos 1) msg1 kept) (
            Keeps-if told.0 told.1 told.0 (schedule_noise_retry lib ssl (arm_timeout told.0))
              (λ _. Keeps-refl told.0)
              (λ _.
                Keeps-trans told.0 (arm_timeout told.0) _ (Keeps-quiet _ _ refl refl refl (λ i. i))
                  (schedule_noise_retry-Keeps (arm_timeout told.0))))))

  pub start_noise_handshake-Keeps :
      (random : Option Text) (s : Puncher) → Keeps s (start_noise_handshake lib ssl random s)
  unfolding start_noise_handshake
  start_noise_handshake-Keeps random s =
      Keeps-if s
        (not s.noise_enabled || not s.noise_initiator || not s.peer_endpoint_known || s.success) s
        (if is_stage s.last_noise_stage 1 && not (is_empty s.last_noise_message)
          then elim s.noise [ none ↦ s | some _ ↦ again ]
          else elim s.noise [ none ↦ s | some noise ↦ first_message lib ssl random noise s ])
        (λ _. Keeps-refl s)
        (λ _.
          Keeps-if s (is_stage s.last_noise_stage 1 && not (is_empty s.last_noise_message)) _ _
            (λ _.
              Keeps-elim s s.noise s (λ noise. again) (Keeps-refl s)
                (λ noise e. send_noise_handshake-Keeps s.last_noise_stage s.last_noise_message s))
            (λ _.
              Keeps-elim s s.noise s (λ noise. first_message lib ssl random noise s) (Keeps-refl s)
                (λ noise e. first_message-Keeps random noise s e)))
    where
      again : Puncher
      again = (send_noise_handshake lib ssl s.last_noise_stage s.last_noise_message s).0
