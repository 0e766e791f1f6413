-- ===== src/Punch/Events.antt =====
-- The use of a puncher of src/client/UdpPuncher.cpp as a sequence of events: calls of its methods,
-- datagrams and timers.
use natt.Prelude.{ℕ, Bool, Option, List, [], ◌∷◌, Text}
use natt.Prelude.Int.{ℤ}
use natt.Address.{Outcome, ok}
use natt.Json.{JsonLib}
use natt.Relay.Registry.{Endpoint}
use natt.Relay.Server.{Completion}
use natt.Noise.{OpenSsl, StaticKeypair}
use natt.Noise.Session.{Role}
use natt.Punch.{
  PunchTarget, Puncher, MakeAddress, start, stop, add_target, timeout_fires, configure_noise,
  start_relay_heartbeat, stop_relay_heartbeat,
}
use natt.Punch.Send.{
  punch_timer_fires, start_punching, relay_hb_fires, noise_retry_fires, send_peer_packet,
}
use natt.Punch.Receive.{handle_receive}

-- A packet to the peer has a first byte: see `Sealed` for an empty one.
pub data Event : Type 0 where
  started stopped : Event
  target_added : PunchTarget → Event
  noise_configured : Role → StaticKeypair → Text → Event
  punching_started : ℕ → Text → Text → ℤ → Event
  completed : ℕ → Option Text → Completion → Event
  timed_out : Event
  burst_due : ℕ → Event
  retry_due : Event
  packet_given : Bool → Text → Text → ℤ → ℕ → Text → Event
  relay_started : Text → Endpoint → ℤ → Event
  relay_stopped : Event
  relay_due : Event

-- No new attempt starts.
abbrev pub InRound : Event → Type 0
InRound (punching_started now my_node_id target_node_id interval_ms) = ⊥
InRound _ = Unit

-- What the caller has behind a call that gives a state and a result.
abbrev pub state_of : Puncher → Outcome (Puncher × Bool) → Puncher
state_of s (ok (t, sent)) = t
state_of s _ = s

module _ (lib : JsonLib) (ssl : OpenSsl) (make_address : MakeAddress) where
  unfoldable pub step : Event → Puncher → Puncher
  step started s = start s
  step stopped s = stop s
  step (target_added target) s = add_target target s
  step (noise_configured role local_static peer_key) s =
      configure_noise ssl role local_static peer_key s
  step (punching_started now my_node_id target_node_id interval_ms) s =
      (start_punching lib make_address now my_node_id target_node_id interval_ms s).0
  step (completed now random completion) s = handle_receive lib ssl now random completion s
  step timed_out s = timeout_fires s
  step (burst_due now) s = (punch_timer_fires lib make_address now s).0
  step retry_due s = noise_retry_fires lib ssl s
  step (packet_given failed from_node_id to_node_id seq byte bytes) s =
      state_of s (send_peer_packet lib ssl failed from_node_id to_node_id seq (byte ∷ bytes) s)
  step (relay_started node_id relay_ep interval_sec) s =
      start_relay_heartbeat node_id relay_ep interval_sec s
  step relay_stopped s = stop_relay_heartbeat s
  step relay_due s = relay_hb_fires lib s

  unfoldable pub run : List Event → Puncher → Puncher
  run [] s = s
  run (e ∷ es) s = run es (step e s)
