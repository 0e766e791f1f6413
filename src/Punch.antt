-- ===== src/Punch.antt =====
-- The state of src/client/UdpPuncher.{h,cpp}, the methods that a caller uses, and the handlers of its
-- timers. An asynchronous call that is under way is a flag of the state; the handler of a timer may run at
-- any time, also where a cancel came too late. What is sent is a list in the order of sending. A callback
-- that is set is told its arguments, which are a list as well; it does not call the puncher back.
pub mod Send
pub mod Receive
pub mod Events
pub mod Told
pub mod Timers
pub mod Handshake
pub mod Datagrams
pub mod Run
pub mod Packets
mod Tests
use natt.Prelude.{
  append_nil, append_assoc, ℕ, zero, suc, ◌+◌, ◌-◌, ◌*◌, ◌/◌, ◌%◌, ◌^◌, ◌≤◌, ◌<◌, ◌≡◌, refl, sym,
  ap, ◌∙◌, ◌≢◌, ◌↔◌, ◌⊎◌, inl, inr, Bool, true, false, not, ◌&&◌, ◌||◌, Option, none, some, List,
  [], ◌∷◌, ◌++◌, map, arith, ltb, leb, ◌==◌, if◌then◌else◌, ltb→lt, lt→ltb, leb→le, le→leb, ==_iff,
  Bool-cases, Option-cases, is_some, length, is_empty, get_or, set, take, drop, replicate, keep_if,
  All, length-append, length-replicate, length-map, length-take, length-drop, take-append-drop,
  length-keep_if-le, Text, txt, text_eq, split_at, split_at-append, split_at-none, Splits,
  split_at-Splits, Lacks, text_eq_refl, eq_of_text_eq, eq_iff, Dict, lookup, insert, erase, IsMap,
  lookup-insert, lookup-erase, insert-IsMap, erase-IsMap, length-insert, Every, lookup-Every,
  insert-Every, erase-Every, member,
}
use natt.Prelude.Int.{ℤ, pos, negsuc, sub_ℕ, ltb_ℤ}
use natt.Json.{JsonLib, Field, text, number}
use natt.Address.{to_string}
use natt.Relay.Registry.{Endpoint}
use natt.Relay.Server.{Datagram}
use natt.Relay.Client.{send_relay_heartbeat}
use natt.Noise.{OpenSsl, StaticKeypair, Sealed, encode_base64}
use natt.Noise.Session.{Role, is_initiator, Noise, make_noise, build_handshake_message1, encrypt}

pub record PunchTarget : Type 0 where
  pub ip : Text
  pub port : ℕ

pub record PunchResult : Type 0 where
  pub success : Bool
  pub remote_node_id : Text
  pub remote_ip : Text
  pub remote_port : ℕ
  pub rtt_ms : ℤ

-- What a callback is told.
pub data Call : Type 0 where
  punch_result : PunchResult → Call
  packet_seen : Text → Text → ℤ → Endpoint → Call
  peer_packet : Text → Text → ℤ → Call
  relay_packet : Text → Text → ℤ → Call
  relay_event : Text → Text → Text → Call

-- Which callbacks are set.
pub record Callbacks : Type 0 where
  pub punch_cb : Bool
  pub packet_cb : Bool
  pub peer_packet_cb : Bool
  pub relay_packet_cb : Bool
  pub relay_event_cb : Bool

-- `relay_hb` holds what the timer of the relay heartbeat has captured.
pub record Puncher : Type 0 where
  pub my_node_id : Text
  pub target_node_id : Text
  pub targets : List PunchTarget
  pub punching : Bool
  pub success : Bool
  pub interval_ms : ℤ
  pub start_time_ms : ℕ
  pub ack_time_ms : ℕ
  pub peer_endpoint : Endpoint
  pub peer_endpoint_known : Bool
  pub punch_path_ready : Bool
  pub noise_ready : Bool
  pub noise_enabled : Bool
  pub noise_initiator : Bool
  pub last_noise_stage : ℤ
  pub handshake_retry_count : ℕ
  pub last_noise_message : Text
  pub noise : Option Noise
  pub callbacks : Callbacks
  pub receiving : Bool
  pub punch_armed : Bool
  pub timeout_armed : Bool
  pub noise_retry_armed : Bool
  pub relay_hb : Option (Text × Endpoint × ℤ)
  pub sent : List Datagram
  pub calls : List Call

-- The constructor, with the callbacks that are set before anything happens.
unfoldable pub make_puncher : Callbacks → Puncher
make_puncher callbacks = record {
  my_node_id = [];
  target_node_id = [];
  targets = [];
  punching = false;
  success = false;
  interval_ms = pos 100;
  start_time_ms = 0;
  ack_time_ms = 0;
  peer_endpoint = record { address = txt "0.0.0.0"; port = 0 };
  peer_endpoint_known = false;
  punch_path_ready = false;
  noise_ready = false;
  noise_enabled = false;
  noise_initiator = false;
  last_noise_stage = pos 0;
  handshake_retry_count = 0;
  last_noise_message = [];
  noise = none;
  callbacks = callbacks;
  receiving = false;
  punch_armed = false;
  timeout_armed = false;
  noise_retry_armed = false;
  relay_hb = none;
  sent = [];
  calls = [];
}

unfoldable pub do_receive : Puncher → Puncher
do_receive s = record s { receiving = true }

unfoldable pub start : Puncher → Puncher
unfolding do_receive
start s = do_receive s

unfoldable pub stop : Puncher → Puncher
stop s = record s {
  punching = false;
  receiving = false;
  punch_armed = false;
  timeout_armed = false;
  noise_retry_armed = false;
  relay_hb = none;
  peer_endpoint_known = false;
  punch_path_ready = false;
  noise_ready = false;
  noise_enabled = false;
  noise_initiator = false;
  last_noise_stage = pos 0;
  handshake_retry_count = 0;
  last_noise_message = [];
  noise = none;
}

unfoldable pub add_target : PunchTarget → Puncher → Puncher
add_target target s = record s { targets = s.targets ++ target ∷ [] }

-- `if (cb) cb(...)`
unfoldable pub notify : Bool → Call → Puncher → Puncher
notify is_set call s = if is_set then record s { calls = s.calls ++ call ∷ [] } else s

unfoldable pub send_to : Text → Endpoint → Puncher → Puncher
send_to payload dest s = record s {
  sent = s.sent ++ record { payload = payload; dest = dest } ∷ [];
}

unfoldable pub arm_timeout : Puncher → Puncher
arm_timeout s = record s { timeout_armed = true }

-- The handler of the timer that `armTimeout` sets.
unfoldable pub timeout_fires : Puncher → Puncher
unfolding notify
timeout_fires s =
    let idle = record s { timeout_armed = false; punching = false } in
    if s.success
    then idle
    else notify s.callbacks.punch_cb
        (punch_result (record {
          success = false;
          remote_node_id = s.target_node_id;
          remote_ip = [];
          remote_port = 0;
          rtt_ms = pos 0;
        }))
        (record idle { noise_retry_armed = false })

unfoldable pub complete_secure_punch : ℕ → Text → Puncher → Puncher
unfolding notify
complete_secure_punch now remote_node_id s =
    if s.success
    then s
    else notify s.callbacks.punch_cb
        (punch_result (record {
          success = true;
          remote_node_id = remote_node_id;
          remote_ip = s.peer_endpoint.address;
          remote_port = s.peer_endpoint.port;
          rtt_ms = sub_ℕ now s.start_time_ms;
        }))
        (record s {
          success = true;
          noise_ready =
              (if s.noise_enabled
                then elim s.noise [ none ↦ false | some noise ↦ noise.handshake_complete ]
                else true);
          ack_time_ms = now;
          punching = false;
          timeout_armed = false;
          punch_armed = false;
          noise_retry_armed = false;
        })

abbrev pub to_text : ℤ → Text
to_text (pos n) = to_string n
to_text (negsuc n) = 45 ∷ to_string (n + 1)

unfoldable pub build_packet_ad : Text → Text → ℤ → Text
build_packet_ad from_node_id to_node_id seq =
    from_node_id ++ (124 ∷ (to_node_id ++ (124 ∷ to_text seq)))

unfoldable pub stop_relay_heartbeat : Puncher → Puncher
stop_relay_heartbeat s = record s { relay_hb = none }

unfoldable pub start_relay_heartbeat : Text → Endpoint → ℤ → Puncher → Puncher
unfolding stop_relay_heartbeat
start_relay_heartbeat node_id relay_ep interval_sec s = record (stop_relay_heartbeat s) {
  relay_hb = some (node_id, relay_ep, interval_sec);
}

module _ (ssl : OpenSsl) where
  unfoldable pub configure_noise : Role → StaticKeypair → Text → Puncher → Puncher
  configure_noise role local_static peer_static_public_key s = record s {
    noise = some (make_noise ssl role local_static peer_static_public_key);
    noise_enabled = true;
    noise_initiator = is_initiator role;
    noise_ready = false;
    last_noise_stage = pos 0;
    handshake_retry_count = 0;
    last_noise_message = [];
  }

-- What the puncher uses of Boost.Asio: `net::ip::make_address` of a text, which throws where there is none.
abbrev pub MakeAddress : Type 0
MakeAddress = Text → Option Text
