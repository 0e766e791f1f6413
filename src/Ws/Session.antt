-- ===== src/Ws/Session.antt =====
-- src/ws/ws_session.{h,cpp}: one WebSocket session. What the asynchronous layer does is an event;
-- what is posted on the strand is run in order. The callbacks are parameters: a call of one is noted
-- in `calls`, and what it sends to this session is its result. They do not throw. `now` is the steady
-- clock. src/ws/wss_session.cpp has the same logic over a TLS stream.
pub mod Steps
pub mod Queue
pub mod Cases
pub mod Order
pub mod Writes
pub mod Trust
pub mod Access
mod Tests
use natt.Prelude.{
  ℕ, ◌+◌, ◌-◌, Bool, true, false, not, ◌&&◌, Option, none, some, List, [], ◌∷◌, ◌++◌, if◌then◌else◌,
  is_empty, Text, txt, text_eq,
}
use natt.Prelude.Int.{ℤ, leb_ℤ}
use natt.Clock.{elapsed_seconds}
use natt.Json.{JsonLib, text, number, ◌>>=◌}
use natt.Auth.Jwt.{JwtPayload}
use natt.Ws.Device.{Device}

-- The fields that node authentication uses.
pub record AuthResult : Type 0 where
  pub success : Bool
  pub error_msg : Text
  pub node_id : Text
  pub network_id : Text
  pub public_key : Text

pub data Call : Type 0 where
  handled : Text → Text → Call
  disconnected : Text → Call
  closed : Text → Call

-- What waits on the strand.
pub data Task : Type 0 where
  sends : Text → Task
  closes : Text → Task

pub record Session : Type 0 where
  pub authenticated : Bool
  pub node_id : Text
  pub network_id : Text
  pub public_key : Text
  pub device_info : Option Device
  pub last_heartbeat : ℕ
  pub stale : Bool
  pub posted : List Task
  pub write_queue : List Text
  pub writing : Bool
  -- The `async_write`s that are under way, and the messages that were written.
  pub in_flight : ℕ
  pub written : List Text
  pub reading : Bool
  pub timer_armed : Bool
  pub calls : List Call

-- The constructors.
unfoldable pub created : ℕ → Session
created now = record {
  authenticated = false;
  node_id = [];
  network_id = [];
  public_key = [];
  device_info = none;
  last_heartbeat = now;
  stale = false;
  posted = [];
  write_queue = [];
  writing = false;
  in_flight = 0;
  written = [];
  reading = false;
  timer_armed = false;
  calls = [];
}

unfoldable pub start : Session → Session
start s = record s { timer_armed = true }

-- The WebSocket handshake is over.
unfoldable pub accepted : Session → Session
accepted s = record s { reading = true }

unfoldable pub send_json : Text → Session → Session
send_json json_str s = record s { posted = s.posted ++ sends json_str ∷ [] }

unfoldable pub close : Text → Session → Session
close reason s = record s { posted = s.posted ++ closes reason ∷ [] }

abbrev pub note : Call → Session → Session
note call s = record s { calls = s.calls ++ call ∷ [] }

-- The messages that a callback sends.
unfoldable pub send_all : List Text → Session → Session
unfolding send_json
send_all [] s = s
send_all (m ∷ ms) s = send_all ms (send_json m s)

unfoldable pub set_device_info : Device → Session → Session
set_device_info device s = record s { device_info = some device; node_id = device.node_id }

unfoldable pub mark_stale : Session → Session
mark_stale s = record s { stale = true }

unfoldable pub do_write : Session → Session
do_write s =
    if is_empty s.write_queue
    then record s { writing = false }
    else record s { writing = true; in_flight = s.in_flight + 1 }

-- The first task of the strand.
unfoldable pub run_task : Task → Session → Session
unfolding do_write
run_task (sends msg) s =
    let queued = record s { write_queue = s.write_queue ++ msg ∷ [] } in
    if queued.writing then queued else do_write queued
run_task (closes reason) s = note (closed reason) s

unfoldable pub run_posted : Session → Session
unfolding run_task
run_posted s = elim s.posted [ [] ↦ s | t ∷ ts ↦ run_task t (record s { posted = ts }) ]

-- How an asynchronous call ends.
pub data Ending : Type 0 where
  finished : Ending
  cancelled : Ending
  broken : Ending

module _ (lib : JsonLib) where
  open lib use {Json, parse, dump, object, text_or, has_key, text_at}

  -- The callbacks. A disconnect handler and a message handler may be missing; so may the checks of the
  -- other protocol.
  pub record Callbacks : Type 0 where
    pub use_node_auth : Bool
    pub auth_cb : Text → Option JwtPayload
    pub post_auth_cb : ℤ → Text → List Text
    pub node_auth_cb : Option (Text → Text → Text → AuthResult)
    pub post_node_auth_cb : Text → List Text
    pub msg_handler : Option (Text → Json → List Text)
    pub has_disconnect_handler : Bool
    pub heartbeat_timeout_sec : ℤ

  abbrev pub error_text : Text → Text
  error_text message =
      dump (object ((txt "type", text (txt "error")) ∷ (txt "message", text message) ∷ []))

  unfoldable pub call_disconnect : Callbacks → Session → Session
  call_disconnect cb s =
      if not (is_empty s.node_id) && cb.has_disconnect_handler
      then note (disconnected s.node_id) s
      else s

  abbrev pub auth_ok_node : Text → Text → Text
  auth_ok_node node_id network_id = dump (
      object (
        (txt "type", text (txt "auth_ok"))
        ∷ (txt "node_id", text node_id)
        ∷ (txt "network_id", text network_id)
        ∷ []))

  abbrev pub auth_ok_user : ℤ → Text → Text
  auth_ok_user user_id username = dump (
      object (
        (txt "type", text (txt "auth_ok"))
        ∷ (txt "user_id", number user_id)
        ∷ (txt "username", text username)
        ∷ []))

  -- The answer of the callback.
  abbrev pub node_auth_result : Callbacks → ℕ → AuthResult → Session → Session
  node_auth_result cb now result s =
      if result.success
      then send_all (cb.post_node_auth_cb result.node_id) (
          send_json (auth_ok_node result.node_id result.network_id) (record s {
            authenticated = true;
            node_id = result.node_id;
            network_id = result.network_id;
            public_key = result.public_key;
            last_heartbeat = now;
          }))
      else send_json (error_text result.error_msg) s

  unfoldable pub node_auth : Callbacks → ℕ → Text → Text → Text → Session → Session
  node_auth cb now node_id network_id public_key s =
      if is_empty node_id
      then send_json (error_text (txt "node_id is required")) s
      else elim cb.node_auth_cb [
        | none ↦ send_json (error_text (txt "Server does not support node auth")) s
        | some check ↦ node_auth_result cb now (check node_id network_id public_key) s
      ]

  unfoldable pub token_auth : Callbacks → ℕ → Text → Session → Session
  token_auth cb now token s = elim (cb.auth_cb token) [
    | none ↦ send_json (error_text (txt "Invalid token")) s
    | some payload ↦ send_json (auth_ok_user payload.user_id payload.username) (
        send_all (cb.post_auth_cb payload.user_id payload.username)
          (record s { authenticated = true; last_heartbeat = now }))
  ]

  -- `none` is an exception: every value is read before anything is changed.
  unfoldable pub handle_auth_message : Callbacks → ℕ → Json → Session → Option Session
  handle_auth_message cb now json s = do
    type ← text_at json (txt "type")
    if not (text_eq type (txt "auth"))
        then some (send_json (error_text (txt "Authentication required")) s)
        else if cb.use_node_auth
        then (do
          node_id ← text_or json (txt "node_id") []
          network_id ← text_or json (txt "network_id") []
          public_key ← text_or json (txt "public_key") []
          some (node_auth cb now node_id network_id public_key s))
        else (do token ← text_at json (txt "token"); some (token_auth cb now token s))

  -- A message of an authenticated session, of any type.
  unfoldable pub delegate : Callbacks → ℕ → Text → Text → Json → Session → Session
  delegate cb now type payload json s =
      let active = record s { last_heartbeat = now } in
      elim cb.msg_handler [
        | some handler ↦
            send_all (handler active.node_id json) (note (handled active.node_id payload) active)
        | none ↦
            if text_eq type (txt "heartbeat")
            then send_json (dump (object ((txt "type", text (txt "pong")) ∷ []))) active
            else active
      ]

  -- The body of the `try`.
  unfoldable pub try_message : Callbacks → ℕ → Text → Session → Option Session
  try_message cb now payload s = do
    json ← parse payload
    if not (has_key json (txt "type"))
        then some (send_json (error_text (txt "Missing 'type' field")) s)
        else (do
          type ← text_at json (txt "type")
          if not s.authenticated
              then handle_auth_message cb now json s
              else some (delegate cb now type payload json s))

  unfoldable pub handle_message : Callbacks → ℕ → Text → Session → Session
  handle_message cb now payload s = elim (try_message cb now payload s) [
    | none ↦ send_json (error_text (txt "Invalid message format")) s
    | some s' ↦ s'
  ]

  -- The completions. A read that fails ends the reading.
  unfoldable pub read_done : Callbacks → ℕ → Ending → Text → Session → Session
  read_done cb now finished payload s = handle_message cb now payload s
  read_done cb now cancelled payload s = record s { reading = false }
  read_done cb now broken payload s =
      let ended = record s { reading = false } in
      if s.stale then ended else call_disconnect cb ended

  unfoldable pub write_done : Callbacks → Ending → Session → Session
  unfolding do_write
  write_done cb finished s = elim s.write_queue [
    | [] ↦ s
    | msg ∷ rest ↦ do_write (record s {
      in_flight = s.in_flight - 1;
      write_queue = rest;
      written = s.written ++ msg ∷ [];
    })
  ]
  write_done cb cancelled s = record s { in_flight = s.in_flight - 1 }
  write_done cb broken s = call_disconnect cb (record s { in_flight = s.in_flight - 1 })

  unfoldable pub timer_fires : Callbacks → ℕ → Session → Session
  timer_fires cb now s =
      if not s.stale && leb_ℤ cb.heartbeat_timeout_sec (elapsed_seconds now s.last_heartbeat)
      then close (txt "heartbeat_timeout") (call_disconnect cb (record s { timer_armed = false }))
      else record s { timer_armed = true }
