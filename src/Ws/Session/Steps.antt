-- ===== src/Ws/Session/Steps.antt =====
-- src/ws/ws_session.cpp: what the asynchronous layer and the other parts may do to a session, in any
-- order.
use natt.Prelude.{ℕ, List, [], ◌∷◌, ltb, if◌then◌else◌, Text}
use natt.Ws.Session.{
  Session, accepted, send_json, close, set_device_info, mark_stale, run_posted, Ending, Callbacks,
  read_done, write_done, timer_fires,
}
use natt.Json.{JsonLib}
use natt.Ws.Device.{Device}

-- What may happen to a session. A completion needs its call to be under way. `shows` is the call of
-- `set_device_info` in the message handlers of src/http/http_server.cpp, which are given the messages of
-- an authenticated session only.
pub data Event : Type 0 where
  accepts : Event
  reads : ℕ → Ending → Text → Event
  writes : Ending → Event
  strand_runs : Event
  fires : ℕ → Event
  posts : Text → Event
  closes_it : Text → Event
  replaces : Event
  shows : Device → Event

module _ (lib : JsonLib) where
  unfoldable pub step : Callbacks lib → Event → Session → Session
  step cb accepts s = accepted s
  step cb (reads now ending payload) s =
      if s.reading then read_done lib cb now ending payload s else s
  step cb (writes ending) s = if ltb 0 s.in_flight then write_done lib cb ending s else s
  step cb strand_runs s = run_posted s
  step cb (fires now) s = if s.timer_armed then timer_fires lib cb now s else s
  step cb (posts msg) s = send_json msg s
  step cb (closes_it reason) s = close reason s
  step cb replaces s = mark_stale s
  step cb (shows device) s = if s.authenticated then set_device_info device s else s

  unfoldable pub run : Callbacks lib → List Event → Session → Session
  run cb [] s = s
  run cb (e ∷ es) s = run cb es (step cb e s)

-- The node ids of the devices that are shown.
unfoldable pub shown : List Event → List Text
shown [] = []
shown (shows device ∷ es) = device.node_id ∷ shown es
shown (accepts ∷ es) = shown es
shown (reads now ending payload ∷ es) = shown es
shown (writes ending ∷ es) = shown es
shown (strand_runs ∷ es) = shown es
shown (fires now ∷ es) = shown es
shown (posts msg ∷ es) = shown es
shown (closes_it reason ∷ es) = shown es
shown (replaces ∷ es) = shown es
