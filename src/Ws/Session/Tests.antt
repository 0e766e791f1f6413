-- ===== src/Ws/Session/Tests.antt =====
-- A session from its opening to a failed write, and its theorems at inputs that meet their hypotheses.
use natt.Prelude.{
  ◌*◌, ◌≡◌, refl, true, none, some, List, [], ◌∷◌, arith, length, Text, txt, text_eq, lookup,
}
use natt.Ws.Session.{
  handled, Session, created, start, accepted, send_json, send_all, mark_stale, do_write, run_task,
  run_posted, finished, Callbacks, node_auth, handle_auth_message, delegate, try_message,
  handle_message, read_done, write_done,
}
use natt.Ws.Session.Steps.{Event, accepts, reads, writes, strand_runs, shown, step, run}
use natt.Prelude.Int.{pos}
use natt.Clock.{second}
use natt.Json.{text}
use natt.Json.Plain.{plain, plain_parse, plain_dump, plain_text_at, plain_text_or, plain_has_key}
use natt.Ws.Session.Queue.{Orderly, Grows}
use natt.Ws.Session.Writes.{run-Keeps}
use natt.Ws.Session.Trust.{Trusted}
use natt.Ws.Session.Access.{access_lem}

-- Every node is let in under the id that it asks for; a message is answered with "seen".
abbrev open_house : Callbacks plain
open_house = record {
  use_node_auth = true;
  auth_cb = λ token. none;
  post_auth_cb = λ user_id username. [];
  node_auth_cb = some (λ id net key. record {
    success = true;
    error_msg = [];
    node_id = id;
    network_id = net;
    public_key = key;
  });
  post_node_auth_cb = λ node_id. txt "peers" ∷ [];
  msg_handler = some (λ node_id json. txt "seen" ∷ []);
  has_disconnect_handler = true;
  heartbeat_timeout_sec = pos 45;
}

abbrev hello : Text
hello = plain_dump ((txt "type", text (txt "auth")) ∷ (txt "node_id", text (txt "n1")) ∷ [])

abbrev ping : Text
ping = plain_dump ((txt "type", text (txt "ping")) ∷ [])

-- A ping before the authentication is refused; the ping after it is handled.
abbrev visit : List Event
visit =
    accepts
    ∷ reads second finished ping
    ∷ reads (2 * second) finished hello
    ∷ reads (3 * second) finished ping
    ∷ strand_runs
    ∷ strand_runs
    ∷ writes finished
    ∷ []

abbrev opened : Session
opened = start (created 0)

visit-run :
    ((run plain open_house visit opened).calls ≡ handled (txt "n1") ping ∷ [])
    × (length (run plain open_house visit opened).posted ≡ 2)
    × (length (run plain open_house visit opened).written ≡ 1)
    × ((run plain open_house visit opened).in_flight ≡ 1)
unfolding run step start created accepted read_done handle_message try_message handle_auth_message
    node_auth delegate send_all send_json run_posted run_task do_write write_done plain_parse
    plain_dump plain_text_at plain_text_or plain_has_key text_eq lookup
visit-run = (refl, refl, refl, refl)

run-Keeps_example :
    Orderly (run plain open_house visit opened) × Grows opened (run plain open_house visit opened)
unfolding start created
run-Keeps_example =
    run-Keeps plain open_house visit opened
      (omega arith, (λ one. absurd (omega arith)), (λ idle. refl))

access_lem_example :
    Trusted plain open_house (shown visit) (run plain open_house visit (start (created 0)))
access_lem_example = access_lem plain open_house 0 visit

abbrev replaced : Session
replaced = record (mark_stale opened) { node_id = txt "n1"; in_flight = 1 }
