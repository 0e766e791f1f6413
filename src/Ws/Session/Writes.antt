-- ===== src/Ws/Session/Writes.antt =====
-- src/ws/ws_session.cpp: the write queue under every event.
use natt.Prelude.{
  append_assoc, ℕ, ◌+◌, ◌-◌, ◌<◌, ◌≡◌, refl, sym, ap, ◌∙◌, Bool, true, false, not, ◌&&◌, List, [],
  ◌∷◌, ◌++◌, arith, ltb, if◌then◌else◌, is_empty, Text, txt,
}
use natt.Ws.Session.{
  closed, Task, sends, closes, Session, accepted, send_json, close, note, set_device_info,
  mark_stale, do_write, run_task, run_posted, Ending, finished, cancelled, broken, Callbacks,
  call_disconnect, handle_message, read_done, write_done, timer_fires,
}
use natt.Ws.Session.Steps.{
  Event, accepts, reads, writes, strand_runs, fires, posts, closes_it, replaces, shows, step, run,
}
use natt.Prelude.Int.{leb_ℤ}
use natt.Clock.{elapsed_seconds}
use natt.Json.{JsonLib}
use natt.Ws.Session.Queue.{
  texts_of, history, Orderly, Keeps, Grows-same, Grows-trans, Quiet, Quiet-Orderly, Quiet-Grows,
}
use natt.Ws.Session.Cases.{handle_message-Reaction}
use natt.Ws.Session.Order.{
  Quiet-refl, Quiet-trans, Quiet-send_json, Quiet-close, Quiet-call_disconnect, Quiet-Reaction,
}

Keeps-Quiet : (s t : Session) → Orderly s → Quiet s t → Keeps s t
Keeps-Quiet s t h q = (Quiet-Orderly s t q h, Quiet-Grows s t q)

Keeps-if :
    (b : Bool) (s x y : Session)
    → (b ≡ true → Keeps s x)
    → (b ≡ false → Keeps s y)
    → Keeps s (if b then x else y)
Keeps-if true s x y h k = h refl
Keeps-if false s x y h k = k refl

is_empty-append : (xs : List Text) (m : Text) → is_empty (xs ++ m ∷ []) ≡ false
is_empty-append [] m = refl
is_empty-append (x ∷ xs) m = refl

Keeps-run_task :
    (t : Task) (ts : List Task) (s : Session)
    → Orderly s
    → s.posted ≡ t ∷ ts
    → Keeps s (run_task t (record s { posted = ts }))
unfolding run_task
Keeps-run_task (sends msg) ts s (h, k, l) e =
    Keeps-if s.writing s queued (do_write queued)
      (λ busy. (
        (
          h,
          (λ one. (busy, is_empty-append s.write_queue msg)),
          (λ idle. ground (arith, busy, idle)),
        ),
        Grows-same s queued same,
      ))
      (λ idle. started idle)
  where
    queued : Session
    queued = record s { posted = ts; write_queue = s.write_queue ++ msg ∷ [] }

    same : history queued ≡ history s
    same =
        ap (λ (xs : List Text). s.written ++ xs)
          (append_assoc s.write_queue (msg ∷ []) (texts_of ts))
        ∙ ap (λ (us : List Task). s.written ++ (s.write_queue ++ texts_of us)) (sym e)

    none_flies : s.writing ≡ false → s.in_flight ≡ 0
    none_flies idle = ground (arith, idle, h, k)

    started : s.writing ≡ false → Keeps s (do_write queued)
    started idle =
        rw (do_write, is_empty-append s.write_queue msg)
          (
            (
              omega (arith, none_flies idle),
              (λ one. (refl, is_empty-append s.write_queue msg)),
              (λ never. absurd (ground (arith, never))),
            ),
            Grows-same s (record queued { writing = true; in_flight = s.in_flight + 1 }) same,
          )
Keeps-run_task (closes reason) ts s h e = (
  h,
  Grows-same s (note (closed reason) (record s { posted = ts }))
      (ap (λ (us : List Task). s.written ++ (s.write_queue ++ texts_of us)) (sym e)),
)

Keeps-run_posted : (s : Session) → Orderly s → Keeps s (run_posted s)
unfolding run_posted
Keeps-run_posted s h = go s.posted refl
  where
    go :
        (ts : List Task)
        → s.posted ≡ ts
        → Keeps s (elim ts [ [] ↦ s | t ∷ ts' ↦ run_task t (record s { posted = ts' }) ])
    go [] e = Keeps-Quiet s s h (Quiet-refl s)
    go (t ∷ ts) e = Keeps-run_task t ts s h e

module _ (lib : JsonLib) (cb : Callbacks lib) where
  Keeps-read_done :
      (now : ℕ) (ending : Ending) (payload : Text) (s : Session)
      → Orderly s
      → Keeps s (read_done lib cb now ending payload s)
  unfolding read_done
  Keeps-read_done now finished payload s h =
      let t : Session = handle_message lib cb now payload s in
      Keeps-Quiet s t h
        (Quiet-Reaction lib cb now payload s t (handle_message-Reaction lib cb now payload s))
  Keeps-read_done now cancelled payload s h =
      Keeps-Quiet s (record s { reading = false }) h (Quiet-refl s)
  Keeps-read_done now broken payload s h =
      let ended : Session = record s { reading = false } in
      Keeps-if s.stale s ended (call_disconnect lib cb ended)
        (λ old. Keeps-Quiet s ended h (Quiet-refl s))
        (λ current.
          Keeps-Quiet s (call_disconnect lib cb ended) h (Quiet-call_disconnect lib cb ended))

  Keeps-write_done :
      (ending : Ending) (s : Session)
      → Orderly s
      → 0 < s.in_flight
      → Keeps s (write_done lib cb ending s)
  unfolding write_done do_write
  Keeps-write_done finished s (h, k, l) flying = went s.write_queue refl
    where
      one : s.in_flight ≡ 1
      one = omega (arith, h, flying)

      went :
          (q : List Text)
          → s.write_queue ≡ q
          → Keeps s (elim q [
            | [] ↦ s
            | msg ∷ rest ↦ do_write (record s {
              in_flight = s.in_flight - 1;
              write_queue = rest;
              written = s.written ++ msg ∷ [];
            })
          ])
      went [] e = absurd (ground (arith, e, k one))
      went (msg ∷ []) e = (
        (omega (arith, one), (λ again. absurd (omega (arith, one, again))), (λ idle. refl)),
        Grows-same s
            (record s {
              in_flight = s.in_flight - 1;
              write_queue = [];
              written = s.written ++ msg ∷ [];
              writing = false;
            })
            (append_assoc s.written (msg ∷ []) (texts_of s.posted)
              ∙ ap (λ (xs : List Text). s.written ++ (xs ++ texts_of s.posted)) (sym e)),
      )
      went (msg ∷ next ∷ rest) e = (
        (omega (arith, one), (λ again. (refl, refl)), (λ idle. absurd (ground (arith, idle)))),
        Grows-same s
            (record s {
              in_flight = s.in_flight - 1 + 1;
              write_queue = next ∷ rest;
              written = s.written ++ msg ∷ [];
              writing = true;
            })
            (append_assoc s.written (msg ∷ []) ((next ∷ rest) ++ texts_of s.posted)
              ∙ ap (λ (xs : List Text). s.written ++ (xs ++ texts_of s.posted)) (sym e)),
      )
  Keeps-write_done cancelled s (h, k, l) flying = (
    (omega arith, (λ one. absurd (omega arith)), l),
    Grows-same s (record s { in_flight = s.in_flight - 1 }) refl,
  )
  Keeps-write_done broken s (h, k, l) flying =
      let landed : Session = record s { in_flight = s.in_flight - 1 } in
      Keeps-Quiet landed (call_disconnect lib cb landed)
        (omega arith, (λ one. absurd (omega arith)), l) (Quiet-call_disconnect lib cb landed)

  Keeps-timer_fires : (now : ℕ) (s : Session) → Orderly s → Keeps s (timer_fires lib cb now s)
  unfolding timer_fires
  Keeps-timer_fires now s h =
      let rung : Session = record s { timer_armed = false } in
      let told : Session = call_disconnect lib cb rung in
      Keeps-if
        (not s.stale && leb_ℤ cb.heartbeat_timeout_sec (elapsed_seconds now s.last_heartbeat)) s
        (close (txt "heartbeat_timeout") told) (record s { timer_armed = true })
        (λ late. Keeps-Quiet s (close (txt "heartbeat_timeout") told) h (
          Quiet-trans s told (close (txt "heartbeat_timeout") told)
            (Quiet-call_disconnect lib cb rung) (Quiet-close (txt "heartbeat_timeout") told)))
        (λ early. Keeps-Quiet s (record s { timer_armed = true }) h (Quiet-refl s))

  Keeps-step : (e : Event) (s : Session) → Orderly s → Keeps s (step lib cb e s)
  unfolding step accepted mark_stale set_device_info
  Keeps-step accepts s h = Keeps-Quiet s (accepted s) h (Quiet-refl s)
  Keeps-step (reads now ending payload) s h =
      Keeps-if s.reading s (read_done lib cb now ending payload s) s
        (λ on. Keeps-read_done now ending payload s h) (λ off. Keeps-Quiet s s h (Quiet-refl s))
  Keeps-step (writes ending) s h =
      Keeps-if (ltb 0 s.in_flight) s (write_done lib cb ending s) s
        (λ flying. Keeps-write_done ending s h (ground (arith, flying)))
        (λ landed. Keeps-Quiet s s h (Quiet-refl s))
  Keeps-step strand_runs s h = Keeps-run_posted s h
  Keeps-step (fires now) s h =
      Keeps-if s.timer_armed s (timer_fires lib cb now s) s (λ armed. Keeps-timer_fires now s h)
        (λ off. Keeps-Quiet s s h (Quiet-refl s))
  Keeps-step (posts msg) s h = Keeps-Quiet s (send_json msg s) h (Quiet-send_json msg s)
  Keeps-step (closes_it reason) s h = Keeps-Quiet s (close reason s) h (Quiet-close reason s)
  Keeps-step replaces s h = Keeps-Quiet s (mark_stale s) h (Quiet-refl s)
  Keeps-step (shows device) s h =
      Keeps-if s.authenticated s (set_device_info device s) s
        (λ on. Keeps-Quiet s (set_device_info device s) h (Quiet-refl s))
        (λ off. Keeps-Quiet s s h (Quiet-refl s))

  -- From a session whose queue is in order, any events, failed writes among them, leave one with the
  -- queue in order: at most one write is under way, of a message that is in the queue, and where the
  -- session is not `writing`, no message waits. The written, waiting and posted messages together only
  -- grow at the end, so that none is lost, doubled or overtaken.
  pub run-Keeps : (es : List Event) (s : Session) → Orderly s → Keeps s (run lib cb es s)
  unfolding run
  run-Keeps [] s h = Keeps-Quiet s s h (Quiet-refl s)
  run-Keeps (e ∷ es) s h =
      let kept : Keeps s (step lib cb e s) = Keeps-step e s h in
      let rest : Keeps (step lib cb e s) (run lib cb es (step lib cb e s)) =
        run-Keeps es (step lib cb e s) kept.0 in
      (rest.0, Grows-trans s (step lib cb e s) (run lib cb es (step lib cb e s)) kept.1 rest.1)
