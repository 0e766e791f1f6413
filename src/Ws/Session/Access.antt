-- ===== src/Ws/Session/Access.antt =====
-- Who may use a session, over everything that may happen to it.
use natt.Prelude.{
  inr, member, All, text_eq_refl, ℕ, ◌+◌, ◌-◌, ◌≡◌, refl, Bool, true, false, not, ◌&&◌, List, [],
  ◌∷◌, ◌++◌, arith, ltb, if◌then◌else◌, is_empty, Text, txt,
}
use natt.Ws.Session.{
  closed, Task, sends, closes, Session, created, start, accepted, close, set_device_info,
  mark_stale, do_write, run_task, run_posted, Ending, finished, cancelled, broken, Callbacks,
  call_disconnect, handle_message, read_done, write_done, timer_fires,
}
use natt.Ws.Session.Steps.{
  Event, accepts, reads, writes, strand_runs, fires, posts, closes_it, replaces, shows, shown, step,
  run,
}
use natt.Prelude.Int.{leb_ℤ}
use natt.Clock.{elapsed_seconds}
use natt.Json.{JsonLib}
use natt.Ws.Device.{Device}
use natt.Ws.Session.Cases.{handle_message-Reaction}
use natt.Ws.Session.Trust.{
  All-snoc, Trusted, Trusted-send_json, Trusted-call_disconnect, Trusted-Reaction,
}

module _ (lib : JsonLib) (cb : Callbacks lib) (ids : List Text) where
  Trusted-if :
      (b : Bool) (x y : Session)
      → (b ≡ true → Trusted lib cb ids x)
      → (b ≡ false → Trusted lib cb ids y)
      → Trusted lib cb ids (if b then x else y)
  Trusted-if true x y h k = h refl
  Trusted-if false x y h k = k refl

  Trusted-read_done :
      (now : ℕ) (ending : Ending) (payload : Text) (s : Session)
      → Trusted lib cb ids s
      → Trusted lib cb ids (read_done lib cb now ending payload s)
  unfolding read_done
  Trusted-read_done now finished payload s h =
      Trusted-Reaction lib cb ids now payload s (handle_message lib cb now payload s)
        (handle_message-Reaction lib cb now payload s) h
  Trusted-read_done now cancelled payload s h = h
  Trusted-read_done now broken payload s h =
      let ended : Session = record s { reading = false } in
      Trusted-if s.stale ended (call_disconnect lib cb ended) (λ old. h)
        (λ current. Trusted-call_disconnect lib cb ids ended h)

  Trusted-do_write : (s : Session) → Trusted lib cb ids s → Trusted lib cb ids (do_write s)
  unfolding do_write
  Trusted-do_write s h =
      Trusted-if (is_empty s.write_queue) (record s { writing = false })
        (record s { writing = true; in_flight = s.in_flight + 1 }) (λ done. h) (λ more. h)

  Trusted-write_done :
      (ending : Ending) (s : Session)
      → Trusted lib cb ids s
      → Trusted lib cb ids (write_done lib cb ending s)
  unfolding write_done
  Trusted-write_done finished s h = went s.write_queue
    where
      went :
          (q : List Text)
          → Trusted lib cb ids (elim q [
            | [] ↦ s
            | msg ∷ rest ↦ do_write (record s {
              in_flight = s.in_flight - 1;
              write_queue = rest;
              written = s.written ++ msg ∷ [];
            })
          ])
      went [] = h
      went (msg ∷ rest) =
          Trusted-do_write
            (record s {
              in_flight = s.in_flight - 1;
              write_queue = rest;
              written = s.written ++ msg ∷ [];
            })
            h
  Trusted-write_done cancelled s h = h
  Trusted-write_done broken s h =
      Trusted-call_disconnect lib cb ids (record s { in_flight = s.in_flight - 1 }) h

  Trusted-run_posted : (s : Session) → Trusted lib cb ids s → Trusted lib cb ids (run_posted s)
  unfolding run_posted run_task
  Trusted-run_posted s h = went s.posted
    where
      went :
          (ts : List Task)
          → Trusted lib cb ids
              (elim ts [ [] ↦ s | t ∷ ts' ↦ run_task t (record s { posted = ts' }) ])
      went [] = h
      went (sends msg ∷ ts) =
          let queued : Session = record s {
            posted = ts;
            write_queue = s.write_queue ++ msg ∷ [];
          } in
          Trusted-if s.writing queued (do_write queued) (λ busy. h)
            (λ idle. Trusted-do_write queued h)
      went (closes reason ∷ ts) =
          ((λ out. ((h.0 out).0, All-snoc s.calls (closed reason) (h.0 out).1 tt)), h.1)

  Trusted-timer_fires :
      (now : ℕ) (s : Session) → Trusted lib cb ids s → Trusted lib cb ids (timer_fires lib cb now s)
  unfolding timer_fires close
  Trusted-timer_fires now s h =
      let rung : Session = record s { timer_armed = false } in
      let told : Session = call_disconnect lib cb rung in
      Trusted-if
        (not s.stale && leb_ℤ cb.heartbeat_timeout_sec (elapsed_seconds now s.last_heartbeat))
        (close (txt "heartbeat_timeout") told) (record s { timer_armed = true })
        (λ late. Trusted-call_disconnect lib cb ids rung h) (λ early. h)

  Trusted-shown :
      (device : Device) (s : Session)
      → member device.node_id ids ≡ true
      → Trusted lib cb ids s
      → Trusted lib cb ids (if s.authenticated then set_device_info device s else s)
  unfolding set_device_info
  Trusted-shown device s listed h =
      Trusted-if s.authenticated (set_device_info device s) s
        (λ within.
          let (first, admitted, origin) = h.1 within in
          ((λ out. absurd (ground (arith, within, out))), (λ again. (first, admitted, inr listed))))
        (λ out. h)

  -- A device that an event shows is listed.
  abbrev Listed : Event → Type 0
  Listed (shows device) = member device.node_id ids ≡ true
  Listed _ = Unit

  Trusted-step :
      (e : Event) (s : Session)
      → Listed e
      → Trusted lib cb ids s
      → Trusted lib cb ids (step lib cb e s)
  unfolding step accepted mark_stale close
  Trusted-step accepts s l h = h
  Trusted-step (reads now ending payload) s l h =
      Trusted-if s.reading (read_done lib cb now ending payload s) s
        (λ on. Trusted-read_done now ending payload s h) (λ off. h)
  Trusted-step (writes ending) s l h =
      Trusted-if (ltb 0 s.in_flight) (write_done lib cb ending s) s
        (λ flying. Trusted-write_done ending s h) (λ landed. h)
  Trusted-step strand_runs s l h = Trusted-run_posted s h
  Trusted-step (fires now) s l h =
      Trusted-if s.timer_armed (timer_fires lib cb now s) s (λ armed. Trusted-timer_fires now s h)
        (λ off. h)
  Trusted-step (posts msg) s l h = Trusted-send_json lib cb ids msg s h
  Trusted-step (closes_it reason) s l h = h
  Trusted-step replaces s l h = h
  Trusted-step (shows device) s l h = Trusted-shown device s l h

  run-Trusted :
      (es : List Event) (s : Session)
      → All Listed es
      → Trusted lib cb ids s
      → Trusted lib cb ids (run lib cb es s)
  unfolding run
  run-Trusted [] s l h = h
  run-Trusted (e ∷ es) s l h = run-Trusted es (step lib cb e s) l.1 (Trusted-step e s l.0 h)

module _ (lib : JsonLib) (cb : Callbacks lib) where
  shown-Listed :
      (es : List Event) (ids : List Text)
      → ((t : Text) → member t (shown es) ≡ true → member t ids ≡ true)
      → All (Listed lib cb ids) es
  unfolding shown member
  shown-Listed [] ids h = tt
  shown-Listed (shows device ∷ es) ids h = (
    h device.node_id (ground (arith, text_eq_refl device.node_id)),
    shown-Listed es ids (λ t e. h t (ground (arith, e))),
  )
  shown-Listed (accepts ∷ es) ids h = (tt, shown-Listed es ids h)
  shown-Listed (reads now ending payload ∷ es) ids h = (tt, shown-Listed es ids h)
  shown-Listed (writes ending ∷ es) ids h = (tt, shown-Listed es ids h)
  shown-Listed (strand_runs ∷ es) ids h = (tt, shown-Listed es ids h)
  shown-Listed (fires now ∷ es) ids h = (tt, shown-Listed es ids h)
  shown-Listed (posts msg ∷ es) ids h = (tt, shown-Listed es ids h)
  shown-Listed (closes_it reason ∷ es) ids h = (tt, shown-Listed es ids h)
  shown-Listed (replaces ∷ es) ids h = (tt, shown-Listed es ids h)

  -- Over every sequence of events of a new session, in which the server's message handlers may also
  -- give it a device: while it is not authenticated, it has no node id, no message of it was handled
  -- and no disconnect reported; once it is authenticated, the callback for nodes accepted a node id
  -- that is not empty and gave the session an id, or the callback for tokens accepted a token and it had
  -- none; and the id that it has is this one, or that of a device it was given.
  pub access_lem :
      (opened : ℕ) (es : List Event)
      → Trusted lib cb (shown es) (run lib cb es (start (created opened)))
  unfolding created start
  access_lem opened es =
      run-Trusted lib cb (shown es) es (start (created opened))
        (shown-Listed es (shown es) (λ t e. e))
        ((λ out. (refl, tt)), (λ within. absurd (ground arith)))
