-- ===== src/Relay/Server/History.antt =====
-- The relay server over time: which nodes stay registered, and which are dropped.
use natt.Prelude.{
  ℕ, ◌+◌, ◌-◌, ◌*◌, ◌≤◌, ◌<◌, ◌≡◌, refl, ◌∙◌, inl, inr, true, Option, none, some, List, [], ◌∷◌,
  arith, ltb, if◌then◌else◌, Bool-cases, All, Text, text_eq, eq_iff, lookup, IsMap, insert-IsMap,
}
use natt.Clock.{second}
use natt.Json.{JsonLib}
use natt.Relay.Registry.{NodeEntry, Registry, register_node, update_heartbeat, cleanup_expired}
use natt.Relay.Registry.Laws.{
  network_of, register_node_lem, lookup-update_heartbeat, lookup-cleanup_expired,
  cleanup_expired-IsMap,
}
use natt.Relay.Server.{
  Server, node_timeout_sec, Completion, aborted, failed, received, do_receive, schedule_cleanup,
  start, stop, do_cleanup, handle_receive,
}
use natt.Relay.Server.Receive.{Touch, kept, registered, heard, handle_receive-Modest}

-- What the event loop runs; each with the time at which it runs.
pub data Event : Type 0 where
  completes : Completion → Event
  cleanup_fires : Event
  starts : Event
  stops : Event

module _ (lib : JsonLib) where
  unfoldable pub step : ℕ × Event → Server → Server
  step (now, completes c) s = handle_receive lib now c s
  step (now, cleanup_fires) s = do_cleanup now s
  step (now, starts) s = start s
  step (now, stops) s = stop s

  unfoldable pub run : List (ℕ × Event) → Server → Server
  run [] s = s
  run (e ∷ es) s = run es (step e s)

-- The node is registered in the network and was heard of at the time t or later.
abbrev pub Alive : Text → Text → ℕ → Registry → Type 0
Alive id net t nodes =
    (entry : NodeEntry) × (lookup id nodes ≡ some entry)
    × (entry.network_id ≡ net)
    × (t ≤ entry.last_seen)

Touch-IsMap : (now : ℕ) (nodes after : Registry) → Touch now nodes after → IsMap nodes → IsMap after
unfolding register_node update_heartbeat
Touch-IsMap now nodes after (kept e) h = rw e h
Touch-IsMap now nodes after (registered id net ep _ _ e) h = rw e (registers (lookup id nodes) refl)
  where
    registers :
        (o : Option NodeEntry) → lookup id nodes ≡ o → IsMap (register_node now id net ep nodes).0
    registers none q = rw (q, register_node) (insert-IsMap id _ nodes h)
    registers (some entry) q = rw (q, register_node) (insert-IsMap id _ nodes h)
Touch-IsMap now nodes after (heard id e) h = rw e (hears (lookup id nodes) refl)
  where
    hears : (o : Option NodeEntry) → lookup id nodes ≡ o → IsMap (update_heartbeat now id nodes)
    hears none q = rw (q, update_heartbeat) h
    hears (some entry) q = rw (q, update_heartbeat) (insert-IsMap id _ nodes h)

Touch-Alive :
    (now : ℕ) (nodes after : Registry) (id net : Text) (t : ℕ)
    → Touch now nodes after
    → t ≤ now
    → Alive id net t nodes
    → Alive id net t after
Touch-Alive now nodes after id net t (kept e) h a = rw e a
Touch-Alive now nodes after id net t (registered j n ep _ _ e) h (entry, q, same, young) =
    elim (Bool-cases (text_eq j id)) [
      | inl hit ↦ (
        record { endpoint = ep; network_id = network_of j n nodes; last_seen = now },
        rw e ((register_node_lem now j n ep nodes).1 id ∙ rw hit),
        ground (arith, hit, eq_iff j id),
        h,
      )
      | inr miss ↦
          (entry, rw e ((register_node_lem now j n ep nodes).1 id ∙ rw miss q), same, young)
    ]
Touch-Alive now nodes after id net t (heard j e) h (entry, q, same, young) =
    elim (Bool-cases (text_eq j id)) [
      | inl hit ↦ (
        record entry { last_seen = now },
        rw e (lookup-update_heartbeat now j id nodes ∙ rw (q, hit)),
        same,
        h,
      )
      | inr miss ↦
          (entry, rw e (lookup-update_heartbeat now j id nodes ∙ rw (q, miss)), same, young)
    ]

-- A sweep before the timeout has passed since t.
cleanup-Alive :
    (now : ℕ) (nodes : Registry) (id net : Text) (t : ℕ)
    → IsMap nodes
    → now < t + 30 * second
    → Alive id net t nodes
    → Alive id net t (cleanup_expired now node_timeout_sec nodes).0
cleanup-Alive now nodes id net t m h (entry, q, same, young) = (
  entry,
  lookup-cleanup_expired now node_timeout_sec id nodes m ∙ rw q (ground arith),
  same,
  young,
)

module _ (lib : JsonLib) where
  -- The registry stays a map, and an entry that is younger than the timeout survives every event.
  step-Alive :
      (now : ℕ) (event : Event) (s : Server) (id net : Text) (t : ℕ)
      → IsMap s.registry
      → t ≤ now
      → now < t + 30 * second
      → Alive id net t s.registry
      → IsMap (step lib (now, event) s).registry × Alive id net t (step lib (now, event) s).registry
  unfolding step start stop do_cleanup do_receive schedule_cleanup handle_receive
  step-Alive now (completes (received payload sender)) s id net t m h k a =
      let touched = (handle_receive-Modest lib now payload sender s).touched in
      (Touch-IsMap now _ _ touched m, Touch-Alive now _ _ id net t touched h a)
  step-Alive now (completes aborted) s id net t m h k a = (m, a)
  step-Alive now (completes failed) s id net t m h k a = (m, a)
  step-Alive now cleanup_fires s id net t m h k a = (
    cleanup_expired-IsMap now node_timeout_sec s.registry m,
    cleanup-Alive now s.registry id net t m k a,
  )
  step-Alive now starts s id net t m h k a = (m, a)
  step-Alive now stops s id net t m h k a = (m, a)

  -- A node that was heard of at the time t stays registered, in its network, through all that happens
  -- in the 30 seconds from t on: datagrams of any content from anyone, sweeps, and restarts.
  pub stays_registered :
      (events : List (ℕ × Event)) (s : Server) (id net : Text) (t : ℕ)
      → IsMap s.registry
      → Alive id net t s.registry
      → All (λ e. (t ≤ e.0) × (e.0 < t + 30 * second)) events
      → Alive id net t (run lib events s).registry
  unfolding run
  stays_registered [] s id net t m a h = a
  stays_registered ((now, event) ∷ events) s id net t m a h =
      let (m', a') = step-Alive now event s id net t m h.0.0 h.0.1 a in
      stays_registered events (step lib (now, event) s) id net t m' a' h.1

-- When the sweep has run, a node is registered exactly if it was and has been idle for less than
-- 30 seconds, its entry is as it was, and the timer is armed again.
pub do_cleanup_lem :
    (now : ℕ) (s : Server) (id : Text)
    → IsMap s.registry
    → (lookup id (do_cleanup now s).registry ≡ (elim (lookup id s.registry) [
      | none ↦ none
      | some entry ↦ if ltb (now - entry.last_seen) (30 * second) then some entry else none
    ]))
      × ((do_cleanup now s).cleanup_armed ≡ true)
unfolding do_cleanup schedule_cleanup
do_cleanup_lem now s id m =
    (lookup-cleanup_expired now node_timeout_sec id s.registry m ∙ ground arith, refl)
