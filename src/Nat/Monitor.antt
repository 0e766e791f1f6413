-- ===== src/Nat/Monitor.antt =====
-- src/nat/heartbeat_monitor.{h,cpp}: the periodic check. The two callbacks work on a state of their
-- own. A timer that is armed may expire; one that expired before `stop` still calls `do_check`.
mod Tests
use natt.Prelude.{
  ℕ, ◌-◌, ◌≡◌, refl, ◌∙◌, Bool, true, false, not, ◌&&◌, Option, none, some, List, [], ◌∷◌, arith,
  if◌then◌else◌, Text, lookup, IsMap, lookup-erase, member,
}
use natt.Prelude.Int.{ℤ}
use natt.Clock.{elapsed_seconds}
use natt.Prelude.Int.{leb_ℤ}
use natt.Nat.Nodes.{NodeInfo, Nodes, remove_node, is_timed_out, find_timed_out_nodes}
use natt.Nat.Nodes.Timeouts.{member-find_timed_out_nodes}

module _ (W : Type 0) where
  pub record Monitor : Type 0 where
    pub running : Bool
    pub timer_armed : Bool
    pub online_check : Option (W → List Text)
    pub timeout_cb : Option (Text → W → W)

  -- The loop over the nodes that are reported.
  unfoldable pub notify : Option (Text → W → W) → List Text → W → W
  notify none timed_out w = w
  notify (some cb) [] w = w
  notify (some cb) (node_id ∷ timed_out) w = notify (some cb) timed_out (cb node_id w)

  unfoldable pub do_check : Monitor → W → Monitor × W
  do_check m w = if not m.running then (m, w) else (
    record m { timer_armed = true },
    elim m.online_check [ none ↦ w | some check ↦ notify m.timeout_cb (check w) w ],
  )

  unfoldable pub start : Monitor → W → Monitor × W
  start m w = do_check (record m { running = true }) w

  unfoldable pub stop : Monitor → Monitor
  stop m = record m { running = false; timer_armed = false }

  unfoldable pub set_timeout_callback : (Text → W → W) → Monitor → Monitor
  set_timeout_callback cb m = record m { timeout_cb = some cb }

  unfoldable pub set_online_check : (W → List Text) → Monitor → Monitor
  set_online_check check m = record m { online_check = some check }

-- The node registry under the monitor: the check finds the silent nodes, the callback removes them.
abbrev pub registry_monitor : ℕ → ℤ → Monitor Nodes → Monitor Nodes
registry_monitor now timeout m =
    set_timeout_callback Nodes remove_node
      (set_online_check Nodes (find_timed_out_nodes now timeout) m)

lookup-notify :
    (j : Text) (ids : List Text) (nodes : Nodes)
    → lookup j (notify Nodes (some remove_node) ids nodes)
      ≡ (if member j ids then none else lookup j nodes)
unfolding notify member remove_node
lookup-notify j [] nodes = refl
lookup-notify j (id ∷ ids) nodes =
    lookup-notify j ids (remove_node id nodes) ∙ ground (arith, lookup-erase id j nodes)

-- A monitor that is started over the node registry removes exactly the nodes that are online and
-- were seen last at least the timeout ago, whether their sessions are open or not, keeps the others as they are, and arms its timer for the next
-- check; a monitor that was stopped does nothing when a timer expires all the same.
pub monitor_lem :
    (now : ℕ) (timeout : ℤ) (j : Text) (m : Monitor Nodes) (nodes : Nodes)
    → IsMap nodes
    → (lookup j (start Nodes (registry_monitor now timeout m) nodes).1 ≡ (elim (lookup j nodes) [
      | none ↦ none
      | some info ↦
          if info.online && leb_ℤ timeout (elapsed_seconds now info.last_seen)
          then none
          else some info
    ]))
      × ((start Nodes (registry_monitor now timeout m) nodes).0.timer_armed ≡ true)
      × (do_check Nodes (stop Nodes m) nodes ≡ (stop Nodes m, nodes))
unfolding start stop do_check set_timeout_callback set_online_check
monitor_lem now timeout j m nodes h = (
  lookup-notify j (find_timed_out_nodes now timeout nodes) nodes
      ∙ rw (member-find_timed_out_nodes now timeout j nodes h) (left (lookup j nodes)),
  refl,
  refl,
)
  where
    left :
        (o : Option NodeInfo)
        → (if elim o [ none ↦ false | some info ↦ is_timed_out now timeout info ] then none else o)
          ≡ (elim o [
            | none ↦ none
            | some info ↦ if is_timed_out now timeout info then none else some info
          ])
    left none = refl
    left (some info) = refl
