-- ===== src/Monitor/Watch/Nodes.antt =====
-- internal/monitor/health.go: the node section of a tick. The three maps that `watchLoop` keeps are
-- its latches; a key that is not there reads as false.
pub mod Raises
use cometduty.Prelude.{
  ℕ, suc, Bool, true, false, List, [], ◌∷◌, ◌++◌, String, Option, none, some, ◌-◌,
}
use cometduty.Prelude.{◌==◌, string_eq, if◌then◌else◌, not, ◌&&◌, ◌||◌}
use cometduty.Prelude.Int.{ℤ, ltb_ℤ, pos}
use cometduty.Prelude.Maps.{GoMap, lookup, insert, or_zero}
use cometduty.Prelude.Text.{sprintf, show_ℤ}
use cometduty.Prelude.Time.{is_zero, longer, minutes}
use cometduty.Config.{catch_up, catch_up_severity, is_chain_only}
use cometduty.Alert.{Alert}
use cometduty.Monitor.State.{Chain, NodeState}
use cometduty.Monitor.Alerting.{make_alert, node_label}
use cometduty.Monitor.Watch.{Tick, raise, clear, switch}
use Prim.Native.String.{◌++◌ as ◌<>◌}

pub record Latches : Type 0 where
  pub node_alerted : GoMap String Bool
  pub sync_alerted : GoMap String Bool
  pub stuck_alerted : GoMap String Bool

abbrev pub set? : GoMap String Bool → String → Bool
set? m k = or_zero (lookup k m) false

abbrev pub sync_key : NodeState → String
sync_key n = "catching-up:" <> n.cfg.url

abbrev pub stuck_key : NodeState → String
stuck_key n = "catching-up-stuck:" <> n.cfg.url

abbrev pub down_key : NodeState → String
down_key n = "node-down:" <> n.cfg.url

-- `time.Since(from) >= d`.
abbrev at_least : ℕ → ℕ → ℤ → Bool
at_least now from d = longer (suc now) from d

-- The condition for the announcement.
unfoldable pub announced : Tick → Chain → NodeState → Latches → Bool
announced t c n l =
    catch_up c.cfg.alerts
    && (not (set? l.sync_alerted (sync_key n))
        && (not (t.has_open (sync_key n))
            && (not (is_zero n.sync_since)
                && at_least t.now n.sync_since (minutes c.cfg.alerts.catching_up_grace_min))))

-- A node that syncs is announced once, after the grace period.
unfoldable pub watch_sync : Tick → Chain → NodeState → Latches → Latches × List Alert
watch_sync t c n l =
    if announced t c n l
    then (
      record l { sync_alerted = insert (sync_key n) true l.sync_alerted },
      raise c t (sync_key n) (catch_up_severity c.cfg.alerts) (
            sprintf "RPC node %s is catching up on %s (height %d, syncing for %s)" (
              node_label n
              ∷ c.cfg.chain_id
              ∷ show_ℤ n.height
              ∷ t.duration_text (t.now - n.sync_since)
              ∷ []))
          ∷ [],
    )
    else (l, [])

-- A sync whose height does not move is critical.
unfoldable pub watch_stuck : Tick → Chain → NodeState → Latches → Latches × List Alert
watch_stuck t c n l =
    let min = c.cfg.alerts.catching_up_stuck_min in
    let timed = ltb_ℤ (pos 0) min && not (is_zero n.sync_last_change) in
    let stuck = longer t.now n.sync_last_change (minutes min) in
    let open? = t.has_open (stuck_key n) in
    switch (timed && (stuck && (not (set? l.stuck_alerted (stuck_key n)) && not open?)))
      (timed && (not stuck && (set? l.stuck_alerted (stuck_key n) || open?)))
      (
        record l { stuck_alerted = insert (stuck_key n) true l.stuck_alerted },
        raise c t (stuck_key n) "critical" (
              sprintf
                "RPC node %s is syncing on %s but height has been stuck at %d for > %d minutes — check peers/state-sync"
                (node_label n ∷ c.cfg.chain_id ∷ show_ℤ n.height ∷ show_ℤ min ∷ []))
            ∷ [],
      )
      (
        record l { stuck_alerted = insert (stuck_key n) false l.stuck_alerted },
        clear c t (stuck_key n) (
              sprintf "RPC node %s sync resumed on %s (height %d)"
                (node_label n ∷ c.cfg.chain_id ∷ show_ℤ n.height ∷ []))
            ∷ [],
      )
      l

abbrev synced_text : Chain → NodeState → String
synced_text c n = sprintf "RPC node %s finished syncing on %s" (node_label n ∷ c.cfg.chain_id ∷ [])

-- A node that no longer syncs clears both.
unfoldable pub sync_over : Tick → Chain → NodeState → Latches → Latches × List Alert
sync_over t c n l =
    if set? l.sync_alerted (sync_key n) || t.has_open (sync_key n)
    then (
      record l { sync_alerted = insert (sync_key n) false l.sync_alerted },
      clear c t (sync_key n) (synced_text c n) ∷ [],
    )
    else (l, [])

unfoldable pub stuck_over : Tick → Chain → NodeState → Latches → Latches × List Alert
stuck_over t c n l =
    if set? l.stuck_alerted (stuck_key n) || t.has_open (stuck_key n)
    then (
      record l { stuck_alerted = insert (stuck_key n) false l.stuck_alerted },
      clear c t (stuck_key n) (synced_text c n) ∷ [],
    )
    else (l, [])

-- The first case of the node-down switch.
unfoldable pub counts_as_down : Tick → NodeState → Bool
counts_as_down t n =
    n.cfg.alert_if_down
    && (n.down
        && (not n.syncing
            && (not (is_zero n.down_since)
                && longer t.now n.down_since (minutes t.root.node_down_min))))

-- Node-down waits while the node syncs, and clears once it answers, even in mid-sync. While it
-- counts as down the other case is not looked at.
unfoldable pub watch_down : Tick → Chain → NodeState → Latches → Latches × List Alert
watch_down t c n l =
    let known = set? l.node_alerted (down_key n) in
    let open? = t.has_open (down_key n) in
    switch (counts_as_down t n && (not known && not open?))
      (not (counts_as_down t n) && ((not n.down || n.syncing) && (known || open?)))
      (
        record l { node_alerted = insert (down_key n) true l.node_alerted },
        raise c t (down_key n) t.root.node_down_severity (
              sprintf "RPC node %s down for > %d minutes on %s: %s"
                (node_label n ∷ show_ℤ t.root.node_down_min ∷ c.cfg.chain_id ∷ n.last_msg ∷ []))
            ∷ [],
      )
      (
        record l { node_alerted = insert (down_key n) false l.node_alerted },
        clear c t (down_key n)
              (sprintf "RPC node %s reachable again on %s" (node_label n ∷ c.cfg.chain_id ∷ []))
            ∷ [],
      )
      l

-- One part after another.
infixl 5 ◌then_part◌
abbrev pub ◌then_part◌ :
    Latches × List Alert → (Latches → Latches × List Alert) → Latches × List Alert
r then_part f = let (l', more) = f r.0 in (l', r.1 ++ more)

unfoldable pub watch_node : Tick → Chain → NodeState → Latches → Latches × List Alert
watch_node t c n l =
    (if n.syncing
      then watch_sync t c n l then_part watch_stuck t c n
      else (sync_over t c n l then_part stuck_over t c n))
    then_part watch_down t c n

unfoldable pub watch_nodes : Tick → Chain → List NodeState → Latches → Latches × List Alert
watch_nodes t c [] l = (l, [])
watch_nodes t c (n ∷ ns) l = watch_node t c n l then_part watch_nodes t c ns

-- The node section, which the chain role leaves to the sidecars.
unfoldable pub watch_all_nodes : Tick → Chain → Latches → Latches × List Alert
watch_all_nodes t c l = if is_chain_only c.cfg then (l, []) else watch_nodes t c c.nodes l
