-- ===== src/Monitor/Round/NoNodes.antt =====
-- When a chain without a node that serves is reported.
use cometduty.Prelude.{ℕ, Bool, true, false, ◌≡◌, refl, arith, List, [], ◌∷◌}
use cometduty.Prelude.{not, ◌&&◌, string_eq, if_cases, ap, ◌∙◌, none}
use cometduty.Prelude.Time.{longer, minutes}
use cometduty.Config.{is_sidecar}
use cometduty.Alert.{Alert}
use cometduty.Monitor.State.{Chain, NodeState, EvmProbe}
use cometduty.Monitor.Alerting.Keys.{brief, brief_alert}
use cometduty.Monitor.Probe.{Reply, EvmReply}
use cometduty.Monitor.Round.{probe_all, count_up, set_no_nodes}
use cometduty.Monitor.Watch.{Tick, watch_no_nodes, no_nodes_key, switch_cases}

-- The alert on missing endpoints is on, and this role raises it.
abbrev pub asks : Chain → Bool
asks c = c.cfg.alerts.alert_if_no_servers && not (is_sidecar c.cfg)

module _ (t : Tick) (c : Chain) where
  watch_no_nodes-waits :
      c.no_nodes ≡ true
      → longer t.now c.no_nodes_since (minutes t.root.node_down_min) ≡ false
      → watch_no_nodes t c ≡ (c, [])
  unfolding watch_no_nodes
  watch_no_nodes-waits h k =
      if_cases (λ (r : Chain × List Alert). r ≡ (c, [])) (asks c)
        (λ e.
          switch_cases (λ (r : Chain × List Alert). r ≡ (c, [])) _ _ _ _ _ (λ d. ground arith)
            (λ d d'. ground arith) (λ d d'. refl))
        (λ e. refl)

  watch_no_nodes-pages :
      asks c ≡ true
      → c.no_nodes ≡ true
      → c.no_nodes_alarm ≡ false
      → longer t.now c.no_nodes_since (minutes t.root.node_down_min) ≡ true
      → brief (watch_no_nodes t c).1 ≡ (no_nodes_key c, false) ∷ []
  unfolding watch_no_nodes
  watch_no_nodes-pages on h k l =
      if_cases (λ (r : Chain × List Alert). brief r.1 ≡ (no_nodes_key c, false) ∷ []) (asks c)
        (λ e.
          switch_cases (λ (r : Chain × List Alert). brief r.1 ≡ (no_nodes_key c, false) ∷ []) _ _ _
            _ _ (λ d. brief_alert c t.now none (no_nodes_key c) false _ _) (λ d d'. ground arith)
            (λ d d'. ground arith))
        (λ e. ground arith)

-- A chain that had a node that serves, when `setNoNodes` marks it at `at`, is not reported by a tick
-- until the node-down time has passed since.
set_no_nodes-waits :
    (t : Tick) (c : Chain) (at : ℕ)
    → c.no_nodes ≡ false
    → longer t.now at (minutes t.root.node_down_min) ≡ false
    → watch_no_nodes t (set_no_nodes at true c) ≡ (set_no_nodes at true c, [])
unfolding set_no_nodes
set_no_nodes-waits t c at h k =
    watch_no_nodes-waits t (set_no_nodes at true c) refl
      (ap (λ since. longer t.now since (minutes t.root.node_down_min)) (ground arith) ∙ k)

-- Where the alert is on and not raised, a chain whose no-nodes time was never set, and that a round
-- of probes finds without a node that serves, is reported by a tick whatever the time of the round,
-- once the node-down time is past since the zero time: the round does not set the no-nodes time.
pub probe_all-pages :
    (t : Tick) (c : Chain) (now : ℕ) (reply : NodeState → Reply) (evm_reply : EvmProbe → EvmReply)
    → asks c ≡ true
    → c.no_nodes_since ≡ 0
    → c.no_nodes_alarm ≡ false
    → (probe_all c now reply evm_reply).0.no_nodes ≡ true
    → longer t.now 0 (minutes t.root.node_down_min) ≡ true
    → brief (watch_no_nodes t (probe_all c now reply evm_reply).0).1 ≡ (no_nodes_key c, false) ∷ []
unfolding probe_all count_up
probe_all-pages t c now reply evm_reply on since alarm gone late =
    watch_no_nodes-pages t (probe_all c now reply evm_reply).0 on gone alarm
      (ap (λ s. longer t.now s (minutes t.root.node_down_min)) since ∙ late)
