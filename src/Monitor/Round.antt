-- ===== src/Monitor/Round.antt =====
-- internal/monitor/health.go and chain.go: a round of probes over a chain, what it raises about the
-- nodes, and what the chain makes of how many answered. The probes of a round run side by side and
-- each changes its own node or endpoint; they are taken one after the other.
pub mod NoNodes
pub mod Heights
use cometduty.Prelude.{ℕ, Bool, true, false, List, [], ◌∷◌, ◌++◌, String, Option, none, some, map}
use cometduty.Prelude.{if◌then◌else◌, not, ◌&&◌, ◌||◌, any, ◌-◌, ◌*◌}
use cometduty.Prelude.Int.{ℤ, pos, ltb_ℤ, leb_ℤ, ◌-ℤ◌}
use cometduty.Prelude.Text.{sprintf, show_ℤ}
use cometduty.Prelude.Time.{is_zero, longer, minute}
use cometduty.Config.{is_chain_only}
use cometduty.Alert.{Alert}
use cometduty.Monitor.State.{Chain, NodeState, EvmProbe}
use cometduty.Monitor.Alerting.{make_alert, node_label}
use cometduty.Monitor.Watch.{switch}
use cometduty.Monitor.Probe.{Reply, EvmReply, probe_node, probe_evm}
use Prim.Native.String.{◌++◌ as ◌<>◌}

-- The greatest height of a node that is not down, and the websocket's if that is greater.
unfoldable pub best_of : List NodeState → ℤ → ℤ
best_of [] best = best
best_of (n ∷ ns) best = best_of ns (if not n.down && ltb_ℤ best n.height then n.height else best)

unfoldable pub best_height : List NodeState → ℤ → ℤ
best_height ns seen = let best = best_of ns (pos 0) in if ltb_ℤ best seen then seen else best

unfoldable pub node_lag : ℤ → NodeState → ℤ
node_lag best n = if not n.down && ltb_ℤ (pos 0) best then best -ℤ n.height else pos 0

module _ (c : Chain) (now : ℕ) (best : ℤ) where
  unfoldable pub watch_lag : NodeState → NodeState × List Alert
  watch_lag n =
      let most = c.cfg.alerts.lag_blocks in
      let on = c.cfg.alerts.lag_enabled in
      let lag = node_lag best n in
      let key = "node-lag:" <> n.cfg.url in
      switch
        (not (is_chain_only c.cfg)
          && (on && (ltb_ℤ (pos 0) most && (not n.down && (ltb_ℤ most lag && not n.lagged)))))
        (on && (n.lagged && leb_ℤ lag most))
        (
          record n { lagged = true },
          make_alert c now none key false "warning" (
                sprintf "RPC node %s is %d blocks behind head (%d) on %s"
                  (node_label n ∷ show_ℤ lag ∷ show_ℤ best ∷ c.cfg.chain_id ∷ []))
              ∷ [],
        )
        (
          record n { lagged = false },
          make_alert c now none key true "info" (
                sprintf "RPC node %s is %d blocks behind head on %s"
                  (node_label n ∷ show_ℤ lag ∷ c.cfg.chain_id ∷ []))
              ∷ [],
        )
        n

  -- The backlog of the mempool; 0 turns the alert off.
  unfoldable pub watch_mempool : NodeState → NodeState × List Alert
  watch_mempool n =
      let most = c.cfg.alerts.mempool_txs_alert in
      let key = "mempool-txs:" <> n.cfg.url in
      switch
        (not (is_chain_only c.cfg)
          && (ltb_ℤ (pos 0) most
              && (not n.down && (ltb_ℤ most n.mempool_txs && not n.mempool_alerted))))
        (n.mempool_alerted && (n.down || leb_ℤ n.mempool_txs most))
        (
          record n { mempool_alerted = true },
          make_alert c now none key false "warning" (
                sprintf
                  "RPC node %s has %d unconfirmed txs (%d bytes) on %s — CheckTx/execution may be wedged"
                  (node_label n
                    ∷ show_ℤ n.mempool_txs
                    ∷ show_ℤ n.mempool_bytes
                    ∷ c.cfg.chain_id
                    ∷ []))
              ∷ [],
        )
        (
          record n { mempool_alerted = false },
          make_alert c now none key true "info" (
                sprintf "RPC node %s mempool backlog cleared on %s (%d txs)"
                  (node_label n ∷ c.cfg.chain_id ∷ show_ℤ n.mempool_txs ∷ []))
              ∷ [],
        )
        n

  -- The consensus round; 0 turns the alert off.
  unfoldable pub watch_round : NodeState → NodeState × List Alert
  watch_round n =
      let most = c.cfg.alerts.consensus_round_alert in
      let key = "consensus-round:" <> n.cfg.url in
      switch
        (not (is_chain_only c.cfg)
          && (ltb_ℤ (pos 0) most && (not n.down && (ltb_ℤ most n.round && not n.round_alerted))))
        (n.round_alerted && (n.down || leb_ℤ n.round most))
        (
          record n { round_alerted = true },
          make_alert c now none key false "warning" (
                sprintf "RPC node %s is at consensus round %d (> %d) on %s — proposals timing out"
                  (node_label n ∷ show_ℤ n.round ∷ show_ℤ most ∷ c.cfg.chain_id ∷ []))
              ∷ [],
        )
        (
          record n { round_alerted = false },
          make_alert c now none key true "info" (
                sprintf "RPC node %s consensus recovered on %s (round %d)"
                  (node_label n ∷ c.cfg.chain_id ∷ show_ℤ n.round ∷ []))
              ∷ [],
        )
        n

  -- The loop over the nodes after the probes.
  unfoldable pub judge_node : NodeState → NodeState × List Alert
  judge_node n =
      let (n1, lag) = watch_lag n in
      let (n2, mempool) = watch_mempool n1 in
      let (n3, round) = watch_round n2 in (n3, lag ++ (mempool ++ round))

  unfoldable pub judge_nodes : List NodeState → List NodeState × List Alert
  judge_nodes [] = ([], [])
  judge_nodes (n ∷ ns) =
      let (n', out) = judge_node n in let (ns', more) = judge_nodes ns in (n' ∷ ns', out ++ more)

-- The probes of the EVM endpoints.
unfoldable pub probe_evms :
    Chain → ℕ → (EvmProbe → EvmReply) → List EvmProbe → List EvmProbe × List Alert
probe_evms c now reply [] = ([], [])
probe_evms c now reply (p ∷ ps) =
    let (p', out) = probe_evm c now (reply p) p in
    let (ps', more) = probe_evms c now reply ps in (p' ∷ ps', out ++ more)

abbrev pub is_up : NodeState → Bool
is_up n = not n.down

-- What the chain makes of a round: whether a node serves, since when, and with which client.
unfoldable pub count_up : ℕ → List NodeState → Chain → Chain
count_up now ns c =
    let any_up = any is_up ns in
    record c {
      nodes = ns;
      back_at = if c.no_nodes && any_up then now else c.back_at;
      no_nodes = not any_up;
      client = c.client && any_up;
    }

-- `probeAllNodes`, with the alerts in the order of the calls.
unfoldable pub probe_all :
    Chain → ℕ → (NodeState → Reply) → (EvmProbe → EvmReply) → Chain × List Alert
probe_all c now reply evm_reply =
    let probed = map (λ n. probe_node now c.cfg.chain_id (reply n) n) c.nodes in
    let (ps, out) = probe_evms c now evm_reply c.evm_probes in
    let (ns, more) = judge_nodes c now (best_height probed c.last_height) probed in
    (count_up now ns (record c { evm_probes = ps }), out ++ more)

-- `setNoNodes`.
unfoldable pub set_no_nodes : ℕ → Bool → Chain → Chain
set_no_nodes now v c = record c {
  no_nodes_since = if v && not c.no_nodes then now else c.no_nodes_since;
  back_at = if not v && c.no_nodes then now else c.back_at;
  no_nodes = v;
}

-- `ready`, with the printing of a duration to the second as a parameter.
unfoldable pub ready : (ℕ → String) → ℕ → Chain → Bool × String
ready seconds_text now c =
    if c.no_nodes
    then (false, "no healthy RPC endpoints")
    else (if is_zero c.last_block_time
        then (false, "waiting for first block")
        else (if longer now c.last_block_time (pos (2 * minute))
            then (false, sprintf "no block for %s" (seconds_text (now - c.last_block_time) ∷ []))
            else (true, "")))
