-- ===== src/Monitor/Probe.antt =====
-- internal/monitor/health.go: what a round of probes does to the nodes and the EVM endpoints of a
-- chain. What the clients answered is data: a reply stands for the calls that one probe makes, in
-- their order. The gas ratio and price, which are floats for the metrics, and the checks of local
-- files are left out.
pub mod Clocks
use cometduty.Prelude.{ℕ, Bool, true, false, List, [], ◌∷◌, ◌++◌, String, Option, none, some, map}
use cometduty.Prelude.{◌==◌, string_eq, if◌then◌else◌, not, ◌&&◌, ◌||◌, any}
use cometduty.Prelude.Int.{ℤ, pos, ltb_ℤ, leb_ℤ, eqb_ℤ, ◌-ℤ◌, int_eq}
use cometduty.Prelude.Text.{sprintf, show_ℤ}
use cometduty.Prelude.Time.{is_zero}
use cometduty.Config.{is_chain_only}
use cometduty.Alert.{Alert}
use cometduty.Monitor.State.{Chain, NodeState, EvmProbe}
use cometduty.Monitor.Alerting.{make_alert, node_label}
use cometduty.Monitor.Watch.{switch}
use cometduty.Monitor.Watch.Probes.{label}
use Prim.Native.String.{◌++◌ as ◌<>◌}

-- The answer of `Status`, and those of the calls after it, which may each fail.
pub record Status : Type 0 where
  pub network : String
  pub height : ℤ
  pub moniker : String
  pub version : String
  pub catching_up : Bool
  pub peers : Option ℤ
  pub mempool : Option (ℤ × ℤ)
  pub round : Option ℤ

pub data Reply : Type 0 where
  bad_url : String → Reply
  failed : String → Reply
  answered : Status → Reply

-- `markDown`.
unfoldable pub mark_down : ℕ → String → NodeState → NodeState
mark_down now msg n = record n {
  down_since = if not n.down || (n.syncing || is_zero n.down_since) then now else n.down_since;
  down = true;
  syncing = false;
  last_msg = msg;
}

-- The node as `Status` describes it.
abbrev described : Status → NodeState → NodeState
described s n = record n {
  height = s.height;
  moniker = s.moniker;
  version = s.version;
  network = s.network;
}

-- A node that catches up counts as down. A new sync starts its clocks, and a height that moves
-- restarts the second.
unfoldable pub mark_syncing : ℕ → NodeState → NodeState
mark_syncing now n =
    let begun = record n {
      sync_since = now;
      sync_start_height = n.height;
      sync_last_height = n.height;
      sync_last_change = now;
    } in
    let moved = record n { sync_last_height = n.height; sync_last_change = now } in
    let n' = if not n.syncing then begun else if n.height == n.sync_last_height then n else moved in
    record n' { down = true; syncing = true; last_msg = "catching up" }

with_peers : Option ℤ → NodeState → NodeState
with_peers none n = n
with_peers (some k) n = record n { peers = k }

with_mempool : Option (ℤ × ℤ) → NodeState → NodeState
with_mempool none n = n
with_mempool (some (txs, bytes)) n = record n { mempool_txs = txs; mempool_bytes = bytes }

with_round : Option ℤ → NodeState → NodeState
with_round none n = n
with_round (some r) n = record n { round = r }

-- A node that serves, and what it says of itself.
unfoldable pub mark_up : Status → NodeState → NodeState
unfolding with_peers with_mempool with_round
mark_up s n = with_round s.round (
    with_mempool s.mempool (
      with_peers s.peers (record n {
        down = false;
        syncing = false;
        sync_since = 0;
        sync_last_change = 0;
        last_msg = "";
        down_since = 0;
      })))

-- `probeNode`.
unfoldable pub probe_node : ℕ → String → Reply → NodeState → NodeState
probe_node now chain_id (bad_url e) n = record n { down = true; last_msg = "bad url: " <> e }
probe_node now chain_id (failed e) n = mark_down now ("down: " <> e) n
probe_node now chain_id (answered s) n =
    if s.network == chain_id
    then (if s.catching_up then mark_syncing now (described s n) else mark_up s (described s n))
    else mark_down now (sprintf "wrong network %s (want %s)" (s.network ∷ chain_id ∷ [])) n

-- `BlockNumber`, and what is asked after it.
pub data EvmReply : Type 0 where
  no_height : String → EvmReply
  at_height : ℤ → Option Bool → Option (ℤ × ℤ) → EvmReply

with_evm_sync : Option Bool → EvmProbe → EvmProbe
with_evm_sync none p = p
with_evm_sync (some b) p = record p { syncing = b }

with_txpool : Option (ℤ × ℤ) → EvmProbe → EvmProbe
with_txpool none p = p
with_txpool (some (pending, queued)) p = record p { pending = pending; queued = queued }

-- The alarm on the queue of the transaction pool; 0 turns it off.
unfoldable pub watch_txpool : Chain → ℕ → EvmProbe → EvmProbe × List Alert
watch_txpool c now p =
    let most = c.cfg.alerts.evm_txpool_queued_alert in
    let key = "evm-txpool:" <> p.url in
    switch (ltb_ℤ (pos 0) most && (ltb_ℤ most p.queued && not p.txpool_alarm))
      (p.txpool_alarm && leb_ℤ p.queued most)
      (
        record p { txpool_alarm = true },
        make_alert c now none key false "warning" (
              sprintf "EVM txpool on %s has %d queued txs (> %d) — execution wedge or nonce gap"
                (label p ∷ show_ℤ p.queued ∷ show_ℤ most ∷ []))
            ∷ [],
      )
      (
        record p { txpool_alarm = false },
        make_alert c now none key true "info"
              (sprintf "EVM txpool on %s drained (queued %d)" (label p ∷ show_ℤ p.queued ∷ []))
            ∷ [],
      )
      p

-- How far the execution is behind the consensus, at least 0.
unfoldable pub lag_behind : ℤ → ℤ → ℤ
lag_behind head height = let lag = head -ℤ height in if ltb_ℤ lag (pos 0) then pos 0 else lag

-- `probeEVM`.
unfoldable pub probe_evm : Chain → ℕ → EvmReply → EvmProbe → EvmProbe × List Alert
unfolding with_evm_sync with_txpool
probe_evm c now (no_height e) p = (
  record p {
    down = true;
    down_since = if p.down then p.down_since else now;
    last_msg = "down: " <> e;
  },
  [],
)
probe_evm c now (at_height h syncing txpool) p = watch_txpool c now (
    with_txpool txpool (
      with_evm_sync syncing (record p {
        down = false;
        syncing = false;
        last_msg = "";
        height = h;
        lag = lag_behind c.last_height h;
        down_since = 0;
      })))
