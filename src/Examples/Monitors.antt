-- ===== src/Examples/Monitors.antt =====
-- The monitor of a chain: blocks, ticks and rounds of probes.
use cometduty.Prelude.{true, false, List, [], ◌∷◌, ◌≡◌, refl, arith}
use cometduty.Prelude.{◌*◌, All}
use cometduty.Prelude.Int.{pos}
use cometduty.Prelude.Time.{minute}
use cometduty.Monitor.State.{NodeState, EvmProbe, new_node, new_target, new_chain, rebuild}
use cometduty.Monitor.Alerting.Keys.{brief}
use cometduty.Monitor.Blocks.Counts.{
  after, fresh, after-fresh, judgements, HasCounts, Event, vote_event, block_event,
}
use cometduty.Monitor.Watch.{watch_no_nodes, no_nodes_key, switch}
use cometduty.Monitor.Watch.Nodes.{Latches, watch_all_nodes}
use cometduty.Monitor.Watch.Nodes.Raises.{FitsSome, watch_all_nodes-FitsSome}
use cometduty.Monitor.Watch.Validators.{watch_target, policy}
use cometduty.Monitor.Watch.Validators.Edges.{Edges, IsArmed, watch_target-edge}
use cometduty.Monitor.Probe.{Reply, EvmReply, failed, no_height, probe_node, mark_down}
use cometduty.Monitor.Probe.Clocks.{
  IsClocked, probe_node-IsClocked, has_client, IsTimed, is_up, catches_up,
}
use cometduty.Prelude.{length}
use cometduty.Monitor.Round.{
  best_height, probe_all, count_up, judge_nodes, judge_node, watch_lag, watch_mempool, watch_round,
  node_lag, best_of,
}
use cometduty.Monitor.Round.NoNodes.{probe_all-pages, asks}
use cometduty.Examples.Data.{node, validator, chain, info, missing, tick}

-- A block that the validator signed, and one that it missed with a prevote, the latest first.
abbrev events : List Event
events =
    block_event
      (record { height = pos 12; proposer_address = "EF"; commit_height = pos 11; signatures = [] })
    ∷ vote_event
        (record { type = pos 1; height = pos 11; round = pos 0; validator_address = info.cons_hex })
    ∷ block_event (record {
      height = pos 11;
      proposer_address = "EF";
      commit_height = pos 10;
      signatures =
          record { block_id_flag = pos 2; validator_address = "ab"; signature = "c2ln" } ∷ [];
    })
    ∷ []

after-fresh_example :
    HasCounts info
      (judgements info (fresh validator info) events)
      (after (fresh validator info) events)
    × (length (judgements info (fresh validator info) events) ≡ 2)
after-fresh_example = after-fresh validator info events refl refl

armed : IsArmed (policy chain missing) info
unfolding new_target new_chain rebuild
armed = record {
  inactive_on = refl;
  consecutive_on = refl;
  consecutive_set = omega arith;
  window_on = refl;
  window_set = omega arith;
}

-- Four misses in a row against a threshold of three.
watch_target-edge_example :
    Edges tick (policy chain missing) info missing (watch_target tick chain missing)
watch_target-edge_example = watch_target-edge tick chain missing info refl armed

abbrev latches : Latches
latches = record { node_alerted = []; sync_alerted = []; stuck_alerted = [] }

watch_all_nodes-FitsSome_example :
    All (FitsSome tick chain.nodes) (watch_all_nodes tick chain latches).1
watch_all_nodes-FitsSome_example = watch_all_nodes-FitsSome tick chain latches

-- A node that has been down since the second minute.
abbrev long_down : NodeState
long_down = record (new_node node) { down = true; down_since = 2 * minute }

long_down-IsClocked : IsClocked long_down
unfolding new_node
long_down-IsClocked = record { down_clock = refl; sync_clock = refl; sync_down = refl }

refused : has_client (failed "connection refused") ≡ true
unfolding has_client
refused = refl

probe_node-IsClocked_example :
    IsClocked (probe_node (5 * minute) "hub-4" (failed "connection refused") long_down)
    × IsTimed
        (5 * minute)
        (is_up "hub-4" (failed "connection refused"))
        (catches_up "hub-4" (failed "connection refused"))
        long_down
        (probe_node (5 * minute) "hub-4" (failed "connection refused") long_down)
probe_node-IsClocked_example =
    probe_node-IsClocked (5 * minute) "hub-4" (failed "connection refused") long_down (omega arith)
      refused long_down-IsClocked

abbrev two : List NodeState
two = record (new_node node) { height = pos 90 } ∷ record (new_node node) { height = pos 100 } ∷ []

abbrev refuse : NodeState → Reply
refuse n = failed "connection refused"

abbrev refuse_evm : EvmProbe → EvmReply
refuse_evm p = no_height "connection refused"

chain-asks : asks chain ≡ true
unfolding new_chain rebuild
chain-asks = refl

chain-new : (chain.no_nodes_since ≡ 0) × (chain.no_nodes_alarm ≡ false)
unfolding new_chain rebuild
chain-new = (refl, refl)

all-refused : (probe_all chain (5 * minute) refuse refuse_evm).0.no_nodes ≡ true
unfolding new_chain rebuild new_node probe_all probe_node mark_down count_up judge_nodes judge_node
    watch_lag watch_mempool watch_round switch node_lag best_height best_of
all-refused = refl

probe_all-pages_example :
    brief (watch_no_nodes tick (probe_all chain (5 * minute) refuse refuse_evm).0).1
    ≡ (no_nodes_key chain, false) ∷ []
probe_all-pages_example =
    probe_all-pages tick chain (5 * minute) refuse refuse_evm chain-asks chain-new.0 chain-new.1
      all-refused refl
