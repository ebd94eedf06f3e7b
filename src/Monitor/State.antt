-- ===== src/Monitor/State.antt =====
-- internal/monitor/chain.go and validator.go: the state of a chain's monitor. Left out are the fields
-- of nodeState that hold floats (CPU and memory), the logger, and `evm`, which points into the
-- list of probes. `met` says whether there is a metrics sink and `client` whether there is an RPC
-- client; what a metrics call is given is not modelled, except for the block results.
mod Nodes
pub use Nodes.{NodeState, DiskSample}
unfoldable pub use Nodes.{new_node}
use cometduty.Prelude.{ℕ, Bool, true, false, List, [], ◌∷◌, ◌++◌, String, Option, none, map}
use cometduty.Prelude.{◌==◌, string_eq, if◌then◌else◌}
use cometduty.Prelude.Int.{ℤ, pos}
use cometduty.Prelude.Maps.{GoMap, insert}
use cometduty.Config.{NodeConfig, ValidatorConfig, ChainConfig, validator_targets}
use cometduty.Monitor.Sign.{VoteTracker, new_vote_tracker}

pub record ValInfo : Type 0 where
  pub moniker : String
  pub bonded : Bool
  pub jailed : Bool
  pub tombstoned : Bool
  pub tokens : String
  pub missed : ℤ
  pub window : ℤ
  pub jailed_until : ℤ
  pub cons_addr : List ℕ
  pub cons_hex : String
  pub valcons : String

pub record SetEntry : Type 0 where
  pub valoper : String
  pub moniker : String
  pub jailed : Bool
  pub bonded : Bool

pub record Target : Type 0 where
  pub vc : ValidatorConfig
  pub info : Option ValInfo
  pub vt : VoteTracker
  pub signs : ℕ
  pub props : ℕ
  pub miss : ℕ
  pub pv_miss : ℕ
  pub pc_miss : ℕ
  pub consec : ℕ
  pub missed_alarm : Bool
  pub pct_alarm : Bool
  pub inactive : String

unfoldable pub new_target : ValidatorConfig → Target
unfolding new_vote_tracker
new_target vc = record {
  vc = vc;
  info = none;
  vt = new_vote_tracker;
  signs = 0;
  props = 0;
  miss = 0;
  pv_miss = 0;
  pc_miss = 0;
  consec = 0;
  missed_alarm = false;
  pct_alarm = false;
  inactive = "";
}

pub record EvmProbe : Type 0 where
  pub url : String
  pub validator : String
  pub down : Bool
  pub down_since : ℕ
  pub down_alarm : Bool
  pub height : ℤ
  pub lag : ℤ
  pub syncing : Bool
  pub last_msg : String
  pub pending : ℤ
  pub queued : ℤ
  pub txpool_alarm : Bool
  pub lag_alarm : Bool

unfoldable pub new_probe : String → String → EvmProbe
new_probe url validator = record {
  url = url;
  validator = validator;
  down = false;
  down_since = 0;
  down_alarm = false;
  height = pos 0;
  lag = pos 0;
  syncing = false;
  last_msg = "";
  pending = pos 0;
  queued = pos 0;
  txpool_alarm = false;
  lag_alarm = false;
}

pub record NodeMeta : Type 0 where
  pub name : String
  pub labels : GoMap String String

-- `by_addr` holds places in `targets`, as the map of the source holds pointers to them.
pub record Chain : Type 0 where
  pub name : String
  pub cfg : ChainConfig
  pub met : Bool
  pub nodes : List NodeState
  pub targets : List Target
  pub by_addr : GoMap String ℕ
  pub client : Bool
  pub client_url : String
  pub last_block_time : ℕ
  pub last_height : ℤ
  pub stall_alarm : Bool
  pub stall_key : String
  pub back_at : ℕ
  pub stall_msg : String
  pub no_nodes : Bool
  pub no_nodes_alarm : Bool
  pub no_nodes_since : ℕ
  pub slashing_ok : Bool
  pub last_slashing_at : ℕ
  pub evm_probes : List EvmProbe
  pub node_meta : GoMap String NodeMeta
  pub set_snapshot : GoMap String SetEntry
  pub set_primed : Bool

-- The loop over the nodes that collects their own EVM probes.
unfoldable pub node_probes : List NodeConfig → List EvmProbe
unfolding new_probe
node_probes [] = []
node_probes (n ∷ ns) =
    let rest = node_probes ns in
    if n.evm_rpc == "" then rest else new_probe n.evm_rpc n.validator ∷ rest

meta_of : NodeConfig → NodeMeta
meta_of n = record { name = if n.name == "" then n.url else n.name; labels = n.labels }

put_meta : String → NodeMeta → GoMap String NodeMeta → GoMap String NodeMeta
put_meta u m meta = if u == "" then meta else insert u m meta

-- The map from each node's URLs to its name and labels.
unfoldable pub build_meta : List NodeConfig → GoMap String NodeMeta → GoMap String NodeMeta
unfolding meta_of put_meta
build_meta [] meta = meta
build_meta (n ∷ ns) meta =
    let m = meta_of n in
    build_meta ns (put_meta n.metrics_url m (put_meta n.evm_rpc m (put_meta n.url m meta)))

-- `rebuildLocked`.
unfoldable pub rebuild : Chain → ChainConfig → Chain
unfolding new_node new_target new_probe
rebuild c ch = record c {
  nodes = map new_node ch.nodes;
  evm_probes =
      (if ch.evm_rpc == "" then [] else new_probe ch.evm_rpc "" ∷ []) ++ node_probes ch.nodes;
  node_meta = build_meta ch.nodes [];
  targets = map new_target (validator_targets ch);
  by_addr = [];
}

-- `Update`: a reload replaces the runtimes and then the configuration.
unfoldable pub update : Chain → ChainConfig → Chain
update c ch = record (rebuild c ch) { cfg = ch }

-- `NewChain`.
unfoldable pub new_chain : String → ChainConfig → Bool → Chain
new_chain name ch met =
    rebuild
      (record {
        name = name;
        cfg = ch;
        met = met;
        nodes = [];
        targets = [];
        by_addr = [];
        client = false;
        client_url = "";
        last_block_time = 0;
        last_height = pos 0;
        stall_alarm = false;
        stall_key = "";
        back_at = 0;
        stall_msg = "";
        no_nodes = false;
        no_nodes_alarm = false;
        no_nodes_since = 0;
        slashing_ok = true;
        last_slashing_at = 0;
        evm_probes = [];
        node_meta = [];
        set_snapshot = [];
        set_primed = false;
      })
      ch
