-- ===== src/Monitor/State/Nodes.antt =====
-- internal/monitor/chain.go and local.go: the state of a node. The free space of a disk is a number of
-- bytes: a float64 holds those below 2 ^ 53 as they are.
use cometduty.Prelude.{ℕ, Bool, false, List, [], String}
use cometduty.Prelude.Int.{ℤ, pos}
use cometduty.Config.{NodeConfig}

pub record DiskSample : Type 0 where
  pub at : ℕ
  pub free : ℕ

pub record NodeState : Type 0 where
  pub cfg : NodeConfig
  pub down : Bool
  pub syncing : Bool
  pub last_msg : String
  pub down_since : ℕ
  pub height : ℤ
  pub peers : ℤ
  pub sync_since : ℕ
  pub sync_start_height : ℤ
  pub sync_last_height : ℤ
  pub sync_last_change : ℕ
  pub moniker : String
  pub version : String
  pub network : String
  pub lagged : Bool
  pub mempool_txs : ℤ
  pub mempool_bytes : ℤ
  pub round : ℤ
  pub mempool_alerted : Bool
  pub round_alerted : Bool
  pub signer_height : ℤ
  pub signer_max : ℤ
  pub signer_at : ℕ
  pub signer_alarm : Bool
  pub regress_alarm : Bool
  pub sign_file_alarm : Bool
  pub corrupt_alarm : Bool
  pub sign_bad : ℕ
  pub disk_free : ℕ
  pub disk_alarm : Bool
  pub disk_errs : ℕ
  pub disk_err_alarm : Bool
  pub inode_alarm : Bool
  pub fill_alarm : Bool
  pub ro_alarm : Bool
  pub ro_checked : Bool
  pub disk_samples : List DiskSample

-- What a new node state is but for its configuration.
unfoldable pub new_node : NodeConfig → NodeState
new_node cfg = record {
  cfg = cfg;
  down = false;
  syncing = false;
  last_msg = "";
  down_since = 0;
  height = pos 0;
  peers = pos 0;
  sync_since = 0;
  sync_start_height = pos 0;
  sync_last_height = pos 0;
  sync_last_change = 0;
  moniker = "";
  version = "";
  network = "";
  lagged = false;
  mempool_txs = pos 0;
  mempool_bytes = pos 0;
  round = pos 0;
  mempool_alerted = false;
  round_alerted = false;
  signer_height = pos 0;
  signer_max = pos 0;
  signer_at = 0;
  signer_alarm = false;
  regress_alarm = false;
  sign_file_alarm = false;
  corrupt_alarm = false;
  sign_bad = 0;
  disk_free = 0;
  disk_alarm = false;
  disk_errs = 0;
  disk_err_alarm = false;
  inode_alarm = false;
  fill_alarm = false;
  ro_alarm = false;
  ro_checked = false;
  disk_samples = [];
}
