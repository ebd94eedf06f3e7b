-- ===== src/Monitor/Local.antt =====
-- internal/monitor/local.go: the checks of the node's home directory.
pub mod Signer
pub mod StateFile
pub mod Mounts
pub mod Disk
use cometduty.Prelude.{List, [], String, Option, ◌==◌, string_eq, if◌then◌else◌, ◌||◌}
use cometduty.Config.{is_chain_only}
use cometduty.Alert.{Alert}
use cometduty.Monitor.State.{Chain, NodeState}
use cometduty.Monitor.Watch.{Tick}
use cometduty.Monitor.Local.StateFile.{FileRead, probe_signer_file}
use cometduty.Monitor.Local.Disk.{Answer, probe_disk, ◌then_check◌}

-- What the file system answers to one round of the local checks: `statfs`, the host's mount table if
-- it can be read, and the state file.
pub record HomeReads : Type 0 where
  pub disk : Answer
  pub mounts : Option String
  pub state_file : FileRead

-- `probeLocal`, but for the metrics.
unfoldable pub probe_local : Chain → Tick → HomeReads → NodeState → NodeState × List Alert
probe_local c t r n =
    if n.cfg.home_dir == "" || is_chain_only c.cfg
    then (n, [])
    else (probe_disk c t r.disk r.mounts n then_check probe_signer_file c t r.state_file)
