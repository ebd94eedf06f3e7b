-- ===== src/Monitor/Local/StateFile.antt =====
-- internal/monitor/local.go: `probeSignerFile`, which reads priv_validator_state.json. What the system
-- and the JSON decoder make of the file is data.
pub mod Reads
use cometduty.Prelude.{ℕ, suc, Bool, true, false, List, [], ◌∷◌, ◌++◌, String}
use cometduty.Prelude.{if◌then◌else◌, not, ◌&&◌, ◌||◌, leb}
use cometduty.Prelude.Int.{ℤ}
use cometduty.Prelude.Text.{sprintf, show, show_ℤ}
use cometduty.Alert.{Alert}
use cometduty.Monitor.State.{Chain, NodeState}
use cometduty.Monitor.Alerting.{node_label}
use cometduty.Monitor.Watch.{Tick, raise, clear}
use cometduty.Monitor.Local.Signer.{update_signer}
use Prim.Native.String.{◌++◌ as ◌<>◌}

-- A read that failed, with an error that `diskErr` knows or with another, or bytes, which do not
-- decode or hold a height.
pub data FileRead : Type 0 where
  disk_failed : String → FileRead
  unreadable : String → FileRead
  garbled : ℕ → String → FileRead
  holds : ℤ → FileRead

abbrev pub disk_key : NodeState → String
disk_key n = "disk-error:" <> n.cfg.url

abbrev pub file_key : NodeState → String
file_key n = "signer-state:" <> n.cfg.url

abbrev pub corrupt_key : NodeState → String
corrupt_key n = "signer-corrupt:" <> n.cfg.url

on_disk_failed : Chain → Tick → String → NodeState → NodeState × List Alert
on_disk_failed c t e n =
    if not n.disk_err_alarm && not (t.has_open (disk_key n))
    then (
      record n { disk_err_alarm = true },
      raise c t (disk_key n) "critical" (
            sprintf "node %s can't read its home on %s: %s — disk I/O error"
              (node_label n ∷ c.cfg.chain_id ∷ e ∷ []))
          ∷ [],
    )
    else (n, [])

on_unreadable : Chain → Tick → String → NodeState → NodeState × List Alert
on_unreadable c t e n =
    if not n.sign_file_alarm && not (t.has_open (file_key n))
    then (
      record n { sign_file_alarm = true },
      raise c t (file_key n) "warning" (
            sprintf "node %s priv_validator_state.json unreadable on %s: %s — signing state unknown"
              (node_label n ∷ c.cfg.chain_id ∷ e ∷ []))
          ∷ [],
    )
    else (n, [])

-- Two bad reads make the file corrupt.
unfoldable pub on_garbled : Chain → Tick → ℕ → String → NodeState → NodeState × List Alert
on_garbled c t size e n =
    let n' = record n { sign_bad = suc n.sign_bad } in
    if leb 2 n'.sign_bad && (not n.corrupt_alarm && not (t.has_open (corrupt_key n)))
    then (
      record n' { corrupt_alarm = true },
      raise c t (corrupt_key n) "critical" (
            sprintf
              "node %s priv_validator_state.json is corrupt on %s (%d bytes: %s) — don't restart the validator on it; DOUBLE-SIGN risk"
              (node_label n ∷ c.cfg.chain_id ∷ show size ∷ e ∷ []))
          ∷ [],
    )
    else (n', [])

corrupt_over : Chain → Tick → ℤ → NodeState → NodeState × List Alert
corrupt_over c t h n =
    if n.corrupt_alarm || t.has_open (corrupt_key n)
    then (
      record n { corrupt_alarm = false },
      clear c t (corrupt_key n) (
            sprintf "node %s priv_validator_state.json parses again on %s (height %d)"
              (node_label n ∷ c.cfg.chain_id ∷ show_ℤ h ∷ []))
          ∷ [],
    )
    else (n, [])

file_over : Chain → Tick → NodeState → NodeState × List Alert
file_over c t n =
    if n.sign_file_alarm || t.has_open (file_key n)
    then (
      record n { sign_file_alarm = false },
      clear c t (file_key n) (
            sprintf "node %s priv_validator_state.json readable again on %s"
              (node_label n ∷ c.cfg.chain_id ∷ []))
          ∷ [],
    )
    else (n, [])

-- A height that was read feeds the signer checks and clears the alerts on the file.
unfoldable pub on_height : Chain → Tick → ℤ → NodeState → NodeState × List Alert
unfolding corrupt_over file_over
on_height c t h n =
    let (n1, first) = update_signer c t h (record n { sign_bad = 0 }) in
    let (n2, second) = corrupt_over c t h n1 in
    let (n3, third) = file_over c t n2 in (n3, first ++ (second ++ third))

-- `probeSignerFile`.
unfoldable pub probe_signer_file : Chain → Tick → FileRead → NodeState → NodeState × List Alert
unfolding on_disk_failed on_unreadable
probe_signer_file c t (disk_failed e) n = on_disk_failed c t e n
probe_signer_file c t (unreadable e) n = on_unreadable c t e n
probe_signer_file c t (garbled size e) n = on_garbled c t size e n
probe_signer_file c t (holds h) n = on_height c t h n
