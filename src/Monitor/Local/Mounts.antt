-- ===== src/Monitor/Local/Mounts.antt =====
-- internal/monitor/local.go: `mountOf`, which finds the mount of a path, and `probeReadonly`.
pub mod Longest
use cometduty.Prelude.{ℕ, Bool, true, false, List, [], ◌∷◌, String, Option, none, some}
use cometduty.Prelude.{◌==◌, string_eq, if◌then◌else◌, not, ◌&&◌, ◌||◌, ltb, any}
use cometduty.Prelude.Text.{sprintf, has_prefix}
use cometduty.Prelude.Fields.{split, words, replace_all, trim_suffix}
use cometduty.Config.{HostConfig}
use cometduty.Alert.{Alert}
use cometduty.Monitor.State.{Chain, NodeState}
use cometduty.Monitor.Alerting.{node_label}
use cometduty.Monitor.Watch.{Tick, raise, clear, switch}
use Prim.Native.String.{len, ◌++◌ as ◌<>◌}

-- A line of the table: the mount point, and whether `ro` is among its options.
pub record Mount : Type 0 where
  pub point : String
  pub ro : Bool

-- The four fields that a line has at least.
mount_in : List String → Option Mount
mount_in (device ∷ point ∷ kind ∷ options ∷ more) = some (record {
  point = replace_all point "\\040" " ";
  ro = any (λ o. o == "ro") (split b',' options);
})
mount_in _ = none

-- Whether the mount point holds the path.
unfoldable pub covers : String → Mount → Bool
covers path m =
    path == m.point || (m.point == "/" || has_prefix path (trim_suffix m.point "/" <> "/"))

-- The mounts of a table, in its order.
pub mounts_of : List String → List Mount
unfolding mount_in
mounts_of [] = []
mounts_of (line ∷ lines) = elim (mount_in (words line)) [
  | none ↦ mounts_of lines
  | some m ↦ m ∷ mounts_of lines
]

-- A later mount that is not shorter replaces the best one so far.
unfoldable pub best_mount : String → Mount → List Mount → Mount
best_mount path best [] = best
best_mount path best (m ∷ ms) =
    best_mount path (if not (covers path m) || ltb (len m.point) (len best.point) then best else m)
      ms

abbrev pub no_mount : Mount
no_mount = record { point = ""; ro = false }

-- `mountOf`.
unfoldable pub mount_of : String → String → Mount
unfolding mounts_of
mount_of table path = best_mount path no_mount (mounts_of (split b'\n' table))

abbrev pub readonly_key : NodeState → String
readonly_key n = "disk-readonly:" <> n.cfg.url

readonly_switch : Chain → Tick → Mount → NodeState → NodeState × List Alert
readonly_switch c t m n =
    switch (m.ro && (not n.ro_alarm && not (t.has_open (readonly_key n))))
      (not m.ro && (n.ro_alarm || t.has_open (readonly_key n)))
      (
        record n { ro_alarm = true },
        raise c t (readonly_key n) "critical" (
              sprintf
                "node %s home filesystem %s is mounted read-only on its host on %s — usually remounted after disk errors; the node can't write"
                (node_label n ∷ m.point ∷ c.cfg.chain_id ∷ []))
            ∷ [],
      )
      (
        record n { ro_alarm = false },
        clear c t (readonly_key n) (
              sprintf "node %s home filesystem %s is read-write again on %s"
                (node_label n ∷ m.point ∷ c.cfg.chain_id ∷ []))
            ∷ [],
      )
      n

mount_in_table : Option String → String → Mount
mount_in_table none path = no_mount
mount_in_table (some table) path = mount_of table path

checked_mount : Chain → Tick → Mount → NodeState → NodeState × List Alert
unfolding readonly_switch
checked_mount c t m n =
    let n' = record n { ro_checked = true } in
    if m.point == "" then (n', []) else readonly_switch c t m n'

readonly_on : Chain → Tick → Option String → HostConfig → NodeState → NodeState × List Alert
unfolding checked_mount mount_in_table
readonly_on c t table hc n =
    if hc.mounts == "" || hc.home_path == ""
    then (n, [])
    else checked_mount c t (mount_in_table table hc.home_path) n

-- `probeReadonly`, with the text of the host's mount table or none where it cannot be read.
unfoldable pub probe_readonly : Chain → Tick → Option String → NodeState → NodeState × List Alert
unfolding readonly_on
probe_readonly c t table n = elim n.cfg.host [
  | none ↦ (n, [])
  | some hc ↦ readonly_on c t table hc n
]
