-- ===== src/Monitor/Local/Disk.antt =====
-- internal/monitor/local.go: `probeDisk` and `probeFillRate`. The numbers of `statfs` are whole, as the
-- float64 of the source holds them below 2 ^ 53; a quotient of them is compared as a fraction, which
-- the float64 rounds.
pub mod Samples
use cometduty.Prelude.{
  ℕ, zero, suc, ◌+◌, ◌-◌, ◌*◌, ◌/◌, ◌^◌, Bool, true, false, List, [], ◌∷◌, ◌++◌, String,
}
use cometduty.Prelude.{if◌then◌else◌, not, ◌&&◌, ◌||◌, ltb, leb, Option, none, some}
use cometduty.Prelude.Int.{ℤ, pos, pos_part, ltb_ℤ, leb_ℤ}
use cometduty.Prelude.Text.{sprintf, show, show_ℤ}
use cometduty.Prelude.Time.{longer, minute, hour}
use cometduty.Prelude.Decimals.{one_place, two_places}
use cometduty.Alert.{Alert}
use cometduty.Monitor.State.{Chain, NodeState, DiskSample}
use cometduty.Monitor.Alerting.{node_label}
use cometduty.Monitor.Watch.{Tick, raise, clear, switch}
use cometduty.Monitor.Local.Mounts.{probe_readonly}
use cometduty.Monitor.Local.StateFile.{disk_key}
use Prim.Native.String.{◌++◌ as ◌<>◌}

-- What `statfs` answers: free bytes, all inodes and the free ones.
pub record FsStat : Type 0 where
  pub free : ℕ
  pub files : ℕ
  pub ffree : ℕ

abbrev pub gib : ℕ → String
gib n = one_place n (2 ^ 30)

abbrev pub low_key : NodeState → String
low_key n = "disk-low:" <> n.cfg.url

abbrev pub inodes_key : NodeState → String
inodes_key n = "disk-inodes:" <> n.cfg.url

abbrev pub filling_key : NodeState → String
filling_key n = "disk-filling:" <> n.cfg.url

-- A failure of `statfs`: the second in a row is reported.
unfoldable pub on_statfs_failed : Chain → Tick → String → NodeState → NodeState × List Alert
on_statfs_failed c t e n =
    let n' = record n { disk_errs = suc n.disk_errs } in
    if leb 2 n'.disk_errs && (not n.disk_err_alarm && not (t.has_open (disk_key n)))
    then (
      record n' { disk_err_alarm = true },
      raise c t (disk_key n) "critical" (
            sprintf
              "node %s home filesystem can't be read on %s: %s — the disk failed, was unmounted or detached"
              (node_label n ∷ c.cfg.chain_id ∷ e ∷ []))
          ∷ [],
    )
    else (n', [])

-- The part on free space.
unfoldable pub watch_low : Chain → Tick → ℕ → NodeState → NodeState × List Alert
watch_low c t free n =
    let bound = c.cfg.alerts.disk_free_bytes_alert in
    let open? = t.has_open (low_key n) in
    if ltb_ℤ (pos 0) bound
    then switch (ltb_ℤ (pos free) bound && (not n.disk_alarm && not open?))
        (leb_ℤ bound (pos free) && (n.disk_alarm || open?))
        (
          record n { disk_alarm = true },
          raise c t (low_key n) "warning" (
                sprintf
                  "node %s home filesystem has %s GiB free (< %d bytes) on %s — a full disk halts the validator"
                  (node_label n ∷ gib free ∷ show_ℤ bound ∷ c.cfg.chain_id ∷ []))
              ∷ [],
        )
        (
          record n { disk_alarm = false },
          clear c t (low_key n) (
                sprintf "node %s disk pressure cleared on %s (%s GiB free)"
                  (node_label n ∷ c.cfg.chain_id ∷ gib free ∷ []))
              ∷ [],
        )
        n
    else (n, [])

-- The free inodes are fewer than a percentage of all.
abbrev few_inodes : FsStat → ℕ → Bool
few_inodes st pct = ltb (100 * st.ffree) (pct * st.files)

-- The part on inodes. A file system without a number of inodes is passed over.
unfoldable pub watch_inodes : Chain → Tick → FsStat → NodeState → NodeState × List Alert
watch_inodes c t st n =
    let pct = c.cfg.alerts.inode_free_pct_alert in
    let open? = t.has_open (inodes_key n) in
    let few = few_inodes st (pos_part pct) in
    if ltb_ℤ (pos 0) pct && ltb 0 st.files
    then switch (few && (not n.inode_alarm && not open?)) (not few && (n.inode_alarm || open?))
        (
          record n { inode_alarm = true },
          raise c t (inodes_key n) "warning" (
                sprintf
                  "node %s home filesystem has %s%% inodes free (< %d%%) on %s — it can't create files once they run out"
                  (node_label n
                    ∷ one_place (100 * st.ffree) st.files
                    ∷ show_ℤ pct
                    ∷ c.cfg.chain_id
                    ∷ []))
              ∷ [],
        )
        (
          record n { inode_alarm = false },
          clear c t (inodes_key n) (
                sprintf "node %s inodes recovered on %s (%s%% free)"
                  (node_label n ∷ c.cfg.chain_id ∷ one_place (100 * st.ffree) st.files ∷ []))
              ∷ [],
        )
        n
    else (n, [])

-- Samples older than an hour are dropped, but for the last one.
unfoldable pub drop_old : ℕ → List DiskSample → List DiskSample
drop_old now [] = []
drop_old now (s ∷ []) = s ∷ []
drop_old now (s ∷ s' ∷ ss) =
    let rest = drop_old now (s' ∷ ss) in if longer now s.at (pos hour) then rest else s ∷ s' ∷ ss

-- The time to a full disk is a fraction: the free bytes times the span, over the bytes that went in
-- it. `fmtHours` prints it.
unfoldable pub fmt_hours : ℕ → ℕ → String
fmt_hours num den =
    if ltb num (den * hour)
    then sprintf "%d minutes" (show ((2 * num + den * minute) / (2 * (den * minute))) ∷ [])
    else sprintf "%s hours" (one_place num (den * hour) ∷ [])

-- The switch on the fill rate since the oldest sample.
unfoldable pub fill_switch : Chain → Tick → ℕ → DiskSample → NodeState → NodeState × List Alert
fill_switch c t free first n =
    let hours = pos_part c.cfg.alerts.disk_fill_hours_alert in
    let span = t.now - first.at in
    let gone = first.free - free in
    let open? = t.has_open (filling_key n) in
    let soon = ltb 0 gone && ltb (free * span) (hours * hour * gone) in
    let eased = not (ltb 0 gone) || leb (3 * (hours * hour * gone)) (2 * (free * span)) in
    switch (soon && (not n.fill_alarm && not open?)) (eased && (n.fill_alarm || open?))
      (
        record n { fill_alarm = true },
        raise c t (filling_key n) "warning" (
              sprintf
                "node %s home filesystem is filling at %s GiB/h on %s — full in about %s (%s GiB free)"
                (node_label n
                  ∷ two_places (gone * hour) (span * 2 ^ 30)
                  ∷ c.cfg.chain_id
                  ∷ fmt_hours (free * span) gone
                  ∷ gib free
                  ∷ []))
            ∷ [],
      )
      (
        record n { fill_alarm = false },
        clear c t (filling_key n) (
              sprintf "node %s disk fill rate eased on %s (%s GiB free)"
                (node_label n ∷ c.cfg.chain_id ∷ gib free ∷ []))
            ∷ [],
      )
      n

-- The part on the fill rate: a span below a quarter of an hour is not trusted.
unfoldable pub watch_fill : Chain → Tick → ℕ → DiskSample → NodeState → NodeState × List Alert
watch_fill c t free first n =
    if ltb (t.now - first.at) (15 * minute) then (n, []) else fill_switch c t free first n

unfoldable pub oldest_fill : Chain → Tick → ℕ → List DiskSample → NodeState → NodeState × List Alert
oldest_fill c t free [] n = (n, [])
oldest_fill c t free (first ∷ more) n = watch_fill c t free first n

-- `probeFillRate`. The list of samples is not empty after the new one.
unfoldable pub probe_fill_rate : Chain → Tick → ℕ → NodeState → NodeState × List Alert
unfolding oldest_fill
probe_fill_rate c t free n =
    let samples = drop_old t.now (n.disk_samples ++ (record { at = t.now; free = free } ∷ [])) in
    let n' = record n { disk_samples = samples } in
    if leb_ℤ c.cfg.alerts.disk_fill_hours_alert (pos 0)
    then (n', [])
    else oldest_fill c t free samples n'

unfoldable pub disk_over : Chain → Tick → NodeState → NodeState × List Alert
disk_over c t n =
    if n.disk_err_alarm || t.has_open (disk_key n)
    then (
      record n { disk_err_alarm = false },
      clear c t (disk_key n) (
            sprintf "node %s home filesystem readable again on %s"
              (node_label n ∷ c.cfg.chain_id ∷ []))
          ∷ [],
    )
    else (n, [])

infixl 5 ◌then_check◌
abbrev pub ◌then_check◌ :
    NodeState × List Alert → (NodeState → NodeState × List Alert) → NodeState × List Alert
r then_check f = let (n', more) = f r.0 in (n', r.1 ++ more)

-- The answer of `statfs`: its error, or its numbers.
pub data Answer : Type 0 where
  failed : String → Answer
  answered : FsStat → Answer

-- `probeDisk`.
unfoldable pub probe_disk :
    Chain → Tick → Answer → Option String → NodeState → NodeState × List Alert
probe_disk c t (failed e) table n = on_statfs_failed c t e n
probe_disk c t (answered st) table n =
    watch_low c t st.free (record n { disk_errs = 0; disk_free = st.free })
    then_check watch_inodes c t st
    then_check probe_fill_rate c t st.free
    then_check probe_readonly c t table
    then_check disk_over c t
