-- ===== src/Examples/Servers.antt =====
-- A start, the signals, the silence API and the state file.
use cometduty.Prelude.{
  ℕ, [], ◌∷◌, List, ◌≡◌, refl, arith, true, false, none, some, All, ltb, string_eq, if◌then◌else◌,
}
use cometduty.Prelude.Maps.{IsMap, lookup, insert, is_some}
use cometduty.Prelude.Tried.{Tried, failed, done}
use cometduty.Config.{Config}
use cometduty.Alert.Silence.{Silence, ok, compile, matches, state}
use cometduty.Alert.Engine.{Engine, new_engine}
use cometduty.Alert.Engine.Silences.{
  accept, compile_all, add_silence, expire_silence, expire_found, ended, release_held, release_all,
  dispatch_all,
}
use cometduty.Supervisor.{Supervisor}
use cometduty.Server.Starting.{Snapshot, start_engine}
use cometduty.Server.Starting.Starts.{start_engine-panics}
use cometduty.Server.Signals.{Signal, hangup, ends, started}
use cometduty.Server.Api.{handle, get_silence}
use cometduty.Server.Api.Shown.{handle-posted, handle-deleted, answer}
use cometduty.Server.Api.Purged.{ticks}
use cometduty.Prelude.Time.{hour}
use cometduty.Prelude.{◌*◌}
use cometduty.Server.Stores.{Disk, Writing, all_written, save_snapshot}
use cometduty.Server.Stores.Atomic.{save_snapshot-atomic, IsOldOrNew}
use cometduty.Examples.Alerts.{engine, stored, muted}
use cometduty.Examples.Configs.{watched, refuse}
use cometduty.Examples.Data.{alert, plain, root, silence}

-- One alert was open when the program stopped.
abbrev left_open : Snapshot
left_open = record {
  alarms = ("slack", (alert.key, record { alert = alert; when = 100 }) ∷ []) ∷ [];
  nodes_down = [];
  silences = [];
}

abbrev fresh_start : Config
fresh_start = record root { resolve_on_start = true }

start_engine-panics_example : is_some (start_engine plain 200 fresh_start left_open) ≡ false
start_engine-panics_example = start_engine-panics plain 200 fresh_start left_open

-- A file that cannot be read, one that is invalid, and the end.
abbrev signals : List Signal
signals = hangup (failed "no such file") ∷ hangup (done (watched "[a")) ∷ ends ∷ []

abbrev running : Supervisor
running = (started refuse false signals (watched "a")).0

abbrev with_stored : Engine
with_stored = record engine { silences = ("s1", stored) ∷ [] }

engine-IsMap : IsMap engine.silences
unfolding IsMap new_engine
engine-IsMap = tt

handle-posted_example :
    (t : Silence) × (accept plain 120 "s1" silence ≡ ok t)
    × ((handle plain
          (ticks with_stored (125 ∷ 100 * hour ∷ []))
          (101 * hour)
          "s2"
          (get_silence "s1")).1
        ≡ answer (125 ∷ 100 * hour ∷ []) (101 * hour) "s1" t)
unfolding handle add_silence accept compile_all compile matches lookup insert new_engine
handle-posted_example =
    handle-posted plain engine with_stored 120 (101 * hour) (125 ∷ 100 * hour ∷ []) "s1" "s2" "s1"
      silence [] engine-IsMap tt refl

muted-IsMap : IsMap muted.silences
unfolding IsMap lookup
muted-IsMap = (refl, tt)

abbrev over : Engine
over = record muted { silences = ("s1", ended 130 stored) ∷ [] }

handle-deleted_example :
    (s : Silence) × (lookup "s1" muted.silences ≡ some s)
    × ((handle plain (ticks over (135 ∷ [])) 140 "s2" (get_silence "s1")).1
        ≡ answer (135 ∷ []) 140 "s1" (ended 130 s))
    × (state (ended 130 s) 140 ≡ (if ltb 140 s.starts_at then "pending" else "expired"))
unfolding handle expire_silence expire_found release_held release_all dispatch_all insert lookup
    new_engine
handle-deleted_example =
    handle-deleted plain muted over 130 140 (135 ∷ []) "s1" "s2" "s1" [] muted-IsMap (refl, tt)
      (omega arith) refl

abbrev empty_disk : Disk
empty_disk = record { file = some (1 ∷ 2 ∷ []); tmp = none }

-- The file is written in two parts.
abbrev in_parts : Writing
in_parts = all_written ([] ∷ (3 ∷ []) ∷ [])

abbrev unparsed : List ℕ → Tried Snapshot
unparsed bytes = failed "no JSON"

save_snapshot-atomic_example :
    All
      (IsOldOrNew unparsed empty_disk (3 ∷ 4 ∷ []))
      (save_snapshot (done (3 ∷ 4 ∷ [])) empty_disk in_parts none).0
save_snapshot-atomic_example = save_snapshot-atomic unparsed empty_disk (3 ∷ 4 ∷ []) in_parts none
