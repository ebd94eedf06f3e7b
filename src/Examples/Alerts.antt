-- ===== src/Examples/Alerts.antt =====
-- The engine: a run of calls, and silences.
use cometduty.Prelude.{ℕ, true, false, List, [], ◌∷◌, ◌≡◌, refl, ◌*◌, ◌+◌, ◌<◌, ◌≤◌}
use cometduty.Prelude.{some, string_eq}
use cometduty.Prelude.Int.{pos}
use cometduty.Prelude.Time.{minute}
use cometduty.Prelude.Maps.{lookup, insert}
use cometduty.Alert.Silence.{Silence, ok, mutes, max_silence, compile, matches, state, label_set}
use cometduty.Alert.Engine.Held.{release_held-still, dispatch-held, still, IsFilled}
use cometduty.Alert.Engine.Silences.{release_held}
use cometduty.Alert.Engine.{dispatch, filled}
use cometduty.Prelude.{if◌then◌else◌, ◌==◌, arith}
use cometduty.Alert.Engine.{Engine, new_engine, silenced, inner}
use cometduty.Alert.Engine.Silences.{accept, compile_all}
use cometduty.Alert.Engine.Dedup.{notices, Alternates, open_at, open_after}
use cometduty.Alert.Engine.Run.{
  Call, dispatches, adds, silence_ticks, remind_ticks, run, run-Alternates,
}
use cometduty.Alert.Engine.Muted.{accept_lem}
use cometduty.Prelude.{All, none}
use cometduty.Prelude.Maps.{IsMap}
use cometduty.Alert.Engine.Stored.{restore, snapshot}
use cometduty.Alert.Engine.Restart.{restored, restore-snapshot}
use cometduty.Examples.Data.{alert, solved, to_slack, plain, silence}

abbrev pub engine : Engine
engine = record (new_engine to_slack (pos 0) (pos 0)) { notifiers = "slack" ∷ [] }

-- A silence that comes too late, a raise that is repeated, and a resolve.
abbrev calls : List (ℕ × Call)
calls =
    (100, dispatches alert)
    ∷ (110, dispatches alert)
    ∷ (120, adds "s1" silence)
    ∷ (130, remind_ticks)
    ∷ (140, silence_ticks)
    ∷ (150, dispatches solved)
    ∷ []

-- The engine of a program that starts again while the alert is open.
abbrev resumed : Engine
resumed =
    restore engine 90 (pos minute)
      (("slack", (alert.key, record { alert = alert; when = 80 }) ∷ []) ∷ [])

run-Alternates_example :
    let out = (run plain resumed calls).1 in
    Alternates (open_at resumed "slack" alert.key) (notices "slack" alert.key out)
    × (open_at (run plain resumed calls).0 "slack" alert.key
        ≡ open_after (open_at resumed "slack" alert.key) (notices "slack" alert.key out))
run-Alternates_example = run-Alternates plain resumed calls "slack" alert.key

abbrev pub stored : Silence
stored = record silence { id = "s1"; starts_at = 120; updated_at = 120 }

accepted : accept plain 120 "s1" silence ≡ ok stored
unfolding accept compile_all compile matches lookup
accepted = refl

accept_lem_example :
    (120 < 60 * minute)
    × (120 < 60 * minute)
    × (60 * minute ≤ 120 + max_silence)
    × ((t : ℕ) → mutes stored [] t ≡ false)
accept_lem_example = accept_lem plain 120 "s1" silence stored accepted

abbrev pub muted : Engine
muted = record engine { silences = ("s1", stored) ∷ [] }

muted-silenced : silenced muted 130 alert ≡ true
unfolding silenced mutes state matches label_set lookup insert
muted-silenced = refl

abbrev holding : Engine
holding = record muted {
  held = (alert.key, alert) ∷ [];
  active = ("hub", (alert.key, 130) ∷ []) ∷ [];
}

holding-IsMap : IsMap holding.held
unfolding IsMap lookup
holding-IsMap = (refl, tt)

holding-IsFilled : All (λ h. IsFilled (61 * minute) h.1) holding.held
unfolding filled
holding-IsFilled = ((refl, refl), tt)

-- An hour later nothing mutes the alert.
release_held-still_example :
    lookup alert.key (release_held holding (61 * minute)).0.held
    ≡ still holding (61 * minute) (lookup alert.key holding.held)
release_held-still_example =
    release_held-still holding (61 * minute) alert.key holding-IsMap holding-IsFilled

muted-filled : silenced muted 130 (filled 130 alert) ≡ true
unfolding silenced mutes state matches label_set lookup insert filled
muted-filled = refl

muted-none : IsMap muted.held
unfolding IsMap new_engine
muted-none = tt

muted-IsFilled : All (λ h. IsFilled 140 h.1) muted.held
unfolding new_engine
muted-IsFilled = tt

-- A raise that is muted, and then the silence is gone.
dispatch-held_example :
    let f = filled 130 alert in
    let e1 = (dispatch muted 130 alert).0 in
    let e2 = record e1 { silences = [] } in
    ((dispatch muted 130 alert).1 ≡ [])
    × (e1.sent ≡ muted.sent)
    × (lookup alert.key (release_held e2 140).0.held
        ≡ still e2 140 (if f.key == alert.key then some f else lookup alert.key muted.held))
dispatch-held_example =
    dispatch-held muted 130 140 alert [] alert.key (omega arith) refl muted-filled muted-none
      muted-IsFilled

abbrev told : Engine
told = record engine {
  sent = ("slack", (alert.key, record { alert = alert; when = 100 }) ∷ []) ∷ [];
}

told-IsMap : IsMap told.sent
unfolding IsMap lookup
told-IsMap = (refl, tt)

told-kinds : All (λ m. IsMap m.1) told.sent
unfolding IsMap lookup
told-kinds = ((refl, tt), tt)

restore-snapshot_example :
    lookup alert.key (
      inner "slack"
        (restore (new_engine to_slack (pos 5) (pos 0)) 200 (pos minute) (snapshot told)).sent)
    ≡ restored 200 (pos minute) alert.key (lookup alert.key (inner "slack" told.sent)) none
restore-snapshot_example =
    restore-snapshot told to_slack (pos 5) (pos 0) (pos minute) 200 "slack" alert.key told-IsMap
      told-kinds
