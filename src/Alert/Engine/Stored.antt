-- ===== src/Alert/Engine/Stored.antt =====
-- internal/alert/engine.go: `Snapshot` and `Restore`, the reminders, and what `fire` reports.
use cometduty.Prelude.{ℕ, suc, Bool, true, List, [], ◌∷◌, ◌++◌, String, Option, none, some}
use cometduty.Prelude.{◌==◌, string_eq, if◌then◌else◌, not, ◌&&◌, any}
use cometduty.Prelude.Int.{ℤ, pos, leb_ℤ}
use cometduty.Prelude.Maps.{GoMap, insert}
use cometduty.Prelude.Text.{sprintf}
use cometduty.Prelude.Time.{longer}
use cometduty.Alert.{Alert, SentEntry, ResolvedDest}
use cometduty.Alert.Engine.{Engine, Delivery, inner, silenced}

-- `Snapshot`: the stored form has the fields of the entry.
unfoldable pub snapshot : Engine → GoMap String (GoMap String SentEntry)
snapshot e = e.sent

-- The inner loop of `Restore`: an entry older than `max_age` is dropped, and the key is the map's.
unfoldable pub restore_kind :
    ℕ → ℤ → GoMap String SentEntry → GoMap String SentEntry → GoMap String SentEntry
restore_kind now max_age [] into = into
restore_kind now max_age ((k, sa) ∷ m) into = restore_kind now max_age m (
    if longer now sa.when max_age
    then into
    else insert k (record { alert = record sa.alert { key = k }; when = sa.when }) into)

unfoldable pub restore_sent :
    ℕ
    → ℤ
    → GoMap String (GoMap String SentEntry)
    → GoMap String (GoMap String SentEntry)
    → GoMap String (GoMap String SentEntry)
restore_sent now max_age [] into = into
restore_sent now max_age ((kind, m) ∷ snap) into =
    restore_sent now max_age snap (insert kind (restore_kind now max_age m (inner kind into)) into)

unfoldable pub restore : Engine → ℕ → ℤ → GoMap String (GoMap String SentEntry) → Engine
restore e now max_age snap = record e { sent = restore_sent now max_age snap e.sent }

-- An entry that is due: it has a key, it was sent `remind_minutes` ago or more, and nothing mutes it.
unfoldable pub due : Engine → ℕ → SentEntry → Bool
due e now se =
    not (se.alert.key == "")
    && (longer (suc now) se.when e.remind_minutes && not (silenced e now se.alert))

-- The alert that a reminder sends again.
unfoldable pub reminder_of : Alert → Alert
reminder_of a = record a { message = sprintf "(reminder) %s" (a.message ∷ []); reminder = true }

-- The destinations of a reminder: those of the entry's own kind, where a notifier is registered.
unfoldable pub remind_dests : Engine → String → Alert → List ResolvedDest → List Delivery
remind_dests e kind a [] = []
remind_dests e kind a (d ∷ ds) =
    let rest = remind_dests e kind a ds in
    if d.kind == kind && any (λ k. k == kind) e.notifiers
    then record { notifier = kind; dest = d; alert = a } ∷ rest
    else rest

-- The loop over one kind's entries.
unfoldable pub remind_entries :
    Engine → ℕ → String → GoMap String SentEntry → GoMap String SentEntry × List Delivery
remind_entries e now kind [] = ([], [])
remind_entries e now kind ((k, se) ∷ m) =
    let (m', out) = remind_entries e now kind m in
    let a = reminder_of se.alert in
    if due e now se
    then ((k, record se { when = now }) ∷ m', remind_dests e kind a (e.resolve a) ++ out)
    else ((k, se) ∷ m', out)

unfoldable pub remind_kinds :
    Engine
    → ℕ
    → GoMap String (GoMap String SentEntry)
    → GoMap String (GoMap String SentEntry) × List Delivery
remind_kinds e now [] = ([], [])
remind_kinds e now ((kind, m) ∷ rest) =
    let (m', out) = remind_entries e now kind m in
    let (rest', more) = remind_kinds e now rest in ((kind, m') ∷ rest', out ++ more)

-- A tick of `RunReminders`, which does not run where `remind_minutes` is not positive.
unfoldable pub remind_tick : Engine → ℕ → Engine × List Delivery
remind_tick e now =
    let (sent', out) = remind_kinds e now e.sent in
    if leb_ℤ e.remind_minutes (pos 0) then (e, []) else (record e { sent = sent' }, out)

-- What `fire` reports: a failed send is tried once more, unless the context is done by then.
pub record NotifyResult : Type 0 where
  pub dest : String
  pub alert : Alert
  pub err : Option String
  pub attempts : ℕ

report : Delivery → Option String → ℕ → NotifyResult
report d e n = record { dest = d.dest.kind; alert = d.alert; err = e; attempts = n }

-- After the first send: `second` is what the other send would give.
retried : Delivery → Option String → Bool → Option String → NotifyResult
unfolding report
retried d none done second = report d none 1
retried d (some e) done second = if done then report d (some e) 1 else report d second 2

unfoldable pub fire : (ℕ → Option String) → Bool → Delivery → NotifyResult
unfolding retried
fire send done d = retried d (send 1) done (send 2)
