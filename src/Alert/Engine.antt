-- ===== src/Alert/Engine.antt =====
-- internal/alert/engine.go: the engine's state, `Dispatch` and `shouldSend`. The mutex makes each
-- of these one step. An operation reads the clock once, as `now`; what it hands to `fire` is the
-- list of deliveries that it returns.
pub mod Dedup
pub mod Silences
pub mod Stored
pub mod Run
pub mod Muted
pub mod Release
pub mod Filled
pub mod Held
pub mod Restart
use cometduty.Prelude.{ℕ, suc, Bool, true, false, List, [], ◌∷◌, ◌++◌, String, Option, none, some}
use cometduty.Prelude.{◌==◌, string_eq, if◌then◌else◌, not, any, length}
use cometduty.Prelude.Int.{ℤ}
use cometduty.Prelude.Maps.{GoMap, lookup, insert, erase, member, or_zero}
use cometduty.Prelude.Text.{cut}
use cometduty.Prelude.Time.{is_zero, longer}
use cometduty.Alert.{Alert, ResolvedDest, SentEntry}
use cometduty.Alert.Silence.{Silence, mutes, label_set}

-- A notifier is known by its kind, under which `Register` files it.
pub record Engine : Type 0 where
  pub notifiers : List String
  pub resolve : Alert → List ResolvedDest
  pub flap_minutes : ℤ
  pub remind_minutes : ℤ
  pub sent : GoMap String (GoMap String SentEntry)
  pub flapped : GoMap String (GoMap String ℕ)
  pub active : GoMap String (GoMap String ℕ)
  pub silences : GoMap String Silence
  pub held : GoMap String Alert

-- A call of `fire`: the notifier's kind, the destination and the alert.
pub record Delivery : Type 0 where
  pub notifier : String
  pub dest : ResolvedDest
  pub alert : Alert

unfoldable pub new_engine : (Alert → List ResolvedDest) → ℤ → ℤ → Engine
new_engine resolve flap remind = record {
  notifiers = [];
  resolve = resolve;
  flap_minutes = flap;
  remind_minutes = remind;
  sent = [];
  flapped = [];
  active = [];
  silences = [];
  held = [];
}

unfoldable pub register : Engine → String → Engine
register e kind = record e { notifiers = kind ∷ e.notifiers }

-- `m[k]` of a map of maps, where a missing inner map reads as an empty one.
abbrev pub inner {ℓ} : {V : Type ℓ} → String → GoMap String (GoMap String V) → GoMap String V
inner k m = or_zero (lookup k m) []

-- `splitKey`.
unfoldable pub split_key : String → String × String
split_key key = let (kind, target, _) = cut b':' key in (kind, target)

with_key : Alert → Alert
with_key a = if a.key == "" then record a { key = a.message } else a

with_time : ℕ → Alert → Alert
with_time now a = if is_zero a.time then record a { time = now } else a

with_kind : Alert → Alert
unfolding split_key
with_kind a =
    let (kind, target) = split_key a.key in
    if a.kind == "" then record a { kind = kind; target = target } else a

-- What `Dispatch` fills in: the key, the time and the kind.
unfoldable pub filled : ℕ → Alert → Alert
unfolding with_key with_time with_kind
filled now a = with_kind (with_time now (with_key a))

-- `silencedLocked`. The early return for an engine with no silence gives what the loop gives.
unfoldable pub silenced : Engine → ℕ → Alert → Bool
silenced e now a = any (λ s. mutes s.1 (label_set a) now) e.silences

-- `time.Since(last) < e.flapMinutes` for the last resolve, where there is one: on whole
-- nanoseconds `now - last < d` is `not (d < now + 1 - last)` on whole nanoseconds.
abbrev recent : ℕ → ℤ → Option ℕ → Bool
recent now flap none = false
recent now flap (some last) = not (longer (suc now) last flap)

-- `shouldSend`: dedup, resolve pairing and flap suppression for one destination kind.
unfoldable pub should_send : Engine → ℕ → String → Alert → Engine × Bool
should_send e now kind a =
    let sent = inner kind e.sent in
    let flapped = inner kind e.flapped in
    let e = record e { sent = insert kind sent e.sent; flapped = insert kind flapped e.flapped } in
    if a.resolved
    then (if member a.key sent
        then (
          record e {
            sent = insert kind (erase a.key sent) e.sent;
            flapped = insert kind (insert a.key now flapped) e.flapped;
          },
          true,
        )
        else (e, false))
    else if member a.key sent
    then (e, false)
    else if recent now e.flap_minutes (lookup a.key flapped)
    then (e, false)
    else (
      record e { sent = insert kind (insert a.key (record { alert = a; when = now }) sent) e.sent },
      true,
    )

-- One round of the loop over the destinations.
unfoldable pub send_one : Engine → ℕ → Alert → ResolvedDest → Engine × List Delivery
send_one e now a d =
    let (e', send) = should_send e now d.kind a in
    if any (λ k. k == d.kind) e.notifiers
    then (e', (if send then record { notifier = d.kind; dest = d; alert = a } ∷ [] else []))
    else (e, [])

unfoldable pub send_all : Engine → ℕ → Alert → List ResolvedDest → Engine × List Delivery
send_all e now a [] = (e, [])
send_all e now a (d ∷ ds) =
    let (e', out) = send_one e now a d in
    let (e'', more) = send_all e' now a ds in (e'', out ++ more)

unfoldable pub mark_resolved : Engine → Alert → Engine
mark_resolved e a = record e {
  active = insert a.chain (erase a.key (inner a.chain e.active)) e.active;
  held = erase a.key e.held;
}

unfoldable pub mark_open : Engine → Alert → Engine
mark_open e a = record e {
  active = insert a.chain (insert a.key a.time (inner a.chain e.active)) e.active;
}

unfoldable pub hold : Engine → Alert → Engine
hold e a = record e { held = insert a.key a e.held }

-- `Dispatch` after it has filled the alert in.
unfoldable pub route : Engine → ℕ → Alert → Engine × List Delivery
route e now a =
    if a.resolved
    then send_all (mark_resolved e a) now a (e.resolve a)
    else if silenced (mark_open e a) now a
    then (hold (mark_open e a) a, [])
    else send_all (mark_open e a) now a (e.resolve a)

unfoldable pub dispatch : Engine → ℕ → Alert → Engine × List Delivery
dispatch e now a = route e now (filled now a)

-- `HasOpen`.
unfoldable pub has_open : Engine → String → Bool
has_open e key = any (λ m. member key m.1) e.sent

-- `ActiveCount`.
unfoldable pub active_count : Engine → String → ℕ
active_count e chain = length (inner chain e.active)
