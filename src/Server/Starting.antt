-- ===== src/Server/Starting.antt =====
-- cmd/cometduty/cmd/run.go: what `runMonitor` makes of the engine before the supervisor runs, and the
-- healthcheck. None is a panic.
pub mod Starts
pub mod Periods
use cometduty.Prelude.{ℕ, ◌*◌, ◌%◌, ◌^◌, Bool, true, false, List, [], ◌∷◌, ◌++◌, String, Option}
use cometduty.Prelude.{none, some, if◌then◌else◌, ◌||◌, leb, eqb}
use cometduty.Prelude.Int.{ℤ, pos, negsuc, leb_ℤ}
use cometduty.Prelude.Maps.{GoMap}
use cometduty.Prelude.Time.{second, hour, minutes}
use cometduty.Alert.{Alert, ResolvedDest, SentEntry}
use cometduty.Alert.Engine.{Engine, Delivery, new_engine, register, dispatch}
use cometduty.Alert.Engine.Silences.{restore_silences}
use cometduty.Alert.Engine.Stored.{restore}
use cometduty.Alert.Silence.{Silence, Regexp}
use cometduty.Config.{Config}
use cometduty.Supervisor.{resolve_destinations}
use Prim.Native.String.{◌++◌ as ◌<>◌}

-- What the state file holds.
pub record Snapshot : Type 0 where
  pub alarms : GoMap String (GoMap String SentEntry)
  pub nodes_down : GoMap String (GoMap String ℕ)
  pub silences : List Silence

-- `Dispatch` on the function that `resolve` holds, where `NewEngine(nil, …)` left none: it calls it
-- before anything else can end it.
unfoldable pub dispatch_on :
    Option (Alert → List ResolvedDest) → Engine → ℕ → Alert → Option (Engine × List Delivery)
dispatch_on none e now a = none
dispatch_on (some resolve) e now a = some (dispatch (record e { resolve = resolve }) now a)

-- The alert of the loop over what was open.
unfoldable pub closing : ℕ → String → SentEntry → Alert
closing now key sa = record sa.alert {
  key = key;
  resolved = true;
  time = now;
  message = "restarting cometduty: resolving " <> sa.alert.message;
}

abbrev pub and_send :
    List Delivery → Option (Engine × List Delivery) → Option (Engine × List Delivery)
and_send out none = none
and_send out (some (e, more)) = some (e, out ++ more)

abbrev pub and_then :
    Option (Engine × List Delivery)
    → (Engine → Option (Engine × List Delivery))
    → Option (Engine × List Delivery)
and_then none next = none
and_then (some (e, out)) next = and_send out (next e)

unfoldable pub close_kind :
    Option (Alert → List ResolvedDest)
    → ℕ
    → GoMap String SentEntry
    → Engine
    → Option (Engine × List Delivery)
close_kind resolve now [] e = some (e, [])
close_kind resolve now ((key, sa) ∷ m) e =
    and_then (dispatch_on resolve e now (closing now key sa)) (close_kind resolve now m)

unfoldable pub close_all :
    Option (Alert → List ResolvedDest)
    → ℕ
    → GoMap String (GoMap String SentEntry)
    → Engine
    → Option (Engine × List Delivery)
close_all resolve now [] e = some (e, [])
close_all resolve now ((kind, m) ∷ ms) e =
    and_then (close_kind resolve now m e) (close_all resolve now ms)

-- The seven calls of `Register`, by the kinds of the notifiers.
unfoldable pub registered : Engine → Engine
registered e =
    register
      (register
        (register
          (register (register (register (register e "slack") "discord") "telegram") "pagerduty")
          "webhook")
        "ntfy")
      "opsgenie"

-- The engine after the state is restored. Without a resolver it has no destinations.
unfoldable pub restored_engine : Regexp → ℕ → Config → Snapshot → Engine
restored_engine regexp now cfg snap =
    let e =
      registered (new_engine (λ a. []) (minutes cfg.flap_minutes) (minutes cfg.remind_minutes)) in
    restore_silences regexp (restore e now (pos (24 * hour)) snap.alarms) now snap.silences

abbrev pub with_resolver :
    (Alert → List ResolvedDest) → Option (Engine × List Delivery) → Option (Engine × List Delivery)
with_resolver resolve none = none
with_resolver resolve (some (e, out)) = some (record e { resolve = resolve }, out)

-- The engine when the supervisor starts, with what was sent by then: the alerts that were open are
-- closed, where `resolve_alerts_on_start` is set, and only then is the resolver set.
unfoldable pub start_engine : Regexp → ℕ → Config → Snapshot → Option (Engine × List Delivery)
start_engine regexp now cfg snap =
    let e = restored_engine regexp now cfg snap in
    with_resolver (resolve_destinations cfg)
      (if cfg.resolve_on_start then close_all none now snap.alarms e else some (e, []))

-- The rate of the healthcheck. A `time.Duration` counts nanoseconds.
unfoldable pub rate_of : ℤ → ℕ
rate_of (pos n) = if eqb n 0 then 60 * second else n
rate_of (negsuc n) = 60 * second

-- The argument of `time.NewTicker`, `every * time.Second` on 64 bits, which panics where that is not
-- positive.
unfoldable pub healthcheck_period : ℤ → Option ℕ
healthcheck_period every =
    let d = rate_of every * second % 2 ^ 64 in if eqb d 0 || leb (2 ^ 63) d then none else some d
