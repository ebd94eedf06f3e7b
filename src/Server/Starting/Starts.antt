-- ===== src/Server/Starting/Starts.antt =====
-- When the program gets past its start.
use cometduty.Prelude.{
  ℕ, Bool, true, false, List, [], ◌∷◌, String, Option, none, some, ◌≡◌, refl, ◌∙◌, ◌&&◌, not, arith,
  any, if◌then◌else◌,
}
use cometduty.Prelude.Maps.{GoMap, is_some}
use cometduty.Alert.{SentEntry, Alert, ResolvedDest}
use cometduty.Alert.Silence.{Regexp}
use cometduty.Alert.Engine.{Engine, Delivery}
use cometduty.Config.{Config}
use cometduty.Supervisor.{resolve_destinations}
use cometduty.Server.Starting.{
  Snapshot, dispatch_on, close_kind, close_all, start_engine, and_send, restored_engine,
  with_resolver,
}

abbrev pub has_entries : GoMap String SentEntry → Bool
has_entries [] = false
has_entries (x ∷ xs) = true

close_kind-panics :
    (now : ℕ) (m : GoMap String SentEntry) (e : Engine)
    → is_some (close_kind none now m e) ≡ not (has_entries m)
unfolding close_kind dispatch_on
close_kind-panics now [] e = refl
close_kind-panics now ((key, sa) ∷ m) e = refl

some_and_send :
    (out : List Delivery) (o : Option (Engine × List Delivery))
    → is_some (and_send out o) ≡ is_some o
some_and_send out none = refl
some_and_send out (some (e, more)) = refl

some_with_resolver :
    (resolve : Alert → List ResolvedDest) (o : Option (Engine × List Delivery))
    → is_some (with_resolver resolve o) ≡ is_some o
some_with_resolver resolve none = refl
some_with_resolver resolve (some (e, more)) = refl

close_all-panics :
    (now : ℕ) (ms : GoMap String (GoMap String SentEntry)) (e : Engine)
    → is_some (close_all none now ms e) ≡ not (any (λ m. has_entries m.1) ms)
unfolding close_all close_kind dispatch_on
close_all-panics now [] e = refl
close_all-panics now ((kind, []) ∷ ms) e =
    some_and_send [] (close_all none now ms e) ∙ close_all-panics now ms e
close_all-panics now ((kind, (key, sa) ∷ m) ∷ ms) e = refl

-- The program gets past its start unless `resolve_alerts_on_start` is set and the state file holds an
-- alert that was open: then it panics, since the alerts are dispatched before the engine is told how
-- to resolve their destinations.
pub start_engine-panics :
    (regexp : Regexp) (now : ℕ) (cfg : Config) (snap : Snapshot)
    → is_some (start_engine regexp now cfg snap)
      ≡ not (cfg.resolve_on_start && any (λ m. has_entries m.1) snap.alarms)
unfolding start_engine
start_engine-panics regexp now cfg snap =
    let e = restored_engine regexp now cfg snap in
    let b = any (λ m. has_entries m.1) snap.alarms in
    some_with_resolver (resolve_destinations cfg)
      (if cfg.resolve_on_start then close_all none now snap.alarms e else some (e, []))
    ∙ ground (arith, close_all-panics now snap.alarms e)
