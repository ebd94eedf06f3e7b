-- ===== src/Monitor/Refresh/Targets.antt =====
-- What a refresh leaves of the targets.
use cometduty.Prelude.{
  ℕ, suc, Bool, List, [], ◌∷◌, Option, none, some, ◌≡◌, refl, map, if_cases, if◌then◌else◌,
}
use cometduty.Alert.{Alert}
use cometduty.Monitor.State.{Chain, Target, SetEntry}
use cometduty.Monitor.Resolve.{
  Resolved, resolved, bad_override, bad_valcons, no_address, bad_valoper, no_prefix, not_encoded,
}
use cometduty.Monitor.SetWatch.{set_watch}
use cometduty.Monitor.Refresh.{
  Answers, Staking, learned, known_address, known_staking, refresh_target, refresh_targets,
  refresh_val_info, staking_of, labelled,
}
use mathlib.Core.Path.{ap₂, ap, ◌∙◌}

-- A target without what the chain says of it.
abbrev pub own : Target → Target
own t = record t { info = none }

module _ (now : ℕ) (slashing : Bool) where
  address-own :
      (a : Answers) (i : ℕ) (t : Target) (c : Chain) (s : Staking) (r : Resolved)
      → own (known_address now slashing a i t c s r).1 ≡ own t
  unfolding known_address learned
  address-own a i t c s (resolved addr vc) = refl
  address-own a i t c s bad_override = refl
  address-own a i t c s bad_valcons = refl
  address-own a i t c s no_address = refl
  address-own a i t c s bad_valoper = refl
  address-own a i t c s no_prefix = refl
  address-own a i t c s not_encoded = refl

  staking-own :
      (a : Answers) (i : ℕ) (t : Target) (c : Chain) (o : Option Staking)
      → own (known_staking now slashing a i t c o).1 ≡ own t
  unfolding known_staking
  staking-own a i t c none = refl
  staking-own a i t c (some s) = address-own a i t c (labelled t.vc s) _

  targets-own :
      (answers : ℕ → Answers) (i : ℕ) (ts : List Target) (c : Chain)
      → map own (refresh_targets now slashing answers i ts c).1 ≡ map own ts
  unfolding refresh_targets refresh_target
  targets-own answers i [] c = refl
  targets-own answers i (t ∷ ts) c =
      ap₂ (◌∷◌) (staking-own (answers i) i t c (staking_of t.vc (answers i).staking))
        (targets-own answers (suc i) ts _)

record HasTargets (ts : List Target) (r : Chain × List Alert) : Type 0 where
  same : r.0.targets ≡ ts

set_watch-HasTargets :
    (now : ℕ) (listing : Option (List SetEntry)) (c : Chain)
    → HasTargets c.targets (set_watch now listing c)
unfolding set_watch
set_watch-HasTargets now none c = record { same = refl }
set_watch-HasTargets now (some es) c =
    if_cases (HasTargets c.targets) c.set_primed (λ e. record { same = refl })
      (λ e. record { same = refl })

record Owns (ts : List Target) (r : Chain × List Alert) : Type 0 where
  same : map own r.0.targets ≡ map own ts

-- A refresh changes nothing of the validators but what the chain says of them: the counters, the
-- latches of the alarms, the votes seen and the configuration stay, whatever the chain answers.
refresh_val_info-own :
    (now : ℕ) (listing : Option (List SetEntry)) (answers : ℕ → Answers) (c : Chain)
    → map own (refresh_val_info now listing answers c).0.targets ≡ map own c.targets
unfolding refresh_val_info
refresh_val_info-own now listing answers c =
    let watched : HasTargets c.targets
        (if c.cfg.alerts.set_watch_enabled then set_watch now listing c else (c, [])) =
      if_cases (HasTargets c.targets) c.cfg.alerts.set_watch_enabled
        (λ e. set_watch-HasTargets now listing c) (λ e. record { same = refl }) in
    let owned : Owns c.targets (refresh_val_info now listing answers c) =
      if_cases (Owns c.targets) c.client
        (λ e. record {
          same = targets-own now c.slashing_ok answers 0 _ _ ∙ ap (map own) watched.same;
        })
        (λ e. record { same = refl }) in
    owned.same
