-- ===== src/Supervisor/Kinds.antt =====
-- The kinds of the destinations of an alert.
use cometduty.Prelude.{Bool, true, false, List, [], ◌∷◌, ◌++◌, String, ◌≡◌, refl, map, ◌&&◌}
use cometduty.Prelude.{if◌then◌else◌, ap}
use cometduty.Config.{Config, AlertConfig}
use cometduty.Alert.{ResolvedDest, DestConfig}
use cometduty.Supervisor.{dests_of, when}

-- The texts whose test holds, in their order.
unfoldable pub chosen : List (Bool × String) → List String
chosen [] = []
chosen ((on, kind) ∷ rest) = let more = chosen rest in if on then kind ∷ more else more

-- Each kind of notifier, with whether the global and the alert's configuration both turn it on.
abbrev pub kinds : Config → AlertConfig → List (Bool × String)
kinds cfg ac =
    (cfg.pagerduty.enabled && ac.pagerduty.enabled, "pagerduty")
    ∷ (cfg.discord.enabled && ac.discord.enabled, "discord")
    ∷ (cfg.telegram.enabled && ac.telegram.enabled, "telegram")
    ∷ (cfg.slack.enabled && ac.slack.enabled, "slack")
    ∷ (cfg.webhook.enabled && ac.webhook.enabled, "webhook")
    ∷ (cfg.ntfy.enabled && ac.ntfy.enabled, "ntfy")
    ∷ (cfg.opsgenie.enabled && ac.opsgenie.enabled, "opsgenie")
    ∷ []

abbrev pub kind_of : ResolvedDest → String
kind_of d = d.kind

map-append : (xs ys : List ResolvedDest) → map kind_of (xs ++ ys) ≡ map kind_of xs ++ map kind_of ys
map-append [] ys = refl
map-append (x ∷ xs) ys = ap (◌∷◌ x.kind) (map-append xs ys)

last_kind :
    (on : Bool) (kind : String) (cfg : DestConfig)
    → map kind_of (when on kind cfg) ≡ chosen ((on, kind) ∷ [])
unfolding chosen
last_kind true kind cfg = refl
last_kind false kind cfg = refl

next_kind :
    (on : Bool) (kind : String) (cfg : DestConfig) (ds : List ResolvedDest)
    (rest : List (Bool × String))
    → map kind_of ds ≡ chosen rest
    → map kind_of (when on kind cfg ++ ds) ≡ chosen ((on, kind) ∷ rest)
unfolding chosen
next_kind true kind cfg ds rest h = ap (◌∷◌ kind) h
next_kind false kind cfg ds rest h = h

-- The kinds of an alert's destinations are those that the global configuration and the alert's
-- policy both turn on, each once, in the order of `kinds`.
dests_of-kinds :
    (cfg : Config) (ac : AlertConfig) → map kind_of (dests_of cfg ac) ≡ chosen (kinds cfg ac)
unfolding dests_of
dests_of-kinds cfg ac = next_kind _ _ _ _ _ (
    next_kind _ _ _ _ _ (
      next_kind _ _ _ _ _
        (next_kind _ _ _ _ _ (next_kind _ _ _ _ _ (next_kind _ _ _ _ _ (last_kind _ _ _))))))
