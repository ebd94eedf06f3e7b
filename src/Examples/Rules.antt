-- ===== src/Examples/Rules.antt =====
-- Log rules, and the supervisor.
use cometduty.Prelude.{String, ℕ, true, false, List, [], ◌∷◌, ◌≡◌, refl, ◌*◌}
use cometduty.Prelude.{string_eq, ◌==◌}
use cometduty.Prelude.Int.{pos}
use cometduty.Prelude.Maps.{lookup, IsMap}
use cometduty.Prelude.Time.{minute}
use cometduty.Config.{Config}
use cometduty.Logs.{Rule, match, recent_hits, cooling}
use cometduty.Logs.Windows.{after_hits}
use cometduty.Monitor.State.{new_node}
use cometduty.Monitor.LogLines.{eval_log_line}
use cometduty.Monitor.LogLines.Fired.{eval_log_line-IsTold, IsTold, fired}
use cometduty.Supervisor.{Supervisor, reload}
use cometduty.Supervisor.Reloads.{lookup-reload, reloaded}
use cometduty.Examples.Data.{root, node, chain, chain_config}

-- Two hits in five minutes.
abbrev rule : Rule
rule = record {
  name = "peer-churn";
  re = λ line. line == "Stopping peer for error";
  severity = "warning";
  count = pos 2;
  window = pos (5 * minute);
  cooldown = pos (30 * minute);
  hits = [];
  last_alert = 0;
}

abbrev times : List ℕ
times = 101 * minute ∷ 100 * minute ∷ []

-- Without a cooldown the rule fires again at the next hit.
abbrev eager : Rule
eager = record rule { cooldown = pos 0 }

eager-fires : (match (after_hits eager times) (102 * minute)).1 ≡ true
unfolding match after_hits recent_hits cooling
eager-fires = refl

abbrev strip : String → String
strip line = line

-- The second rule does not look for this line.
abbrev other : Rule
other = record eager { name = "panic"; re = λ line. line == "panic:" }

eval_log_line-IsTold_example :
    IsTold strip chain chain
      (102 * minute)
      (103 * minute)
      (new_node node)
      (new_node node)
      false
      "Stopping peer for error"
      (after_hits eager times ∷ other ∷ [])
      (eval_log_line strip chain
        (102 * minute)
        (new_node node)
        (after_hits eager times ∷ other ∷ [])
        "Stopping peer for error"
        false)
eval_log_line-IsTold_example =
    eval_log_line-IsTold strip chain chain (102 * minute) (103 * minute) (new_node node)
      (new_node node) false (after_hits eager times ∷ other ∷ []) "Stopping peer for error"

one-fires :
    fired (102 * minute) "Stopping peer for error" (after_hits eager times ∷ other ∷ [])
    ≡ after_hits eager times ∷ []
unfolding match after_hits recent_hits cooling
one-fires = refl

abbrev running : Supervisor
running = record { cfg = root; met = false; chains = ("hub", chain) ∷ [] }

-- The configuration names a chain that ran, with another label, and one that did not run.
abbrev changed : Config
changed = record root {
  chains = ("hub", record chain_config { label = "main" }) ∷ ("zone", chain_config) ∷ [];
}

changed-IsMap : IsMap changed.chains
unfolding IsMap lookup
changed-IsMap = (refl, (refl, tt))

lookup-reload_example :
    lookup "hub" (reload running changed).chains
    ≡ reloaded false "hub" (lookup "hub" changed.chains) (lookup "hub" running.chains)
lookup-reload_example = lookup-reload running changed "hub" changed-IsMap
