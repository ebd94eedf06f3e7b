-- ===== src/Examples/Probes.antt =====
-- The report on a chain, and the validators of `status`.
use cometduty.Prelude.{ℕ, [], ◌∷◌, List, Option, ◌≡◌, refl, true, false, none, some, map}
use cometduty.Prelude.Int.{ℤ, pos}
use cometduty.Prelude.Text.{contains, has_prefix}
use cometduty.Config.{ValidatorConfig}
use cometduty.Monitor.State.{new_target, new_node}
use cometduty.Monitor.Pick.{EndpointReply, probe_endpoint, is_suitable}
use cometduty.Monitor.Queries.{recorded}
use cometduty.Monitor.Refresh.{Staking, signing, refresh_target}
use cometduty.Monitor.Refresh.Targets.{own}
use cometduty.Monitor.LiveProbe.{
  LiveAnswers, ProbeResult, ResolvedValidator, is_direct, queried_row, recorded_row, resolved_from,
  resolve_validator, probe_chain, probe_nodes, validator_lines, validator_line, recorded_line,
  queried_line, node_line, subject_of,
}
use cometduty.Monitor.LiveProbe.Agrees.{resolve_validator-refresh_target, IsShown, answers_of}
use cometduty.Monitor.LiveProbe.Rows.{probe_chain-subjects, subject_in}
use cometduty.Examples.Chains.{address, up}
use cometduty.Examples.Data.{chain, chain_config, node, validator}

abbrev hub_validator : ValidatorConfig
hub_validator = record validator { valoper_address = "hubvaloper1x"; cons_prefix = "hub" }

abbrev staking : Staking
staking = record {
  cons_addr = address;
  moniker = "alice";
  jailed = false;
  bonded = true;
  tokens = "1000";
}

abbrev answers : LiveAnswers
answers = record {
  about = recorded staking;
  slashing = signing false (pos 3) (pos 0);
  window = some (pos 100);
}

abbrev alice_row : ResolvedValidator
alice_row = queried_row hub_validator answers staking (resolved_from hub_validator address)

resolve_validator-refresh_target_example :
    IsShown
      (refresh_target 100 true (answers_of answers) 0 (own (new_target hub_validator)) chain).1.info
      alice_row
unfolding resolve_validator recorded_row is_direct contains has_prefix new_target
resolve_validator-refresh_target_example =
    resolve_validator-refresh_target 100 true answers 0 (new_target hub_validator) chain alice_row
      refl

-- A node that answers, without peers, and the one validator of the list.
abbrev node_up : ℕ → EndpointReply × Option ℤ
node_up i = (up i, none)

abbrev unasked : ℕ → LiveAnswers
unasked i = answers

abbrev rows : List ProbeResult
rows =
    node_line "http://a:26657" none (probe_endpoint "hub-4" (up 0))
    ∷ queried_line validator answers staking (resolved_from validator address)
    ∷ []

probe_chain-subjects_example : map subject_in rows ≡ "http://a:26657" ∷ "cosmosvaloper1" ∷ []
unfolding probe_chain probe_nodes validator_lines validator_line recorded_line is_direct contains
    has_prefix probe_endpoint is_suitable subject_of new_node
probe_chain-subjects_example =
    probe_chain-subjects node_up unasked chain_config (new_node node ∷ []) rows refl refl
