-- ===== src/Supervisor.antt =====
-- internal/monitor/supervisor.go: where alerts go, and which chains run. A runner is its chain: the
-- context that stops it is not modelled. The engine is not part of the state.
pub mod Kinds
pub mod Reloads
use cometduty.Prelude.{ℕ, Bool, true, false, List, [], ◌∷◌, ◌++◌, String, Option, none, some}
use cometduty.Prelude.{◌==◌, string_eq, if◌then◌else◌, not, ◌&&◌}
use cometduty.Prelude.Maps.{GoMap, lookup, insert, member}
use cometduty.Prelude.Time.{is_zero}
use cometduty.Config.{
  Config, ChainConfig, AlertConfig, PagerdutyConfig, DiscordConfig, TelegramConfig, SlackConfig,
  WebhookConfig, NtfyConfig, OpsgenieConfig,
}
use cometduty.Alert.{Alert, ResolvedDest, DestConfig}
use cometduty.Monitor.State.{Chain, NodeState, new_chain, update}
use cometduty.Monitor.Round.{ready}
use Prim.Native.String.{◌++◌ as ◌<>◌}

pub record Supervisor : Type 0 where
  pub cfg : Config
  pub met : Bool
  pub chains : GoMap String Chain

abbrev or_text : String → String → String
or_text own global = if own == "" then global else own

abbrev or_list : List String → List String → List String
or_list [] global = global
or_list (x ∷ xs) global = x ∷ xs

-- A kind's own settings, with the global ones where they are empty.
unfoldable pub merge_pagerduty : PagerdutyConfig → PagerdutyConfig → PagerdutyConfig
merge_pagerduty own global = record own {
  api_key = or_text own.api_key global.api_key;
  default_severity = or_text own.default_severity global.default_severity;
}

unfoldable pub merge_discord : DiscordConfig → DiscordConfig → DiscordConfig
merge_discord own global = record own {
  webhook = or_text own.webhook global.webhook;
  mentions = or_list own.mentions global.mentions;
}

unfoldable pub merge_telegram : TelegramConfig → TelegramConfig → TelegramConfig
merge_telegram own global = record own {
  api_key = or_text own.api_key global.api_key;
  channel = or_text own.channel global.channel;
  mentions = or_list own.mentions global.mentions;
}

unfoldable pub merge_slack : SlackConfig → SlackConfig → SlackConfig
merge_slack own global = record own {
  webhook = or_text own.webhook global.webhook;
  mentions = or_list own.mentions global.mentions;
}

-- These three are taken whole from the global configuration where the address or key is empty.
unfoldable pub merge_webhook : WebhookConfig → WebhookConfig → WebhookConfig
merge_webhook own global = if own.url == "" then global else own

unfoldable pub merge_ntfy : NtfyConfig → NtfyConfig → NtfyConfig
merge_ntfy own global = if own.url == "" then global else own

unfoldable pub merge_opsgenie : OpsgenieConfig → OpsgenieConfig → OpsgenieConfig
merge_opsgenie own global = if own.api_key == "" then global else own

-- A destination for a kind that both configurations turn on.
abbrev pub when : Bool → String → DestConfig → List ResolvedDest
when on kind cfg = if on then record { kind = kind; cfg = cfg } ∷ [] else []

unfoldable pub dests_of : Config → AlertConfig → List ResolvedDest
dests_of cfg ac =
    when (cfg.pagerduty.enabled && ac.pagerduty.enabled) "pagerduty"
      (DestConfig.pagerduty (merge_pagerduty ac.pagerduty cfg.pagerduty))
    ++ (when (cfg.discord.enabled && ac.discord.enabled) "discord"
          (DestConfig.discord (merge_discord ac.discord cfg.discord))
        ++ (when (cfg.telegram.enabled && ac.telegram.enabled) "telegram"
              (DestConfig.telegram (merge_telegram ac.telegram cfg.telegram))
            ++ (when (cfg.slack.enabled && ac.slack.enabled) "slack"
                  (DestConfig.slack (merge_slack ac.slack cfg.slack))
                ++ (when (cfg.webhook.enabled && ac.webhook.enabled) "webhook"
                      (DestConfig.webhook (merge_webhook ac.webhook cfg.webhook))
                    ++ (when (cfg.ntfy.enabled && ac.ntfy.enabled) "ntfy"
                          (DestConfig.ntfy (merge_ntfy ac.ntfy cfg.ntfy))
                        ++ when (cfg.opsgenie.enabled && ac.opsgenie.enabled) "opsgenie"
                            (DestConfig.opsgenie (merge_opsgenie ac.opsgenie cfg.opsgenie)))))))

-- The alert's own policy, where the monitor attached one, in place of the chain's.
abbrev pub policy_for : ChainConfig → Alert → AlertConfig
policy_for cc a = elim a.scoped [ none ↦ cc.alerts | some own ↦ own ]

-- `ResolveDestinations`.
unfoldable pub resolve_destinations : Config → Alert → List ResolvedDest
resolve_destinations cfg a = elim (lookup a.chain cfg.chains) [
  | none ↦ []
  | some cc ↦ dests_of cfg (policy_for cc a)
]

-- `Start`, from a supervisor that runs nothing.
unfoldable pub start_all : Bool → GoMap String ChainConfig → GoMap String Chain → GoMap String Chain
start_all met [] chains = chains
start_all met ((name, cc) ∷ rest) chains =
    start_all met rest (insert name (new_chain name cc met) chains)

unfoldable pub start : Supervisor → Supervisor
start s = record s { chains = start_all s.met s.cfg.chains s.chains }

-- The first loop of `Reload`: a chain that the configuration no longer has is stopped.
unfoldable pub stop_removed : GoMap String ChainConfig → GoMap String Chain → GoMap String Chain
stop_removed new [] = []
stop_removed new ((name, c) ∷ rest) =
    let kept = stop_removed new rest in if member name new then (name, c) ∷ kept else kept

-- A chain that runs is updated, another is started.
unfoldable pub updated : Bool → String → ChainConfig → Option Chain → Chain
updated met name cc none = new_chain name cc met
updated met name cc (some c) = update c cc

-- The second loop.
unfoldable pub start_added :
    Bool → GoMap String ChainConfig → GoMap String Chain → GoMap String Chain
start_added met [] chains = chains
start_added met ((name, cc) ∷ rest) chains =
    start_added met rest (insert name (updated met name cc (lookup name chains)) chains)

-- `Reload`.
unfoldable pub reload : Supervisor → Config → Supervisor
reload s new = record s {
  cfg = new;
  chains = start_added s.met new.chains (stop_removed new.chains s.chains);
}

-- The reasons of `Ready`, one for each chain that is not ready.
unfoldable pub reasons : (ℕ → String) → ℕ → GoMap String Chain → List String
reasons seconds_text now [] = []
reasons seconds_text now ((name, c) ∷ rest) =
    let more = reasons seconds_text now rest in
    let (ok, why) = ready seconds_text now c in if ok then more else (name <> (": " <> why)) ∷ more

abbrev none_of : List String → Bool
none_of [] = true
none_of (x ∷ xs) = false

-- `Ready`.
unfoldable pub all_ready : (ℕ → String) → ℕ → Supervisor → Bool × List String
all_ready seconds_text now s = let why = reasons seconds_text now s.chains in (none_of why, why)

-- The inner loop of `SnapshotNodesDown`, from the times that it has for the chain.
unfoldable pub nodes_down : List NodeState → GoMap String ℕ → GoMap String ℕ
nodes_down [] out = out
nodes_down (n ∷ ns) out =
    nodes_down ns
      (if n.down && not (is_zero n.down_since) then insert n.cfg.url n.down_since out else out)

abbrev with_times :
    String → GoMap String ℕ → GoMap String (GoMap String ℕ) → GoMap String (GoMap String ℕ)
with_times name [] out = out
with_times name (t ∷ ts) out = insert name (t ∷ ts) out

-- `SnapshotNodesDown`.
unfoldable pub snapshot_nodes_down : GoMap String Chain → GoMap String (GoMap String ℕ)
snapshot_nodes_down [] = []
snapshot_nodes_down ((name, c) ∷ rest) =
    with_times name (nodes_down c.nodes []) (snapshot_nodes_down rest)
