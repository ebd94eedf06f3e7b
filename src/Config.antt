-- ===== src/Config.antt =====
-- internal/config/config.go: the configuration, with Go's `int` as an integer, a map as an
-- association list and a pointer that may be nil as an option.
pub mod Validate
pub mod Load
use cometduty.Prelude.{Bool, true, List, [], ◌∷◌, ◌++◌, String, Option, none, some}
use cometduty.Prelude.{◌==◌, string_eq, not, ◌||◌, if◌then◌else◌}
use cometduty.Prelude.Int.{ℤ}
use cometduty.Prelude.Maps.{GoMap}

pub record PagerdutyConfig : Type 0 where
  pub enabled : Bool
  pub api_key : String
  pub default_severity : String

pub record DiscordConfig : Type 0 where
  pub enabled : Bool
  pub webhook : String
  pub mentions : List String

pub record TelegramConfig : Type 0 where
  pub enabled : Bool
  pub api_key : String
  pub channel : String
  pub mentions : List String

pub record SlackConfig : Type 0 where
  pub enabled : Bool
  pub webhook : String
  pub mentions : List String

pub record WebhookConfig : Type 0 where
  pub enabled : Bool
  pub url : String
  pub headers : GoMap String String
  pub template_body : String
  pub method : String
  pub secret : String

pub record NtfyConfig : Type 0 where
  pub enabled : Bool
  pub url : String
  pub topic : String
  pub priority : String
  pub token : String

pub record OpsgenieConfig : Type 0 where
  pub enabled : Bool
  pub api_key : String
  pub api_url : String
  pub team : String

pub record AlertConfig : Type 0 where
  pub stalled_minutes : ℤ
  pub stalled_enabled : Bool
  pub consecutive_missed : ℤ
  pub consecutive_priority : String
  pub consecutive_enabled : Bool
  pub window_pct : ℤ
  pub percentage_priority : String
  pub percentage_enabled : Bool
  pub alert_if_inactive : Bool
  pub alert_if_no_servers : Bool
  pub lag_blocks : ℤ
  pub lag_enabled : Bool
  pub evm_lag_blocks : ℤ
  pub evm_lag_enabled : Bool
  pub evm_down_enabled : Bool
  pub mempool_txs_alert : ℤ
  pub consensus_round_alert : ℤ
  pub evm_txpool_queued_alert : ℤ
  pub set_watch_enabled : Bool
  pub stake_change_pct : ℤ
  pub cpu_pct_alert : ℤ
  pub mem_bytes_alert : ℤ
  pub catching_up_enabled : Option Bool
  pub catching_up_severity : String
  pub catching_up_grace_min : ℤ
  pub catching_up_stuck_min : ℤ
  pub disk_free_bytes_alert : ℤ
  pub inode_free_pct_alert : ℤ
  pub disk_fill_hours_alert : ℤ
  pub signer_stall_min : ℤ
  pub pagerduty : PagerdutyConfig
  pub discord : DiscordConfig
  pub telegram : TelegramConfig
  pub slack : SlackConfig
  pub webhook : WebhookConfig
  pub ntfy : NtfyConfig
  pub opsgenie : OpsgenieConfig

pub record HostConfig : Type 0 where
  pub mounts : String
  pub home_path : String
  pub kernel_log : String

pub record LogRule : Type 0 where
  pub name : String
  pub pattern : String
  pub severity : String
  pub count : ℤ
  pub window_min : ℤ
  pub cooldown_min : ℤ

pub record LogConfig : Type 0 where
  pub enabled : Bool
  pub source : String
  pub docker_host : String
  pub container : String
  pub file : String
  pub tail : ℤ
  pub rules : List LogRule

pub record NodeConfig : Type 0 where
  pub url : String
  pub name : String
  pub metrics_url : String
  pub validator : String
  pub evm_rpc : String
  pub home_dir : String
  pub logs : Option LogConfig
  pub host : Option HostConfig
  pub alert_if_down : Bool
  pub insecure_tls : Bool
  pub headers : GoMap String String
  pub disable_vote : Bool
  pub labels : GoMap String String

pub record ValidatorConfig : Type 0 where
  pub valoper_address : String
  pub valcons_override : String
  pub cons_prefix : String
  pub label : String
  pub alerts : Option AlertConfig
  pub labels : GoMap String String

pub record ChainConfig : Type 0 where
  pub chain_id : String
  pub role : String
  pub valoper_address : String
  pub valcons_override : String
  pub cons_prefix : String
  pub label : String
  pub validators : List ValidatorConfig
  pub slashing_enabled : Option Bool
  pub alerts : AlertConfig
  pub public_fallback : Bool
  pub evm_rpc : String
  pub nodes : List NodeConfig
  pub name : String

pub record HealthcheckConfig : Type 0 where
  pub enabled : Bool
  pub ping_url : String
  pub ping_rate : ℤ

pub record Config : Type 0 where
  pub node_down_min : ℤ
  pub node_down_severity : String
  pub prometheus_enabled : Bool
  pub prometheus_listen_port : ℤ
  pub prometheus_bind : String
  pub pagerduty : PagerdutyConfig
  pub discord : DiscordConfig
  pub telegram : TelegramConfig
  pub slack : SlackConfig
  pub webhook : WebhookConfig
  pub ntfy : NtfyConfig
  pub opsgenie : OpsgenieConfig
  pub api_token : String
  pub healthcheck : HealthcheckConfig
  pub flap_minutes : ℤ
  pub remind_minutes : ℤ
  pub resolve_on_start : Bool
  pub chains : GoMap String ChainConfig

-- `ValidatorTargets`: the single-validator shorthand first, then the list.
unfoldable pub validator_targets : ChainConfig → List ValidatorConfig
validator_targets ch =
    (if not (ch.valoper_address == "") || not (ch.valcons_override == "")
      then record {
        valoper_address = ch.valoper_address;
        valcons_override = ch.valcons_override;
        cons_prefix = ch.cons_prefix;
        label = ch.label;
        alerts = none;
        labels = [];
      }
        ∷ []
      else [])
    ++ ch.validators

abbrev pub is_sidecar : ChainConfig → Bool
is_sidecar ch = ch.role == "sidecar"

abbrev pub is_chain_only : ChainConfig → Bool
is_chain_only ch = ch.role == "chain"

-- Nil means on.
abbrev nil_or : Option Bool → Bool
nil_or none = true
nil_or (some b) = b

unfoldable pub catch_up : AlertConfig → Bool
catch_up a = nil_or a.catching_up_enabled

unfoldable pub catch_up_severity : AlertConfig → String
catch_up_severity a = if a.catching_up_severity == "" then "warning" else a.catching_up_severity
