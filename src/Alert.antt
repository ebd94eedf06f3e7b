-- ===== src/Alert.antt =====
-- internal/alert: the notification engine's data. `Alert` and the engine's records are those of
-- engine.go, `Matcher` and `Silence` those of silence.go.
pub mod Silence
pub mod Engine
use cometduty.Prelude.{ℕ, Bool, true, false, List, [], ◌∷◌, String, Option, none, some, arith}
use cometduty.Prelude.{◌==◌, string_eq, if◌then◌else◌}
use cometduty.Prelude.Maps.{GoMap}
use cometduty.Config.{AlertConfig, PagerdutyConfig, DiscordConfig, TelegramConfig, SlackConfig}
use cometduty.Config.{WebhookConfig, NtfyConfig, OpsgenieConfig}

pub record Alert : Type 0 where
  pub chain : String
  pub chain_id : String
  pub key : String
  pub message : String
  pub severity : String
  pub resolved : Bool
  pub moniker : String
  pub valcons : String
  pub time : ℕ
  pub kind : String
  pub target : String
  pub node : String
  pub labels : GoMap String String
  pub reminder : Bool
  pub fields : GoMap String String
  pub scoped : Option AlertConfig

-- What the `any` of a destination holds: the notifier's configuration.
pub data DestConfig : Type 0 where
  pagerduty : PagerdutyConfig → DestConfig
  discord : DiscordConfig → DestConfig
  telegram : TelegramConfig → DestConfig
  slack : SlackConfig → DestConfig
  webhook : WebhookConfig → DestConfig
  ntfy : NtfyConfig → DestConfig
  opsgenie : OpsgenieConfig → DestConfig

pub record ResolvedDest : Type 0 where
  pub kind : String
  pub cfg : DestConfig

pub record SentEntry : Type 0 where
  pub alert : Alert
  pub when : ℕ
