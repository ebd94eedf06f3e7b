-- ===== src/Examples/Data.antt =====
-- The values that the examples share.
use cometduty.Prelude.{true, false, List, [], ◌∷◌, none, some, ◌*◌}
use cometduty.Prelude.{◌==◌, string_eq}
use cometduty.Prelude.Int.{pos}
use cometduty.Prelude.Time.{minute}
use cometduty.Config.{
  PagerdutyConfig, DiscordConfig, TelegramConfig, SlackConfig, WebhookConfig, NtfyConfig,
  OpsgenieConfig, AlertConfig, NodeConfig, ValidatorConfig, ChainConfig, HealthcheckConfig, Config,
}
use cometduty.Alert.{Alert, ResolvedDest, slack}
use cometduty.Alert.Silence.{Silence, Matcher, Regexp}
use cometduty.Monitor.State.{Target, ValInfo, Chain, new_target, new_chain}
use cometduty.Monitor.Watch.{Tick}

abbrev pub no_pagerduty : PagerdutyConfig
no_pagerduty = record { enabled = false; api_key = ""; default_severity = "" }

abbrev pub no_discord : DiscordConfig
no_discord = record { enabled = false; webhook = ""; mentions = [] }

abbrev pub no_telegram : TelegramConfig
no_telegram = record { enabled = false; api_key = ""; channel = ""; mentions = [] }

abbrev pub no_slack : SlackConfig
no_slack = record { enabled = false; webhook = ""; mentions = [] }

abbrev pub no_webhook : WebhookConfig
no_webhook = record {
  enabled = false;
  url = "";
  headers = [];
  template_body = "";
  method = "";
  secret = "";
}

abbrev pub no_ntfy : NtfyConfig
no_ntfy = record { enabled = false; url = ""; topic = ""; priority = ""; token = "" }

abbrev pub no_opsgenie : OpsgenieConfig
no_opsgenie = record { enabled = false; api_key = ""; api_url = ""; team = "" }

abbrev pub alarms : AlertConfig
alarms = record {
  stalled_minutes = pos 10;
  stalled_enabled = true;
  consecutive_missed = pos 3;
  consecutive_priority = "critical";
  consecutive_enabled = true;
  window_pct = pos 10;
  percentage_priority = "warning";
  percentage_enabled = true;
  alert_if_inactive = true;
  alert_if_no_servers = true;
  lag_blocks = pos 0;
  lag_enabled = false;
  evm_lag_blocks = pos 0;
  evm_lag_enabled = false;
  evm_down_enabled = false;
  mempool_txs_alert = pos 0;
  consensus_round_alert = pos 0;
  evm_txpool_queued_alert = pos 0;
  set_watch_enabled = false;
  stake_change_pct = pos 0;
  cpu_pct_alert = pos 0;
  mem_bytes_alert = pos 0;
  catching_up_enabled = none;
  catching_up_severity = "";
  catching_up_grace_min = pos 0;
  catching_up_stuck_min = pos 0;
  disk_free_bytes_alert = pos 0;
  inode_free_pct_alert = pos 0;
  disk_fill_hours_alert = pos 0;
  signer_stall_min = pos 0;
  pagerduty = no_pagerduty;
  discord = no_discord;
  telegram = no_telegram;
  slack = no_slack;
  webhook = no_webhook;
  ntfy = no_ntfy;
  opsgenie = no_opsgenie;
}

abbrev pub node : NodeConfig
node = record {
  url = "http://a:26657";
  name = "";
  metrics_url = "";
  validator = "";
  evm_rpc = "";
  home_dir = "";
  logs = none;
  host = none;
  alert_if_down = true;
  insecure_tls = false;
  headers = [];
  disable_vote = false;
  labels = [];
}

abbrev pub validator : ValidatorConfig
validator = record {
  valoper_address = "cosmosvaloper1";
  valcons_override = "";
  cons_prefix = "";
  label = "";
  alerts = none;
  labels = [];
}

abbrev pub chain_config : ChainConfig
chain_config = record {
  chain_id = "hub-4";
  role = "";
  valoper_address = "";
  valcons_override = "";
  cons_prefix = "";
  label = "";
  validators = validator ∷ [];
  slashing_enabled = none;
  alerts = alarms;
  public_fallback = false;
  evm_rpc = "";
  nodes = node ∷ [];
  name = "";
}

abbrev no_healthcheck : HealthcheckConfig
no_healthcheck = record { enabled = false; ping_url = ""; ping_rate = pos 0 }

abbrev pub root : Config
root = record {
  node_down_min = pos 3;
  node_down_severity = "critical";
  prometheus_enabled = false;
  prometheus_listen_port = pos 0;
  prometheus_bind = "";
  pagerduty = no_pagerduty;
  discord = no_discord;
  telegram = no_telegram;
  slack = no_slack;
  webhook = no_webhook;
  ntfy = no_ntfy;
  opsgenie = no_opsgenie;
  api_token = "";
  healthcheck = no_healthcheck;
  flap_minutes = pos 0;
  remind_minutes = pos 0;
  resolve_on_start = false;
  chains = [];
}

abbrev pub chain : Chain
chain = new_chain "hub" chain_config false

abbrev pub info : ValInfo
info = record {
  moniker = "alice";
  bonded = true;
  jailed = false;
  tombstoned = false;
  tokens = "1000";
  missed = pos 5;
  window = pos 100;
  jailed_until = pos 0;
  cons_addr = [];
  cons_hex = "AB";
  valcons = "cosmosvalcons1";
}

-- Four blocks missed in a row.
abbrev pub missing : Target
missing = record (new_target validator) { info = some info; consec = 4; miss = 4 }

abbrev pub tick : Tick
tick = record {
  now = 1_000_000 * minute;
  root = root;
  has_open = λ k. false;
  duration_text = λ d. "";
  percent_text = λ a b. "5.0";
}

abbrev pub alert : Alert
alert = record {
  chain = "hub";
  chain_id = "hub-4";
  key = "node-down:http://a:26657";
  message = "down";
  severity = "critical";
  resolved = false;
  moniker = "";
  valcons = "";
  time = 100;
  kind = "node-down";
  target = "http://a:26657";
  node = "http://a:26657";
  labels = [];
  reminder = false;
  fields = [];
  scoped = none;
}

abbrev pub solved : Alert
solved = record alert { resolved = true }

abbrev pub to_slack : Alert → List ResolvedDest
to_slack a = record { kind = "slack"; cfg = slack no_slack } ∷ []

-- A pattern engine that knows plain texts only.
abbrev pub plain : Regexp
plain v = some (λ text. text == v)

abbrev pub matcher : Matcher
matcher = record {
  name = "kind";
  value = "node-down";
  is_regex = false;
  is_equal = none;
  re = none;
}

abbrev pub silence : Silence
silence = record {
  id = "";
  matchers = matcher ∷ [];
  starts_at = 0;
  ends_at = 60 * minute;
  created_by = "ops";
  comment = "upgrade";
  updated_at = 0;
}
