-- ===== src/Monitor/Alerting.antt =====
-- internal/monitor/health.go: the alerts that the monitor makes.
pub mod Keys
use cometduty.Prelude.{
  ℕ, Bool, false, String, Option, none, some, [], ◌==◌, string_eq, if◌then◌else◌,
}
use cometduty.Prelude.Maps.{lookup}
use cometduty.Prelude.Text.{cut}
use cometduty.Config.{ValidatorConfig}
use cometduty.Alert.{Alert}
use cometduty.Monitor.State.{Chain, NodeState, Target, ValInfo, NodeMeta}

-- `nodeLabel`.
unfoldable pub node_label : NodeState → String
node_label n = if n.cfg.name == "" then n.cfg.url else n.cfg.name

with_info : ValidatorConfig → Option ValInfo → Alert → Alert
with_info vc none a = a
with_info vc (some i) a = record a { moniker = i.moniker; valcons = i.valcons; scoped = vc.alerts }

with_target : Option Target → Alert → Alert
unfolding with_info
with_target none a = a
with_target (some tg) a = with_info tg.vc tg.info (record a { labels = tg.vc.labels })

with_meta : Option NodeMeta → Alert → Alert
with_meta none a = a
with_meta (some m) a = record a { node = m.name; labels = m.labels }

-- The alert that `(*Chain).alert` hands to the engine's `Dispatch`, on a goroutine of its own.
unfoldable pub make_alert : Chain → ℕ → Option Target → String → Bool → String → String → Alert
unfolding with_target with_meta
make_alert c now tg key resolved severity msg =
    let (kind, target, _) = cut b':' key in
    with_meta (lookup target c.node_meta) (
      with_target tg (record {
        chain = c.name;
        chain_id = c.cfg.chain_id;
        key = key;
        message = msg;
        severity = if severity == "" then "warning" else severity;
        resolved = resolved;
        moniker = "";
        valcons = "";
        time = now;
        kind = kind;
        target = target;
        node = "";
        labels = [];
        reminder = false;
        fields = [];
        scoped = none;
      }))
