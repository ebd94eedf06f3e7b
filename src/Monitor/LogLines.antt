-- ===== src/Monitor/LogLines.antt =====
-- internal/monitor/logs.go: `evalLogLine` and `logSample`. The stripping of ANSI escapes, which is a
-- regular expression, is a parameter; the level of a line is only counted in the metrics.
pub mod Fired
use cometduty.Prelude.{
  none, ℕ, zero, suc, Bool, true, false, List, [], ◌∷◌, String, not, ◌&&◌, ltb, eqb,
}
use cometduty.Prelude.{◌==◌, string_eq, if◌then◌else◌}
use cometduty.Prelude.Int.{ℤ}
use cometduty.Prelude.Fields.{trim_space, first_bytes}
use cometduty.Prelude.Text.{sprintf}
use cometduty.Config.Validate.{quoted}
use cometduty.Alert.{Alert}
use cometduty.Logs.{Rule, match}
use cometduty.Monitor.State.{Chain, NodeState}
use cometduty.Monitor.Alerting.{node_label, make_alert}
use Prim.Native.Char.{code}
use Prim.Native.String.{len, ◌++◌ as ◌<>◌}

-- `logSample`.
unfoldable pub log_sample : (String → String) → String → String
log_sample strip line =
    let s = trim_space (strip line) in if ltb 240 (len s) then first_bytes 240 s <> "…" else s

-- What `time.AfterFunc` is given: after how long, and the alert that is then sent, which is made of the
-- chain and the node as they are at that time.
pub record Timer : Type 0 where
  pub after : ℤ
  pub sends : Chain → NodeState → ℕ → Alert

abbrev pub log_key : NodeState → Rule → String
log_key n r = "log-" <> (r.name <> (":" <> n.cfg.url))

unfoldable pub log_alert : (String → String) → Chain → ℕ → NodeState → Bool → String → Rule → Alert
log_alert strip c now n kernel line r = make_alert c now none (log_key n r) false r.severity (
    sprintf "node %s %s pattern %s fired on %s — %s" (
      node_label n
      ∷ (if kernel then "host kernel log" else "log")
      ∷ quoted r.name
      ∷ c.cfg.chain_id
      ∷ log_sample strip line
      ∷ []))

-- The resolve that follows when the cooldown is over; the key and the chain's id are those of now.
unfoldable pub quieted : Chain → NodeState → Rule → Timer
quieted c n r = record {
  after = r.cooldown;
  sends = λ c' n' at.
      record (make_alert c' at none (log_key n r) true "info" (
        sprintf "node %s log pattern %s quieted on %s"
          (node_label n' ∷ quoted r.name ∷ c.cfg.chain_id ∷ []))) { chain_id = c.cfg.chain_id };
}

-- The loop over the rules, for a line that is stripped.
unfoldable pub eval_rules :
    (String → String)
    → Chain
    → ℕ
    → NodeState
    → Bool
    → String
    → List Rule
    → List Rule × List Alert × List Timer
eval_rules strip c now n kernel line [] = ([], [], [])
eval_rules strip c now n kernel line (r ∷ rs) =
    let (rest, alerts, timers) = eval_rules strip c now n kernel line rs in
    if not (r.re line)
    then (r ∷ rest, alerts, timers)
    else if not (match r now).1
    then ((match r now).0 ∷ rest, alerts, timers)
    else (
      (match r now).0 ∷ rest,
      log_alert strip c now n kernel line r ∷ alerts,
      quieted c n r ∷ timers,
    )

-- `evalLogLine`.
unfoldable pub eval_log_line :
    (String → String)
    → Chain
    → ℕ
    → NodeState
    → List Rule
    → String
    → Bool
    → List Rule × List Alert × List Timer
eval_log_line strip c now n rules line kernel = eval_rules strip c now n kernel (strip line) rules
