-- ===== src/Config/Validate.antt =====
-- internal/config/config.go: `Validate`. Patterns are compiled by a parameter, which gives the text of
-- the error where one is refused.
pub mod Fatal
use cometduty.Prelude.{ℕ, Bool, true, false, List, [], ◌∷◌, ◌++◌, String, Option, none, some}
use cometduty.Prelude.{◌==◌, string_eq, if◌then◌else◌, not, ◌&&◌, ◌||◌, eqb, length}
use cometduty.Prelude.Int.{ℤ, pos, ltb_ℤ}
use cometduty.Prelude.Text.{sprintf}
use cometduty.Config.{
  Config, ChainConfig, ValidatorConfig, NodeConfig, LogConfig, LogRule, AlertConfig,
  validator_targets,
}
use Prim.Native.Char.{code}
use Prim.Native.Nat.{Ordering}
use Prim.Native.String.{compare, len, ◌++◌ as ◌<>◌}

-- Whether it is fatal, and the problems.
abbrev pub Report : Type 0
Report = Bool × List String

unfoldable pub error_if : Bool → String → Report → Report
error_if b msg r = if b then (true, r.1 ++ (msg ∷ [])) else r

unfoldable pub warn_if : Bool → String → Report → Report
warn_if b msg r = if b then (r.0, r.1 ++ (msg ∷ [])) else r

infixl 5 ◌and_then◌
abbrev pub ◌and_then◌ {ℓ} : {A : Type ℓ} → A → (A → A) → A
r and_then check = check r

-- `[+_-]` is somewhere in the text.
unfoldable pub looks_like_oauth : String → Bool
looks_like_oauth String.[] = false
looks_like_oauth (String.◌∷◌ a s) =
    (eqb (code a) b'+' || (eqb (code a) b'_' || eqb (code a) b'-')) || looks_like_oauth s

-- `%q`, of a text of printable ASCII.
escaped : String → String
escaped String.[] = ""
escaped (String.◌∷◌ a s) =
    let rest = String.◌∷◌ a (escaped s) in
    if eqb (code a) b'"' || eqb (code a) b'\\' then "\\" <> rest else rest

unfoldable pub quoted : String → String
unfolding escaped
quoted s = "\"" <> (escaped s <> "\"")

-- The checks before the chains.
unfoldable pub validate_globals : Config → Report → Report
validate_globals c r =
    r
    and_then error_if
        (c.prometheus_enabled
          && (ltb_ℤ c.prometheus_listen_port (pos 1) || ltb_ℤ (pos 65535) c.prometheus_listen_port))
        "error: prometheus_listen_port is not a valid TCP port"
    and_then error_if (c.pagerduty.enabled && looks_like_oauth c.pagerduty.api_key)
        "error: the pagerduty key looks like an OAuth token, not a V2 Events API key"
    and_then warn_if (ltb_ℤ c.node_down_min (pos 3))
        "warn: node_down_alert_minutes < 3 can cause false alarms"
    and_then error_if (not (c.api_token == "") && not c.prometheus_enabled)
        "error: api_token is set but prometheus_enabled is off — the silence API is served on the prometheus listener"
    and_then error_if (not (c.api_token == "") && ltb_ℤ (pos (len c.api_token)) (pos 16))
        "error: api_token is shorter than 16 characters"
    and_then error_if (c.webhook.enabled && c.webhook.url == "")
        "error: webhook enabled but no url configured"
    and_then error_if (c.ntfy.enabled && (c.ntfy.url == "" || c.ntfy.topic == ""))
        "error: ntfy enabled but url or topic missing"
    and_then error_if (c.opsgenie.enabled && c.opsgenie.api_key == "")
        "error: opsgenie enabled but api_key missing"

unfoldable pub is_role : String → Bool
is_role role = role == "" || (role == "standalone" || (role == "sidecar" || role == "chain"))

unfoldable pub validate_targets : String → List ValidatorConfig → Report → Report
validate_targets name [] r = r
validate_targets name (t ∷ ts) r = validate_targets name ts (
    error_if (t.valoper_address == "" && t.valcons_override == "")
      (sprintf "error: %s validator needs valoper_address or valcons_override" (name ∷ [])) r)

module _ (compile : String → Option String) where
  unfoldable pub pattern_problem : String → String → LogRule → Option String → Report → Report
  pattern_problem name url rule none r = r
  pattern_problem name url rule (some e) r =
      error_if true
        (sprintf "error: %s node %s: bad log rule pattern %s: %s"
          (name ∷ url ∷ quoted rule.name ∷ e ∷ []))
        r

  unfoldable pub validate_rules : String → String → List LogRule → Report → Report
  unfolding pattern_problem
  validate_rules name url [] r = r
  validate_rules name url (rule ∷ rules) r =
      let warned =
        warn_if true (sprintf "warn: %s node %s: log rule needs name + pattern" (name ∷ url ∷ []))
          r in
      validate_rules name url rules (
        if rule.name == "" || rule.pattern == ""
        then warned
        else pattern_problem name url rule (compile rule.pattern) r)

  -- The switch on the source of a node's log.
  unfoldable pub validate_source : String → String → LogConfig → Report → Report
  validate_source name url l r =
      if l.source == "" || l.source == "docker"
      then error_if (l.container == "")
          (sprintf "error: %s node %s: logs enabled but no container set" (name ∷ url ∷ [])) r
      else if l.source == "file"
      then error_if (l.file == "")
          (sprintf "error: %s node %s: logs source=file but no file path set" (name ∷ url ∷ [])) r
      else error_if true
          (sprintf "error: %s node %s: invalid logs source %s (docker|file)"
            (name ∷ url ∷ quoted l.source ∷ []))
          r

  unfoldable pub validate_logs : String → String → Option LogConfig → Report → Report
  unfolding validate_source
  validate_logs name url none r = r
  validate_logs name url (some l) r =
      if l.enabled then validate_rules name url l.rules (validate_source name url l r) else r

  unfoldable pub validate_nodes : String → List NodeConfig → Report → Report
  unfolding validate_logs
  validate_nodes name [] r = r
  validate_nodes name (n ∷ ns) r = validate_nodes name ns (validate_logs name n.url n.logs r)

  abbrev is_silent : AlertConfig → Bool
  is_silent a =
      not a.consecutive_enabled
      && (not a.percentage_enabled
          && (not a.alert_if_inactive
              && (not a.alert_if_no_servers && (not a.stalled_enabled && not a.lag_enabled))))

  -- The checks of one chain.
  unfoldable pub validate_chain : String → ChainConfig → Report → Report
  validate_chain name v r =
      r
      and_then error_if (v.chain_id == "") (sprintf "error: %s has no chain_id" (name ∷ []))
      and_then error_if (not (is_role v.role)) (
          sprintf "error: %s has invalid role %s (standalone|sidecar|chain)"
            (name ∷ quoted v.role ∷ []))
      and_then warn_if (eqb (length (validator_targets v)) 0) (
          sprintf "warn: %s has no validators configured (valoper_address or validators:)"
            (name ∷ []))
      and_then validate_targets name (validator_targets v)
      and_then warn_if (eqb (length v.nodes) 0 && not v.public_fallback) (
          sprintf "warn: %s has no nodes and public_fallback is off; it cannot be monitored"
            (name ∷ []))
      and_then validate_nodes name v.nodes
      and_then warn_if (is_silent v.alerts)
          (sprintf "warn: %s has no alert types configured" (name ∷ []))

  unfoldable pub validate_chains : List (String × ChainConfig) → Report → Report
  validate_chains [] r = r
  validate_chains ((name, v) ∷ cs) r = validate_chains cs (validate_chain name v r)

-- `sort.Strings` on the names of the chains, each with its chain.
abbrev pub before : String → String → Bool
before a b = elim (compare a b) [ Ordering.lt ↦ true | _ ↦ false ]

unfoldable pub add_sorted :
    String × ChainConfig → List (String × ChainConfig) → List (String × ChainConfig)
add_sorted c [] = c ∷ []
add_sorted c (d ∷ ds) =
    let rest = add_sorted c ds in if before c.0 d.0 then c ∷ d ∷ ds else d ∷ rest

unfoldable pub sorted : List (String × ChainConfig) → List (String × ChainConfig)
sorted [] = []
sorted (c ∷ cs) = add_sorted c (sorted cs)

-- `Validate`.
unfoldable pub validate : (String → Option String) → Config → Report
validate compile c =
    (false, [])
    and_then validate_globals c
    and_then validate_chains compile (sorted c.chains)
    and_then error_if (eqb (length c.chains) 0) "error: no chains configured"
