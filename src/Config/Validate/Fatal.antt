-- ===== src/Config/Validate/Fatal.antt =====
-- When `Validate` of internal/config/config.go calls a configuration fatal.
use cometduty.Prelude.{
  Bool, true, false, List, [], ◌∷◌, String, Option, none, some, ◌≡◌, refl, sym, ap, ◌∙◌,
}
use cometduty.Prelude.{◌==◌, string_eq, if◌then◌else◌, not, ◌&&◌, ◌||◌, eqb, length, any, if_cases}
use cometduty.Prelude.Int.{pos, ltb_ℤ}
use cometduty.Prelude.Maps.{is_some}
use cometduty.Prelude.Text.{sprintf}
use cometduty.Config.{
  Config, ChainConfig, ValidatorConfig, NodeConfig, LogConfig, LogRule, validator_targets,
}
use cometduty.Config.Validate.{
  Report, error_if, warn_if, validate, validate_globals, validate_chains, validate_chain,
  validate_targets, validate_nodes, validate_logs, validate_source, validate_rules, pattern_problem,
  is_role, sorted, add_sorted, before, looks_like_oauth,
}
use Prim.Native.String.{len}

error_if-fatal : (b : Bool) (msg : String) (r : Report) → (error_if b msg r).0 ≡ (r.0 || b)
unfolding error_if
error_if-fatal true msg (true, ps) = refl
error_if-fatal true msg (false, ps) = refl
error_if-fatal false msg (true, ps) = refl
error_if-fatal false msg (false, ps) = refl

warn_if-fatal : (b : Bool) (msg : String) (r : Report) → (warn_if b msg r).0 ≡ r.0
unfolding warn_if
warn_if-fatal true msg r = refl
warn_if-fatal false msg r = refl

or_assoc : (a b c : Bool) → ((a || b) || c) ≡ (a || (b || c))
or_assoc true b c = refl
or_assoc false b c = refl

or_false : (a : Bool) → (a || false) ≡ a
or_false true = refl
or_false false = refl

or_swap : (a b c : Bool) → (a || (b || c)) ≡ (b || (a || c))
or_swap true true c = refl
or_swap true false c = refl
or_swap false b c = refl

ruleset reports = (error_if-fatal, warn_if-fatal, or_assoc, or_false)

-- An entry that names no validator.
abbrev pub is_nameless : ValidatorConfig → Bool
is_nameless t = t.valoper_address == "" && t.valcons_override == ""

targets-fatal :
    (name : String) (ts : List ValidatorConfig) (r : Report)
    → (validate_targets name ts r).0 ≡ (r.0 || any is_nameless ts)
unfolding validate_targets
targets-fatal name [] r = sym (or_false r.0)
targets-fatal name (t ∷ ts) r =
    targets-fatal name ts _
    ∙ (ap (λ b. b || any is_nameless ts) (error_if-fatal _ _ r) ∙ or_assoc r.0 _ _)

-- What is wrong before the chains are looked at.
abbrev pub has_bad_globals : Config → Bool
has_bad_globals c =
    c.prometheus_enabled
      && (ltb_ℤ c.prometheus_listen_port (pos 1) || ltb_ℤ (pos 65535) c.prometheus_listen_port)
    || (c.pagerduty.enabled && looks_like_oauth c.pagerduty.api_key
        || (not (c.api_token == "") && not c.prometheus_enabled
            || (not (c.api_token == "") && ltb_ℤ (pos (len c.api_token)) (pos 16)
                || (c.webhook.enabled && c.webhook.url == ""
                    || (c.ntfy.enabled && (c.ntfy.url == "" || c.ntfy.topic == "")
                        || c.opsgenie.enabled && c.opsgenie.api_key == "")))))

globals-fatal : (c : Config) (r : Report) → (validate_globals c r).0 ≡ (r.0 || has_bad_globals c)
unfolding validate_globals
globals-fatal c r = simp (reports)

if-fatal : (t : Bool) (x y : Report) → (if t then x else y).0 ≡ (if t then x.0 else y.0)
if-fatal true x y = refl
if-fatal false x y = refl

if_or : (t a b c : Bool) → (if t then a || b else (a || c)) ≡ (a || (if t then b else c))
if_or true a b c = refl
if_or false a b c = refl

if_eq : (t : Bool) {a b c d : Bool} → a ≡ b → c ≡ d → (if t then a else c) ≡ (if t then b else d)
if_eq t h k = rw (h, k)

-- A log that names no source, or one of a kind that does not exist.
abbrev pub has_bad_source : LogConfig → Bool
has_bad_source l =
    if l.source == "" || l.source == "docker"
    then l.container == ""
    else if l.source == "file"
    then l.file == ""
    else true

source-fatal :
    (compile : String → Option String) (name url : String) (l : LogConfig) (r : Report)
    → (validate_source compile name url l r).0 ≡ (r.0 || has_bad_source l)
unfolding validate_source
source-fatal compile name url l r = simp (if-fatal, if_or, reports)

module _ (compile : String → Option String) where
  -- A rule with a name, a pattern, and a pattern that is refused.
  abbrev pub is_bad_rule : LogRule → Bool
  is_bad_rule rule =
      if rule.name == "" || rule.pattern == "" then false else is_some (compile rule.pattern)

  pattern-fatal :
      (name url : String) (rule : LogRule) (e : Option String) (r : Report)
      → (pattern_problem compile name url rule e r).0 ≡ (r.0 || is_some e)
  unfolding pattern_problem
  pattern-fatal name url rule none r = sym (or_false r.0)
  pattern-fatal name url rule (some e) r = error_if-fatal true _ r

  rule-fatal :
      (name url : String) (rule : LogRule) (r : Report)
      → (if rule.name == "" || rule.pattern == ""
          then warn_if true
              (sprintf "warn: %s node %s: log rule needs name + pattern" (name ∷ url ∷ []))
              r
          else pattern_problem compile name url rule (compile rule.pattern) r).0
        ≡ (r.0 || is_bad_rule rule)
  rule-fatal name url rule r =
      if-fatal (rule.name == "" || rule.pattern == "") _ _
      ∙ (if_eq (rule.name == "" || rule.pattern == "") (warn_if-fatal true _ r ∙ sym (or_false r.0))
            (pattern-fatal name url rule (compile rule.pattern) r)
          ∙ if_or (rule.name == "" || rule.pattern == "") r.0 false _)

  rules-fatal :
      (name url : String) (rules : List LogRule) (r : Report)
      → (validate_rules compile name url rules r).0 ≡ (r.0 || any is_bad_rule rules)
  unfolding validate_rules
  rules-fatal name url [] r = sym (or_false r.0)
  rules-fatal name url (rule ∷ rules) r =
      rules-fatal name url rules _
      ∙ (ap (λ b. b || any is_bad_rule rules) (rule-fatal name url rule r) ∙ or_assoc r.0 _ _)

  abbrev pub has_bad_logs : Option LogConfig → Bool
  has_bad_logs none = false
  has_bad_logs (some l) = if l.enabled then has_bad_source l || any is_bad_rule l.rules else false

  logs-fatal :
      (name url : String) (l : Option LogConfig) (r : Report)
      → (validate_logs compile name url l r).0 ≡ (r.0 || has_bad_logs l)
  unfolding validate_logs
  logs-fatal name url none r = sym (or_false r.0)
  logs-fatal name url (some l) r =
      if-fatal l.enabled _ _
      ∙ (if_eq l.enabled
            (rules-fatal name url l.rules _
              ∙ (ap (λ b. b || any is_bad_rule l.rules) (source-fatal compile name url l r)
                  ∙ or_assoc r.0 _ _))
            (sym (or_false r.0))
          ∙ if_or l.enabled r.0 _ false)

  nodes-fatal :
      (name : String) (ns : List NodeConfig) (r : Report)
      → (validate_nodes compile name ns r).0 ≡ (r.0 || any (λ n. has_bad_logs n.logs) ns)
  unfolding validate_nodes
  nodes-fatal name [] r = sym (or_false r.0)
  nodes-fatal name (n ∷ ns) r =
      nodes-fatal name ns _
      ∙ (ap (λ b. b || any (λ n. has_bad_logs n.logs) ns) (logs-fatal name n.url n.logs r)
          ∙ or_assoc r.0 _ _)

  -- A chain without an id, with an unknown role, a nameless validator or a bad log.
  abbrev pub is_bad_chain : ChainConfig → Bool
  is_bad_chain v =
      v.chain_id == ""
      || (not (is_role v.role)
          || (any is_nameless (validator_targets v) || any (λ n. has_bad_logs n.logs) v.nodes))

  chain-fatal :
      (name : String) (v : ChainConfig) (r : Report)
      → (validate_chain compile name v r).0 ≡ (r.0 || is_bad_chain v)
  unfolding validate_chain
  chain-fatal name v r = simp (reports, targets-fatal, nodes-fatal)

  chains-fatal :
      (cs : List (String × ChainConfig)) (r : Report)
      → (validate_chains compile cs r).0 ≡ (r.0 || any (λ c. is_bad_chain c.1) cs)
  unfolding validate_chains
  chains-fatal [] r = sym (or_false r.0)
  chains-fatal ((name, v) ∷ cs) r =
      chains-fatal cs _
      ∙ (ap (λ b. b || any (λ c. is_bad_chain c.1) cs) (chain-fatal name v r) ∙ or_assoc r.0 _ _)

module _ (p : String × ChainConfig → Bool) where
  any-add_sorted :
      (c : String × ChainConfig) (cs : List (String × ChainConfig))
      → any p (add_sorted c cs) ≡ (p c || any p cs)
  unfolding add_sorted
  any-add_sorted c [] = refl
  any-add_sorted c (d ∷ ds) =
      if_cases (λ zs. any p zs ≡ (p c || (p d || any p ds))) (before c.0 d.0) {x = c ∷ d ∷ ds}
        {y = d ∷ add_sorted c ds} (λ h. refl)
        (λ h. ap (λ b. p d || b) (any-add_sorted c ds) ∙ or_swap (p d) (p c) _)

  any-sorted : (cs : List (String × ChainConfig)) → any p (sorted cs) ≡ any p cs
  unfolding sorted
  any-sorted [] = refl
  any-sorted (c ∷ cs) = any-add_sorted c (sorted cs) ∙ ap (λ b. p c || b) (any-sorted cs)

-- A configuration is called fatal exactly when there is something wrong before the chains are looked
-- at, or some chain is bad (no id, an unknown role, a validator with no address, an enabled log whose
-- source is unknown or not given, or which has a named rule whose pattern is refused), or there are no
-- chains; warnings, and the order in which the chains stand, make no difference.
pub validate-fatal :
    (compile : String → Option String) (c : Config)
    → (validate compile c).0 ≡ (
        has_bad_globals c
        || (any (λ ch. is_bad_chain compile ch.1) c.chains || eqb (length c.chains) 0))
unfolding validate
validate-fatal compile c = simp (reports, chains-fatal, globals-fatal, any-sorted)
