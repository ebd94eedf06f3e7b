-- ===== src/Examples/Configs.antt =====
-- Configurations that are validated.
use cometduty.Prelude.{
  [], ◌∷◌, String, Option, none, some, ◌≡◌, refl, true, false, if◌then◌else◌, ◌==◌, string_eq,
}
use cometduty.Prelude.Int.{pos}
use cometduty.Prelude.Text.{sprintf}
use cometduty.Config.{validator_targets, Config, LogConfig}
use cometduty.Config.Load.{
  Outside, ReadFault, FileText, readable, unreadable, DirEntry, entries, merge_entries, chain_in,
  expand_env, is_skipped, with_chain_dir,
}
use cometduty.Config.Load.CutOff.{with_chain_dir-cut_off}
use cometduty.Prelude.{List}
use cometduty.Prelude.Fields.{has_suffix, trim_suffix, cut_suffix}
use cometduty.Prelude.Maps.{insert}
use cometduty.Prelude.Text.{contains, has_prefix}
use cometduty.Prelude.Tried.{failed, done}
use Prim.Native.String.{◌++◌ as ◌<>◌}
use cometduty.Config.Validate.{
  validate, sorted, error_if, warn_if, add_sorted, validate_chains, validate_chain, validate_nodes,
  validate_logs, validate_source, validate_rules, pattern_problem, validate_targets, is_role,
  validate_globals, quoted,
}
use cometduty.Config.Validate.Fatal.{validate-fatal}
use cometduty.Prelude.{any}
use cometduty.Config.Validate.Fatal.{is_bad_rule}
use cometduty.Alert.Silence.{Regexp}
use cometduty.Logs.Packs.{default_rules}
use cometduty.Logs.Compiled.{errors}
use cometduty.Monitor.State.{new_node, NodeState, Chain, new_chain, rebuild}
use mathlib.Core.List.{◌++◌, Mem, mem-cons_self}
use cometduty.Logs.{Rule, compile_rules}
use cometduty.Monitor.LogWorks.{log_works, Source, new_source}
use cometduty.Monitor.LogWorks.Accepted.{log_works-IsWatched}
use cometduty.Examples.Data.{root, chain_config, node}

-- Patterns that start with a bracket are refused.
abbrev pub refuse : String → Option String
refuse s = if s == "[a" then some "missing closing ]" else none

abbrev pub logs_of : String → LogConfig
logs_of p = record {
  enabled = true;
  source = "docker";
  docker_host = "";
  container = "node";
  file = "";
  tail = pos 0;
  rules =
      record {
        name = "halt";
        pattern = p;
        severity = "";
        count = pos 1;
        window_min = pos 0;
        cooldown_min = pos 0;
      }
      ∷ [];
}

abbrev pub watched : String → Config
watched p = record root {
  chains =
      ("osmo", record chain_config { nodes = record node { logs = some (logs_of p) } ∷ [] })
      ∷ ("hub", chain_config)
      ∷ [];
}

validate-fatal_example : (validate refuse (watched "[a")).0 ≡ true
unfolding is_role validator_targets
validate-fatal_example = validate-fatal refuse (watched "[a")

-- No id for one chain, and a role that is not known for the other.
abbrev two_bad : Config
two_bad = record root {
  chains =
      ("osmo", record chain_config { role = "x" })
      ∷ ("hub", record chain_config { chain_id = "" })
      ∷ [];
}

-- The problems come in the order of the names.
problems_of_two : validate refuse two_bad ≡ (
  true,
  "error: hub has no chain_id" ∷ "error: osmo has invalid role \"x\" (standalone|sidecar|chain)"
      ∷ [],
)
unfolding validate error_if validate_chains sorted add_sorted validate_chain warn_if validate_nodes
    validate_logs validate_source validate_rules pattern_problem validate_targets validator_targets
    is_role validate_globals sprintf quoted
problems_of_two = refl

no_problems : validate refuse (watched "a") ≡ (false, [])
unfolding validate error_if validate_chains sorted add_sorted validate_chain warn_if validate_nodes
    validate_logs validate_source validate_rules pattern_problem validate_targets validator_targets
    is_role validate_globals
no_problems = refl

-- Every pattern is taken as the text of a whole line.
abbrev whole_line : Regexp
whole_line p = some (λ line. line == p)

pack-accepted : any (is_bad_rule (errors whole_line)) default_rules ≡ false
unfolding default_rules
pack-accepted = refl

-- A chain with one node, whose log is watched.
abbrev logging : NodeState
logging = record (new_node node) { cfg = record node { logs = some (logs_of "a") } }

abbrev logging_chain : Chain
logging_chain = record (new_chain "hub" chain_config false) { nodes = logging ∷ [] }

log_works-IsWatched_example :
    (src : Source) × (rules : List Rule) × (new_source (logs_of "a") ≡ some src)
    × (compile_rules whole_line (default_rules ++ (logs_of "a").rules) ≡ some rules)
    × Mem
        (record { node = logging; source = src; rules = rules; kernel = false })
        (log_works whole_line logging_chain)
unfolding new_chain rebuild
log_works-IsWatched_example =
    log_works-IsWatched whole_line logging_chain logging (logs_of "a") refl (mem-cons_self {l = []})
      refl refl refl pack-accepted

-- A directory with three chains, of which the second may not be read.
abbrev outside : Outside
outside = record {
  expand = λ env s. s;
  environment = λ key. none;
  parse = λ s. failed "no YAML";
  parse_chain = λ s. done chain_config;
  decrypt_age = λ s password. failed "no key";
}

abbrev file_of : String → FileText → DirEntry
file_of name text = record { name = name; is_dir = false; full = "chains.d/" <> name; text = text }

abbrev denied : ReadFault
denied = record { text = "permission denied"; denied = true }

abbrev three_files : List DirEntry
three_files =
    file_of "a.yml" (readable "a")
    ∷ file_of "b.yml" (unreadable denied)
    ∷ file_of "c.yml" (readable "c")
    ∷ []

with_chain_dir-cut_off_example :
    with_chain_dir outside "config.yml" "" (entries three_files) []
    ≡ done (("a", some chain_config) ∷ [])
unfolding merge_entries chain_in expand_env is_skipped has_suffix trim_suffix cut_suffix insert
    contains has_prefix
with_chain_dir-cut_off_example =
    with_chain_dir-cut_off outside "config.yml" (file_of "a.yml" (readable "a") ∷ [])
      (file_of "c.yml" (readable "c") ∷ []) (file_of "b.yml" (unreadable denied)) denied []
      (("a", some chain_config) ∷ []) refl refl refl refl refl
