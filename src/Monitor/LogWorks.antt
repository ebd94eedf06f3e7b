-- ===== src/Monitor/LogWorks.antt =====
-- internal/monitor/logs.go: which logs `logsLoop` watches, and the constructors of their sources in
-- internal/logs.
pub mod Accepted
use cometduty.Prelude.{
  Bool, true, false, List, [], ◌∷◌, ◌++◌, String, Option, none, some, not, ◌&&◌, ◌||◌,
}
use cometduty.Prelude.{◌==◌, string_eq, if◌then◌else◌}
use cometduty.Prelude.Int.{ℤ, pos}
use cometduty.Prelude.Fields.{trim_prefix}
use cometduty.Prelude.Text.{has_prefix}
use cometduty.Config.{HostConfig, LogConfig, LogRule, is_chain_only}
use cometduty.Alert.Silence.{Regexp}
use cometduty.Logs.{Rule, compile_rules}
use cometduty.Logs.Packs.{default_rules, kernel_rules}
use cometduty.Monitor.State.{Chain, NodeState}
use Prim.Native.String.{◌++◌ as ◌<>◌}

-- A reader of the Docker API, at a host or over a socket, or of a file.
pub data Source : Type 0 where
  docker_at : String → String → ℤ → Source
  docker_over : String → String → ℤ → Source
  file_at : String → Source

-- `NewDockerSource`.
unfoldable pub new_docker_source : String → String → ℤ → Option Source
new_docker_source host container tail =
    let sock = trim_prefix host "unix://" in
    if container == ""
    then none
    else if has_prefix host "tcp://"
    then some (docker_at ("http://" <> trim_prefix host "tcp://") container tail)
    else if has_prefix host "http://" || has_prefix host "https://"
    then some (docker_at host container tail)
    else some (
        docker_over (if sock == "" || sock == host then "/var/run/docker.sock" else sock) container
          tail)

-- `NewFileSource`.
unfoldable pub new_file_source : String → Option Source
new_file_source path = if path == "" then none else some (file_at path)

-- `NewSource`.
unfoldable pub new_source : LogConfig → Option Source
new_source l =
    if l.source == "" || l.source == "docker"
    then new_docker_source l.docker_host l.container l.tail
    else if l.source == "file"
    then new_file_source l.file
    else none

pub record Work : Type 0 where
  pub node : NodeState
  pub source : Source
  pub rules : List Rule
  pub kernel : Bool

abbrev or_empty : Option (List Rule) → List Rule
or_empty none = []
or_empty (some rs) = rs

work_with : NodeState → List Rule → Bool → Option Source → List Work
work_with n rules kernel none = []
work_with n rules kernel (some s) =
    record { node = n; source = s; rules = rules; kernel = kernel } ∷ []

rules_or : List Rule → Option (List Rule) → List Rule
rules_or defaults none = defaults
rules_or defaults (some rs) = rs

-- The patterns are compiled by a parameter.
module _ (regexp : Regexp) where
  -- The part on a node's kernel log.
  unfoldable pub kernel_work : NodeState → Option HostConfig → List Work
  unfolding work_with
  kernel_work n none = []
  kernel_work n (some hc) =
      if hc.kernel_log == ""
      then []
      else work_with n (or_empty (compile_rules regexp kernel_rules)) true
          (new_file_source hc.kernel_log)

  -- The part on a node's own log: with bad rules the defaults are taken alone.
  unfoldable pub log_work : NodeState → Option LogConfig → List Work
  unfolding work_with rules_or
  log_work n none = []
  log_work n (some l) =
      if not l.enabled
      then []
      else work_with n
          (rules_or (or_empty (compile_rules regexp default_rules))
            (compile_rules regexp (default_rules ++ l.rules)))
          false (new_source l)

  unfoldable pub node_works : Bool → List NodeState → List Work
  node_works chain_role [] = []
  node_works chain_role (n ∷ ns) =
      let rest = node_works chain_role ns in
      if chain_role then rest else kernel_work n n.cfg.host ++ (log_work n n.cfg.logs ++ rest)

  -- The watchers that `logsLoop` starts.
  unfoldable pub log_works : Chain → List Work
  log_works c = node_works (is_chain_only c.cfg) c.nodes
