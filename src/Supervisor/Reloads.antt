-- ===== src/Supervisor/Reloads.antt =====
-- Which chains run after a reload.
use cometduty.Prelude.{Bool, [], ◌∷◌, String, ◌≡◌, refl, arith, Option, none, some}
use cometduty.Prelude.{string_eq, if◌then◌else◌, ◌∙◌, ap}
use cometduty.Prelude.Maps.{IsMap, GoMap, lookup, insert, member, lookup-insert, is_some}
use cometduty.Config.{Config, ChainConfig}
use cometduty.Monitor.State.{Chain, new_chain, rebuild, update}
use cometduty.Supervisor.{Supervisor, stop_removed, start_added, updated, reload}

lookup-stop_removed :
    (new : GoMap String ChainConfig) (name : String) (chains : GoMap String Chain)
    → lookup name (stop_removed new chains) ≡ (if member name new then lookup name chains else none)
unfolding lookup stop_removed
lookup-stop_removed new name [] = ground arith
lookup-stop_removed new name ((k, c) ∷ rest) =
    ground (arith, lookup-stop_removed new name rest, string_eq.beq_iff k name)

-- What runs under a name, from the new configuration and what ran before.
unfoldable pub running : Bool → String → Option ChainConfig → Option Chain → Option Chain
running met name none old = old
running met name (some cc) old = some (updated met name cc old)

lookup-start_added :
    (met : Bool) (new : GoMap String ChainConfig) (chains : GoMap String Chain) (name : String)
    → IsMap new
    → lookup name (start_added met new chains)
      ≡ running met name (lookup name new) (lookup name chains)
unfolding lookup start_added IsMap running
lookup-start_added met [] chains name h = refl
lookup-start_added met ((k, cc) ∷ rest) chains name h =
    let next = updated met k cc (lookup k chains) in
    ground (
      arith,
      string_eq.beq_iff k name,
      lookup-insert k name next chains,
      lookup-start_added met rest (insert k next chains) name h.1,
    )

-- The chain that ran, with the new configuration and the nodes, probes and validators that a new
-- chain has for it, and all else as it was.
abbrev pub with_config : Chain → ChainConfig → Chain
with_config c cc =
    let new = new_chain c.name cc c.met in
    record c {
      cfg = cc;
      nodes = new.nodes;
      evm_probes = new.evm_probes;
      node_meta = new.node_meta;
      targets = new.targets;
      by_addr = [];
    }

update-with_config : (c : Chain) (cc : ChainConfig) → update c cc ≡ with_config c cc
unfolding update rebuild new_chain
update-with_config c cc = refl

-- What runs under a name after a reload: nothing where the new configuration lacks the name, and
-- else the chain that ran, with the new configuration, or a new chain.
abbrev pub reloaded : Bool → String → Option ChainConfig → Option Chain → Option Chain
reloaded met name none old = none
reloaded met name (some cc) none = some (new_chain name cc met)
reloaded met name (some cc) (some c) = some (with_config c cc)

reloaded_cases :
    (met : Bool) (name : String) (o : Option ChainConfig) (old kept : Option Chain)
    → kept ≡ (if is_some o then old else none)
    → running met name o kept ≡ reloaded met name o old
unfolding running updated
reloaded_cases met name none old kept h = h
reloaded_cases met name (some cc) none kept h = ap (λ c. some (updated met name cc c)) h
reloaded_cases met name (some cc) (some c) kept h =
    ap (λ c. some (updated met name cc c)) h ∙ ap some (update-with_config c cc)

-- After a reload with a configuration that names each chain once, under every name runs: nothing
-- where the new configuration has no such chain; else the chain that ran, with the new configuration,
-- with nodes, probes and validators as a new chain has them, and with its client, its last block, its
-- alarms and its listing of the set as they were; or, where none ran, a new chain.
pub lookup-reload :
    (s : Supervisor) (new : Config) (name : String)
    → IsMap new.chains
    → lookup name (reload s new).chains
      ≡ reloaded s.met name (lookup name new.chains) (lookup name s.chains)
unfolding reload
lookup-reload s new name h =
    lookup-start_added s.met new.chains (stop_removed new.chains s.chains) name h
    ∙ reloaded_cases s.met name (lookup name new.chains) (lookup name s.chains) _
        (lookup-stop_removed new.chains name s.chains)
