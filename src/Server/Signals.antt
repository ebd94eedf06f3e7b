-- ===== src/Server/Signals.antt =====
-- cmd/cometduty/cmd/run.go: the configuration that `runMonitor` starts with and the loop over the
-- signals. `config.Load` is I/O: what it gives is data.
pub mod Valid
use cometduty.Prelude.{Bool, true, false, List, [], ◌∷◌, ◌++◌, String, Option, none, some}
use cometduty.Prelude.{if◌then◌else◌}
use cometduty.Prelude.Maps.{GoMap}
use cometduty.Prelude.Tried.{Tried, failed, done}
use cometduty.Config.{Config}
use cometduty.Config.Validate.{validate}
use cometduty.Supervisor.{Supervisor, start, reload}

-- A SIGHUP, with what the configuration then loads as, or a signal that ends the program.
pub data Signal : Type 0 where
  hangup : Tried Config → Signal
  ends : Signal

unfoldable pub reload_valid : Bool → Config → Supervisor → Supervisor
reload_valid fatal cfg s = if fatal then s else reload s cfg

unfoldable pub on_hangup : (String → Option String) → Supervisor → Tried Config → Supervisor
on_hangup compile s (failed e) = s
on_hangup compile s (done cfg) = reload_valid (validate compile cfg).0 cfg s

-- The loop over the signals, with the supervisor that it leaves and whether the program ends.
unfoldable pub serve : (String → Option String) → Supervisor → List Signal → Supervisor × Bool
serve compile s [] = (s, false)
serve compile s (ends ∷ sigs) = (s, true)
serve compile s (hangup loaded ∷ sigs) = serve compile (on_hangup compile s loaded) sigs

unfoldable pub started : (String → Option String) → Bool → List Signal → Config → Supervisor × Bool
started compile met sigs cfg =
    serve compile (start (record { cfg = cfg; met = met; chains = [] })) sigs

-- Why the program does not start.
pub data Refusal : Type 0 where
  not_loaded : String → Refusal
  invalid : List String → Refusal

pub data Ending : Type 0 where
  refused : Refusal → Ending
  ran : Supervisor × Bool → Ending

-- `runMonitor`, as far as the configuration goes.
unfoldable pub run_monitor : (String → Option String) → Bool → Tried Config → List Signal → Ending
run_monitor compile met (failed e) sigs = refused (not_loaded e)
run_monitor compile met (done cfg) sigs =
    let report = validate compile cfg in
    if report.0 then refused (invalid report.1) else ran (started compile met sigs cfg)
