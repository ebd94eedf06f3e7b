-- ===== src/Server/Signals/Valid.antt =====
-- The configurations that the program runs with.
use cometduty.Prelude.{Bool, false, List, [], ◌∷◌, String, Option, ◌≡◌, refl, if_cases}
use cometduty.Prelude.Tried.{Tried, failed, done}
use cometduty.Config.{Config}
use cometduty.Config.Validate.{validate}
use cometduty.Supervisor.{Supervisor, start, reload}
use cometduty.Server.Signals.{
  Signal, hangup, ends, on_hangup, reload_valid, serve, started, run_monitor, Ending, refused, ran,
}
use mathlib.Core.Path.{subst}

module _ (compile : String → Option String) where
  -- The supervisor's configuration is not fatal.
  IsSound : Supervisor → Type 0
  IsSound s = (validate compile s.cfg).0 ≡ false

  hangup-IsSound :
      (s : Supervisor) (loaded : Tried Config) → IsSound s → IsSound (on_hangup compile s loaded)
  unfolding on_hangup reload_valid reload IsSound
  hangup-IsSound s (failed e) h = h
  hangup-IsSound s (done cfg) h =
      if_cases {A = Supervisor} (λ t. (validate compile t.cfg).0 ≡ false) (validate compile cfg).0
        (λ e. h) (λ e. e)

  serve-IsSound :
      (s : Supervisor) (sigs : List Signal) → IsSound s → IsSound (serve compile s sigs).0
  unfolding serve
  serve-IsSound s [] h = h
  serve-IsSound s (ends ∷ sigs) h = h
  serve-IsSound s (hangup loaded ∷ sigs) h =
      serve-IsSound (on_hangup compile s loaded) sigs (hangup-IsSound s loaded h)

  -- Nothing is asked of a program that refuses to start.
  abbrev WhereRan : Ending → Type 0
  WhereRan (refused r) = r ≡ r
  WhereRan (ran (s, over)) = (validate compile s.cfg).0 ≡ false

-- A program that starts never runs with a configuration that `Validate` calls fatal, whatever the
-- signals and whatever is loaded on each SIGHUP.
run_monitor-runs_valid :
    (compile : String → Option String) (met : Bool) (loaded : Tried Config) (sigs : List Signal)
    (s : Supervisor) (over : Bool)
    → run_monitor compile met loaded sigs ≡ ran (s, over)
    → (validate compile s.cfg).0 ≡ false
unfolding run_monitor started start IsSound
run_monitor-runs_valid compile met (failed e) sigs s over h = cc
run_monitor-runs_valid compile met (done cfg) sigs s over h = subst (WhereRan compile) h (
    if_cases (WhereRan compile) (validate compile cfg).0 (λ e. refl)
      (λ e. serve-IsSound compile _ sigs e))
