-- ===== src/Monitor/SetWatch.antt =====
-- internal/monitor/chain.go: `setWatch`, which compares the staking set with its last listing. The
-- answer of `listValidators` is data.
pub mod Changes
use cometduty.Prelude.{ℕ, Bool, true, false, List, [], ◌∷◌, ◌++◌, String, Option, none, some}
use cometduty.Prelude.{◌==◌, string_eq, if◌then◌else◌, not, ◌&&◌}
use cometduty.Prelude.Maps.{GoMap, lookup, insert, member}
use cometduty.Prelude.Text.{sprintf}
use cometduty.Alert.{Alert}
use cometduty.Monitor.State.{Chain, SetEntry}
use cometduty.Monitor.Alerting.{make_alert}
use Prim.Native.String.{◌++◌ as ◌<>◌}

abbrev pub new_key : String → String
new_key valoper = "validator-new:" <> valoper

abbrev pub jailed_key : String → String
jailed_key valoper = "validator-jailed:" <> valoper

abbrev pub gone_key : String → String
gone_key valoper = "validator-gone:" <> valoper

-- The map of a listing: a later entry of an operator replaces an earlier one.
unfoldable pub by_valoper : List SetEntry → GoMap String SetEntry → GoMap String SetEntry
by_valoper [] m = m
by_valoper (e ∷ es) m = by_valoper es (insert e.valoper e m)

name_of : String → SetEntry → String
name_of valoper e = if e.moniker == "" then valoper else e.moniker

module _ (c : Chain) (now : ℕ) where
  abbrev about : String → String → Bool → String → String → SetEntry → Alert
  about format key resolved severity valoper e =
      make_alert c now none key resolved severity
        (sprintf format (name_of valoper e ∷ c.cfg.chain_id ∷ valoper ∷ []))

  -- The switch on what the last listing had of an entry.
  unfoldable pub entry_change : SetEntry → Option SetEntry → List Alert
  unfolding name_of
  entry_change e none =
      about "new validator %s joined the set on %s (%s)" (new_key e.valoper) false "info" e.valoper
        e
      ∷ []
  entry_change e (some old) =
      if not old.jailed && e.jailed
      then about "validator %s was jailed on %s (%s)" (jailed_key e.valoper) false "critical"
          e.valoper e
        ∷ []
      else if old.jailed && not e.jailed
      then about "validator %s was unjailed on %s (%s)" (jailed_key e.valoper) true "info" e.valoper
          e
        ∷ []
      else []

  unfoldable pub entry_changes : GoMap String SetEntry → List SetEntry → List Alert
  entry_changes prev [] = []
  entry_changes prev (e ∷ es) = entry_change e (lookup e.valoper prev) ++ entry_changes prev es

  -- The loop over the last listing for who is not in this one.
  unfoldable pub gone_changes : GoMap String SetEntry → GoMap String SetEntry → List Alert
  unfolding name_of
  gone_changes listed [] = []
  gone_changes listed ((valoper, e) ∷ prev) =
      let rest = gone_changes listed prev in
      if member valoper listed
      then rest
      else about "validator %s left the set on %s (%s)" (gone_key valoper) false "warning" valoper e
        ∷ rest

-- `setWatch`, with the entries that were listed or none where the query failed. The first listing is
-- the baseline.
unfoldable pub set_watch : ℕ → Option (List SetEntry) → Chain → Chain × List Alert
set_watch now none c = (c, [])
set_watch now (some entries) c =
    let listed = by_valoper entries [] in
    let c' = record c { set_snapshot = listed; set_primed = true } in
    if c.set_primed
    then (
      c',
      entry_changes c' now c.set_snapshot entries ++ gone_changes c' now listed c.set_snapshot,
    )
    else (c', [])
