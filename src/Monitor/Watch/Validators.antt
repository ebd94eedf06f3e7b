-- ===== src/Monitor/Watch/Validators.antt =====
-- internal/monitor/health.go: the validator section of a tick. The percentage of the window is
-- compared as the exact ratio, which the source's floats decide alike for counts below 2 ^ 40.
pub mod Edges
use cometduty.Prelude.{ℕ, Bool, true, false, List, [], ◌∷◌, ◌++◌, String, Option, none, some}
use cometduty.Prelude.{◌==◌, string_eq, if◌then◌else◌, not, ◌&&◌, ◌||◌}
use cometduty.Prelude.Int.{ℤ, ltb_ℤ, leb_ℤ, pos, ◌*ℤ◌}
use cometduty.Prelude.Text.{sprintf, show_ℤ, show}
use cometduty.Config.{AlertConfig, is_chain_only}
use cometduty.Alert.{Alert}
use cometduty.Monitor.State.{Chain, Target, ValInfo}
use cometduty.Monitor.Alerting.{make_alert}
use cometduty.Monitor.Watch.{Tick, switch}
use Prim.Native.String.{◌++◌ as ◌<>◌}

-- The validator's own policy, where it has one, in place of the chain's.
abbrev pub policy : Chain → Target → AlertConfig
policy c tg = elim tg.vc.alerts [ none ↦ c.cfg.alerts | some a ↦ a ]

abbrev about : Chain → Tick → Target → String → Bool → String → String → Alert
about c t tg key resolved severity msg = make_alert c t.now (some tg) key resolved severity msg

abbrev pub inactive_key : ValInfo → String
inactive_key i = "inactive:" <> i.valcons

abbrev pub consecutive_key : ValInfo → String
consecutive_key i = "consecutive:" <> i.valcons

abbrev pub window_key : ValInfo → String
window_key i = "window-pct:" <> i.valcons

abbrev pub why_inactive : ValInfo → String
why_inactive i = if i.tombstoned then "tombstoned (permanent)" else "jailed"

-- Jailed, tombstoned or unbonded: raised once, cleared once.
unfoldable pub watch_inactive : Tick → Chain → AlertConfig → ValInfo → Target → Target × List Alert
watch_inactive t c va i tg =
    let lost = record tg { inactive = why_inactive i } in
    let back = record tg { inactive = "" } in
    if va.alert_if_inactive
    then switch (not i.bonded && tg.inactive == "")
        (i.bonded && (not (tg.inactive == "") || t.has_open (inactive_key i)))
        (
          lost,
          about c t lost (inactive_key i) false "critical" (
                sprintf "%s is no longer in the active set on %s: %s"
                  (i.moniker ∷ c.cfg.chain_id ∷ why_inactive i ∷ []))
              ∷ [],
        )
        (
          back,
          about c t back (inactive_key i) true "info" (
                sprintf "%s is back in the active set on %s (was %s)" (
                  i.moniker
                  ∷ c.cfg.chain_id
                  ∷ (if tg.inactive == "" then "inactive" else tg.inactive)
                  ∷ []))
              ∷ [],
        )
        tg
    else (tg, [])

-- Missed blocks in a row.
unfoldable pub watch_consecutive :
    Tick → Chain → AlertConfig → ValInfo → Target → Target × List Alert
watch_consecutive t c va i tg =
    let paged = record tg { missed_alarm = true } in
    let over = record tg { missed_alarm = false } in
    if va.consecutive_enabled
    then switch
        (not tg.missed_alarm
          && (leb_ℤ va.consecutive_missed (pos tg.consec) && ltb_ℤ (pos 0) va.consecutive_missed))
        (ltb_ℤ (pos tg.consec) va.consecutive_missed
          && (tg.missed_alarm || t.has_open (consecutive_key i)))
        (
          paged,
          about c t paged (consecutive_key i) false va.consecutive_priority (
                sprintf "%s has missed %d consecutive blocks on %s"
                  (i.moniker ∷ show tg.consec ∷ c.cfg.chain_id ∷ []))
              ∷ [],
        )
        (
          over,
          about c t over (consecutive_key i) true "info" (
                sprintf "%s consecutive-miss alarm cleared on %s" (i.moniker ∷ c.cfg.chain_id ∷ []))
              ∷ [],
        )
        tg
    else (tg, [])

-- `100 * missed / window > pct`, for a window above 0.
unfoldable pub over_window : ℤ → ValInfo → Bool
over_window pct i = ltb_ℤ (pct *ℤ i.window) (pos 100 *ℤ i.missed)

-- The share of the slashing window.
unfoldable pub watch_window : Tick → Chain → AlertConfig → ValInfo → Target → Target × List Alert
watch_window t c va i tg =
    let over = over_window va.window_pct i in
    let pct = t.percent_text i.missed i.window in
    let paged = record tg { pct_alarm = true } in
    let cleared = record tg { pct_alarm = false } in
    if va.percentage_enabled && ltb_ℤ (pos 0) i.window
    then switch (not tg.pct_alarm && over) (not over && (tg.pct_alarm || t.has_open (window_key i)))
        (
          paged,
          about c t paged (window_key i) false va.percentage_priority (
                sprintf "%s missed %s%% of the slashing window on %s"
                  (i.moniker ∷ pct ∷ c.cfg.chain_id ∷ []))
              ∷ [],
        )
        (
          cleared,
          about c t cleared (window_key i) true "info" (
                sprintf "%s window-miss alarm cleared on %s (%s%%)"
                  (i.moniker ∷ c.cfg.chain_id ∷ pct ∷ []))
              ∷ [],
        )
        tg
    else (tg, [])

watch_known : Tick → Chain → Option ValInfo → Target → Target × List Alert
watch_known t c none tg = (tg, [])
watch_known t c (some i) tg =
    let va = policy c tg in
    let (tg1, out1) = watch_inactive t c va i tg in
    let (tg2, out2) = watch_consecutive t c va i tg1 in
    let (tg3, out3) = watch_window t c va i tg2 in (tg3, out1 ++ (out2 ++ out3))

unfoldable pub watch_target : Tick → Chain → Target → Target × List Alert
unfolding watch_known
watch_target t c tg = watch_known t c tg.info tg

unfoldable pub watch_targets : Tick → Chain → List Target → List Target × List Alert
watch_targets t c [] = ([], [])
watch_targets t c (tg ∷ tgs) =
    let (tg', out) = watch_target t c tg in
    let (tgs', more) = watch_targets t c tgs in (tg' ∷ tgs', out ++ more)

-- The validator section, which the chain role leaves to the sidecars.
unfoldable pub watch_all_targets : Tick → Chain → Chain × List Alert
watch_all_targets t c =
    let (tgs, out) = watch_targets t c c.targets in
    if is_chain_only c.cfg then (c, []) else (record c { targets = tgs }, out)
