-- ===== src/Monitor/Watch/Validators/Edges.antt =====
-- A validator's alarms are edge detectors: each latch follows its condition, and an alert goes out
-- when the latch turns.
use cometduty.Prelude.{Bool, true, false, List, [], ◌∷◌, ◌++◌, String, ◌≡◌, refl, ◌∙◌, arith}
use cometduty.Prelude.{some, ◌==◌, string_eq, if◌then◌else◌, not, ◌||◌, ◌&&◌, ap, sym}
use cometduty.Prelude.Int.{pos, ltb_ℤ, leb_ℤ, ◌<ℤ◌}
use cometduty.Config.{AlertConfig}
use mathlib.Core.Path.{subst, ap₂}
use cometduty.Alert.{Alert}
use cometduty.Monitor.State.{Chain, Target, ValInfo}
use cometduty.Monitor.Alerting.Keys.{brief, brief-append, brief_alert}
use cometduty.Monitor.Watch.{Tick, switch_cases}
use cometduty.Monitor.Watch.Validators.{
  watch_inactive, watch_consecutive, watch_window, why_inactive,
}
use cometduty.Monitor.Watch.Validators.{
  watch_target, watch_known, over_window, inactive_key, consecutive_key,
}
use cometduty.Monitor.Watch.Validators.{window_key, policy}

-- A raise when the condition turns true; a resolve when it is false and either it was latched or
-- the engine still holds an open alert.
unfoldable pub edge : String → Bool → Bool → Bool → List (String × Bool)
edge key was is open? =
    if is
    then (if was then [] else (key, false) ∷ [])
    else if was || open?
    then (key, true) ∷ []
    else []

reason :
    (b : Bool) → ◌==◌ {K = String} (if b then "tombstoned (permanent)" else "jailed") "" ≡ false
reason true = refl
reason false = refl

module _ (t : Tick) (c : Chain) (va : AlertConfig) (i : ValInfo) (tg : Target) where
  abbrev InactiveEdge : Target × List Alert → Type 0
  InactiveEdge r =
      (brief r.1
        ≡ edge (inactive_key i) (not (tg.inactive == "")) (not i.bonded)
            (t.has_open (inactive_key i)))
      × ((r.0.inactive == "") ≡ i.bonded)
      × (r.0.missed_alarm ≡ tg.missed_alarm)
      × (r.0.pct_alarm ≡ tg.pct_alarm)
      × (r.0.consec ≡ tg.consec)

  given : (why_inactive i == "") ≡ false
  given = reason i.tombstoned

  inactive_edge : va.alert_if_inactive ≡ true → InactiveEdge (watch_inactive t c va i tg)
  unfolding watch_inactive brief edge
  inactive_edge h = rw h (
      switch_cases InactiveEdge _ _ _ _ _
        (λ e.
          (brief_alert c t.now _ _ _ _ _ ∙ ground arith, given ∙ ground arith, refl, refl, refl))
        (λ d e. (brief_alert c t.now _ _ _ _ _ ∙ ground arith, ground arith, refl, refl, refl))
        (λ d e. (ground arith, ground arith, refl, refl, refl)))

  -- Enough blocks missed in a row.
  abbrev pub is_streak : Bool
  is_streak = leb_ℤ va.consecutive_missed (pos tg.consec)

  abbrev ConsecutiveEdge : Target × List Alert → Type 0
  ConsecutiveEdge r =
      (brief r.1
        ≡ edge (consecutive_key i) tg.missed_alarm is_streak (t.has_open (consecutive_key i)))
      × (r.0.missed_alarm ≡ is_streak)
      × (r.0.inactive ≡ tg.inactive)
      × (r.0.pct_alarm ≡ tg.pct_alarm)

  consecutive_edge :
      va.consecutive_enabled ≡ true
      → pos 0 <ℤ va.consecutive_missed
      → ConsecutiveEdge (watch_consecutive t c va i tg)
  unfolding watch_consecutive brief edge
  consecutive_edge h k = rw h (
      switch_cases ConsecutiveEdge _ _ _ _ _
        (λ e. (brief_alert c t.now _ _ _ _ _ ∙ ground arith, ground arith, refl, refl))
        (λ d e. (brief_alert c t.now _ _ _ _ _ ∙ ground arith, ground arith, refl, refl))
        (λ d e. (ground arith, ground arith, refl, refl)))

  abbrev WindowEdge : Target × List Alert → Type 0
  WindowEdge r =
      (brief r.1
        ≡ edge (window_key i) tg.pct_alarm (over_window va.window_pct i)
            (t.has_open (window_key i)))
      × (r.0.pct_alarm ≡ over_window va.window_pct i)
      × (r.0.inactive ≡ tg.inactive)
      × (r.0.missed_alarm ≡ tg.missed_alarm)

  window_edge :
      va.percentage_enabled ≡ true → pos 0 <ℤ i.window → WindowEdge (watch_window t c va i tg)
  unfolding watch_window brief edge
  window_edge h k =
      let on : va.percentage_enabled && ltb_ℤ (pos 0) i.window ≡ true = ground arith in
      rw on (
        switch_cases WindowEdge _ _ _ _ _
          (λ e. (brief_alert c t.now _ _ _ _ _ ∙ ground arith, ground arith, refl, refl))
          (λ d e. (brief_alert c t.now _ _ _ _ _ ∙ ground arith, ground arith, refl, refl))
          (λ d e. (ground arith, ground arith, refl, refl)))

-- The alarms that a policy asks for, and what they need to mean anything.
pub record IsArmed (va : AlertConfig) (i : ValInfo) : Type 0 where
  pub inactive_on : va.alert_if_inactive ≡ true
  pub consecutive_on : va.consecutive_enabled ≡ true
  pub consecutive_set : pos 0 <ℤ va.consecutive_missed
  pub window_on : va.percentage_enabled ≡ true
  pub window_set : pos 0 <ℤ i.window

abbrev pub Edges : Tick → AlertConfig → ValInfo → Target → Target × List Alert → Type 0
Edges t va i tg r =
    let streak = leb_ℤ va.consecutive_missed (pos tg.consec) in
    let over = over_window va.window_pct i in
    (brief r.1
      ≡ edge (inactive_key i) (not (tg.inactive == "")) (not i.bonded) (t.has_open (inactive_key i))
        ++ (edge (consecutive_key i) tg.missed_alarm streak (t.has_open (consecutive_key i))
            ++ edge (window_key i) tg.pct_alarm over (t.has_open (window_key i))))
    × ((r.0.inactive == "") ≡ i.bonded)
    × (r.0.missed_alarm ≡ streak)
    × (r.0.pct_alarm ≡ over)

known_edge :
    (t : Tick) (c : Chain) (i : ValInfo) (tg : Target)
    → IsArmed (policy c tg) i
    → Edges t (policy c tg) i tg (watch_known t c (some i) tg)
unfolding watch_known
known_edge t c i tg armed =
    let va = policy c tg in
    let r1 = watch_inactive t c va i tg in
    let r2 = watch_consecutive t c va i r1.0 in
    let r3 = watch_window t c va i r2.0 in
    let (b1, latch1, miss1, pct1, consec1) = inactive_edge t c va i tg armed.inactive_on in
    let (b2, latch2, inactive2, pct2) =
      consecutive_edge t c va i r1.0 armed.consecutive_on armed.consecutive_set in
    let (b3, latch3, inactive3, miss3) =
      window_edge t c va i r2.0 armed.window_on armed.window_set in
    let streak : (leb_ℤ va.consecutive_missed (pos r1.0.consec)
        ≡ leb_ℤ va.consecutive_missed (pos tg.consec)) =
      ap (λ k. leb_ℤ va.consecutive_missed (pos k)) consec1 in
    (
      brief-append r1.1 (r2.1 ++ r3.1)
          ∙ ap₂ ◌++◌ b1 (
              brief-append r2.1 r3.1
              ∙ ap₂ ◌++◌
                  (b2
                    ∙ ap₂ (λ m s. edge (consecutive_key i) m s (t.has_open (consecutive_key i)))
                        miss1 streak)
                  (b3
                    ∙ ap
                        (λ p.
                          edge (window_key i) p (over_window va.window_pct i)
                            (t.has_open (window_key i)))
                        (pct2 ∙ pct1))),
      ap (λ s. s == "") (inactive3 ∙ inactive2) ∙ latch1,
      miss3 ∙ (latch2 ∙ streak),
      latch3,
    )

-- For a known validator, with the three validator alarms on and their threshold and window above 0, a
-- tick raises one when its condition turns true, resolves it
-- when the condition is false and it was latched or is open in the engine, and sends nothing
-- otherwise; and after the tick each latch says what its condition says. The conditions are that
-- the validator is not bonded, that its misses in a row reach the threshold, and that its share of
-- the slashing window is above the limit.
pub watch_target-edge :
    (t : Tick) (c : Chain) (tg : Target) (i : ValInfo)
    → tg.info ≡ some i
    → IsArmed (policy c tg) i
    → Edges t (policy c tg) i tg (watch_target t c tg)
unfolding watch_target
watch_target-edge t c tg i known armed =
    subst (λ o. Edges t (policy c tg) i tg (watch_known t c o tg)) (sym known)
      (known_edge t c i tg armed)
