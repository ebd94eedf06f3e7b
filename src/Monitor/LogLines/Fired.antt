-- ===== src/Monitor/LogLines/Fired.antt =====
-- What a line of a log makes the monitor send.
use cometduty.Prelude.{
  ℕ, Bool, true, false, List, [], ◌∷◌, String, none, ◌≡◌, refl, ap, map, not, if◌then◌else◌, suc,
  sym, ◌++◌, ◌&&◌, ◌||◌, length, arith,
}
use cometduty.Prelude.Int.{ℤ, pos, leb_ℤ}
use cometduty.Prelude.Time.{is_zero, longer}
use mathlib.Core.Path.{subst}
use cometduty.Alert.{Alert}
use cometduty.Logs.{Rule, match, recent_hits, cooling}
use cometduty.Monitor.State.{Chain, NodeState}
use cometduty.Monitor.Alerting.Keys.{make_alert_says}
use cometduty.Monitor.LogLines.{Timer, log_key, log_alert, quieted, eval_rules, eval_log_line}

-- The times of a list that are not more than the window before `now`.
abbrev pub in_window : ℕ → ℤ → List ℕ → List ℕ
in_window now w [] = []
in_window now w (t ∷ ts) =
    let rest = in_window now w ts in if longer now t w then rest else t ∷ rest

-- The hits of a rule with one that comes now.
abbrev pub hits_now : ℕ → Rule → List ℕ
hits_now now r = in_window now r.window (r.hits ++ (now ∷ []))

-- Enough hits in the window, and no alert before or a cooldown that is over.
abbrev pub is_due : ℕ → Rule → Bool
is_due now r =
    leb_ℤ r.count (pos (length (hits_now now r)))
    && (is_zero r.last_alert || longer (suc now) r.last_alert r.cooldown)

-- The rules that a line makes fire, in their order.
abbrev pub fired : ℕ → String → List Rule → List Rule
fired now line [] = []
fired now line (r ∷ rs) =
    let rest = fired now line rs in if r.re line && is_due now r then r ∷ rest else rest

abbrev pub struck : ℕ → Rule → Rule
struck now r = record r {
  hits = hits_now now r;
  last_alert = if is_due now r then now else r.last_alert;
}

-- The rules after a line: a rule whose pattern the line has takes a hit, and the time where it fires.
abbrev pub hit : ℕ → String → Rule → Rule
hit now line r = if r.re line then struck now r else r

in_window-recent_hits : (now : ℕ) (w : ℤ) (ts : List ℕ) → recent_hits now w ts ≡ in_window now w ts
unfolding recent_hits
in_window-recent_hits now w [] = refl
in_window-recent_hits now w (t ∷ ts) =
    ap (λ rest. if longer now t w then rest else t ∷ rest) (in_window-recent_hits now w ts)

match-struck : (r : Rule) (now : ℕ) → match r now ≡ (struck now r, is_due now r)
unfolding match cooling
match-struck r now = ground (arith, in_window-recent_hits now r.window (r.hits ++ (now ∷ [])))

abbrev pub says : Alert → String × Bool
says a = (a.key, a.resolved)

both : {x x' : String} {y y' : Bool} → (x ≡ x') × (y ≡ y') → ◌≡◌ {A = String × Bool} (x, y) (x', y')
both (h, k) = λ i. (h i, k i)

module _ (strip : String → String) (c c' : Chain) (now at : ℕ) (n n' : NodeState)
    (kernel : Bool) where
  abbrev raised : Rule → String × Bool
  raised r = (log_key n r, false)

  abbrev ends : Timer → ℤ × (String × Bool)
  ends t = (t.after, says (t.sends c' n' at))

  abbrev quiets : Rule → ℤ × (String × Bool)
  quiets r = (r.cooldown, (log_key n r, true))

  abbrev IsToldOf : List Rule → List Rule → List Rule × List Alert × List Timer → Type 0
  IsToldOf hits fs (rs', alerts, timers) =
      (rs' ≡ hits) × (map says alerts ≡ map raised fs) × (map ends timers ≡ map quiets fs)

  -- An alert for each rule that fired, a resolve of it after the rule's cooldown, and a hit for each
  -- rule with the pattern.
  abbrev pub IsTold : String → List Rule → List Rule × List Alert × List Timer → Type 0
  IsTold line rs out = IsToldOf (map (hit now line) rs) (fired now line rs) out

  log_alert-says :
      (line : String) (r : Rule) → says (log_alert strip c now n kernel line r) ≡ raised r
  unfolding log_alert
  log_alert-says line r = both (make_alert_says c now none (log_key n r) false r.severity _)

  quieted-ends : (r : Rule) → ends (quieted c n r) ≡ quiets r
  unfolding quieted
  quieted-ends r =
      ap (λ x. (r.cooldown, x)) (both (make_alert_says c' at none (log_key n r) true "info" _))

  step-IsTold :
      (line : String) (r m : Rule) (b f : Bool) (hits fs : List Rule)
      (out : List Rule × List Alert × List Timer)
      → IsToldOf hits fs out
      → IsToldOf ((if b then m else r) ∷ hits) (if b && f then r ∷ fs else fs) (
          if not b
          then (r ∷ out.0, out.1, out.2)
          else if not f
          then (m ∷ out.0, out.1, out.2)
          else (m ∷ out.0, log_alert strip c now n kernel line r ∷ out.1, quieted c n r ∷ out.2))
  step-IsTold line r m false f hits fs out (h, k, l) = (ap (λ z. r ∷ z) h, k, l)
  step-IsTold line r m true false hits fs out (h, k, l) = (ap (λ z. m ∷ z) h, k, l)
  step-IsTold line r m true true hits fs out (h, k, l) =
      (ap (λ z. m ∷ z) h, λ i. log_alert-says line r i ∷ k i, λ i. quieted-ends r i ∷ l i)

  eval_rules-IsTold :
      (line : String) (rs : List Rule) → IsTold line rs (eval_rules strip c now n kernel line rs)
  unfolding eval_rules
  eval_rules-IsTold line [] = (refl, refl, refl)
  eval_rules-IsTold line (r ∷ rs) =
      let out = eval_rules strip c now n kernel line rs in
      subst
        (λ (p : Rule × Bool). IsTold line (r ∷ rs) (
          if not (r.re line)
          then (r ∷ out.0, out.1, out.2)
          else if not p.1
          then (p.0 ∷ out.0, out.1, out.2)
          else (p.0 ∷ out.0, log_alert strip c now n kernel line r ∷ out.1, quieted c n r ∷ out.2)))
        (sym (match-struck r now))
        (step-IsTold line r (struck now r) (r.re line) (is_due now r) _ _ _
          (eval_rules-IsTold line rs))

-- For a line, stripped of its escapes, each rule whose pattern it has keeps the hits of its window and
-- takes one now, and no other rule changes. A rule fires where it has as many of these as its count,
-- and had no alert or one that is a cooldown old, and takes the time of it. There is one alert for each
-- rule that fires, in the order of the rules, with the rule's key; and for each of these one timer, for the rule's cooldown, which then sends the resolve of that key,
-- whatever the chain and the node have become.
pub eval_log_line-IsTold :
    (strip : String → String) (c c' : Chain) (now at : ℕ) (n n' : NodeState) (kernel : Bool)
    (rules : List Rule) (line : String)
    → IsTold strip c c' now at n n' kernel
        (strip line)
        rules
        (eval_log_line strip c now n rules line kernel)
unfolding eval_log_line
eval_log_line-IsTold strip c c' now at n n' kernel rules line =
    eval_rules-IsTold strip c c' now at n n' kernel (strip line) rules
