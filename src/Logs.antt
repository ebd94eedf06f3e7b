-- ===== src/Logs.antt =====
-- internal/logs/logs.go: the rules on log lines. A compiled pattern is the test that it makes.
pub mod Windows
pub mod Packs
pub mod Compiled
use cometduty.Prelude.{ℕ, suc, Bool, true, false, List, [], ◌∷◌, ◌++◌, String, Option, none, some}
use cometduty.Prelude.{◌==◌, string_eq, if◌then◌else◌, not, ◌&&◌, ◌||◌, length}
use cometduty.Prelude.Int.{ℤ, pos, ltb_ℤ, leb_ℤ}
use cometduty.Prelude.Time.{is_zero, longer, minutes}
use cometduty.Config.{LogRule}
use cometduty.Alert.Silence.{Regexp}

pub record Rule : Type 0 where
  pub name : String
  pub re : String → Bool
  pub severity : String
  pub count : ℤ
  pub window : ℤ
  pub cooldown : ℤ
  pub hits : List ℕ
  pub last_alert : ℕ

-- The hits that are not before `now.Add(-r.Window)`.
unfoldable pub recent_hits : ℕ → ℤ → List ℕ → List ℕ
recent_hits now window [] = []
recent_hits now window (t ∷ ts) =
    let rest = recent_hits now window ts in if longer now t window then rest else t ∷ rest

-- `now.Sub(r.lastAlert) < r.Cooldown`, where there was an alert.
unfoldable pub cooling : ℕ → Rule → Bool
cooling now r = not (is_zero r.last_alert) && not (longer (suc now) r.last_alert r.cooldown)

-- `(*Rule).Match`.
unfoldable pub match : Rule → ℕ → Rule × Bool
match r now =
    let hits = recent_hits now r.window (r.hits ++ (now ∷ [])) in
    let r' = record r { hits = hits } in
    if ltb_ℤ (pos (length hits)) r.count
    then (r', false)
    else if cooling now r
    then (r', false)
    else (record r' { last_alert = now }, true)

abbrev positive_or : ℤ → ℤ → ℤ
positive_or n d = if leb_ℤ n (pos 0) then d else n

rule_of : LogRule → (String → Bool) → Rule
rule_of r re = record {
  name = r.name;
  re = re;
  severity = if r.severity == "" then "critical" else r.severity;
  count = positive_or r.count (pos 1);
  window = minutes (positive_or r.window_min (pos 5));
  cooldown = minutes (positive_or r.cooldown_min (pos 30));
  hits = [];
  last_alert = 0;
}

add_rule : LogRule → Option (String → Bool) → Option (List Rule) → Option (List Rule)
add_rule r none rest = none
add_rule r (some re) none = none
add_rule r (some re) (some rs) = some (rule_of r re ∷ rs)

-- `Compile`: a rule without a name or a pattern is passed over, and none stands for the error of a
-- pattern that is refused.
unfoldable pub compile_rules : Regexp → List LogRule → Option (List Rule)
unfolding add_rule rule_of
compile_rules regexp [] = some []
compile_rules regexp (r ∷ rs) =
    let rest = compile_rules regexp rs in
    if r.name == "" || r.pattern == "" then rest else add_rule r (regexp r.pattern) rest
