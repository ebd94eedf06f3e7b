-- ===== src/Logs/Compiled.antt =====
-- When `Compile` of internal/logs/logs.go succeeds.
use cometduty.Prelude.{
  Bool, List, [], ◌∷◌, String, Option, none, some, ◌≡◌, refl, not, ◌||◌, any, arith,
}
use cometduty.Prelude.{string_eq}
use cometduty.Prelude.Maps.{is_some}
use cometduty.Config.{LogRule}
use cometduty.Config.Validate.Fatal.{is_bad_rule}
use cometduty.Alert.Silence.{Regexp}
use cometduty.Logs.{Rule, compile_rules, add_rule}

-- The error of a pattern, with a fixed text.
abbrev pub refusal : Option (String → Bool) → Option String
refusal none = some "error parsing regexp"
refusal (some re) = none

abbrev pub errors : Regexp → String → Option String
errors regexp p = refusal (regexp p)

add-is_some :
    (r : LogRule) (re : Option (String → Bool)) (rest : Option (List Rule))
    → is_some (add_rule r re rest) ≡ not (is_some (refusal re) || not (is_some rest))
unfolding add_rule
add-is_some r none rest = refl
add-is_some r (some re) none = refl
add-is_some r (some re) (some rs) = refl

-- Compile succeeds exactly when no rule with a name and a pattern has a pattern that is refused.
pub compile_rules-is_some :
    (regexp : Regexp) (rs : List LogRule)
    → is_some (compile_rules regexp rs) ≡ not (any (is_bad_rule (errors regexp)) rs)
unfolding compile_rules
compile_rules-is_some regexp [] = refl
compile_rules-is_some regexp (r ∷ rs) = ground (
  arith,
  add-is_some r (regexp r.pattern) (compile_rules regexp rs),
  compile_rules-is_some regexp rs,
)
