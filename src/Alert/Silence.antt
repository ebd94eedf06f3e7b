-- ===== src/Alert/Silence.antt =====
-- internal/alert/silence.go: matchers, silences and the labels that they select by. A compiled
-- regular expression is the test that it makes on a text.

use cometduty.Prelude.{ℕ, Bool, true, false, List, [], ◌∷◌, String, Option, none, some}
use cometduty.Prelude.{◌==◌, string_eq, ◌≡◌, refl, if◌then◌else◌, not, ◌&&◌, ltb, all, ◌*◌}
use cometduty.Prelude.Maps.{GoMap, lookup, insert, or_zero}
use cometduty.Prelude.Time.{hour}
use cometduty.Alert.{Alert}
use Prim.Native.String.{◌++◌ as ◌<>◌}

pub record Matcher : Type 0 where
  pub name : String
  pub value : String
  pub is_regex : Bool
  pub is_equal : Option Bool
  pub re : Option (String → Bool)

pub record Silence : Type 0 where
  pub id : String
  pub matchers : List Matcher
  pub starts_at : ℕ
  pub ends_at : ℕ
  pub created_by : String
  pub comment : String
  pub updated_at : ℕ

pub data Error : Type 0 where
  no_name bad_regexp bad_period too_long no_matcher not_selective no_silence : Error

-- A value, or the error that was returned in its place.
pub data Fallible {ℓ} (T : Type ℓ) : Type ℓ where
  err : Error → Fallible T
  ok : T → Fallible T

module _ {ℓ κ} {S : Type ℓ} {T : Type κ} where
  infixl 5 ◌>>=◌
  abbrev pub ◌>>=◌ : Fallible S → (S → Fallible T) → Fallible T
  r >>= next = elim r [ err e ↦ err e | ok s ↦ next s ]

  -- What came before a success succeeded.
  pub >>=-ok :
      (r : Fallible S) (next : S → Fallible T) {t : T}
      → (r >>= next) ≡ ok t
      → (s : S) × (r ≡ ok s) × (next s ≡ ok t)
  >>=-ok (err e) next h = cc
  >>=-ok (ok s) next h = (s, refl, h)

infixl 5 ◌>>◌
abbrev pub ◌>>◌ {ℓ} : {T : Type ℓ} → Fallible (Unit {0}) → Fallible T → Fallible T
r >> next = r >>= λ u. next

-- An early return of an error.
abbrev pub fail_if : Bool → Error → Fallible (Unit {0})
fail_if true e = err e
fail_if false e = ok tt

-- 7 * 24 * time.Hour
abbrev pub max_silence : ℕ
max_silence = 7 * 24 * hour

abbrev equal_of : Option Bool → Bool
equal_of none = true
equal_of (some b) = b

abbrev same : Bool → Bool → Bool
same true b = b
same false b = not b

-- What Go's `regexp.Compile` is to the program: the pattern's test, or none where it is refused.
abbrev pub Regexp : Type 0
Regexp = String → Option (String → Bool)

set_re : Matcher → Option (String → Bool) → Fallible Matcher
set_re m none = err bad_regexp
set_re m (some t) = ok (record m { re = some t })

-- `(*Matcher).compile`.
unfoldable pub compile : Regexp → Matcher → Fallible Matcher
unfolding set_re
compile regexp m =
    if m.name == ""
    then err no_name
    else if not m.is_regex
    then ok m
    else set_re m (regexp (anchored m.value))
  where
    anchored : String → String
    anchored v = "^(?:" <> v <> ")$"

abbrev run_re : Option (String → Bool) → String → Bool
run_re none v = false
run_re (some t) v = t v

-- `(*Matcher).matches`: a label that is missing reads as the empty text.
unfoldable pub matches : Matcher → GoMap String String → Bool
matches m labels =
    let v = or_zero (lookup m.name labels) "" in
    same (if m.is_regex then run_re m.re v else v == m.value) (equal_of m.is_equal)

-- `(*Silence).State`.
unfoldable pub state : Silence → ℕ → String
state s now =
    if ltb now s.starts_at then "pending" else if ltb now s.ends_at then "active" else "expired"

-- `(*Silence).mutes`.
unfoldable pub mutes : Silence → GoMap String String → ℕ → Bool
unfolding state matches
mutes s labels now = state s now == "active" && all (λ m. matches m labels) s.matchers

put : String → String → GoMap String String → GoMap String String
put k v l = if v == "" then l else insert k v l

copy : GoMap String String → GoMap String String → GoMap String String
copy [] l = l
copy ((k, v) ∷ m) l = copy m (insert k v l)

-- `(*Alert).LabelSet`: the operator's labels under the alert's own fields that are not empty.
unfoldable pub label_set : Alert → GoMap String String
unfolding put copy
label_set a = put "severity" a.severity (
    put "valcons" a.valcons (
      put "moniker" a.moniker (
        put "chain_id" a.chain_id (
          put "chain" a.chain (
            put "node" a.node (
              put "target" a.target
                (put "kind" a.kind (put "alertname" a.kind (copy a.labels [])))))))))
