-- ===== src/Monitor/Resolve.antt =====
-- internal/monitor/validator.go: the consensus address of a validator and its text.
pub mod Valcons
use cometduty.Prelude.{ℕ, Bool, true, false, List, [], ◌∷◌, ◌++◌, String, Option, none, some}
use cometduty.Prelude.{◌==◌, string_eq, if◌then◌else◌, not, ◌||◌, eqb, length}
use cometduty.Prelude.Ascii.{bytes_of}
use cometduty.Prelude.Text.{contains}
use cometduty.Bech32.{Result, err, ok, decode, encode, hrp_of, same_text}

-- The address and its text, or the error.
pub data Resolved : Type 0 where
  resolved : List ℕ → List ℕ → Resolved
  bad_override bad_valcons no_address bad_valoper no_prefix not_encoded : Resolved

-- A text that has to be an address of twenty bytes.
unfoldable pub decoded_address : Resolved → List ℕ → Result (List ℕ × List ℕ) → Resolved
decoded_address bad s (err e) = bad
decoded_address bad s (ok (hrp, bz)) = if eqb (length bz) 20 then resolved bz s else bad

front_of : ℕ → Option (List ℕ) → Option (List ℕ)
front_of b none = none
front_of b (some bs) = some (b ∷ bs)

-- What stands before an ending, or none where the text does not end so.
cut_ending : List ℕ → List ℕ → Option (List ℕ)
unfolding front_of
cut_ending [] ending = if same_text [] ending then some [] else none
cut_ending (b ∷ bs) ending =
    let rest = front_of b (cut_ending bs ending) in
    if same_text (b ∷ bs) ending then some [] else rest

-- `consPrefixOverrides`, with the empty text for a key that is not there.
unfoldable pub prefix_override : List ℕ → List ℕ
prefix_override hrp = if same_text hrp (bytes_of "iva") then bytes_of "ica" else []

-- The prefix of a consensus address after that of an operator's.
unfoldable pub derived_prefix : List ℕ → List ℕ
unfolding cut_ending
derived_prefix hrp = elim (cut_ending hrp (bytes_of "valoper")) [
  | some front ↦ front ++ bytes_of "valcons"
  | none ↦ prefix_override hrp
]

unfoldable pub encoded : List ℕ → Result (List ℕ) → Resolved
encoded bz (err e) = not_encoded
encoded bz (ok vc) = resolved bz vc

-- The rest, from the prefix on.
unfoldable pub with_prefix : List ℕ → List ℕ → Resolved
unfolding encoded
with_prefix [] bz = no_prefix
with_prefix (c ∷ cs) bz = encoded bz (encode (c ∷ cs) bz)

from_hrp : List ℕ → Result (List ℕ) → Resolved
from_hrp bz (err e) = bad_valoper
from_hrp bz (ok hrp) = with_prefix (derived_prefix hrp) bz

-- `resolveConsAddress`: the override, an operator field that holds a consensus address, or the address
-- that the chain gave under the prefix that was set or derived.
unfoldable pub resolve_cons_address : String → String → String → List ℕ → Resolved
unfolding from_hrp
resolve_cons_address valoper override cons_prefix queried =
    if not (override == "")
    then decoded_address bad_override (bytes_of override) (decode (bytes_of override))
    else if contains valoper "valcons"
    then decoded_address bad_valcons (bytes_of valoper) (decode (bytes_of valoper))
    else if not (eqb (length queried) 20)
    then no_address
    else if cons_prefix == ""
    then from_hrp queried (hrp_of (bytes_of valoper))
    else with_prefix (bytes_of cons_prefix) queried

-- `isMissingModuleErr`, of the error's text.
unfoldable pub is_missing_module_err : String → Bool
is_missing_module_err s =
    contains s "unknown query path"
    || (contains s "no route found"
        || (contains s "not implemented" || contains s "unknown request"))
