-- ===== src/Alert/Engine/Filled.antt =====
-- What `Dispatch` fills in, it fills in once.
use cometduty.Prelude.{
  ℕ, true, false, String, ◌≡◌, refl, ap, ◌∙◌, ◌<◌, arith, ◌==◌, string_eq, if◌then◌else◌, if_cases,
  if_false,
}
use cometduty.Prelude.Time.{is_zero}
use cometduty.Alert.{Alert}
use cometduty.Alert.Engine.{filled, with_key, with_time, with_kind, split_key}

with_kind-with_kind : (a : Alert) → with_kind (with_kind a) ≡ with_kind a
unfolding with_kind
with_kind-with_kind a =
    let kind = (split_key a.key).0 in
    let named = record a { kind = kind; target = (split_key a.key).1 } in
    if_cases (λ r. with_kind r ≡ r) (a.kind == "")
      (λ e. if_cases (λ (r : Alert). r ≡ named) (kind == "") (λ d. refl) (λ d. refl))
      (λ e. if_false _ _ e)

pub resolved-filled : (now : ℕ) (a : Alert) → (filled now a).resolved ≡ a.resolved
unfolding filled with_key with_time with_kind
resolved-filled now a =
    if_cases (λ (r : Alert). r.resolved ≡ a.resolved) _ (λ e. with_time-resolved)
      (λ e. with_time-resolved)
  where
    with_key-resolved : (with_key a).resolved ≡ a.resolved
    with_key-resolved = if_cases (λ (r : Alert). r.resolved ≡ a.resolved) _ (λ e. refl) (λ e. refl)

    with_time-resolved : (with_time now (with_key a)).resolved ≡ a.resolved
    with_time-resolved =
        if_cases (λ (r : Alert). r.resolved ≡ a.resolved) _ (λ e. with_key-resolved)
          (λ e. with_key-resolved)

-- A key that `Dispatch` would set is there.
abbrev HasKey : Alert → Type 0
HasKey a = (if a.key == "" then a.message else a.key) ≡ a.key

with_key-HasKey : (a : Alert) → HasKey (with_key a)
unfolding with_key
with_key-HasKey a =
    if_cases HasKey (a.key == "")
      (λ e. if_cases (λ (m : String). m ≡ a.message) (a.message == "") (λ d. refl) (λ d. refl))
      (λ e. if_false _ _ e)

with_key-same : (a : Alert) → HasKey a → with_key a ≡ a
unfolding with_key
with_key-same a h = as_field ∙ ap (λ (k : String). record a { key = k }) h
  where
    as_field :
        (if a.key == "" then record a { key = a.message } else a)
        ≡ record a { key = if a.key == "" then a.message else a.key }
    as_field =
        elim (a.key == "")
          as (λ b.
            (if b then record a { key = a.message } else a)
            ≡ record a { key = if b then a.message else a.key }) [ true ↦ refl | false ↦ refl ]

-- The key is there and the time is not the zero time.
abbrev IsStamped : Alert → Type 0
IsStamped a = HasKey a × (is_zero a.time ≡ false)

stamped : (now : ℕ) (a : Alert) → 0 < now → HasKey a → IsStamped (with_time now a)
unfolding with_time
stamped now a z h = if_cases IsStamped (is_zero a.time) (λ e. (h, ground arith)) (λ e. (h, e))

with_kind-IsStamped : (a : Alert) → IsStamped a → IsStamped (with_kind a)
unfolding with_kind
with_kind-IsStamped a h = if_cases IsStamped (a.kind == "") (λ e. h) (λ e. h)

filled-stamped : (later : ℕ) (a : Alert) → IsStamped a → with_kind a ≡ a → filled later a ≡ a
unfolding filled with_time
filled-stamped later a (h, t) k =
    ap (λ x. with_kind (with_time later x)) (with_key-same a h) ∙ ap with_kind (if_false _ _ t) ∙ k

-- What is filled in is not filled in again.
pub filled-filled :
    (now later : ℕ) (a : Alert) → 0 < now → filled later (filled now a) ≡ filled now a
unfolding filled
filled-filled now later a z =
    filled-stamped later (with_kind (with_time now (with_key a)))
      (with_kind-IsStamped _ (stamped now (with_key a) z (with_key-HasKey a)))
      (with_kind-with_kind (with_time now (with_key a)))
