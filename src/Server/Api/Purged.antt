-- ===== src/Server/Api/Purged.antt =====
-- What the ticks of `RunSilences` leave of a silence.
use cometduty.Prelude.{
  ℕ, Bool, true, false, List, [], ◌∷◌, String, Option, none, some, ◌≡◌, refl, sym, ap, ◌∙◌, arith,
}
use cometduty.Prelude.{
  if◌then◌else◌, if_cases, any, string_eq, ◌||◌, Option-cases, inl, inr, ltb, ◌+◌, ◌*◌,
}
use cometduty.Prelude.Time.{hour}
use cometduty.Prelude.Maps.{GoMap, lookup, member, IsMap, is_some}
use cometduty.Alert.Silence.{Silence}
use cometduty.Alert.Engine.{Engine}
use cometduty.Alert.Engine.Silences.{purge, silence_tick, long_over}
use cometduty.Server.Api.Kept.{AreKeyed, release_held-silences}
use mathlib.Core.Path.{subst}

-- The engine after the ticks at the times of a list, the first of them first.
abbrev pub ticks : Engine → List ℕ → Engine
ticks e [] = e
ticks e (t ∷ ts) = ticks (silence_tick e t).0 ts

-- A silence that some tick found over for more than a day.
abbrev pub is_purged : List ℕ → Silence → Bool
is_purged ts s = any (λ t. ltb (s.ends_at + 24 * hour) t) ts

abbrev pub unpurged : List ℕ → Option Silence → Option Silence
unpurged ts none = none
unpurged ts (some s) = if is_purged ts s then none else some s

abbrev left_at : ℕ → Option Silence → Option Silence
left_at t none = none
left_at t (some s) = if long_over t s then none else some s

absent : (id : String) (m : GoMap String Silence) → member id m ≡ false → lookup id m ≡ none
absent id m h = elim (Option-cases (lookup id m)) [ inl e ↦ e | inr (t, e) ↦ cc ]

lookup-purge :
    (t : ℕ) (id : String) (m : GoMap String Silence)
    → IsMap m
    → lookup id (purge t m) ≡ left_at t (lookup id m)
unfolding purge lookup IsMap
lookup-purge t id [] h = refl
lookup-purge t id ((j, s) ∷ m) h =
    ground
      (arith, lookup-purge t id m h.1, string_eq.beq_iff j id, absent j m h.0, ap (λ k. lookup k m))

purge-IsMap : (t : ℕ) (m : GoMap String Silence) → IsMap m → IsMap (purge t m)
unfolding purge IsMap
purge-IsMap t [] h = tt
purge-IsMap t ((j, s) ∷ m) h =
    if_cases IsMap (long_over t s) (λ e. purge-IsMap t m h.1)
      (λ e. (
        ap is_some (lookup-purge t j m h.1 ∙ ap (left_at t) (absent j m h.0)),
        purge-IsMap t m h.1,
      ))

purge-AreKeyed : (t : ℕ) (m : GoMap String Silence) → AreKeyed m → AreKeyed (purge t m)
unfolding purge
purge-AreKeyed t [] h = tt
purge-AreKeyed t ((j, s) ∷ m) h =
    if_cases AreKeyed (long_over t s) (λ e. purge-AreKeyed t m h.1)
      (λ e. (h.0, purge-AreKeyed t m h.1))

tick-silences : (e : Engine) (t : ℕ) → (silence_tick e t).0.silences ≡ purge t e.silences
unfolding silence_tick
tick-silences e t = release_held-silences (record e { silences = purge t e.silences }) t

left-unpurged :
    (t : ℕ) (ts : List ℕ) (o : Option Silence) → unpurged ts (left_at t o) ≡ unpurged (t ∷ ts) o
left-unpurged t ts none = refl
left-unpurged t ts (some s) =
    elim (long_over t s)
      as (λ b.
        unpurged ts (if b then none else some s) ≡ (if b || is_purged ts s then none else some s)) [
          | true ↦ refl
          | false ↦ refl
        ]

-- The silences stay a map under their ids, with those that were not purged.
pub ticks-silences :
    (e : Engine) (ts : List ℕ) (id : String)
    → IsMap e.silences
    → AreKeyed e.silences
    → IsMap (ticks e ts).silences
      × AreKeyed (ticks e ts).silences
      × (lookup id (ticks e ts).silences ≡ unpurged ts (lookup id e.silences))
ticks-silences e [] id h k =
    (h, k, elim (lookup id e.silences) as (λ o. o ≡ unpurged [] o) [ none ↦ refl | some s ↦ refl ])
ticks-silences e (t ∷ ts) id h k =
    let same = tick-silences e t in
    let (map, keyed, found) =
      ticks-silences (silence_tick e t).0 ts id
        (subst IsMap (sym same) (purge-IsMap t e.silences h))
        (subst AreKeyed (sym same) (purge-AreKeyed t e.silences k)) in
    (
      map,
      keyed,
      found
          ∙ ap (unpurged ts) (ap (lookup id) same ∙ lookup-purge t id e.silences h)
          ∙ left-unpurged t ts (lookup id e.silences),
    )
