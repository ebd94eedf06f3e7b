-- ===== src/Monitor/LiveProbe/Agrees.antt =====
-- What `status` shows of a validator, and what the monitor knows of it after a refresh.
use cometduty.Prelude.{ℕ, Bool, true, false, List, [], Option, none, some, ◌≡◌, refl, sym, ◌∙◌}
use mathlib.Core.Path.{subst}
use cometduty.Prelude.{arith, if_cases, if◌then◌else◌, ◌==◌, string_eq, ◌||◌, ◌&&◌, ◌*◌}
use cometduty.Prelude.Int.{ℤ, pos, ltb_ℤ, int_eq}
use cometduty.Prelude.Maps.{insert}
use cometduty.Prelude.Time.{longer, minute}
use cometduty.Config.{ValidatorConfig}
use cometduty.Monitor.State.{Chain, Target, ValInfo}
use cometduty.Monitor.Refresh.{
  Answers, Staking, Signing, no_module, failed, signing, with_signing, with_window, with_slashing,
  learned, known_address, known_staking, refresh_target, staking_of, direct_staking, labelled,
  next_info, old_info,
}
use cometduty.Monitor.Refresh.Targets.{own}
use cometduty.Monitor.Resolve.{
  Resolved, resolved, bad_override, bad_valcons, no_address, bad_valoper, no_prefix, not_encoded,
  resolve_cons_address,
}
use cometduty.Monitor.Queries.{Recorded, recorded, not_recorded, bad_key, record_panic}
use cometduty.Monitor.LiveProbe.{
  LiveAnswers, Fault, ResolvedValidator, is_direct, resolved_from, direct_row, queried_row,
  recorded_row, slashing_row, resolve_validator, unresolved, not_asked, unreadable_key,
}

-- The answer about the record, where there is one.
abbrev pub staking_answer : Recorded → Option Staking
staking_answer (recorded s) = some s
staking_answer (not_recorded e) = none
staking_answer (bad_key url o) = none
staking_answer record_panic = none

-- The same answers, as the refresh takes them.
abbrev pub answers_of : LiveAnswers → Answers
answers_of a = record { staking = staking_answer a.about; slashing = a.slashing; window = a.window }

record IsAlike (i j : ValInfo) : Type 0 where
  hex : j.cons_hex ≡ i.cons_hex
  text : j.valcons ≡ i.valcons
  bond : j.bonded ≡ i.bonded
  jail : j.jailed ≡ i.jailed

signing-IsAlike : (s : Signing) (c : Chain) (i : ValInfo) → IsAlike i (with_signing s c i).1
unfolding with_signing
signing-IsAlike no_module c i = record { hex = refl; text = refl; bond = refl; jail = refl }
signing-IsAlike failed c i = record { hex = refl; text = refl; bond = refl; jail = refl }
signing-IsAlike (signing tomb missed until) c i = record {
  hex = refl;
  text = refl;
  bond = refl;
  jail = refl;
}

window-IsAlike :
    (now : ℕ) (w : Option ℤ) (c : Chain) (j i : ValInfo)
    → IsAlike j i
    → IsAlike j (with_window now w c i).1
unfolding with_window
window-IsAlike now none c j i h = h
window-IsAlike now (some w) c j i h =
    if_cases (λ (r : Chain × ValInfo). IsAlike j r.1) (ltb_ℤ (pos 0) w)
      (λ e. record { hex = h.hex; text = h.text; bond = h.bond; jail = h.jail }) (λ e. h)

slashing-IsAlike :
    (now : ℕ) (a : Answers) (c : Chain) (i : ValInfo) → IsAlike i (with_slashing now a c i).1
unfolding with_slashing
slashing-IsAlike now a c i =
    let first = signing-IsAlike a.slashing c i in
    let (c', i') = with_signing a.slashing c i in
    if_cases (λ (r : Chain × ValInfo). IsAlike i r.1)
      ((i'.window == pos 0 || longer now c'.last_slashing_at (pos (30 * minute))) && c'.slashing_ok)
      (λ e. window-IsAlike now a.window c' i i' first) (λ e. first)

-- A row without a fault and with the address, the bond and the jail of what is known.
pub record IsRow (i : ValInfo) (rv : ResolvedValidator) : Type 0 where
  pub sound : rv.fault ≡ none
  pub hex : rv.cons_hex ≡ i.cons_hex
  pub text : rv.valcons ≡ i.valcons
  pub bond : rv.bonded ≡ i.bonded
  pub jail : rv.jailed ≡ i.jailed

-- Such a row, or a row with a fault where nothing is known.
abbrev pub IsShown : Option ValInfo → ResolvedValidator → Type 0
IsShown none rv = (f : Fault) × (rv.fault ≡ some f)
IsShown (some i) rv = IsRow i rv

abbrev ShownIn : Option ValInfo → Option ResolvedValidator → Type 0
ShownIn i none = i ≡ i
ShownIn i (some rv) = IsShown i rv

alike-IsRow : {i j : ValInfo} {rv : ResolvedValidator} → IsAlike i j → IsRow i rv → IsRow j rv
alike-IsRow h r = record {
  sound = r.sound;
  hex = r.hex ∙ sym h.hex;
  text = r.text ∙ sym h.text;
  bond = r.bond ∙ sym h.bond;
  jail = r.jail ∙ sym h.jail;
}

-- The slashing part of a row keeps what is compared.
slashing_row-IsRow :
    {i : ValInfo} {rv : ResolvedValidator} (a : LiveAnswers) (s : Signing)
    → IsRow i rv
    → IsRow i (slashing_row a s rv)
unfolding slashing_row
slashing_row-IsRow a no_module r = r
slashing_row-IsRow a failed r = r
slashing_row-IsRow a (signing tomb missed until) r = record {
  sound = r.sound;
  hex = r.hex;
  text = r.text;
  bond = r.bond;
  jail = r.jail;
}

-- With an address in the configuration, what the chain says of the address does not matter.
direct-resolved :
    (vc : ValidatorConfig) (bytes : List ℕ)
    → is_direct vc ≡ true
    → resolve_cons_address vc.valoper_address vc.valcons_override vc.cons_prefix bytes
      ≡ resolve_cons_address vc.valoper_address vc.valcons_override vc.cons_prefix []
unfolding is_direct resolve_cons_address
direct-resolved vc bytes h = ground arith

learned-IsShown :
    (now : ℕ) (slashing : Bool) (a : LiveAnswers) (i : ℕ) (t : Target) (c : Chain) (s : Staking)
    (addr vs : List ℕ) (rv : ResolvedValidator)
    → IsRow (next_info (old_info t.info) s addr vs) rv
    → IsShown (learned now slashing (answers_of a) i t c s addr vs).1.info rv
unfolding learned
learned-IsShown now slashing a i t c s addr vs rv h =
    let new = next_info (old_info t.info) s addr vs in
    let c' = record c { by_addr = insert new.cons_hex i c.by_addr } in
    if_cases (λ (r : Chain × ValInfo). IsShown (some r.1) rv) slashing
      (λ e. alike-IsRow (slashing-IsAlike now (answers_of a) c' new) h) (λ e. h)

-- Labelling changes the name only.
labelled-same :
    (vc : ValidatorConfig) (s : Staking)
    → ((labelled vc s).bonded ≡ s.bonded) × ((labelled vc s).jailed ≡ s.jailed)
unfolding labelled
labelled-same vc s =
    if_cases (λ (l : Staking). (l.bonded ≡ s.bonded) × (l.jailed ≡ s.jailed)) (vc.label == "")
      (λ e. (refl, refl)) (λ e. (refl, refl))

module _ (now : ℕ) (slashing : Bool) (a : LiveAnswers) (i : ℕ) (t : Target) (c : Chain) where
  queried-IsShown :
      (s s' : Staking) (r : Resolved)
      → s'.bonded ≡ s.bonded
      → s'.jailed ≡ s.jailed
      → IsShown
          (known_address now slashing (answers_of a) i (own t) c s' r).1.info
          (queried_row t.vc a s r)
  unfolding known_address queried_row next_info
  queried-IsShown s s' (resolved addr vs) b j =
      learned-IsShown now slashing a i (own t) c s' addr vs _ (
        slashing_row-IsRow a a.slashing
          (record { sound = refl; hex = refl; text = refl; bond = sym b; jail = sym j }))
  queried-IsShown s s' bad_override b j = (unresolved bad_override, refl)
  queried-IsShown s s' bad_valcons b j = (unresolved bad_valcons, refl)
  queried-IsShown s s' no_address b j = (unresolved no_address, refl)
  queried-IsShown s s' bad_valoper b j = (unresolved bad_valoper, refl)
  queried-IsShown s s' no_prefix b j = (unresolved no_prefix, refl)
  queried-IsShown s s' not_encoded b j = (unresolved not_encoded, refl)

  recorded-IsShown :
      (about : Recorded) (rv : ResolvedValidator)
      → recorded_row t.vc a about ≡ some rv
      → IsShown
          (known_staking now slashing (answers_of a) i (own t) c (staking_answer about)).1.info
          rv
  unfolding known_staking recorded_row
  recorded-IsShown (recorded s) rv h =
      let (b, j) = labelled-same t.vc s in
      subst (ShownIn _) h (queried-IsShown s (labelled t.vc s) _ b j)
  recorded-IsShown (not_recorded e) rv h = subst (ShownIn none) h (not_asked e, refl)
  recorded-IsShown (bad_key url o) rv h = subst (ShownIn none) h (unreadable_key url o, refl)
  recorded-IsShown record_panic rv h = cc

  address-IsShown :
      (s : Staking) (addr vs : List ℕ) (r : Resolved)
      → resolved addr vs ≡ r
      → s.bonded ≡ true
      → s.jailed ≡ false
      → IsShown
          (known_address now slashing (answers_of a) i (own t) c s r).1.info
          (direct_row t.vc (resolved addr vs))
  unfolding known_address direct_row next_info
  address-IsShown s addr vs r e b j =
      subst
        (λ q.
          IsShown (known_address now slashing (answers_of a) i (own t) c s q).1.info
            (direct_row t.vc (resolved addr vs)))
        e
        (learned-IsShown now slashing a i (own t) c s addr vs _
          (record { sound = refl; hex = refl; text = refl; bond = sym b; jail = sym j }))

  direct-IsShown :
      (r : Resolved)
      → is_direct t.vc ≡ true
      → resolve_cons_address t.vc.valoper_address t.vc.valcons_override t.vc.cons_prefix [] ≡ r
      → IsShown
          (known_staking now slashing (answers_of a) i (own t) c (direct_staking r)).1.info
          (direct_row t.vc r)
  unfolding known_staking direct_staking direct_row
  direct-IsShown (resolved addr vs) d e =
      let (b, j) = labelled-same t.vc _ in
      address-IsShown (labelled t.vc _) addr vs _ (sym (direct-resolved t.vc addr d ∙ e)) b j
  direct-IsShown bad_override d e = (unresolved bad_override, refl)
  direct-IsShown bad_valcons d e = (unresolved bad_valcons, refl)
  direct-IsShown no_address d e = (unresolved no_address, refl)
  direct-IsShown bad_valoper d e = (unresolved bad_valoper, refl)
  direct-IsShown no_prefix d e = (unresolved no_prefix, refl)
  direct-IsShown not_encoded d e = (unresolved not_encoded, refl)

-- `ResolveValidators` and `refreshValInfo` agree: on the same answers, a validator of which nothing is
-- known yet gets a row with an error just where the refresh leaves it unknown; otherwise the row has
-- the consensus address, its text, the bond and the jail that the refresh learns.
pub resolve_validator-refresh_target :
    (now : ℕ) (slashing : Bool) (a : LiveAnswers) (i : ℕ) (t : Target) (c : Chain)
    (rv : ResolvedValidator)
    → resolve_validator t.vc a ≡ some rv
    → IsShown (refresh_target now slashing (answers_of a) i (own t) c).1.info rv
unfolding resolve_validator refresh_target staking_of is_direct
resolve_validator-refresh_target now slashing a i t c rv h = both (is_direct t.vc) refl h
  where
    both :
        (q : Bool)
        → is_direct t.vc ≡ q
        → (if q
            then some (direct_row t.vc (resolved_from t.vc []))
            else recorded_row t.vc a a.about)
          ≡ some rv
        → IsShown
            (known_staking now slashing
              (answers_of a)
              i
              (own t)
              c
              (if q then direct_staking (resolved_from t.vc []) else staking_answer a.about)).1.info
            rv
    both true d e = subst (ShownIn _) e (direct-IsShown now slashing a i t c _ d refl)
    both false d e = recorded-IsShown now slashing a i t c a.about rv e
