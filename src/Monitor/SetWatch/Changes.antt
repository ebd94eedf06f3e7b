-- ===== src/Monitor/SetWatch/Changes.antt =====
-- What two listings of the set say: every alert has its reason, and the same listing again is silent.
use cometduty.Prelude.{
  ℕ, true, false, List, [], ◌∷◌, ◌++◌, String, Option, none, some, ◌≡◌, refl, ap, ◌∙◌, arith,
}
use cometduty.Prelude.{
  ◌==◌, string_eq, if_cases, if_true, if_false, not, ◌&&◌, All, All-append, All-mono, beq_refl, any,
  ◌||◌, All-members,
}
use mathlib.Core.List.{Mem}
use cometduty.Prelude.Maps.{
  GoMap, lookup, insert, member, lookup-insert, lookup-insert_self, is_some,
}
use cometduty.Alert.{Alert}
use cometduty.Monitor.State.{Chain, SetEntry}
use cometduty.Monitor.Alerting.Keys.{make_alert_says}
use cometduty.Monitor.SetWatch.{
  set_watch, by_valoper, entry_change, entry_changes, gone_changes, new_key, jailed_key, gone_key,
}

-- Why an alert was sent: an entry of the listing that the last one did not have, an entry that the
-- last one had with the other jailing, or an operator of the last one that this one does not have.
pub data IsJustified (prev : GoMap String SetEntry) (entries : List SetEntry) (a : Alert)
    : Type 0 where
  joined :
      (e : SetEntry)
      → Mem e entries
      → lookup e.valoper prev ≡ none
      → a.key ≡ new_key e.valoper
      → a.resolved ≡ false
      → IsJustified prev entries a
  turned :
      (e old : SetEntry)
      → Mem e entries
      → lookup e.valoper prev ≡ some old
      → old.jailed ≡ not e.jailed
      → a.key ≡ jailed_key e.valoper
      → a.resolved ≡ not e.jailed
      → IsJustified prev entries a
  left :
      (v : String)
      → member v prev ≡ true
      → any (λ e. e.valoper == v) entries ≡ false
      → a.key ≡ gone_key v
      → a.resolved ≡ false
      → IsJustified prev entries a

-- The keys of a map are in it.
member-next :
    (k v : String) (x : SetEntry) (m : GoMap String SetEntry)
    → member k m ≡ true
    → member k ((v, x) ∷ m) ≡ true
unfolding lookup
member-next k v x m h =
    if_cases (λ (o : Option SetEntry). is_some o ≡ true) (v == k) (λ e. refl) (λ e. h)

members : (m : GoMap String SetEntry) → All (λ (kv : String × SetEntry). member kv.0 m ≡ true) m
unfolding lookup
members [] = tt
members ((k, x) ∷ m) = (
  ap is_some (if_true (lookup k m) (k == k) (beq_refl k)),
  All-mono _ _ (λ (kv : String × SetEntry) h. member-next kv.0 k x m h) m (members m),
)

-- The operators that the map of a listing has are those of the listing.
member-by_valoper :
    (v : String) (es : List SetEntry) (m : GoMap String SetEntry)
    → member v (by_valoper es m) ≡ (any (λ e. e.valoper == v) es || member v m)
unfolding by_valoper
member-by_valoper v [] m = refl
member-by_valoper v (e ∷ es) m =
    ground (arith, member-by_valoper v es (insert e.valoper e m), lookup-insert e.valoper v e m)

module _ (c : Chain) (now : ℕ) (prev : GoMap String SetEntry) (entries : List SetEntry) where
  abbrev AllJustified : List Alert → Type 0
  AllJustified = All (IsJustified prev entries)

  change-IsJustified :
      (e : SetEntry) (o : Option SetEntry)
      → Mem e entries
      → lookup e.valoper prev ≡ o
      → AllJustified (entry_change c now e o)
  unfolding entry_change
  change-IsJustified e none m h =
      let (k, r) = make_alert_says c now none (new_key e.valoper) false _ _ in
      (joined e m h k r, tt)
  change-IsJustified e (some old) m h =
      if_cases AllJustified (not old.jailed && e.jailed)
        (λ d.
          let (k, r) = make_alert_says c now none (jailed_key e.valoper) false _ _ in
          (turned e old m h (ground arith) k (r ∙ ground arith), tt))
        (λ d.
          if_cases AllJustified (old.jailed && not e.jailed)
            (λ f.
              let (k, r) = make_alert_says c now none (jailed_key e.valoper) true _ _ in
              (turned e old m h (ground arith) k (r ∙ ground arith), tt))
            (λ f. tt))

  changes-IsJustified :
      (es : List SetEntry)
      → All (λ e. Mem e entries) es
      → AllJustified (entry_changes c now prev es)
  unfolding entry_changes
  changes-IsJustified [] ms = tt
  changes-IsJustified (e ∷ es) (m, ms) =
      All-append (IsJustified prev entries) _ _
        (change-IsJustified e (lookup e.valoper prev) m refl) (changes-IsJustified es ms)

  gone-IsJustified :
      (m : GoMap String SetEntry)
      → All (λ (kv : String × SetEntry). member kv.0 prev ≡ true) m
      → AllJustified (gone_changes c now (by_valoper entries []) m)
  unfolding gone_changes lookup
  gone-IsJustified [] h = tt
  gone-IsJustified ((v, e) ∷ m) (hv, h) =
      if_cases AllJustified (member v (by_valoper entries [])) (λ d. gone-IsJustified m h)
        (λ d.
          let (k, r) = make_alert_says c now none (gone_key v) false _ _ in
          let absent : any (λ x. x.valoper == v) entries ≡ false =
            ground (arith, member-by_valoper v entries []) in
          (left v hv absent k r, gone-IsJustified m h))

-- Every alert of `setWatch` has its reason, as its key says: an entry of the new listing whose operator
-- the last listing did not have, an entry that the last listing had with the other jailing (sent as a
-- resolve just when the jailing ended), or an operator of the last listing that no entry is about.
pub set_watch-IsJustified :
    (c : Chain) (now : ℕ) (entries : List SetEntry)
    → All (IsJustified c.set_snapshot entries) (set_watch now (some entries) c).1
unfolding set_watch
set_watch-IsJustified c now entries =
    let c' = record c { set_snapshot = by_valoper entries []; set_primed = true } in
    let all = All (IsJustified c.set_snapshot entries) in
    if_cases (λ (r : Chain × List Alert). all r.1) c.set_primed
      (λ e.
        All-append (IsJustified c.set_snapshot entries) _ _
          (changes-IsJustified c' now c.set_snapshot entries entries (All-members entries))
          (gone-IsJustified c' now c.set_snapshot entries c.set_snapshot (members c.set_snapshot)))
      (λ e. tt)

-- Each operator once.
abbrev pub IsDistinct : List SetEntry → Type 0
IsDistinct [] = Unit
IsDistinct (e ∷ es) = All (λ x. (x.valoper == e.valoper) ≡ false) es × IsDistinct es

lookup-others :
    (k : String) (es : List SetEntry) (m : GoMap String SetEntry)
    → All (λ x. (x.valoper == k) ≡ false) es
    → lookup k (by_valoper es m) ≡ lookup k m
unfolding by_valoper
lookup-others k [] m h = refl
lookup-others k (e ∷ es) m (he, h) =
    lookup-others k es (insert e.valoper e m) h
    ∙ lookup-insert e.valoper k e m
    ∙ if_false (some e) _ he

lookup-listed :
    (es : List SetEntry) (m : GoMap String SetEntry)
    → IsDistinct es
    → All (λ e. lookup e.valoper (by_valoper es m) ≡ some e) es
unfolding by_valoper
lookup-listed [] m h = tt
lookup-listed (e ∷ es) m (he, h) = (
  lookup-others e.valoper es (insert e.valoper e m) he ∙ lookup-insert_self e.valoper e m,
  lookup-listed es (insert e.valoper e m) h,
)

module _ (c : Chain) (now : ℕ) (listed : GoMap String SetEntry) where
  same_entry : (e : SetEntry) → entry_change c now e (some e) ≡ []
  unfolding entry_change
  same_entry e = ground arith

  same_entries :
      (es : List SetEntry)
      → All (λ e. lookup e.valoper listed ≡ some e) es
      → entry_changes c now listed es ≡ []
  unfolding entry_changes
  same_entries [] h = refl
  same_entries (e ∷ es) (he, h) =
      ap (λ o. entry_change c now e o ++ entry_changes c now listed es) he
      ∙ ap (λ as'. as' ++ entry_changes c now listed es) (same_entry e)
      ∙ same_entries es h

  nobody_gone :
      (m : GoMap String SetEntry)
      → All (λ (kv : String × SetEntry). member kv.0 listed ≡ true) m
      → gone_changes c now listed m ≡ []
  unfolding gone_changes
  nobody_gone [] h = refl
  nobody_gone ((v, x) ∷ m) (hv, h) = if_true _ (member v listed) hv ∙ nobody_gone m h

-- A listing with each operator once sends nothing when it comes again.
set_watch-again :
    (c : Chain) (now later : ℕ) (entries : List SetEntry)
    → IsDistinct entries
    → (set_watch later (some entries) (set_watch now (some entries) c).0).1 ≡ []
unfolding set_watch
set_watch-again c now later entries h =
    let listed = by_valoper entries [] in
    let c' = record c { set_snapshot = listed; set_primed = true } in
    if_cases (λ (r : Chain × List Alert). (set_watch later (some entries) r.0).1 ≡ []) c.set_primed
      (λ e. again c') (λ e. again c')
  where
    again :
        (x : Chain)
        → entry_changes x later (by_valoper entries []) entries
            ++ gone_changes x later (by_valoper entries []) (by_valoper entries [])
          ≡ []
    again x =
        ap (λ as'. as' ++ gone_changes x later (by_valoper entries []) (by_valoper entries []))
          (same_entries x later (by_valoper entries []) entries (lookup-listed entries [] h))
        ∙ nobody_gone x later (by_valoper entries []) (by_valoper entries []) (members _)
