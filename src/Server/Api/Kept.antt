-- ===== src/Server/Api/Kept.antt =====
-- The calls that send alerts leave the silences as they are, and a stored silence stands under its id.
use cometduty.Prelude.{
  ℕ, false, List, [], ◌∷◌, String, none, some, ◌≡◌, refl, ◌∙◌, arith, All, ap, inl, inr,
}
use cometduty.Prelude.{if_cases, if◌then◌else◌, string_eq, ◌==◌, any, Option-cases}
use cometduty.Prelude.Maps.{GoMap, lookup, insert, member, IsMap, lookup-insert}
use cometduty.Alert.{Alert, ResolvedDest}
use cometduty.Alert.Silence.{Silence}
use cometduty.Alert.Engine.{
  Engine, Delivery, should_send, send_one, send_all, mark_resolved, mark_open, hold, silenced,
  route, dispatch,
}
use cometduty.Alert.Engine.Silences.{release_one, release_all, dispatch_all, release_held}
use cometduty.Server.Api.{placed, newest_first, find}

should_send-silences :
    (e : Engine) (now : ℕ) (kind : String) (a : Alert)
    → (should_send e now kind a).0.silences ≡ e.silences
unfolding should_send
should_send-silences e now kind a = ground arith

send_one-silences :
    (e : Engine) (now : ℕ) (a : Alert) (d : ResolvedDest)
    → (send_one e now a d).0.silences ≡ e.silences
unfolding send_one
send_one-silences e now a d =
    if_cases (λ (r : Engine × List Delivery). r.0.silences ≡ e.silences)
      (any (λ k. k == d.kind) e.notifiers) (λ h. should_send-silences e now d.kind a) (λ h. refl)

send_all-silences :
    (e : Engine) (now : ℕ) (a : Alert) (ds : List ResolvedDest)
    → (send_all e now a ds).0.silences ≡ e.silences
unfolding send_all
send_all-silences e now a [] = refl
send_all-silences e now a (d ∷ ds) =
    send_all-silences (send_one e now a d).0 now a ds ∙ send_one-silences e now a d

route-silences : (e : Engine) (now : ℕ) (a : Alert) → (route e now a).0.silences ≡ e.silences
unfolding route mark_resolved mark_open hold
route-silences e now a =
    if_cases (λ (r : Engine × List Delivery). r.0.silences ≡ e.silences) a.resolved
      (λ h. send_all-silences (mark_resolved e a) now a (e.resolve a))
      (λ h.
        if_cases (λ (r : Engine × List Delivery). r.0.silences ≡ e.silences)
          (silenced (mark_open e a) now a) (λ k. refl)
          (λ k. send_all-silences (mark_open e a) now a (e.resolve a)))

dispatch_all-silences :
    (e : Engine) (now : ℕ) (as' : List Alert) → (dispatch_all e now as').0.silences ≡ e.silences
unfolding dispatch_all dispatch
dispatch_all-silences e now [] = refl
dispatch_all-silences e now (a ∷ as') =
    dispatch_all-silences (dispatch e now a).0 now as' ∙ route-silences e now _

release_all-silences :
    (e : Engine) (now : ℕ) (hs : List (String × Alert))
    → (release_all e now hs).0.silences ≡ e.silences
unfolding release_all release_one
release_all-silences e now [] = refl
release_all-silences e now ((key, a) ∷ hs) =
    release_all-silences (release_one e now (key, a)).0 now hs
    ∙ if_cases (λ (r : Engine × List Alert). r.0.silences ≡ e.silences) (silenced e now a)
        (λ h. refl) (λ h. refl)

pub release_held-silences : (e : Engine) (now : ℕ) → (release_held e now).0.silences ≡ e.silences
unfolding release_held
release_held-silences e now =
    dispatch_all-silences (release_all e now e.held).0 now _ ∙ release_all-silences e now e.held

-- Each silence stands under its own id.
abbrev pub AreKeyed : GoMap String Silence → Type 0
AreKeyed m = All (λ p. p.1.id ≡ p.0) m

pub insert-AreKeyed :
    (s : Silence) (id : String) (m : GoMap String Silence)
    → s.id ≡ id
    → AreKeyed m
    → AreKeyed (insert id s m)
unfolding insert
insert-AreKeyed s id [] h k = (h, tt)
insert-AreKeyed s id ((j, t) ∷ m) h k =
    if_cases AreKeyed (j == id) (λ e. (h, k.1)) (λ e. (k.0, insert-AreKeyed s id m h k.1))

pub insert-IsMap :
    (s : Silence) (id : String) (m : GoMap String Silence) → IsMap m → IsMap (insert id s m)
unfolding insert IsMap lookup
insert-IsMap s id [] h = (refl, tt)
insert-IsMap s id ((j, t) ∷ m) h =
    if_cases IsMap (j == id) (λ e. (ground (arith, string_eq.beq_iff j id, h.0), h.1))
      (λ e. (
        ground (arith, lookup-insert id j s m, string_eq.beq_iff id j, string_eq.beq_iff j id, h.0),
        insert-IsMap s id m h.1,
      ))

none_of_member : (id : String) (m : GoMap String Silence) → member id m ≡ false → lookup id m ≡ none
none_of_member id m h = elim (Option-cases (lookup id m)) [ inl e ↦ e | inr (t, e) ↦ cc ]

find-placed :
    (id : String) (s : Silence) (ss : List Silence)
    → find s.id ss ≡ none
    → find id (placed s ss) ≡ (if s.id == id then some s else find id ss)
unfolding find placed
find-placed id s [] h = refl
find-placed id s (t ∷ ts) h = ground (
  arith,
  find-placed id s ts,
  string_eq.beq_iff s.id id,
  string_eq.beq_iff t.id id,
  string_eq.beq_iff t.id s.id,
)

-- The list that is shown has what the map has.
pub find-newest_first :
    (id : String) (m : GoMap String Silence)
    → IsMap m
    → AreKeyed m
    → find id (newest_first m) ≡ lookup id m
unfolding find newest_first lookup IsMap
find-newest_first id [] h k = refl
find-newest_first id ((j, s) ∷ m) h k =
    let same : s.id ≡ j = k.0 in
    let alone : find s.id (newest_first m) ≡ none =
      find-newest_first s.id m h.1 k.1 ∙ (ap (λ i. lookup i m) same ∙ none_of_member j m h.0) in
    find-placed id s (newest_first m) alone
    ∙ (ap (λ i. if i == id then some s else find id (newest_first m)) same
        ∙ ap (λ o. if j == id then some s else o) (find-newest_first id m h.1 k.1))
