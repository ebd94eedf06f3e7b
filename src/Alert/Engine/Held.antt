-- ===== src/Alert/Engine/Held.antt =====
-- Which alerts the engine goes on holding after `releaseHeld`.
use cometduty.Prelude.{
  ℕ, true, false, List, [], ◌∷◌, String, Option, none, some, ◌≡◌, refl, sym, ap, ◌∙◌, arith,
}
use cometduty.Prelude.{
  if◌then◌else◌, if_cases, if_true, if_false, any, not, ◌&&◌, All, All-mono, string_eq, ◌<◌, ◌==◌,
}
use cometduty.Prelude.Maps.{GoMap, lookup, member, IsMap, insert, lookup-insert}
use cometduty.Alert.{Alert, ResolvedDest}
use cometduty.Alert.Silence.{Silence, mutes, label_set}
use cometduty.Alert.Engine.{
  Engine, Delivery, should_send, send_one, send_all, mark_open, silenced, route, dispatch, filled,
  inner, hold,
}
use cometduty.Alert.Engine.Silences.{release_all, release_one, dispatch_all, release_held}
use cometduty.Alert.Engine.Release.{
  due_of, release_all-due_of, held-release_all, freed, silences-release_one,
}
use cometduty.Alert.Engine.Filled.{filled-filled, resolved-filled}
use mathlib.Core.Path.{subst}

-- The silences and the held alerts are the same.
abbrev IsSame : Engine → Engine → Type 0
IsSame e e' = (e'.silences ≡ e.silences) × (e'.held ≡ e.held)

should_send-IsSame :
    (e : Engine) (now : ℕ) (kind : String) (a : Alert) → IsSame e (should_send e now kind a).0
unfolding should_send
should_send-IsSame e now kind a = ground arith

send_one-IsSame :
    (e : Engine) (now : ℕ) (a : Alert) (d : ResolvedDest) → IsSame e (send_one e now a d).0
unfolding send_one
send_one-IsSame e now a d =
    if_cases (λ (r : Engine × List Delivery). IsSame e r.0) (any (λ k. k == d.kind) e.notifiers)
      (λ h. should_send-IsSame e now d.kind a) (λ h. (refl, refl))

send_all-IsSame :
    (e : Engine) (now : ℕ) (a : Alert) (ds : List ResolvedDest) → IsSame e (send_all e now a ds).0
unfolding send_all
send_all-IsSame e now a [] = (refl, refl)
send_all-IsSame e now a (d ∷ ds) =
    let (s, h) = send_one-IsSame e now a d in
    let (s', h') = send_all-IsSame (send_one e now a d).0 now a ds in (s' ∙ s, h' ∙ h)

-- An alert as `Dispatch` holds it: a raise, with all filled in.
abbrev pub IsFilled : ℕ → Alert → Type 0
IsFilled now a = (a.resolved ≡ false) × (filled now a ≡ a)

route-IsSame :
    (e : Engine) (now : ℕ) (a : Alert)
    → a.resolved ≡ false
    → silenced e now a ≡ false
    → IsSame e (route e now a).0
unfolding route mark_open silenced
route-IsSame e now a r s =
    subst (λ (p : Engine × List Delivery). IsSame e p.0)
      (sym (if_false _ a.resolved r ∙ if_false _ _ s))
      (send_all-IsSame (mark_open e a) now a (e.resolve a))

dispatch-IsSame :
    (e : Engine) (now : ℕ) (a : Alert)
    → IsFilled now a
    → silenced e now a ≡ false
    → IsSame e (dispatch e now a).0
unfolding dispatch
dispatch-IsSame e now a (r, f) s =
    subst (λ b. IsSame e (route e now b).0) (sym f) (route-IsSame e now a r s)

silenced-same :
    (e e' : Engine) (now : ℕ) (a : Alert)
    → e'.silences ≡ e.silences
    → silenced e' now a ≡ silenced e now a
unfolding silenced
silenced-same e e' now a h = ap (any (λ s. mutes s.1 (label_set a) now)) h

abbrev IsDue : Engine → ℕ → Alert → Type 0
IsDue e now a = IsFilled now a × (silenced e now a ≡ false)

dispatch_all-IsSame :
    (e e' : Engine) (now : ℕ) (as' : List Alert)
    → IsSame e e'
    → All (IsDue e now) as'
    → IsSame e (dispatch_all e' now as').0
unfolding dispatch_all
dispatch_all-IsSame e e' now [] h k = h
dispatch_all-IsSame e e' now (a ∷ as') (s, h) ((f, u), ks) =
    let (s', h') = dispatch-IsSame e' now a f (silenced-same e e' now a s ∙ u) in
    dispatch_all-IsSame e (dispatch e' now a).0 now as' (s' ∙ s, h' ∙ h) ks

due_of-IsDue :
    (e : Engine) (now : ℕ) (hs : List (String × Alert))
    → All (λ h. IsFilled now h.1) hs
    → All (IsDue e now) (due_of e now hs)
unfolding due_of
due_of-IsDue e now [] k = tt
due_of-IsDue e now ((key, a) ∷ hs) (f, k) =
    if_cases (All (IsDue e now)) (not (silenced e now a) && member key (inner a.chain e.active))
      (λ h. ((f, ground arith), due_of-IsDue e now hs k)) (λ h. due_of-IsDue e now hs k)

release_all-silences :
    (e : Engine) (now : ℕ) (hs : List (String × Alert))
    → (release_all e now hs).0.silences ≡ e.silences
unfolding release_all
release_all-silences e now [] = refl
release_all-silences e now (h ∷ hs) =
    release_all-silences (release_one e now h).0 now hs ∙ (silences-release_one e now h).0

-- A held alert is kept while an active silence mutes it.
abbrev pub still : Engine → ℕ → Option Alert → Option Alert
still e now none = none
still e now (some a) = if silenced e now a then some a else none

freed-absent :
    (e : Engine) (now : ℕ) (k : String) (m : GoMap String Alert)
    → member k m ≡ false
    → freed e now k m ≡ false
unfolding lookup
freed-absent e now k [] h = refl
freed-absent e now k ((j, a) ∷ m) h = ground (arith, freed-absent e now k m)

freed-still :
    (e : Engine) (now : ℕ) (k : String) (m : GoMap String Alert)
    → IsMap m
    → (if freed e now k m then none else lookup k m) ≡ still e now (lookup k m)
unfolding lookup IsMap
freed-still e now k [] h = refl
freed-still e now k ((j, a) ∷ m) h = ground (
  arith,
  string_eq.beq_iff j k,
  freed-absent e now k m,
  ap (λ i. member i m),
  freed-still e now k m h.1,
)

-- `releaseHeld` goes on holding, of what was held, just what an active silence mutes, whatever it
-- sends of the others. The held alerts are taken to be a map of raises, with all filled in.
pub release_held-still :
    (e : Engine) (now : ℕ) (k : String)
    → IsMap e.held
    → All (λ h. IsFilled now h.1) e.held
    → lookup k (release_held e now).0.held ≡ still e now (lookup k e.held)
unfolding release_held
release_held-still e now k h f =
    let e' = (release_all e now e.held).0 in
    let same = release_all-silences e now e.held in
    let due =
      subst (All (IsDue e now)) (sym (release_all-due_of e now e.held))
        (due_of-IsDue e now e.held f) in
    let due' =
      All-mono (IsDue e now) (IsDue e' now) (λ a (d, u). (d, silenced-same e e' now a same ∙ u))
        (release_all e now e.held).1 due in
    let (_, kept) = dispatch_all-IsSame e' e' now (release_all e now e.held).1 (refl, refl) due' in
    ap (lookup k) kept ∙ held-release_all e now k e.held ∙ freed-still e now k e.held h

hold-IsMap : (a : Alert) (key : String) (m : GoMap String Alert) → IsMap m → IsMap (insert key a m)
unfolding insert IsMap lookup
hold-IsMap a key [] h = (refl, tt)
hold-IsMap a key ((j, t) ∷ m) h =
    if_cases IsMap (j == key) (λ e. (ground (arith, string_eq.beq_iff j key, h.0), h.1))
      (λ e. (
        ground
            (arith, lookup-insert key j a m, string_eq.beq_iff key j, string_eq.beq_iff j key, h.0),
        hold-IsMap a key m h.1,
      ))

hold-IsFilled :
    (now : ℕ) (a : Alert) (key : String) (m : GoMap String Alert)
    → IsFilled now a
    → All (λ h. IsFilled now h.1) m
    → All (λ h. IsFilled now h.1) (insert key a m)
unfolding insert
hold-IsFilled now a key [] f h = (f, tt)
hold-IsFilled now a key ((j, b) ∷ m) f h =
    if_cases (All (λ h. IsFilled now h.1)) (j == key) (λ e. (f, h.1))
      (λ e. (h.0, hold-IsFilled now a key m f h.1))

held-dispatch :
    (e : Engine) (now : ℕ) (a : Alert)
    → a.resolved ≡ false
    → silenced e now (filled now a) ≡ true
    → dispatch e now a ≡ (hold (mark_open e (filled now a)) (filled now a), [])
unfolding dispatch route silenced mark_open
held-dispatch e now a r s = if_false _ _ (resolved-filled now a ∙ r) ∙ if_true _ _ s

-- A raise that an active silence mutes is sent to nobody, and leaves what was sent as it was; and at
-- the next `releaseHeld`, whatever the silences are by then, the engine goes on holding it, under its
-- key, just where one of them mutes it, and likewise each alert that was held before. The held alerts
-- are taken to be a map of raises, with all filled in.
pub dispatch-held :
    (e : Engine) (now later : ℕ) (a : Alert) (ss : GoMap String Silence) (k : String)
    → 0 < now
    → a.resolved ≡ false
    → silenced e now (filled now a) ≡ true
    → IsMap e.held
    → All (λ h. IsFilled later h.1) e.held
    → let f = filled now a in
      let e1 = (dispatch e now a).0 in
      let e2 = record e1 { silences = ss } in
      ((dispatch e now a).1 ≡ [])
      × (e1.sent ≡ e.sent)
      × (lookup k (release_held e2 later).0.held
          ≡ still e2 later (if f.key == k then some f else lookup k e.held))
unfolding hold mark_open
dispatch-held e now later a ss k z r s h fs =
    let eq = held-dispatch e now a r s in
    let f = filled now a in
    let held = hold (mark_open e f) f in
    let is_filled : IsFilled later f = (resolved-filled now a ∙ r, filled-filled now later a z) in
    (
      ap (λ p. p.1) eq,
      ap (λ p. p.0.sent) eq,
      subst
          (λ (p : Engine × List Delivery).
            lookup k (release_held (record p.0 { silences = ss }) later).0.held
            ≡ still (record p.0 { silences = ss }) later
                (if f.key == k then some f else lookup k e.held))
          (sym eq)
          (release_held-still (record held { silences = ss }) later k (hold-IsMap f f.key e.held h)
              (hold-IsFilled later f f.key e.held is_filled fs)
            ∙ ap (still (record held { silences = ss }) later) (lookup-insert f.key k f e.held)),
    )
