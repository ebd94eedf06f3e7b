-- ===== src/Alert/Engine/Dedup.antt =====
-- What a destination sees of `shouldSend` and `Dispatch`: raises and resolves in turn.
use cometduty.Prelude.{ℕ, Bool, true, false, List, [], ◌∷◌, ◌++◌, String}
use cometduty.Prelude.{◌==◌, string_eq, if◌then◌else◌, not, ◌&&◌, ◌≡◌, refl, sym, ap, ◌∙◌, arith}
use cometduty.Prelude.Maps.{insert, erase, member, lookup-insert, lookup-erase}
use cometduty.Alert.{Alert, ResolvedDest, SentEntry}
use cometduty.Alert.Engine.{Engine, Delivery, inner, should_send, send_one, send_all}
use cometduty.Alert.Engine.{route, dispatch, silenced, mark_open, mark_resolved, hold}

-- Whether a destination kind holds an open alert under a key.
abbrev pub open_at : Engine → String → String → Bool
open_at e kind key = member key (inner kind e.sent)

module _ (e : Engine) (now : ℕ) (kind : String) (a : Alert) where
  -- What is sent is what changes, and it changes the one entry to what the alert says.
  pub open_at-should_send :
      (k j : String)
      → open_at (should_send e now kind a).0 k j ≡ (
          if (should_send e now kind a).1 && kind == k && a.key == j
          then not a.resolved
          else open_at e k j)
  unfolding should_send
  open_at-should_send k j =
      let s = inner kind e.sent in
      let entry : SentEntry = record { alert = a; when = now } in
      let sent = insert kind s e.sent in
      ground (
        arith,
        string_eq.beq_iff kind k,
        string_eq.beq_iff a.key j,
        lookup-insert kind k s e.sent,
        lookup-insert kind k (erase a.key s) sent,
        lookup-insert kind k (insert a.key entry s) sent,
        lookup-erase a.key j s,
        lookup-insert a.key j entry s,
      )

  pub should_send_pairs : (should_send e now kind a).1 ≡ true → open_at e kind a.key ≡ a.resolved
  unfolding should_send
  should_send_pairs h = ground arith

-- The `resolved` flags of what a destination kind was sent under a key, in order.
unfoldable pub notices : String → String → List Delivery → List Bool
notices k j [] = []
notices k j (d ∷ ds) =
    if d.notifier == k && d.alert.key == j
    then d.alert.resolved ∷ notices k j ds
    else notices k j ds

-- Raises and resolves in turn: the next notice is a resolve just when an alert is open.
abbrev pub Alternates : Bool → List Bool → Type 0
Alternates open? [] = Unit
Alternates open? (r ∷ rs) = (r ≡ open?) × Alternates (not r) rs

-- Whether an alert is open after the notices.
abbrev pub open_after : Bool → List Bool → Bool
open_after open? [] = open?
open_after open? (r ∷ rs) = open_after (not r) rs

pub notices-append :
    (k j : String) (xs ys : List Delivery)
    → notices k j (xs ++ ys) ≡ notices k j xs ++ notices k j ys
unfolding notices
notices-append k j [] ys = refl
notices-append k j (d ∷ xs) ys = ground (arith, notices-append k j xs ys)

Alternates-append :
    (o : Bool) (xs ys : List Bool)
    → Alternates o xs
    → Alternates (open_after o xs) ys
    → Alternates o (xs ++ ys)
Alternates-append o [] ys h g = g
Alternates-append o (r ∷ xs) ys h g = (h.0, Alternates-append (not r) xs ys h.1 g)

open_after-append :
    (o : Bool) (xs ys : List Bool) → open_after o (xs ++ ys) ≡ open_after (open_after o xs) ys
open_after-append o [] ys = refl
open_after-append o (r ∷ xs) ys = open_after-append (not r) xs ys

-- A step from one engine to another paired its notices, at one destination kind and key.
pub record Paired (k j : String) (e e' : Engine) (out : List Delivery) : Type 0 where
  pub alternates : Alternates (open_at e k j) (notices k j out)
  pub tracks : open_at e' k j ≡ open_after (open_at e k j) (notices k j out)

module _ (k j : String) where
  -- Steps in a row.
  pub Paired-append :
      (e e' e'' : Engine) (xs ys : List Delivery)
      → Paired k j e e' xs
      → Paired k j e' e'' ys
      → Paired k j e e'' (xs ++ ys)
  Paired-append e e' e'' xs ys p q = record {
    alternates =
        rw (notices-append k j xs ys)
          (Alternates-append _ (notices k j xs) _ p.alternates (rw p.tracks at q.alternates));
    tracks =
        q.tracks
        ∙ rw (p.tracks, notices-append k j xs ys)
            (sym (open_after-append _ (notices k j xs) (notices k j ys)));
  }

  -- A step that sends nothing and keeps what is sent.
  pub Paired-quiet : (e e' : Engine) → e'.sent ≡ e.sent → Paired k j e e' []
  unfolding notices
  Paired-quiet e e' h = record { alternates = tt; tracks = ap (λ s. member j (inner k s)) h }

  send_one-Paired :
      (e : Engine) (now : ℕ) (a : Alert) (d : ResolvedDest)
      → Paired k j e (send_one e now a d).0 (send_one e now a d).1
  unfolding send_one notices
  send_one-Paired e now a d = ground (
    arith,
    open_at-should_send e now d.kind a k j,
    should_send_pairs e now d.kind a,
    string_eq.beq_iff d.kind k,
    string_eq.beq_iff a.key j,
  )

  pub send_all-Paired :
      (e : Engine) (now : ℕ) (a : Alert) (ds : List ResolvedDest)
      → Paired k j e (send_all e now a ds).0 (send_all e now a ds).1
  unfolding send_all
  send_all-Paired e now a [] = Paired-quiet e e refl
  send_all-Paired e now a (d ∷ ds) =
      Paired-append e _ _ (send_one e now a d).1 _ (send_one-Paired e now a d)
        (send_all-Paired (send_one e now a d).0 now a ds)

  Paired-if :
      (e : Engine) (b : Bool) (x y : Engine × List Delivery)
      → Paired k j e x.0 x.1
      → Paired k j e y.0 y.1
      → Paired k j e (if b then x else y).0 (if b then x else y).1
  Paired-if e true x y p q = p
  Paired-if e false x y p q = q

  -- A step that keeps what is sent, and then the destinations in turn.
  then_send_all :
      (e e' : Engine) (now : ℕ) (a : Alert)
      → e'.sent ≡ e.sent
      → Paired k j e (send_all e' now a (e.resolve a)).0 (send_all e' now a (e.resolve a)).1
  then_send_all e e' now a h =
      Paired-append e e' _ [] _ (Paired-quiet e e' h) (send_all-Paired e' now a (e.resolve a))

  route-Paired :
      (e : Engine) (now : ℕ) (a : Alert) → Paired k j e (route e now a).0 (route e now a).1
  unfolding route mark_open mark_resolved hold
  route-Paired e now a =
      Paired-if e a.resolved _ _ (then_send_all e (mark_resolved e a) now a refl) (
        Paired-if e (silenced (mark_open e a) now a) _ _ (Paired-quiet e _ refl)
          (then_send_all e (mark_open e a) now a refl))

  pub dispatch-Paired :
      (e : Engine) (now : ℕ) (a : Alert) → Paired k j e (dispatch e now a).0 (dispatch e now a).1
  unfolding dispatch
  dispatch-Paired e now a = route-Paired e now _
