-- ===== src/Notifiers/Payloads/Incidents.antt =====
-- Which incident a PagerDuty event of internal/alert/notifiers/pagerduty.go closes.
use cometduty.Prelude.{
  Bool, true, false, String, Option, none, some, ◌≡◌, ◌↔◌, refl, sym, ap, ◌∙◌, arith, eqb, ◌==◌,
  string_eq, if◌then◌else◌,
}
use cometduty.Alert.{Alert}
use cometduty.Config.{PagerdutyConfig}
use cometduty.Notifiers.Payloads.{PdEvent, Body, pd_event, Prepared, refused, posts, send_pagerduty}
use Prim.Native.Char.{code}
use Prim.Native.String.{◌++◌ as ◌<>◌}
use text.Mathlib.TextEquality.{eq_iff}
use text.Mathlib.TextLemmas.{nil-append, cons-append}

-- A text without the character that parts the chain from the key.
abbrev pub HasNoBar : String → Type 0
HasNoBar String.[] = Unit
HasNoBar (String.◌∷◌ a s) = (eqb (code a) b'|' ≡ false) × HasNoBar s

pub barred : (u : String) → "" <> ("|" <> u) ≡ String.◌∷◌ "|" u
barred u =
    nil-append ("|" <> u) ∙ (cons-append "|" "" u ∙ ap (λ s. String.◌∷◌ "|" s) (nil-append u))

pub cut_at_bar :
    (s t u v : String)
    → HasNoBar s
    → HasNoBar t
    → s <> ("|" <> u) ≡ t <> ("|" <> v)
    → (s ≡ t) × (u ≡ v)
cut_at_bar String.[] String.[] u v hs ht e =
    let same : String.◌∷◌ "|" u ≡ String.◌∷◌ "|" v = sym (barred u) ∙ (e ∙ barred v) in (refl, cc)
cut_at_bar String.[] (String.◌∷◌ b t) u v hs ht e =
    let same : String.◌∷◌ "|" u ≡ String.◌∷◌ b (t <> ("|" <> v)) =
      sym (barred u) ∙ (e ∙ cons-append b t _) in
    let bar : b ≡ "|" = cc in cc (sym ht.0 ∙ ap (λ x. eqb (code x) b'|') bar)
cut_at_bar (String.◌∷◌ a s) String.[] u v hs ht e =
    let same : String.◌∷◌ a (s <> ("|" <> u)) ≡ String.◌∷◌ "|" v =
      sym (cons-append a s _) ∙ (e ∙ barred v) in
    let bar : a ≡ "|" = cc in cc (sym hs.0 ∙ ap (λ x. eqb (code x) b'|') bar)
cut_at_bar (String.◌∷◌ a s) (String.◌∷◌ b t) u v hs ht e =
    let same : String.◌∷◌ a (s <> ("|" <> u)) ≡ String.◌∷◌ b (t <> ("|" <> v)) =
      sym (cons-append a s _) ∙ (e ∙ cons-append b t _) in
    let heads : a ≡ b = cc in
    let (k, l) = cut_at_bar s t u v hs.1 ht.1 cc in ((λ i. String.◌∷◌ (heads i) (k i)), l)

abbrev event_of : Prepared → Option PdEvent
event_of (refused e) = none
event_of (posts p) = body_event p.body
  where
    body_event : Body → Option PdEvent
    body_event (pd_event e) = some e
    body_event _ = none

-- The first event resolves the incident that the second triggers, as the Events API matches them: the
-- same routing key and the same dedup key.
abbrev Meets : Option PdEvent → Option PdEvent → Type 0
Meets none e = ⊥
Meets (some d) none = ⊥
Meets (some d) (some e) =
    (d.event_action ≡ "resolve")
    × (e.event_action ≡ "trigger")
    × (d.routing_key ≡ e.routing_key)
    × (d.dedup_key ≡ e.dedup_key)

abbrev pub Closes : Prepared → Prepared → Type 0
Closes p q = Meets (event_of p) (event_of q)

-- With a routing key, and chains without a bar in their names, an event closes the incident that the
-- alert `a` raised exactly if its own alert is a resolve of the same key on the same chain.
pub send_pagerduty-Closes :
    (c : PagerdutyConfig) (a b : Alert)
    → (c.api_key == "") ≡ false
    → HasNoBar a.chain
    → HasNoBar b.chain
    → a.resolved ≡ false
    → Closes (send_pagerduty c b) (send_pagerduty c a)
      ↔ ((b.resolved ≡ true) × (b.chain ≡ a.chain) × (b.key ≡ a.key))
unfolding send_pagerduty
send_pagerduty-Closes c a b hc ha hb hr =
    rw (hc, hr)
      (
        λ m. (
          resolves b.resolved m.0,
          (cut_at_bar b.chain a.chain b.key a.key hb ha m.3).0,
          (cut_at_bar b.chain a.chain b.key a.key hb ha m.3).1,
        ),
        λ (r, k, l).
            (ap (λ x. if x then "resolve" else "trigger") r, refl, refl, λ i. k i <> ("|" <> l i)),
      )
  where
    resolves :
        (x : Bool) → ◌≡◌ {A = String} (if x then "resolve" else "trigger") "resolve" → x ≡ true
    resolves true h = refl
    resolves false h = ground (arith, eq_iff "trigger" "resolve")
