-- ===== src/Notifiers/Telegram/Groups.antt =====
-- Which alerts share a card.
use cometduty.Prelude.{
  Bool, true, false, String, ◌≡◌, refl, sym, ap, ◌∙◌, arith, ◌==◌, string_eq, if◌then◌else◌, ◌&&◌,
  eqb, Bool-cases, inl, inr,
}
use cometduty.Alert.{Alert}
use cometduty.Config.{TelegramConfig}
use cometduty.Notifiers.Telegram.{group_key, alert_node}
use cometduty.Notifiers.Payloads.Incidents.{HasNoBar, cut_at_bar, barred}
use Prim.Native.Char.{code}
use Prim.Native.String.{◌++◌ as ◌<>◌}
use text.Mathlib.TextLemmas.{cons-append}

-- The channel, the chain's id and the key have no bar.
abbrev pub IsPlain : TelegramConfig → Alert → Type 0
IsPlain c a = HasNoBar c.channel × HasNoBar a.chain_id × HasNoBar a.key

-- Two alerts share a card in one channel: those of one node of one chain, and those without a node
-- under one key.
abbrev pub same_card : TelegramConfig → Alert → TelegramConfig → Alert → Bool
same_card c a d b =
    c.channel == d.channel
    && (if alert_node a == ""
        then alert_node b == "" && a.key == b.key
        else alert_node a == alert_node b && a.chain_id == b.chain_id)

both_ways : (p q : Bool) → (p ≡ true → q ≡ true) → (q ≡ true → p ≡ true) → p ≡ q
both_ways true true f g = refl
both_ways false false f g = refl
both_ways true false f g = sym (f refl)
both_ways false true f g = g refl

beq_of : (s t : String) → s ≡ t → (s == t) ≡ true
beq_of s t = (string_eq.beq_iff s t).1

of_beq : (s t : String) → (s == t) ≡ true → s ≡ t
of_beq s t = (string_eq.beq_iff s t).0

joined_eq : (s t u v : String) → (s == t && u == v) ≡ true → s <> ("|" <> u) ≡ t <> ("|" <> v)
joined_eq s t u v e =
    let k : s ≡ t = of_beq s t (ground (arith, e)) in
    let l : u ≡ v = of_beq u v (ground (arith, e)) in λ i. k i <> ("|" <> l i)

beq-cut :
    (s t u v : String)
    → HasNoBar s
    → HasNoBar t
    → (s <> ("|" <> u) == t <> ("|" <> v)) ≡ (s == t && u == v)
beq-cut s t u v hs ht =
    both_ways (s <> ("|" <> u) == t <> ("|" <> v)) (s == t && u == v)
      (λ e.
        let (k, l) = cut_at_bar s t u v hs ht (of_beq _ _ e) in
        ground (arith, beq_of s t k, beq_of u v l))
      (λ e. beq_of _ _ (joined_eq s t u v e))

-- A text without a bar is none with one.
no_bar : (s t u : String) → HasNoBar s → s ≡ t <> ("|" <> u) → ⊥
no_bar String.[] String.[] u h e = let same : String.[] ≡ String.◌∷◌ "|" u = e ∙ barred u in cc
no_bar String.[] (String.◌∷◌ b t) u h e =
    let same : String.[] ≡ String.◌∷◌ b (t <> ("|" <> u)) = e ∙ cons-append b t _ in cc
no_bar (String.◌∷◌ a s) String.[] u h e =
    let same : String.◌∷◌ a s ≡ String.◌∷◌ "|" u = e ∙ barred u in
    let bar : a ≡ "|" = cc in cc (sym h.0 ∙ ap (λ x. eqb (code x) b'|') bar)
no_bar (String.◌∷◌ a s) (String.◌∷◌ b t) u h e =
    let same : String.◌∷◌ a s ≡ String.◌∷◌ b (t <> ("|" <> u)) = e ∙ cons-append b t _ in
    no_bar s t u h.1 cc

beq-bar : (s t u : String) → HasNoBar s → (s == t <> ("|" <> u)) ≡ false
beq-bar s t u h = elim (Bool-cases (s == t <> ("|" <> u))) [
  | inl e ↦ absurd (no_bar s t u h (of_beq _ _ e))
  | inr e ↦ e
]

bar-beq : (s t u : String) → HasNoBar s → (t <> ("|" <> u) == s) ≡ false
bar-beq s t u h = elim (Bool-cases (t <> ("|" <> u) == s)) [
  | inl e ↦ absurd (no_bar s t u h (sym (of_beq _ _ e)))
  | inr e ↦ e
]

-- What stands after the channel.
abbrev tail_of : Alert → String
tail_of a = if alert_node a == "" then a.key else a.chain_id <> ("|" <> alert_node a)

group_key-tail : (c : TelegramConfig) (a : Alert) → group_key c a ≡ c.channel <> ("|" <> tail_of a)
unfolding group_key
group_key-tail c a = ground arith

tail-same :
    (c d : TelegramConfig) (a b : Alert)
    → IsPlain c a
    → IsPlain d b
    → (tail_of a == tail_of b) ≡ (
        if alert_node a == ""
        then alert_node b == "" && a.key == b.key
        else alert_node a == alert_node b && a.chain_id == b.chain_id)
tail-same c d a b (ha, ka, la) (hb, kb, lb) =
    let both = beq-cut a.chain_id b.chain_id (alert_node a) (alert_node b) ka kb in
    let first = beq-bar a.key b.chain_id (alert_node b) la in
    let second = bar-beq b.key a.chain_id (alert_node a) lb in
    ground (arith, both, first, second, of_beq (alert_node a) (alert_node b))

-- Where they are plain, two alerts have one key for their card just when they share it.
pub group_key-same_card :
    (c d : TelegramConfig) (a b : Alert)
    → IsPlain c a
    → IsPlain d b
    → (group_key c a == group_key d b) ≡ same_card c a d b
group_key-same_card c d a b ha hb =
    (λ i. group_key-tail c a i == group_key-tail d b i)
    ∙ beq-cut c.channel d.channel (tail_of a) (tail_of b) ha.0 hb.0
    ∙ ap (λ e. c.channel == d.channel && e) (tail-same c d a b ha hb)
