-- ===== src/Notifiers/Telegram/Runs.antt =====
-- Runs of the Telegram notifier, against the set of what was raised and not resolved, and what becomes
-- of a resolve that is sent again.
use cometduty.Prelude.{
  ℕ, ◌≤◌, Bool, true, false, List, [], ◌∷◌, String, Option, none, some, ◌≡◌, refl, ◌∙◌, arith,
  if◌then◌else◌, ◌&&◌, ◌==◌, string_eq, eqb, not, All, Option-cases, inl, inr, ap, beq_refl,
  if_true, if_false,
}
use cometduty.Prelude.Int.{pos}
use cometduty.Prelude.Maps.{lookup}
use cometduty.Prelude.Time.{is_zero}
use cometduty.Alert.{Alert}
use cometduty.Alert.Engine.{Delivery}
use cometduty.Alert.Engine.Stored.{fire}
use cometduty.Config.{TelegramConfig}
use cometduty.Notifiers.Telegram.{
  Telegram, send_card, send_reminder, send_resolve, clear_cond, group_key, at_time,
}
use cometduty.Notifiers.Telegram.BotApi.{Bot, BotCall, post}
use cometduty.Notifiers.Telegram.Cards.{TgCond, TgCard, open_at}
use cometduty.Notifiers.Telegram.Groups.{IsPlain, same_card, group_key-same_card}
use cometduty.Notifiers.Telegram.Opens.{opens, opens-some, one_if}
use cometduty.Notifiers.Telegram.Shown.{opens_of, send_resolve-opens, send_raise-opens}

-- An alert that is sent, with its configuration and what the wall clock shows.
pub record Message : Type 0 where
  pub wall : ℕ
  pub cfg : TelegramConfig
  pub alert : Alert

unfoldable pub run : Bot → List Message → Telegram → Telegram
run bot [] t = t
run bot (m ∷ ms) t = run bot ms (send_card bot m.wall m.cfg m.alert t).0

-- Whether a condition under a card's key was raised last, and not resolved.
abbrev raised_under : String → String → List Message → Bool → Bool
raised_under g key [] b = b
raised_under g key (m ∷ ms) b = raised_under g key ms (
    if not m.alert.reminder && (group_key m.cfg m.alert == g && m.alert.key == key)
    then not m.alert.resolved
    else b)

abbrev pub HasClock : Message → Type 0
HasClock m = is_zero m.wall ≡ false

-- The first message of a card, or its plain version, always gets through.
abbrev pub Posts : Bot → TelegramConfig → Type 0
Posts bot c = (text : String) (calls : List BotCall) → (post bot c text (pos 0) calls).0.1 ≡ none

at_time-HasClock : (wall : ℕ) (a : Alert) → is_zero wall ≡ false → is_zero (at_time wall a) ≡ false
unfolding at_time
at_time-HasClock wall a h = ground arith

reminder-cards :
    (bot : Bot) (wall : ℕ) (c : TelegramConfig) (gk : String) (now : ℕ) (a : Alert) (t : Telegram)
    (card : Option _)
    → (send_reminder bot wall c gk now a t card).0.cards ≡ t.cards
unfolding send_reminder
reminder-cards bot wall c gk now a t none = refl
reminder-cards bot wall c gk now a t (some card) = refl

send_card-opens :
    (bot : Bot) (m : Message) (t : Telegram) (g key : String) (b : Bool)
    → Posts bot m.cfg
    → HasClock m
    → opens_of key (lookup g t.cards) ≡ one_if b
    → opens_of key (lookup g (send_card bot m.wall m.cfg m.alert t).0.cards)
      ≡ one_if (raised_under g key (m ∷ []) b)
unfolding send_card
send_card-opens bot m t g key b ok hw h =
    let gk = group_key m.cfg m.alert in
    let now = at_time m.wall m.alert in
    ground (
      arith,
      reminder-cards bot m.wall m.cfg gk now m.alert t (lookup gk t.cards),
      send_resolve-opens bot m.wall m.cfg gk now m.alert t g key
          (at_time-HasClock m.wall m.alert hw),
      send_raise-opens bot m.wall m.cfg gk now m.alert t g key ok,
    )

runs :
    (bot : Bot) (g key : String) (ms : List Message) (t : Telegram) (b : Bool)
    → All (λ m. Posts bot m.cfg) ms
    → All HasClock ms
    → opens_of key (lookup g t.cards) ≡ one_if b
    → opens_of key (lookup g (run bot ms t).cards) ≡ one_if (raised_under g key ms b)
unfolding run
runs bot g key [] t b ok clock h = h
runs bot g key (m ∷ ms) t b ok clock h =
    runs bot g key ms _ _ ok.1 clock.1 (send_card-opens bot m t g key b ok.0 clock.0 h)

-- Whether a condition of the card of an alert was raised last, and not resolved; reminders do not
-- count.
abbrev pub raised_last : TelegramConfig → Alert → String → List Message → Bool → Bool
raised_last c a key [] b = b
raised_last c a key (m ∷ ms) b = raised_last c a key ms (
    if not m.alert.reminder && (same_card m.cfg m.alert c a && m.alert.key == key)
    then not m.alert.resolved
    else b)

abbrev pub AllPlain : List Message → Type 0
AllPlain ms = All (λ m. IsPlain m.cfg m.alert) ms

under-last :
    (c : TelegramConfig) (a : Alert) (key : String) (ms : List Message) (b : Bool)
    → IsPlain c a
    → AllPlain ms
    → raised_under (group_key c a) key ms b ≡ raised_last c a key ms b
under-last c a key [] b h k = refl
under-last c a key (m ∷ ms) b h (k, ks) =
    ap
      (λ same.
        raised_under (group_key c a) key ms (
          if not m.alert.reminder && (same && m.alert.key == key) then not m.alert.resolved else b))
      (group_key-same_card m.cfg c m.alert a k h)
    ∙ under-last c a key ms _ h ks

-- Over any run of raises, resolves and reminders, of any configurations and at times that are not Go's
-- zero, from a notifier without cards: of the card of any alert, the notifier keeps as open just the
-- conditions that were raised last and not resolved, each key once. Two alerts share a card when they
-- have one channel and one node of one chain, or one key without a node. The channels, the chains' ids
-- and the keys are taken to have no bar, and the first message of a card to get through; edits and
-- replies may fail, and what a failed edit leaves on the posted card is not what is counted here.
pub run-raised_last :
    (bot : Bot) (ms : List Message) (t : Telegram) (c : TelegramConfig) (a : Alert) (key : String)
    → t.cards ≡ []
    → All (λ m. Posts bot m.cfg) ms
    → All HasClock ms
    → AllPlain ms
    → IsPlain c a
    → opens_of key (lookup (group_key c a) (run bot ms t).cards)
      ≡ one_if (raised_last c a key ms false)
unfolding lookup
run-raised_last bot ms t c a key e ok clock plain h =
    runs bot (group_key c a) key ms t false ok clock (rw e none_open)
    ∙ ap one_if (under-last c a key ms false h plain)
  where
    none_open : opens_of key (lookup (group_key c a) []) ≡ 0
    none_open = refl

open_at-none : (key : String) (xs : List TgCond) → opens key xs ≡ 0 → open_at key xs ≡ none
open_at-none key xs h = elim (Option-cases (open_at key xs)) [
  | inl e ↦ e
  | inr (i, e) ↦ absurd (omega (arith, opens-some key xs i e))
]

-- A resolve of what is not open.
send_card_idle :
    (bot : Bot) (wall : ℕ) (c : TelegramConfig) (a : Alert) (t : Telegram)
    → a.resolved ≡ true
    → a.reminder ≡ false
    → opens_of a.key (lookup (group_key c a) t.cards) ≡ 0
    → send_card bot wall c a t ≡ (t, none)
unfolding send_card send_resolve
send_card_idle bot wall c a t hr hm h =
    if_false _ a.reminder hm ∙ (if_true _ a.resolved hr ∙ idle (lookup (group_key c a) t.cards) h)
  where
    idle :
        (card : Option TgCard)
        → opens_of a.key card ≡ 0
        → send_resolve bot wall c (group_key c a) (at_time wall a) a t card ≡ (t, none)
    idle none h = refl
    idle (some card) h =
        ap (λ i. clear_cond bot wall c (group_key c a) (at_time wall a) a t card i)
          (open_at-none a.key card.conds h)

left_open :
    (bot : Bot) (wall : ℕ) (c : TelegramConfig) (a : Alert) (t : Telegram)
    → is_zero wall ≡ false
    → a.resolved ≡ true
    → a.reminder ≡ false
    → opens_of a.key (lookup (group_key c a) t.cards) ≤ 1
    → opens_of a.key (lookup (group_key c a) (send_card bot wall c a t).0.cards) ≡ 0
unfolding send_card
left_open bot wall c a t hw hr hm once =
    let gk = group_key c a in
    let now = at_time wall a in
    ground (
      arith,
      beq_refl gk,
      beq_refl a.key,
      send_resolve-opens bot wall c gk now a t gk a.key (at_time-HasClock wall a hw),
    )

-- What `fire` makes of a second send that succeeds.
fire_second :
    (first : Option String) (d : Delivery)
    → (fire (λ n. if eqb n 1 then first else none) false d).err ≡ none
unfolding fire
fire_second none d = refl
fire_second (some e) d = refl

-- A resolve that is sent again, after the notifier returned an error or not, does nothing and succeeds:
-- so what `fire` reports of a resolve is success, whatever became of the edit and the reply.
pub resolve-fire :
    (bot : Bot) (wall later : ℕ) (c : TelegramConfig) (a : Alert) (t : Telegram) (d : Delivery)
    → is_zero wall ≡ false
    → a.resolved ≡ true
    → a.reminder ≡ false
    → opens_of a.key (lookup (group_key c a) t.cards) ≤ 1
    → let first = send_card bot wall c a t in
      let second = send_card bot later c a first.0 in
      (second ≡ (first.0, none))
      × ((fire (λ n. if eqb n 1 then first.1 else second.1) false d).err ≡ none)
resolve-fire bot wall later c a t d hw hr hm once =
    let first = send_card bot wall c a t in
    let gone = left_open bot wall c a t hw hr hm once in
    let second = send_card_idle bot later c a first.0 hr hm gone in
    (second, rw second (fire_second first.1 d))
