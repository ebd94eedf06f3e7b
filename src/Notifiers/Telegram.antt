-- ===== src/Notifiers/Telegram.antt =====
-- internal/alert/notifiers/telegram.go: the notifier that keeps a card for each incident. `calls` is
-- what was sent to the Bot API so far, the latest first, and `file` what the cards' file holds.
pub mod Cards
pub mod Kinds
pub mod Rendering
pub mod BotApi
pub mod Opens
pub mod Shown
pub mod Groups
pub mod Runs
use cometduty.Prelude.{
  ℕ, ◌*◌, Bool, true, false, List, [], ◌∷◌, ◌++◌, String, Option, none, some, not, ◌&&◌, ◌||◌, ltb,
}
use cometduty.Prelude.{◌==◌, string_eq, if◌then◌else◌}
use cometduty.Prelude.Int.{ℤ, pos, sub_ℕ}
use cometduty.Prelude.Maps.{GoMap, lookup, insert, erase, or_zero}
use cometduty.Prelude.Text.{sprintf}
use cometduty.Prelude.Time.{is_zero, longer, hour, minute}
use cometduty.Alert.{Alert, DestConfig}
use cometduty.Config.{TelegramConfig}
use BotApi.{BotCall, Bot, post, reply_to, edit}
use Cards.{TgCond, TgCard, open_at, all_clear, worst, rank, update_at}
use Rendering.{headline, recovery_line, dur, tg_esc, title, plain, render, humanize}
use Prim.Native.String.{◌++◌ as ◌<>◌}

pub record Telegram : Type 0 where
  pub state_path : String
  pub cards : GoMap String TgCard
  pub loaded : Bool
  pub file : GoMap String TgCard
  pub calls : List BotCall

abbrev pub burst : ℤ
burst = pos (2 * minute)

-- The loop of `restore`: a card of more than a week is dropped.
unfoldable pub young : ℕ → GoMap String TgCard → GoMap String TgCard
young wall [] = []
young wall ((k, c) ∷ m) =
    let rest = young wall m in
    if longer wall c.opened (pos (7 * 24 * hour)) then rest else (k, c) ∷ rest

-- `t.load.Do(t.restore)`.
unfoldable pub restored : ℕ → Telegram → Telegram
unfolding young
restored wall t =
    if t.loaded
    then t
    else record t { loaded = true; cards = if t.state_path == "" then [] else young wall t.file }

-- `save`.
unfoldable pub save : Telegram → Telegram
save t = if t.state_path == "" then t else record t { file = t.cards }

-- `alertNode` and `chainOf`.
unfoldable pub alert_node : Alert → String
alert_node a = if a.node == "" then or_zero (lookup "profile" a.labels) "" else a.node

unfoldable pub chain_of : Alert → String
chain_of a = if a.chain_id == "" then a.chain else a.chain_id

-- The key of the card.
unfoldable pub group_key : TelegramConfig → Alert → String
group_key c a =
    if alert_node a == ""
    then c.channel <> ("|" <> a.key)
    else c.channel <> ("|" <> (a.chain_id <> ("|" <> alert_node a)))

unfoldable pub at_time : ℕ → Alert → ℕ
at_time wall a = if is_zero a.time then wall else a.time

abbrev pub clear_at : ℕ → TgCond → TgCond
clear_at now x = record x { cleared = now }

abbrev pub Sent : Type 0
Sent = Telegram × Option String

module _ (bot : Bot) (wall : ℕ) (c : TelegramConfig) (gk : String) (now : ℕ) (a : Alert) where
  abbrev pub new_cond : TgCond
  new_cond = record {
    key = a.key;
    kind = a.kind;
    severity = a.severity;
    raw = humanize bot.loopback a.message a.target (alert_node a);
    since = now;
    cleared = 0;
  }

  unfoldable pub send_reminder : Telegram → Option TgCard → Sent
  send_reminder t none = (t, none)
  send_reminder t (some card) =
      let (e, calls) =
        reply_to bot c card
          (sprintf "<b>%s</b>\nstill open after %s"
            (tg_esc (headline card) ∷ dur (sub_ℕ now card.opened) ∷ []))
          t.calls in
      (record t { calls = calls }, e)

  -- The card after its last condition has cleared.
  unfoldable pub close_card : Telegram → TgCard → Sent
  close_card t card =
      let (e, calls) =
        reply_to bot c card
          (sprintf "<b>%s</b>\n%s" (tg_esc (headline card) ∷ tg_esc (recovery_line card) ∷ []))
          t.calls in
      (save (record t { cards = erase gk t.cards; calls = calls }), e)

  after_clear : Telegram → TgCard → Option String → Sent
  after_clear t card (some e) = (t, some e)
  after_clear t card none = if all_clear card.conds then close_card t card else (save t, none)

  -- The edit of a card that has changed. The card is the map's own.
  unfoldable pub with_edit : Telegram → TgCard → Telegram × TgCard × Option String
  with_edit t card =
      let (card', e, calls) = edit bot c wall card t.calls in
      (record t { cards = insert gk card' t.cards; calls = calls }, card', e)

  clear_cond : Telegram → TgCard → Option ℕ → Sent
  unfolding after_clear
  clear_cond t card none = (t, none)
  clear_cond t card (some i) =
      let (t', card', e) =
        with_edit t (record card { conds = update_at i (clear_at now) card.conds }) in
      after_clear t' card' e

  unfoldable pub send_resolve : Telegram → Option TgCard → Sent
  unfolding clear_cond
  send_resolve t none = (t, none)
  send_resolve t (some card) = clear_cond t card (open_at a.key card.conds)

  new_card : Telegram → ℤ × Option String → List BotCall → TgCard → Sent
  new_card t (id, some e) calls card = (record t { calls = calls }, some e)
  new_card t (id, none) calls card = (
    save (record t { cards = insert gk (record card { msg_id = id }) t.cards; calls = calls }),
    none,
  )

  -- Worse than the card, and not part of the burst that opened it.
  unfoldable pub is_worse : TgCard → Bool
  is_worse card = ltb (worst card.conds) (rank a.severity) && longer now card.opened burst

  -- The reply that says so, where it is wanted.
  unfoldable pub announce : Bool → TgCard → List BotCall → Option String × List BotCall
  announce false card calls = (none, calls)
  announce true card calls =
      reply_to bot c card
        (sprintf "<b>%s</b>\n%s" (tg_esc (title a.kind card) ∷ tg_esc (plain a.kind) ∷ [])) calls

  -- The condition in its place, or a new one.
  unfoldable pub with_cond : Option ℕ → TgCard → TgCard
  with_cond (some i) card = record card { conds = update_at i (λ x. new_cond) card.conds }
  with_cond none card = record card { conds = card.conds ++ (new_cond ∷ []) }

  abbrev is_new : Option ℕ → Bool
  is_new none = true
  is_new (some i) = false

  after_announce : Telegram → TgCard → Option String → Sent
  after_announce t card (some e) = (t, some e)
  after_announce t card none = let (t', card', e) = with_edit t card in (save t', e)

  unfoldable pub send_raise : Telegram → Option TgCard → Sent
  unfolding new_card after_announce
  send_raise t none =
      let card : TgCard = record {
        msg_id = pos 0;
        channel = c.channel;
        node = alert_node a;
        chain_id = chain_of a;
        opened = now;
        conds = new_cond ∷ [];
      } in
      let (r, calls) = post bot c (render wall card c.mentions) (pos 0) t.calls in
      new_card t r calls card
  send_raise t (some card) =
      let i = open_at a.key card.conds in
      let card' = with_cond i card in
      let (e, calls) = announce (is_new i && is_worse card) card' t.calls in
      after_announce (record t { cards = insert gk card' t.cards; calls = calls }) card' e

-- `Send`, once the configuration is accepted.
unfoldable pub send_card : Bot → ℕ → TelegramConfig → Alert → Telegram → Sent
send_card bot wall c a t =
    let gk = group_key c a in
    let card = lookup gk t.cards in
    if a.reminder
    then send_reminder bot wall c gk (at_time wall a) a t card
    else if a.resolved
    then send_resolve bot wall c gk (at_time wall a) a t card
    else send_raise bot wall c gk (at_time wall a) a t card

unfoldable pub send_telegram : Bot → ℕ → TelegramConfig → Alert → Telegram → Sent
send_telegram bot wall c a t =
    if c.api_key == "" || c.channel == ""
    then (t, some "telegram api_key/channel not configured")
    else send_card bot wall c a (restored wall t)

-- `Send`.
unfoldable pub send : Bot → ℕ → DestConfig → Alert → Telegram → Sent
send bot wall (DestConfig.telegram c) a t = send_telegram bot wall c a t
send bot wall _ a t = (t, some "invalid telegram config")
