-- ===== src/Notifiers/Telegram/BotApi.antt =====
-- internal/alert/notifiers/telegram.go: the calls of the Bot API. What it replies to a call, after the
-- calls before, is a parameter.
use cometduty.Prelude.{ℕ, Bool, true, false, List, [], ◌∷◌, String, Option, none, some}
use cometduty.Prelude.{if◌then◌else◌}
use cometduty.Prelude.Fields.{replace_all}
use cometduty.Prelude.Int.{ℤ, pos}
use cometduty.Prelude.Text.{sprintf, contains, show}
use cometduty.Config.{TelegramConfig}
use cometduty.Notifiers.Telegram.Cards.{TgCard}
use cometduty.Notifiers.Telegram.Rendering.{render}

-- A message of a text, in HTML or plain, that replies to another one unless that is 0; and a new text
-- for a message.
pub data BotCall : Type 0 where
  send_message : String → String → Bool → ℤ → BotCall
  edit_message : String → ℤ → String → BotCall

-- No request, no answer, an answer that is no JSON, or one with its flag, its description and, where
-- there is one to read, the message's id.
pub data BotReply : Type 0 where
  no_request no_answer : String → BotReply
  garbled : ℕ → BotReply
  answered : Bool → String → Option ℤ → BotReply

-- The API, what strips a text of HTML, and what names the own host.
pub record Bot : Type 0 where
  pub reply : List BotCall → BotCall → BotReply
  pub stripped : String → String
  pub loopback : (String → String) → String → String

-- `redactToken`.
unfoldable pub redact_token : String → String → String
redact_token e token = replace_all e token "<token>"

-- What `tgCall` makes of a reply, where a result is wanted or not: the message's id, and the error.
unfoldable pub tg_result : String → String → Bool → BotReply → ℤ × Option String
tg_result token method wanted (no_request e) = (pos 0, some e)
tg_result token method wanted (no_answer e) = (pos 0, some (redact_token e token))
tg_result token method wanted (garbled code) =
    (pos 0, some (sprintf "telegram %s: http %d" (method ∷ show code ∷ [])))
tg_result token method wanted (answered false description result) =
    (pos 0, some (sprintf "telegram %s: %s" (method ∷ description ∷ [])))
tg_result token method false (answered true description result) = (pos 0, none)
tg_result token method true (answered true description none) = (pos 0, some "bad result")
tg_result token method true (answered true description (some id)) = (id, none)

abbrev pub error_has : String → Option String → Bool
error_has part none = false
error_has part (some e) = contains e part

module _ (bot : Bot) (c : TelegramConfig) where
  -- A `sendMessage`, with the calls so far.
  unfoldable pub send_call : BotCall → List BotCall → (ℤ × Option String) × List BotCall
  send_call call calls =
      (tg_result c.api_key "sendMessage" true (bot.reply calls call), call ∷ calls)

  -- `post`: where the HTML is not understood the text is sent once more without it.
  unfoldable pub post : String → ℤ → List BotCall → (ℤ × Option String) × List BotCall
  post text reply_to calls =
      let (r, calls') = send_call (send_message c.channel text true reply_to) calls in
      if error_has "can't parse entities" r.1
      then send_call (send_message c.channel (bot.stripped text) false reply_to) calls'
      else (r, calls')

  -- `reply`.
  unfoldable pub reply_to : TgCard → String → List BotCall → Option String × List BotCall
  reply_to card text calls = let (r, calls') = post text card.msg_id calls in (r.1, calls')

  -- What follows an edit: nothing, or a new message where the card's is gone.
  unfoldable pub after_edit :
      TgCard → String → Option String → List BotCall → TgCard × Option String × List BotCall
  after_edit card text none calls = (card, none, calls)
  after_edit card text (some e) calls =
      let (r, calls') = post text (pos 0) calls in
      if contains e "message is not modified"
      then (card, none, calls)
      else if error_has "message to edit not found" (some e)
      then (record card { msg_id = r.0 }, r.1, calls')
      else if error_has "message can't be edited" (some e)
      then (record card { msg_id = r.0 }, r.1, calls')
      else (card, some e, calls)

  -- `edit`, where the wall clock shows a time.
  unfoldable pub edit : ℕ → TgCard → List BotCall → TgCard × Option String × List BotCall
  unfolding after_edit
  edit wall card calls =
      let text = render wall card c.mentions in
      let call = edit_message c.channel card.msg_id text in
      after_edit card text (tg_result c.api_key "editMessageText" false (bot.reply calls call)).1
        (call ∷ calls)
