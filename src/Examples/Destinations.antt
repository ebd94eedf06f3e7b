-- ===== src/Examples/Destinations.antt =====
-- Alerts that reach their destinations, the pages of a listing, and a socket.
use cometduty.Prelude.{
  ℕ, suc, ◌≤◌, true, false, List, [], ◌∷◌, none, some, ◌≡◌, refl, arith, eqb, string_eq,
  if◌then◌else◌, ◌↔◌,
}
use cometduty.Prelude.Int.{pos}
use cometduty.Prelude.Maps.{lookup}
use cometduty.Prelude.Tried.{done}
use cometduty.Alert.{DestConfig}
use cometduty.Alert.Engine.{Delivery}
use cometduty.Alert.Engine.Stored.{fire}
use cometduty.Config.{TelegramConfig, PagerdutyConfig}
use cometduty.Notifiers.Payloads.{send_pagerduty}
use cometduty.Notifiers.Payloads.Incidents.{Closes, send_pagerduty-Closes}
use cometduty.Notifiers.Telegram.{Telegram, send_card, group_key, alert_node}
use cometduty.Notifiers.Telegram.BotApi.{
  Bot, BotCall, BotReply, answered, no_answer, send_message, edit_message, post, send_call,
  tg_result,
}
use cometduty.Notifiers.Telegram.Opens.{one_if}
use cometduty.Notifiers.Telegram.Groups.{IsPlain}
use cometduty.Notifiers.Telegram.Shown.{opens_of}
use cometduty.Notifiers.Telegram.Runs.{
  Message, run, raised_last, Posts, run-raised_last, resolve-fire,
}
use cometduty.Rpc.{result, Page, validators, call}
use cometduty.Rpc.Paging.{first_pages, is_last, validators-ends}
use cometduty.Rpc.Sockets.{Frame, broken, unreadable, acknowledged, event}
use cometduty.Monitor.Socket.{WsEvent, other, reads, ws_loop}
use cometduty.Monitor.Socket.Crashes.{ws_loop-crashes, has_unreadable, is_crash}
use cometduty.Examples.Data.{alert, solved, chain, no_pagerduty, no_telegram}

-- Messages get through and edits do not.
abbrev no_edits : BotCall → BotReply
no_edits (send_message chat text html reply) = answered true "" (some (pos 7))
no_edits (edit_message chat id text) = no_answer "timeout"

abbrev bot : Bot
bot = record { reply = λ calls c. no_edits c; stripped = λ s. s; loopback = λ name s. s }

abbrev chat : TelegramConfig
chat = record no_telegram { enabled = true; api_key = "t"; channel = "c" }

gets_through : Posts bot chat
unfolding post send_call tg_result
gets_through text calls = refl

abbrev empty_telegram : Telegram
empty_telegram = record { state_path = ""; cards = []; loaded = true; file = []; calls = [] }

abbrev raise_and_resolve : List Message
raise_and_resolve =
    record { wall = 100; cfg = chat; alert = alert }
    ∷ record { wall = 200; cfg = chat; alert = solved }
    ∷ []

chat-IsPlain : IsPlain chat alert
chat-IsPlain = ground arith

run-raised_last_example :
    opens_of alert.key
      (lookup (group_key chat alert) (run bot raise_and_resolve empty_telegram).cards)
    ≡ one_if (raised_last chat alert alert.key raise_and_resolve false)
run-raised_last_example =
    run-raised_last bot raise_and_resolve empty_telegram chat alert alert.key refl
      (gets_through, (gets_through, tt)) (refl, (refl, tt)) (chat-IsPlain, (chat-IsPlain, tt))
      chat-IsPlain

abbrev raised : Telegram
raised = run bot (record { wall = 100; cfg = chat; alert = alert } ∷ []) empty_telegram

raised_open : opens_of solved.key (lookup (group_key chat solved) raised.cards) ≤ 1
unfolding group_key alert_node
raised_open = omega (
  arith,
  run-raised_last bot (record { wall = 100; cfg = chat; alert = alert } ∷ []) empty_telegram chat
      solved solved.key refl (gets_through, tt) (refl, tt) (chat-IsPlain, tt) chat-IsPlain,
)

abbrev delivery : Delivery
delivery = record {
  notifier = "telegram";
  dest = record { kind = "telegram"; cfg = DestConfig.telegram chat };
  alert = solved;
}

resolve-fire_example :
    let first = send_card bot 200 chat solved raised in
    let second = send_card bot 203 chat solved first.0 in
    (second ≡ (first.0, none))
    × ((fire (λ n. if eqb n 1 then first.1 else second.1) false delivery).err ≡ none)
resolve-fire_example =
    resolve-fire bot 200 203 chat solved raised delivery refl refl refl raised_open

abbrev pager : PagerdutyConfig
pager = record no_pagerduty { enabled = true; api_key = "k" }

send_pagerduty-Closes_example :
    Closes (send_pagerduty pager solved) (send_pagerduty pager alert)
    ↔ ((solved.resolved ≡ true) × (solved.chain ≡ alert.chain) × (solved.key ≡ alert.key))
send_pagerduty-Closes_example =
    send_pagerduty-Closes pager alert solved refl (refl, (refl, (refl, tt)))
      (refl, (refl, (refl, tt))) refl

-- Every page lists one validator, and the total is two.
abbrev page : Page
page = record {
  validators = record { address = "AB"; voting_power = pos 1; proposer_priority = pos 0 } ∷ [];
  total = pos 2;
}

page_answered : call "validators" (result (done page)) ≡ done page
unfolding call
page_answered = refl

validators-ends_example :
    (n : ℕ) × (validators (λ i. result (done page)) 3
      ≡ some (done (first_pages (λ i. page) (suc n))))
    × (is_last (λ i. page) (suc n) ≡ true)
validators-ends_example =
    validators-ends (λ i. page) (λ i. result (done page)) 2 3 (λ i. page_answered)
      (λ i. omega arith) (omega arith)

abbrev frames : List (Frame WsEvent)
frames = acknowledged ∷ event other ∷ unreadable ∷ broken "closed" ∷ []

ws_loop-crashes_example : is_crash (ws_loop chain (reads 4 frames)).1 ≡ has_unreadable frames
ws_loop-crashes_example = ws_loop-crashes chain 4 frames (omega arith)
