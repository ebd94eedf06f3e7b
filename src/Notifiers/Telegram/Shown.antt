-- ===== src/Notifiers/Telegram/Shown.antt =====
-- What the cards of internal/alert/notifiers/telegram.go show as open, over a run of alerts.
use cometduty.Prelude.{
  ℕ, ◌+◌, ◌-◌, true, false, List, [], ◌∷◌, String, Option, none, some, ◌≡◌, refl, sym, ap, ◌∙◌,
  arith, if◌then◌else◌, ◌&&◌, ◌==◌, string_eq, Option-cases, inl, inr, eqb, if_true,
}
use cometduty.Prelude.Int.{ℤ, pos}
use cometduty.Prelude.Maps.{GoMap, lookup, insert, erase, lookup-insert, lookup-erase}
use cometduty.Prelude.Time.{is_zero}
use cometduty.Alert.{Alert}
use cometduty.Config.{TelegramConfig}
use cometduty.Notifiers.Telegram.{
  Telegram, clear_at, send_resolve, send_raise, close_card, with_edit, save, after_clear,
  clear_cond, after_announce, new_card, with_cond, new_cond,
}
use cometduty.Notifiers.Telegram.BotApi.{Bot, BotCall, post, edit, after_edit}
use cometduty.Notifiers.Telegram.Cards.{TgCond, TgCard, is_open, open_at, update_at, all_clear}
use cometduty.Notifiers.Telegram.Opens.{
  opens, opens-append, opens-none, opens-some, opens-update, one_if,
}
use text.Mathlib.TextEquality.{eq_iff}

abbrev pub opens_of : String → Option TgCard → ℕ
opens_of key none = 0
opens_of key (some card) = opens key card.conds

all_clear-opens : (key : String) (xs : List TgCond) → all_clear xs ≡ true → opens key xs ≡ 0
unfolding all_clear
all_clear-opens key [] h = refl
all_clear-opens key (x ∷ xs) h = ground (arith, all_clear-opens key xs)

cleared_shut :
    (key : String) (now : ℕ) (x : TgCond)
    → is_zero now ≡ false
    → is_open key (clear_at now x) ≡ false
cleared_shut key now x h = ground arith

save-cards : (t : Telegram) → (save t).cards ≡ t.cards
unfolding save
save-cards t = ground arith

module _ (gk g key : String) (m : GoMap String TgCard) where
  insert-opens :
      (card : TgCard)
      → opens_of key (lookup g (insert gk card m))
        ≡ (if gk == g then opens key card.conds else opens_of key (lookup g m))
  insert-opens card = ground (arith, lookup-insert gk g card m)

  erase-opens :
      opens_of key (lookup g (erase gk m)) ≡ (if gk == g then 0 else opens_of key (lookup g m))
  erase-opens = ground (arith, lookup-erase gk g m)

module _ (bot : Bot) (wall : ℕ) (c : TelegramConfig) where
  after_edit-conds :
      (card : TgCard) (text : String) (e : Option String) (calls : List BotCall)
      → (after_edit bot c card text e calls).0.conds ≡ card.conds
  unfolding after_edit
  after_edit-conds card text none calls = refl
  after_edit-conds card text (some e) calls = ground arith

  edit-conds :
      (card : TgCard) (calls : List BotCall) → (edit bot c wall card calls).0.conds ≡ card.conds
  unfolding edit
  edit-conds card calls = after_edit-conds card _ _ _

  module _ (gk : String) (now : ℕ) (a : Alert) where
    -- An edit keeps the conditions, of the card and of all others.
    with_edit-opens :
        (t : Telegram) (card : TgCard) (g key : String)
        → opens_of key (lookup g (with_edit bot wall c gk now a t card).0.cards)
          ≡ (if gk == g then opens key card.conds else opens_of key (lookup g t.cards))
    unfolding with_edit
    with_edit-opens t card g key =
        insert-opens gk g key t.cards (edit bot c wall card t.calls).0
        ∙ ap (λ xs. if gk == g then opens key xs else opens_of key (lookup g t.cards))
            (edit-conds card t.calls)

    with_edit-conds :
        (t : Telegram) (card : TgCard) → (with_edit bot wall c gk now a t card).1.conds ≡ card.conds
    unfolding with_edit
    with_edit-conds t card = edit-conds card t.calls

    -- A card that is closed has nothing open.
    close_card-opens :
        (t : Telegram) (card : TgCard) (g key : String)
        → opens_of key (lookup g (close_card bot wall c gk now a t card).0.cards)
          ≡ (if gk == g then 0 else opens_of key (lookup g t.cards))
    unfolding close_card save
    close_card-opens t card g key = ground (arith, erase-opens gk g key t.cards)

    after_clear-opens :
        (t : Telegram) (card : TgCard) (e : Option String) (g key : String)
        → ((gk == g) ≡ true → opens_of key (lookup g t.cards) ≡ opens key card.conds)
        → opens_of key (lookup g (after_clear bot wall c gk now a t card e).0.cards)
          ≡ opens_of key (lookup g t.cards)
    unfolding after_clear save
    after_clear-opens t card (some e) g key h = refl
    after_clear-opens t card none g key h =
        ground (arith, close_card-opens t card g key, all_clear-opens key card.conds)

    -- One open condition of the key less, in the card of the group.
    clear-opens :
        (t : Telegram) (card : TgCard) (i : ℕ) (g key : String)
        → is_zero now ≡ false
        → lookup gk t.cards ≡ some card
        → open_at a.key card.conds ≡ some i
        → opens_of key (lookup g (clear_cond bot wall c gk now a t card (some i)).0.cards)
          ≡ opens_of key (lookup g t.cards) - one_if (gk == g && a.key == key)
    unfolding clear_cond
    clear-opens t card i g key hn hc hi =
        let card' = record card { conds = update_at i (clear_at now) card.conds } in
        let t' = (with_edit bot wall c gk now a t card').0 in
        let card'' = (with_edit bot wall c gk now a t card').1 in
        let kept = with_edit-opens t card' g key in
        let same = ap (λ xs. opens key xs) (with_edit-conds t card') in
        after_clear-opens t' card'' _ g key (λ e. kept ∙ (if_true _ (gk == g) e ∙ sym same))
        ∙ (kept
            ∙ ground (
              arith,
              eq_iff gk g,
              opens-update a.key key (clear_at now) false (λ x h. cleared_shut key now x hn)
                  card.conds i hi,
            ))

    pub send_resolve-opens :
        (t : Telegram) (g key : String)
        → is_zero now ≡ false
        → opens_of key (lookup g (send_resolve bot wall c gk now a t (lookup gk t.cards)).0.cards)
          ≡ opens_of key (lookup g t.cards) - one_if (gk == g && a.key == key)
    unfolding send_resolve clear_cond
    send_resolve-opens t g key hn = elim (Option-cases (lookup gk t.cards)) [
      | inl e ↦ rw e (ground (arith, eq_iff gk g))
      | inr (card, e) ↦ elim (Option-cases (open_at a.key card.conds)) [
        | inl n ↦
            rw (e, n) (ground (arith, eq_iff gk g, eq_iff a.key key, opens-none a.key card.conds n))
        | inr (i, hi) ↦ rw (e, hi) (clear-opens t card i g key hn e hi)
      ]
    ]

    new_cond-opens : (key : String) → is_open key (new_cond bot wall c gk now a) ≡ (a.key == key)
    new_cond-opens key = ground arith

    with_cond-opens :
        (card : TgCard) (key : String)
        → opens key (with_cond bot wall c gk now a (open_at a.key card.conds) card).conds
          ≡ opens key card.conds + one_if (a.key == key && eqb (opens a.key card.conds) 0)
    unfolding with_cond
    with_cond-opens card key = elim (Option-cases (open_at a.key card.conds)) [
      | inl n ↦ rw n (
          ground (
            arith,
            opens-append key card.conds (new_cond bot wall c gk now a ∷ []),
            opens-none a.key card.conds n,
          ))
      | inr (i, hi) ↦ rw hi (
          ground (
            arith,
            opens-update a.key key (λ x. new_cond bot wall c gk now a) (a.key == key)
                (λ x h. new_cond-opens key) card.conds i hi,
            opens-some a.key card.conds i hi,
          ))
    ]

    after_announce-opens :
        (t : Telegram) (card : TgCard) (e : Option String) (g key : String)
        → ((gk == g) ≡ true → opens_of key (lookup g t.cards) ≡ opens key card.conds)
        → opens_of key (lookup g (after_announce bot wall c gk now a t card e).0.cards)
          ≡ opens_of key (lookup g t.cards)
    unfolding after_announce save
    after_announce-opens t card (some e) g key h = refl
    after_announce-opens t card none g key h = ground (arith, with_edit-opens t card g key)

    new_card-opens :
        (t : Telegram) (id : ℤ) (e : Option String) (calls : List BotCall) (card : TgCard)
        (g key : String)
        → e ≡ none
        → opens_of key (lookup g (new_card bot wall c gk now a t (id, e) calls card).0.cards)
          ≡ (if gk == g then opens key card.conds else opens_of key (lookup g t.cards))
    unfolding new_card save
    new_card-opens t id (some e) calls card g key h = cc
    new_card-opens t id none calls card g key h =
        ground (arith, insert-opens gk g key t.cards (record card { msg_id = id }))

    -- As long as the first message of a card can be sent.
    pub send_raise-opens :
        (t : Telegram) (g key : String)
        → ((text : String) (calls : List BotCall) → (post bot c text (pos 0) calls).0.1 ≡ none)
        → opens_of key (lookup g (send_raise bot wall c gk now a t (lookup gk t.cards)).0.cards)
          ≡ opens_of key (lookup g t.cards)
            + one_if ((gk == g && a.key == key) && eqb (opens_of key (lookup g t.cards)) 0)
    unfolding send_raise
    send_raise-opens t g key ok = elim (Option-cases (lookup gk t.cards)) [
      | inl e ↦ rw e (
          new_card-opens t _ _ _ _ g key (ok _ _) ∙ ground (arith, eq_iff gk g, new_cond-opens key))
      | inr (card, e) ↦ rw e (
          let i = open_at a.key card.conds in
          let card' = with_cond bot wall c gk now a i card in
          let kept = insert-opens gk g key t.cards card' in
          after_announce-opens _ card' _ g key (λ h. kept ∙ if_true _ (gk == g) h)
          ∙ (kept ∙ ground (arith, eq_iff gk g, eq_iff a.key key, with_cond-opens card key)))
    ]
