-- ===== src/Notifiers/Telegram/Cards.antt =====
-- internal/alert/notifiers/telegram.go: the state of a card.
use cometduty.Prelude.{
  ℕ, zero, suc, Bool, true, List, [], ◌∷◌, String, Option, none, some, not, ◌&&◌, ltb,
}
use cometduty.Prelude.{◌==◌, string_eq, if◌then◌else◌}
use cometduty.Prelude.Int.{ℤ}
use cometduty.Prelude.Time.{is_zero}

pub record TgCond : Type 0 where
  pub key : String
  pub kind : String
  pub severity : String
  pub raw : String
  pub since : ℕ
  pub cleared : ℕ

pub record TgCard : Type 0 where
  pub msg_id : ℤ
  pub channel : String
  pub node : String
  pub chain_id : String
  pub opened : ℕ
  pub conds : List TgCond

-- A condition of the key that has not cleared.
abbrev pub is_open : String → TgCond → Bool
is_open key x = x.key == key && is_zero x.cleared

next_index : Option ℕ → Option ℕ
next_index none = none
next_index (some i) = some (suc i)

-- `open`: the first place of an open condition of the key, with none for -1.
unfoldable pub open_at : String → List TgCond → Option ℕ
unfolding next_index
open_at key [] = none
open_at key (x ∷ xs) =
    let rest = next_index (open_at key xs) in if is_open key x then some zero else rest

unfoldable pub all_clear : List TgCond → Bool
all_clear [] = true
all_clear (x ∷ xs) = not (is_zero x.cleared) && all_clear xs

unfoldable pub rank : String → ℕ
rank sev =
    if sev == "critical" then 3 else if sev == "warning" then 2 else if sev == "info" then 1 else 0

-- The loop of `worst`.
unfoldable pub worst_from : ℕ → List TgCond → ℕ
worst_from w [] = w
worst_from w (x ∷ xs) =
    worst_from (if is_zero x.cleared && ltb w (rank x.severity) then rank x.severity else w) xs

unfoldable pub worst : List TgCond → ℕ
unfolding worst_from
worst xs = worst_from 0 xs

beats : TgCond → Option TgCond → Bool
beats x none = true
beats x (some best) = ltb (rank best.severity) (rank x.severity)

-- The loop of `lead`, with the best open condition so far.
unfoldable pub lead_from : Option TgCond → List TgCond → Option TgCond
unfolding beats
lead_from best [] = best
lead_from best (x ∷ xs) = lead_from (if is_zero x.cleared && beats x best then some x else best) xs

no_cond : TgCond
no_cond = record { key = ""; kind = ""; severity = ""; raw = ""; since = 0; cleared = 0 }

-- `c.Conds[0]`; a card has a condition from the start.
unfoldable pub first_cond : List TgCond → TgCond
unfolding no_cond
first_cond [] = no_cond
first_cond (x ∷ xs) = x

or_first : List TgCond → Option TgCond → TgCond
or_first xs none = first_cond xs
or_first xs (some x) = x

unfoldable pub lead : List TgCond → TgCond
unfolding or_first
lead xs = or_first xs (lead_from none xs)

-- `c.Conds[i] = …`, at a place that is there.
unfoldable pub update_at : ℕ → (TgCond → TgCond) → List TgCond → List TgCond
update_at i f [] = []
update_at zero f (x ∷ xs) = f x ∷ xs
update_at (suc i) f (x ∷ xs) = x ∷ update_at i f xs
