-- ===== src/Notifiers/Telegram/Rendering.antt =====
-- internal/alert/notifiers/telegram.go: the texts of a card.
use cometduty.Prelude.{
  ℕ, suc, ◌/◌, ◌%◌, Bool, true, false, List, [], ◌∷◌, String, none, some, not, ◌&&◌, ltb, eqb,
}
use cometduty.Prelude.{◌==◌, string_eq, if◌then◌else◌}
use cometduty.Prelude.Ascii.{text_of}
use cometduty.Prelude.Fields.{trim_prefix, trim_suffix, replace_all, joined}
use cometduty.Prelude.Int.{ℤ, pos, negsuc, sub_ℕ}
use cometduty.Prelude.Maps.{lookup}
use cometduty.Prelude.Text.{sprintf, has_prefix, show, lower}
use cometduty.Prelude.Time.{is_zero, second, minute, hour}
use cometduty.Notifiers.Telegram.Cards.{TgCond, TgCard, all_clear, lead, first_cond}
use cometduty.Notifiers.Telegram.Kinds.{kinds}
use Prim.Native.Char.{code}
use Prim.Native.String.{◌++◌ as ◌<>◌}

abbrev or_default : String → String → String
or_default s d = if s == "" then d else s

-- The node, or the chain.
abbrev subject : TgCard → String
subject c = if c.node == "" then c.chain_id else c.node

-- A kind that is not in the table.
unfoldable pub other_title : String → String → String
other_title kind who =
    if has_prefix kind "log-"
    then sprintf "%s: log matched %s" (who ∷ trim_prefix kind "log-" ∷ [])
    else if kind == ""
    then who <> ": alert"
    else sprintf "%s: %s" (who ∷ replace_all kind "-" " " ∷ [])

unfoldable pub title : String → TgCard → String
title kind c = elim (lookup kind kinds) [
  | some k ↦ sprintf k.0 (subject c ∷ [])
  | none ↦ other_title kind (subject c)
]

unfoldable pub plain : String → String
plain kind = elim (lookup kind kinds) [
  | some k ↦ k.1
  | none ↦
      if has_prefix kind "log-"
      then "A node log line matched the " <> (trim_prefix kind "log-" <> " rule.")
      else ""
]

unfoldable pub headline : TgCard → String
headline c =
    if not (all_clear c.conds)
    then title (lead c.conds).kind c
    else if c.node == ""
    then title (first_cond c.conds).kind c <> " — cleared"
    else c.node <> " recovered"

-- `%02d`, of a number below a hundred.
abbrev two_digits : ℕ → String
two_digits n = if ltb n 10 then "0" <> show n else show n

dur_pos : ℕ → String
dur_pos d =
    if ltb d minute
    then sprintf "%ds" (show (d / second) ∷ [])
    else if ltb d hour
    then sprintf "%dm" (show (d / minute) ∷ [])
    else sprintf "%dh%sm" (show (d / hour) ∷ two_digits (d / minute % 60) ∷ [])

seconds_below : ℕ → String
seconds_below n = if eqb n 0 then "0s" else "-" <> (show n <> "s")

-- `dur`: whole seconds, minutes or hours and minutes, cut off towards zero.
unfoldable pub dur : ℤ → String
unfolding dur_pos seconds_below
dur (pos d) = dur_pos d
dur (negsuc d) = seconds_below (suc d / second)

-- The loop of `recoveryLine`.
unfoldable pub last_cleared : ℕ → List TgCond → ℕ
last_cleared last [] = last
last_cleared last (x ∷ xs) = last_cleared (if ltb last x.cleared then x.cleared else last) xs

unfoldable pub recovery_line : TgCard → String
unfolding last_cleared
recovery_line c = "all clear after " <> dur (sub_ℕ (last_cleared 0 c.conds) c.opened)

-- `tgEsc`.
unfoldable pub tg_esc : String → String
tg_esc String.[] = ""
tg_esc (String.◌∷◌ a s) =
    let rest = tg_esc s in
    if eqb (code a) b'&'
    then "&amp;" <> rest
    else if eqb (code a) b'<'
    then "&lt;" <> rest
    else if eqb (code a) b'>'
    then "&gt;" <> rest
    else String.◌∷◌ a rest

-- `lowerFirst`, of a text that starts with an ASCII character.
unfoldable pub lower_first : String → String
lower_first String.[] = ""
lower_first (String.◌∷◌ a s) = text_of (lower (code a) ∷ []) <> s

-- The stable sort by the time of the raise.
add_since : TgCond → List TgCond → List TgCond
add_since x [] = x ∷ []
add_since x (y ∷ ys) =
    let rest = add_since x ys in if ltb y.since x.since then y ∷ rest else x ∷ y ∷ ys

unfoldable pub by_since : List TgCond → List TgCond
unfolding add_since
by_since [] = []
by_since (x ∷ xs) = add_since x (by_since xs)

-- What else is open.
unfoldable pub also_lines : TgCond → List TgCond → String
also_lines first [] = ""
also_lines first (x ∷ xs) =
    let rest = also_lines first xs in
    if not (x.key == first.key) && is_zero x.cleared
    then sprintf "Also: %s\n" (tg_esc (lower_first (trim_suffix (plain x.kind) ".") <> ".") ∷ [])
      <> rest
    else rest

unfoldable pub cond_state : ℕ → TgCond → String
cond_state wall x =
    if is_zero x.cleared
    then "open " <> dur (sub_ℕ wall x.since)
    else "cleared after " <> dur (sub_ℕ x.cleared x.since)

cond_line : ℕ → TgCond → String
cond_line wall x =
    sprintf "<b>%s</b> (%s, %s): %s"
      (tg_esc x.kind ∷ tg_esc x.severity ∷ tg_esc (cond_state wall x) ∷ tg_esc x.raw ∷ [])

unfoldable pub cond_lines : ℕ → List TgCond → List String
unfolding cond_line
cond_lines wall [] = []
cond_lines wall (x ∷ xs) = cond_line wall x ∷ cond_lines wall xs

-- What the card says below its headline.
unfoldable pub card_body : TgCard → String
card_body c =
    let first = lead c.conds in
    let p = plain first.kind in
    if all_clear c.conds
    then sprintf "%s · %s\n" (tg_esc c.chain_id ∷ tg_esc (recovery_line c) ∷ [])
    else sprintf "%s · %s\n" (tg_esc (or_default first.severity "alert") ∷ tg_esc c.chain_id ∷ [])
      <> ((if p == "" then "" else sprintf "\n%s\n" (tg_esc p ∷ [])) <> also_lines first c.conds)

abbrev is_nil : List String → Bool
is_nil [] = true
is_nil (s ∷ ss) = false

-- `render`, where the wall clock shows a time.
unfoldable pub render : ℕ → TgCard → List String → String
unfolding card_body cond_lines
render wall c mentions =
    sprintf "<b>%s</b>\n" (tg_esc (headline c) ∷ [])
    <> (card_body c
        <> ("<blockquote expandable>"
            <> (joined "\n" (cond_lines wall (by_since c.conds))
                <> ("</blockquote>"
                    <> (if not (is_nil mentions) && not (all_clear c.conds)
                        then sprintf "\n%s" (tg_esc (joined " " mentions) ∷ [])
                        else "")))))

-- `humanize`: the addresses of the own host are named by the node. Finding them is a parameter, which
-- replaces each by what is made of its port.
unfoldable pub humanize : ((String → String) → String → String) → String → String → String → String
humanize loopback msg target node =
    let msg' =
      if not (node == "") && not (target == "")
      then replace_all msg (node <> (" (" <> (target <> ")"))) node
      else msg in
    loopback (λ port. (if node == "" then "localhost" else node) <> port) msg'
