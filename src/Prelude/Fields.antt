-- ===== src/Prelude/Fields.antt =====
-- Text: what the program uses of `strings` to take lines and tables apart. A text is taken as ASCII
-- where the library would look for other white space.
use Prim.Native.Char.{Char, code}
use Prim.Native.Nat.{ℕ, zero, suc, ◌-◌}
use Prim.Native.String.{String, len}
use cometduty.Prelude.Tests.{leb, eqb, if◌then◌else◌, ◌==◌, string_eq}
use cometduty.Prelude.Text.{has_prefix}
use mathlib.Core.Bool.{Bool, ◌&&◌, ◌||◌}
use mathlib.Core.List.{List, [], ◌∷◌}
use mathlib.Core.Option.{Option, none, some}

add_to_first : Char → List String → List String
add_to_first a [] = String.◌∷◌ a "" ∷ []
add_to_first a (w ∷ ws) = String.◌∷◌ a w ∷ ws

-- `strings.Split` at one character: there is always a first part.
unfoldable pub split : ℕ → String → List String
unfolding add_to_first
split c String.[] = "" ∷ []
split c (String.◌∷◌ a s) =
    let rest = split c s in if eqb (code a) c then "" ∷ rest else add_to_first a rest

-- White space.
abbrev pub is_space : ℕ → Bool
is_space c = eqb c 32 || (leb 9 c && leb c 13)

unfoldable pub not_empty : List String → List String
not_empty [] = []
not_empty (w ∷ ws) = let rest = not_empty ws in if w == "" then rest else w ∷ rest

words_from : String → List String
unfolding add_to_first
words_from String.[] = "" ∷ []
words_from (String.◌∷◌ a s) =
    let rest = words_from s in if is_space (code a) then "" ∷ rest else add_to_first a rest

-- `strings.Fields`: what white space parts, without the empty parts.
unfoldable pub words : String → List String
unfolding words_from
words s = not_empty (words_from s)

-- `strings.ReplaceAll` of a text that is not empty; the number counts the characters of a match that
-- are still to be passed over.
replace_from : String → String → ℕ → String → String
replace_from old new skip String.[] = ""
replace_from old new (suc skip) (String.◌∷◌ a s) = replace_from old new skip s
replace_from old new zero (String.◌∷◌ a s) =
    let matched = replace_from old new (len old - 1) s in
    let other = replace_from old new zero s in
    if has_prefix (String.◌∷◌ a s) old
    then Prim.Native.String.◌++◌ new matched
    else String.◌∷◌ a other

unfoldable pub replace_all : String → String → String → String
unfolding replace_from
replace_all s old new = replace_from old new zero s

put_first : Char → Option String → Option String
put_first a none = none
put_first a (some s) = some (String.◌∷◌ a s)

-- `strings.CutSuffix`, with none where the text does not end so.
unfoldable pub cut_suffix : String → String → Option String
unfolding put_first
cut_suffix String.[] suffix = if suffix == "" then some "" else none
cut_suffix (String.◌∷◌ a s) suffix =
    let rest = put_first a (cut_suffix s suffix) in
    if String.◌∷◌ a s == suffix then some "" else rest

or_text : String → Option String → String
or_text s none = s
or_text s (some t) = t

-- `strings.TrimSuffix`.
unfoldable pub trim_suffix : String → String → String
unfolding or_text
trim_suffix s suffix = or_text s (cut_suffix s suffix)

after_prefix : String → String → String
after_prefix s String.[] = s
after_prefix String.[] p = ""
after_prefix (String.◌∷◌ a s) (String.◌∷◌ b p) = after_prefix s p

-- `strings.TrimPrefix`.
unfoldable pub trim_prefix : String → String → String
unfolding after_prefix
trim_prefix s p = if has_prefix s p then after_prefix s p else s

-- `strings.TrimLeft` and `strings.TrimRight`, of one character.
unfoldable pub trim_left_of : ℕ → String → String
trim_left_of c String.[] = ""
trim_left_of c (String.◌∷◌ a s) =
    let rest = trim_left_of c s in if eqb (code a) c then rest else String.◌∷◌ a s

unfoldable pub trim_right_of : ℕ → String → String
trim_right_of c String.[] = ""
trim_right_of c (String.◌∷◌ a s) =
    let rest = trim_right_of c s in if eqb (code a) c && rest == "" then "" else String.◌∷◌ a rest

-- `strings.TrimSpace`.
unfoldable pub trim_space_left : String → String
trim_space_left String.[] = ""
trim_space_left (String.◌∷◌ a s) =
    let rest = trim_space_left s in if is_space (code a) then rest else String.◌∷◌ a s

unfoldable pub trim_space_right : String → String
trim_space_right String.[] = ""
trim_space_right (String.◌∷◌ a s) =
    let rest = trim_space_right s in
    if is_space (code a) && rest == "" then "" else String.◌∷◌ a rest

unfoldable pub trim_space : String → String
unfolding trim_space_left trim_space_right
trim_space s = trim_space_right (trim_space_left s)

-- `strings.Join`.
unfoldable pub joined : String → List String → String
joined sep [] = ""
joined sep (s ∷ []) = s
joined sep (s ∷ t ∷ ts) =
    Prim.Native.String.◌++◌ s (Prim.Native.String.◌++◌ sep (joined sep (t ∷ ts)))

-- `strings.HasSuffix`.
unfoldable pub has_suffix : String → String → Bool
has_suffix String.[] suffix = suffix == ""
has_suffix (String.◌∷◌ a s) suffix = String.◌∷◌ a s == suffix || has_suffix s suffix

-- `s[:n]`, of a text that may be shorter.
unfoldable pub first_bytes : ℕ → String → String
first_bytes zero s = ""
first_bytes (suc n) String.[] = ""
first_bytes (suc n) (String.◌∷◌ a s) = String.◌∷◌ a (first_bytes n s)
