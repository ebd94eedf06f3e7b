-- ===== src/Prelude/Text.antt =====
-- Text: what the program uses of `strings`, `strconv` and of `fmt.Sprintf`.
use Prim.Native.Char.{code}
use Prim.Native.Nat.{ℕ, zero, suc, ◌/◌, ◌%◌, ◌+◌}
use Prim.Native.String.{String, ◌++◌ as ◌<>◌}
use cometduty.Prelude.Int.{ℤ, pos, negsuc}
use cometduty.Prelude.Tests.{ltb, leb, eqb, if◌then◌else◌}
use mathlib.Core.Bool.{Bool, true, false, ◌&&◌, ◌||◌}
use mathlib.Core.List.{List, [], ◌∷◌}

-- `strings.Cut` at one character: what stands before it, what stands after it, and whether it is
-- there.
unfoldable pub cut : ℕ → String → String × String × Bool
cut c String.[] = ("", "", false)
cut c (String.◌∷◌ a s) =
    let (before, after, found) = cut c s in
    if eqb (code a) c then ("", s, true) else (String.◌∷◌ a before, after, found)

-- `strings.ToLower` on one ASCII character.
abbrev pub lower : ℕ → ℕ
lower c = if leb b'A' c && leb c b'Z' then c + 32 else c

-- `strings.EqualFold` on ASCII text, such as hexadecimal addresses.
unfoldable pub equal_fold : String → String → Bool
equal_fold String.[] String.[] = true
equal_fold String.[] (String.◌∷◌ b t) = false
equal_fold (String.◌∷◌ a s) String.[] = false
equal_fold (String.◌∷◌ a s) (String.◌∷◌ b t) =
    eqb (lower (code a)) (lower (code b)) && equal_fold s t

-- `strings.HasPrefix`.
unfoldable pub has_prefix : String → String → Bool
has_prefix s String.[] = true
has_prefix String.[] (String.◌∷◌ b t) = false
has_prefix (String.◌∷◌ a s) (String.◌∷◌ b t) = eqb (code a) (code b) && has_prefix s t

-- `strings.Contains`.
unfoldable pub contains : String → String → Bool
contains String.[] t = has_prefix "" t
contains (String.◌∷◌ a s) t = has_prefix (String.◌∷◌ a s) t || contains s t

digit : ℕ → String
digit d =
    if eqb d 0
    then "0"
    else if eqb d 1
    then "1"
    else if eqb d 2
    then "2"
    else if eqb d 3
    then "3"
    else if eqb d 4
    then "4"
    else if eqb d 5
    then "5"
    else if eqb d 6
    then "6"
    else if eqb d 7
    then "7"
    else if eqb d 8
    then "8"
    else "9"

-- A number has no more decimal digits than its value, so the value is fuel enough.
decimal : ℕ → ℕ → String
unfolding digit
decimal zero n = digit (n % 10)
decimal (suc fuel) n = elim (ltb n 10) [
  | true ↦ digit n
  | false ↦ decimal fuel (n / 10) <> digit (n % 10)
]

unfoldable pub show : ℕ → String
unfolding decimal
show n = decimal n n

unfoldable pub show_ℤ : ℤ → String
unfolding show
show_ℤ (pos n) = show n
show_ℤ (negsuc n) = "-" <> show (suc n)

-- `fmt.Sprintf` with the verbs `%s`, `%d` and `%%`, over arguments that are rendered already. The
-- flag says that a `%` stands before.
format_from : Bool → String → List String → String
format_from percent String.[] args = ""
format_from false (String.◌∷◌ c s) args = elim (eqb (code c) b'%') [
  | true ↦ format_from true s args
  | false ↦ String.◌∷◌ c (format_from false s args)
]
format_from true (String.◌∷◌ c s) [] = elim (eqb (code c) b'%') [
  | true ↦ String.◌∷◌ c (format_from false s [])
  | false ↦ "%!" <> String.◌∷◌ c ("(MISSING)" <> format_from false s [])
]
format_from true (String.◌∷◌ c s) (a ∷ args) = elim (eqb (code c) b'%') [
  | true ↦ String.◌∷◌ c (format_from false s (a ∷ args))
  | false ↦ a <> format_from false s args
]

unfoldable pub sprintf : String → List String → String
unfolding format_from
sprintf format args = format_from false format args
