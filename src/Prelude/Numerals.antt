-- ===== src/Prelude/Numerals.antt =====
-- `strconv.ParseInt` with 64 bits.
use Prim.Native.Char.{code}
use Prim.Native.Nat.{ℕ, ◌+◌, ◌-◌, ◌*◌, ◌^◌}
use Prim.Native.String.{String}
use cometduty.Prelude.Int.{ℤ, pos, negsuc}
use cometduty.Prelude.Tests.{leb, ltb, eqb, if◌then◌else◌}
use mathlib.Core.Bool.{Bool, true, false, ◌&&◌}
use mathlib.Core.Option.{Option, none, some}

-- What a digit stands for, letters included.
abbrev digit_of : ℕ → Option ℕ
digit_of c =
    if leb b'0' c && leb c b'9'
    then some (c - b'0')
    else if leb b'a' c && leb c b'z'
    then some (c - b'a' + 10)
    else if leb b'A' c && leb c b'Z'
    then some (c - b'A' + 10)
    else none

digit_in : ℕ → Option ℕ → Option ℕ
digit_in base none = none
digit_in base (some d) = if ltb d base then some d else none

-- What the digits read as: no number, one of more than 64 bits, where the rest is not read, or one.
pub data Reading : Type 0 where
  malformed too_large : Reading
  number : ℕ → Reading

digits_from : ℕ → ℕ → String → Reading
digits_from base n String.[] = number n
digits_from base n (String.◌∷◌ a s) = elim (digit_in base (digit_of (code a))) [
  | none ↦ malformed
  | some d ↦
      let rest = digits_from base (n * base + d) s in
      if leb (2 ^ 64) (n * base + d) then too_large else rest
]

-- Digits, at least one.
digits : ℕ → String → Reading
unfolding digits_from digit_in
digits base String.[] = malformed
digits base (String.◌∷◌ a s) = digits_from base 0 (String.◌∷◌ a s)

in_range : Bool → Reading → ℤ × Bool
in_range neg malformed = (pos 0, false)
in_range false too_large = (pos (2 ^ 63 - 1), false)
in_range true too_large = (negsuc (2 ^ 63 - 1), false)
in_range false (number n) = if ltb n (2 ^ 63) then (pos n, true) else (pos (2 ^ 63 - 1), false)
in_range true (number n) =
    if eqb n 0
    then (pos 0, true)
    else if leb n (2 ^ 63)
    then (negsuc (n - 1), true)
    else (negsuc (2 ^ 63 - 1), false)

-- The value, and whether there was no error. Out of range the nearest value comes with the error; where
-- it is no number the value is 0.
unfoldable pub parse_int : ℕ → String → ℤ × Bool
unfolding digits in_range
parse_int base String.[] = (pos 0, false)
parse_int base (String.◌∷◌ a s) =
    if eqb (code a) b'-'
    then in_range true (digits base s)
    else if eqb (code a) b'+'
    then in_range false (digits base s)
    else in_range false (digits base (String.◌∷◌ a s))
