-- ===== src/Monitor/Refresh/Stakes.antt =====
-- internal/monitor/chain.go: `stakeDeltaPct` and `stakeLess`, on amounts without a bound.
pub mod Percents
use Prim.Native.Char.{code}
use cometduty.Prelude.{
  ℕ, zero, suc, ◌+◌, ◌-◌, ◌*◌, ◌/◌, ◌%◌, ◌^◌, Bool, true, false, ◌&&◌, String, Option, none, some,
}
use cometduty.Prelude.{if◌then◌else◌, leb, eqb}
use cometduty.Prelude.Int.{ℤ, pos, negsuc, pos_part, neg_part, ltb_ℤ, ◌-ℤ◌}
use cometduty.Wire.{as_int}

digits_from : String → ℕ → Option ℕ
digits_from String.[] n = some n
digits_from (String.◌∷◌ a s) n =
    let rest = digits_from s (n * 10 + (code a - b'0')) in
    if leb b'0' (code a) && leb (code a) b'9' then rest else none

-- At least one digit.
number_of : String → Option ℕ
unfolding digits_from
number_of String.[] = none
number_of (String.◌∷◌ a s) = digits_from (String.◌∷◌ a s) 0

negated : Option ℕ → Option ℤ
negated none = none
negated (some zero) = some (pos 0)
negated (some (suc n)) = some (negsuc n)

as_given : Option ℕ → Option ℤ
as_given none = none
as_given (some n) = some (pos n)

-- `(*big.Int).SetString` in base 10: a sign, and digits.
unfoldable pub parse_big : String → Option ℤ
unfolding number_of negated as_given
parse_big String.[] = none
parse_big (String.◌∷◌ a s) =
    if eqb (code a) b'-'
    then negated (number_of s)
    else if eqb (code a) b'+'
    then as_given (number_of s)
    else as_given (number_of (String.◌∷◌ a s))

abbrev pub size : ℤ → ℕ
size a = pos_part a + neg_part a

-- `(*big.Int).Int64`: the low 64 bits.
abbrev int64_of : ℤ → ℤ
int64_of (pos n) = as_int (n % 2 ^ 64)
int64_of (negsuc n) = as_int ((2 ^ 64 - suc n % 2 ^ 64) % 2 ^ 64)

-- Euclid's quotient of a number that is not negative.
quotient : ℕ → ℤ → ℤ
quotient n (pos d) = pos (n / d)
quotient n (negsuc d) = pos 0 -ℤ pos (n / suc d)

unfoldable pub percent_moved : Option ℤ → Option ℤ → ℤ
unfolding quotient
percent_moved none n = pos 0
percent_moved (some o) none = pos 0
percent_moved (some o) (some n) =
    if eqb (size o) 0 then pos 0 else int64_of (quotient (size (n -ℤ o) * 100) o)

-- `stakeDeltaPct`.
unfoldable pub stake_delta_pct : String → String → ℤ
stake_delta_pct old new = percent_moved (parse_big old) (parse_big new)

both_less : Option ℤ → Option ℤ → Bool
both_less none y = false
both_less (some x) none = false
both_less (some x) (some y) = ltb_ℤ x y

-- `stakeLess`.
unfoldable pub stake_less : String → String → Bool
unfolding both_less
stake_less a b = both_less (parse_big a) (parse_big b)
