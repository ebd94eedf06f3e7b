-- ===== src/Wire.antt =====
-- internal/protowire/protowire.go: the reader of protobuf messages and the writer of one field. A
-- byte is a number below 256, and `int` has 64 bits. A slice beyond the end of its slice panics.
pub mod Varints
pub mod Fields
pub mod Fuel
use cometduty.Prelude.{
  ℕ, zero, suc, ◌+◌, ◌*◌, ◌/◌, ◌%◌, ◌^◌, ◌-◌, Bool, true, false, List, [], ◌∷◌, ◌++◌,
}
use cometduty.Prelude.{Option, none, some, if◌then◌else◌, ltb, leb, eqb, length, drop, take, String}
use cometduty.Prelude.Int.{ℤ, pos, negsuc, ltb_ℤ}

-- The loop of `consumeVarint` at `b[i]`: seven bits of the byte go above those read so far, which they
-- do not overlap, and what does not fit 64 bits is lost.
unfoldable pub varint_loop : List ℕ → ℕ → ℕ → Option (ℕ × ℕ)
varint_loop [] i v = none
varint_loop (b ∷ bs) i v =
    let v' = v + b % 128 * 2 ^ (7 * i) % 2 ^ 64 in
    let rest = varint_loop bs (suc i) v' in
    if ltb i 10 then (if ltb b 128 then some (v', suc i) else rest) else none

-- `consumeVarint`: the value and how many bytes it took, or none for -1.
unfoldable pub consume_varint : List ℕ → Option (ℕ × ℕ)
consume_varint b = varint_loop b 0 0

tag_of : Option (ℕ × ℕ) → Option (ℕ × ℕ × ℕ)
tag_of none = none
tag_of (some (v, n)) = if eqb v 0 then none else some (v / 8, v % 8, n)

-- `consumeTag`: the field's number, its wire type and how many bytes they took.
unfoldable pub consume_tag : List ℕ → Option (ℕ × ℕ × ℕ)
unfolding tag_of
consume_tag b = tag_of (consume_varint b)

-- The loop of `appendVarint`, with fuel for the bytes that have the top bit set.
unfoldable pub append_loop : ℕ → List ℕ → ℕ → List ℕ
append_loop zero b v = b ++ (v % 256 ∷ [])
append_loop (suc fuel) b v =
    let more = append_loop fuel (b ++ ((v % 128 + 128) ∷ [])) (v / 128) in
    if leb 128 v then more else b ++ (v % 256 ∷ [])

-- `appendVarint`: 64 bits are at most nine groups of seven and one more.
unfoldable pub append_varint : List ℕ → ℕ → List ℕ
append_varint b v = append_loop 9 b v

pub record Field : Type 0 where
  pub num : ℕ
  pub wire : ℕ
  pub value : ℕ
  pub bytes : List ℕ

pub data Parsed : Type 0 where
  fields : List Field → Parsed
  truncated panics out_of_fuel : Parsed
  unsupported : ℕ → Parsed

-- `int(l)` of a uint64.
abbrev pub as_int : ℕ → ℤ
as_int l = if ltb l (2 ^ 63) then pos l else negsuc (2 ^ 64 - l - 1)

abbrev add_field : Field → Parsed → Parsed
add_field f (fields fs) = fields (f ∷ fs)
add_field f truncated = truncated
add_field f panics = panics
add_field f out_of_fuel = out_of_fuel
add_field f (unsupported w) = unsupported w

-- What `switch wire` makes of the bytes after a tag: an end of the parse, or a field and what is left.
pub data Step : Type 0 where
  stop : Parsed → Step
  next : Field → List ℕ → Step

varint_step : ℕ → List ℕ → Option (ℕ × ℕ) → Step
varint_step num b none = stop truncated
varint_step num b (some (v, m)) =
    next (record { num = num; wire = 0; value = v; bytes = [] }) (drop m b)

-- The slice `b[:l]` panics where `l` is more than there is.
bytes_step : ℕ → List ℕ → Option (ℕ × ℕ) → Step
bytes_step num b none = stop truncated
bytes_step num b (some (l, m)) =
    let rest = drop m b in
    if ltb_ℤ (pos (length rest)) (as_int l)
    then stop truncated
    else if ltb (length rest) l
    then stop panics
    else next (record { num = num; wire = 2; value = 0; bytes = take l rest }) (drop l rest)

-- One round of `Parse`.
unfoldable pub field_step : List ℕ → Option (ℕ × ℕ × ℕ) → Step
unfolding varint_step bytes_step
field_step b none = stop truncated
field_step b (some (num, wire, n)) =
    let rest = drop n b in
    if eqb wire 0
    then varint_step num rest (consume_varint rest)
    else if eqb wire 2
    then bytes_step num rest (consume_varint rest)
    else stop (unsupported wire)

unfoldable pub parse_loop : ℕ → List ℕ → Parsed
parse_loop fuel [] = fields []
parse_loop zero (b ∷ bs) = out_of_fuel
parse_loop (suc fuel) (b ∷ bs) = elim (field_step (b ∷ bs) (consume_tag (b ∷ bs))) [
  | stop r ↦ r
  | next f rest ↦ add_field f (parse_loop fuel rest)
]

-- `Parse`: a round takes a byte or more.
unfoldable pub parse : List ℕ → Parsed
parse b = parse_loop (length b) b

-- `Get`.
unfoldable pub get : List Field → ℕ → Option Field
get [] num = none
get (f ∷ fs) num = if eqb f.num num then some f else get fs num

-- `EncodeString`, for a field number that is not negative.
unfoldable pub encode_string : ℕ → List ℕ → List ℕ
encode_string num s = append_varint (append_varint [] ((num * 8 + 2) % 2 ^ 64)) (length s) ++ s
