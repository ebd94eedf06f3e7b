-- ===== src/Examples/Codecs.antt =====
-- Varints and fields.
use cometduty.Prelude.{[], ◌∷◌, ◌++◌, ◌≡◌, ◌+◌, ◌*◌, ◌^◌, arith, length, some}
use cometduty.Wire.{consume_varint, append_varint, parse, panics}
use cometduty.Wire.Varints.{consume_varint-append_varint}
use cometduty.Prelude.{false}
use cometduty.Wire.Fuel.{parse-ends, ran_out}
use cometduty.Wire.Fields.{parse_panics}

consume_varint-append_varint_example :
    consume_varint (append_varint [] 300 ++ (7 ∷ [])) ≡ some (300, length (append_varint [] 300))
consume_varint-append_varint_example = consume_varint-append_varint 300 (7 ∷ []) (omega arith)

-- Eleven bytes: a tag, and a length of 2 ^ 63.
parse_panics_example : parse (append_varint (append_varint [] (1 * 8 + 2)) (2 ^ 63) ++ []) ≡ panics
parse_panics_example =
    parse_panics 1 (2 ^ 63) [] (omega arith) (omega arith) (omega arith) (omega arith)

parse-ends_example : ran_out (parse (8 ∷ 150 ∷ 1 ∷ [])) ≡ false
parse-ends_example = parse-ends (8 ∷ 150 ∷ 1 ∷ [])
