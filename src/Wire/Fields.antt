-- ===== src/Wire/Fields.antt =====
-- A field is read back as it was written, and what a length that is not an `int` does.
use cometduty.Prelude.{ℕ, suc, ◌+◌, ◌*◌, ◌/◌, ◌%◌, ◌^◌, ◌-◌, ◌≤◌, ◌<◌, ◌≡◌, refl, ap, ◌∙◌, arith}
use cometduty.Prelude.{List, [], ◌∷◌, ◌++◌, length, some, if_false}
use cometduty.Prelude.{drop-append, take_all, drop_all, eqb, ltb, true, false}
use cometduty.Wire.{
  consume_varint, append_varint, consume_tag, tag_of, field_step, bytes_step, parse_loop, parse,
  varint_loop, fields, panics, add_field, Field, truncated, stop, next, encode_string,
}
use cometduty.Wire.Varints.{consume_varint-append_varint, append_varint-append}
use mathlib.Core.List.{append_assoc}

-- What is written for a field: the tag, the length, and what follows.
abbrev message : ℕ → ℕ → List ℕ → List ℕ
message num l s = append_varint (append_varint [] (num * 8 + 2)) l ++ s

message_parts :
    (num l : ℕ) (s : List ℕ)
    → message num l s ≡ append_varint [] (num * 8 + 2) ++ (append_varint [] l ++ s)
message_parts num l s =
    ap (λ b. b ++ s) (append_varint-append (append_varint [] (num * 8 + 2)) l)
    ∙ append_assoc (append_varint [] (num * 8 + 2)) (append_varint [] l) s

tag_of_field : (num n : ℕ) → tag_of (some (num * 8 + 2, n)) ≡ some (num, 2, n)
unfolding tag_of
tag_of_field num n =
    let there : eqb (num * 8 + 2) 0 ≡ false = ground arith in
    let number : (num * 8 + 2) / 8 ≡ num = omega arith in
    let wire : (num * 8 + 2) % 8 ≡ 2 = omega arith in rw (there, number, wire) refl

-- What a round makes of a message that starts with a field of wire type 2.
field_step-message :
    (num l : ℕ) (s : List ℕ)
    → num * 8 + 2 < 2 ^ 64
    → l < 2 ^ 64
    → field_step (message num l s) (consume_tag (message num l s))
      ≡ bytes_step num (append_varint [] l ++ s) (some (l, length (append_varint [] l)))
unfolding consume_tag field_step
field_step-message num l s h k =
    let tag = append_varint [] (num * 8 + 2) in
    let body = append_varint [] l ++ s in
    ap (λ b. field_step b (tag_of (consume_varint b))) (message_parts num l s)
    ∙ ap (λ r. field_step (tag ++ body) (tag_of r)) (consume_varint-append_varint _ body h)
    ∙ ap (field_step (tag ++ body)) (tag_of_field num (length tag))
    ∙ ap (λ b. bytes_step num b (consume_varint b)) (drop-append tag body)
    ∙ ap (bytes_step num body) (consume_varint-append_varint l s k)

bytes_step_whole :
    (num : ℕ) (s front : List ℕ)
    → length s < 2 ^ 63
    → bytes_step num (front ++ s) (some (length s, length front))
      ≡ next (record { num = num; wire = 2; value = 0; bytes = s }) []
unfolding bytes_step
bytes_step_whole num s front h =
    let int : ltb (length s) (2 ^ 63) ≡ true = ground arith in
    let full : ltb (length s) (length s) ≡ false = ground arith in
    rw (drop-append front s, int, full, take_all s, drop_all s)
      (if_false (stop truncated) (ltb (length s + 0) (length s + 0)) (ground arith))

bytes_step_panics :
    (num l : ℕ) (s front : List ℕ)
    → 2 ^ 63 ≤ l
    → length s < l
    → bytes_step num (front ++ s) (some (l, length front)) ≡ stop panics
unfolding bytes_step
bytes_step_panics num l s front h k =
    let int : ltb l (2 ^ 63) ≡ false = ground arith in
    let short : ltb (length s) l ≡ true = ground arith in
    rw (drop-append front s, int, short)
      (if_false (stop truncated) (ltb (length s + suc (2 ^ 64 - l - 1)) 0) (ground arith))

-- A round of the loop of `Parse`.
parse_loop_next :
    (b rest : List ℕ) (f : Field)
    → field_step b (consume_tag b) ≡ next f rest
    → (n : ℕ) × (parse b ≡ add_field f (parse_loop n rest))
unfolding parse parse_loop consume_tag consume_varint varint_loop tag_of field_step
parse_loop_next [] rest f h = cc
parse_loop_next (b ∷ bs) rest f h = (length bs, rw (h, parse_loop) refl)

parse_stops : (b : List ℕ) → field_step b (consume_tag b) ≡ stop panics → parse b ≡ panics
unfolding parse parse_loop consume_tag consume_varint varint_loop tag_of field_step
parse_stops [] h = cc
parse_stops (b ∷ bs) h = rw (h, parse_loop) refl

-- `Parse` reads back the one field that `EncodeString` wrote, for a number below 2 ^ 61 and a text
-- shorter than 2 ^ 63 bytes.
pub parse-encode_string :
    (num : ℕ) (s : List ℕ)
    → num < 2 ^ 61
    → length s < 2 ^ 63
    → parse (encode_string num s)
      ≡ fields (record { num = num; wire = 2; value = 0; bytes = s } ∷ [])
unfolding encode_string parse_loop
parse-encode_string num s h k =
    let whole : (num * 8 + 2) % 2 ^ 64 ≡ num * 8 + 2 = omega arith in
    let step =
      field_step-message num (length s) s (omega arith) (omega arith)
      ∙ bytes_step_whole num s (append_varint [] (length s)) k in
    let (n, e) = parse_loop_next (message num (length s) s) [] _ step in
    ap (λ t. parse (append_varint (append_varint [] t) (length s) ++ s)) whole ∙ e

-- A first field with a number below 2 ^ 61 and a length of 2 ^ 63 or more, which fewer bytes follow,
-- is not refused as truncated: `int(l)` is negative, the test passes, and the slice panics.
pub parse_panics :
    (num l : ℕ) (s : List ℕ)
    → num < 2 ^ 61
    → 2 ^ 63 ≤ l
    → l < 2 ^ 64
    → length s < l
    → parse (append_varint (append_varint [] (num * 8 + 2)) l ++ s) ≡ panics
parse_panics num l s h big k short = parse_stops (message num l s) (
    field_step-message num l s (omega arith) k
    ∙ bytes_step_panics num l s (append_varint [] l) big short)
