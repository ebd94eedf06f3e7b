-- ===== src/Wire/Fuel.antt =====
-- `Parse` ends: each round takes a byte or more, so that the fuel is enough.
use cometduty.Prelude.{
  ℕ, zero, suc, ◌+◌, ◌*◌, ◌%◌, ◌^◌, ◌≤◌, ◌<◌, ◌≡◌, refl, ◌∙◌, arith, List, [], ◌∷◌,
}
use cometduty.Prelude.{Option, none, some, length, length-drop, drop, eqb, ltb}
use cometduty.Prelude.{Bool, true, false, if_cases}
use cometduty.Prelude.Int.{ltb_ℤ, pos}
use cometduty.Wire.{
  varint_loop, consume_varint, consume_tag, tag_of, field_step, varint_step, bytes_step, parse_loop,
  parse, Parsed, fields, truncated, panics, out_of_fuel, unsupported, add_field, Field, Step, stop,
  next, as_int,
}

varint_loop-advances : (b : List ℕ) (i v w n : ℕ) → varint_loop b i v ≡ some (w, n) → i < n
unfolding varint_loop
varint_loop-advances [] i v w n h = cc
varint_loop-advances (b ∷ bs) i v w n h =
    ground (arith, varint_loop-advances bs (suc i) (v + b % 128 * 2 ^ (7 * i) % 2 ^ 64) w n)

tag_of-some :
    (o : Option (ℕ × ℕ)) (num wire n : ℕ)
    → tag_of o ≡ some (num, wire, n)
    → (v : ℕ) × (o ≡ some (v, n))
unfolding tag_of
tag_of-some none num wire n h = cc
tag_of-some (some (v, m)) num wire n h = (v, ground arith)

consume_tag-advances : (b : List ℕ) (num wire n : ℕ) → consume_tag b ≡ some (num, wire, n) → 0 < n
unfolding consume_tag consume_varint
consume_tag-advances b num wire n h =
    let (v, e) = tag_of-some (consume_varint b) num wire n h in varint_loop-advances b 0 0 v n e

unfoldable pub ran_out : Parsed → Bool
ran_out (fields fs) = false
ran_out truncated = false
ran_out panics = false
ran_out out_of_fuel = true
ran_out (unsupported w) = false

ran_out-add_field : (f : Field) (r : Parsed) → ran_out (add_field f r) ≡ ran_out r
unfolding ran_out
ran_out-add_field f (fields fs) = refl
ran_out-add_field f truncated = refl
ran_out-add_field f panics = refl
ran_out-add_field f out_of_fuel = refl
ran_out-add_field f (unsupported w) = refl

-- A round ends the parse with something other than a lack of fuel, or leaves fewer than `k` bytes.
unfoldable pub IsRound : ℕ → Step → Type 0
IsRound k (stop r) = ran_out r ≡ false
IsRound k (next f rest) = length rest < k

varint_step-IsRound :
    (num k : ℕ) (b : List ℕ) (o : Option (ℕ × ℕ)) → length b < k → IsRound k (varint_step num b o)
unfolding varint_step IsRound ran_out
varint_step-IsRound num k b none h = refl
varint_step-IsRound num k b (some (v, m)) h = omega (arith, length-drop m b)

bytes_step-IsRound :
    (num k : ℕ) (b : List ℕ) (o : Option (ℕ × ℕ)) → length b < k → IsRound k (bytes_step num b o)
unfolding bytes_step IsRound ran_out
bytes_step-IsRound num k b none h = refl
bytes_step-IsRound num k b (some (l, m)) h =
    let rest = drop m b in
    if_cases (IsRound k) (ltb_ℤ (pos (length rest)) (as_int l)) (λ e. refl)
      (λ e.
        if_cases (IsRound k) (ltb (length rest) l) (λ d. refl)
          (λ d. omega (arith, length-drop m b, length-drop l rest)))

field_step-IsRound :
    (b : List ℕ) (o : Option (ℕ × ℕ × ℕ))
    → consume_tag b ≡ o
    → 0 < length b
    → IsRound (length b) (field_step b o)
unfolding field_step IsRound ran_out
field_step-IsRound b none h k = refl
field_step-IsRound b (some (num, wire, n)) h k =
    let less : length (drop n b) < length b =
      omega (arith, length-drop n b, consume_tag-advances b num wire n h, k) in
    if_cases (IsRound (length b)) (eqb wire 0)
      (λ e. varint_step-IsRound num (length b) (drop n b) (consume_varint (drop n b)) less)
      (λ e.
        if_cases (IsRound (length b)) (eqb wire 2)
          (λ d. bytes_step-IsRound num (length b) (drop n b) (consume_varint (drop n b)) less)
          (λ d. refl))

-- The rest of a parse after a round, with a round's fuel less.
after_round :
    (fuel k : ℕ) (s : Step)
    → k ≤ suc fuel
    → IsRound k s
    → ((rest : List ℕ) → length rest ≤ fuel → ran_out (parse_loop fuel rest) ≡ false)
    → ran_out (elim s [ stop r ↦ r | next f rest ↦ add_field f (parse_loop fuel rest) ]) ≡ false
unfolding IsRound
after_round fuel k (stop r) h e go = e
after_round fuel k (next f rest) h e go =
    ran_out-add_field f (parse_loop fuel rest) ∙ go rest (omega arith)

parse_loop-ends : (fuel : ℕ) (b : List ℕ) → length b ≤ fuel → ran_out (parse_loop fuel b) ≡ false
unfolding parse_loop ran_out
parse_loop-ends fuel [] h = refl
parse_loop-ends zero (b ∷ bs) h = absurd (omega arith)
parse_loop-ends (suc fuel) (b ∷ bs) h =
    after_round fuel (length (b ∷ bs)) (field_step (b ∷ bs) (consume_tag (b ∷ bs))) h
      (field_step-IsRound (b ∷ bs) (consume_tag (b ∷ bs)) refl (omega arith)) (parse_loop-ends fuel)

-- `Parse` never runs out of fuel: it returns fields or an error, or panics, on every input.
pub parse-ends : (b : List ℕ) → ran_out (parse b) ≡ false
unfolding parse
parse-ends b = parse_loop-ends (length b) b (omega arith)
