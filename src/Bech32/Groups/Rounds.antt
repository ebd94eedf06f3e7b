-- ===== src/Bech32/Groups/Rounds.antt =====
-- internal/bech32/bech32.go: a round of `convertBits` in each of the five states that bytes leave.
use cometduty.Bech32.{convert_from, emit, finish, prepend, ok}
use cometduty.Prelude.{
  ℕ, zero, suc, ◌+◌, ◌-◌, ◌*◌, ◌/◌, ◌%◌, ◌^◌, ◌<◌, ◌≡◌, refl, ap, ◌∙◌, arith, Bool, true, false,
}
use mathlib.Core.Path.{ap₂}
use cometduty.Prelude.{List, [], ◌∷◌, ◌++◌, leb}

-- The accumulator after a byte.
abbrev pub add_bits : ℕ → ℕ → ℕ → ℕ → ℕ
add_bits from to acc b = (acc * 2 ^ from % 2 ^ 32 + b) % 2 ^ (from + to - 1)

module _ (from to : ℕ) (pad : Bool) (acc bits b : ℕ) (rest : List ℕ) where
  abbrev cut_off : List ℕ × ℕ
  cut_off = emit (bits + from) to (add_bits from to acc b) (bits + from)

  -- A round of the loop on a byte in range.
  convert_from_next :
      (out : List ℕ)
      → b / 2 ^ from ≡ 0
      → convert_from from to pad (add_bits from to acc b) cut_off.1 rest ≡ ok out
      → convert_from from to pad acc bits (b ∷ rest) ≡ ok (cut_off.0 ++ out)
  unfolding convert_from prepend
  convert_from_next out small e = rw (small, e) refl

-- The byte whose last bits wait in the encoder, if some do.
abbrev pub waiting : ℕ → ℕ → List ℕ
waiting zero y = []
waiting (suc k) y = y ∷ []

-- How many of its bits the decoder has then.
abbrev pub behind : ℕ → ℕ
behind zero = 0
behind (suc k) = 7 - k

abbrev pub Reads : ℕ → ℕ → ℕ → ℕ → List ℕ → Type 0
Reads k acc acc' y data' =
    (gs : List ℕ) × (convert_from 8 5 true acc k data' ≡ ok gs)
    × (convert_from 5 8 false acc' (behind k) gs ≡ ok (waiting k y ++ data'))

-- The five states of the encoder: how many bits wait. `g` and `g'` are the groups that a byte gives.
module _ (acc acc' y x g g' : ℕ) (data' : List ℕ) (h : x < 256) where
  abbrev pub fed : ℕ
  fed = add_bits 8 5 acc x

  abbrev pub taken : ℕ
  taken = add_bits 5 8 acc' g

  abbrev pub twice : ℕ
  twice = add_bits 5 8 taken g'

  pub reads_0 : g ≡ fed / 2 ^ 3 % 2 ^ 5 → Reads 3 fed taken x data' → Reads 0 acc acc' y (x ∷ data')
  unfolding emit
  reads_0 e (gs, e1, e2) = (
    g ∷ gs,
    convert_from_next 8 5 true acc 0 x data' gs (omega arith) e1
        ∙ ap (λ t. ok (t ∷ gs)) (omega (arith, e)),
    convert_from_next 5 8 false acc' 0 g gs (x ∷ data') (omega (arith, e)) e2,
  )

  pub reads_1 :
      acc % 2 ^ 1 ≡ y % 2 ^ 1
      → acc' % 2 ^ 7 ≡ y / 2 ^ 1
      → y < 256
      → g ≡ fed / 2 ^ 4 % 2 ^ 5
      → Reads 4 fed taken x data'
      → Reads 1 acc acc' y (x ∷ data')
  unfolding emit
  reads_1 p q hy e (gs, e1, e2) = (
    g ∷ gs,
    convert_from_next 8 5 true acc 1 x data' gs (omega arith) e1
        ∙ ap (λ t. ok (t ∷ gs)) (omega (arith, e)),
    convert_from_next 5 8 false acc' 7 g gs (x ∷ data') (omega (arith, e)) e2
        ∙ ap (λ t. ok (t ∷ x ∷ data')) (omega (arith, p, q, e)),
  )

  pub reads_2 :
      acc % 2 ^ 2 ≡ y % 2 ^ 2
      → acc' % 2 ^ 6 ≡ y / 2 ^ 2
      → y < 256
      → g ≡ fed / 2 ^ 5 % 2 ^ 5
      → g' ≡ fed / 2 ^ 0 % 2 ^ 5
      → Reads 0 fed twice x data'
      → Reads 2 acc acc' y (x ∷ data')
  unfolding emit
  reads_2 p q hy e e' (gs, e1, e2) =
      let second : convert_from 5 8 false taken 3 (g' ∷ gs) ≡ ok (x ∷ data') =
        convert_from_next 5 8 false taken 3 g' gs data' (omega (arith, e')) e2
        ∙ ap (λ t. ok (t ∷ data')) (omega (arith, e, e')) in
      (
        g ∷ g' ∷ gs,
        convert_from_next 8 5 true acc 2 x data' gs (omega arith) e1
            ∙ ap₂ (λ s t. ok (s ∷ t ∷ gs)) (omega (arith, e)) (omega (arith, e')),
        convert_from_next 5 8 false acc' 6 g (g' ∷ gs) (x ∷ data') (omega (arith, e)) second
            ∙ ap (λ t. ok (t ∷ x ∷ data')) (omega (arith, p, q, e)),
      )

  pub reads_3 :
      acc % 2 ^ 3 ≡ y % 2 ^ 3
      → acc' % 2 ^ 5 ≡ y / 2 ^ 3
      → y < 256
      → g ≡ fed / 2 ^ 6 % 2 ^ 5
      → g' ≡ fed / 2 ^ 1 % 2 ^ 5
      → Reads 1 fed twice x data'
      → Reads 3 acc acc' y (x ∷ data')
  unfolding emit
  reads_3 p q hy e e' (gs, e1, e2) =
      let second : convert_from 5 8 false taken 2 (g' ∷ gs) ≡ ok (x ∷ data') =
        convert_from_next 5 8 false taken 2 g' gs (x ∷ data') (omega (arith, e')) e2 in
      (
        g ∷ g' ∷ gs,
        convert_from_next 8 5 true acc 3 x data' gs (omega arith) e1
            ∙ ap₂ (λ s t. ok (s ∷ t ∷ gs)) (omega (arith, e)) (omega (arith, e')),
        convert_from_next 5 8 false acc' 5 g (g' ∷ gs) (x ∷ data') (omega (arith, e)) second
            ∙ ap (λ t. ok (t ∷ x ∷ data')) (omega (arith, p, q, e)),
      )

  pub reads_4 :
      acc % 2 ^ 4 ≡ y % 2 ^ 4
      → acc' % 2 ^ 4 ≡ y / 2 ^ 4
      → y < 256
      → g ≡ fed / 2 ^ 7 % 2 ^ 5
      → g' ≡ fed / 2 ^ 2 % 2 ^ 5
      → Reads 2 fed twice x data'
      → Reads 4 acc acc' y (x ∷ data')
  unfolding emit
  reads_4 p q hy e e' (gs, e1, e2) =
      let second : convert_from 5 8 false taken 1 (g' ∷ gs) ≡ ok (x ∷ data') =
        convert_from_next 5 8 false taken 1 g' gs (x ∷ data') (omega (arith, e')) e2 in
      (
        g ∷ g' ∷ gs,
        convert_from_next 8 5 true acc 4 x data' gs (omega arith) e1
            ∙ ap₂ (λ s t. ok (s ∷ t ∷ gs)) (omega (arith, e)) (omega (arith, e')),
        convert_from_next 5 8 false acc' 4 g (g' ∷ gs) (x ∷ data') (omega (arith, e)) second
            ∙ ap (λ t. ok (t ∷ x ∷ data')) (omega (arith, p, q, e)),
      )

-- The zeros that fill up the last group are let pass.
pub finish_zeros :
    (acc left : ℕ)
    → left < 5
    → acc * 2 ^ (8 - left) % 2 ^ 32 % 2 ^ 8 % 2 ^ 8 ≡ 0
    → finish 5 8 false acc left ≡ ok []
unfolding finish
finish_zeros acc left h e = let few : leb 5 left ≡ false = ground arith in rw (few, e) refl

-- The end of the bytes, where one of the five states has a group to fill up.
module _ (acc acc' y : ℕ) (hy : y < 256) where
  pub end_1 : acc % 2 ^ 1 ≡ y % 2 ^ 1 → acc' % 2 ^ 7 ≡ y / 2 ^ 1 → Reads 1 acc acc' y []
  unfolding emit finish convert_from
  end_1 p q =
      let g = acc * 2 ^ 4 % 2 ^ 32 % 2 ^ 5 % 2 ^ 8 in
      let done = finish_zeros (add_bits 5 8 acc' g) 4 (omega arith) (omega (arith, p)) in
      (
        g ∷ [],
        refl,
        convert_from_next 5 8 false acc' 7 g [] [] (omega arith) done
            ∙ ap (λ t. ok (t ∷ [])) (omega (arith, p, q)),
      )

  pub end_2 : acc % 2 ^ 2 ≡ y % 2 ^ 2 → acc' % 2 ^ 6 ≡ y / 2 ^ 2 → Reads 2 acc acc' y []
  unfolding emit finish convert_from
  end_2 p q =
      let g = acc * 2 ^ 3 % 2 ^ 32 % 2 ^ 5 % 2 ^ 8 in
      let done = finish_zeros (add_bits 5 8 acc' g) 3 (omega arith) (omega (arith, p)) in
      (
        g ∷ [],
        refl,
        convert_from_next 5 8 false acc' 6 g [] [] (omega arith) done
            ∙ ap (λ t. ok (t ∷ [])) (omega (arith, p, q)),
      )

  pub end_3 : acc % 2 ^ 3 ≡ y % 2 ^ 3 → acc' % 2 ^ 5 ≡ y / 2 ^ 3 → Reads 3 acc acc' y []
  unfolding emit finish convert_from
  end_3 p q =
      let g = acc * 2 ^ 2 % 2 ^ 32 % 2 ^ 5 % 2 ^ 8 in
      let done = finish_zeros (add_bits 5 8 acc' g) 2 (omega arith) (omega (arith, p)) in
      (
        g ∷ [],
        refl,
        convert_from_next 5 8 false acc' 5 g [] [] (omega arith) done
            ∙ ap (λ t. ok (t ∷ [])) (omega (arith, p, q)),
      )

  pub end_4 : acc % 2 ^ 4 ≡ y % 2 ^ 4 → acc' % 2 ^ 4 ≡ y / 2 ^ 4 → Reads 4 acc acc' y []
  unfolding emit finish convert_from
  end_4 p q =
      let g = acc * 2 ^ 1 % 2 ^ 32 % 2 ^ 5 % 2 ^ 8 in
      let done = finish_zeros (add_bits 5 8 acc' g) 1 (omega arith) (omega (arith, p)) in
      (
        g ∷ [],
        refl,
        convert_from_next 5 8 false acc' 4 g [] [] (omega arith) done
            ∙ ap (λ t. ok (t ∷ [])) (omega (arith, p, q)),
      )
