-- ===== src/Bech32/Groups.antt =====
-- Groups of five bits give back the bytes that they were made of.
mod Rounds
use Rounds.{
  Reads, behind, waiting, finish_zeros, reads_0, reads_1, reads_2, reads_3, reads_4, end_1, end_2,
  end_3, end_4, add_bits,
}
use cometduty.Bech32.{convert_from, convert_bits, finish, Result, ok, ◌>>=◌}
use cometduty.Prelude.{
  ℕ, zero, suc, ◌-◌, ◌*◌, ◌/◌, ◌%◌, ◌^◌, ◌<◌, ◌+◌, ◌≡◌, refl, ap, ◌∙◌, arith, true, false,
}
use cometduty.Prelude.{List, [], ◌∷◌, ◌++◌, All}

-- The first group that a byte gives above `k` bits, and the second.
abbrev first : ℕ → ℕ → ℕ → ℕ
first k acc x = add_bits 8 5 acc x / 2 ^ (k + 3) % 2 ^ 5

abbrev second : ℕ → ℕ → ℕ → ℕ
second k acc x = add_bits 8 5 acc x / 2 ^ (k - 2) % 2 ^ 5

-- Wherever the encoder stands, the decoder that follows it gives the byte that waits and the rest.
reads :
    (data' : List ℕ) (k acc acc' y : ℕ)
    → k < 5
    → y < 256
    → acc % 2 ^ k ≡ y % 2 ^ k
    → acc' % 2 ^ behind k ≡ y / 2 ^ (8 - behind k)
    → All (λ b. b < 256) data'
    → Reads k acc acc' y data'
unfolding convert_from finish
reads [] zero acc acc' y hk hy p q h = ([], refl, finish_zeros acc' 0 (omega arith) (omega arith))
reads [] (suc zero) acc acc' y hk hy p q h = end_1 acc acc' y hy p q
reads [] (suc (suc zero)) acc acc' y hk hy p q h = end_2 acc acc' y hy p q
reads [] (suc (suc (suc zero))) acc acc' y hk hy p q h = end_3 acc acc' y hy p q
reads [] (suc (suc (suc (suc zero)))) acc acc' y hk hy p q h = end_4 acc acc' y hy p q
reads (x ∷ data') zero acc acc' y hk hy p q (hx, h) =
    let g = first 0 acc x in
    reads_0 acc acc' y x g 0 data' hx refl
      (reads data' 3 _ _ x (omega arith) hx (omega arith) (omega arith) h)
reads (x ∷ data') (suc zero) acc acc' y hk hy p q (hx, h) =
    let g = first 1 acc x in
    reads_1 acc acc' y x g 0 data' hx p q hy refl
      (reads data' 4 _ _ x (omega arith) hx (omega arith) (omega arith) h)
reads (x ∷ data') (suc (suc zero)) acc acc' y hk hy p q (hx, h) =
    reads_2 acc acc' y x (first 2 acc x) (second 2 acc x) data' hx p q hy refl refl
      (reads data' 0 _ _ x (omega arith) hx (omega arith) (omega arith) h)
reads (x ∷ data') (suc (suc (suc zero))) acc acc' y hk hy p q (hx, h) =
    reads_3 acc acc' y x (first 3 acc x) (second 3 acc x) data' hx p q hy refl refl
      (reads data' 1 _ _ x (omega arith) hx (omega arith) (omega arith) h)
reads (x ∷ data') (suc (suc (suc (suc zero)))) acc acc' y hk hy p q (hx, h) =
    reads_4 acc acc' y x (first 4 acc x) (second 4 acc x) data' hx p q hy refl refl
      (reads data' 2 _ _ x (omega arith) hx (omega arith) (omega arith) h)
reads data' (suc (suc (suc (suc (suc k))))) acc acc' y hk hy p q h = absurd (omega arith)

-- `convertBits` makes groups of five bits of every list of bytes, without an error, and makes the
-- same bytes of those groups again.
pub convert_bits-convert_bits :
    (data' : List ℕ)
    → All (λ b. b < 256) data'
    → (gs : List ℕ) × (convert_bits data' 8 5 true ≡ ok gs) × (convert_bits gs 5 8 false ≡ ok data')
unfolding convert_bits
convert_bits-convert_bits data' h = reads data' 0 0 0 0 (omega arith) (omega arith) refl refl h
