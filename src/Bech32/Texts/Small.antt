-- ===== src/Bech32/Texts/Small.antt =====
-- internal/bech32/bech32.go: the groups that `convertBits` makes of bytes are of five bits.
use cometduty.Bech32.{Result, ok, err, convert_bits, convert_from, emit, finish, prepend}
use cometduty.Prelude.{ℕ, zero, suc, ◌-◌, ◌/◌, ◌^◌, ◌<◌, ◌≡◌, arith, true}
use cometduty.Prelude.{List, [], ◌∷◌, All, All-append, leb, ltb, eqb, if_cases}
use mathlib.Core.Path.{subst}

-- A group of five bits is below 32.
emit-small : (fuel acc bits : ℕ) → All (λ b. b < 32) (emit fuel 5 acc bits).0
unfolding emit
emit-small zero acc bits = tt
emit-small (suc fuel) acc bits =
    if_cases (λ (r : List ℕ × ℕ). All (λ b. b < 32) r.0) (leb 5 bits)
      (λ e. (omega arith, emit-small fuel acc (bits - 5))) (λ e. tt)

IsSmallResult : Result (List ℕ) → Type 0
IsSmallResult (err e) = Unit
IsSmallResult (ok gs) = All (λ b. b < 32) gs

prepend-small :
    (out : List ℕ) (r : Result (List ℕ))
    → All (λ b. b < 32) out
    → IsSmallResult r
    → IsSmallResult (prepend out r)
unfolding IsSmallResult prepend
prepend-small out (err e) h k = tt
prepend-small out (ok gs) h k = All-append (λ b. b < 32) out gs h k

convert_from-small :
    (data' : List ℕ) (acc bits : ℕ) → IsSmallResult (convert_from 8 5 true acc bits data')
unfolding convert_from finish IsSmallResult
convert_from-small [] acc bits =
    if_cases (λ r. All (λ b. b < 32) r) (ltb 0 bits) (λ e. (omega arith, tt)) (λ e. tt)
convert_from-small (b ∷ data') acc bits =
    if_cases IsSmallResult (eqb (b / 2 ^ 8) 0)
      (λ e. prepend-small _ _ (emit-small _ _ _) (convert_from-small data' _ _)) (λ e. tt)

pub convert_bits-small :
    (data' gs : List ℕ) → convert_bits data' 8 5 true ≡ ok gs → All (λ b. b < 32) gs
unfolding convert_bits IsSmallResult
convert_bits-small data' gs e = subst IsSmallResult e (convert_from-small data' 0 0)
