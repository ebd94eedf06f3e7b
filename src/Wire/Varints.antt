-- ===== src/Wire/Varints.antt =====
-- A varint is read back as it was written.
use cometduty.Prelude.{
  ℕ, zero, suc, ◌+◌, ◌*◌, ◌/◌, ◌%◌, ◌^◌, ◌≤◌, ◌<◌, ◌≡◌, refl, sym, ap, ◌∙◌, arith,
}
use cometduty.Prelude.{List, [], ◌∷◌, ◌++◌, length, some, leb, ltb, true, false, if◌then◌else◌}
use cometduty.Wire.{varint_loop, consume_varint, append_loop, append_varint}
use mathlib.Core.Path.{ap₂}
use mathlib.Core.List.{append_assoc}
use native.Mathlib.Nat.{div-add-mod}
use native.Mathlib.Numerals.{towards_suc}

-- The bytes of a number, the lowest seven bits first.
unfoldable pub bytes_of : ℕ → ℕ → List ℕ
bytes_of zero v = v % 256 ∷ []
bytes_of (suc k) v =
    let more = (v % 128 + 128) ∷ bytes_of k (v / 128) in if leb 128 v then more else v % 256 ∷ []

append_loop-bytes_of : (k v : ℕ) (b : List ℕ) → append_loop k b v ≡ b ++ bytes_of k v
unfolding append_loop bytes_of
append_loop-bytes_of zero v b = refl
append_loop-bytes_of (suc k) v b = ground (
  arith,
  append_loop-bytes_of k (v / 128) (b ++ ((v % 128 + 128) ∷ [])),
  append_assoc b ((v % 128 + 128) ∷ []) (bytes_of k (v / 128)),
)

weight_suc : (i : ℕ) → 2 ^ (7 * suc i) ≡ 128 * 2 ^ (7 * i)
weight_suc i = ap (λ e. 2 ^ e) (omega arith) ∙ seven (7 * i)
  where
    seven : (e : ℕ) → 2 ^ (e + 7) ≡ 128 * 2 ^ e
    seven e = simp towards_suc (omega arith)

-- The last byte of a number, read at place `i` above `v`.
varint_last :
    (w i v : ℕ) (rest : List ℕ)
    → w < 128
    → i ≤ 9
    → v + w * 2 ^ (7 * i) < 2 ^ 64
    → varint_loop (w % 256 ∷ rest) i v ≡ some (v + w * 2 ^ (7 * i), suc i)
unfolding varint_loop
varint_last w i v rest hw hi fits =
    let low : w % 256 ≡ w = omega arith in
    let seven : w % 128 ≡ w = omega arith in rw (low, seven) (ground arith)

-- A byte with the top bit set.
varint_inner :
    (g i v : ℕ) (rest : List ℕ)
    → g < 128
    → i ≤ 9
    → v + g * 2 ^ (7 * i) < 2 ^ 64
    → varint_loop ((g + 128) ∷ rest) i v ≡ varint_loop rest (suc i) (v + g * 2 ^ (7 * i))
unfolding varint_loop
varint_inner g i v rest hg hi fits =
    let seven : (g + 128) % 128 ≡ g = omega arith in
    let whole : g * 2 ^ (7 * i) % 2 ^ 64 ≡ g * 2 ^ (7 * i) = omega arith in
    let here : ltb i 10 ≡ true = ground arith in
    let high : ltb (g + 128) 128 ≡ false = ground arith in rw (seven, whole, here, high) refl

split_seven : (w i : ℕ) → w * 2 ^ (7 * i) ≡ w % 128 * 2 ^ (7 * i) + w / 128 * 2 ^ (7 * suc i)
split_seven w i = omega (
  arith,
  ap (λ (t : ℕ). t * 2 ^ (7 * i)) (div-add-mod w 128),
  ap (λ (t : ℕ). w / 128 * t) (weight_suc i),
)

varint_loop-bytes_of :
    (k i v w : ℕ) (rest : List ℕ)
    → w < 128 ^ suc k
    → i + k ≤ 9
    → v + w * 2 ^ (7 * i) < 2 ^ 64
    → varint_loop (bytes_of k w ++ rest) i v ≡ some (v + w * 2 ^ (7 * i), i + length (bytes_of k w))
unfolding bytes_of
varint_loop-bytes_of zero i v w rest hw hi fits =
    varint_last w i v rest (omega arith) (omega arith) fits ∙ ground arith
varint_loop-bytes_of (suc k) i v w rest hw hi fits = ground (
  arith,
  varint_last w i v rest,
  split_seven w i,
  varint_inner (w % 128) i v (bytes_of k (w / 128) ++ rest),
  varint_loop-bytes_of k (suc i) (v + w % 128 * 2 ^ (7 * i)) (w / 128) rest (omega arith),
)

-- `consumeVarint` reads back the uint64 that `appendVarint` wrote, whatever follows, and takes just
-- the bytes that were written.
pub consume_varint-append_varint :
    (v : ℕ) (rest : List ℕ)
    → v < 2 ^ 64
    → consume_varint (append_varint [] v ++ rest) ≡ some (v, length (append_varint [] v))
unfolding consume_varint append_varint
consume_varint-append_varint v rest h =
    let bytes = append_loop-bytes_of 9 v [] in
    ap (λ b. varint_loop (b ++ rest) 0 0) bytes
    ∙ varint_loop-bytes_of 9 0 0 v rest (omega arith) (omega arith) (omega arith)
    ∙ ap₂ (λ a n. some (a, n)) (omega arith) (omega (arith, ap length (sym bytes)))

pub append_varint-append : (b : List ℕ) (v : ℕ) → append_varint b v ≡ b ++ append_varint [] v
unfolding append_varint
append_varint-append b v =
    append_loop-bytes_of 9 v b ∙ ap (◌++◌ b) (sym (append_loop-bytes_of 9 v []))
