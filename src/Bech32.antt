-- ===== src/Bech32.antt =====
-- internal/bech32/bech32.go: the text form of an address. A text is its bytes, of ASCII, and a byte
-- is a number below 256; a `uint32` is a number below 2 ^ 32.
pub mod Groups
pub mod Checksum
pub mod Texts
use cometduty.Prelude.{
  ℕ, zero, suc, ◌+◌, ◌-◌, ◌*◌, ◌/◌, ◌%◌, ◌^◌, Bool, true, false, not, ◌&&◌, ◌||◌, List, [], ◌∷◌,
}
use cometduty.Prelude.{
  ◌++◌, map, Option, none, some, if◌then◌else◌, ltb, leb, eqb, length, take, drop, any,
}
use cometduty.Prelude.Text.{lower}
use Prim.Native.Nat.{bit_xor}

pub data Error : Type 0 where
  hrp_length hrp_character out_of_range invalid_padding : Error
  invalid_length mixed_case bad_separator invalid_character checksum_mismatch : Error
  no_separator : Error

-- A value, or the error that was returned in its place.
pub data Result {ℓ} (T : Type ℓ) : Type ℓ where
  err : Error → Result T
  ok : T → Result T

infixl 5 ◌>>=◌
abbrev pub ◌>>=◌ {ℓ κ} : {S : Type ℓ} {T : Type κ} → Result S → (S → Result T) → Result T
r >>= next = elim r [ err e ↦ err e | ok s ↦ next s ]

abbrev pub charset : List ℕ
charset =
    b'q' ∷ b'p' ∷ b'z' ∷ b'r' ∷ b'y' ∷ b'9' ∷ b'x' ∷ b'8' ∷ b'g' ∷ b'f' ∷ b'2' ∷ b't' ∷ b'v' ∷ b'd'
    ∷ b'w' ∷ b'0' ∷ b's' ∷ b'3' ∷ b'j' ∷ b'n' ∷ b'5' ∷ b'4' ∷ b'k' ∷ b'h' ∷ b'c' ∷ b'e' ∷ b'6'
    ∷ b'm' ∷ b'u' ∷ b'a' ∷ b'7' ∷ b'l' ∷ []

-- `charset[b]`, of a group of five bits.
unfoldable pub char_at : List ℕ → ℕ → ℕ
char_at [] b = 0
char_at (c ∷ cs) zero = c
char_at (c ∷ cs) (suc b) = char_at cs b

rev_from : List ℕ → ℕ → ℕ → Option ℕ
rev_from [] i c = none
rev_from (d ∷ ds) i c = if eqb d c then some i else rev_from ds (suc i) c

-- `charsetRev`, with none for -1 and for what lies beyond the table.
unfoldable pub charset_rev : ℕ → Option ℕ
unfolding rev_from
charset_rev c = rev_from charset 0 c

abbrev generators : List ℕ
generators = 0x3b6a57b2 ∷ 0x26508e6d ∷ 0x1ea119fa ∷ 0x3d4233dd ∷ 0x2a1462b3 ∷ []

-- The inner loop of `polymod`, at bit i of `top`.
unfoldable pub feedback : List ℕ → ℕ → ℕ → ℕ → ℕ
feedback [] i top chk = chk
feedback (g ∷ gs) i top chk =
    feedback gs (suc i) top (if eqb (top / 2 ^ i % 2) 1 then bit_xor chk g else chk)

-- A round of `polymod`. The shift stays below 2 ^ 30.
unfoldable pub polymod_step : ℕ → ℕ → ℕ
polymod_step chk v = feedback generators 0 (chk / 2 ^ 25) (bit_xor (chk % 2 ^ 25 * 32) v)

unfoldable pub polymod_from : ℕ → List ℕ → ℕ
polymod_from chk [] = chk
polymod_from chk (v ∷ vs) = polymod_from (polymod_step chk v) vs

unfoldable pub polymod : List ℕ → ℕ
polymod values = polymod_from 1 values

unfoldable pub hrp_expand : List ℕ → List ℕ
hrp_expand hrp = map (λ c. c / 32) hrp ++ (0 ∷ map (λ c. c % 32) hrp)

-- The six groups of five bits of a checksum.
abbrev pub groups : ℕ → List ℕ
groups chk =
    chk / 2 ^ 25 % 32
    ∷ chk / 2 ^ 20 % 32
    ∷ chk / 2 ^ 15 % 32
    ∷ chk / 2 ^ 10 % 32
    ∷ chk / 2 ^ 5 % 32
    ∷ chk % 32
    ∷ []

unfoldable pub create_checksum : List ℕ → List ℕ → List ℕ
create_checksum hrp data' =
    let values = hrp_expand hrp ++ data' in
    groups (bit_xor (polymod (values ++ (0 ∷ 0 ∷ 0 ∷ 0 ∷ 0 ∷ 0 ∷ []))) 1)

unfoldable pub verify_checksum : List ℕ → List ℕ → Bool
verify_checksum hrp data' = eqb (polymod (hrp_expand hrp ++ data')) 1

-- The inner loop of `convertBits`, whose fuel is the number of bits: the groups that are cut off, and
-- how many bits are left.
unfoldable pub emit : ℕ → ℕ → ℕ → ℕ → List ℕ × ℕ
emit zero to acc bits = ([], bits)
emit (suc fuel) to acc bits =
    let (out, left) = emit fuel to acc (bits - to) in
    if leb to bits then (acc / 2 ^ (bits - to) % 2 ^ to % 2 ^ 8 ∷ out, left) else ([], bits)

-- What follows the loop of `convertBits`.
unfoldable pub finish : ℕ → ℕ → Bool → ℕ → ℕ → Result (List ℕ)
finish from to pad acc bits =
    let last = acc * 2 ^ (to - bits) % 2 ^ 32 % 2 ^ to % 2 ^ 8 in
    if pad
    then ok (if ltb 0 bits then last ∷ [] else [])
    else if leb from bits || not (eqb last 0)
    then err invalid_padding
    else ok []

prepend : List ℕ → Result (List ℕ) → Result (List ℕ)
prepend out r = r >>= λ rest. ok (out ++ rest)

-- The loop of `convertBits`. The byte goes below the bits so far, which it does not overlap.
unfoldable pub convert_from : ℕ → ℕ → Bool → ℕ → ℕ → List ℕ → Result (List ℕ)
unfolding prepend
convert_from from to pad acc bits [] = finish from to pad acc bits
convert_from from to pad acc bits (b ∷ data') =
    let acc' = (acc * 2 ^ from % 2 ^ 32 + b) % 2 ^ (from + to - 1) in
    let (out, left) = emit (bits + from) to acc' (bits + from) in
    let rest = convert_from from to pad acc' left data' in
    if eqb (b / 2 ^ from) 0 then prepend out rest else err out_of_range

unfoldable pub convert_bits : List ℕ → ℕ → ℕ → Bool → Result (List ℕ)
convert_bits data' from to pad = convert_from from to pad 0 0 data'

-- `strings.ToLower` and `strings.ToUpper`.
abbrev pub to_lower : List ℕ → List ℕ
to_lower = map lower

abbrev pub to_upper : List ℕ → List ℕ
to_upper = map (λ c. if leb b'a' c && leb c b'z' then c - 32 else c)

-- A character that a prefix may not have.
abbrev pub is_bad_char : ℕ → Bool
is_bad_char c = ltb c 33 || ltb 126 c

unfoldable pub encode : List ℕ → List ℕ → Result (List ℕ)
encode hrp data' =
    if eqb (length hrp) 0 || ltb 83 (length hrp)
    then err hrp_length
    else if any is_bad_char hrp
    then err hrp_character
    else (convert_bits data' 8 5 true >>= λ five_bit.
        let low = to_lower hrp in
        let combined = five_bit ++ create_checksum low five_bit in
        ok (low ++ (b'1' ∷ map (char_at charset) combined)))

-- `strings.LastIndexByte`, with none for -1.
unfoldable pub last_index : List ℕ → ℕ → Option ℕ
last_index [] c = none
last_index (x ∷ xs) c = elim (last_index xs c) [
  | some i ↦ some (suc i)
  | none ↦ if eqb x c then some 0 else none
]

add_char : Option ℕ → Result (List ℕ) → Result (List ℕ)
add_char none rest = err invalid_character
add_char (some b) rest = rest >>= λ bs. ok (b ∷ bs)

-- The values of the characters behind the separator.
unfoldable pub data_of : List ℕ → Result (List ℕ)
unfolding add_char
data_of [] = ok []
data_of (c ∷ cs) = add_char (charset_rev c) (data_of cs)

unfoldable pub same_text : List ℕ → List ℕ → Bool
same_text [] [] = true
same_text [] (y ∷ ys) = false
same_text (x ∷ xs) [] = false
same_text (x ∷ xs) (y ∷ ys) = eqb x y && same_text xs ys

-- `Decode` from where the separator is known to stand at `idx`.
unfoldable pub decode_at : List ℕ → ℕ → Result (List ℕ × List ℕ)
decode_at s idx =
    let hrp = take idx s in
    if any is_bad_char hrp
    then err hrp_character
    else (data_of (drop (suc idx) s) >>= λ data'.
        if verify_checksum hrp data'
        then (convert_bits (take (length data' - 6) data') 5 8 false >>= λ decoded.
            ok (hrp, decoded))
        else err checksum_mismatch)

unfoldable pub decode_lower : List ℕ → Option ℕ → Result (List ℕ × List ℕ)
unfolding decode_at
decode_lower s none = err bad_separator
decode_lower s (some idx) =
    if ltb idx 1 || ltb (length s) (idx + 7) then err bad_separator else decode_at s idx

unfoldable pub decode : List ℕ → Result (List ℕ × List ℕ)
unfolding decode_lower same_text
decode s =
    if ltb (length s) 8 || ltb 90 (length s)
    then err invalid_length
    else if not (same_text (to_lower s) s) && not (same_text (to_upper s) s)
    then err mixed_case
    else decode_lower (to_lower s) (last_index (to_lower s) b'1')

hrp_at : List ℕ → Option ℕ → Result (List ℕ)
hrp_at s none = err no_separator
hrp_at s (some idx) = if ltb idx 1 then err no_separator else ok (take idx s)

-- `HRP`.
unfoldable pub hrp_of : List ℕ → Result (List ℕ)
unfolding hrp_at
hrp_of s = hrp_at s (last_index s b'1')
