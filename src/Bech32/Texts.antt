-- ===== src/Bech32/Texts.antt =====
-- A text is decoded to what was encoded.
mod Chars
mod Small
use Small.{convert_bits-small}
use Chars.{
  char_at-no_separator, lower-char_at, lower-lower, is_bad_char-lower, is_bad_char-bound,
  same_text_refl, last_index-append, data_of-char_at,
}
use cometduty.Bech32.{
  charset, char_at, is_bad_char, to_lower, to_upper, same_text, last_index, data_of, Result, ok,
  encode, decode, decode_lower, decode_at, convert_bits, convert_from, emit, finish, prepend,
  groups, create_checksum, verify_checksum, ◌>>=◌, err, invalid_padding,
}
use cometduty.Bech32.Groups.{convert_bits-convert_bits}
use cometduty.Bech32.Checksum.{verify_checksum-create_checksum}
use cometduty.Prelude.{
  ℕ, zero, suc, ◌+◌, ◌-◌, ◌*◌, ◌/◌, ◌%◌, ◌^◌, ◌≤◌, ◌<◌, ◌≡◌, ◌⊎◌, inl, inr, refl, sym, ap, ◌∙◌,
  arith,
}
use cometduty.Prelude.{
  List, [], ◌∷◌, ◌++◌, All, All-append, All-mono, any, length, length-append, take, drop, map, leb,
  ltb, eqb, ◌||◌, ◌&&◌, not, Bool, true, false, if◌then◌else◌, take-append, length-map, leb→le,
  Bool-cases,
}
use cometduty.Prelude.Text.{lower}
use mathlib.Core.Path.{ap₂}

-- How a text that `Encode` made is put together.
abbrev text : List ℕ → List ℕ → List ℕ
text low bs = low ++ (b'1' ∷ map (char_at charset) bs)

lower-chars :
    (bs : List ℕ)
    → All (λ b. b < 32) bs
    → to_lower (map (char_at charset) bs) ≡ map (char_at charset) bs
lower-chars [] h = refl
lower-chars (b ∷ bs) (hb, h) = ap₂ (◌∷◌) (lower-char_at b hb) (lower-chars bs h)

lower-text :
    (hrp bs : List ℕ)
    → All (λ b. b < 32) bs
    → to_lower (text (to_lower hrp) bs) ≡ text (to_lower hrp) bs
lower-text [] bs h = ap (◌∷◌ b'1') (lower-chars bs h)
lower-text (c ∷ hrp) bs h = ap₂ (◌∷◌) (lower-lower c) (lower-text hrp bs h)

no_separator :
    (bs : List ℕ) → All (λ b. b < 32) bs → All (λ c. eqb c b'1' ≡ false) (map (char_at charset) bs)
no_separator [] h = tt
no_separator (b ∷ bs) (hb, h) = (char_at-no_separator b hb, no_separator bs h)

good-lower : (hrp : List ℕ) → any is_bad_char hrp ≡ false → any is_bad_char (to_lower hrp) ≡ false
good-lower [] h = refl
good-lower (c ∷ hrp) h = ground (arith, is_bad_char-lower c, good-lower hrp)

good-bytes : (hrp : List ℕ) → any is_bad_char hrp ≡ false → All (λ c. c < 256) hrp
good-bytes [] h = tt
good-bytes (c ∷ hrp) h = ground (arith, is_bad_char-bound c, good-bytes hrp)

drop-text : (low bs : List ℕ) → drop (suc (length low)) (text low bs) ≡ map (char_at charset) bs
drop-text [] bs = refl
drop-text (c ∷ low) bs = drop-text low bs

take-data : (gs : List ℕ) (m : ℕ) → take (length (gs ++ groups m) - 6) (gs ++ groups m) ≡ gs
take-data gs m =
    let front : length (gs ++ groups m) - 6 ≡ length gs =
      omega (arith, length-append gs (groups m)) in
    ap (λ n. take n (gs ++ groups m)) front ∙ take-append gs (groups m)

length-lower : (hrp : List ℕ) → length (to_lower hrp) ≡ length hrp
length-lower [] = refl
length-lower (c ∷ hrp) = omega (arith, length-lower hrp)

groups-small : (m : ℕ) → All (λ b. b < 32) (groups m)
groups-small m = ground arith

module _ (low data' gs : List ℕ) (good : any is_bad_char low ≡ false)
    (back : convert_bits gs 5 8 false ≡ ok data') (small : All (λ b. b < 32) gs) where
  abbrev values : List ℕ
  values = gs ++ create_checksum low gs

  values-small : All (λ b. b < 32) values
  unfolding create_checksum
  values-small = All-append (λ b. b < 32) gs _ small (groups-small _)

  take-values : take (length values - 6) values ≡ gs
  unfolding create_checksum
  take-values = take-data gs _

  -- What is behind the separator, and before it.
  decode_at-text : decode_at (text low values) (length low) ≡ ok (low, data')
  unfolding decode_at
  decode_at-text =
      let bytes = All-mono (λ b. b < 32) (λ b. b < 256) (λ b lt. omega arith) gs small in
      let verified = verify_checksum-create_checksum low gs (good-bytes low good) bytes in
      rw
        (
          take-append low (b'1' ∷ map (char_at charset) values),
          good,
          drop-text low values,
          data_of-char_at values values-small,
          verified,
          take-values,
          back,
        )
        refl

  length-text : length (text low values) ≡ length low + length gs + 7
  unfolding create_checksum
  length-text = omega (
    arith,
    length-append low (b'1' ∷ map (char_at charset) values),
    length-map (char_at charset) values,
    length-append gs (create_checksum low gs),
  )

  decode-text :
      0 < length low
      → to_lower (text low values) ≡ text low values
      → length (text low values) ≤ 90
      → decode (text low values) ≡ ok (low, data')
  unfolding decode decode_lower
  decode-text there same fits =
      let s = text low values in
      let long : ltb (length s) 8 ≡ false = ground (arith, length-text) in
      let short : ltb 90 (length s) ≡ false = ground arith in
      let behind : ltb (length low) 1 ≡ false = ground arith in
      let whole : ltb (length s) (length low + 7) ≡ false = ground (arith, length-text) in
      rw
        (
          long,
          short,
          same,
          same_text_refl s,
          last_index-append low _ (no_separator values values-small),
          behind,
          whole,
        )
        decode_at-text

-- `Encode` makes a text of every prefix of 1 to 83 characters from 33 to 126 and every list of bytes,
-- and `Decode` gives back the prefix in lower case and the bytes, or the text is longer than the 90
-- characters that `Decode` takes.
pub decode-encode :
    (hrp data' : List ℕ)
    → 0 < length hrp
    → length hrp ≤ 83
    → any is_bad_char hrp ≡ false
    → All (λ b. b < 256) data'
    → (s : List ℕ) × (encode hrp data' ≡ ok s)
      × ((decode s ≡ ok (to_lower hrp, data')) ⊎ (90 < length s))
unfolding encode
decode-encode hrp data' there fits good bytes =
    let (gs, groups_of, back) = convert_bits-convert_bits data' bytes in
    let small = convert_bits-small data' gs groups_of in
    let low = to_lower hrp in
    let s = text low (gs ++ create_checksum low gs) in
    let some_hrp : eqb (length hrp) 0 ≡ false = ground arith in
    let short_hrp : ltb 83 (length hrp) ≡ false = ground arith in
    let encoded : encode hrp data' ≡ ok s = rw (some_hrp, short_hrp, good, groups_of) refl in
    let good_low = good-lower hrp good in
    let read =
      decode-text low data' gs good_low back small (omega (arith, length-lower hrp))
        (lower-text hrp _ (values-small low data' gs good_low back small)) in
    (
      s,
      encoded,
      elim (Bool-cases (leb (length s) 90)) [
        | inl e ↦ inl (read (leb→le (length s) 90 e))
        | inr e ↦ inr (ground arith)
      ],
    )
