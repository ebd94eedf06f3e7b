-- ===== src/Examples/Texts.antt =====
-- Addresses as text.
use cometduty.Prelude.{ℕ, [], ◌∷◌, List, ◌≡◌, ◌<◌, ◌⊎◌, refl, arith, length}
use cometduty.Bech32.{
  convert_from, finish, char_at, polymod, polymod_from, hrp_expand, polymod_step, feedback,
  convert_bits, create_checksum, encode, decode, to_lower, ok,
}
use cometduty.Bech32.Texts.{decode-encode}

-- A prefix with a capital letter and a separator of its own.
decode-encode_example :
    (s : List ℕ) × (encode (b'A' ∷ b'1' ∷ []) (255 ∷ 1 ∷ []) ≡ ok s)
    × ((decode s ≡ ok (to_lower (b'A' ∷ b'1' ∷ []), 255 ∷ 1 ∷ [])) ⊎ (90 < length s))
decode-encode_example =
    decode-encode (b'A' ∷ b'1' ∷ []) (255 ∷ 1 ∷ []) (omega arith) (omega arith) refl (ground arith)

-- The one valid text of BIP-0173 with an empty data part.
known_text : encode (b'a' ∷ []) [] ≡ ok (b'a' ∷ b'1' ∷ b'2' ∷ b'u' ∷ b'e' ∷ b'l' ∷ b'5' ∷ b'l' ∷ [])
unfolding encode convert_bits convert_from finish create_checksum char_at polymod polymod_from
    hrp_expand polymod_step feedback
known_text = refl
