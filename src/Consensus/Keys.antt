-- ===== src/Consensus/Keys.antt =====
-- The address of a key that was encoded as its message.
use cometduty.Consensus.{
  any_to_pubkey_bytes, key_in, key_of, found, pubkey_to_address, hashed, any_to_address,
  address_hex, hex_digit,
}
use cometduty.Prelude.{ℕ, ◌+◌, ◌-◌, ◌*◌, ◌/◌, ◌%◌, ◌^◌, ◌<◌, ◌≡◌, refl, sym, ap, ◌∙◌, arith, false}
use cometduty.Prelude.{
  List, [], ◌∷◌, String, ◌==◌, string_eq, length, take, eqb, ltb, All, if◌then◌else◌,
}
use mathlib.Core.Path.{ap₂}
use cometduty.Prelude.Text.{contains}
use cometduty.Wire.{encode_string, get}
use cometduty.Wire.Fields.{parse-encode_string}

pubkey_of :
    (type_url : String) (key : List ℕ)
    → (type_url == "") ≡ false
    → contains type_url "multisig" ≡ false
    → contains type_url "MultiSig" ≡ false
    → 0 < length key
    → length key < 2 ^ 63
    → any_to_pubkey_bytes type_url (encode_string 1 key) ≡ found key
unfolding any_to_pubkey_bytes key_in key_of get
pubkey_of type_url key named single single' there fits =
    let some_bytes : eqb (length key) 0 ≡ false = ground arith in
    rw (named, single, single', parse-encode_string 1 key (omega arith) fits, some_bytes) refl

-- The address of a key that stands as field 1 of its message is the first 20 bytes of its SHA-256:
-- the type is named and none of multisig, and the key is neither empty nor 2 ^ 63 bytes long.
any_to_address-encode_string :
    (sha256 : List ℕ → List ℕ) (type_url : String) (key : List ℕ)
    → (type_url == "") ≡ false
    → contains type_url "multisig" ≡ false
    → contains type_url "MultiSig" ≡ false
    → 0 < length key
    → length key < 2 ^ 63
    → any_to_address sha256 type_url (encode_string 1 key) ≡ found (take 20 (sha256 key))
unfolding any_to_address hashed pubkey_to_address
any_to_address-encode_string sha256 type_url key named single single' there fits =
    ap (hashed sha256) (pubkey_of type_url key named single single' there fits)

-- A reader of hexadecimal digits, to tell what `AddressHex` wrote.
digit_value : ℕ → ℕ
digit_value c = if ltb c b'A' then c - b'0' else c - b'A' + 10

from_hex : List ℕ → List ℕ
from_hex [] = []
from_hex (c ∷ []) = []
from_hex (c ∷ d ∷ cs) = (digit_value c * 16 + digit_value d) ∷ from_hex cs

digit_value-hex_digit : (d : ℕ) → d < 16 → digit_value (hex_digit d) ≡ d
unfolding digit_value hex_digit
digit_value-hex_digit d h = ground arith

from_hex-address_hex : (bs : List ℕ) → All (λ b. b < 256) bs → from_hex (address_hex bs) ≡ bs
unfolding from_hex address_hex
from_hex-address_hex [] h = refl
from_hex-address_hex (b ∷ bs) (hb, h) =
    let high = digit_value-hex_digit (b / 16) (omega arith) in
    let low = digit_value-hex_digit (b % 16) (omega arith) in
    ap₂ (◌∷◌) (omega (arith, high, low)) (from_hex-address_hex bs h)

-- Two addresses of bytes with the same text of `AddressHex` are the same.
address_hex_injective :
    (a b : List ℕ)
    → All (λ x. x < 256) a
    → All (λ x. x < 256) b
    → address_hex a ≡ address_hex b
    → a ≡ b
address_hex_injective a b ha hb e =
    sym (from_hex-address_hex a ha) ∙ ap from_hex e ∙ from_hex-address_hex b hb
