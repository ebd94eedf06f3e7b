-- ===== src/Consensus.antt =====
-- internal/consensus/address.go: consensus addresses from the public keys of the chains. SHA-256 is
-- the function that the definitions take.
pub mod Keys
use cometduty.Prelude.{
  ℕ, zero, suc, ◌+◌, ◌-◌, ◌/◌, ◌%◌, Bool, true, false, not, ◌||◌, List, [], ◌∷◌, String, Option,
  none, some,
}
use cometduty.Prelude.{◌==◌, string_eq, if◌then◌else◌, eqb, ltb, leb, length, take, any}
use cometduty.Prelude.Text.{contains}
use cometduty.Wire.{Parsed, fields, truncated, panics, out_of_fuel, unsupported, Field, parse, get}

abbrev known_pubkey_prefixes : List String
known_pubkey_prefixes =
    "/cosmos.crypto.ed25519.PubKey" ∷ "/cosmos.crypto.secp256k1.PubKey"
    ∷ "/cosmos.crypto.secp256r1.PubKey" ∷ "/cosmos.evm.crypto.v1.ethsecp256k1.PubKey"
    ∷ "/cosmos.evm.crypto.v1alpha1.ethsecp256k1.PubKey" ∷ "/ethermint.crypto.v1.ethsecp256k1.PubKey"
    ∷ "/ethermint.crypto.v1alpha1.ethsecp256k1.PubKey"
    ∷ "/injective.crypto.v1beta1.ethsecp256k1.PubKey" ∷ "/stratos.crypto.v1.ethsecp256k1.PubKey"
    ∷ "/dymension.crypto.ethsecp256k1.PubKey" ∷ []

-- `IsKnownPubkey`.
unfoldable pub is_known_pubkey : String → Bool
is_known_pubkey type_url = any (λ p. p == type_url) known_pubkey_prefixes

-- What `AnyToPubkeyBytes` and `AnyToAddress` return: the bytes, an error, or a panic of the parser.
-- `undecodable` is an error of the parser.
pub data Outcome : Type 0 where
  found : List ℕ → Outcome
  no_type_url multisig undecodable no_key crash : Outcome

key_of : Option Field → Outcome
key_of none = no_key
key_of (some f) = if not (eqb f.wire 2) || eqb (length f.bytes) 0 then no_key else found f.bytes

key_in : Parsed → Outcome
unfolding key_of
key_in (fields fs) = key_of (get fs 1)
key_in truncated = undecodable
key_in (unsupported w) = undecodable
key_in panics = crash
key_in out_of_fuel = crash

unfoldable pub any_to_pubkey_bytes : String → List ℕ → Outcome
unfolding key_in
any_to_pubkey_bytes type_url value =
    if type_url == ""
    then no_type_url
    else if contains type_url "multisig" || contains type_url "MultiSig"
    then multisig
    else key_in (parse value)

module _ (sha256 : List ℕ → List ℕ) where
  unfoldable pub pubkey_to_address : List ℕ → List ℕ
  pubkey_to_address pubkey = take 20 (sha256 pubkey)

  -- The hash of a key that was found; what failed stays as it is.
  unfoldable pub hashed : Outcome → Outcome
  hashed (found pk) = found (pubkey_to_address pk)
  hashed no_type_url = no_type_url
  hashed multisig = multisig
  hashed undecodable = undecodable
  hashed no_key = no_key
  hashed crash = crash

  unfoldable pub any_to_address : String → List ℕ → Outcome
  any_to_address type_url value = hashed (any_to_pubkey_bytes type_url value)

hex_digit : ℕ → ℕ
hex_digit d = if ltb d 10 then b'0' + d else b'A' + (d - 10)

-- `AddressHex`, as the bytes of the text. The verb `%X` gives capital letters, which `ToUpper` leaves.
unfoldable pub address_hex : List ℕ → List ℕ
unfolding hex_digit
address_hex [] = []
address_hex (b ∷ bs) = hex_digit (b / 16) ∷ hex_digit (b % 16) ∷ address_hex bs
