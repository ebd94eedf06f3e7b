-- ===== src/Monitor/Queries.antt =====
-- internal/monitor/validator.go: the queries of the staking and the slashing module. What comes back
-- over RPC is data; the encoding of a request and the decoding of a response are parameters.
use cometduty.Prelude.{ℕ, Bool, true, false, List, [], ◌∷◌, String, Option, none, some}
use cometduty.Prelude.{map, if◌then◌else◌}
use cometduty.Prelude.Int.{ℤ, pos}
use cometduty.Prelude.Text.{sprintf}
use cometduty.Prelude.Tried.{Tried, failed, done, ◌>>=◌, wrapped}
use cometduty.Consensus.{
  Outcome, found, no_type_url, multisig, undecodable, no_key, crash, any_to_address,
}
use cometduty.Monitor.Refresh.{Staking, Signing, no_module, signing}
use cometduty.Monitor.Resolve.{is_missing_module_err}
use cometduty.Monitor.State.{SetEntry}
use cometduty.Rpc.{RpcReply, AbciResponse, abci_query}

pub data BondStatus : Type 0 where
  bonded other_status : BondStatus

abbrev is_bonded : BondStatus → Bool
is_bonded bonded = true
is_bonded other_status = false

-- A validator of the staking module: its key is a type URL and a value, or is missing.
pub record ValidatorMsg : Type 0 where
  pub operator_address : String
  pub pubkey : Option (String × List ℕ)
  pub moniker : String
  pub jailed : Bool
  pub status : BondStatus
  pub tokens : String

-- One call: the request, or why it cannot be encoded, the reply, and the decoding of its value.
pub record Query {ℓ} (A : Type ℓ) : Type ℓ where
  pub request : Tried (List ℕ)
  pub reply : List ℕ → RpcReply AbciResponse
  pub decode : List ℕ → Tried A

abbrev path_staking_validator : String
path_staking_validator = "/cosmos.staking.v1beta1.Query/Validator"

abbrev path_staking_validators : String
path_staking_validators = "/cosmos.staking.v1beta1.Query/Validators"

abbrev path_slashing_info : String
path_slashing_info = "/cosmos.slashing.v1beta1.Query/SigningInfo"

abbrev path_slashing_params : String
path_slashing_params = "/cosmos.slashing.v1beta1.Query/Params"

-- A query with what is put before an error of the call and before one of the decoding.
abbrev asked {ℓ} : {A : Type ℓ} → String → (String → String) → (String → String) → Query A → Tried A
asked path on_call on_value q = do
  bytes ← q.request
  resp ← wrapped on_call (abci_query path (q.reply bytes))
  wrapped on_value (q.decode resp.value)

-- What `getValidatorRecord` returns: the record, an error, a key that gives no address with its type
-- URL, or the panic of the parser.
pub data Recorded : Type 0 where
  recorded : Staking → Recorded
  not_recorded : String → Recorded
  bad_key : String → Outcome → Recorded
  record_panic : Recorded

record_with : ValidatorMsg → String → Outcome → Recorded
record_with v url (found addr) = recorded (record {
  cons_addr = addr;
  moniker = v.moniker;
  jailed = v.jailed;
  bonded = is_bonded v.status;
  tokens = v.tokens;
})
record_with v url crash = record_panic
record_with v url no_type_url = bad_key url no_type_url
record_with v url multisig = bad_key url multisig
record_with v url undecodable = bad_key url undecodable
record_with v url no_key = bad_key url no_key

record_of : (List ℕ → List ℕ) → String → ValidatorMsg → Option (String × List ℕ) → Recorded
unfolding record_with
record_of sha256 valoper v none = not_recorded (sprintf "no consensus pubkey for %s" (valoper ∷ []))
record_of sha256 valoper v (some (url, value)) = record_with v url (any_to_address sha256 url value)

record_in : (List ℕ → List ℕ) → String → Tried (Option ValidatorMsg) → Recorded
unfolding record_of
record_in sha256 valoper (failed e) = not_recorded e
record_in sha256 valoper (done none) =
    not_recorded (sprintf "empty validator record for %s" (valoper ∷ []))
record_in sha256 valoper (done (some v)) = record_of sha256 valoper v v.pubkey

-- `getValidatorRecord`. SHA-256 is the first parameter.
unfoldable pub get_validator_record :
    (List ℕ → List ℕ) → String → Query (Option ValidatorMsg) → Recorded
unfolding record_in
get_validator_record sha256 valoper q = record_in sha256 valoper (
    asked path_staking_validator (λ e. sprintf "querying validator %s: %s" (valoper ∷ e ∷ []))
      (λ e. sprintf "decoding validator response: %s" (e ∷ [])) q)

abbrev entry_of : ValidatorMsg → SetEntry
entry_of v = record {
  valoper = v.operator_address;
  moniker = v.moniker;
  jailed = v.jailed;
  bonded = is_bonded v.status;
}

-- `listValidators`: one page of 500.
unfoldable pub list_validators : Query (List ValidatorMsg) → Tried (List SetEntry)
list_validators q = do
  vs ←
      asked path_staking_validators (λ e. sprintf "listing validators: %s" (e ∷ []))
        (λ e. sprintf "decoding validators response: %s" (e ∷ [])) q
  done (map entry_of vs)

-- `ValSigningInfo`: whether tombstoned, the counter, and the second until which it is jailed.
pub record SigningInfo : Type 0 where
  pub tombstoned : Bool
  pub missed_blocks_counter : ℤ
  pub jailed_until : Option ℤ

abbrev or_zero : Option ℤ → ℤ
or_zero none = pos 0
or_zero (some u) = u

-- A value, no slashing module, or another error.
pub data Slashed {ℓ} (A : Type ℓ) : Type ℓ where
  no_slashing : Slashed A
  slashing_error : String → Slashed A
  slashed : A → Slashed A

abbrev decoded {ℓ} : {A : Type ℓ} → Tried A → Slashed A
decoded (failed e) = slashing_error e
decoded (done a) = slashed a

reply_in {ℓ} : {A : Type ℓ} → (List ℕ → Tried A) → Tried AbciResponse → Slashed A
reply_in decode (failed e) = if is_missing_module_err e then no_slashing else slashing_error e
reply_in decode (done resp) = decoded (decode resp.value)

requested {ℓ} : {A : Type ℓ} → String → Query A → Tried (List ℕ) → Slashed A
unfolding reply_in
requested path q (failed e) = slashing_error e
requested path q (done bytes) = reply_in q.decode (abci_query path (q.reply bytes))

signing_in : Slashed SigningInfo → Signing
signing_in no_slashing = no_module
signing_in (slashing_error e) = Signing.failed
signing_in (slashed i) = signing i.tombstoned i.missed_blocks_counter (or_zero i.jailed_until)

-- `getSigningInfo`. No caller reads the text of its other errors.
unfoldable pub get_signing_info : Query SigningInfo → Signing
unfolding signing_in requested
get_signing_info q = signing_in (requested path_slashing_info q q.request)

window_in : Slashed ℤ → Option ℤ
window_in no_slashing = none
window_in (slashing_error e) = none
window_in (slashed w) = some w

-- `getSlashingWindow`. No caller tells its errors apart.
unfoldable pub get_slashing_window : Query ℤ → Option ℤ
unfolding window_in requested
get_slashing_window q = window_in (requested path_slashing_params q q.request)
