-- ===== src/Rpc.antt =====
-- internal/rpc/client.go: the client of a CometBFT endpoint. What comes back over HTTP is data; the
-- decoding of JSON is a parameter, in that a reply holds what its result decodes to.
pub mod Paging
pub mod Sockets
use cometduty.Prelude.{
  ℕ, zero, suc, ◌+◌, Bool, true, false, List, [], ◌∷◌, ◌++◌, String, Option, none, some, not, ◌||◌,
  ltb, eqb,
}
use cometduty.Prelude.{◌==◌, string_eq, if◌then◌else◌, length}
use cometduty.Prelude.Ascii.{text_of}
use cometduty.Prelude.Fields.{split, trim_right_of, trim_left_of, first_bytes}
use cometduty.Prelude.Int.{ℤ, pos, leb_ℤ}
use cometduty.Prelude.Maps.{GoMap}
use cometduty.Prelude.Numerals.{parse_int}
use cometduty.Prelude.Text.{sprintf, show}
use cometduty.Prelude.Tried.{Tried, failed, done, ◌>>=◌}
use cometduty.Consensus.{address_hex}
use Prim.Native.Char.{code}
use Prim.Native.String.{len, ◌++◌ as ◌<>◌}

-- A URL as `url.Parse` takes it apart, with what follows the scheme.
pub record Url : Type 0 where
  pub scheme : String
  pub rest : String

-- The scheme of HTTP for an endpoint's, or none.
unfoldable pub http_scheme : String → Option String
http_scheme s =
    if s == "tcp" || s == "ws"
    then some "http"
    else if s == "http" || s == "https"
    then some s
    else if s == "wss"
    then some "https"
    else none

with_scheme : Url → Option String → Tried Url
with_scheme u none =
    failed
      (sprintf "unsupported rpc scheme \"%s\" (want http, https, tcp, ws, wss)" (u.scheme ∷ []))
with_scheme u (some s) = done (record u { scheme = s })

endpoint_of : String → Tried Url → Tried Url
unfolding with_scheme
endpoint_of raw (failed e) = failed (sprintf "parsing rpc url \"%s\": %s" (raw ∷ e ∷ []))
endpoint_of raw (done u) = with_scheme u (http_scheme u.scheme)

-- `New`: the endpoint of a client. `url.Parse` is a parameter.
unfoldable pub new_client : (String → Tried Url) → String → Tried Url
unfolding endpoint_of
new_client parse_url raw_url =
    let raw = trim_right_of b'/' raw_url in
    if raw == "" then failed "empty rpc url" else endpoint_of raw (parse_url raw)

abbrev checked : ℤ × Bool → Option ℤ
checked (v, true) = some v
checked (v, false) = none

-- `(*Int64).UnmarshalJSON`, of the raw text: quotes around it are cut off, and nothing reads as 0.
unfoldable pub read_int64 : String → Option ℤ
read_int64 raw =
    let s = trim_right_of b'"' (trim_left_of b'"' raw) in
    if s == "" then some (pos 0) else checked (parse_int 10 s)

-- `truncate`.
unfoldable pub truncate : String → ℕ → String
truncate s n = if not (ltb n (len s)) then s else first_bytes n s <> "…"

-- What a call meets: no answer, another status than 200 with its body, a body that does not decode, an
-- error of the endpoint with its message and data, no result, or a result with what it decodes to.
pub data RpcReply {ℓ} (A : Type ℓ) : Type ℓ where
  no_answer : String → RpcReply A
  bad_status : ℕ → String → RpcReply A
  garbled : String → RpcReply A
  rpc_error : String → String → RpcReply A
  no_result : RpcReply A
  result : Tried A → RpcReply A

-- `call`.
unfoldable pub call {ℓ} : {A : Type ℓ} → String → RpcReply A → Tried A
unfolding truncate
call method (no_answer e) = failed e
call method (bad_status code body) =
    failed (sprintf "rpc %s: http %d: %s" (method ∷ show code ∷ truncate body 200 ∷ []))
call method (garbled e) = failed (sprintf "rpc %s: decoding response: %s" (method ∷ e ∷ []))
call method (rpc_error message more) =
    failed (sprintf "rpc %s: %s %s" (method ∷ message ∷ more ∷ []))
call method no_result = failed (sprintf "rpc %s: empty result" (method ∷ []))
call method (result r) = r

-- `NumUnconfirmedTxs`, of the texts `n_txs` and `total_bytes`; an error of a number is ignored.
unfoldable pub num_unconfirmed_txs : RpcReply (String × String) → Tried (ℤ × ℤ)
num_unconfirmed_txs reply = do
  (n, bytes) ← call "num_unconfirmed_txs" reply
  done ((parse_int 10 n).0, (parse_int 10 bytes).0)

abbrev round_in : String → List String → Tried ℤ
round_in hrs [] = failed (sprintf "unexpected height/round/step \"%s\"" (hrs ∷ []))
round_in hrs (height ∷ []) = failed (sprintf "unexpected height/round/step \"%s\"" (hrs ∷ []))
round_in hrs (height ∷ round ∷ more) = elim (checked (parse_int 10 round)) [
  | none ↦ failed (sprintf "strconv.ParseInt: parsing \"%s\"" (round ∷ []))
  | some r ↦ done r
]

-- `ConsensusRound`, of the text under the new key and the one under the old key.
unfoldable pub consensus_round : RpcReply (String × String) → Tried ℤ
consensus_round reply = do
  (hrs, old) ← call "consensus_state" reply
  let text = if hrs == "" then old else hrs
  round_in text (split b'/' text)

pub record AbciResponse : Type 0 where
  pub code : ℕ
  pub log : String
  pub value : List ℕ

-- The parameter `data` of a query.
unfoldable pub query_data : List ℕ → String
query_data bytes = text_of (address_hex bytes)

-- `ABCIQuery`: the error where the response's code is not 0.
unfoldable pub abci_query : String → RpcReply AbciResponse → Tried AbciResponse
abci_query path reply = do
  r ← call "abci_query" reply
  if eqb r.code 0
      then done r
      else failed (sprintf "abci query %s: code %d %s" (path ∷ show r.code ∷ r.log ∷ []))

pub record RpcValidator : Type 0 where
  pub address : String
  pub voting_power : ℤ
  pub proposer_priority : ℤ

pub record Page : Type 0 where
  pub validators : List RpcValidator
  pub total : ℤ

-- What follows a page: the end, or the next page with what is listed by then.
unfoldable pub after_page :
    Tried Page
    → List RpcValidator
    → (List RpcValidator → Option (Tried (List RpcValidator)))
    → Option (Tried (List RpcValidator))
after_page (failed e) out next = some (failed e)
after_page (done r) out next =
    let more = out ++ r.validators in
    if leb_ℤ r.total (pos (length more)) || eqb (length r.validators) 0
    then some (done more)
    else next more

-- The loop of `Validators`, from a page on: none is a loop that has not ended when the fuel has.
unfoldable pub validators_from :
    (ℕ → RpcReply Page) → ℕ → ℕ → List RpcValidator → Option (Tried (List RpcValidator))
validators_from pages zero page out = none
validators_from pages (suc fuel) page out =
    after_page (call "validators" (pages page)) out (validators_from pages fuel (suc page))

-- `Validators`.
unfoldable pub validators : (ℕ → RpcReply Page) → ℕ → Option (Tried (List RpcValidator))
validators pages fuel = validators_from pages fuel 1 []
