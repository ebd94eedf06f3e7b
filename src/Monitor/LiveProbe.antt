-- ===== src/Monitor/LiveProbe.antt =====
-- internal/monitor/probe.go: the report of `validate --live` and the validators of `status`, on the
-- answers of the endpoints. None is a panic, which ends the program.
pub mod Agrees
pub mod Rows
use cometduty.Prelude.{ℕ, suc, Bool, true, false, List, [], ◌∷◌, ◌++◌, String, Option, none, some}
use cometduty.Prelude.{◌==◌, string_eq, if◌then◌else◌, not, ◌||◌}
use cometduty.Prelude.Ascii.{text_of}
use cometduty.Prelude.Int.{ℤ, pos, leb_ℤ}
use cometduty.Prelude.Text.{sprintf, show_ℤ, contains}
use cometduty.Config.{ChainConfig, ValidatorConfig, NodeConfig}
use cometduty.Consensus.{Outcome, address_hex}
use cometduty.Monitor.Pick.{EndpointReply, Probed, healthy, refused, probe_endpoint}
use cometduty.Monitor.Queries.{Recorded, recorded, not_recorded, bad_key, record_panic}
use cometduty.Monitor.Refresh.{Staking, Signing, no_module, signing, Answers}
use cometduty.Monitor.Resolve.{Resolved, resolved, resolve_cons_address}
use Prim.Native.String.{◌++◌ as ◌<>◌}

infixl 5 ◌>>=◌
abbrev pub ◌>>=◌ {ℓ κ} : {A : Type ℓ} {B : Type κ} → Option A → (A → Option B) → Option B
none >>= next = none
some a >>= next = next a

-- What the chain answers about one validator.
pub record LiveAnswers : Type 0 where
  pub about : Recorded
  pub slashing : Signing
  pub window : Option ℤ

-- Why a validator is not resolved.
pub data Fault : Type 0 where
  not_asked : String → Fault
  unreadable_key : String → Outcome → Fault
  unresolved : Resolved → Fault

pub record ResolvedValidator : Type 0 where
  pub valoper : String
  pub moniker : String
  pub valcons : String
  pub cons_hex : String
  pub bonded : Bool
  pub jailed : Bool
  pub tombstoned : Bool
  pub missed : ℤ
  pub window : ℤ
  pub fault : Option Fault

-- Whether the address stands in the configuration.
unfoldable pub is_direct : ValidatorConfig → Bool
is_direct vc = not (vc.valcons_override == "") || contains vc.valoper_address "valcons"

abbrev pub resolved_from : ValidatorConfig → List ℕ → Resolved
resolved_from vc queried =
    resolve_cons_address vc.valoper_address vc.valcons_override vc.cons_prefix queried

abbrev blank : ValidatorConfig → ResolvedValidator
blank vc = record {
  valoper = vc.valoper_address;
  moniker = vc.label;
  valcons = "";
  cons_hex = "";
  bonded = false;
  jailed = false;
  tombstoned = false;
  missed = pos 0;
  window = pos 0;
  fault = none;
}

abbrev faulty : ValidatorConfig → Fault → ResolvedValidator
faulty vc f = record (blank vc) { fault = some f }

unfoldable pub direct_row : ValidatorConfig → Resolved → ResolvedValidator
direct_row vc (resolved addr s) = record (blank vc) {
  valcons = text_of s;
  cons_hex = text_of (address_hex addr);
  bonded = true;
}
direct_row vc r = faulty vc (unresolved r)

or_unknown : Option ℤ → ℤ
or_unknown none = pos 0
or_unknown (some w) = w

-- The slashing record, where the query succeeds.
slashing_row : LiveAnswers → Signing → ResolvedValidator → ResolvedValidator
unfolding or_unknown
slashing_row a (signing tomb missed until) rv = record rv {
  tombstoned = tomb;
  missed = missed;
  window = or_unknown a.window;
}
slashing_row a _ rv = rv

unfoldable pub queried_row : ValidatorConfig → LiveAnswers → Staking → Resolved → ResolvedValidator
unfolding slashing_row
queried_row vc a s (resolved addr vs) = slashing_row a a.slashing (record (blank vc) {
  cons_hex = text_of (address_hex addr);
  valcons = text_of vs;
  bonded = s.bonded;
  jailed = s.jailed;
  moniker = if vc.label == "" then s.moniker else vc.label;
})
queried_row vc a s r = faulty vc (unresolved r)

unfoldable pub recorded_row : ValidatorConfig → LiveAnswers → Recorded → Option ResolvedValidator
recorded_row vc a (recorded s) = some (queried_row vc a s (resolved_from vc s.cons_addr))
recorded_row vc a (not_recorded e) = some (faulty vc (not_asked e))
recorded_row vc a (bad_key url o) = some (faulty vc (unreadable_key url o))
recorded_row vc a record_panic = none

-- One round of `ResolveValidators`.
unfoldable pub resolve_validator : ValidatorConfig → LiveAnswers → Option ResolvedValidator
resolve_validator vc a =
    if is_direct vc then some (direct_row vc (resolved_from vc [])) else recorded_row vc a a.about

-- `ResolveValidators`, with the answers by the place of a validator.
unfoldable pub resolve_validators :
    (ℕ → LiveAnswers) → ℕ → List ValidatorConfig → Option (List ResolvedValidator)
resolve_validators answers i [] = some []
resolve_validators answers i (vc ∷ vcs) = do
  rv ← resolve_validator vc (answers i)
  rvs ← resolve_validators answers (suc i) vcs
  some (rv ∷ rvs)

-- The text of a line, or what it puts an error into.
pub data Detail : Type 0 where
  told : String → Detail
  failing : Fault → Detail
  bad_direct : Resolved → Detail
  bad_cons : Resolved → Detail

pub record ProbeResult : Type 0 where
  pub subject : String
  pub ok : Bool
  pub detail : Detail

abbrev line : String → Bool → String → ProbeResult
line subject ok s = record { subject = subject; ok = ok; detail = told s }

-- What `NetInfo` answers, where it does.
height_detail : ℤ → Option ℤ → String
height_detail height none = sprintf "height %d, in sync" (show_ℤ height ∷ [])
height_detail height (some peers) =
    if leb_ℤ (pos 0) peers
    then sprintf "height %d, %d peers, in sync" (show_ℤ height ∷ show_ℤ peers ∷ [])
    else sprintf "height %d, in sync" (show_ℤ height ∷ [])

unfoldable pub node_line : String → Option ℤ → Probed → ProbeResult
unfolding height_detail
node_line url peers (refused e st) = line url false e
node_line url peers (healthy height) = line url true (height_detail height peers)

abbrev pub first_client : String → Probed → Option String → Option String
first_client url (refused e st) rest = rest
first_client url (healthy height) rest = some url

-- The loop over the nodes: their lines, and the URL of the first that is healthy.
unfoldable pub probe_nodes :
    String → (ℕ → EndpointReply × Option ℤ) → ℕ → List NodeConfig → List ProbeResult × Option String
unfolding node_line
probe_nodes want replies i [] = ([], none)
probe_nodes want replies i (n ∷ ns) =
    let (reply, peers) = replies i in
    let p = probe_endpoint want reply in
    let (lines, client) = probe_nodes want replies (suc i) ns in
    (node_line n.url peers p ∷ lines, first_client n.url p client)

-- What the lines of a validator begin with.
unfoldable pub subject_of : ValidatorConfig → String
subject_of vc =
    if vc.label == "" then vc.valoper_address else vc.label <> " (" <> vc.valoper_address <> ")"

unfoldable pub direct_line : ValidatorConfig → Resolved → ProbeResult
direct_line vc (resolved addr s) =
    line (subject_of vc) true ("valcons " <> text_of s <> " (direct)")
direct_line vc r = record { subject = subject_of vc; ok = false; detail = bad_direct r }

bond_text : Staking → String
bond_text s =
    let status = if s.bonded then "bonded" else "NOT BONDED" in
    if s.jailed then status <> ", jailed" else status

slashing_text : Signing → String
slashing_text no_module = ", no slashing module"
slashing_text Signing.failed = ""
slashing_text (signing tomb missed until) =
    sprintf ", missed %d" (show_ℤ missed ∷ []) <> (if tomb then ", TOMBSTONED" else "")

unfoldable pub queried_line : ValidatorConfig → LiveAnswers → Staking → Resolved → ProbeResult
unfolding bond_text slashing_text
queried_line vc a s (resolved addr vs) =
    line (subject_of vc) true (
      sprintf "%s → %s (%s)" (s.moniker ∷ text_of vs ∷ bond_text s ∷ [])
      <> slashing_text a.slashing)
queried_line vc a s r = record { subject = subject_of vc; ok = false; detail = bad_cons r }

abbrev failing_line : ValidatorConfig → Fault → ProbeResult
failing_line vc f = record { subject = subject_of vc; ok = false; detail = failing f }

unfoldable pub recorded_line : ValidatorConfig → LiveAnswers → Recorded → Option ProbeResult
unfolding queried_line
recorded_line vc a (recorded s) = some (queried_line vc a s (resolved_from vc s.cons_addr))
recorded_line vc a (not_recorded e) = some (failing_line vc (not_asked e))
recorded_line vc a (bad_key url o) = some (failing_line vc (unreadable_key url o))
recorded_line vc a record_panic = none

-- One round of the loop over the validators.
unfoldable pub validator_line : ValidatorConfig → LiveAnswers → Option ProbeResult
unfolding direct_line recorded_line
validator_line vc a =
    if is_direct vc then some (direct_line vc (resolved_from vc [])) else recorded_line vc a a.about

unfoldable pub validator_lines :
    (ℕ → LiveAnswers) → ℕ → List ValidatorConfig → Option (List ProbeResult)
validator_lines answers i [] = some []
validator_lines answers i (vc ∷ vcs) = do
  l ← validator_line vc (answers i)
  ls ← validator_lines answers (suc i) vcs
  some (l ∷ ls)

abbrev pub no_nodes : List NodeConfig → List ProbeResult
no_nodes [] = line "nodes" false "no nodes configured" ∷ []
no_nodes (n ∷ ns) = []

abbrev pub with_client :
    (ℕ → LiveAnswers) → List ValidatorConfig → Option String → Option (List ProbeResult)
with_client answers vcs none = some (line "validators" false "skipped — no healthy endpoint" ∷ [])
with_client answers vcs (some url) = validator_lines answers 0 vcs

-- `ProbeChain`, on the answers by the place of a node and of a validator.
unfoldable pub probe_chain :
    (ℕ → EndpointReply × Option ℤ) → (ℕ → LiveAnswers) → ChainConfig → Option (List ProbeResult)
probe_chain replies answers cc = do
  let (lines, client) = probe_nodes cc.chain_id replies 0 cc.nodes
  rest ← with_client answers cc.validators client
  some (lines ++ (no_nodes cc.nodes ++ rest))
