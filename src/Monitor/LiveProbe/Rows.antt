-- ===== src/Monitor/LiveProbe/Rows.antt =====
-- What the report of `validate --live` has a line for.
use mathlib.Core.Path.{ap₂, subst}
use mathlib.Core.List.{map-append}
use cometduty.Prelude.{
  ℕ, suc, List, [], ◌∷◌, ◌++◌, String, Option, none, some, ◌≡◌, refl, ap, ◌∙◌, map, arith,
}
use cometduty.Prelude.{if◌then◌else◌, if_cases, string_eq}
use cometduty.Prelude.Int.{ℤ}
use cometduty.Config.{ChainConfig, ValidatorConfig, NodeConfig}
use cometduty.Monitor.Pick.{
  EndpointReply, bad_url, failed, answered, Probed, healthy, refused, probe_endpoint,
}
use cometduty.Monitor.Pick.First.{first_suitable, is_serving}
use cometduty.Monitor.Queries.{Recorded, recorded, not_recorded, bad_key, record_panic}
use cometduty.Monitor.Refresh.{Staking}
use cometduty.Monitor.Resolve.{
  Resolved, resolved, bad_override, bad_valcons, no_address, bad_valoper, no_prefix, not_encoded,
}
use cometduty.Monitor.State.{NodeState}
use cometduty.Monitor.LiveProbe.{
  LiveAnswers, ProbeResult, ◌>>=◌, with_client, no_nodes, probe_nodes, node_line, subject_of,
  direct_line, queried_line, first_client, recorded_line, validator_line, validator_lines,
  is_direct, resolved_from, probe_chain,
}

abbrev pub subject_in : ProbeResult → String
subject_in l = l.subject

node-subject :
    (url : String) (peers : Option ℤ) (p : Probed) → (node_line url peers p).subject ≡ url
unfolding node_line
node-subject url peers (refused e st) = refl
node-subject url peers (healthy height) = refl

nodes-subjects :
    (want : String) (replies : ℕ → EndpointReply × Option ℤ) (i : ℕ) (ns : List NodeConfig)
    → map subject_in (probe_nodes want replies i ns).0 ≡ map (λ n. n.url) ns
unfolding probe_nodes
nodes-subjects want replies i [] = refl
nodes-subjects want replies i (n ∷ ns) =
    ap₂ (◌∷◌) (node-subject n.url (replies i).1 _) (nodes-subjects want replies (suc i) ns)

step-client :
    (want : String) (r : EndpointReply) (url : String) (rest : Option String)
    → first_client url (probe_endpoint want r) rest ≡ (if is_serving want r then some url else rest)
unfolding probe_endpoint
step-client want (bad_url e) url rest = refl
step-client want (failed e) url rest = refl
step-client want (answered network catching height) url rest = ground arith

-- The endpoint that is asked about the validators is the one that `pickClient` would pick.
nodes-client :
    (want : String) (replies : ℕ → EndpointReply × Option ℤ) (i : ℕ) (ns : List NodeState)
    → (probe_nodes want replies i (map (λ n. n.cfg) ns)).1
      ≡ first_suitable want (λ j. (replies j).0) i ns
unfolding probe_nodes
nodes-client want replies i [] = refl
nodes-client want replies i (n ∷ ns) =
    step-client want (replies i).0 n.cfg.url _
    ∙ ap (λ o. if is_serving want (replies i).0 then some n.cfg.url else o)
        (nodes-client want replies (suc i) ns)

direct-subject : (vc : ValidatorConfig) (r : Resolved) → (direct_line vc r).subject ≡ subject_of vc
unfolding direct_line
direct-subject vc (resolved addr s) = refl
direct-subject vc bad_override = refl
direct-subject vc bad_valcons = refl
direct-subject vc no_address = refl
direct-subject vc bad_valoper = refl
direct-subject vc no_prefix = refl
direct-subject vc not_encoded = refl

queried-subject :
    (vc : ValidatorConfig) (a : LiveAnswers) (s : Staking) (r : Resolved)
    → (queried_line vc a s r).subject ≡ subject_of vc
unfolding queried_line
queried-subject vc a s (resolved addr vs) = refl
queried-subject vc a s bad_override = refl
queried-subject vc a s bad_valcons = refl
queried-subject vc a s no_address = refl
queried-subject vc a s bad_valoper = refl
queried-subject vc a s no_prefix = refl
queried-subject vc a s not_encoded = refl

-- Where there are lines, they are about the subjects.
abbrev AreAbout : List String → Option (List ProbeResult) → Type 0
AreAbout ss none = ss ≡ ss
AreAbout ss (some ls) = map subject_in ls ≡ ss

abbrev IsAbout : String → Option ProbeResult → Type 0
IsAbout s none = s ≡ s
IsAbout s (some l) = l.subject ≡ s

recorded-IsAbout :
    (vc : ValidatorConfig) (a : LiveAnswers) (about : Recorded)
    → IsAbout (subject_of vc) (recorded_line vc a about)
unfolding recorded_line
recorded-IsAbout vc a (recorded s) = queried-subject vc a s _
recorded-IsAbout vc a (not_recorded e) = refl
recorded-IsAbout vc a (bad_key url o) = refl
recorded-IsAbout vc a record_panic = refl

validator-IsAbout :
    (vc : ValidatorConfig) (a : LiveAnswers) → IsAbout (subject_of vc) (validator_line vc a)
unfolding validator_line
validator-IsAbout vc a =
    if_cases (IsAbout (subject_of vc)) (is_direct vc) (λ e. direct-subject vc (resolved_from vc []))
      (λ e. recorded-IsAbout vc a a.about)

bind-AreAbout :
    (s : String) (ss : List String) (o : Option ProbeResult) (os : Option (List ProbeResult))
    → IsAbout s o
    → AreAbout ss os
    → AreAbout (s ∷ ss) (o >>= (λ l. os >>= (λ ls. some (l ∷ ls))))
bind-AreAbout s ss none os h k = refl
bind-AreAbout s ss (some l) none h k = refl
bind-AreAbout s ss (some l) (some ls) h k = ap₂ (◌∷◌) h k

validators-AreAbout :
    (answers : ℕ → LiveAnswers) (i : ℕ) (vcs : List ValidatorConfig)
    → AreAbout (map subject_of vcs) (validator_lines answers i vcs)
unfolding validator_lines
validators-AreAbout answers i [] = refl
validators-AreAbout answers i (vc ∷ vcs) =
    bind-AreAbout (subject_of vc) (map subject_of vcs) (validator_line vc (answers i)) _
      (validator-IsAbout vc (answers i)) (validators-AreAbout answers (suc i) vcs)

-- The subjects behind those of the nodes.
abbrev pub subjects_after : Option String → List ValidatorConfig → List String
subjects_after none vcs = "validators" ∷ []
subjects_after (some url) vcs = map subject_of vcs

abbrev pub subjects_without : List NodeConfig → List String
subjects_without [] = "nodes" ∷ []
subjects_without (n ∷ ns) = []

client-AreAbout :
    (answers : ℕ → LiveAnswers) (vcs : List ValidatorConfig) (client : Option String)
    → AreAbout (subjects_after client vcs) (with_client answers vcs client)
client-AreAbout answers vcs none = refl
client-AreAbout answers vcs (some url) = validators-AreAbout answers 0 vcs

without-subjects : (ns : List NodeConfig) → map subject_in (no_nodes ns) ≡ subjects_without ns
without-subjects [] = refl
without-subjects (n ∷ ns) = refl

front-AreAbout :
    (ls ms : List ProbeResult) (ts us ss : List String) (o : Option (List ProbeResult))
    → map subject_in ls ≡ ts
    → map subject_in ms ≡ us
    → AreAbout ss o
    → AreAbout (ts ++ (us ++ ss)) (o >>= (λ rest. some (ls ++ (ms ++ rest))))
front-AreAbout ls ms ts us ss none h j k = refl
front-AreAbout ls ms ts us ss (some rest) h j k =
    map-append subject_in ls (ms ++ rest)
    ∙ ap₂ (◌++◌) h (map-append subject_in ms rest ∙ ap₂ (◌++◌) j k)

-- `ProbeChain` has one line for each node, in the order of the configuration, then one that says so
-- where there are no nodes, and then, where `pickClient` would find a node on the same answers, one
-- line for each entry of the chain's list `validators`, in order; without such a node it has a single
-- line for the validators.
pub probe_chain-subjects :
    (replies : ℕ → EndpointReply × Option ℤ) (answers : ℕ → LiveAnswers) (cc : ChainConfig)
    (ns : List NodeState) (rows : List ProbeResult)
    → cc.nodes ≡ map (λ n. n.cfg) ns
    → probe_chain replies answers cc ≡ some rows
    → map subject_in rows
      ≡ map (λ n. n.url) cc.nodes
        ++ (subjects_without cc.nodes
            ++ subjects_after (first_suitable cc.chain_id (λ j. (replies j).0) 0 ns) cc.validators)
unfolding probe_chain
probe_chain-subjects replies answers cc ns rows h e =
    let lines = probe_nodes cc.chain_id replies 0 cc.nodes in
    let picked : lines.1 ≡ first_suitable cc.chain_id (λ j. (replies j).0) 0 ns =
      ap (λ cs. (probe_nodes cc.chain_id replies 0 cs).1) h
      ∙ nodes-client cc.chain_id replies 0 ns in
    let behind =
      subst
        (λ u. AreAbout (subjects_after u cc.validators) (with_client answers cc.validators lines.1))
        picked (client-AreAbout answers cc.validators lines.1) in
    subst (AreAbout _) e (
      front-AreAbout _ _ _ _ _ (with_client answers cc.validators lines.1)
        (nodes-subjects cc.chain_id replies 0 cc.nodes) (without-subjects cc.nodes) behind)
