-- ===== src/Monitor/Pick.antt =====
-- internal/monitor/chain.go: `pickClient`, which looks for an endpoint, and a round of `Run`. What an
-- endpoint answers to `Status`, and what the chain registry lists, is data.
pub mod First
use cometduty.Prelude.{ℕ, suc, Bool, true, false, List, [], ◌∷◌, ◌++◌, String, Option, none, some}
use cometduty.Prelude.{◌==◌, string_eq, if◌then◌else◌, not, ◌&&◌, ◌||◌}
use cometduty.Prelude.Int.{ℤ}
use cometduty.Prelude.Text.{sprintf}
use cometduty.Alert.{Alert}
use cometduty.Monitor.State.{Chain, NodeState, SetEntry}
use cometduty.Monitor.Round.{set_no_nodes}
use cometduty.Monitor.Refresh.{Answers, refresh_val_info}
use Prim.Native.String.{◌++◌ as ◌<>◌}

-- The answer of an endpoint: its URL is refused, the call fails, or the network, whether it catches up
-- and its height.
pub data EndpointReply : Type 0 where
  bad_url failed : String → EndpointReply
  answered : String → Bool → ℤ → EndpointReply

-- What `probeEndpoint` returns: the height of a healthy node, or an error, with whether the node
-- catches up and its height where there was an answer.
pub data Probed : Type 0 where
  healthy : ℤ → Probed
  refused : String → Option (Bool × ℤ) → Probed

unfoldable pub probe_endpoint : String → EndpointReply → Probed
probe_endpoint want (bad_url e) = refused ("bad url: " <> e) none
probe_endpoint want (failed e) = refused ("status: " <> e) none
probe_endpoint want (answered network catching height) =
    if not (network == want)
    then refused (sprintf "wrong chain_id %s (want %s)" (network ∷ want ∷ []))
        (some (catching, height))
    else if catching
    then refused "node is catching up" (some (catching, height))
    else healthy height

-- `probeRawURL`, of an endpoint that is suitable or not.
unfoldable pub is_suitable : String → EndpointReply → Bool
is_suitable want (bad_url e) = false
is_suitable want (failed e) = false
is_suitable want (answered network catching height) = not (not (network == want) || catching)

-- A sync that is first seen here starts its clocks.
with_sync : ℕ → Option (Bool × ℤ) → NodeState → NodeState
with_sync now none n = n
with_sync now (some (catching, height)) n =
    if catching && not n.syncing
    then record n {
      syncing = true;
      sync_since = now;
      sync_last_change = now;
      height = height;
      sync_start_height = height;
      sync_last_height = height;
    }
    else n

abbrev usable : ℤ → NodeState → NodeState
usable height n = record n { down = false; syncing = false; last_msg = ""; height = height }

-- What the loop over the nodes ends with: the nodes, the URL of the endpoint that was picked, and the
-- first error.
pub record Search : Type 0 where
  pub nodes : List NodeState
  pub picked : Option String
  pub first_err : Option String

abbrev or_first : Option String → String → Option String
or_first none e = some e
or_first (some f) e = some f

error_after : Option String → Probed → Option String
error_after err (healthy height) = err
error_after err (refused e st) = or_first err e

-- What a node makes of the search behind it, which a healthy node ends.
search_step : ℕ → Probed → Option String → NodeState → List NodeState → Search → Search
unfolding with_sync
search_step now (healthy height) err n ns rest = record {
  nodes = usable height n ∷ ns;
  picked = some n.cfg.url;
  first_err = err;
}
search_step now (refused e st) err n ns rest = record rest {
  nodes = with_sync now st (record n { down = true; last_msg = e }) ∷ rest.nodes;
}

-- The loop over the nodes, with the error so far.
unfoldable pub search_nodes :
    ℕ → String → (ℕ → EndpointReply) → ℕ → Option String → List NodeState → Search
unfolding search_step error_after
search_nodes now want replies i err [] = record { nodes = []; picked = none; first_err = err }
search_nodes now want replies i err (n ∷ ns) =
    let p = probe_endpoint want (replies i) in
    let rest = search_nodes now want replies (suc i) (error_after err p) ns in
    search_step now p err n ns rest

-- The loop over the public endpoints.
unfoldable pub search_public : String → List (String × EndpointReply) → Option String
search_public want [] = none
search_public want ((u, r) ∷ us) =
    let rest = search_public want us in if is_suitable want r then some u else rest

listed_public : String → Option (List (String × EndpointReply)) → Option String
listed_public want none = none
listed_public want (some us) = search_public want us

-- The last resort, where it is allowed.
unfoldable pub fallback : Chain → Option (List (String × EndpointReply)) → Option String
unfolding listed_public
fallback c public = if c.cfg.public_fallback then listed_public c.cfg.chain_id public else none

or_unconfigured : Option String → String
or_unconfigured none = "no endpoints configured"
or_unconfigured (some e) = e

with_public : Option String → Option String → Chain → Chain × Option String
unfolding or_unconfigured
with_public (some u) err c = (record c { client = true; client_url = u }, none)
with_public none err c = (record c { client = false }, some (or_unconfigured err))

with_picked :
    Option String
    → Option (List (String × EndpointReply))
    → Option String
    → Chain
    → Chain × Option String
unfolding with_public
with_picked (some u) public err c = (record c { client = true; client_url = u }, none)
with_picked none public err c = with_public (fallback c public) err c

-- `pickClient`: the chain, and the error where no endpoint is usable.
unfoldable pub pick_client :
    ℕ → (ℕ → EndpointReply) → Option (List (String × EndpointReply)) → Chain → Chain × Option String
unfolding with_picked
pick_client now replies public c =
    let s = search_nodes now c.cfg.chain_id replies 0 none c.nodes in
    with_picked s.picked public s.first_err (record c { nodes = s.nodes })

round_after :
    ℕ → Option (List SetEntry) → (ℕ → Answers) → Chain × Option String → Chain × List Alert
round_after now listing answers (c, some e) = (set_no_nodes now true c, [])
round_after now listing answers (c, none) =
    refresh_val_info now listing answers (set_no_nodes now false c)

-- A round of `Run` up to the websocket: the endpoint, the mark on the chain, and the refresh.
unfoldable pub run_round :
    ℕ
    → (ℕ → EndpointReply)
    → Option (List (String × EndpointReply))
    → Option (List SetEntry)
    → (ℕ → Answers)
    → Chain
    → Chain × List Alert
unfolding round_after
run_round now replies public listing answers c =
    round_after now listing answers (pick_client now replies public c)
