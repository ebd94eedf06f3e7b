-- ===== src/Monitor/Socket.antt =====
-- internal/monitor/watcher.go: `wsLoop`, the subscription of a chain. An event is taken as decoded, with
-- the clock at a block.
pub mod Crashes
use cometduty.Prelude.{
  ℕ, zero, suc, ◌*◌, Bool, true, false, List, [], ◌∷◌, String, Option, none, some, not, ◌&&◌,
}
use cometduty.Prelude.{◌==◌, string_eq, if◌then◌else◌}
use cometduty.Prelude.Int.{pos}
use cometduty.Prelude.Maps.{GoMap}
use cometduty.Prelude.Time.{is_zero, longer, second}
use cometduty.Monitor.Blocks.{handle_block, handle_vote}
use cometduty.Monitor.Sign.{BlockEvent, VoteEvent}
use cometduty.Monitor.State.{Chain, NodeState}
use cometduty.Rpc.Sockets.{Frame, Read, read_error, nil, got, read_event}

-- The first node that is up and carries votes, or the client's endpoint.
unfoldable pub vote_endpoint : String → List NodeState → String
vote_endpoint url [] = url
vote_endpoint url (n ∷ ns) =
    let rest = vote_endpoint url ns in
    if not n.down && not n.cfg.disable_vote then n.cfg.url else rest

-- The headers and the TLS option of the last node with the endpoint.
unfoldable pub socket_options :
    String → GoMap String String × Bool → List NodeState → GoMap String String × Bool
socket_options endpoint found [] = found
socket_options endpoint found (n ∷ ns) =
    socket_options endpoint
      (if n.cfg.url == endpoint then (n.cfg.headers, n.cfg.insecure_tls) else found) ns

-- What is dialled, or none without a client.
unfoldable pub subscription : Chain → Option (String × GoMap String String × Bool)
subscription c =
    let endpoint = vote_endpoint c.client_url c.nodes in
    let (headers, insecure) = socket_options endpoint ([], false) c.nodes in
    if c.client_url == "" then none else some (endpoint, headers, insecure)

-- An event by its type; none is a payload that does not decode.
pub data WsEvent : Type 0 where
  new_block : ℕ → Option BlockEvent → WsEvent
  vote : Option VoteEvent → WsEvent
  other : WsEvent

-- What the loop wakes up to.
pub data Wake : Type 0 where
  cancelled : Wake
  idle : ℕ → Wake
  received : Read WsEvent → Wake

-- How far the loop has come: it waits on, it has returned, with an error or none, or the program has
-- crashed on an event that is nil.
pub data Ended : Type 0 where
  waiting crashed : Ended
  returned : Option String → Ended

unfoldable pub handle_event : Chain → WsEvent → Chain
handle_event c (new_block now none) = c
handle_event c (new_block now (some b)) = (handle_block c now b).0
handle_event c (vote none) = c
handle_event c (vote (some v)) = handle_vote c v
handle_event c other = c

-- No block for more than 90 seconds, once there was one.
unfoldable pub blocks_stopped : Chain → ℕ → Bool
blocks_stopped c now =
    not (is_zero c.last_block_time) && longer now c.last_block_time (pos (90 * second))

-- The loop of `wsLoop`, over what it wakes up to.
unfoldable pub ws_loop : Chain → List Wake → Chain × Ended
ws_loop c [] = (c, waiting)
ws_loop c (cancelled ∷ ws) = (c, returned none)
ws_loop c (idle now ∷ ws) =
    let rest = ws_loop c ws in
    if blocks_stopped c now
    then (c, returned (some "no NewBlock events for 90s — reconnecting"))
    else rest
ws_loop c (received (read_error e) ∷ ws) = (c, returned (some e))
ws_loop c (received nil ∷ ws) = (c, crashed)
ws_loop c (received (got e) ∷ ws) = ws_loop (handle_event c e) ws

-- What the goroutine reads of the messages, up to an error; each read takes a message at least, so their
-- number is fuel enough.
unfoldable pub reads : ℕ → List (Frame WsEvent) → List Wake
reads zero fs = []
reads (suc fuel) fs = elim (read_event fs) [
  | none ↦ []
  | some (read_error e, rest) ↦ received (read_error e) ∷ []
  | some (nil, rest) ↦ received nil ∷ reads fuel rest
  | some (got e, rest) ↦ received (got e) ∷ reads fuel rest
]
