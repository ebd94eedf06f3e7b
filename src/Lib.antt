-- ===== src/Lib.antt =====
-- A model of cometduty, a monitor of Tendermint validators, written in Go: it watches the blocks of
-- a chain and the health of its nodes, raises alerts and resolves them, and hands them to notifiers.
--
-- The parts, and how they work together. A chain's monitor (internal/monitor) takes votes and blocks
-- from a websocket, probes the nodes and the EVM endpoints every 45 seconds, and every two seconds
-- looks at all that it knows and makes alerts. The engine (internal/alert) takes the alerts,
-- holds what a silence mutes, drops what a destination was already told, and sends the rest.
-- The configuration (internal/config) is read by both. The program (cmd/cometduty/cmd/run.go) loads it,
-- restores the engine from the state file, starts a monitor for each chain, serves the API for silences
-- (internal/api) and loads it again on SIGHUP.
--
--   Config                    internal/config/config.go: the records and their accessors
--   Config/Validate, Fatal    internal/config/config.go: Validate, and what it calls fatal
--   Config/Load, CutOff       internal/config/load.go: Load, and the default directory of chains
--   Alert                     internal/alert/engine.go: Alert, ResolvedDest and sentEntry
--   Alert/Silence             internal/alert/silence.go: Matcher, Silence, LabelSet
--   Alert/Engine              internal/alert/engine.go: Engine, Dispatch, shouldSend, HasOpen
--   Alert/Engine/Silences     internal/alert/silence.go: AddSilence, ExpireSilence, RunSilences,
--                             releaseHeld, RestoreSilences
--   Alert/Engine/Stored       internal/alert/engine.go: Snapshot, Restore, RunReminders, fire
--   Alert/Engine/Dedup, Run   what a destination is told over a run of calls
--   Alert/Engine/Muted        what an accepted silence mutes
--   Alert/Engine/Release      what the loop of releaseHeld deletes and sends
--   Alert/Engine/Held, Filled what is held after a raise and after releaseHeld
--   Alert/Engine/Restart      what a restart keeps
--   Monitor/Sign              internal/monitor/sign.go: sign states, the vote tracker, classify
--   Monitor/Sign/Votes        votes in any order
--   Monitor/State             internal/monitor/chain.go: nodeState, Target, evmProbe, Chain,
--                             rebuildLocked, NewChain, Update
--   Monitor/Alerting          internal/monitor/health.go: alert, nodeLabel
--   Monitor/Blocks            internal/monitor/watcher.go: handleVote, handleBlock
--   Monitor/Blocks/Counts     the counters of a validator over a run of blocks
--   Monitor/Watch and below   internal/monitor/health.go: one tick of watchLoop, by sections: the
--                             stall and the missing endpoints, Nodes, Probes, Validators, and
--                             Ticks for all of them; Watch/Roles the sections of each role
--   Monitor/Probe             internal/monitor/health.go: probeNode, probeEVM, markDown
--   Monitor/Round             internal/monitor/health.go: probeAllNodes, ready; setNoNodes of chain.go
--   Monitor/Local             internal/monitor/local.go: probeLocal, and below it Signer (updateSigner),
--                             StateFile (probeSignerFile), Mounts (mountOf, probeReadonly) and Disk
--                             (probeDisk, probeFillRate), with what runs of them leave
--   Monitor/Resolve           internal/monitor/validator.go: resolveConsAddress
--   Monitor/SetWatch          internal/monitor/chain.go: setWatch
--   Monitor/Refresh           internal/monitor/chain.go: refreshValInfo; Stakes stakeDeltaPct and stakeLess
--   Monitor/Pick              internal/monitor/chain.go: pickClient, probeEndpoint, a round of Run
--   Supervisor                internal/monitor/supervisor.go: ResolveDestinations, Start, Reload, Ready
--   Supervisor/Kinds, Reloads the kinds of destinations, and what runs after a reload
--   Logs                      internal/logs/logs.go: Rule, Match, Compile
--   Logs/Windows              when a rule fires
--   Monitor/LogLines, Fired   internal/monitor/logs.go: evalLogLine, logSample, and what a line sends
--   Monitor/LogWorks,         internal/monitor/logs.go: what logsLoop watches, NewSource of internal/logs,
--     Accepted                and what is watched of a log that Validate accepts
--   Logs/Packs, Compiled      internal/logs/logs.go: DefaultRules, KernelRules, and when Compile succeeds
--   Wire                      internal/protowire/protowire.go
--   Wire/Varints, Fields      round trips; Wire/Fuel the end of Parse
--   Bech32                    internal/bech32/bech32.go; Bech32/Groups, Checksum and Texts its round trips
--   Consensus                 internal/consensus/address.go; Consensus/Keys the address of a key
--   Notifiers/Telegram        internal/alert/notifiers/telegram.go: Send; Cards the cards, Kinds the table of
--                             texts, Rendering what a card says, BotApi the calls of the Bot API
--   Notifiers/Telegram/Opens, Shown, Runs  what is open on the cards, and what a second send does
--     Groups                  which alerts share a card
--   Notifiers/Payloads        the other notifiers of internal/alert/notifiers; Incidents which event
--                             closes which incident
--   Rpc                       internal/rpc/client.go: New, call and the queries; Paging the loop over pages
--   Rpc/Sockets               internal/rpc/ws.go: DialWS up to the connection, ReadEvent
--   Monitor/Socket, Crashes   internal/monitor/watcher.go: wsLoop
--   Monitor/Queries           internal/monitor/validator.go: the queries of the staking and slashing modules
--   Monitor/LiveProbe         internal/monitor/probe.go: ResolveValidators and ProbeChain; Agrees with the
--                             refresh, Rows what the report has a line for
--   Server/Starting           cmd/cometduty/cmd/run.go: the engine at the start, the healthcheck; Starts,
--                             Periods
--   Server/Signals, Valid     cmd/cometduty/cmd/run.go: the start and the loop over the signals
--   Server/Stores, Atomic     internal/state/state.go, internal/history/history.go: the files
--   Server/Api                internal/api/api.go; Kept the silences that calls leave,
--     Purged, Shown           what the ticks of RunSilences leave, and what is shown
--   Examples                  runs at concrete values
--   Prelude                   shared names, integers, bits, maps, texts, fields of lines, decimals, times
--
-- Names are those of the source in this library's spelling: `shouldSend` is `should_send`, the field
-- `missedAlarm` is `missed_alarm`.
--
-- How the code is read.
--   A method that takes a mutex is one step, on the state that it is given and returns. Where
--   it reads the clock more than once the model reads it once. A time is the number of nanoseconds
--   since Go's zero time, so that IsZero is 0, and a duration is an integer of nanoseconds; neither is
--   cut off where Go's 64 bits end, nor are heights and counters: they stay far below 2 ^ 63. The
--   varints of Wire keep their 64 bits.
--   A Go map is an association list, and a loop over a map goes through the list in its order. What is
--   sent on a goroutine, by `fire` or by the monitor's `alert`, is returned as a list, in the order of
--   the calls. What a tick asks of the engine, `HasOpen`,
--   is a parameter of the tick.
--   Go's regexp.Compile is a parameter that gives the test of a pattern or refuses it. EqualFold folds
--   ASCII, which is enough for hexadecimal addresses. The window percentage is compared as a ratio of
--   integers. What a client answers to a probe is data. The printing of durations and of percentages
--   is a parameter.
--   What a node answers to a query, or an endpoint to a status call, is data as well, and so is what
--   the chain registry lists. Amounts of stake are integers without a bound.
--   Of a local check the answers of the file system and of the JSON decoder are data. A float64 that
--   holds bytes or inodes is a whole number, exact below 2 ^ 53, and a quotient of such is compared and
--   printed as the exact fraction. The texts of Bech32 are ASCII, as lists of bytes. SHA-256 is a
--   parameter.
--   A loop of the code is over a list or a map, and is structural recursion. Three have fuel: the loop of
--   appendVarint, nine rounds for the nine groups of seven bits that 64 bits have besides the last, and
--   the loop of Parse, a round for each byte, since a round takes at least one, and
--   the inner loop of convertBits, a round for each bit.
--
-- Not modelled: logging, assets, the commands but the default one, the EVM client and the chain registry,
-- which are HTTP calls, metrics (but for the block results), connections and their encodings (HTTP,
-- websockets, JSON, YAML, age, the protobuf of the queries), which are data or parameters where a part is
-- modelled, the CPU and memory of a node, the readers of logs, and the level of a line of a log, which is
-- only counted.
pub mod Prelude
pub mod Config
pub mod Alert
pub mod Monitor
pub mod Supervisor
pub mod Wire
pub mod Bech32
pub mod Consensus
pub mod Logs
pub mod Notifiers
pub mod Rpc
pub mod Server
pub mod Examples
