-- ===== src/Examples/Chains.antt =====
-- Endpoints, refreshes and the staking set.
use cometduty.Prelude.{
  ℕ, [], ◌∷◌, List, ◌≡◌, ◌<◌, ◌⊎◌, refl, arith, true, false, not, All, none, some, length,
  string_eq,
}
use cometduty.Prelude.Int.{pos}
use cometduty.Prelude.Maps.{is_some}
use cometduty.Prelude.Ascii.{bytes_of}
use cometduty.Prelude.Text.{contains, has_prefix}
use cometduty.Bech32.{
  decode, ok, encode, convert_bits, convert_from, emit, finish, create_checksum, char_at, polymod,
  polymod_from, hrp_expand, polymod_step, feedback,
}
use cometduty.Monitor.State.{SetEntry, Chain}
use cometduty.Monitor.SetWatch.{set_watch}
use cometduty.Monitor.SetWatch.Changes.{set_watch-IsJustified, IsJustified}
use cometduty.Monitor.Resolve.{resolve_cons_address, resolved, with_prefix, encoded}
use cometduty.Monitor.Resolve.Valcons.{resolve_cons_address-decodes}
use cometduty.Monitor.Refresh.{Answers, signing}
use cometduty.Monitor.Refresh.Stakes.{parse_big}
use cometduty.Monitor.Pick.{EndpointReply, failed, answered, pick_client, run_round}
use cometduty.Monitor.Pick.First.{pick_client-HasChosen, HasChosen, choice, run_round-recovers}
use cometduty.Examples.Data.{chain}

abbrev alice : SetEntry
alice = record { valoper = "valoper1a"; moniker = "alice"; jailed = false; bonded = true }

abbrev bob : SetEntry
bob = record { valoper = "valoper1b"; moniker = ""; jailed = true; bonded = false }

-- Alice was seen, and is jailed now; Bob is new.
abbrev watching : Chain
watching = record chain { set_snapshot = (alice.valoper, alice) ∷ []; set_primed = true }

abbrev listing : List SetEntry
listing = record alice { jailed = true } ∷ bob ∷ []

set_watch-IsJustified_example :
    All (IsJustified watching.set_snapshot listing) (set_watch 100 (some listing) watching).1
set_watch-IsJustified_example = set_watch-IsJustified watching 100 listing

-- An amount that grows by a half.
parsed_old : parse_big "200" ≡ some (pos 200)
unfolding parse_big
parsed_old = refl

parsed_new : parse_big "300" ≡ some (pos 300)
unfolding parse_big
parsed_new = refl

abbrev answers : ℕ → Answers
answers i = record {
  staking = some (record {
    cons_addr = 1 ∷ 2 ∷ [];
    moniker = "alice";
    jailed = false;
    bonded = true;
    tokens = "1000";
  });
  slashing = signing false (pos 3) (pos 0);
  window = some (pos 10000);
}

-- The node refuses, and nothing else is allowed.
abbrev down : ℕ → EndpointReply
down i = failed "connection refused"

abbrev pub up : ℕ → EndpointReply
up i = answered "hub-4" false (pos 1000)

pick_client-HasChosen_example : HasChosen (choice down none chain) (pick_client 100 down none chain)
pick_client-HasChosen_example = pick_client-HasChosen 100 down none chain

run_round-recovers_example :
    let c' = (run_round 100 up none none answers chain).0 in
    (c'.client ≡ is_some (choice up none chain))
    × (c'.no_nodes ≡ not (is_some (choice up none chain)))
run_round-recovers_example = run_round-recovers 100 up none none answers chain

-- The twenty bytes of an address, and its text under the prefix "hub".
abbrev pub address : List ℕ
address =
    1 ∷ 2 ∷ 3 ∷ 4 ∷ 5 ∷ 6 ∷ 7 ∷ 8 ∷ 9 ∷ 10 ∷ 11 ∷ 12 ∷ 13 ∷ 14 ∷ 15 ∷ 16 ∷ 17 ∷ 18 ∷ 19 ∷ 20 ∷ []

abbrev pub address_text : List ℕ
address_text =
    b'h' ∷ b'u' ∷ b'b' ∷ b'1' ∷ b'q' ∷ b'y' ∷ b'p' ∷ b'q' ∷ b'x' ∷ b'p' ∷ b'q' ∷ b'9' ∷ b'q' ∷ b'c'
    ∷ b'r' ∷ b's' ∷ b's' ∷ b'z' ∷ b'g' ∷ b'2' ∷ b'p' ∷ b'v' ∷ b'x' ∷ b'q' ∷ b'6' ∷ b'r' ∷ b's'
    ∷ b'0' ∷ b'z' ∷ b'q' ∷ b'g' ∷ b'3' ∷ b'y' ∷ b'y' ∷ b'c' ∷ b'5' ∷ b'z' ∷ b'z' ∷ b'p' ∷ b'l'
    ∷ b'2' ∷ b'm' ∷ []

pub known_resolved :
    resolve_cons_address "hubvaloper1x" "" "hub" address ≡ resolved address address_text
unfolding resolve_cons_address contains has_prefix with_prefix encoded bytes_of encode convert_bits
    convert_from emit finish create_checksum char_at polymod polymod_from hrp_expand polymod_step
    feedback
known_resolved = refl

resolve_cons_address-decodes_example :
    (length address ≡ 20)
    × (((hrp : List ℕ) × (decode address_text ≡ ok (hrp, address))) ⊎ (90 < length address_text))
resolve_cons_address-decodes_example =
    resolve_cons_address-decodes "hubvaloper1x" "" "hub" address address address_text (ground arith)
      known_resolved
