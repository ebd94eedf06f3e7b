-- ===== src/Monitor/Sign.antt =====
-- internal/monitor/sign.go: how a validator's signature appears in a block.
pub mod Votes
use cometduty.Prelude.{ℕ, suc, Bool, true, false, List, [], ◌∷◌, String, Option, none, some}
use cometduty.Prelude.{◌==◌, string_eq, if◌then◌else◌, not, ◌&&◌, ◌||◌, ltb}
use cometduty.Prelude.Int.{ℤ, pos, negsuc, ltb_ℤ, leb_ℤ, ◌-ℤ◌, int_eq}
use cometduty.Prelude.Maps.{GoMap, lookup, insert, or_zero}
use cometduty.Prelude.Text.{equal_fold}

pub data SignState : Type 0 where
  missed prevote precommit signed proposed unknown : SignState

-- The constants' values, which give the order.
unfoldable pub sign_value : SignState → ℤ
sign_value missed = pos 0
sign_value prevote = pos 1
sign_value precommit = pos 2
sign_value signed = pos 3
sign_value proposed = pos 4
sign_value unknown = negsuc 0

-- `SignState.String`.
unfoldable pub sign_text : SignState → String
sign_text missed = "missed"
sign_text prevote = "prevote"
sign_text precommit = "precommit"
sign_text signed = "signed"
sign_text proposed = "proposed"
sign_text unknown = "unknown"

-- `b < a` on sign states.
abbrev pub beats : SignState → SignState → Bool
beats a b = ltb_ℤ (sign_value b) (sign_value a)

pub record CommitSig : Type 0 where
  pub block_id_flag : ℤ
  pub validator_address : String
  pub signature : String

pub record BlockEvent : Type 0 where
  pub height : ℤ
  pub proposer_address : String
  pub commit_height : ℤ
  pub signatures : List CommitSig

-- The flag of a real commit signature.
abbrev pub block_id_flag_commit : ℤ
block_id_flag_commit = pos 2

-- A signature that counts: `s.BlockIDFlag == blockIdFlagCommit && s.Signature != ""`.
abbrev pub counts : CommitSig → Bool
counts s = s.block_id_flag == block_id_flag_commit && not (s.signature == "")

-- The loop of `signed`: whether the address is among the signatures that count, how many entries
-- there are and how many count.
unfoldable pub signed_loop : String → List CommitSig → Bool × ℕ × ℕ → Bool × ℕ × ℕ
signed_loop addr [] r = r
signed_loop addr (s ∷ ss) (found, total, count) = signed_loop addr ss (
    if counts s
    then (found || equal_fold s.validator_address addr, suc total, suc count)
    else (found, suc total, count))

-- A ratio of two counts; 0 where the denominator is 0.
pub record Ratio : Type 0 where
  pub num : ℕ
  pub den : ℕ

abbrev ratio_of : ℕ → ℕ → Ratio
ratio_of count total =
    if ltb 0 total then record { num = count; den = total } else record { num = 0; den = 1 }

-- `(blockEvent).signed`.
unfoldable pub signed_by : BlockEvent → String → Bool × Ratio
signed_by b addr =
    let (ok, total, count) = signed_loop addr b.signatures (false, 0, 0) in
    (ok, ratio_of count total)

pub record VoteEvent : Type 0 where
  pub type : ℤ
  pub height : ℤ
  pub round : ℤ
  pub validator_address : String

-- `(voteEvent).state`: 1 is a prevote, 2 a precommit and 32 a proposal.
unfoldable pub vote_state : VoteEvent → SignState
vote_state v =
    if v.type == pos 1
    then prevote
    else if v.type == pos 2
    then precommit
    else if v.type == pos 32
    then proposed
    else unknown

-- `voteTracker`: the best vote seen for each height.
pub record VoteTracker : Type 0 where
  pub pending : GoMap ℤ SignState

unfoldable pub new_vote_tracker : VoteTracker
new_vote_tracker = record { pending = [] }

-- `observe`. A height with no vote reads as `missed`, the zero value.
unfoldable pub observe : VoteTracker → ℤ → SignState → VoteTracker
observe vt h s =
    if beats s (or_zero (lookup h vt.pending) missed)
    then record { pending = insert h s vt.pending }
    else vt

-- The loop that deletes every height at or below `h`.
unfoldable pub prune : ℤ → GoMap ℤ SignState → GoMap ℤ SignState
prune h [] = []
prune h ((k, s) ∷ m) = let rest = prune h m in if leb_ℤ k h then rest else (k, s) ∷ rest

abbrev pub better : SignState → Option SignState → SignState
better best none = best
better best (some v) = if beats v best then v else best

-- `resolve`.
unfoldable pub resolve : VoteTracker → ℤ → SignState → VoteTracker × SignState
resolve vt h block_says =
    (record { pending = prune h vt.pending }, better block_says (lookup h vt.pending))

-- What the block itself says of the address.
unfoldable pub block_says : BlockEvent → String → SignState
block_says b addr =
    if b.proposer_address == addr then proposed else if (signed_by b addr).0 then signed else missed

-- The height that the block's commit signs.
unfoldable pub signed_height : BlockEvent → ℤ
signed_height b = if ltb_ℤ (pos 0) b.commit_height then b.commit_height else b.height -ℤ pos 1

-- `classify`.
unfoldable pub classify : BlockEvent → String → VoteTracker → VoteTracker × SignState × Ratio
classify b addr vt =
    let (vt', st) = resolve vt (signed_height b) (block_says b addr) in
    (vt', st, (signed_by b addr).1)
