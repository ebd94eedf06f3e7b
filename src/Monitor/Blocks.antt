-- ===== src/Monitor/Blocks.antt =====
-- internal/monitor/watcher.go: what a vote and a block do to the watched validators. Events are
-- taken as decoded, and `now` is the clock at the block.
pub mod Counts
use cometduty.Prelude.{ℕ, zero, suc, ◌+◌, Bool, true, false, List, [], ◌∷◌, ◌++◌, String}
use cometduty.Prelude.{Option, none, some, ◌==◌, string_eq, if◌then◌else◌, not, ◌&&◌, ◌||◌, ltb}
use cometduty.Prelude.Int.{ℤ}
use cometduty.Prelude.Maps.{GoMap, lookup}
use cometduty.Monitor.Sign.{SignState, missed, prevote, precommit, signed, proposed, unknown}
use cometduty.Monitor.Sign.{BlockEvent, VoteEvent, Ratio, observe, vote_state, classify}
use cometduty.Monitor.State.{Chain, Target, ValInfo}

-- The target at a place, changed.
unfoldable pub at_target : ℕ → (Target → Target) → List Target → List Target
at_target i f [] = []
at_target zero f (t ∷ ts) = f t ∷ ts
at_target (suc i) f (t ∷ ts) = t ∷ at_target i f ts

-- A vote of the target's validator.
unfoldable pub vote_target : VoteEvent → Target → Target
vote_target v t = record t { vt = observe t.vt v.height (vote_state v) }

vote_for : Chain → VoteEvent → Option ℕ → Chain
vote_for c v none = c
vote_for c v (some i) = record c { targets = at_target i (vote_target v) c.targets }

-- `handleVote`.
unfoldable pub handle_vote : Chain → VoteEvent → Chain
unfolding vote_for
handle_vote c v =
    if v.validator_address == "" then c else vote_for c v (lookup v.validator_address c.by_addr)

-- The switch on the sign state.
unfoldable pub tally : SignState → Target → Target
tally missed t = record t { miss = suc t.miss; consec = suc t.consec }
tally prevote t = record t { pv_miss = suc t.pv_miss; miss = suc t.miss; consec = suc t.consec }
tally precommit t = record t { pc_miss = suc t.pc_miss; miss = suc t.miss; consec = suc t.consec }
tally signed t = record t { signs = suc t.signs; consec = 0 }
tally proposed t = record t { props = suc t.props; signs = suc t.signs; consec = 0 }
tally unknown t = t

-- The block result that the metrics are given.
pub record BlockResult : Type 0 where
  pub valcons : String
  pub moniker : String
  pub state : SignState
  pub consecutive : ℕ
  pub ratio : Ratio

-- A validator that is resolved, and has an address to look for.
judge : BlockEvent → Target → ValInfo → Target × SignState × Ratio
judge b t info =
    let (vt, st, ratio) = classify b info.cons_hex t.vt in
    let st = if info.bonded then st else unknown in (tally st (record t { vt = vt }), st, ratio)

judged : BlockEvent → Target → ValInfo → Target × List BlockResult
unfolding judge
judged b t info =
    let (t', st, ratio) = judge b t info in
    (
      t',
      record {
        valcons = info.valcons;
        moniker = info.moniker;
        state = st;
        consecutive = t'.consec;
        ratio = ratio;
      }
          ∷ [],
    )

known : BlockEvent → Target → Option ValInfo → Target × List BlockResult
unfolding judged
known b t none = (t, [])
known b t (some info) = if info.cons_hex == "" then (t, []) else judged b t info

-- One round of the loop over the targets.
unfoldable pub block_target : BlockEvent → Target → Target × List BlockResult
unfolding known
block_target b t = known b t t.info

unfoldable pub block_targets : BlockEvent → List Target → List Target × List BlockResult
block_targets b [] = ([], [])
block_targets b (t ∷ ts) =
    let (t', r) = block_target b t in let (ts', rs) = block_targets b ts in (t' ∷ ts', r ++ rs)

-- `handleBlock`.
unfoldable pub handle_block : Chain → ℕ → BlockEvent → Chain × List BlockResult
handle_block c now b =
    let (ts, rs) = block_targets b c.targets in
    (
      record c { last_block_time = now; last_height = b.height; targets = ts },
      (if c.met then rs else []),
    )
