-- ===== src/Monitor/Blocks/Counts.antt =====
-- The counters of a validator, block by block.
use cometduty.Prelude.{ℕ, suc, Bool, true, false, List, [], ◌∷◌, ◌≡◌, ◌≢◌, refl}
use cometduty.Prelude.{
  String, if_false, if_true, Bool-cases, inl, inr, sym, Option, none, some, ◌==◌, string_eq, arith,
  ap, length, if◌then◌else◌, not,
}
use mathlib.Core.Path.{subst}
use cometduty.Prelude.Maps.{lookup}
use cometduty.Prelude.Int.{int_eq}
use cometduty.Monitor.Sign.{SignState, missed, prevote, precommit, signed, proposed, unknown}
use cometduty.Monitor.Sign.{BlockEvent, classify, sign_value, better, resolve, block_says}
use cometduty.Monitor.Sign.{signed_height, VoteEvent, VoteTracker}
use cometduty.Monitor.State.{Target, ValInfo, new_target}
use cometduty.Config.{ValidatorConfig}
use cometduty.Monitor.Blocks.{tally, block_target, known, judged, judge, vote_target, BlockResult}

better-ne-unknown :
    (says : SignState) (o : Option SignState) → says ≢ unknown → better says o ≢ unknown
unfolding sign_value
better-ne-unknown says none h = h
better-ne-unknown says (some v) h = λ e. ground arith

block_says-ne-unknown : (b : BlockEvent) (addr : String) → block_says b addr ≢ unknown
unfolding block_says
block_says-ne-unknown b addr = λ e. ground arith

abbrev state_of : BlockEvent → Target → ValInfo → SignState
state_of b t i = (classify b i.cons_hex t.vt).1

state_of-ne-unknown : (b : BlockEvent) (t : Target) (i : ValInfo) → state_of b t i ≢ unknown
unfolding classify resolve
state_of-ne-unknown b t i =
    better-ne-unknown (block_says b i.cons_hex) (lookup (signed_height b) t.vt.pending)
      (block_says-ne-unknown b i.cons_hex)

known_target :
    (b : BlockEvent) (t : Target) (i : ValInfo)
    → (i.cons_hex == "") ≡ false
    → (known b t (some i)).0
      ≡ tally
          (if i.bonded then state_of b t i else unknown)
          (record t { vt = (classify b i.cons_hex t.vt).0 })
unfolding known
known_target b t i h = ap (λ (p : Target × List BlockResult). p.0) (if_false _ _ h)

-- What a validator's target is sent: a vote of its own, or a block.
pub data Event : Type 0 where
  vote_event : VoteEvent → Event
  block_event : BlockEvent → Event

after_event : Event → Target → Target
after_event (vote_event v) t = vote_target v t
after_event (block_event b) t = (block_target b t).0

-- The target after the events of a list, the latest first.
unfoldable pub after : Target → List Event → Target
unfolding after_event
after t [] = t
after t (e ∷ es) = after_event e (after t es)

-- How each of the blocks was judged, by the block and the votes that were there before it.
unfoldable pub judgements : ValInfo → Target → List Event → List SignState
judgements i t [] = []
judgements i t (vote_event v ∷ es) = judgements i t es
judgements i t (block_event b ∷ es) = state_of b (after t es) i ∷ judgements i t es

abbrev pub blocks_in : List Event → ℕ
blocks_in [] = 0
blocks_in (vote_event v ∷ es) = blocks_in es
blocks_in (block_event b ∷ es) = suc (blocks_in es)

abbrev pub is_missed : SignState → Bool
is_missed missed = true
is_missed prevote = true
is_missed precommit = true
is_missed signed = false
is_missed proposed = false
is_missed unknown = false

abbrev pub is_prevote : SignState → Bool
is_prevote prevote = true
is_prevote _ = false

abbrev pub is_precommit : SignState → Bool
is_precommit precommit = true
is_precommit _ = false

abbrev pub is_proposed : SignState → Bool
is_proposed proposed = true
is_proposed _ = false

-- How many are of a kind, and how many missed ones there are before the first that is not.
unfoldable pub count : (SignState → Bool) → List SignState → ℕ
count is [] = 0
count is (s ∷ ss) = if is s then suc (count is ss) else count is ss

unfoldable pub streak_of : List SignState → ℕ
streak_of [] = 0
streak_of (s ∷ ss) = if is_missed s then suc (streak_of ss) else 0

-- The counters of a target are those of the judgements.
pub record HasCounts (i : ValInfo) (ss : List SignState) (t : Target) : Type 0 where
  pub misses : t.miss ≡ count is_missed ss
  pub prevotes : t.pv_miss ≡ count is_prevote ss
  pub precommits : t.pc_miss ≡ count is_precommit ss
  pub signatures : t.signs ≡ count (λ s. not (is_missed s)) ss
  pub proposals : t.props ≡ count is_proposed ss
  pub streak : t.consec ≡ streak_of ss
  pub validator : t.info ≡ some i

tally-HasCounts :
    (i : ValInfo) (ss : List SignState) (s : SignState) (t : Target)
    → s ≢ unknown
    → HasCounts i ss t
    → HasCounts i (s ∷ ss) (tally s t)
unfolding tally count streak_of
tally-HasCounts i ss missed t n h = ground arith
tally-HasCounts i ss prevote t n h = ground arith
tally-HasCounts i ss precommit t n h = ground arith
tally-HasCounts i ss signed t n h = ground arith
tally-HasCounts i ss proposed t n h = ground arith
tally-HasCounts i ss unknown t n h = ground arith

-- The votes that are kept are no part of the counters.
votes-HasCounts :
    (i : ValInfo) (ss : List SignState) (t : Target) (vt : VoteTracker)
    → HasCounts i ss t
    → HasCounts i ss (record t { vt = vt })
votes-HasCounts i ss t vt h = record {
  misses = h.misses;
  prevotes = h.prevotes;
  precommits = h.precommits;
  signatures = h.signatures;
  proposals = h.proposals;
  streak = h.streak;
  validator = h.validator;
}

block_target-HasCounts :
    (b : BlockEvent) (t : Target) (i : ValInfo) (ss : List SignState)
    → i.bonded ≡ true
    → (i.cons_hex == "") ≡ false
    → HasCounts i ss t
    → HasCounts i (state_of b t i ∷ ss) (block_target b t).0
unfolding block_target
block_target-HasCounts b t i ss bonded hex h =
    let seen = record t { vt = (classify b i.cons_hex t.vt).0 } in
    subst (λ o. HasCounts i (state_of b t i ∷ ss) (known b t o).0) (sym h.validator)
      (subst (HasCounts i (state_of b t i ∷ ss)) (sym (known_target b t i hex)) (
        subst (λ s. HasCounts i (state_of b t i ∷ ss) (tally s seen)) (sym (if_true _ _ bonded))
          (tally-HasCounts i ss (state_of b t i) seen (state_of-ne-unknown b t i)
            (votes-HasCounts i ss t seen.vt h))))

-- A target that has just been resolved.
unfoldable pub fresh : ValidatorConfig → ValInfo → Target
unfolding new_target
fresh vc i = record (new_target vc) { info = some i }

after-HasCounts :
    (vc : ValidatorConfig) (i : ValInfo) (es : List Event)
    → i.bonded ≡ true
    → (i.cons_hex == "") ≡ false
    → HasCounts i (judgements i (fresh vc i) es) (after (fresh vc i) es)
unfolding after after_event judgements fresh vote_target count streak_of
after-HasCounts vc i [] bonded hex = record {
  misses = refl;
  prevotes = refl;
  precommits = refl;
  signatures = refl;
  proposals = refl;
  streak = refl;
  validator = refl;
}
after-HasCounts vc i (vote_event v ∷ es) bonded hex =
    votes-HasCounts i _ (after (fresh vc i) es) _ (after-HasCounts vc i es bonded hex)
after-HasCounts vc i (block_event b ∷ es) bonded hex =
    block_target-HasCounts b (after (fresh vc i) es) i _ bonded hex
      (after-HasCounts vc i es bonded hex)

length-judgements :
    (i : ValInfo) (t : Target) (es : List Event) → length (judgements i t es) ≡ blocks_in es
unfolding judgements
length-judgements i t [] = refl
length-judgements i t (vote_event v ∷ es) = length-judgements i t es
length-judgements i t (block_event b ∷ es) = ap suc (length-judgements i t es)

-- After votes and blocks in any order (the latest first), each block is judged once, and the
-- counters of a bonded validator with an address count the judgements: its misses, those with a
-- prevote and those with a precommit, its signatures, its proposals, and the misses in a row since
-- the last block that it signed.
pub after-fresh :
    (vc : ValidatorConfig) (i : ValInfo) (es : List Event)
    → i.bonded ≡ true
    → (i.cons_hex == "") ≡ false
    → HasCounts i (judgements i (fresh vc i) es) (after (fresh vc i) es)
      × (length (judgements i (fresh vc i) es) ≡ blocks_in es)
after-fresh vc i es bonded hex =
    (after-HasCounts vc i es bonded hex, length-judgements i (fresh vc i) es)

known-unbonded :
    (b : BlockEvent) (t : Target) (i : ValInfo)
    → i.bonded ≡ false
    → (known b t (some i)).0 ≡ record t { vt = (known b t (some i)).0.vt }
unfolding known judged judge tally
known-unbonded b t i bonded = elim (Bool-cases (i.cons_hex == "")) [
  | inl e ↦ rw e refl
  | inr e ↦ rw e (rw bonded refl)
]

-- A validator that is not bonded keeps all its state but its votes, whatever the block holds.
block_target-unbonded :
    (b : BlockEvent) (t : Target) (i : ValInfo)
    → t.info ≡ some i
    → i.bonded ≡ false
    → (block_target b t).0 ≡ record t { vt = (block_target b t).0.vt }
unfolding block_target
block_target-unbonded b t i info bonded =
    subst (λ o. (known b t o).0 ≡ record t { vt = (known b t o).0.vt }) (sym info)
      (known-unbonded b t i bonded)
