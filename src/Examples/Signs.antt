-- ===== src/Examples/Signs.antt =====
-- Votes, and the blocks that they lead to.
use cometduty.Prelude.{List, [], ◌∷◌, ◌≡◌, ◌≢◌, refl, arith}
use cometduty.Prelude.Int.{ℤ, pos, int_eq}
use cometduty.Monitor.Sign.{
  SignState, missed, prevote, precommit, proposed, resolve, new_vote_tracker,
}
use cometduty.Monitor.Sign.Votes.{resolve-observe_all, join, seen, observe_all}
use mathlib.Core.List.{Perm, Permᴰ}

-- A validator's votes for height 7 and one, early, for height 8, in two orders.
abbrev votes : List (ℤ × SignState)
votes = (pos 7, prevote) ∷ (pos 8, proposed) ∷ (pos 7, precommit) ∷ []

abbrev shuffled : List (ℤ × SignState)
shuffled = (pos 8, proposed) ∷ (pos 7, prevote) ∷ (pos 7, precommit) ∷ []

votes-shuffled : Perm votes shuffled
votes-shuffled = ∣ Permᴰ.swap refl refl ∣₁

missed-known : missed ≢ SignState.unknown
missed-known = λ e. ground arith

resolve-observe_all_example :
    ((resolve (observe_all new_vote_tracker votes) (pos 7) missed).1
      ≡ join missed (seen (pos 7) missed votes))
    × ((resolve (observe_all new_vote_tracker votes) (pos 7) missed).1
        ≡ (resolve (observe_all new_vote_tracker shuffled) (pos 7) missed).1)
resolve-observe_all_example =
    resolve-observe_all votes shuffled (pos 7) missed missed-known votes-shuffled
