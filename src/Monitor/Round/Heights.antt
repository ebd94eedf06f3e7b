-- ===== src/Monitor/Round/Heights.antt =====
-- The heights that a round compares.
use cometduty.Prelude.{true, ◌≡◌, arith, List, [], ◌∷◌, ◌⊎◌}
use cometduty.Prelude.{not, ◌&&◌, if◌then◌else◌, All, All-mono}
use cometduty.Prelude.Int.{ℤ, pos, ltb_ℤ, ◌≤ℤ◌, ◌-ℤ◌}
use cometduty.Monitor.State.{NodeState}
use cometduty.Monitor.Round.{best_of, best_height, node_lag}

best_of_grows : (ns : List NodeState) (best : ℤ) → best ≤ℤ best_of ns best
unfolding best_of
best_of_grows [] best = ground arith
best_of_grows (n ∷ ns) best =
    let next = if not n.down && ltb_ℤ best n.height then n.height else best in
    let rest = best_of_grows ns next in ground arith

-- The node is down, or the height is at least its own.
unfoldable pub IsReached : ℤ → NodeState → Type 0
IsReached h n = (n.down ≡ true) ⊎ (n.height ≤ℤ h)

best_of-IsReached : (ns : List NodeState) (best : ℤ) → All (IsReached (best_of ns best)) ns
unfolding best_of IsReached
best_of-IsReached [] best = tt
best_of-IsReached (n ∷ ns) best =
    let next = if not n.down && ltb_ℤ best n.height then n.height else best in
    let rest = best_of_grows ns next in (ground arith, best_of-IsReached ns next)

IsReached-higher : (h k : ℤ) → h ≤ℤ k → (n : NodeState) → IsReached h n → IsReached k n
unfolding IsReached
IsReached-higher h k le n r = ground arith

best_of-best_height : (ns : List NodeState) (seen : ℤ) → best_of ns (pos 0) ≤ℤ best_height ns seen
unfolding best_height
best_of-best_height ns seen = ground arith

-- The lag is 0 or more: 0 for a node that is down or while no height is known, and else what the
-- node lacks to the best height.
unfoldable pub IsLag : ℤ → NodeState → Type 0
IsLag best n =
    (pos 0 ≤ℤ node_lag best n)
    × (((n.down ≡ true) × (node_lag best n ≡ pos 0))
        ⊎ ((best ≡ pos 0) × (node_lag best n ≡ pos 0))
        ⊎ ((n.height ≤ℤ best) × (node_lag best n ≡ best -ℤ n.height)))

IsReached-IsLag : (best : ℤ) → pos 0 ≤ℤ best → (n : NodeState) → IsReached best n → IsLag best n
unfolding IsReached IsLag node_lag
IsReached-IsLag best h n r = ground arith

best_height-positive : (ns : List NodeState) (seen : ℤ) → pos 0 ≤ℤ best_height ns seen
best_height-positive ns seen =
    let a = best_of_grows ns (pos 0) in let b = best_of-best_height ns seen in ground arith

-- After a round of probes each node's lag behind the best height is as `IsLag` says, and that height
-- is at least what the websocket has seen and the height of every node that is not down.
best_height-lags :
    (ns : List NodeState) (seen : ℤ)
    → (seen ≤ℤ best_height ns seen)
      × All (IsReached (best_height ns seen)) ns
      × All (IsLag (best_height ns seen)) ns
unfolding best_height
best_height-lags ns seen =
    let best = best_height ns seen in
    let reached =
      All-mono (IsReached (best_of ns (pos 0))) (IsReached best)
        (IsReached-higher _ best (best_of-best_height ns seen)) ns (best_of-IsReached ns (pos 0)) in
    (
      ground arith,
      reached,
      All-mono (IsReached best) (IsLag best) (IsReached-IsLag best (best_height-positive ns seen))
          ns reached,
    )
