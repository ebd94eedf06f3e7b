-- ===== src/Monitor/Probe/Clocks.antt =====
-- The clocks of a node after a probe.
use cometduty.Prelude.{ℕ, Bool, true, false, String, ◌≡◌, ◌<◌, refl, arith, Option, none, some}
use cometduty.Prelude.{not, ◌&&◌, ◌||◌, ◌==◌, string_eq, if_cases, if◌then◌else◌}
use cometduty.Prelude.Int.{ℤ, int_eq}
use cometduty.Prelude.Time.{is_zero}
use cometduty.Monitor.State.{NodeState}
use cometduty.Monitor.Probe.{
  Reply, Status, bad_url, failed, answered, probe_node, mark_down, mark_syncing, mark_up,
  with_peers, with_mempool, with_round, described,
}

-- A node that is down and does not sync has a time for it, one that syncs has both of its times,
-- and a node that syncs is down.
pub record IsClocked (n : NodeState) : Type 0 where
  pub down_clock : n.down && (not n.syncing && is_zero n.down_since) ≡ false
  pub sync_clock : n.syncing && (is_zero n.sync_since || is_zero n.sync_last_change) ≡ false
  pub sync_down : n.syncing && not n.down ≡ false

-- The client could be made.
unfoldable pub has_client : Reply → Bool
has_client (bad_url e) = false
has_client (failed e) = true
has_client (answered s) = true

mark_down-IsClocked :
    (now : ℕ) (msg : String) (n : NodeState) → 0 < now → IsClocked (mark_down now msg n)
unfolding mark_down
mark_down-IsClocked now msg n h = ground arith

mark_syncing-IsClocked :
    (now : ℕ) (n : NodeState) → 0 < now → IsClocked n → IsClocked (mark_syncing now n)
unfolding mark_syncing
mark_syncing-IsClocked now n h k = ground arith

with_peers-IsClocked : (o : Option ℤ) (n : NodeState) → IsClocked n → IsClocked (with_peers o n)
unfolding with_peers
with_peers-IsClocked none n h = h
with_peers-IsClocked (some k) n h = record {
  down_clock = h.down_clock;
  sync_clock = h.sync_clock;
  sync_down = h.sync_down;
}

with_mempool-IsClocked :
    (o : Option (ℤ × ℤ)) (n : NodeState) → IsClocked n → IsClocked (with_mempool o n)
unfolding with_mempool
with_mempool-IsClocked none n h = h
with_mempool-IsClocked (some k) n h = record {
  down_clock = h.down_clock;
  sync_clock = h.sync_clock;
  sync_down = h.sync_down;
}

with_round-IsClocked : (o : Option ℤ) (n : NodeState) → IsClocked n → IsClocked (with_round o n)
unfolding with_round
with_round-IsClocked none n h = h
with_round-IsClocked (some k) n h = record {
  down_clock = h.down_clock;
  sync_clock = h.sync_clock;
  sync_down = h.sync_down;
}

mark_up-IsClocked : (s : Status) (n : NodeState) → IsClocked (mark_up s n)
unfolding mark_up
mark_up-IsClocked s n = with_round-IsClocked s.round _ (
    with_mempool-IsClocked s.mempool _ (
      with_peers-IsClocked s.peers _
        (record { down_clock = refl; sync_clock = refl; sync_down = refl })))

-- Down, and not because it catches up.
abbrev pub is_down : NodeState → Bool
is_down n = n.down && not n.syncing

abbrev pub is_up : String → Reply → Bool
is_up chain_id (bad_url e) = false
is_up chain_id (failed e) = false
is_up chain_id (answered s) = s.network == chain_id && not s.catching_up

abbrev pub catches_up : String → Reply → Bool
catches_up chain_id (bad_url e) = false
catches_up chain_id (failed e) = false
catches_up chain_id (answered s) = s.network == chain_id && s.catching_up

-- Since when a node is down, since when it syncs, and when its height last moved as it did.
abbrev pub down_time : NodeState → ℕ
down_time n = if is_down n then n.down_since else 0

abbrev pub sync_time : NodeState → ℕ
sync_time n = if n.syncing then n.sync_since else 0

abbrev pub change_time : NodeState → ℕ
change_time n = if n.syncing then n.sync_last_change else 0

-- A clock starts when its state begins and then stands; that of the height starts again when the
-- height moved.
pub record IsTimed (now : ℕ) (up catching : Bool) (n n' : NodeState) : Type 0 where
  pub down : n'.down ≡ not up
  pub syncing : n'.syncing ≡ catching
  pub downs :
      down_time n'
      ≡ (if not up && not catching then (if is_down n then n.down_since else now) else 0)
  pub syncs : sync_time n' ≡ (if catching then (if n.syncing then n.sync_since else now) else 0)
  pub changes : change_time n' ≡ (
      if catching
      then (if n.syncing && n'.height == n.sync_last_height then n.sync_last_change else now)
      else 0)

mark_down-IsTimed :
    (now : ℕ) (msg : String) (n : NodeState)
    → IsClocked n
    → IsTimed now false false n (mark_down now msg n)
unfolding mark_down
mark_down-IsTimed now msg n h = ground arith

mark_syncing-IsTimed :
    (now : ℕ) (s : Status) (n : NodeState)
    → IsTimed now false true n (mark_syncing now (described s n))
unfolding mark_syncing
mark_syncing-IsTimed now s n = ground arith

module _ (now : ℕ) (up catching : Bool) (n m : NodeState) where
  with_peers-IsTimed :
      (o : Option ℤ) → IsTimed now up catching n m → IsTimed now up catching n (with_peers o m)
  unfolding with_peers
  with_peers-IsTimed none h = h
  with_peers-IsTimed (some k) h = ground arith

  with_mempool-IsTimed :
      (o : Option (ℤ × ℤ))
      → IsTimed now up catching n m
      → IsTimed now up catching n (with_mempool o m)
  unfolding with_mempool
  with_mempool-IsTimed none h = h
  with_mempool-IsTimed (some k) h = ground arith

  with_round-IsTimed :
      (o : Option ℤ) → IsTimed now up catching n m → IsTimed now up catching n (with_round o m)
  unfolding with_round
  with_round-IsTimed none h = h
  with_round-IsTimed (some k) h = ground arith

mark_up-IsTimed :
    (now : ℕ) (s : Status) (n : NodeState) → IsTimed now true false n (mark_up s (described s n))
unfolding mark_up
mark_up-IsTimed now s n = with_round-IsTimed now true false n _ s.round (
    with_mempool-IsTimed now true false n _ s.mempool
      (with_peers-IsTimed now true false n _ s.peers (ground arith)))

-- The three answers that `Status` may lead to.
by_answer :
    (now : ℕ) (n d m u : NodeState) (same catching : Bool)
    → IsTimed now false false n d
    → IsTimed now false true n m
    → IsTimed now true false n u
    → IsTimed now
        (same && not catching)
        (same && catching)
        n
        (if same then if catching then m else u else d)
by_answer now n d m u true true hd hm hu = hm
by_answer now n d m u true false hd hm hu = hu
by_answer now n d m u false c hd hm hu = hd

probe_node-IsTimed :
    (now : ℕ) (chain_id : String) (r : Reply) (n : NodeState)
    → has_client r ≡ true
    → IsClocked n
    → IsTimed now (is_up chain_id r) (catches_up chain_id r) n (probe_node now chain_id r n)
unfolding probe_node has_client
probe_node-IsTimed now chain_id (bad_url e) n k w = ground arith
probe_node-IsTimed now chain_id (failed e) n k w = mark_down-IsTimed now _ n w
probe_node-IsTimed now chain_id (answered s) n k w =
    by_answer now n _ _ _ (s.network == chain_id) s.catching_up (mark_down-IsTimed now _ n w)
      (mark_syncing-IsTimed now s n) (mark_up-IsTimed now s n)

-- The invariant goes on.
probed-IsClocked :
    (now : ℕ) (chain_id : String) (r : Reply) (n : NodeState)
    → 0 < now
    → has_client r ≡ true
    → IsClocked n
    → IsClocked (probe_node now chain_id r n)
unfolding probe_node has_client
probed-IsClocked now chain_id (bad_url e) n h k w = ground arith
probed-IsClocked now chain_id (failed e) n h k w = mark_down-IsClocked now _ n h
probed-IsClocked now chain_id (answered s) n h k w =
    if_cases IsClocked (s.network == chain_id)
      (λ e.
        if_cases IsClocked s.catching_up
          (λ d. mark_syncing-IsClocked now _ h (record {
            down_clock = w.down_clock;
            sync_clock = w.sync_clock;
            sync_down = w.sync_down;
          }))
          (λ d. mark_up-IsClocked s _))
      (λ e. mark_down-IsClocked now _ n h)

pub probe_node-IsClocked :
    (now : ℕ) (chain_id : String) (r : Reply) (n : NodeState)
    → 0 < now
    → has_client r ≡ true
    → IsClocked n
    → IsClocked (probe_node now chain_id r n)
      × IsTimed now (is_up chain_id r) (catches_up chain_id r) n (probe_node now chain_id r n)
probe_node-IsClocked now chain_id r n h k w =
    (probed-IsClocked now chain_id r n h k w, probe_node-IsTimed now chain_id r n k w)
