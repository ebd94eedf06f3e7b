-- ===== src/Monitor/Watch/Nodes/Raises.antt =====
-- What the node section may raise: a syncing node is not reported as down, nor is a node that
-- serves reported as syncing, and no alert is raised while the engine holds one open on its key.
use cometduty.Prelude.{Bool, true, false, List, [], ◌∷◌, ◌≡◌, refl, arith, sym, ◌∙◌}
use cometduty.Prelude.{String, none, All, All-append, ap, ◌⊎◌, inl, inr}
use cometduty.Prelude.{if_cases, ◌||◌}
use cometduty.Prelude.{All-mono}
use cometduty.Config.{is_chain_only}
use mathlib.Core.Path.{subst}
use cometduty.Alert.{Alert}
use cometduty.Monitor.State.{Chain, NodeState}
use cometduty.Monitor.Alerting.{make_alert}
use cometduty.Monitor.Alerting.Keys.{make_alert_says}
use cometduty.Monitor.Watch.{Tick, switch_cases}
use cometduty.Monitor.Watch.Nodes.{
  Latches, watch_sync, watch_stuck, watch_down, sync_over, stuck_over, watch_node, sync_key,
  stuck_key, down_key, counts_as_down, ◌then_part◌, watch_nodes, announced, set?, watch_all_nodes,
}

-- The keys that a node may be reported under.
unfoldable pub MayRaise : Bool → NodeState → String → Type 0
MayRaise true n key = (key ≡ sync_key n) ⊎ (key ≡ stuck_key n)
MayRaise false n key = key ≡ down_key n

-- The alert resolves, or reports a node under a key that fits it and that is not open.
unfoldable pub IsFit : Tick → NodeState → Alert → Type 0
IsFit t n a =
    (a.resolved ≡ true)
    ⊎ ((a.resolved ≡ false) × (t.has_open a.key ≡ false) × MayRaise n.syncing n a.key)

module _ (t : Tick) (c : Chain) (n : NodeState) where
  Fits : Latches × List Alert → Type 0
  Fits r = All (IsFit t n) r.1

  quiet : (l : Latches) → Fits (l, [])
  unfolding Fits
  quiet l = tt

  clears :
      (l : Latches) (key sev msg : String) → Fits (l, make_alert c t.now none key true sev msg ∷ [])
  unfolding IsFit Fits
  clears l key sev msg = (inl (make_alert_says c t.now none key true sev msg).1, tt)

  raises :
      (l : Latches) (key sev msg : String)
      → t.has_open key ≡ false
      → MayRaise n.syncing n key
      → Fits (l, make_alert c t.now none key false sev msg ∷ [])
  unfolding IsFit Fits
  raises l key sev msg shut fits =
      let (k, r) = make_alert_says c t.now none key false sev msg in
      (inr (r, ap t.has_open k ∙ shut, subst (MayRaise n.syncing n) (sym k) fits), tt)

  watch_sync-Fits : (l : Latches) → n.syncing ≡ true → Fits (watch_sync t c n l)
  unfolding watch_sync MayRaise announced
  watch_sync-Fits l h =
      if_cases Fits (announced t c n l)
        (λ e.
          raises _ _ _ _ (ground arith) (subst (λ b. MayRaise b n (sync_key n)) (sym h) (inl refl)))
        (λ e. quiet _)

  watch_stuck-Fits : (l : Latches) → n.syncing ≡ true → Fits (watch_stuck t c n l)
  unfolding watch_stuck MayRaise
  watch_stuck-Fits l h =
      switch_cases Fits _ _ _ _ _
        (λ e.
          raises _ _ _ _ (ground arith)
            (subst (λ b. MayRaise b n (stuck_key n)) (sym h) (inr refl)))
        (λ d e. clears _ _ _ _) (λ d e. quiet _)

  sync_over-Fits : (l : Latches) → Fits (sync_over t c n l)
  unfolding sync_over
  sync_over-Fits l =
      if_cases Fits (set? l.sync_alerted (sync_key n) || t.has_open (sync_key n))
        (λ e. clears _ _ _ _) (λ e. quiet _)

  stuck_over-Fits : (l : Latches) → Fits (stuck_over t c n l)
  unfolding stuck_over
  stuck_over-Fits l =
      if_cases Fits (set? l.stuck_alerted (stuck_key n) || t.has_open (stuck_key n))
        (λ e. clears _ _ _ _) (λ e. quiet _)

  serves : counts_as_down t n ≡ true → n.syncing ≡ false
  unfolding counts_as_down
  serves h = ground arith

  watch_down-Fits : (l : Latches) → Fits (watch_down t c n l)
  unfolding watch_down MayRaise
  watch_down-Fits l =
      switch_cases Fits _ _ _ _ _
        (λ e.
          raises _ _ _ _ (ground arith)
            (subst (λ b. MayRaise b n (down_key n)) (sym (serves (ground arith))) refl))
        (λ d e. clears _ _ _ _) (λ d e. quiet _)

  -- One part after another fits when each does.
  both :
      (r : Latches × List Alert) (f : Latches → Latches × List Alert)
      → Fits r
      → ((l : Latches) → Fits (f l))
      → Fits (r then_part f)
  unfolding Fits
  both r f h k = All-append (IsFit t n) r.1 (f r.0).1 h (k r.0)

  watch_node-Fits : (l : Latches) → Fits (watch_node t c n l)
  unfolding watch_node
  watch_node-Fits l =
      both _ (watch_down t c n)
        (if_cases Fits n.syncing
          (λ h. both _ (watch_stuck t c n) (watch_sync-Fits l h) (λ m. watch_stuck-Fits m h))
          (λ h. both _ (stuck_over t c n) (sync_over-Fits l) stuck_over-Fits))
        watch_down-Fits

watch_node-All :
    (t : Tick) (c : Chain) (n : NodeState) (l : Latches) → All (IsFit t n) (watch_node t c n l).1
unfolding Fits
watch_node-All t c n l = watch_node-Fits t c n l

-- Some node of the chain that the alert fits.
unfoldable pub FitsSome : Tick → List NodeState → Alert → Type 0
FitsSome t [] a = ⊥
FitsSome t (n ∷ ns) a = IsFit t n a ⊎ FitsSome t ns a

watch_nodes-FitsSome :
    (t : Tick) (c : Chain) (ns : List NodeState) (l : Latches)
    → All (FitsSome t ns) (watch_nodes t c ns l).1
unfolding watch_nodes FitsSome
watch_nodes-FitsSome t c [] l = tt
watch_nodes-FitsSome t c (n ∷ ns) l =
    let r = watch_node t c n l in
    All-append (FitsSome t (n ∷ ns)) r.1 _
      (All-mono (IsFit t n) (FitsSome t (n ∷ ns)) (λ a h. inl h) r.1 (watch_node-All t c n l))
      (All-mono (FitsSome t ns) (FitsSome t (n ∷ ns)) (λ a h. inr h) _
        (watch_nodes-FitsSome t c ns r.0))

-- The node section of a tick raises an alert only for a node of the chain, on a key that the engine
-- does not hold open: catching-up or stuck for a node that syncs, node-down for one that does not.
pub watch_all_nodes-FitsSome :
    (t : Tick) (c : Chain) (l : Latches) → All (FitsSome t c.nodes) (watch_all_nodes t c l).1
unfolding watch_all_nodes
watch_all_nodes-FitsSome t c l =
    if_cases (λ (r : Latches × List Alert). All (FitsSome t c.nodes) r.1) (is_chain_only c.cfg)
      (λ e. tt) (λ e. watch_nodes-FitsSome t c c.nodes l)
