-- ===== src/Monitor/Local/Signer/Heights.antt =====
-- The heights that a node has signed, and the latch of the regression alarm.
use cometduty.Prelude.{ℕ, ◌≡◌, refl, sym, ap, ◌∙◌, arith, Bool, true, false, not, ◌&&◌, ◌==◌}
use cometduty.Prelude.{List, [], ◌∷◌, ◌++◌, if◌then◌else◌, ltb}
use cometduty.Prelude.Int.{pos, leb_ℤ, ltb_ℤ, int_eq}
use cometduty.Prelude.Time.{is_zero, longer, minutes}
use cometduty.Config.{NodeConfig}
use cometduty.Alert.{Alert}
use cometduty.Monitor.State.{Chain, NodeState, new_node}
use cometduty.Monitor.Alerting.Keys.{brief, brief-append, brief_alert}
use cometduty.Monitor.Watch.{Tick, switch_cases}
use cometduty.Monitor.Watch.Validators.Edges.{edge}
use cometduty.Monitor.Local.Signer.{
  update_signer, watch_regress, watch_signer_stall, advance, regressed, regress_key, stall_key,
  signer_stalled,
}
use mathlib.Core.Path.{ap₂, subst}

abbrev pub highest : ℕ → ℕ → ℕ
highest m k = if ltb m k then k else m

module _ (c : Chain) (t : Tick) (k m : ℕ) (n : NodeState) where
  abbrev RegressEdge : NodeState × List Alert → Type 0
  RegressEdge r =
      (brief r.1 ≡ edge (regress_key n) n.regress_alarm (ltb k m) false)
      × (r.0 ≡ record n { regress_alarm = ltb k m })

  same_latch :
      (b : Bool)
      → ltb k m ≡ b
      → record n { regress_alarm = b } ≡ record n { regress_alarm = ltb k m }
  same_latch b e = ap (λ (x : Bool). record n { regress_alarm = x }) (sym e)

  below : n.signer_max ≡ pos m → regressed (pos k) n ≡ ltb k m
  unfolding regressed
  below h = rw h (ground arith)

  reached : n.signer_max ≡ pos m → leb_ℤ n.signer_max (pos k) ≡ not (ltb k m)
  reached h = rw h (ground arith)

  regress_edge :
      n.signer_max ≡ pos m
      → (t.has_open (regress_key n) && not n.regress_alarm) ≡ false
      → RegressEdge (watch_regress c t (pos k) n)
  unfolding watch_regress brief edge
  regress_edge h o =
      let b = below h in
      let r = reached h in
      switch_cases RegressEdge _ _ _ _ _
        (λ e. (brief_alert c t.now _ _ _ _ _ ∙ ground arith, same_latch true (ground arith)))
        (λ d e. (brief_alert c t.now _ _ _ _ _ ∙ ground arith, same_latch false (ground arith)))
        (λ d e. (ground arith, same_latch n.regress_alarm (ground arith)))

module _ (c : Chain) (t : Tick) (n : NodeState) where
  abbrev StallEdge : NodeState × List Alert → Type 0
  StallEdge r =
      (brief r.1 ≡ edge (stall_key n) n.signer_alarm (signer_stalled c t n) false)
      × (r.0 ≡ record n { signer_alarm = signer_stalled c t n })

  same_alarm :
      (b : Bool)
      → signer_stalled c t n ≡ b
      → record n { signer_alarm = b } ≡ record n { signer_alarm = signer_stalled c t n }
  same_alarm b e = ap (λ (x : Bool). record n { signer_alarm = x }) (sym e)

  stall_edge :
      (t.has_open (stall_key n) && not n.signer_alarm) ≡ false
      → StallEdge (watch_signer_stall c t n)
  unfolding watch_signer_stall brief edge
  stall_edge o =
      switch_cases StallEdge _ _ _ _ _
        (λ e. (brief_alert c t.now _ _ _ _ _ ∙ ground arith, same_alarm true (ground arith)))
        (λ d e. (brief_alert c t.now _ _ _ _ _ ∙ ground arith, same_alarm false (ground arith)))
        (λ d e. (ground arith, same_alarm n.signer_alarm (ground arith)))

-- Since when the height is what it is.
abbrev pub stood_since : Tick → ℕ → NodeState → ℕ
stood_since t k n =
    if pos k == n.signer_height && not (is_zero n.signer_at) then n.signer_at else t.now

-- The alarm is on, the chain has a height above the last that was signed, the node has signed
-- before, and its height has stood for longer than the time.
abbrev pub stands_still : Chain → Tick → ℕ → ℕ → NodeState → Bool
stands_still c t k m n =
    let min = c.cfg.alerts.signer_stall_min in
    (ltb_ℤ (pos 0) min && (ltb_ℤ (pos 0) c.last_height && ltb_ℤ (pos k) c.last_height))
    && (ltb 0 (highest m k) && longer t.now (stood_since t k n) (minutes min))

-- What the node's state is after a height: the latches say what their conditions say.
abbrev pub told : Chain → Tick → ℕ → ℕ → NodeState → NodeState
told c t k m n = record n {
  regress_alarm = ltb k m;
  signer_max = pos (highest m k);
  signer_at = stood_since t k n;
  signer_height = pos k;
  signer_alarm = stands_still c t k m n;
}

stalled_after :
    (c : Chain) (t : Tick) (k m : ℕ) (n : NodeState)
    → n.signer_max ≡ pos m
    → signer_stalled c t (advance t.now (pos k) n) ≡ stands_still c t k m n
unfolding signer_stalled advance
stalled_after c t k m n h = rw h (ground arith)

advance-told :
    (c : Chain) (t : Tick) (k m : ℕ) (b : Bool) (n : NodeState)
    → n.signer_max ≡ pos m
    → b ≡ stands_still c t k m n
    → record (advance t.now (pos k) (record n { regress_alarm = ltb k m })) { signer_alarm = b }
      ≡ told c t k m n
unfolding advance
advance-told c t k m b n h e = rw h (ground arith)

-- The alerts that are open under the node's keys are those that its own latches stand for.
abbrev pub IsOwn : Tick → NodeState → Type 0
IsOwn t n =
    ((t.has_open (regress_key n) && not n.regress_alarm) ≡ false)
    × ((t.has_open (stall_key n) && not n.signer_alarm) ≡ false)

-- With heights that are not negative, and nothing open under the node's two keys but what its own
-- latches stand for (delivered or not): a height below the highest so far raises the regression alarm
-- once, a height that reaches it again clears it once, and the alarm on a signer whose height has
-- stood for longer than the time, below the chain's, is raised once and cleared once.
pub update_signer-edges :
    (c : Chain) (t : Tick) (k m : ℕ) (n : NodeState)
    → n.signer_max ≡ pos m
    → IsOwn t n
    → (brief (update_signer c t (pos k) n).1
        ≡ edge (regress_key n) n.regress_alarm (ltb k m) false
          ++ edge (stall_key n) n.signer_alarm (stands_still c t k m n) false)
      × ((update_signer c t (pos k) n).0 ≡ told c t k m n)
unfolding update_signer advance signer_stalled
update_signer-edges c t k m n h (o, p) =
    let (b1, s1) = regress_edge c t k m n h o in
    let n' = advance t.now (pos k) (record n { regress_alarm = ltb k m }) in
    let (b2, s2) = stall_edge c t n' p in
    let still = stalled_after c t k m n h in
    let step = λ (x : NodeState). watch_signer_stall c t (advance t.now (pos k) x) in
    (
      brief-append _ _
          ∙ ap₂ (◌++◌) b1 (
              ap (λ (x : NodeState). brief (step x).1) s1
              ∙ b2
              ∙ ap (λ b. edge (stall_key n) n.signer_alarm b false) still),
      ap (λ (x : NodeState). (step x).0) s1 ∙ s2 ∙ advance-told c t k m _ n h still,
    )

-- A visit of the health loop that read a height.
pub record Visit : Type 0 where
  pub chain : Chain
  pub tick : Tick
  pub height : ℕ

abbrev pub visits : List Visit → NodeState → NodeState
visits [] n = n
visits (v ∷ vs) n = visits vs (update_signer v.chain v.tick (pos v.height) n).0

abbrev pub highest_of : ℕ → List Visit → ℕ
highest_of m [] = m
highest_of m (v ∷ vs) = highest_of (highest m v.height) vs

abbrev pub last_of : ℕ → List Visit → ℕ
last_of k [] = k
last_of k (v ∷ vs) = last_of v.height vs

-- At every visit, nothing is open under the node's keys but what its latches stand for by then.
abbrev pub AllOwn : List Visit → NodeState → Type 0
AllOwn [] n = Unit
AllOwn (v ∷ vs) n =
    let n' = (update_signer v.chain v.tick (pos v.height) n).0 in IsOwn v.tick n × AllOwn vs n'

abbrev pub IsTold : NodeConfig → ℕ → ℕ → NodeState → Type 0
IsTold cfg k m n =
    (n.cfg ≡ cfg) × (n.signer_max ≡ pos m) × (n.signer_height ≡ pos k) × (n.regress_alarm ≡ ltb k m)

told-IsTold :
    (cfg : NodeConfig) (c : Chain) (t : Tick) (k j m : ℕ) (n : NodeState)
    → IsTold cfg j m n
    → IsTold cfg k (highest m k) (told c t k m n)
told-IsTold cfg c t k j m n (hc, hm, hk, hl) = (hc, refl, refl, ground arith)

visits-IsTold :
    (cfg : NodeConfig) (vs : List Visit) (k m : ℕ) (n : NodeState)
    → AllOwn vs n
    → IsTold cfg k m n
    → IsTold cfg (last_of k vs) (highest_of m vs) (visits vs n)
visits-IsTold cfg [] k m n q h = h
visits-IsTold cfg (v ∷ vs) k m n (q, qs) h =
    let (b, s) = update_signer-edges v.chain v.tick v.height m n h.1 q in
    visits-IsTold cfg vs v.height (highest m v.height) _ qs (
      subst (IsTold cfg v.height (highest m v.height)) (sym s)
        (told-IsTold cfg v.chain v.tick v.height k m n h))

-- Over any run of heights that are not negative, from a new node, where nothing is open under its
-- keys but what its own latches stand for at the time: the node keeps the highest of them and the
-- last of them, and its regression latch is set just while the last is below the highest.
pub visits-highest :
    (cfg : NodeConfig) (vs : List Visit)
    → AllOwn vs (new_node cfg)
    → let n = visits vs (new_node cfg) in
      (n.signer_max ≡ pos (highest_of 0 vs))
      × (n.signer_height ≡ pos (last_of 0 vs))
      × (n.regress_alarm ≡ ltb (last_of 0 vs) (highest_of 0 vs))
unfolding new_node
visits-highest cfg vs q =
    let (hc, hm, hk, hl) = visits-IsTold cfg vs 0 0 (new_node cfg) q (refl, refl, refl, refl) in
    (hm, hk, hl)
