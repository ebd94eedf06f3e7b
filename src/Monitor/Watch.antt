-- ===== src/Monitor/Watch.antt =====
-- internal/monitor/health.go: the alarm evaluation of `watchLoop`, one tick at a time. A part of the
-- tick takes the state that it changes and returns it with the alerts that it hands to the engine.
pub mod Nodes
pub mod Probes
pub mod Validators
pub mod Ticks
pub mod Roles
use cometduty.Prelude.{ℕ, Bool, true, false, List, [], ◌∷◌, ◌++◌, String, Option, none, some}
use cometduty.Prelude.{◌≡◌, refl, ◌==◌, string_eq, if◌then◌else◌, not, ◌&&◌, ◌||◌}
use cometduty.Prelude.Int.{ℤ, ltb_ℤ, sub_ℕ}
use cometduty.Prelude.Text.{sprintf, show_ℤ}
use cometduty.Prelude.Time.{is_zero, longer, minutes}
use cometduty.Config.{Config, is_sidecar, is_chain_only}
use cometduty.Alert.{Alert}
use cometduty.Monitor.State.{Chain, NodeState, Target, EvmProbe}
use cometduty.Monitor.Alerting.{make_alert, node_label}
use Prim.Native.String.{◌++◌ as ◌<>◌}

-- What a tick reads from outside the chain: the clock, the global configuration, the engine's
-- `HasOpen`, and how `fmt` prints a duration and a percentage with one decimal.
pub record Tick : Type 0 where
  pub now : ℕ
  pub root : Config
  pub has_open : String → Bool
  pub duration_text : ℕ → String
  pub percent_text : ℤ → ℤ → String

-- An alert about the chain or one of its nodes, and one about a validator.
abbrev pub raise : Chain → Tick → String → String → String → Alert
raise c t key severity msg = make_alert c t.now none key false severity msg

abbrev pub clear : Chain → Tick → String → String → Alert
clear c t key msg = make_alert c t.now none key true "info" msg

-- A switch with a case that raises and a case that clears; where neither holds nothing happens.
unfoldable pub switch {ℓ} :
    {S : Type ℓ} → Bool → Bool → S × List Alert → S × List Alert → S → S × List Alert
switch up over raised cleared s = if up then raised else if over then cleared else (s, [])

pub switch_cases {ℓ κ} :
    {S : Type ℓ} (P : S × List Alert → Type κ) (up over : Bool) (raised cleared : S × List Alert)
    (s : S)
    → (up ≡ true → P raised)
    → (up ≡ false → over ≡ true → P cleared)
    → (up ≡ false → over ≡ false → P (s, []))
    → P (switch up over raised cleared s)
unfolding switch
switch_cases P true over raised cleared s r c n = r refl
switch_cases P false true raised cleared s r c n = c refl refl
switch_cases P false false raised cleared s r c n = n refl refl

-- `stallScope`: with one endpoint a stall is blamed on that node.
unfoldable pub stall_scope : Chain → List NodeState → String × String
stall_scope c (n ∷ []) = (
  "node-stalled:" <> n.cfg.url,
  sprintf
      "node-stalled: no new block from %s for %d minutes on %s — it is this monitor's only endpoint, so the node may be stuck while the chain moves on; add a second endpoint to tell them apart"
      (node_label n ∷ show_ℤ c.cfg.alerts.stalled_minutes ∷ c.cfg.chain_id ∷ []),
)
stall_scope c _ = (
  "stalled:" <> c.cfg.chain_id,
  sprintf "stalled: no new block on %s for %d minutes"
      (c.cfg.chain_id ∷ show_ℤ c.cfg.alerts.stalled_minutes ∷ []),
)

-- `stallAge`: the time since the last block, or since an endpoint came back if that is shorter.
unfoldable pub stall_age : Chain → ℕ → ℤ
stall_age c now =
    let age = sub_ℕ now c.last_block_time in
    let back = sub_ℕ now c.back_at in if ltb_ℤ back age then back else age

-- Whether the chain is seen to stand still.
unfoldable pub stalled : Chain → ℕ → Bool
stalled c now =
    not (is_zero c.last_block_time)
    && ltb_ℤ (minutes c.cfg.alerts.stalled_minutes) (stall_age c now)

-- While no stall alert is open its key and text follow the configuration.
unfoldable pub with_stall_scope : Chain → Chain
with_stall_scope c =
    let (key, msg) = stall_scope c c.nodes in
    if c.stall_alarm then c else record c { stall_key = key; stall_msg = msg }

stall_switch : Tick → Bool → Chain → Chain × List Alert
stall_switch t standing c =
    switch (standing && (not c.stall_alarm && not c.no_nodes))
      (not standing
        && ((c.stall_alarm || t.has_open c.stall_key) && not (is_zero c.last_block_time)))
      (record c { stall_alarm = true }, raise c t c.stall_key "critical" c.stall_msg ∷ [])
      (record c { stall_alarm = false }, clear c t c.stall_key c.stall_msg ∷ []) c

-- The stalled-chain section.
unfoldable pub watch_stall : Tick → Chain → Chain × List Alert
unfolding stall_switch
watch_stall t c =
    if c.cfg.alerts.stalled_enabled && not (is_sidecar c.cfg)
    then stall_switch t (stalled c t.now) (with_stall_scope c)
    else (c, [])

abbrev pub no_nodes_key : Chain → String
no_nodes_key c = "no-nodes:" <> c.cfg.chain_id

abbrev no_nodes_text : Chain → String
no_nodes_text c = sprintf "no RPC endpoints are working for %s" (c.cfg.chain_id ∷ [])

-- The section on usable endpoints.
unfoldable pub watch_no_nodes : Tick → Chain → Chain × List Alert
watch_no_nodes t c =
    if c.cfg.alerts.alert_if_no_servers && not (is_sidecar c.cfg)
    then switch
        (c.no_nodes
          && (not c.no_nodes_alarm && longer t.now c.no_nodes_since (minutes t.root.node_down_min)))
        (not c.no_nodes && (c.no_nodes_alarm || t.has_open (no_nodes_key c)))
        (
          record c { no_nodes_alarm = true },
          raise c t (no_nodes_key c) "critical" (no_nodes_text c) ∷ [],
        )
        (record c { no_nodes_alarm = false }, clear c t (no_nodes_key c) (no_nodes_text c) ∷ []) c
    else (c, [])
