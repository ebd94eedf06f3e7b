-- ===== src/Monitor/Watch/Roles.antt =====
-- Which sections of a tick a role leaves to the other: chain-wide alerts are not for the sidecar, and
-- those of nodes, EVM endpoints and validators are not for the chain role.
use cometduty.Prelude.{Bool, true, List, [], ◌++◌, ◌≡◌, refl, arith, ◌∙◌, ap, sym}
use cometduty.Prelude.{if_true, if_false, if_cases, not, ◌&&◌, string_eq}
use mathlib.Core.Path.{ap₂}
use mathlib.Core.List.{append_assoc, append-nil}
use cometduty.Config.{is_chain_only, is_sidecar}
use cometduty.Alert.{Alert}
use cometduty.Monitor.State.{Chain}
use cometduty.Monitor.Watch.{
  Tick, switch_cases, watch_stall, watch_no_nodes, with_stall_scope, stall_switch, stalled,
}
use cometduty.Monitor.Watch.Nodes.{Latches, watch_all_nodes}
use cometduty.Monitor.Watch.Probes.{watch_all_probes}
use cometduty.Monitor.Watch.Validators.{watch_all_targets}
use cometduty.Monitor.Watch.Ticks.{watch_tick}

-- The same configuration, validators and EVM endpoints.
unfoldable pub Keeps : Chain → Chain → Type 0
Keeps c d = (d.cfg ≡ c.cfg) × (d.targets ≡ c.targets) × (d.evm_probes ≡ c.evm_probes)

Keeps-trans : (c d e : Chain) → Keeps c d → Keeps d e → Keeps c e
unfolding Keeps
Keeps-trans c d e h k = (k.0 ∙ h.0, k.1 ∙ h.1, k.2 ∙ h.2)

module _ (t : Tick) where
  with_stall_scope-Keeps : (c : Chain) → Keeps c (with_stall_scope c)
  unfolding with_stall_scope Keeps
  with_stall_scope-Keeps c =
      if_cases (Keeps c) c.stall_alarm (λ e. (refl, refl, refl)) (λ e. (refl, refl, refl))

  stall_switch-Keeps : (b : Bool) (c : Chain) → Keeps c (stall_switch t b c).0
  unfolding stall_switch Keeps
  stall_switch-Keeps b c =
      switch_cases (λ (r : Chain × List Alert). Keeps c r.0) _ _ _ _ _ (λ e. (refl, refl, refl))
        (λ d e. (refl, refl, refl)) (λ d e. (refl, refl, refl))

  watch_stall-Keeps : (c : Chain) → Keeps c (watch_stall t c).0
  unfolding watch_stall Keeps
  watch_stall-Keeps c =
      if_cases (λ (r : Chain × List Alert). Keeps c r.0)
        (c.cfg.alerts.stalled_enabled && not (is_sidecar c.cfg))
        (λ e.
          Keeps-trans c (with_stall_scope c)
            (stall_switch t (stalled c t.now) (with_stall_scope c)).0 (with_stall_scope-Keeps c)
            (stall_switch-Keeps (stalled c t.now) (with_stall_scope c)))
        (λ e. (refl, refl, refl))

  watch_no_nodes-Keeps : (c : Chain) → Keeps c (watch_no_nodes t c).0
  unfolding watch_no_nodes Keeps
  watch_no_nodes-Keeps c =
      if_cases (λ (r : Chain × List Alert). Keeps c r.0)
        (c.cfg.alerts.alert_if_no_servers && not (is_sidecar c.cfg))
        (λ e.
          switch_cases (λ (r : Chain × List Alert). Keeps c r.0) _ _ _ _ _ (λ e. (refl, refl, refl))
            (λ d e. (refl, refl, refl)) (λ d e. (refl, refl, refl)))
        (λ e. (refl, refl, refl))

  -- The chain after the two chain-wide sections.
  abbrev pub chain_wide : Chain → Chain × List Alert
  chain_wide c = let r1 = watch_stall t c in let r2 = watch_no_nodes t r1.0 in (r2.0, r1.1 ++ r2.1)

  -- The sections of the nodes, the EVM endpoints and the validators.
  abbrev pub own : Chain → Latches → Chain × Latches × List Alert
  own c l =
      let r1 = watch_all_nodes t c l in
      let r2 = watch_all_probes t c in
      let r3 = watch_all_targets t r2.0 in (r3.0, r1.0, r1.1 ++ (r2.1 ++ r3.1))

  chain_wide-Keeps : (c : Chain) → Keeps c (chain_wide c).0
  chain_wide-Keeps c =
      Keeps-trans c (watch_stall t c).0 (chain_wide c).0 (watch_stall-Keeps c)
        (watch_no_nodes-Keeps (watch_stall t c).0)

  all_nodes_off :
      (c : Chain) (l : Latches) → is_chain_only c.cfg ≡ true → watch_all_nodes t c l ≡ (l, [])
  unfolding watch_all_nodes
  all_nodes_off c l h = if_true _ _ h

  all_probes_off : (c : Chain) → is_chain_only c.cfg ≡ true → watch_all_probes t c ≡ (c, [])
  unfolding watch_all_probes
  all_probes_off c h = if_true _ _ h

  all_targets_off : (c : Chain) → is_chain_only c.cfg ≡ true → watch_all_targets t c ≡ (c, [])
  unfolding watch_all_targets
  all_targets_off c h = if_true _ _ h

  own-chain_only : (c : Chain) (l : Latches) → is_chain_only c.cfg ≡ true → own c l ≡ (c, l, [])
  own-chain_only c l h =
      ap₂
        (λ (r1 : Latches × List Alert) (r2 : Chain × List Alert).
          let r3 = watch_all_targets t r2.0 in (r3.0, r1.0, r1.1 ++ (r2.1 ++ r3.1)))
        (all_nodes_off c l h) (all_probes_off c h)
      ∙ ap (λ (r3 : Chain × List Alert). (r3.0, l, r3.1)) (all_targets_off c h)

  -- A tick is the chain-wide sections and then the others.
  watch_tick-own :
      (c : Chain) (l : Latches)
      → watch_tick t c l ≡ (let o = own (chain_wide c).0 l in (o.0, o.1, (chain_wide c).1 ++ o.2))
  unfolding watch_tick
  watch_tick-own c l =
      let o = own (chain_wide c).0 l in
      ap (λ out. (o.0, o.1, out))
        (sym (append_assoc (watch_stall t c).1 (watch_no_nodes t (watch_stall t c).0).1 o.2))

  -- In the chain role a tick sends what the chain-wide sections send, and changes no latch, no EVM
  -- endpoint and no validator.
  watch_tick-chain_only :
      (c : Chain) (l : Latches)
      → is_chain_only c.cfg ≡ true
      → (watch_tick t c l ≡ ((chain_wide c).0, l, (chain_wide c).1)) × Keeps c (chain_wide c).0
  unfolding Keeps
  watch_tick-chain_only c l h =
      let k = chain_wide-Keeps c in
      let still : is_chain_only (chain_wide c).0.cfg ≡ true = ap is_chain_only k.0 ∙ h in
      (
        watch_tick-own c l
            ∙ ap (λ (o : Chain × Latches × List Alert). (o.0, o.1, (chain_wide c).1 ++ o.2))
                (own-chain_only (chain_wide c).0 l still)
            ∙ ap (λ out. ((chain_wide c).0, l, out)) (append-nil (chain_wide c).1),
        k,
      )

  stall_off : (c : Chain) → is_sidecar c.cfg ≡ true → watch_stall t c ≡ (c, [])
  unfolding watch_stall
  stall_off c h = if_false _ (c.cfg.alerts.stalled_enabled && not (is_sidecar c.cfg)) (ground arith)

  no_nodes_off : (c : Chain) → is_sidecar c.cfg ≡ true → watch_no_nodes t c ≡ (c, [])
  unfolding watch_no_nodes
  no_nodes_off c h =
      if_false _ (c.cfg.alerts.alert_if_no_servers && not (is_sidecar c.cfg)) (ground arith)

  chain_wide-sidecar : (c : Chain) → is_sidecar c.cfg ≡ true → chain_wide c ≡ (c, [])
  chain_wide-sidecar c h =
      ap (λ (r : Chain × List Alert). let r2 = watch_no_nodes t r.0 in (r2.0, r.1 ++ r2.1))
        (stall_off c h)
      ∙ no_nodes_off c h

  -- In the sidecar role a tick is the sections of the nodes, the EVM endpoints and the validators.
  watch_tick-sidecar :
      (c : Chain) (l : Latches) → is_sidecar c.cfg ≡ true → watch_tick t c l ≡ own c l
  watch_tick-sidecar c l h =
      watch_tick-own c l
      ∙ ap (λ (r : Chain × List Alert). let o = own r.0 l in (o.0, o.1, r.1 ++ o.2))
          (chain_wide-sidecar c h)
