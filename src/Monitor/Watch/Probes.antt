-- ===== src/Monitor/Watch/Probes.antt =====
-- internal/monitor/health.go: the EVM section of a tick.
use cometduty.Prelude.{true, false, List, [], ◌∷◌, ◌++◌, String}
use cometduty.Prelude.{◌==◌, string_eq, if◌then◌else◌, not, ◌&&◌, ◌||◌}
use cometduty.Prelude.Int.{ltb_ℤ, leb_ℤ, pos, ◌+ℤ◌}
use cometduty.Prelude.Text.{sprintf, show_ℤ}
use cometduty.Prelude.Time.{is_zero, longer, minutes}
use cometduty.Config.{is_chain_only}
use cometduty.Alert.{Alert}
use cometduty.Monitor.State.{Chain, EvmProbe}
use cometduty.Monitor.Watch.{Tick, raise, clear, switch}
use Prim.Native.String.{◌++◌ as ◌<>◌}

-- `(*evmProbe).label`.
unfoldable pub label : EvmProbe → String
label p = if p.validator == "" then p.url else p.validator <> (" (" <> (p.url <> ")"))

abbrev pub evm_down_key : EvmProbe → String
evm_down_key p = "evm-down:" <> p.url

abbrev pub evm_lag_key : EvmProbe → String
evm_lag_key p = "evm-lag:" <> p.url

-- The endpoint has been down for longer than the configuration allows.
unfoldable pub watch_evm_down : Tick → Chain → EvmProbe → EvmProbe × List Alert
watch_evm_down t c p =
    switch
      (c.cfg.alerts.evm_down_enabled
        && (p.down
            && (not (is_zero p.down_since)
                && (longer t.now p.down_since (minutes t.root.node_down_min) && not p.down_alarm))))
      (not p.down && (p.down_alarm || t.has_open (evm_down_key p)))
      (
        record p { down_alarm = true },
        raise c t (evm_down_key p) "warning" (
              sprintf "EVM RPC %s down for > %d minutes on %s: %s"
                (label p ∷ show_ℤ t.root.node_down_min ∷ c.cfg.chain_id ∷ p.last_msg ∷ []))
            ∷ [],
      )
      (
        record p { down_alarm = false },
        clear c t (evm_down_key p)
              (sprintf "EVM RPC %s recovered on %s" (label p ∷ c.cfg.chain_id ∷ []))
            ∷ [],
      )
      p

-- Execution is behind consensus, measured while the endpoint is up.
unfoldable pub watch_evm_lag : Tick → Chain → EvmProbe → EvmProbe × List Alert
watch_evm_lag t c p =
    let most = c.cfg.alerts.evm_lag_blocks in
    switch
      (c.cfg.alerts.evm_lag_enabled
        && (not p.down
            && (not p.syncing
                && (ltb_ℤ (pos 0) p.height
                    && (ltb_ℤ (pos 0) most && (ltb_ℤ most p.lag && not p.lag_alarm))))))
      ((not c.cfg.alerts.evm_lag_enabled || leb_ℤ p.lag most)
        && (p.lag_alarm || t.has_open (evm_lag_key p)))
      (
        record p { lag_alarm = true },
        raise c t (evm_lag_key p) "warning" (
              sprintf "EVM execution on %s is %d blocks behind consensus on %s (evm %d, comet %d)" (
                label p
                ∷ show_ℤ p.lag
                ∷ c.cfg.chain_id
                ∷ show_ℤ p.height
                ∷ show_ℤ (p.height +ℤ p.lag)
                ∷ []))
            ∷ [],
      )
      (
        record p { lag_alarm = false },
        clear c t (evm_lag_key p) (
              sprintf "EVM execution on %s caught up on %s (lag %d)"
                (label p ∷ c.cfg.chain_id ∷ show_ℤ p.lag ∷ []))
            ∷ [],
      )
      p

unfoldable pub watch_probe : Tick → Chain → EvmProbe → EvmProbe × List Alert
watch_probe t c p =
    let (p', down) = watch_evm_down t c p in
    let (p'', lag) = watch_evm_lag t c p' in (p'', down ++ lag)

unfoldable pub watch_probes : Tick → Chain → List EvmProbe → List EvmProbe × List Alert
watch_probes t c [] = ([], [])
watch_probes t c (p ∷ ps) =
    let (p', out) = watch_probe t c p in
    let (ps', more) = watch_probes t c ps in (p' ∷ ps', out ++ more)

-- The EVM section, which the chain role leaves to the sidecars.
unfoldable pub watch_all_probes : Tick → Chain → Chain × List Alert
watch_all_probes t c =
    let (ps, out) = watch_probes t c c.evm_probes in
    if is_chain_only c.cfg then (c, []) else (record c { evm_probes = ps }, out)
