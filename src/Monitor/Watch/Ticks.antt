-- ===== src/Monitor/Watch/Ticks.antt =====
-- internal/monitor/health.go: one whole tick of `watchLoop`.
use cometduty.Prelude.{List, ◌++◌}
use cometduty.Alert.{Alert}
use cometduty.Monitor.State.{Chain}
use cometduty.Monitor.Watch.{Tick, watch_stall, watch_no_nodes}
use cometduty.Monitor.Watch.Nodes.{Latches, watch_all_nodes}
use cometduty.Monitor.Watch.Probes.{watch_all_probes}
use cometduty.Monitor.Watch.Validators.{watch_all_targets}

unfoldable pub watch_tick : Tick → Chain → Latches → Chain × Latches × List Alert
watch_tick t c l =
    let (c1, out1) = watch_stall t c in
    let (c2, out2) = watch_no_nodes t c1 in
    let (l', out3) = watch_all_nodes t c2 l in
    let (c3, out4) = watch_all_probes t c2 in
    let (c4, out5) = watch_all_targets t c3 in (c4, l', out1 ++ (out2 ++ (out3 ++ (out4 ++ out5))))
