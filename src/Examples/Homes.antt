-- ===== src/Examples/Homes.antt =====
-- The local checks, and consensus keys.
use cometduty.Prelude.{
  ℕ, [], ◌∷◌, List, ◌≡◌, ◌*◌, refl, arith, false, true, Bool, ◌&&◌, ◌==◌, string_eq, ◌++◌, leb, ltb,
}
use cometduty.Prelude.Int.{pos}
use cometduty.Prelude.Time.{minute}
use cometduty.Monitor.State.{new_chain, rebuild, new_node, NodeState}
use cometduty.Monitor.Alerting.Keys.{brief}
use cometduty.Monitor.Watch.Validators.Edges.{edge}
use cometduty.Monitor.Local.Signer.{
  update_signer, regress_key, stall_key, signer_stalled, advance, watch_signer_stall, watch_regress,
  regressed,
}
use cometduty.Monitor.Local.Signer.Heights.{
  update_signer-edges, visits-highest, Visit, visits, highest_of, last_of, told, stands_still,
  AllOwn,
}
use cometduty.Monitor.Local.StateFile.{garbled, unreadable, FileRead, probe_signer_file, on_garbled}
use Prim.Native.String.{◌++◌ as ◌<>◌}
use cometduty.Monitor.Local.StateFile.Reads.{
  FileVisit, file_visits, file_visits-latches, bads_of, missing_of, AllOwnFile,
}
use cometduty.Monitor.Local.Disk.{probe_fill_rate}
use cometduty.Monitor.Local.Disk.Samples.{probe_fill_rate-IsTrimmed, IsTrimmed, IsOrdered, taken}
use cometduty.Monitor.Watch.{Tick, switch}
use cometduty.Examples.Data.{node, chain, tick}

-- A node that signed at 100, whose file says 90 now.
abbrev signed : NodeState
signed = record (new_node node) { signer_max = pos 100; signer_height = pos 100; signer_at = 5 }

update_signer-edges_example :
    (brief (update_signer chain tick (pos 90) signed).1
      ≡ edge (regress_key signed) signed.regress_alarm (ltb 90 100) false
        ++ edge
            (stall_key signed)
            signed.signer_alarm
            (stands_still chain tick 90 100 signed)
            false)
    × ((update_signer chain tick (pos 90) signed).0 ≡ told chain tick 90 100 signed)
update_signer-edges_example = update_signer-edges chain tick 90 100 signed refl (refl, refl)

-- A visit while the alert of a regression is open.
abbrev visit : Bool → ℕ → Visit
visit open? h = record {
  chain = chain;
  tick = record tick { has_open = λ k. open? && k == "signer-regressed:" <> node.url };
  height = h;
}

-- The third height is below the second, and what it raised is open at the fourth and the fifth.
abbrev heights : List Visit
heights = visit false 100 ∷ visit false 120 ∷ visit false 90 ∷ visit true 95 ∷ visit true 120 ∷ []

heights-AllOwn : AllOwn heights (new_node node)
unfolding update_signer watch_signer_stall switch signer_stalled new_chain rebuild advance
    watch_regress regressed
heights-AllOwn = ((refl, refl), ((refl, refl), ((refl, refl), ((refl, refl), ((refl, refl), tt)))))

visits-highest_example :
    let n = visits heights (new_node node) in
    (n.signer_max ≡ pos (highest_of 0 heights))
    × (n.signer_height ≡ pos (last_of 0 heights))
    × (n.regress_alarm ≡ ltb (last_of 0 heights) (highest_of 0 heights))
visits-highest_example = visits-highest node heights heights-AllOwn

abbrev file_visit : Bool → FileRead → FileVisit
file_visit open? r = record {
  chain = chain;
  tick = record tick { has_open = λ k. open? && k == "signer-state:" <> node.url };
  read = r;
}

-- A torn read, a missing file and another torn read, while the alert of the missing file is open.
abbrev reads : List FileVisit
reads =
    file_visit false (garbled 3 "unexpected end")
    ∷ file_visit false (unreadable "no such file")
    ∷ file_visit true (garbled 0 "unexpected end")
    ∷ []

reads-AllOwnFile : AllOwnFile reads (new_node node)
unfolding probe_signer_file on_garbled new_node
reads-AllOwnFile = ((refl, refl), ((refl, refl), ((refl, refl), tt)))

file_visits-latches_example :
    let n = file_visits reads (new_node node) in
    (n.sign_bad ≡ bads_of 0 reads)
    × (n.corrupt_alarm ≡ leb 2 (bads_of 0 reads))
    × (n.sign_file_alarm ≡ missing_of false reads)
file_visits-latches_example = file_visits-latches node reads reads-AllOwnFile

-- Two samples, of 90 and of 20 minutes ago.
abbrev sampled : NodeState
sampled = record (new_node node) {
  disk_samples =
      record { at = 1_000_000 * minute; free = 900 }
      ∷ record { at = 1_000_070 * minute; free = 800 }
      ∷ [];
}

abbrev later : Tick
later = record tick { now = 1_000_090 * minute }

probe_fill_rate-IsTrimmed_example :
    IsTrimmed later.now
      (taken chain later 700 sampled)
      (probe_fill_rate chain later 700 sampled).0.disk_samples
    × IsOrdered 0 later.now (probe_fill_rate chain later 700 sampled).0.disk_samples
probe_fill_rate-IsTrimmed_example = probe_fill_rate-IsTrimmed chain later 700 sampled (ground arith)
