-- ===== src/Monitor/Local/StateFile/Reads.antt =====
-- Runs of reads of the state file: what the latches on the file say afterwards.
use cometduty.Prelude.{ℕ, suc, ◌≡◌, refl, ap, ◌∙◌, arith, Bool, true, false, leb, not, ◌&&◌}
use cometduty.Prelude.{List, [], ◌∷◌, String, if_cases}
use cometduty.Prelude.Int.{ℤ}
use cometduty.Config.{NodeConfig}
use cometduty.Alert.{Alert}
use cometduty.Monitor.State.{Chain, NodeState, new_node}
use cometduty.Monitor.Watch.{Tick, switch_cases}
use cometduty.Monitor.Local.Signer.{update_signer, watch_regress, watch_signer_stall, advance}
use cometduty.Monitor.Local.StateFile.{
  FileRead, disk_failed, unreadable, garbled, holds, probe_signer_file, on_disk_failed,
  on_unreadable, on_garbled, on_height, corrupt_over, file_over, file_key, corrupt_key,
}

-- The reads that gave bytes, since the last that gave a height.
abbrev pub bad_reads : ℕ → FileRead → ℕ
bad_reads b (disk_failed e) = b
bad_reads b (unreadable e) = b
bad_reads b (garbled size e) = suc b
bad_reads b (holds h) = 0

-- Whether the file could not be read, but for the disk, since a height was read.
abbrev pub missing_file : Bool → FileRead → Bool
missing_file m (disk_failed e) = m
missing_file m (unreadable e) = true
missing_file m (garbled size e) = m
missing_file m (holds h) = false

abbrev pub IsLatched : NodeConfig → ℕ → Bool → NodeState → Type 0
IsLatched cfg b m n =
    (n.cfg ≡ cfg) × (n.sign_bad ≡ b) × (n.corrupt_alarm ≡ leb 2 b) × (n.sign_file_alarm ≡ m)

-- What the signer checks leave alone.
abbrev IsSame : NodeState → NodeState × List Alert → Type 0
IsSame n r =
    (r.0.cfg ≡ n.cfg)
    × (r.0.sign_bad ≡ n.sign_bad)
    × (r.0.corrupt_alarm ≡ n.corrupt_alarm)
    × (r.0.sign_file_alarm ≡ n.sign_file_alarm)

update_signer-IsSame :
    (c : Chain) (t : Tick) (h : ℤ) (n : NodeState) → IsSame n (update_signer c t h n)
unfolding update_signer watch_regress watch_signer_stall advance
update_signer-IsSame c t h n =
    let same : IsSame n (n, []) = (refl, refl, refl, refl) in
    let first : IsSame n (watch_regress c t h n) =
      switch_cases (IsSame n) _ _ _ _ _ (λ e. same) (λ d e. same) (λ d e. same) in
    switch_cases (IsSame n) _ _ _ _ _ (λ e. first) (λ d e. first) (λ d e. first)

-- The alerts that are open under the keys of the file are those that the node's own latches stand
-- for.
abbrev pub IsOwnFile : Tick → NodeState → Type 0
IsOwnFile t n =
    ((t.has_open (file_key n) && not n.sign_file_alarm) ≡ false)
    × ((t.has_open (corrupt_key n) && not n.corrupt_alarm) ≡ false)

-- One read.
module _ (c : Chain) (t : Tick) (cfg : NodeConfig) (b : ℕ) (m : Bool) (n : NodeState) where
  unreadable-IsLatched :
      (e : String)
      → (t.has_open (file_key n) && not n.sign_file_alarm) ≡ false
      → IsLatched cfg b m n
      → IsLatched cfg b true (on_unreadable c t e n).0
  unfolding on_unreadable
  unreadable-IsLatched e o (hc, hb, hl, hm) =
      if_cases (λ (r : NodeState × List Alert). IsLatched cfg b true r.0) _
        (λ d. (hc, hb, hl, refl)) (λ d. (hc, hb, hl, ground arith))

  garbled-IsLatched :
      (size : ℕ) (e : String)
      → (t.has_open (corrupt_key n) && not n.corrupt_alarm) ≡ false
      → IsLatched cfg b m n
      → IsLatched cfg (suc b) m (on_garbled c t size e n).0
  unfolding on_garbled
  garbled-IsLatched size e o (hc, hb, hl, hm) =
      if_cases (λ (r : NodeState × List Alert). IsLatched cfg (suc b) m r.0) _
        (λ d. (hc, ap suc hb, ground arith, hm)) (λ d. (hc, ap suc hb, ground arith, hm))

  disk_failed-IsLatched :
      (e : String) → IsLatched cfg b m n → IsLatched cfg b m (on_disk_failed c t e n).0
  unfolding on_disk_failed
  disk_failed-IsLatched e k =
      if_cases (λ (r : NodeState × List Alert). IsLatched cfg b m r.0) _ (λ e. k) (λ e. k)

  corrupt_over-clears :
      (h : ℤ) (x : NodeState)
      → IsSame (record n { sign_bad = 0 }) (x, [])
      → let y = (corrupt_over c t h x).0 in
        (y.cfg ≡ n.cfg)
        × (y.sign_bad ≡ 0)
        × (y.corrupt_alarm ≡ false)
        × (y.sign_file_alarm ≡ n.sign_file_alarm)
  unfolding corrupt_over
  corrupt_over-clears h x (hc, hb, hl, hm) =
      if_cases
        (λ (r : NodeState × List Alert).
          (r.0.cfg ≡ n.cfg)
          × (r.0.sign_bad ≡ 0)
          × (r.0.corrupt_alarm ≡ false)
          × (r.0.sign_file_alarm ≡ n.sign_file_alarm))
        _ (λ e. (hc, hb, refl, hm)) (λ e. (hc, hb, ground arith, hm))

  holds-IsLatched : (h : ℤ) → IsLatched cfg b m n → IsLatched cfg 0 false (on_height c t h n).0
  unfolding on_height file_over
  holds-IsLatched h (hc, hb, hl, hm) =
      let (sc, sb, sl, sm) =
        corrupt_over-clears h _ (update_signer-IsSame c t h (record n { sign_bad = 0 })) in
      if_cases (λ (r : NodeState × List Alert). IsLatched cfg 0 false r.0) _
        (λ e. (sc ∙ hc, sb, sl, refl)) (λ e. (sc ∙ hc, sb, sl, ground arith))

  probe_signer_file-IsLatched :
      (r : FileRead)
      → IsOwnFile t n
      → IsLatched cfg b m n
      → IsLatched cfg (bad_reads b r) (missing_file m r) (probe_signer_file c t r n).0
  unfolding probe_signer_file
  probe_signer_file-IsLatched (disk_failed e) (o, p) k = disk_failed-IsLatched e k
  probe_signer_file-IsLatched (unreadable e) (o, p) k = unreadable-IsLatched e o k
  probe_signer_file-IsLatched (garbled size e) (o, p) k = garbled-IsLatched size e p k
  probe_signer_file-IsLatched (holds h) (o, p) k = holds-IsLatched h k

-- A visit of the health loop that read the state file.
pub record FileVisit : Type 0 where
  pub chain : Chain
  pub tick : Tick
  pub read : FileRead

abbrev pub file_visits : List FileVisit → NodeState → NodeState
file_visits [] n = n
file_visits (v ∷ vs) n = file_visits vs (probe_signer_file v.chain v.tick v.read n).0

abbrev pub bads_of : ℕ → List FileVisit → ℕ
bads_of b [] = b
bads_of b (v ∷ vs) = bads_of (bad_reads b v.read) vs

abbrev pub missing_of : Bool → List FileVisit → Bool
missing_of m [] = m
missing_of m (v ∷ vs) = missing_of (missing_file m v.read) vs

-- At every visit, nothing is open under the keys of the file but what the node's latches stand for
-- by then.
abbrev pub AllOwnFile : List FileVisit → NodeState → Type 0
AllOwnFile [] n = Unit
AllOwnFile (v ∷ vs) n =
    let n' = (probe_signer_file v.chain v.tick v.read n).0 in IsOwnFile v.tick n × AllOwnFile vs n'

file_visits-IsLatched :
    (cfg : NodeConfig) (vs : List FileVisit) (b : ℕ) (m : Bool) (n : NodeState)
    → AllOwnFile vs n
    → IsLatched cfg b m n
    → IsLatched cfg (bads_of b vs) (missing_of m vs) (file_visits vs n)
file_visits-IsLatched cfg [] b m n q k = k
file_visits-IsLatched cfg (v ∷ vs) b m n (q, qs) k =
    file_visits-IsLatched cfg vs (bad_reads b v.read) (missing_file m v.read) _ qs
      (probe_signer_file-IsLatched v.chain v.tick cfg b m n v.read q k)

-- Over any run of reads of the state file, from a new node, where nothing is open under the keys of
-- the file but what the node's own latches stand for at the time: `signBad` counts the reads that did
-- not decode since the last one that did, the corruption latch is set just while that count is 2 or
-- more, and the latch on an unreadable file just while one that is not the disk's failure came after
-- the last height.
pub file_visits-latches :
    (cfg : NodeConfig) (vs : List FileVisit)
    → AllOwnFile vs (new_node cfg)
    → let n = file_visits vs (new_node cfg) in
      (n.sign_bad ≡ bads_of 0 vs)
      × (n.corrupt_alarm ≡ leb 2 (bads_of 0 vs))
      × (n.sign_file_alarm ≡ missing_of false vs)
unfolding new_node
file_visits-latches cfg vs q =
    let (hc, hb, hl, hm) =
      file_visits-IsLatched cfg vs 0 false (new_node cfg) q (refl, refl, refl, refl) in
    (hb, hl, hm)
