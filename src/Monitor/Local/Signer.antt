-- ===== src/Monitor/Local/Signer.antt =====
-- internal/monitor/local.go: what `updateSigner` makes of the height in priv_validator_state.json.
pub mod Heights
use cometduty.Prelude.{ℕ, Bool, true, false, List, [], ◌∷◌, ◌++◌, String}
use cometduty.Prelude.{◌==◌, if◌then◌else◌, not, ◌&&◌, ◌||◌}
use cometduty.Prelude.Int.{ℤ, pos, ltb_ℤ, leb_ℤ, int_eq}
use cometduty.Prelude.Text.{sprintf, show_ℤ}
use cometduty.Prelude.Time.{is_zero, longer, minutes}
use cometduty.Alert.{Alert}
use cometduty.Monitor.State.{Chain, NodeState}
use cometduty.Monitor.Alerting.{node_label}
use cometduty.Monitor.Watch.{Tick, raise, clear, switch}
use Prim.Native.String.{◌++◌ as ◌<>◌}

abbrev pub regress_key : NodeState → String
regress_key n = "signer-regressed:" <> n.cfg.url

abbrev pub stall_key : NodeState → String
stall_key n = "signer-stalled:" <> n.cfg.url

-- The height is below one that was seen.
unfoldable pub regressed : ℤ → NodeState → Bool
regressed h n = ltb_ℤ (pos 0) n.signer_max && ltb_ℤ h n.signer_max

-- The part on a height that goes backwards.
unfoldable pub watch_regress : Chain → Tick → ℤ → NodeState → NodeState × List Alert
watch_regress c t h n =
    let open? = t.has_open (regress_key n) in
    switch (regressed h n && (not n.regress_alarm && not open?))
      (not (regressed h n)
        && ((n.regress_alarm || (ltb_ℤ (pos 0) n.signer_max && open?)) && leb_ℤ n.signer_max h))
      (
        record n { regress_alarm = true },
        raise c t (regress_key n) "critical" (
              sprintf
                "node %s signer state regressed on %s: height %d < previous %d — priv_validator_state was copied/restored, DOUBLE-SIGN risk if another instance signs"
                (node_label n ∷ c.cfg.chain_id ∷ show_ℤ h ∷ show_ℤ n.signer_max ∷ []))
            ∷ [],
      )
      (
        record n { regress_alarm = false },
        clear c t (regress_key n) (
              sprintf
                "node %s signer state re-advanced to %d on %s — verify no other instance signed meanwhile"
                (node_label n ∷ show_ℤ h ∷ c.cfg.chain_id ∷ []))
            ∷ [],
      )
      n

-- The highest height so far, the last one, and when it moved.
unfoldable pub advance : ℕ → ℤ → NodeState → NodeState
advance now h n = record n {
  signer_max = if ltb_ℤ n.signer_max h then h else n.signer_max;
  signer_at = if not (h == n.signer_height) || is_zero n.signer_at then now else n.signer_at;
  signer_height = h;
}

-- The signer stands still while the chain moves on.
unfoldable pub signer_stalled : Chain → Tick → NodeState → Bool
signer_stalled c t n =
    let min = c.cfg.alerts.signer_stall_min in
    ltb_ℤ (pos 0) min
    && (ltb_ℤ (pos 0) c.last_height
        && (ltb_ℤ (pos 0) n.signer_max
            && (ltb_ℤ n.signer_height c.last_height && longer t.now n.signer_at (minutes min))))

-- The part on a signer that stands still.
unfoldable pub watch_signer_stall : Chain → Tick → NodeState → NodeState × List Alert
watch_signer_stall c t n =
    switch (signer_stalled c t n && (not n.signer_alarm && not (t.has_open (stall_key n))))
      (not (signer_stalled c t n) && n.signer_alarm)
      (
        record n { signer_alarm = true },
        raise c t (stall_key n) "warning" (
              sprintf
                "node %s hasn't signed since height %d on %s (> %d minutes; chain is at %d) — check the consensus key"
                (node_label n
                  ∷ show_ℤ n.signer_height
                  ∷ c.cfg.chain_id
                  ∷ show_ℤ c.cfg.alerts.signer_stall_min
                  ∷ show_ℤ c.last_height
                  ∷ []))
            ∷ [],
      )
      (
        record n { signer_alarm = false },
        clear c t (stall_key n) (
              sprintf "node %s resumed signing on %s (height %d)"
                (node_label n ∷ c.cfg.chain_id ∷ show_ℤ n.signer_height ∷ []))
            ∷ [],
      )
      n

-- `updateSigner`.
unfoldable pub update_signer : Chain → Tick → ℤ → NodeState → NodeState × List Alert
update_signer c t h n =
    let (n1, first) = watch_regress c t h n in
    let (n2, second) = watch_signer_stall c t (advance t.now h n1) in (n2, first ++ second)
