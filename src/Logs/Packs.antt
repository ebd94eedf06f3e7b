-- ===== src/Logs/Packs.antt =====
-- internal/logs/logs.go: `DefaultRules` and `KernelRules`, the rules that come with the program.
use cometduty.Prelude.{List, [], ◌∷◌, String}
use cometduty.Prelude.Int.{ℤ, pos}
use cometduty.Config.{LogRule}

-- A rule of the packs: no one names a cooldown, and a field that is not named is 0.
abbrev rule : String → String → String → ℤ → ℤ → LogRule
rule name pattern severity count window = record {
  name = name;
  pattern = pattern;
  severity = severity;
  count = count;
  window_min = window;
  cooldown_min = pos 0;
}

unfoldable pub kernel_rules : List LogRule
kernel_rules =
    rule "kernel-io-error" "I/O error|blk_update_request: .*error|critical medium error" "critical"
      (pos 0) (pos 0)
    ∷ rule "kernel-fs-error"
        "EXT4-fs error|XFS \\S+: .*(corruption|Internal error|I/O error)|BTRFS (error|critical)"
        "critical" (pos 0) (pos 0)
    ∷ rule "kernel-fs-readonly"
        "Remounting filesystem read-only|remounted.*read-only|Filesystem has been shut down"
        "critical" (pos 0) (pos 0)
    ∷ rule "kernel-nvme"
        "nvme\\d+: (I/O .*timeout|controller is down|Device not ready|resetting controller)"
        "warning" (pos 3) (pos 10)
    ∷ []

unfoldable pub default_rules : List LogRule
default_rules =
    rule "consensus-failure" "CONSENSUS FAILURE" "critical" (pos 0) (pos 0)
    ∷ rule "apphash-mismatch" "wrong Block\\.Header\\.AppHash|AppHash mismatch" "critical" (pos 0)
        (pos 0)
    ∷ rule "upgrade-halt" "UPGRADE \"[^\"]*\" NEEDED at height" "critical" (pos 0) (pos 0)
    ∷ rule "panic" "\\bpanic:|fatal error:" "critical" (pos 0) (pos 0)
    ∷ rule "double-sign" "double sign|conflicting votes|DuplicateVote" "critical" (pos 0) (pos 0)
    ∷ rule "signer-error" "failed to sign|SignBytes failed|remote signer.*(error|refused|timeout)"
        "critical" (pos 0) (pos 0)
    ∷ rule "disk-full" "no space left on device|disk quota exceeded" "critical" (pos 0) (pos 0)
    ∷ rule "disk-io-error" "(?i)input/output error|\\bI/O error\\b" "critical" (pos 0) (pos 0)
    ∷ rule "read-only-fs" "(?i)read-only file system" "critical" (pos 0) (pos 0)
    ∷ rule "db-corruption"
        "(?i)\\bcorrupt(ed|ion)?\\b.*\\b(db|database|leveldb|goleveldb|pebble|rocksdb|wal|sst|ldb|manifest|store|journal)\\b|\\b(db|database|leveldb|goleveldb|pebble|rocksdb|wal|sst|ldb|manifest|store|journal)\\b.*\\bcorrupt(ed|ion)?\\b|checksum mismatch"
        "critical" (pos 0) (pos 0)
    ∷ rule "fd-exhaustion" "too many open files" "warning" (pos 0) (pos 0)
    ∷ rule "peer-churn" "Stopping peer for error" "warning" (pos 10) (pos 2)
    ∷ rule "evm-error" "module=evm.*level=error|evm.*panic" "warning" (pos 10) (pos 5)
    ∷ []
