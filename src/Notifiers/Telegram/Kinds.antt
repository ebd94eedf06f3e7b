-- ===== src/Notifiers/Telegram/Kinds.antt =====
-- internal/alert/notifiers/telegram.go: the table `kinds`.
use cometduty.Prelude.{[], ◌∷◌, String}
use cometduty.Prelude.Maps.{GoMap}

-- For a kind of alert a headline, with a place for the node or the chain, and what it means.
unfoldable pub kinds : GoMap String (String × String)
kinds =
    (
      "node-down",
      (
        "%s is down",
        "The node stopped answering RPC, so it can't follow the chain or serve requests.",
      ),
    )
    ∷ (
      "no-nodes",
      (
        "%s: no node reachable",
        "cometduty can't reach any node it watches, so it can't see the chain.",
      ),
    )
    ∷ (
      "no-servers",
      (
        "%s: no node reachable",
        "cometduty can't reach any node it watches, so it can't see the chain.",
      ),
    )
    ∷ ("stalled", ("%s has stalled", "No new block has been produced for several minutes."))
    ∷ (
      "node-stalled",
      (
        "%s stopped advancing",
        "No new block from this node for several minutes. It is the monitor's only endpoint, so the chain may be fine and only this node stuck.",
      ),
    )
    ∷ (
      "disk-readonly",
      (
        "%s: disk read-only",
        "The filesystem holding the node was remounted read-only, usually after disk errors. The node can't write and will stop.",
      ),
    )
    ∷ (
      "log-kernel-io-error",
      (
        "%s: disk I/O errors",
        "The host kernel logged disk I/O errors: the disk is failing or was detached.",
      ),
    )
    ∷ (
      "log-kernel-fs-error",
      (
        "%s: filesystem errors",
        "The host kernel logged filesystem errors; the data on that disk may be corrupt.",
      ),
    )
    ∷ (
      "log-kernel-fs-readonly",
      ("%s: disk went read-only", "The host kernel remounted a filesystem read-only after errors."),
    )
    ∷ (
      "log-kernel-nvme",
      (
        "%s: NVMe disk trouble",
        "The host kernel logged NVMe timeouts or resets: the disk is struggling or failing.",
      ),
    )
    ∷ ("lag", ("%s is falling behind", "The node is well behind the chain's latest block."))
    ∷ (
      "consecutive",
      ("%s is missing blocks", "The validator hasn't signed several blocks in a row."),
    )
    ∷ (
      "window-pct",
      (
        "%s is missing blocks",
        "The validator missed too many blocks in the slashing window and is heading for jail.",
      ),
    )
    ∷ (
      "percentage",
      (
        "%s is missing blocks",
        "The validator missed too many blocks in the slashing window and is heading for jail.",
      ),
    )
    ∷ (
      "inactive",
      ("%s is not in the active set", "The validator is jailed, tombstoned or unbonded."),
    )
    ∷ ("evm-down", ("%s: EVM RPC down", "The node's EVM JSON-RPC isn't answering."))
    ∷ (
      "evm-lag",
      (
        "%s: EVM lagging",
        "EVM execution is behind consensus: blocks finalize but transactions aren't executing.",
      ),
    )
    ∷ (
      "evm-txpool",
      (
        "%s: EVM txpool backlog",
        "Many transactions are queued in the EVM txpool: a nonce gap or an execution stall.",
      ),
    )
    ∷ ("mempool-txs", ("%s: mempool backlog", "Transactions are piling up in the mempool."))
    ∷ (
      "consensus-round",
      ("%s: consensus rounds climbing", "Proposals are timing out and rounds keep going up."),
    )
    ∷ (
      "catching-up",
      ("%s is catching up", "The node is syncing old blocks and isn't at the chain head yet."),
    )
    ∷ (
      "catching-up-stuck",
      ("%s is stuck syncing", "The node is syncing but its height isn't moving."),
    )
    ∷ ("validator-new", ("%s: validator joined", "A validator joined the active set."))
    ∷ ("validator-gone", ("%s: validator left", "A validator left the active set."))
    ∷ ("validator-jailed", ("%s: validator jailed", "A validator was jailed."))
    ∷ ("stake-change", ("%s: stake changed", "The validator's bonded stake moved sharply."))
    ∷ ("cpu-high", ("%s: CPU high", "The node's CPU use is above the limit."))
    ∷ ("mem-high", ("%s: memory high", "The node's memory use is above the limit."))
    ∷ ("disk-low", ("%s: disk low", "The node's disk is nearly full; it will stop when it fills."))
    ∷ (
      "disk-error",
      (
        "%s: disk failing",
        "The node's disk can't be read: it failed, was unmounted or detached. The node will stop or crash.",
      ),
    )
    ∷ (
      "disk-inodes",
      (
        "%s: inodes low",
        "The disk is running out of inodes (file slots); the node can't create files once they run out, even with space left.",
      ),
    )
    ∷ (
      "disk-filling",
      (
        "%s: disk filling fast",
        "At the rate the disk filled over the last hour, it will be full soon.",
      ),
    )
    ∷ (
      "log-disk-full",
      (
        "%s: disk full",
        "The node logged \"no space left on device\": its disk is full and it can't write blocks.",
      ),
    )
    ∷ (
      "log-disk-io-error",
      ("%s: disk I/O errors", "The node logged I/O errors: the disk is failing or was detached."),
    )
    ∷ (
      "log-read-only-fs",
      (
        "%s: disk read-only",
        "The node's filesystem went read-only, usually after disk errors. The node can't write and will stop.",
      ),
    )
    ∷ (
      "log-db-corruption",
      (
        "%s: database corrupted",
        "The node logged database corruption. It needs a restore from a snapshot or a state sync.",
      ),
    )
    ∷ (
      "signer-state",
      (
        "%s: signer state unreadable",
        "priv_validator_state.json can't be read; a restart could sign from height 0.",
      ),
    )
    ∷ (
      "signer-corrupt",
      (
        "%s: signer state corrupt",
        "priv_validator_state.json is corrupt. Don't restart the validator on it: double-sign risk.",
      ),
    )
    ∷ (
      "signer-stalled",
      ("%s: signer stalled", "The validator's signer state hasn't moved while the chain advances."),
    )
    ∷ (
      "signer-regressed",
      (
        "%s: signer went backwards",
        "The signer state height moved backwards: state was copied or restored. Double-sign risk.",
      ),
    )
    ∷ ("test", ("%s: test alert", "A test notification from cometduty."))
    ∷ []
