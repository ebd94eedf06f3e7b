-- ===== src/Alert/Engine/Restart.antt =====
-- What of the deduplication state survives a restart.
use cometduty.Prelude.{ℕ, List, [], ◌∷◌, String, ◌≡◌, refl, arith}
use cometduty.Prelude.{All, string_eq, if◌then◌else◌, Option, none, some}
use cometduty.Prelude.Int.{ℤ}
use cometduty.Prelude.Maps.{GoMap, lookup, insert, lookup-insert, IsMap}
use cometduty.Prelude.Time.{longer}
use cometduty.Alert.{Alert, ResolvedDest, SentEntry}
use cometduty.Alert.Engine.{Engine, new_engine, inner}
use cometduty.Alert.Engine.Stored.{restore_kind, restore_sent, restore, snapshot}

-- The entry that is restored under a key.
abbrev under : String → SentEntry → SentEntry
under key sa = record { alert = record sa.alert { key = key }; when = sa.when }

-- What is under a key after the restore: the stored entry where it is not too old, and else what was
-- there.
unfoldable pub restored : ℕ → ℤ → String → Option SentEntry → Option SentEntry → Option SentEntry
restored now max_age key none old = old
restored now max_age key (some sa) old =
    if longer now sa.when max_age then old else some (under key sa)

lookup-restore_kind :
    (now : ℕ) (max_age : ℤ) (m into : GoMap String SentEntry) (j : String)
    → IsMap m
    → lookup j (restore_kind now max_age m into)
      ≡ restored now max_age j (lookup j m) (lookup j into)
unfolding lookup restore_kind restored IsMap
lookup-restore_kind now max_age [] into j h = refl
lookup-restore_kind now max_age ((k, sa) ∷ m) into j h = ground (
  arith,
  string_eq.beq_iff k j,
  lookup-insert k j (under k sa) into,
  lookup-restore_kind now max_age m into j h.1,
  lookup-restore_kind now max_age m (insert k (under k sa) into) j h.1,
)

lookup-restore_sent :
    (now : ℕ) (max_age : ℤ) (snap into : GoMap String (GoMap String SentEntry)) (k j : String)
    → IsMap snap
    → All (λ m. IsMap m.1) snap
    → lookup j (inner k (restore_sent now max_age snap into))
      ≡ restored now max_age j (lookup j (inner k snap)) (lookup j (inner k into))
unfolding lookup restore_sent restored IsMap
lookup-restore_sent now max_age [] into k j h g = refl
lookup-restore_sent now max_age ((kind, m) ∷ snap) into k j h g =
    let stored = restore_kind now max_age m (inner kind into) in
    ground (
      arith,
      string_eq.beq_iff kind k,
      lookup-insert kind k stored into,
      lookup-restore_kind now max_age m (inner kind into) j g.0,
      lookup-restore_sent now max_age snap (insert kind stored into) k j h.1 g.1,
    )

-- A new engine that restores the snapshot of another holds, for every destination kind and key, the
-- entry of the other where it is not older than the limit, under its key and at its time, and nothing
-- else. What was sent is taken to be a map of maps, each with every key once.
pub restore-snapshot :
    (e : Engine) (resolve : Alert → List ResolvedDest) (flap remind max_age : ℤ) (now : ℕ)
    (k j : String)
    → IsMap e.sent
    → All (λ m. IsMap m.1) e.sent
    → lookup j (inner k (restore (new_engine resolve flap remind) now max_age (snapshot e)).sent)
      ≡ restored now max_age j (lookup j (inner k e.sent)) none
unfolding restore snapshot new_engine lookup
restore-snapshot e resolve flap remind max_age now k j h g =
    lookup-restore_sent now max_age e.sent [] k j h g
