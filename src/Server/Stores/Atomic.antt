-- ===== src/Server/Stores/Atomic.antt =====
-- What a crash during a save leaves.
use cometduty.Prelude.{
  ℕ, List, [], ◌∷◌, String, Option, none, some, ◌≡◌, refl, ◌⊎◌, inl, inr, All, All-append, map,
}
use cometduty.Prelude.Tried.{Tried, done}
use cometduty.Server.Starting.{Snapshot}
use cometduty.Server.Stores.{
  Disk, load, Writing, all_written, cut_off, with_tmp, rename_after, write_after, save_snapshot,
  or_fresh,
}

module _ (parse : List ℕ → Tried Snapshot) (d : Disk) (bytes : List ℕ) where
  -- What is loaded is what was there, or what was to be saved.
  abbrev pub IsOldOrNew : Disk → Type 0
  IsOldOrNew d' =
      (load parse d'.file ≡ load parse d.file) ⊎ (load parse d'.file ≡ or_fresh (parse bytes))

  parts-IsOldOrNew : (parts : List (List ℕ)) → All IsOldOrNew (map (with_tmp d) parts)
  parts-IsOldOrNew [] = tt
  parts-IsOldOrNew (p ∷ ps) = (inl refl, parts-IsOldOrNew ps)

  rename-IsOldOrNew : (rename : Option String) → All IsOldOrNew (rename_after d bytes rename).0
  unfolding rename_after load
  rename-IsOldOrNew none = (inl refl, (inr refl, tt))
  rename-IsOldOrNew (some e) = (inl refl, tt)

  write-IsOldOrNew :
      (writing : Writing) (rename : Option String)
      → All IsOldOrNew (write_after d bytes writing rename).0
  unfolding write_after
  write-IsOldOrNew (cut_off parts e) rename = parts-IsOldOrNew parts
  write-IsOldOrNew (all_written parts) rename =
      All-append IsOldOrNew _ _ (parts-IsOldOrNew parts) (rename-IsOldOrNew rename)

-- However far `Save` gets, whether it is cut off or fails, what `Load` then reads is what it would
-- have read before, or what it makes of all the bytes of the new snapshot.
pub save_snapshot-atomic :
    (parse : List ℕ → Tried Snapshot) (d : Disk) (bytes : List ℕ) (writing : Writing)
    (rename : Option String)
    → All (IsOldOrNew parse d bytes) (save_snapshot (done bytes) d writing rename).0
unfolding save_snapshot
save_snapshot-atomic parse d bytes writing rename = write-IsOldOrNew parse d bytes writing rename
