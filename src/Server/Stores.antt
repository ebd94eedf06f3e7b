-- ===== src/Server/Stores.antt =====
-- internal/state/state.go and internal/history/history.go: the state file and the alert log. JSON is a
-- parameter, and what the file system does is data.
pub mod Atomic
use cometduty.Prelude.{ℕ, Bool, true, false, List, [], ◌∷◌, ◌++◌, String, Option, none, some}
use cometduty.Prelude.{◌==◌, string_eq, if◌then◌else◌, map}
use cometduty.Prelude.Text.{sprintf}
use cometduty.Prelude.Tried.{Tried, failed, done}
use cometduty.Alert.{Alert}
use cometduty.Alert.Engine.Stored.{NotifyResult}
use cometduty.Server.Starting.{Snapshot}

abbrev pub empty_snapshot : Snapshot
empty_snapshot = record { alarms = []; nodes_down = []; silences = [] }

-- The state file and the one that `Save` writes first.
pub record Disk : Type 0 where
  pub file : Option (List ℕ)
  pub tmp : Option (List ℕ)

abbrev pub or_fresh : Tried Snapshot → Snapshot
or_fresh (failed e) = empty_snapshot
or_fresh (done snap) = snap

-- `Load`, of what the file holds where it can be opened and read.
unfoldable pub load : (List ℕ → Tried Snapshot) → Option (List ℕ) → Snapshot
load parse none = empty_snapshot
load parse (some bytes) = or_fresh (parse bytes)

-- What becomes of `os.WriteFile`: the contents that the file goes through before it holds the bytes,
-- or those that it got to by an error.
pub data Writing : Type 0 where
  all_written : List (List ℕ) → Writing
  cut_off : List (List ℕ) → String → Writing

abbrev pub with_tmp : Disk → List ℕ → Disk
with_tmp d bytes = record d { tmp = some bytes }

abbrev pub renamed : Disk → List ℕ → Disk
renamed d bytes = record d { file = some bytes; tmp = none }

unfoldable pub rename_after : Disk → List ℕ → Option String → List Disk × Option String
rename_after d bytes none = (with_tmp d bytes ∷ renamed d bytes ∷ [], none)
rename_after d bytes (some e) = (with_tmp d bytes ∷ [], some e)

unfoldable pub write_after : Disk → List ℕ → Writing → Option String → List Disk × Option String
write_after d bytes (cut_off parts e) rename = (map (with_tmp d) parts, some e)
write_after d bytes (all_written parts) rename =
    let (ds, e) = rename_after d bytes rename in (map (with_tmp d) parts ++ ds, e)

-- `Save`: what the disk is like after each step, up to the last, and the error. The rename is one step.
unfoldable pub save_snapshot :
    Tried (List ℕ) → Disk → Writing → Option String → List Disk × Option String
save_snapshot (failed e) d writing rename = ([], some e)
save_snapshot (done bytes) d writing rename = write_after d bytes writing rename

-- A line of the alert log.
pub record Rec : Type 0 where
  pub ts : ℕ
  pub chain : String
  pub chain_id : String
  pub key : String
  pub resolved : Bool
  pub severity : String
  pub message : String
  pub moniker : String
  pub valcons : String
  pub dest : String
  pub ok : Bool
  pub attempts : ℕ
  pub err : String

abbrev is_ok : Option String → Bool
is_ok none = true
is_ok (some e) = false

abbrev text_in : Option String → String
text_in none = ""
text_in (some e) = e

-- `FromNotify`.
unfoldable pub from_notify : ℕ → NotifyResult → Rec
from_notify now r = record {
  ts = now;
  chain = r.alert.chain;
  chain_id = r.alert.chain_id;
  key = r.alert.key;
  resolved = r.alert.resolved;
  severity = r.alert.severity;
  message = r.alert.message;
  moniker = r.alert.moniker;
  valcons = r.alert.valcons;
  dest = r.dest;
  ok = is_ok r.err;
  attempts = r.attempts;
  err = text_in r.err;
}

-- The sink is what its file holds; none is a log that is turned off.
abbrev pub Sink : Type 0
Sink = Option (List ℕ)

opened : String → Tried (List ℕ) → Tried Sink
opened path (failed e) = failed (sprintf "alert log %s: %s" (path ∷ e ∷ []))
opened path (done bytes) = done (some bytes)

-- `Open`, on what opening the file gives: an error, or what it holds.
unfoldable pub open_log : String → Tried (List ℕ) → Tried Sink
unfolding opened
open_log path file = if path == "" then done none else opened path file

-- What becomes of one write: all of it, or a part of it with an error.
pub data LogWrite : Type 0 where
  whole : LogWrite
  part : List ℕ → String → LogWrite

with_line : List ℕ → List ℕ → LogWrite → Sink × Option String
with_line bytes line whole = (some (bytes ++ (line ++ (b'\n' ∷ []))), none)
with_line bytes line (part p e) = (some (bytes ++ p), some e)

marshalled : List ℕ → Tried (List ℕ) → LogWrite → Sink × Option String
unfolding with_line
marshalled bytes (failed e) write = (some bytes, some e)
marshalled bytes (done line) write = with_line bytes line write

-- `Record`.
unfoldable pub record_rec : (Rec → Tried (List ℕ)) → Sink → Rec → LogWrite → Sink × Option String
unfolding marshalled
record_rec encode none r write = (none, none)
record_rec encode (some bytes) r write = marshalled bytes (encode r) write
