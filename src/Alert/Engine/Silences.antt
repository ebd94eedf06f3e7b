-- ===== src/Alert/Engine/Silences.antt =====
-- internal/alert/silence.go: the engine's silences. `fresh` is what `crypto/rand` gives for an id.
use cometduty.Prelude.{ℕ, suc, Bool, true, false, List, [], ◌∷◌, ◌++◌, String, Option, none, some}
use cometduty.Prelude.{◌==◌, string_eq, if◌then◌else◌, not, ◌||◌, ltb, ◌*◌}
use cometduty.Prelude.Int.{pos}
use cometduty.Prelude.Maps.{GoMap, lookup, insert, erase, member}
use cometduty.Prelude.Time.{hour, is_zero, longer}
use cometduty.Alert.{Alert}
use cometduty.Alert.Silence.{Silence, Matcher, Regexp, compile, matches, state, max_silence}
use cometduty.Alert.Silence.{Fallible, ok, err, no_silence, bad_period, too_long, no_matcher}
use cometduty.Alert.Silence.{not_selective, fail_if, ◌>>=◌, ◌>>◌}
use cometduty.Alert.Engine.{Engine, Delivery, dispatch, inner, silenced}

-- The loop over the matchers: each is compiled, and `selective` is set by one that does not match
-- the empty label set.
unfoldable pub compile_all : Regexp → List Matcher → Bool → Fallible (List Matcher × Bool)
compile_all regexp [] selective = ok ([], selective)
compile_all regexp (m ∷ ms) selective = do
  m' ← compile regexp m
  (ms', selective') ← compile_all regexp ms (selective || not (matches m' []))
  ok (m' ∷ ms', selective')

abbrev pub is_empty : List Matcher → Bool
is_empty [] = true
is_empty (m ∷ ms) = false

abbrev pub with_start : ℕ → Silence → Silence
with_start now s = if is_zero s.starts_at then record s { starts_at = now } else s

abbrev pub with_id : String → Silence → Silence
with_id fresh s = if s.id == "" then record s { id = fresh } else s

-- The checks of `AddSilence`, and the silence that it stores.
unfoldable pub accept : Regexp → ℕ → String → Silence → Fallible Silence
accept regexp now fresh s = do
  let s = with_start now s
  fail_if (not (ltb s.starts_at s.ends_at) || not (ltb now s.ends_at)) bad_period
  fail_if (longer s.ends_at s.starts_at (pos max_silence)) too_long
  fail_if (is_empty s.matchers) no_matcher
  (matchers, selective) ← compile_all regexp s.matchers false
  fail_if (not selective) not_selective
  ok (record (with_id fresh s) { matchers = matchers; updated_at = now })

-- `AddSilence`.
unfoldable pub add_silence : Regexp → Engine → ℕ → String → Silence → Fallible (Engine × String)
add_silence regexp e now fresh s = do
  s ← accept regexp now fresh s
  ok (record e { silences = insert s.id s e.silences }, s.id)

-- One round of the loop of `releaseHeld`, over the entries of the map as they were.
unfoldable pub release_one : Engine → ℕ → String × Alert → Engine × List Alert
release_one e now (key, a) = if silenced e now a then (e, []) else (
  record e { held = erase key e.held },
  (if member key (inner a.chain e.active) then a ∷ [] else []),
)

unfoldable pub release_all : Engine → ℕ → List (String × Alert) → Engine × List Alert
release_all e now [] = (e, [])
release_all e now (h ∷ hs) =
    let (e', due) = release_one e now h in
    let (e'', more) = release_all e' now hs in (e'', due ++ more)

unfoldable pub dispatch_all : Engine → ℕ → List Alert → Engine × List Delivery
dispatch_all e now [] = (e, [])
dispatch_all e now (a ∷ as') =
    let (e', out) = dispatch e now a in
    let (e'', more) = dispatch_all e' now as' in (e'', out ++ more)

-- `releaseHeld`.
unfoldable pub release_held : Engine → ℕ → Engine × List Delivery
release_held e now = let (e', due) = release_all e now e.held in dispatch_all e' now due

-- `ExpireSilence` ends a silence that is not over yet.
unfoldable pub ended : ℕ → Silence → Silence
ended now s = if ltb now s.ends_at then record s { ends_at = now; updated_at = now } else s

unfoldable pub expire_found :
    Engine → ℕ → String → Option Silence → Fallible (Engine × List Delivery)
expire_found e now id none = err no_silence
expire_found e now id (some s) =
    ok (release_held (record e { silences = insert id (ended now s) e.silences }) now)

unfoldable pub expire_silence : Engine → ℕ → String → Fallible (Engine × List Delivery)
unfolding expire_found
expire_silence e now id = expire_found e now id (lookup id e.silences)

-- `time.Since(s.EndsAt) > 24*time.Hour`.
abbrev pub long_over : ℕ → Silence → Bool
long_over now s = longer now s.ends_at (pos (24 * hour))

unfoldable pub purge : ℕ → GoMap String Silence → GoMap String Silence
purge now [] = []
purge now ((id, s) ∷ m) = let rest = purge now m in if long_over now s then rest else (id, s) ∷ rest

-- A tick of `RunSilences`.
unfoldable pub silence_tick : Engine → ℕ → Engine × List Delivery
silence_tick e now = release_held (record e { silences = purge now e.silences }) now

-- A silence whose matchers do not all compile is dropped.
abbrev stored : Engine → Silence → Fallible (List Matcher × Bool) → Engine
stored e s (err x) = e
stored e s (ok (ms, _)) = record e {
  silences = insert s.id (record s { matchers = ms }) e.silences;
}

unfoldable pub restore_one : Regexp → Engine → ℕ → Silence → Engine
restore_one regexp e now s =
    if long_over now s then e else stored e s (compile_all regexp s.matchers false)

-- `RestoreSilences`.
unfoldable pub restore_silences : Regexp → Engine → ℕ → List Silence → Engine
unfolding restore_one
restore_silences regexp e now [] = e
restore_silences regexp e now (s ∷ ss) = restore_silences regexp (restore_one regexp e now s) now ss

-- `ActiveSilences`.
unfoldable pub active_silences : ℕ → GoMap String Silence → ℕ
active_silences now [] = 0
active_silences now ((id, s) ∷ m) =
    let n = active_silences now m in if state s now == "active" then suc n else n
