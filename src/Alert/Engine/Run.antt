-- ===== src/Alert/Engine/Run.antt =====
-- The engine's operations as calls, and runs of calls in any order. The reminders that a tick
-- sends again are kept apart from the notices of `Dispatch`.
use cometduty.Prelude.{ℕ, List, [], ◌∷◌, ◌++◌, String, ◌≡◌, refl, ◌∙◌, Option, none, some}
use cometduty.Prelude.{arith, string_eq}
use cometduty.Prelude.Maps.{GoMap, lookup, insert, member}
use cometduty.Alert.{Alert, SentEntry}
use cometduty.Alert.Silence.{Silence, Regexp, Fallible, ok, err, ◌>>=◌}
use cometduty.Alert.Engine.{Engine, Delivery, dispatch, inner}
use cometduty.Alert.Engine.Silences.{
  add_silence, accept, expire_silence, silence_tick, dispatch_all,
}
use cometduty.Alert.Engine.Silences.{release_held, release_all, release_one, expire_found}
use cometduty.Alert.Engine.Stored.{remind_tick, remind_kinds, remind_entries}
use cometduty.Alert.Engine.Dedup.{
  notices, Alternates, open_at, open_after, Paired, Paired-append, Paired-quiet,
}
use cometduty.Alert.Engine.Dedup.{dispatch-Paired}

pub data Call : Type 0 where
  dispatches : Alert → Call
  adds : String → Silence → Call
  expires : String → Call
  silence_ticks : Call
  remind_ticks : Call

-- A call that fails leaves the engine as it was.
abbrev after_add : Engine → Fallible (Engine × String) → Engine × List Delivery
after_add e (ok (e', id)) = (e', [])
after_add e (err x) = (e, [])

abbrev after_expire : Engine → Fallible (Engine × List Delivery) → Engine × List Delivery
after_expire e (ok r) = r
after_expire e (err x) = (e, [])

-- One call at a time `now`, with the notices that it sends.
pub step : Regexp → Engine → ℕ × Call → Engine × List Delivery
step regexp e (now, dispatches a) = dispatch e now a
step regexp e (now, adds fresh s) = after_add e (add_silence regexp e now fresh s)
step regexp e (now, expires id) = after_expire e (expire_silence e now id)
step regexp e (now, silence_ticks) = silence_tick e now
step regexp e (now, remind_ticks) = ((remind_tick e now).0, [])

pub run : Regexp → Engine → List (ℕ × Call) → Engine × List Delivery
run regexp e [] = (e, [])
run regexp e (c ∷ cs) =
    let (e', out) = step regexp e c in let (e'', more) = run regexp e' cs in (e'', out ++ more)

-- A reminder changes when an entry was sent, and no key.
member-remind_entries :
    (e : Engine) (now : ℕ) (kind j : String) (m : GoMap String SentEntry)
    → member j (remind_entries e now kind m).0 ≡ member j m
unfolding remind_entries lookup
member-remind_entries e now kind j [] = refl
member-remind_entries e now kind j ((k, se) ∷ m) =
    ground (arith, member-remind_entries e now kind j m)

open_at-remind_kinds :
    (e : Engine) (now : ℕ) (k j : String) (sent : GoMap String (GoMap String SentEntry))
    → member j (inner k (remind_kinds e now sent).0) ≡ member j (inner k sent)
unfolding remind_kinds lookup
open_at-remind_kinds e now k j [] = refl
open_at-remind_kinds e now k j ((kind, m) ∷ rest) =
    ground (arith, member-remind_entries e now kind j m, open_at-remind_kinds e now k j rest)

module _ (k j : String) where
  dispatch_all-Paired :
      (e : Engine) (now : ℕ) (as' : List Alert)
      → Paired k j e (dispatch_all e now as').0 (dispatch_all e now as').1
  unfolding dispatch_all
  dispatch_all-Paired e now [] = Paired-quiet k j e e refl
  dispatch_all-Paired e now (a ∷ as') =
      Paired-append k j e _ _ (dispatch e now a).1 _ (dispatch-Paired k j e now a)
        (dispatch_all-Paired (dispatch e now a).0 now as')

  sent-release_all :
      (e : Engine) (now : ℕ) (hs : List (String × Alert)) → (release_all e now hs).0.sent ≡ e.sent
  unfolding release_all release_one
  sent-release_all e now [] = refl
  sent-release_all e now (h ∷ hs) = sent-release_all (release_one e now h).0 now hs ∙ ground arith

  -- From an engine that holds the same sent alerts.
  release_held-Paired :
      (e e' : Engine) (now : ℕ)
      → e'.sent ≡ e.sent
      → Paired k j e (release_held e' now).0 (release_held e' now).1
  unfolding release_held
  release_held-Paired e e' now h =
      Paired-append k j e (release_all e' now e'.held).0 _ [] _
        (Paired-quiet k j e _ (sent-release_all e' now e'.held ∙ h)) (dispatch_all-Paired _ now _)

  stored-Paired :
      (e : Engine) (r : Fallible Silence)
      → let next =
          after_add e (r >>= λ s. ok (record e { silences = insert s.id s e.silences }, s.id)) in
        Paired k j e next.0 next.1
  stored-Paired e (ok s) = Paired-quiet k j e _ refl
  stored-Paired e (err x) = Paired-quiet k j e e refl

  expired-Paired :
      (e : Engine) (now : ℕ) (id : String) (s : Option Silence)
      → let next = after_expire e (expire_found e now id s) in Paired k j e next.0 next.1
  unfolding expire_found
  expired-Paired e now id none = Paired-quiet k j e e refl
  expired-Paired e now id (some s) = release_held-Paired e _ now refl

  remind_tick-Paired : (e : Engine) (now : ℕ) → Paired k j e (remind_tick e now).0 []
  unfolding remind_tick notices
  remind_tick-Paired e now = record {
    alternates = tt;
    tracks = ground (arith, open_at-remind_kinds e now k j e.sent);
  }

  step-Paired :
      (regexp : Regexp) (e : Engine) (c : ℕ × Call)
      → Paired k j e (step regexp e c).0 (step regexp e c).1
  unfolding step add_silence expire_silence silence_tick
  step-Paired regexp e (now, dispatches a) = dispatch-Paired k j e now a
  step-Paired regexp e (now, adds fresh s) = stored-Paired e (accept regexp now fresh s)
  step-Paired regexp e (now, expires id) = expired-Paired e now id (lookup id e.silences)
  step-Paired regexp e (now, silence_ticks) = release_held-Paired e _ now refl
  step-Paired regexp e (now, remind_ticks) = remind_tick-Paired e now

  pub run-Paired :
      (regexp : Regexp) (e : Engine) (cs : List (ℕ × Call))
      → Paired k j e (run regexp e cs).0 (run regexp e cs).1
  unfolding run
  run-Paired regexp e [] = Paired-quiet k j e e refl
  run-Paired regexp e (c ∷ cs) =
      Paired-append k j e _ _ (step regexp e c).1 _ (step-Paired regexp e c)
        (run-Paired regexp (step regexp e c).0 cs)

-- From any engine, a new one or one that was restored, over any run of calls of `Dispatch`, `AddSilence`
-- and `ExpireSilence` and of ticks of `RunSilences` and `RunReminders`, the notices that `Dispatch` sends
-- to one destination kind under one key are a raise, a resolve, a raise and so on, a resolve first where
-- an alert was open there at the start; and one is open there at the end just when the last of them was
-- a raise, or when there were none and one was open at the start.
pub run-Alternates :
    (regexp : Regexp) (e : Engine) (cs : List (ℕ × Call)) (k j : String)
    → Alternates (open_at e k j) (notices k j (run regexp e cs).1)
      × (open_at (run regexp e cs).0 k j
          ≡ open_after (open_at e k j) (notices k j (run regexp e cs).1))
run-Alternates regexp e cs k j = let p = run-Paired k j regexp e cs in (p.alternates, p.tracks)
