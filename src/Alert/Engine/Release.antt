-- ===== src/Alert/Engine/Release.antt =====
-- The loop of `releaseHeld`: what it deletes and what it has due.
use cometduty.Prelude.{ℕ, Bool, List, [], ◌∷◌, String, ◌≡◌, refl, ◌∙◌, arith, ap}
use cometduty.Prelude.{string_eq, ◌==◌, if◌then◌else◌, none, any, not, ◌&&◌}
use cometduty.Prelude.Maps.{lookup, member, lookup-erase}
use cometduty.Alert.{Alert}
use cometduty.Alert.Silence.{mutes, label_set}
use cometduty.Alert.Engine.{Engine, silenced, inner}
use cometduty.Alert.Engine.Silences.{release_all, release_one}

pub silences-release_one :
    (e : Engine) (now : ℕ) (h : String × Alert)
    → ((release_one e now h).0.silences ≡ e.silences) × ((release_one e now h).0.active ≡ e.active)
unfolding release_one
silences-release_one e now (key, a) = ground arith

silenced-release_one :
    (e : Engine) (now : ℕ) (h : String × Alert) (a : Alert)
    → silenced (release_one e now h).0 now a ≡ silenced e now a
unfolding silenced
silenced-release_one e now h a =
    ap (any (λ s. mutes s.1 (label_set a) now)) (silences-release_one e now h).0

-- Whether an entry under the key is one that nothing mutes.
abbrev pub freed : Engine → ℕ → String → List (String × Alert) → Bool
freed e now k = any (λ h. h.0 == k && not (silenced e now h.1))

freed-release_one :
    (e : Engine) (now : ℕ) (k : String) (h : String × Alert) (hs : List (String × Alert))
    → freed (release_one e now h).0 now k hs ≡ freed e now k hs
freed-release_one e now k h [] = refl
freed-release_one e now k h (g ∷ hs) =
    ground (arith, silenced-release_one e now h g.1, freed-release_one e now k h hs)

held-release_one :
    (e : Engine) (now : ℕ) (k key : String) (a : Alert)
    → lookup k (release_one e now (key, a)).0.held
      ≡ (if key == k && not (silenced e now a) then none else lookup k e.held)
unfolding release_one
held-release_one e now k key a = ground (arith, lookup-erase key k e.held)

pub held-release_all :
    (e : Engine) (now : ℕ) (k : String) (hs : List (String × Alert))
    → lookup k (release_all e now hs).0.held ≡ (if freed e now k hs then none else lookup k e.held)
unfolding release_all
held-release_all e now k [] = refl
held-release_all e now k ((key, a) ∷ hs) = ground (
  arith,
  held-release_all (release_one e now (key, a)).0 now k hs,
  freed-release_one e now k (key, a) hs,
  held-release_one e now k key a,
)

-- The held alerts that nothing mutes and that are still open, judged by one engine throughout.
unfoldable pub due_of : Engine → ℕ → List (String × Alert) → List Alert
due_of e now [] = []
due_of e now ((key, a) ∷ hs) =
    let rest = due_of e now hs in
    if not (silenced e now a) && member key (inner a.chain e.active) then a ∷ rest else rest

due_of-release_one :
    (e : Engine) (now : ℕ) (h : String × Alert) (hs : List (String × Alert))
    → due_of (release_one e now h).0 now hs ≡ due_of e now hs
unfolding due_of
due_of-release_one e now h [] = refl
due_of-release_one e now h ((key, a) ∷ hs) = ground (
  arith,
  silenced-release_one e now h a,
  ap (λ m. member key (inner a.chain m)) (silences-release_one e now h).1,
  due_of-release_one e now h hs,
)

due-release_one :
    (e : Engine) (now : ℕ) (key : String) (a : Alert)
    → (release_one e now (key, a)).1
      ≡ (if not (silenced e now a) && member key (inner a.chain e.active) then a ∷ [] else [])
unfolding release_one
due-release_one e now key a = ground arith

-- The loop deletes from the map as it goes, and still sends what the engine before it had due.
pub release_all-due_of :
    (e : Engine) (now : ℕ) (hs : List (String × Alert)) → (release_all e now hs).1 ≡ due_of e now hs
unfolding release_all due_of
release_all-due_of e now [] = refl
release_all-due_of e now ((key, a) ∷ hs) =
    let rest =
      release_all-due_of (release_one e now (key, a)).0 now hs
      ∙ due_of-release_one e now (key, a) hs in
    ground (arith, rest, due-release_one e now key a)
