-- ===== src/Server/Api/Shown.antt =====
-- What the API shows after it has changed something.
use cometduty.Prelude.{
  ℕ, List, [], ◌∷◌, String, Option, none, some, ◌≡◌, refl, sym, ap, ◌∙◌, ◌≤◌, arith,
}
use cometduty.Prelude.{true, false, if_cases, if◌then◌else◌, string_eq, ltb}
use cometduty.Prelude.Maps.{GoMap, lookup, insert, IsMap, lookup-insert_self}
use mathlib.Core.Path.{subst}
use cometduty.Prelude.Tried.{done}
use cometduty.Alert.Silence.{Silence, Regexp, Fallible, err, ok, ◌>>=◌, state}
use cometduty.Alert.Engine.{Engine, Delivery}
use cometduty.Alert.Engine.Silences.{accept, add_silence, ended, expire_found, expire_silence}
use cometduty.Server.Api.{
  created, deleted, shown, post_silence, get_silence, delete_silence, handle, view, get_response,
  added, expired, ApiResponse, not_found,
}
use cometduty.Server.Api.Kept.{
  AreKeyed, insert-AreKeyed, insert-IsMap, find-newest_first, release_held-silences,
}
use cometduty.Server.Api.Purged.{ticks, ticks-silences, unpurged, is_purged}

-- What a GET of one silence gives.
get-lookup :
    (regexp : Regexp) (e : Engine) (now : ℕ) (fresh id : String)
    → IsMap e.silences
    → AreKeyed e.silences
    → handle regexp e now fresh (get_silence id)
      ≡ (e, get_response now id (lookup id e.silences), [])
unfolding handle
get-lookup regexp e now fresh id h k =
    ap (λ o. (e, get_response now id o, [])) (find-newest_first id e.silences h k)

-- What a GET gives after ticks of `RunSilences`.
get-ticks :
    (regexp : Regexp) (e : Engine) (times : List ℕ) (later : ℕ) (fresh id : String)
    → IsMap e.silences
    → AreKeyed e.silences
    → (handle regexp (ticks e times) later fresh (get_silence id)).1
      ≡ get_response later id (unpurged times (lookup id e.silences))
get-ticks regexp e times later fresh id h k =
    let (map, keyed, found) = ticks-silences e times id h k in
    ap (λ r. r.1) (get-lookup regexp (ticks e times) later fresh id map keyed)
    ∙ ap (get_response later id) found

-- Gone once a tick found the silence over for more than a day, and else shown as it is then.
abbrev pub answer : List ℕ → ℕ → String → Silence → ApiResponse
answer times later id s = if is_purged times s then not_found id else shown (view later s)

answer-unpurged :
    (times : List ℕ) (later : ℕ) (id : String) (s : Silence)
    → get_response later id (unpurged times (some s)) ≡ answer times later id s
answer-unpurged times later id s =
    elim (is_purged times s)
      as (λ b.
        get_response later id (if b then none else some s)
        ≡ (if b then not_found id else shown (view later s))) [ true ↦ refl | false ↦ refl ]

-- A GET of a silence that was stored, after ticks.
get-stored :
    (regexp : Regexp) (e : Engine) (s : Silence) (times : List ℕ) (later : ℕ) (fresh id : String)
    → IsMap e.silences
    → AreKeyed e.silences
    → lookup id e.silences ≡ some s
    → (handle regexp (ticks e times) later fresh (get_silence id)).1 ≡ answer times later id s
get-stored regexp e s times later fresh id h k o =
    get-ticks regexp e times later fresh id h k
    ∙ ap (λ p. get_response later id (unpurged times p)) o
    ∙ answer-unpurged times later id s

abbrev storing : Engine → Silence → Engine
storing e s = record e { silences = insert s.id s e.silences }

-- What was stored where adding it succeeded.
added-created :
    (e e' : Engine) (id : String) (out : List Delivery) (r : Fallible Silence)
    → added e (r >>= λ t. ok (storing e t, t.id)) ≡ (e', created id, out)
    → (t : Silence) × (r ≡ ok t) × (e' ≡ storing e t) × (id ≡ t.id)
added-created e e' id out (err x) h = cc
added-created e e' id out (ok t) h = (t, refl, ap (λ r. r.0) (sym h), cc)

pub handle-posted :
    (regexp : Regexp) (e e' : Engine) (now later : ℕ) (times : List ℕ) (fresh fresh' id : String)
    (s : Silence) (out : List Delivery)
    → IsMap e.silences
    → AreKeyed e.silences
    → handle regexp e now fresh (post_silence (done s)) ≡ (e', created id, out)
    → (t : Silence) × (accept regexp now fresh s ≡ ok t)
      × ((handle regexp (ticks e' times) later fresh' (get_silence id)).1 ≡ answer times later id t)
unfolding handle add_silence
handle-posted regexp e e' now later times fresh fresh' id s out m k h =
    let (t, a, same, name) = added-created e e' id out (accept regexp now fresh s) h in
    let stored =
      get-stored regexp (storing e t) t times later fresh' t.id (insert-IsMap t t.id e.silences m)
        (insert-AreKeyed t t.id e.silences refl k) (lookup-insert_self t.id t e.silences) in
    (
      t,
      a,
      subst
          (λ f.
            (handle regexp (ticks f times) later fresh' (get_silence id)).1
            ≡ answer times later id t)
          (sym same)
          (subst
            (λ i.
              (handle regexp (ticks (storing e t) times) later fresh' (get_silence i)).1
              ≡ answer times later i t)
            (sym name) stored),
    )

-- The state of a silence that has been ended.
state-ended :
    (s : Silence) (now later : ℕ)
    → now ≤ later
    → state (ended now s) later ≡ (if ltb later s.starts_at then "pending" else "expired")
unfolding state ended
state-ended s now later h = ground arith

ended-id : (s : Silence) (now : ℕ) → (ended now s).id ≡ s.id
unfolding ended
ended-id s now = if_cases (λ (t : Silence). t.id ≡ s.id) (ltb now s.ends_at) (λ e. refl) (λ e. refl)

lookup-id :
    (id : String) (m : GoMap String Silence) (s : Silence)
    → AreKeyed m
    → lookup id m ≡ some s
    → s.id ≡ id
unfolding lookup
lookup-id id [] s k h = cc
lookup-id id ((j, t) ∷ m) s k h = ground (arith, string_eq.beq_iff j id, lookup-id id m s k.1, k.0)

expired-found :
    (e e' : Engine) (now : ℕ) (id : String) (out : List Delivery) (o : Option Silence)
    → expired e id (expire_found e now id o) ≡ (e', deleted, out)
    → (s : Silence) × (o ≡ some s) × (e'.silences ≡ insert id (ended now s) e.silences)
unfolding expire_found
expired-found e e' now id out none h = cc
expired-found e e' now id out (some s) h =
    (s, refl, ap (λ r. r.0.silences) (sym h) ∙ release_held-silences _ now)

pub handle-deleted :
    (regexp : Regexp) (e e' : Engine) (now later : ℕ) (times : List ℕ) (fresh fresh' id : String)
    (out : List Delivery)
    → IsMap e.silences
    → AreKeyed e.silences
    → now ≤ later
    → handle regexp e now fresh (delete_silence id) ≡ (e', deleted, out)
    → (s : Silence) × (lookup id e.silences ≡ some s)
      × ((handle regexp (ticks e' times) later fresh' (get_silence id)).1
          ≡ answer times later id (ended now s))
      × (state (ended now s) later ≡ (if ltb later s.starts_at then "pending" else "expired"))
unfolding handle expire_silence
handle-deleted regexp e e' now later times fresh fresh' id out m k l h =
    let (s, o, same) = expired-found e e' now id out (lookup id e.silences) h in
    let name = ended-id s now ∙ lookup-id id e.silences s k o in
    (
      s,
      o,
      get-stored regexp e' (ended now s) times later fresh' id
          (subst IsMap (sym same) (insert-IsMap (ended now s) id e.silences m))
          (subst AreKeyed (sym same) (insert-AreKeyed (ended now s) id e.silences name k))
          (ap (lookup id) same ∙ lookup-insert_self id (ended now s) e.silences),
      state-ended s now later l,
    )
