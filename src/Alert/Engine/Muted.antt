-- ===== src/Alert/Engine/Muted.antt =====
-- What silences promise: what is stored mutes only what it selects, and an expired one mutes nothing.
use cometduty.Prelude.{ℕ, Bool, true, false, List, [], ◌∷◌, String, ◌≡◌, refl, arith}
use cometduty.Prelude.{
  string_eq, ◌==◌, if◌then◌else◌, ltb, Bool-cases, inl, inr, ◌<◌, ◌≤◌, ◌+◌, all, not, ◌||◌, ◌&&◌,
}
use cometduty.Prelude.Maps.{GoMap}
use cometduty.Prelude.Int.{pos}
use cometduty.Prelude.Time.{longer}
use cometduty.Alert.Silence.{Silence, Matcher, Regexp, ok, matches, mutes, state}
use cometduty.Alert.Silence.{max_silence, compile, fail_if, bad_period, too_long, no_matcher}
use cometduty.Alert.Silence.{not_selective, >>=-ok}
use cometduty.Alert.Engine.Silences.{accept, compile_all, ended}
use cometduty.Alert.Engine.Silences.{is_empty, with_start}

-- The `selective` flag that comes out says whether it went in set or some matcher misses the empty
-- label set; and every matcher keeps its place.
compile_all_selective :
    (regexp : Regexp) (ms ms' : List Matcher) (f f' : Bool)
    → compile_all regexp ms f ≡ ok (ms', f')
    → f' ≡ f || not (all (λ m. matches m []) ms')
unfolding compile_all
compile_all_selective regexp [] ms' f f' h = ground arith
compile_all_selective regexp (m ∷ ms) ms' f f' h =
    let (m', e, h1) = >>=-ok (compile regexp m) _ h in
    let ((ms1, f1), e1, h2) = >>=-ok (compile_all regexp ms (f || not (matches m' []))) _ h1 in
    ground (arith, compile_all_selective regexp ms ms1 (f || not (matches m' [])) f1 e1)

accept_period :
    (regexp : Regexp) (now : ℕ) (fresh : String) (s s' : Silence)
    → accept regexp now fresh s ≡ ok s'
    → (s'.starts_at < s'.ends_at) × (now < s'.ends_at) × (s'.ends_at ≤ s'.starts_at + max_silence)
unfolding accept
accept_period regexp now fresh s s' h = ground arith

accept_matchers :
    (regexp : Regexp) (now : ℕ) (fresh : String) (s s' : Silence)
    → accept regexp now fresh s ≡ ok s'
    → (f : Bool) × (compile_all regexp s.matchers false ≡ ok (s'.matchers, f)) × (f ≡ true)
unfolding accept
accept_matchers regexp now fresh s s' h =
    let t = with_start now s in
    let c1 = not (ltb t.starts_at t.ends_at) || not (ltb now t.ends_at) in
    let c2 = longer t.ends_at t.starts_at (pos max_silence) in
    let (_, _, h1) = >>=-ok (fail_if c1 bad_period) _ h in
    let (_, _, h2) = >>=-ok (fail_if c2 too_long) _ h1 in
    let (_, _, h3) = >>=-ok (fail_if (is_empty t.matchers) no_matcher) _ h2 in
    let ((ms, f), e, h4) = >>=-ok (compile_all regexp t.matchers false) _ h3 in
    let (_, e5, h5) = >>=-ok (fail_if (not f) not_selective) _ h4 in
    (f, ground (arith, e), ground arith)

mutes_nothing :
    (s : Silence) (now : ℕ) → all (λ m. matches m []) s.matchers ≡ false → mutes s [] now ≡ false
unfolding mutes
mutes_nothing s now h = ground arith

-- Every silence that `AddSilence` accepts ends after it starts and after now, lasts at most seven
-- days, and never mutes an alert that has no label.
pub accept_lem :
    (regexp : Regexp) (now : ℕ) (fresh : String) (s s' : Silence)
    → accept regexp now fresh s ≡ ok s'
    → (s'.starts_at < s'.ends_at)
      × (now < s'.ends_at)
      × (s'.ends_at ≤ s'.starts_at + max_silence)
      × ((t : ℕ) → mutes s' [] t ≡ false)
accept_lem regexp now fresh s s' h =
    let (f, e, t) = accept_matchers regexp now fresh s s' h in
    let (starts, future, week) = accept_period regexp now fresh s s' h in
    let missed = compile_all_selective regexp s.matchers s'.matchers false f e in
    (starts, future, week, λ now'. mutes_nothing s' now' (ground (arith, missed, t)))

active_of_tests :
    (p q : Bool)
    → ◌==◌ {K = String} (if p then "pending" else if q then "active" else "expired") "active"
      ≡ (not p && q)
active_of_tests true q = refl
active_of_tests false true = refl
active_of_tests false false = refl

state-active :
    (s : Silence) (now : ℕ)
    → (state s now == "active") ≡ (not (ltb now s.starts_at) && ltb now s.ends_at)
unfolding state
state-active s now = active_of_tests (ltb now s.starts_at) (ltb now s.ends_at)

ends-ended : (s : Silence) (now : ℕ) → (ended now s).ends_at ≤ now
unfolding ended
ends-ended s now = elim (Bool-cases (ltb now s.ends_at)) [
  | inl h ↦ rw (h, ended) (omega arith)
  | inr h ↦ rw (h, ended) (ground arith)
]

mutes_over :
    (s : Silence) (labels : GoMap String String) (now : ℕ)
    → s.ends_at ≤ now
    → mutes s labels now ≡ false
unfolding mutes
mutes_over s labels now h = rw (state-active s now) (ground arith)

-- A silence that has been ended mutes nothing from then on.
mutes-ended :
    (s : Silence) (labels : GoMap String String) (now later : ℕ)
    → now ≤ later
    → mutes (ended now s) labels later ≡ false
mutes-ended s labels now later h =
    mutes_over (ended now s) labels later (omega (arith, ends-ended s now))
