-- ===== src/Logs/Windows.antt =====
-- When a rule fires, over a run of hits.
use cometduty.Prelude.{ℕ, suc, true, false, List, [], ◌∷◌, ◌++◌, ◌≡◌, ◌≤◌, refl, arith}
use cometduty.Prelude.{length, length-append, if◌then◌else◌, ◌+◌, ◌∙◌, ap, sym, ◌⊎◌, if_cases}
use mathlib.Core.Path.{subst}
use cometduty.Prelude.Int.{ℤ, pos, ◌≤ℤ◌}
use cometduty.Prelude.Time.{longer}
use cometduty.Logs.{Rule, recent_hits, cooling, match}

match-fires :
    (r : Rule) (now : ℕ)
    → (match r now).1 ≡ true
    → (r.count ≤ℤ pos (length (recent_hits now r.window (r.hits ++ (now ∷ [])))))
      × (cooling now r ≡ false)
unfolding match
match-fires r now h = ground arith

-- What a hit leaves as it was, and what it keeps.
match_keeps :
    (r : Rule) (now : ℕ)
    → ((match r now).0.window ≡ r.window)
      × ((match r now).0.count ≡ r.count)
      × ((match r now).0.cooldown ≡ r.cooldown)
      × ((match r now).0.hits ≡ recent_hits now r.window (r.hits ++ (now ∷ [])))
      × ((match r now).0.last_alert ≡ (if (match r now).1 then now else r.last_alert))
unfolding match
match_keeps r now = ground arith

recent_hits-append :
    (now : ℕ) (w : ℤ) (xs ys : List ℕ)
    → recent_hits now w (xs ++ ys) ≡ recent_hits now w xs ++ recent_hits now w ys
unfolding recent_hits
recent_hits-append now w [] ys = refl
recent_hits-append now w (x ∷ xs) ys = ground (arith, recent_hits-append now w xs ys)

longer_later :
    (now later t : ℕ) (w : ℤ) → now ≤ later → longer now t w ≡ true → longer later t w ≡ true
longer_later now later t (pos d) h k = ground arith
longer_later now later t (ℤ.negsuc d) h k = ground arith

-- What was dropped stays dropped.
recent_hits-recent_hits :
    (now later : ℕ) (w : ℤ) (xs : List ℕ)
    → now ≤ later
    → recent_hits later w (recent_hits now w xs) ≡ recent_hits later w xs
unfolding recent_hits
recent_hits-recent_hits now later w [] h = refl
recent_hits-recent_hits now later w (x ∷ xs) h =
    ground (arith, recent_hits-recent_hits now later w xs h, longer_later now later x w h)

-- The rule after hits at the times of a list, the latest first, and the times at which it fired.
unfoldable pub after_hits : Rule → List ℕ → Rule
after_hits r [] = r
after_hits r (t ∷ ts) = (match (after_hits r ts) t).0

unfoldable pub fired_at : Rule → List ℕ → List ℕ
fired_at r [] = []
fired_at r (t ∷ ts) =
    let before = fired_at r ts in if (match (after_hits r ts) t).1 then t ∷ before else before

-- Times, the latest first, none of them later than `now`.
unfoldable pub IsPast : ℕ → List ℕ → Type 0
IsPast now [] = Unit
IsPast now (t ∷ ts) = (t ≤ now) × IsPast t ts

after_hits_keeps :
    (r : Rule) (ts : List ℕ)
    → ((after_hits r ts).window ≡ r.window)
      × ((after_hits r ts).count ≡ r.count)
      × ((after_hits r ts).cooldown ≡ r.cooldown)
unfolding after_hits
after_hits_keeps r [] = (refl, refl, refl)
after_hits_keeps r (t ∷ ts) =
    let (w, n, c, _, _) = match_keeps (after_hits r ts) t in
    let (w', n', c') = after_hits_keeps r ts in (w ∙ w', n ∙ n', c ∙ c')

IsPast-later : (now later : ℕ) (ts : List ℕ) → now ≤ later → IsPast now ts → IsPast later ts
unfolding IsPast
IsPast-later now later [] h p = tt
IsPast-later now later (t ∷ ts) h p = (omega (arith, p.0), p.1)

-- The hits that a rule has after a hit at `t`, as they bear on a later time.
recent_hits-match :
    (r : Rule) (t now : ℕ) (w : ℤ)
    → r.window ≡ w
    → t ≤ now
    → recent_hits now w (match r t).0.hits ≡ recent_hits now w r.hits ++ recent_hits now w (t ∷ [])
recent_hits-match r t now w h le =
    let (_, _, _, hits, _) = match_keeps r t in
    ap (recent_hits now w) (hits ∙ ap (λ v. recent_hits t v (r.hits ++ (t ∷ []))) h)
    ∙ recent_hits-recent_hits t now w (r.hits ++ (t ∷ [])) le
    ∙ recent_hits-append now w r.hits (t ∷ [])

recent_hits_first :
    (now t : ℕ) (w : ℤ) (ts : List ℕ)
    → length (recent_hits now w (t ∷ ts))
      ≡ length (recent_hits now w ts) + length (recent_hits now w (t ∷ []))
unfolding recent_hits
recent_hits_first now t w ts = ground arith

-- The rule has kept as many recent hits as there were.
recent_hits-after_hits :
    (r : Rule) (ts : List ℕ) (now : ℕ)
    → r.hits ≡ []
    → IsPast now ts
    → length (recent_hits now r.window (after_hits r ts).hits)
      ≡ length (recent_hits now r.window ts)
unfolding after_hits IsPast
recent_hits-after_hits r [] now h p = ap (λ xs. length (recent_hits now r.window xs)) h
recent_hits-after_hits r (t ∷ ts) now h p =
    let w = r.window in
    ap length (recent_hits-match (after_hits r ts) t now w (after_hits_keeps r ts).0 p.0)
    ∙ length-append (recent_hits now w (after_hits r ts).hits) _
    ∙ ap (λ k. k + length (recent_hits now w (t ∷ [])))
        (recent_hits-after_hits r ts now h (IsPast-later t now ts p.0 p.1))
    ∙ sym (recent_hits_first now t w ts)

-- A time and the times before it, the latest first: each is `d` or more after the one before, unless
-- that one is the zero time.
unfoldable pub IsSpaced : ℤ → List ℕ → Type 0
IsSpaced d [] = Unit
IsSpaced d (t ∷ []) = Unit
IsSpaced d (t ∷ s ∷ ts) = ((s ≡ 0) ⊎ (longer (suc t) s d ≡ true)) × IsSpaced d (s ∷ ts)

unfoldable pub last_of : List ℕ → ℕ
last_of [] = 0
last_of (t ∷ ts) = t

last_alert-after_hits :
    (r : Rule) (ts : List ℕ)
    → r.last_alert ≡ 0
    → (after_hits r ts).last_alert ≡ last_of (fired_at r ts)
unfolding after_hits fired_at last_of
last_alert-after_hits r [] h = h
last_alert-after_hits r (t ∷ ts) h =
    let (_, _, _, _, last) = match_keeps (after_hits r ts) t in
    ground (arith, last, last_alert-after_hits r ts h)

IsSpaced-next :
    (d : ℤ) (t : ℕ) (ts : List ℕ)
    → (last_of ts ≡ 0) ⊎ (longer (suc t) (last_of ts) d ≡ true)
    → IsSpaced d ts
    → IsSpaced d (t ∷ ts)
unfolding IsSpaced last_of
IsSpaced-next d t [] h p = tt
IsSpaced-next d t (s ∷ ts) h p = (h, p)

not_cooling :
    (r : Rule) (t : ℕ)
    → cooling t r ≡ false
    → (r.last_alert ≡ 0) ⊎ (longer (suc t) r.last_alert r.cooldown ≡ true)
unfolding cooling
not_cooling r t h = ground arith

-- A rule that never fired fires at times that are a cooldown or more apart, whatever hits come, but
-- for a time that follows the zero time.
fired_at-IsSpaced :
    (r : Rule) (ts : List ℕ) → r.last_alert ≡ 0 → IsSpaced r.cooldown (fired_at r ts)
unfolding fired_at IsSpaced
fired_at-IsSpaced r [] h = tt
fired_at-IsSpaced r (t ∷ ts) h =
    let b = after_hits r ts in
    if_cases (IsSpaced r.cooldown) (match b t).1
      (λ e.
        IsSpaced-next r.cooldown t (fired_at r ts)
          (subst (λ l. (l ≡ 0) ⊎ (longer (suc t) l r.cooldown ≡ true))
            (last_alert-after_hits r ts h)
            (subst (λ d. (b.last_alert ≡ 0) ⊎ (longer (suc t) b.last_alert d ≡ true))
              (after_hits_keeps r ts).2 (not_cooling b t (match-fires b t e).1)))
          (fired_at-IsSpaced r ts h))
      (λ e. fired_at-IsSpaced r ts h)

-- A rule without hits fires only at a hit that has, with those before it, as many hits in its
-- window as its count asks for, when the times do not run backwards.
match-after_hits :
    (r : Rule) (t : ℕ) (ts : List ℕ)
    → r.hits ≡ []
    → IsPast t ts
    → (match (after_hits r ts) t).1 ≡ true
    → r.count ≤ℤ pos (length (recent_hits t r.window (t ∷ ts)))
match-after_hits r t ts h p e =
    let b = after_hits r ts in
    let (w, n, _) = after_hits_keeps r ts in
    let kept =
      ap (λ v. length (recent_hits t v (b.hits ++ (t ∷ [])))) w
      ∙ ap length (recent_hits-append t r.window b.hits (t ∷ []))
      ∙ length-append (recent_hits t r.window b.hits) _
      ∙ ap (λ k. k + length (recent_hits t r.window (t ∷ []))) (recent_hits-after_hits r ts t h p)
      ∙ sym (recent_hits_first t t r.window ts) in
    subst (λ c. c ≤ℤ pos (length (recent_hits t r.window (t ∷ ts)))) n
      (subst (λ k. b.count ≤ℤ pos k) kept (match-fires b t e).0)
