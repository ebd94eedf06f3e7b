-- ===== src/Monitor/Sign/Votes.antt =====
-- The vote tracker: votes may come in any order, before or after their block, and count for their
-- own height only.
use cometduty.Prelude.{List, [], ◌∷◌, Option, none, some, ◌≡◌, refl, sym, ◌∙◌}
use cometduty.Prelude.{arith, ap, ◌≢◌, ◌==◌, if◌then◌else◌}
use cometduty.Prelude.Int.{ℤ, int_eq, leb_ℤ}
use cometduty.Prelude.Maps.{GoMap, lookup, or_zero, lookup-insert}
use cometduty.Monitor.Sign.{SignState, missed, unknown}
use cometduty.Monitor.Sign.{sign_value, beats, VoteTracker, observe, prune, resolve, better}
use cometduty.Monitor.Sign.{new_vote_tracker}
use mathlib.Core.List.{Perm, Permᴰ}
use mathlib.Core.Logic.{∥∥₁_elim}
use mathlib.Core.Path.{ap₂}

-- The further of two sign states.
abbrev pub join : SignState → SignState → SignState
join a b = if beats b a then b else a

join_swap : (a b c : SignState) → join (join a b) c ≡ join (join a c) b
unfolding sign_value
join_swap a b c = ground arith

-- One vote, by a validator, as it bears on one height.
abbrev pub with_vote : ℤ → SignState → ℤ × SignState → SignState
with_vote h b (g, s) = if g == h then join b s else b

-- The furthest of a first state and the votes for a height.
unfoldable pub seen : ℤ → SignState → List (ℤ × SignState) → SignState
seen h b [] = b
seen h b (v ∷ vs) = seen h (with_vote h b v) vs

unfoldable pub observe_all : VoteTracker → List (ℤ × SignState) → VoteTracker
observe_all vt [] = vt
observe_all vt ((h, s) ∷ vs) = observe_all (observe vt h s) vs

abbrev best : VoteTracker → ℤ → SignState
best vt h = or_zero (lookup h vt.pending) missed

lookup-observe :
    (vt : VoteTracker) (g h : ℤ) (s : SignState)
    → g ≢ h
    → lookup h (observe vt g s).pending ≡ lookup h vt.pending
unfolding observe
lookup-observe vt g h s d = ground (arith, lookup-insert g h s vt.pending, int_eq.beq_iff g h)

best-observe :
    (vt : VoteTracker) (g h : ℤ) (s : SignState)
    → best (observe vt g s) h ≡ (if g == h then join (best vt h) s else best vt h)
unfolding observe
best-observe vt g h s = ground (arith, lookup-insert g h s vt.pending, int_eq.beq_iff g h)

best-observe_all :
    (vt : VoteTracker) (h : ℤ) (vs : List (ℤ × SignState))
    → best (observe_all vt vs) h ≡ seen h (best vt h) vs
unfolding observe_all seen
best-observe_all vt h [] = refl
best-observe_all vt h ((g, s) ∷ vs) =
    best-observe_all (observe vt g s) h vs ∙ ap (λ b. seen h b vs) (best-observe vt g h s)

better-join :
    (says : SignState) (o : Option SignState)
    → says ≢ unknown
    → better says o ≡ join says (or_zero o missed)
unfolding sign_value
better-join says none k = ground arith
better-join says (some v) k = refl

-- What the tracker says of a height, when the block gave its own word for it.
resolve-best :
    (vt : VoteTracker) (h : ℤ) (says : SignState)
    → says ≢ unknown
    → (resolve vt h says).1 ≡ join says (best vt h)
unfolding resolve
resolve-best vt h says k = better-join says (lookup h vt.pending) k

with_vote_swap :
    (h : ℤ) (b : SignState) (v w : ℤ × SignState)
    → with_vote h (with_vote h b v) w ≡ with_vote h (with_vote h b w) v
with_vote_swap h b (g, s) (k, t) = ground (arith, join_swap b s t)

seen-Permᴰ :
    (h : ℤ) {vs ws : List (ℤ × SignState)}
    → Permᴰ vs ws
    → (b : SignState) → seen h b vs ≡ seen h b ws
unfolding seen
seen-Permᴰ h Permᴰ.nil b = refl
seen-Permᴰ h (Permᴰ.cons {a = v} {l₁ = vs} {l₂ = ws} e p) b =
    seen-Permᴰ h p (with_vote h b v) ∙ ap (λ u. seen h (with_vote h b u) ws) e
seen-Permᴰ h (Permᴰ.swap {a = v} {b = w} {l = l} e f) b =
    ap (λ x. seen h x l) (with_vote_swap h b v w)
    ∙ ap₂ (λ x y. seen h (with_vote h (with_vote h b x) y) l) f e
seen-Permᴰ h (Permᴰ.trans p q) b = seen-Permᴰ h p b ∙ seen-Permᴰ h q b

SignState-set : IsSet SignState
SignState-set = hlevel

-- Whatever votes a tracker has been shown, it classifies a height by the furthest of the block's own
-- word and the votes for that very height, and the votes' order does not matter.
pub resolve-observe_all :
    (vs ws : List (ℤ × SignState)) (h : ℤ) (says : SignState)
    → says ≢ unknown
    → Perm vs ws
    → ((resolve (observe_all new_vote_tracker vs) h says).1 ≡ join says (seen h missed vs))
      × ((resolve (observe_all new_vote_tracker vs) h says).1
          ≡ (resolve (observe_all new_vote_tracker ws) h says).1)
unfolding new_vote_tracker lookup
resolve-observe_all vs ws h says k p = (from vs, from vs ∙ ap (join says) same ∙ sym (from ws))
  where
    from :
        (us : List (ℤ × SignState))
        → (resolve (observe_all new_vote_tracker us) h says).1 ≡ join says (seen h missed us)
    from us =
        resolve-best (observe_all new_vote_tracker us) h says k
        ∙ ap (join says) (best-observe_all new_vote_tracker h us)

    same : seen h missed vs ≡ seen h missed ws
    same = ∥∥₁_elim p (SignState-set _ _) (λ q. seen-Permᴰ h q missed)

lookup-prune :
    (h k : ℤ) (m : GoMap ℤ SignState)
    → lookup k (prune h m) ≡ (if leb_ℤ k h then none else lookup k m)
unfolding lookup prune
lookup-prune h k [] = ground arith
lookup-prune h k ((g, s) ∷ m) = ground (arith, lookup-prune h k m, int_eq.beq_iff g k)

-- A vote for another height, early or late, changes no classification; and once a height is
-- resolved, what was seen at or below it is gone and what was seen above it is kept.
resolve_separate :
    (vt : VoteTracker) (g h k : ℤ) (s says : SignState)
    → g ≢ h
    → ((resolve (observe vt g s) h says).1 ≡ (resolve vt h says).1)
      × (lookup k (resolve vt h says).0.pending ≡ (if leb_ℤ k h then none else lookup k vt.pending))
unfolding resolve
resolve_separate vt g h k s says d =
    (ap (better says) (lookup-observe vt g h s d), lookup-prune h k vt.pending)
