-- ===== src/Monitor/Local/Mounts/Longest.antt =====
-- The mount that is found is the last of the longest.
use cometduty.Monitor.Local.Mounts.{Mount, mount_of, best_mount, covers, no_mount, mounts_of}
use cometduty.Prelude.{◌≤◌, ◌<◌, ◌≡◌, ◌⊎◌, inl, inr, refl, ap, arith, true, false, not, ◌||◌, All}
use cometduty.Prelude.{List, [], ◌∷◌, ◌++◌, String, ltb, if_cases, All-mono}
use cometduty.Prelude.Fields.{split}
use mathlib.Core.Path.{subst, sym}
use Prim.Native.String.{len}

-- `m` is the last of the longest mounts in the list that hold the path.
pub record IsLastLongest (path : String) (m : Mount) (ms : List Mount) : Type 0 where
  pub before : List Mount
  pub after : List Mount
  pub whole : ms ≡ before ++ (m ∷ after)
  pub holds : covers path m ≡ true
  pub none_longer : All (λ x. (covers path x ≡ true) → len x.point ≤ len m.point) before
  pub none_later : All (λ x. (covers path x ≡ true) → len x.point < len m.point) after

module _ (path : String) where
  -- What the search makes of a list, from the best mount so far.
  abbrev Found : Mount → List Mount → Mount → Type 0
  Found best ms r =
      ((r ≡ best) × All (λ x. (covers path x ≡ true) → len x.point < len best.point) ms)
      ⊎ (IsLastLongest path r ms × (len best.point ≤ len r.point))

  skip :
      (best m r : Mount) (ms : List Mount)
      → ((covers path m ≡ true) → len m.point < len best.point)
      → Found best ms r
      → Found best (m ∷ ms) r
  skip best m r ms h (inl (e, rest)) = inl (e, (h, rest))
  skip best m r ms h (inr (l, le)) = inr (
    record {
      before = m ∷ l.before;
      after = l.after;
      whole = ap (◌∷◌ m) l.whole;
      holds = l.holds;
      none_longer = ((λ c. let lt = h c in omega arith), l.none_longer);
      none_later = l.none_later;
    },
    le,
  )

  choose :
      (best m r : Mount) (ms : List Mount)
      → covers path m ≡ true
      → len best.point ≤ len m.point
      → Found m ms r
      → Found best (m ∷ ms) r
  choose best m r ms c le (inl (e, rest)) = inr (
      subst P (sym e) (
        record {
          before = [];
          after = ms;
          whole = refl;
          holds = c;
          none_longer = tt;
          none_later = rest;
        },
        le,
      ))
    where
      P : Mount → Type 0
      P x = IsLastLongest path x (m ∷ ms) × (len best.point ≤ len x.point)
  choose best m r ms c le (inr (l, le')) = inr (
    record {
      before = m ∷ l.before;
      after = l.after;
      whole = ap (◌∷◌ m) l.whole;
      holds = l.holds;
      none_longer = ((λ c. le'), l.none_longer);
      none_later = l.none_later;
    },
    omega arith,
  )

  search : (ms : List Mount) (best : Mount) → Found best ms (best_mount path best ms)
  unfolding best_mount
  search [] best = inl (refl, tt)
  search (m ∷ ms) best =
      if_cases (λ b. Found best (m ∷ ms) (best_mount path b ms))
        (not (covers path m) || ltb (len m.point) (len best.point))
        (λ e. skip best m _ ms (λ c. ground arith) (search ms best))
        (λ e. choose best m _ ms (ground arith) (ground arith) (search ms m))

-- `mountOf` finds nothing in a table where no mount holds the path, and otherwise the last of the
-- longest mounts that hold it.
mount_of-IsLastLongest :
    (table path : String)
    → ((mount_of table path ≡ no_mount)
        × All (λ x. covers path x ≡ false) (mounts_of (split b'\n' table)))
      ⊎ IsLastLongest path (mount_of table path) (mounts_of (split b'\n' table))
unfolding mount_of
mount_of-IsLastLongest table path = elim (search path (mounts_of (split b'\n' table)) no_mount) [
  | inl (e, none_there) ↦
      inl (e, All-mono _ (λ x. covers path x ≡ false) (λ x no. ground (arith, no)) _ none_there)
  | inr (l, le) ↦ inr l
]
