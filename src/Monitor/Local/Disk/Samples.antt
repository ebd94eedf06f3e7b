-- ===== src/Monitor/Local/Disk/Samples.antt =====
-- The samples of free space that `probeFillRate` keeps.
use cometduty.Prelude.{ℕ, ◌+◌, ◌≤◌, ◌<◌, ◌≡◌, refl, ap, arith, All, List, [], ◌∷◌, ◌++◌, if_cases}
use cometduty.Prelude.{ltb, ltb→lt, sym, ◌-◌, ◌*◌}
use mathlib.Core.Path.{subst}
use cometduty.Prelude.Int.{pos, leb_ℤ}
use cometduty.Prelude.Time.{longer, minute, hour}
use cometduty.Alert.{Alert}
use cometduty.Monitor.State.{Chain, NodeState, DiskSample}
use cometduty.Monitor.Watch.{Tick, switch_cases}
use cometduty.Monitor.Local.Disk.{drop_old, probe_fill_rate, oldest_fill, watch_fill, fill_switch}

-- In time order, from `from` to `now`.
abbrev pub IsOrdered : ℕ → ℕ → List DiskSample → Type 0
IsOrdered from now [] = Unit
IsOrdered from now (s ∷ ss) = (from ≤ s.at) × (s.at ≤ now) × IsOrdered s.at now ss

abbrev pub IsFresh : ℕ → DiskSample → Type 0
IsFresh now s = now ≤ s.at + hour

-- The samples that go are older than an hour, and those that stay are not.
pub record IsTrimmed (now : ℕ) (all kept : List DiskSample) : Type 0 where
  pub dropped : List DiskSample
  pub whole : all ≡ dropped ++ kept
  pub old : All (λ s. s.at + hour < now) dropped
  pub fresh : All (IsFresh now) kept

-- Behind a fresh sample all are.
later_fresh :
    (now from : ℕ) (ss : List DiskSample)
    → IsOrdered from now ss
    → now ≤ from + hour
    → All (IsFresh now) ss
later_fresh now from [] o h = tt
later_fresh now from (s ∷ ss) (le, up, o) h = (omega arith, later_fresh now s.at ss o (omega arith))

IsOrdered-append :
    (from now : ℕ) (ss : List DiskSample) (s : DiskSample)
    → from ≤ now
    → IsOrdered from now ss
    → s.at ≡ now
    → IsOrdered from now (ss ++ (s ∷ []))
IsOrdered-append from now [] s le o e = (omega arith, omega arith, tt)
IsOrdered-append from now (x ∷ ss) s le (a, b, o) e = (a, b, IsOrdered-append x.at now ss s b o e)

trim_next :
    (now : ℕ) (x y : DiskSample) (ys : List DiskSample)
    → IsOrdered x.at now (y ∷ ys)
    → IsTrimmed now (y ∷ ys) (drop_old now (y ∷ ys))
    → IsTrimmed now (x ∷ y ∷ ys) (drop_old now (x ∷ y ∷ ys))
unfolding drop_old
trim_next now x y ys o r =
    if_cases (IsTrimmed now (x ∷ y ∷ ys)) (longer now x.at (pos hour))
      (λ e. record {
        dropped = x ∷ r.dropped;
        whole = ap (◌∷◌ x) r.whole;
        old = (ltb→lt (x.at + hour) now e, r.old);
        fresh = r.fresh;
      })
      (λ e.
        let here : now ≤ x.at + hour = ground arith in
        record {
          dropped = [];
          whole = refl;
          old = tt;
          fresh = (here, later_fresh now x.at (y ∷ ys) o here);
        })

drop_old-IsTrimmed :
    (now from : ℕ) (ss : List DiskSample) (s : DiskSample)
    → s.at ≡ now
    → IsOrdered from now (ss ++ (s ∷ []))
    → IsTrimmed now (ss ++ (s ∷ [])) (drop_old now (ss ++ (s ∷ [])))
unfolding drop_old
drop_old-IsTrimmed now from [] s e o = record {
  dropped = [];
  whole = refl;
  old = tt;
  fresh = (omega arith, tt);
}
drop_old-IsTrimmed now from (x ∷ []) s e (a, b, o) =
    trim_next now x s [] o (drop_old-IsTrimmed now x.at [] s e o)
drop_old-IsTrimmed now from (x ∷ y ∷ ss) s e (a, b, o) =
    trim_next now x y (ss ++ (s ∷ [])) o (drop_old-IsTrimmed now x.at (y ∷ ss) s e o)

-- Of ordered samples what is kept is ordered.
kept-IsOrdered :
    (from now : ℕ) (dropped kept : List DiskSample)
    → IsOrdered from now (dropped ++ kept)
    → IsOrdered 0 now kept
kept-IsOrdered from now [] [] o = tt
kept-IsOrdered from now [] (s ∷ ss) (a, b, o) = (omega arith, b, o)
kept-IsOrdered from now (x ∷ dropped) kept (a, b, o) = kept-IsOrdered x.at now dropped kept o

record HasSamples (ss : List DiskSample) (r : NodeState × List Alert) : Type 0 where
  samples : r.0.disk_samples ≡ ss

module _ (c : Chain) (t : Tick) (free : ℕ) (n : NodeState) where
  -- The alerts on the fill rate leave the samples alone.
  switched : (s : DiskSample) (x : NodeState) → HasSamples x.disk_samples (fill_switch c t free s x)
  unfolding fill_switch
  switched s x =
      switch_cases (HasSamples x.disk_samples) _ _ _ _ _ (λ u. record { samples = refl })
        (λ u v. record { samples = refl }) (λ u v. record { samples = refl })

  oldest :
      (ss : List DiskSample) (x : NodeState) → HasSamples x.disk_samples (oldest_fill c t free ss x)
  unfolding oldest_fill watch_fill
  oldest [] x = record { samples = refl }
  oldest (s ∷ ss) x =
      let kept : HasSamples x.disk_samples (x, []) = record { samples = refl } in
      if_cases (HasSamples x.disk_samples) (ltb (t.now - s.at) (15 * minute)) (λ e. kept)
        (λ e. switched s x)

  abbrev pub taken : List DiskSample
  taken = n.disk_samples ++ (record { at = t.now; free = free } ∷ [])

  kept_samples : HasSamples (drop_old t.now taken) (probe_fill_rate c t free n)
  unfolding probe_fill_rate
  kept_samples =
      if_cases (HasSamples (drop_old t.now taken))
        (leb_ℤ c.cfg.alerts.disk_fill_hours_alert (pos 0)) (λ e. record { samples = refl })
        (λ e. oldest (drop_old t.now taken) _)

  -- From samples in time order that are not of the future, `probeFillRate` keeps, with the new one,
  -- just those that are at most an hour old, in time order.
  pub probe_fill_rate-IsTrimmed :
      IsOrdered 0 t.now n.disk_samples
      → IsTrimmed t.now taken (probe_fill_rate c t free n).0.disk_samples
        × IsOrdered 0 t.now (probe_fill_rate c t free n).0.disk_samples
  probe_fill_rate-IsTrimmed o =
      let all = IsOrdered-append 0 t.now n.disk_samples _ (omega arith) o refl in
      let r = drop_old-IsTrimmed t.now 0 n.disk_samples _ refl all in
      subst (λ ss. IsTrimmed t.now taken ss × IsOrdered 0 t.now ss) (sym (kept_samples.samples))
        (r, kept-IsOrdered 0 t.now r.dropped _ (subst (IsOrdered 0 t.now) r.whole all))
