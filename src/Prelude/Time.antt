-- ===== src/Prelude/Time.antt =====
-- `time.Time` as the nanoseconds since Go's zero time, and durations as nanoseconds.
use Prim.Native.Nat.{ℕ, suc, ◌+◌, ◌-◌, ◌*◌}
use cometduty.Prelude.Int.{ℤ, pos, negsuc}
use cometduty.Prelude.Tests.{ltb, eqb}
use mathlib.Core.Bool.{Bool}

abbrev pub second : ℕ
second = 1_000_000_000

abbrev pub minute : ℕ
minute = 60 * second

abbrev pub hour : ℕ
hour = 60 * minute

abbrev pub is_zero : ℕ → Bool
is_zero t = eqb t 0

-- `time.Duration(n) * time.Minute`.
abbrev pub minutes : ℤ → ℤ
minutes (pos n) = pos (n * minute)
minutes (negsuc n) = negsuc (n * minute + (minute - 1))

-- `now.Sub(from) > d`. The difference is signed, and is not cut off at 292 years.
abbrev pub longer : ℕ → ℕ → ℤ → Bool
longer now from (pos d) = ltb (from + d) now
longer now from (negsuc d) = ltb from (now + suc d)
