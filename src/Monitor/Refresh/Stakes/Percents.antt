-- ===== src/Monitor/Refresh/Stakes/Percents.antt =====
-- The percentage by which a stake moved.
use cometduty.Prelude.{
  ℕ, suc, ◌+◌, ◌*◌, ◌/◌, ◌%◌, ◌^◌, ◌≤◌, ◌<◌, ◌≡◌, ◌∙◌, arith, String, some, if_false, eqb,
}
use cometduty.Prelude.Int.{ℤ, pos, ◌-ℤ◌}
use cometduty.Monitor.Refresh.Stakes.{stake_delta_pct, percent_moved, quotient, parse_big, size}
use native.Mathlib.Nat.{div-add-mod}
use mathlib.Core.Path.{ap₂}
use cometduty.Wire.{as_int}

fits_int : (k : ℕ) → k < 2 ^ 63 → as_int (k % 2 ^ 64) ≡ pos k
fits_int k h = ground arith

floor_bounds :
    (q r d b : ℕ) → b * q + r ≡ d * 100 → r < b → (q * b ≤ 100 * d) × (100 * d < suc q * b)
floor_bounds q r d b h lt = (grind arith, grind arith)

-- For a stake above 0 `stakeDeltaPct` is the whole part of a hundred times the move over the old
-- stake, as long as that is below 2 ^ 63.
stake_delta_pct-floor :
    (old new : String) (o : ℕ) (n : ℤ)
    → parse_big old ≡ some (pos (suc o))
    → parse_big new ≡ some n
    → size (n -ℤ pos (suc o)) * 100 / suc o < 2 ^ 63
    → (q : ℕ) × (stake_delta_pct old new ≡ pos q)
      × (q * suc o ≤ 100 * size (n -ℤ pos (suc o)))
      × (100 * size (n -ℤ pos (suc o)) < suc q * suc o)
unfolding stake_delta_pct percent_moved quotient
stake_delta_pct-floor old new o n ho hn fits =
    let d = size (n -ℤ pos (suc o)) in
    let q = d * 100 / suc o in
    let (low, high) =
      floor_bounds q (d * 100 % suc o) d (suc o) (div-add-mod (d * 100) (suc o)) (omega arith) in
    (
      q,
      ap₂ percent_moved ho hn
          ∙ if_false (pos 0) (eqb (suc o + 0) 0) (ground arith)
          ∙ fits_int q fits,
      low,
      high,
    )
