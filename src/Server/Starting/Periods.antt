-- ===== src/Server/Starting/Periods.antt =====
-- How often the healthcheck pings.
use cometduty.Prelude.{ℕ, ◌*◌, ◌<◌, ◌≤◌, some, ◌≡◌, refl, arith}
use cometduty.Prelude.Int.{pos, negsuc}
use cometduty.Prelude.Time.{second}
use cometduty.Server.Starting.{rate_of, healthcheck_period}

-- A rate of one up to 9223372036 is that many seconds, but a rate that is left out or negative makes
-- the first ping wait for 4659767778871345152 nanoseconds, more than 147 years.
pub healthcheck_period_lem :
    (n : ℕ)
    → 0 < n
    → n ≤ 9223372036
    → (healthcheck_period (pos n) ≡ some (n * second))
      × (healthcheck_period (pos 0) ≡ some 4659767778871345152)
      × (healthcheck_period (negsuc n) ≡ some 4659767778871345152)
unfolding healthcheck_period rate_of
healthcheck_period_lem n h k = (ground arith, refl, refl)
