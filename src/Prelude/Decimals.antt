-- ===== src/Prelude/Decimals.antt =====
-- Decimal fractions, as `fmt` prints them by `%.1f` and `%.2f`: the nearest one, and of two as near
-- the even one. The fraction is exact, where the program has a float64.
use Prim.Native.Nat.{ℕ, suc, ◌+◌, ◌*◌, ◌/◌, ◌%◌}
use Prim.Native.String.{String, ◌++◌ as ◌<>◌}
use cometduty.Prelude.Tests.{ltb, if◌then◌else◌}
use cometduty.Prelude.Text.{show}

unfoldable pub nearest : ℕ → ℕ → ℕ
nearest n d =
    let q = n / d in
    let r = n % d in if ltb (2 * r) d then q else if ltb d (2 * r) then suc q else q + q % 2

unfoldable pub one_place : ℕ → ℕ → String
unfolding nearest
one_place n d = let t = nearest (10 * n) d in show (t / 10) <> ("." <> show (t % 10))

unfoldable pub two_places : ℕ → ℕ → String
unfolding nearest
two_places n d =
    let t = nearest (100 * n) d in show (t / 100) <> ("." <> (show (t / 10 % 10) <> show (t % 10)))
