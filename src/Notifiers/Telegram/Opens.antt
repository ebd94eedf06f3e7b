-- ===== src/Notifiers/Telegram/Opens.antt =====
-- The open conditions of a card of internal/alert/notifiers/telegram.go, counted by key.
use cometduty.Prelude.{
  ℕ, zero, suc, ◌+◌, ◌≤◌, Bool, true, List, [], ◌∷◌, ◌++◌, String, none, some, ◌≡◌, refl, arith,
  if◌then◌else◌, ◌==◌, string_eq,
}
use cometduty.Notifiers.Telegram.Cards.{TgCond, is_open, open_at, update_at}
use text.Mathlib.TextEquality.{eq_iff}

abbrev pub one_if : Bool → ℕ
one_if b = if b then 1 else 0

abbrev pub opens : String → List TgCond → ℕ
opens key [] = 0
opens key (x ∷ xs) = one_if (is_open key x) + opens key xs

pub opens-append :
    (key : String) (xs ys : List TgCond) → opens key (xs ++ ys) ≡ opens key xs + opens key ys
opens-append key [] ys = omega arith
opens-append key (x ∷ xs) ys = omega (arith, opens-append key xs ys)

pub opens-none : (key : String) (xs : List TgCond) → open_at key xs ≡ none → opens key xs ≡ 0
unfolding open_at
opens-none key [] h = refl
opens-none key (x ∷ xs) h = ground (arith, opens-none key xs)

-- The open condition of a key that is found is replaced by one that is open for `j` or not.
pub opens-update :
    (key j : String) (f : TgCond → TgCond) (b : Bool)
    → ((x : TgCond) → is_open key x ≡ true → is_open j (f x) ≡ b)
    → (xs : List TgCond) (i : ℕ) → open_at key xs ≡ some i
    → opens j (update_at i f xs) + one_if (key == j) ≡ opens j xs + one_if b
unfolding open_at update_at
opens-update key j f b k [] i h = cc
opens-update key j f b k (x ∷ xs) zero h =
    ground (arith, k x, eq_iff key j, eq_iff x.key key, eq_iff x.key j)
opens-update key j f b k (x ∷ xs) (suc i) h = ground (arith, opens-update key j f b k xs i)

pub opens-some :
    (key : String) (xs : List TgCond) (i : ℕ) → open_at key xs ≡ some i → 1 ≤ opens key xs
unfolding open_at
opens-some key [] i h = cc
opens-some key (x ∷ xs) zero h = ground arith
opens-some key (x ∷ xs) (suc i) h = ground (arith, opens-some key xs i)
