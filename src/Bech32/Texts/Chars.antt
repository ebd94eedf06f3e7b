-- ===== src/Bech32/Texts/Chars.antt =====
-- internal/bech32/bech32.go: the characters of an encoded text, one by one.
use cometduty.Bech32.{
  charset, char_at, charset_rev, rev_from, is_bad_char, same_text, last_index, data_of, add_char,
  ok,
}
use cometduty.Prelude.{ℕ, zero, suc, ◌<◌, ◌≡◌, refl, ap, arith, Bool, true, false, not, ◌&&◌, eqb}
use cometduty.Prelude.{List, [], ◌∷◌, ◌++◌, All, length, map, Option, some, none}
use cometduty.Prelude.{eqb_iff}
use cometduty.Prelude.Text.{lower}

-- What the table says of the character of one group, by evaluation.
is_some_of : Option ℕ → ℕ → Bool
is_some_of none b = false
is_some_of (some i) b = eqb i b

is_some_of→eq : (o : Option ℕ) (b : ℕ) → is_some_of o b ≡ true → o ≡ some b
unfolding is_some_of
is_some_of→eq none b h = cc
is_some_of→eq (some i) b h = ap some ((eqb_iff i b).0 h)

all_below : ℕ → (ℕ → Bool) → Bool
all_below zero p = true
all_below (suc n) p = p n && all_below n p

all_below→eq : (n : ℕ) (p : ℕ → Bool) (x : ℕ) → all_below n p ≡ true → x < n → p x ≡ true
unfolding all_below
all_below→eq zero p x h lt = absurd (omega arith)
all_below→eq (suc n) p x h lt = ground (arith, all_below→eq n p x)

pub charset_rev-char_at : (b : ℕ) → b < 32 → charset_rev (char_at charset b) ≡ some b
unfolding charset_rev char_at rev_from all_below is_some_of
charset_rev-char_at b h =
    is_some_of→eq _ b
      (all_below→eq 32 (λ x. is_some_of (charset_rev (char_at charset x)) x) b refl h)

pub char_at-no_separator : (b : ℕ) → b < 32 → eqb (char_at charset b) b'1' ≡ false
unfolding char_at all_below
char_at-no_separator b h =
    let table = all_below→eq 32 (λ x. not (eqb (char_at charset x) b'1')) b refl h in
    ground (arith, table)

pub lower-char_at : (b : ℕ) → b < 32 → lower (char_at charset b) ≡ char_at charset b
unfolding char_at all_below
lower-char_at b h =
    (eqb_iff _ _).0
      (all_below→eq 32 (λ x. eqb (lower (char_at charset x)) (char_at charset x)) b refl h)

pub lower-lower : (c : ℕ) → lower (lower c) ≡ lower c
lower-lower c = ground arith

pub is_bad_char-lower : (c : ℕ) → is_bad_char c ≡ false → is_bad_char (lower c) ≡ false
is_bad_char-lower c h = ground arith

pub is_bad_char-bound : (c : ℕ) → is_bad_char c ≡ false → c < 256
is_bad_char-bound c h = ground arith

pub same_text_refl : (s : List ℕ) → same_text s s ≡ true
unfolding same_text
same_text_refl [] = refl
same_text_refl (c ∷ s) = ground (arith, same_text_refl s)

-- The separator is the last one, where none comes after it.
pub last_index-none : (cs : List ℕ) → All (λ c. eqb c b'1' ≡ false) cs → last_index cs b'1' ≡ none
unfolding last_index
last_index-none [] h = refl
last_index-none (c ∷ cs) (hc, h) = rw (last_index-none cs h, hc) refl

pub last_index-append :
    (low cs : List ℕ)
    → All (λ c. eqb c b'1' ≡ false) cs
    → last_index (low ++ (b'1' ∷ cs)) b'1' ≡ some (length low)
unfolding last_index
last_index-append [] cs h = rw (last_index-none cs h) refl
last_index-append (c ∷ low) cs h = rw (last_index-append low cs h) refl

-- The characters of groups are read as those groups.
pub data_of-char_at :
    (bs : List ℕ) → All (λ b. b < 32) bs → data_of (map (char_at charset) bs) ≡ ok bs
unfolding data_of add_char
data_of-char_at [] h = refl
data_of-char_at (b ∷ bs) (hb, h) = rw (charset_rev-char_at b hb, data_of-char_at bs h) refl
