-- ===== src/Prelude/Tried.antt =====
-- A value, or the text of the error that was returned in its place.
use mathlib.Core.Bool.{Bool, true, false}
use mathlib.Core.Path.{◌≡◌, refl}
use Prim.Native.String.{String}

pub data Tried {ℓ} (A : Type ℓ) : Type ℓ where
  failed : String → Tried A
  done : A → Tried A

infixl 5 ◌>>=◌
abbrev pub ◌>>=◌ {ℓ κ} : {A : Type ℓ} {B : Type κ} → Tried A → (A → Tried B) → Tried B
failed e >>= next = failed e
done a >>= next = next a

-- A failure is told with what was tried.
abbrev pub wrapped {ℓ} : {A : Type ℓ} → (String → String) → Tried A → Tried A
wrapped f (failed e) = failed (f e)
wrapped f (done a) = done a

abbrev pub is_done {ℓ} : {A : Type ℓ} → Tried A → Bool
is_done (failed e) = false
is_done (done a) = true

-- What came before a success succeeded.
pub >>=-done {ℓ κ} :
    {A : Type ℓ} {B : Type κ} (t : Tried A) (next : A → Tried B) {b : B}
    → (t >>= next) ≡ done b
    → (a : A) × (t ≡ done a) × (next a ≡ done b)
>>=-done (failed e) next h = cc
>>=-done (done a) next h = (a, refl, h)
