-- ===== src/Prelude/Ascii.antt =====
-- ASCII texts as bytes and back.
use Prim.Native.Char.{code}
use Prim.Native.Nat.{ℕ, ◌-◌}
use Prim.Native.String.{String, char_at}
use mathlib.Core.List.{List, [], ◌∷◌}

unfoldable pub bytes_of : String → List ℕ
bytes_of String.[] = []
bytes_of (String.◌∷◌ a s) = code a ∷ bytes_of s

-- The characters from the space on.
abbrev printable : String
printable =
    " !\"#$%&'()*+,-./0123456789:;<=>?@ABCDEFGHIJKLMNOPQRSTUVWXYZ[\\]^_`abcdefghijklmnopqrstuvwxyz{|}~"

unfoldable pub text_of : List ℕ → String
text_of [] = ""
text_of (c ∷ cs) = String.◌∷◌ (char_at printable (c - 32)) (text_of cs)
