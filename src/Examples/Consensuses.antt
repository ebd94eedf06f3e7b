-- ===== src/Examples/Consensuses.antt =====
-- Consensus keys and addresses.
use cometduty.Prelude.{ℕ, ◌∷◌, List}

-- A stand-in for SHA-256.
abbrev summed : List ℕ → List ℕ
summed bs = 1 ∷ 2 ∷ 3 ∷ bs
