-- ===== src/Bech32/Checksum.antt =====
-- The checksum that is created is the one that is verified: a number of fewer than 25 bits, added to
-- the state of `polymod`, passes through a round as it is.
use cometduty.Bech32.{
  feedback, generators, polymod_step, polymod_from, polymod, groups, create_checksum,
  verify_checksum, hrp_expand,
}
use cometduty.Prelude.{
  ℕ, suc, ◌+◌, ◌*◌, ◌/◌, ◌%◌, ◌^◌, ◌<◌, ◌≡◌, refl, sym, ap, ◌∙◌, arith, Bool, true, false,
}
use cometduty.Prelude.{List, [], ◌∷◌, ◌++◌, All, eqb, if◌then◌else◌, map, All-append}
use cometduty.Prelude.Bits.{
  bit_xor_assoc, bit_xor_self, bit_xor_lt, bit_xor_low, bit_xor_fields, bit_xor_double,
  bit_xor-zero, bit_xor_comm,
}
use Prim.Native.Nat.{bit_xor}
use mathlib.Core.List.{append_assoc}
use mathlib.Core.Path.{ap₂}

if_add :
    (c : Bool) (a b g : ℕ)
    → (if c then bit_xor (bit_xor a b) g else bit_xor a b)
      ≡ bit_xor a (if c then bit_xor b g else b)
if_add true a b g = bit_xor_assoc a b g
if_add false a b g = refl

-- `feedback` adds generators to the state, so what is added to the state stays added.
feedback_add :
    (gs : List ℕ) (i top a b : ℕ)
    → feedback gs i top (bit_xor a b) ≡ bit_xor a (feedback gs i top b)
unfolding feedback
feedback_add [] i top a b = refl
feedback_add (g ∷ gs) i top a b =
    ap (feedback gs (suc i) top) (if_add (eqb (top / 2 ^ i % 2) 1) a b g)
    ∙ feedback_add gs (suc i) top a _

-- A shift by five, of both.
shift_both : (a b : ℕ) → bit_xor (a * 32) (b * 32) ≡ bit_xor a b * 32
shift_both a b =
    let two : (s t : ℕ) → bit_xor (2 * s) (2 * t) ≡ 2 * bit_xor s t = bit_xor_double in
    let times : (t : ℕ) → t * 32 ≡ 2 * (2 * (2 * (2 * (2 * t)))) = λ t. omega arith in
    rw (times a, times b, times (bit_xor a b)) (simp two refl)

module _ (c q v : ℕ) (hq : q < 2 ^ 25) (hv : v < 32) where
  abbrev high : ℕ
  high = c / 2 ^ 25

  abbrev low : ℕ
  low = c % 2 ^ 25

  parts : bit_xor c q ≡ high * 2 ^ 25 + bit_xor low q
  parts =
      let whole : c ≡ high * 2 ^ 25 + low = omega arith in
      ap (λ t. bit_xor t q) whole ∙ bit_xor_low 25 high low q (omega arith) hq

  shifted : bit_xor (bit_xor c q % 2 ^ 25 * 32) v ≡ bit_xor (q * 32 + v) (low * 32)
  shifted =
      let bound = bit_xor_lt 25 low q (omega arith) hq in
      let rest : bit_xor c q % 2 ^ 25 ≡ bit_xor low q = omega (arith, parts, bound) in
      ap (λ t. bit_xor (t * 32) v) rest
      ∙ ap (λ t. bit_xor t v) (sym (shift_both low q))
      ∙ bit_xor_assoc (low * 32) (q * 32) v
      ∙ ap (bit_xor (low * 32)) (bit_xor_fields 5 q v hv (omega arith))
      ∙ bit_xor_comm (low * 32) (q * 32 + v)

  -- A round on a state to which `q` was added.
  polymod_step_add : polymod_step (bit_xor c q) v ≡ bit_xor (polymod_step c 0) (q * 32 + v)
  unfolding polymod_step
  polymod_step_add =
      let bound = bit_xor_lt 25 low q (omega arith) hq in
      let top : bit_xor c q / 2 ^ 25 ≡ high = omega (arith, parts, bound) in
      ap₂ (feedback generators 0) top shifted
      ∙ feedback_add generators 0 high (q * 32 + v) (low * 32)
      ∙ bit_xor_comm (q * 32 + v) _
      ∙ ap (λ t. bit_xor (feedback generators 0 high t) (q * 32 + v))
          (sym (bit_xor-zero (low * 32)))

-- The number that groups of five bits make up below `q`, and that it stays below 2 ^ 30.
abbrev joined : ℕ → List ℕ → ℕ
joined q [] = q
joined q (v ∷ vs) = joined (q * 32 + v) vs

abbrev IsJoinable : ℕ → List ℕ → Type 0
IsJoinable q [] = Unit
IsJoinable q (v ∷ vs) = (q < 2 ^ 25) × (v < 32) × IsJoinable (q * 32 + v) vs

polymod_from_add :
    (vs : List ℕ) (c q : ℕ)
    → IsJoinable q vs
    → polymod_from (bit_xor c q) vs ≡ bit_xor (polymod_from c (map (λ v. 0) vs)) (joined q vs)
unfolding polymod_from
polymod_from_add [] c q h = refl
polymod_from_add (v ∷ vs) c q (hq, hv, h) =
    ap (λ t. polymod_from t vs) (polymod_step_add c q v hq hv)
    ∙ polymod_from_add vs (polymod_step c 0) (q * 32 + v) h

if_lt : (c : Bool) (a b : ℕ) → a < 2 ^ 30 → b < 2 ^ 30 → (if c then a else b) < 2 ^ 30
if_lt true a b h k = h
if_lt false a b h k = k

feedback_lt :
    (gs : List ℕ) (i top chk : ℕ)
    → All (λ g. g < 2 ^ 30) gs
    → chk < 2 ^ 30
    → feedback gs i top chk < 2 ^ 30
unfolding feedback
feedback_lt [] i top chk all h = h
feedback_lt (g ∷ gs) i top chk (hg, all) h =
    feedback_lt gs (suc i) top _ all
      (if_lt (eqb (top / 2 ^ i % 2) 1) (bit_xor chk g) chk (bit_xor_lt 30 chk g h hg) h)

polymod_from_lt :
    (vs : List ℕ) (c : ℕ) → c < 2 ^ 30 → All (λ v. v < 256) vs → polymod_from c vs < 2 ^ 30
unfolding polymod_from polymod_step
polymod_from_lt [] c h all = h
polymod_from_lt (v ∷ vs) c h (hv, all) =
    let next = bit_xor_lt 30 (c % 2 ^ 25 * 32) v (omega arith) (omega arith) in
    let gens : All (λ g. g < 2 ^ 30) generators = ground arith in
    polymod_from_lt vs _ (feedback_lt generators 0 (c / 2 ^ 25) _ gens next) all

polymod_from-append :
    (vs ws : List ℕ) (c : ℕ) → polymod_from c (vs ++ ws) ≡ polymod_from (polymod_from c vs) ws
unfolding polymod_from
polymod_from-append [] ws c = refl
polymod_from-append (v ∷ vs) ws c = polymod_from-append vs ws (polymod_step c v)

abbrev zeros : List ℕ
zeros = 0 ∷ 0 ∷ 0 ∷ 0 ∷ 0 ∷ 0 ∷ []

groups-IsJoinable : (m : ℕ) → m < 2 ^ 30 → IsJoinable 0 (groups m)
groups-IsJoinable m h = ground arith

joined-groups : (m : ℕ) → m < 2 ^ 30 → joined 0 (groups m) ≡ m
joined-groups m h = omega arith

-- Six groups behind a state: they are added to what six zeros give.
polymod_from-groups :
    (c m : ℕ) → m < 2 ^ 30 → polymod_from c (groups m) ≡ bit_xor (polymod_from c zeros) m
polymod_from-groups c m h =
    ap (λ t. polymod_from t (groups m)) (sym (bit_xor-zero c))
    ∙ polymod_from_add (groups m) c 0 (groups-IsJoinable m h)
    ∙ ap (bit_xor (polymod_from c zeros)) (joined-groups m h)

-- With x for the state after six zeros, x + (x + 1) is 1.
cancels : (x : ℕ) → bit_xor x (bit_xor x 1) ≡ 1
cancels x = sym (bit_xor_assoc x x 1) ∙ ap (λ t. bit_xor t 1) (bit_xor_self x) ∙ refl

All-map :
    (f : ℕ → ℕ) (cs : List ℕ)
    → ((c : ℕ) → c < 256 → f c < 256)
    → All (λ c. c < 256) cs
    → All (λ c. c < 256) (map f cs)
All-map f [] g h = tt
All-map f (c ∷ cs) g (hc, h) = (g c hc, All-map f cs g h)

hrp_expand-bytes : (hrp : List ℕ) → All (λ c. c < 256) hrp → All (λ v. v < 256) (hrp_expand hrp)
unfolding hrp_expand
hrp_expand-bytes hrp h =
    All-append (λ v. v < 256) (map (λ c. c / 32) hrp) _
      (All-map (λ c. c / 32) hrp (λ c lt. omega arith) h)
      (omega arith, All-map (λ c. c % 32) hrp (λ c lt. omega arith) h)

-- `verifyChecksum` accepts what `createChecksum` appends, for every prefix and every data of bytes.
pub verify_checksum-create_checksum :
    (hrp data' : List ℕ)
    → All (λ c. c < 256) hrp
    → All (λ v. v < 256) data'
    → verify_checksum hrp (data' ++ create_checksum hrp data') ≡ true
unfolding verify_checksum create_checksum polymod
verify_checksum-create_checksum hrp data' h k =
    let values = hrp_expand hrp ++ data' in
    let state = polymod_from 1 values in
    let x = polymod_from state zeros in
    let bytes = All-append (λ v. v < 256) (hrp_expand hrp) data' (hrp_expand-bytes hrp h) k in
    let small : All (λ v. v < 256) zeros = ground arith in
    let bound = polymod_from_lt zeros state (polymod_from_lt values 1 (omega arith) bytes) small in
    let ends : polymod_from 1 (values ++ groups (bit_xor x 1)) ≡ 1 =
      polymod_from-append values (groups (bit_xor x 1)) 1
      ∙ polymod_from-groups state (bit_xor x 1) (bit_xor_lt 30 x 1 bound (omega arith))
      ∙ cancels x in
    ap (λ t. eqb (polymod_from 1 (hrp_expand hrp ++ (data' ++ groups (bit_xor t 1)))) 1)
      (polymod_from-append values zeros 1)
    ∙ ap (λ t. eqb (polymod_from 1 t) 1) (sym (append_assoc (hrp_expand hrp) data' _))
    ∙ ap (λ t. eqb t 1) ends
