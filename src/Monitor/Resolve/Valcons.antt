-- ===== src/Monitor/Resolve/Valcons.antt =====
-- What is resolved is an address, and its text is the text of that address.
use cometduty.Prelude.{
  ℕ, ◌<◌, ◌≤◌, ◌≡◌, ◌⊎◌, inl, inr, refl, sym, ◌∙◌, arith, false, not, ◌||◌, All,
}
use cometduty.Prelude.{
  List, [], ◌∷◌, String, ◌==◌, string_eq, if_cases, if_true, if_false, Bool-cases, eqb, ltb, length,
  any,
}
use cometduty.Prelude.Ascii.{bytes_of}
use cometduty.Prelude.Text.{contains}
use cometduty.Bech32.{
  Result, err, ok, decode, encode, hrp_of, to_lower, is_bad_char, hrp_length, hrp_character,
}
use cometduty.Bech32.Texts.{decode-encode}
use cometduty.Monitor.Resolve.{
  Resolved, resolved, bad_override, bad_valcons, no_address, bad_valoper, no_prefix, not_encoded,
  decoded_address, with_prefix, encoded, from_hrp, derived_prefix, resolve_cons_address,
}
use mathlib.Core.Path.{subst}

-- The text says the address, unless it is longer than `Decode` takes.
abbrev pub IsTextOf : List ℕ → List ℕ → Type 0
IsTextOf bz vc = ((hrp : List ℕ) × (decode vc ≡ ok (hrp, bz))) ⊎ (90 < length vc)

IsResolved : Resolved → Type 0
IsResolved (resolved bz vc) = (length bz ≡ 20) × IsTextOf bz vc
IsResolved bad_override = Unit
IsResolved bad_valcons = Unit
IsResolved no_address = Unit
IsResolved bad_valoper = Unit
IsResolved no_prefix = Unit
IsResolved not_encoded = Unit

decoded-IsResolved :
    (bad : Resolved) (s : List ℕ) (r : Result (List ℕ × List ℕ))
    → decode s ≡ r
    → IsResolved bad
    → IsResolved (decoded_address bad s r)
unfolding decoded_address IsResolved
decoded-IsResolved bad s (err e) h b = b
decoded-IsResolved bad s (ok (hrp, bz)) h b =
    if_cases IsResolved (eqb (length bz) 20) (λ e. (ground arith, inl (hrp, h))) (λ e. b)

-- What `Encode` accepted.
abbrev IsPrefix : List ℕ → Type 0
IsPrefix hrp = (0 < length hrp) × (length hrp ≤ 83) × (any is_bad_char hrp ≡ false)

encode-IsPrefix : (hrp bz s : List ℕ) → encode hrp bz ≡ ok s → IsPrefix hrp
unfolding encode
encode-IsPrefix hrp bz s h =
    let long = eqb (length hrp) 0 || ltb 83 (length hrp) in
    let bad = any is_bad_char hrp in
    elim (Bool-cases long) [
      | inl e ↦ let clash : err hrp_length ≡ ok s = sym (if_true _ long e) ∙ h in cc
      | inr e ↦ elim (Bool-cases bad) [
        | inl f ↦
            let clash : err hrp_character ≡ ok s =
              sym (if_true _ bad f) ∙ sym (if_false _ long e) ∙ h in
            cc
        | inr f ↦ (ground arith, ground arith, f)
      ]
    ]

ok-injective : (s t : List ℕ) → ok s ≡ ok t → s ≡ t
ok-injective s t h = cc

encode-IsTextOf : (hrp bz s : List ℕ) → All (λ b. b < 256) bz → encode hrp bz ≡ ok s → IsTextOf bz s
encode-IsTextOf hrp bz s bytes h =
    let (there, fits, good) = encode-IsPrefix hrp bz s h in
    let (t, e, read) = decode-encode hrp bz there fits good bytes in
    let same : s ≡ t = ok-injective s t (sym h ∙ e) in
    subst (IsTextOf bz) (sym same)
      (elim read [ inl d ↦ inl (to_lower hrp, d) | inr long ↦ inr long ])

module _ (bz : List ℕ) (twenty : length bz ≡ 20) (bytes : All (λ b. b < 256) bz) where
  encoded-IsResolved :
      (hrp : List ℕ) (r : Result (List ℕ)) → encode hrp bz ≡ r → IsResolved (encoded bz r)
  unfolding encoded IsResolved
  encoded-IsResolved hrp (err e) h = tt
  encoded-IsResolved hrp (ok vc) h = (twenty, encode-IsTextOf hrp bz vc bytes h)

  with_prefix-IsResolved : (hrp : List ℕ) → IsResolved (with_prefix hrp bz)
  unfolding with_prefix IsResolved
  with_prefix-IsResolved [] = tt
  with_prefix-IsResolved (c ∷ cs) = encoded-IsResolved (c ∷ cs) (encode (c ∷ cs) bz) refl

  from_hrp-IsResolved : (r : Result (List ℕ)) → IsResolved (from_hrp bz r)
  unfolding from_hrp IsResolved
  from_hrp-IsResolved (err e) = tt
  from_hrp-IsResolved (ok hrp) = with_prefix-IsResolved (derived_prefix hrp)

resolve-IsResolved :
    (valoper override cons_prefix : String) (queried : List ℕ)
    → All (λ b. b < 256) queried
    → IsResolved (resolve_cons_address valoper override cons_prefix queried)
unfolding resolve_cons_address IsResolved
resolve-IsResolved valoper override cons_prefix queried bytes =
    if_cases IsResolved (not (override == ""))
      (λ e. decoded-IsResolved bad_override (bytes_of override) _ refl tt)
      (λ e.
        if_cases IsResolved (contains valoper "valcons")
          (λ f. decoded-IsResolved bad_valcons (bytes_of valoper) _ refl tt)
          (λ f.
            if_cases IsResolved (not (eqb (length queried) 20)) (λ g. tt)
              (λ g.
                let twenty : length queried ≡ 20 = ground arith in
                if_cases IsResolved (cons_prefix == "")
                  (λ d. from_hrp-IsResolved queried twenty bytes (hrp_of (bytes_of valoper)))
                  (λ d. with_prefix-IsResolved queried twenty bytes (bytes_of cons_prefix)))))

-- An address that `resolveConsAddress` gives has twenty bytes, and the text that goes with it decodes
-- to it, or is longer than the 90 characters that `Decode` takes. What the chain gave is bytes.
pub resolve_cons_address-decodes :
    (valoper override cons_prefix : String) (queried addr vc : List ℕ)
    → All (λ b. b < 256) queried
    → resolve_cons_address valoper override cons_prefix queried ≡ resolved addr vc
    → (length addr ≡ 20) × (((hrp : List ℕ) × (decode vc ≡ ok (hrp, addr))) ⊎ (90 < length vc))
unfolding IsResolved
resolve_cons_address-decodes valoper override cons_prefix queried addr vc bytes h =
    subst IsResolved h (resolve-IsResolved valoper override cons_prefix queried bytes)
