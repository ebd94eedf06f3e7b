-- ===== src/Rpc/Paging.antt =====
-- The loop over the pages of `Validators`, of internal/rpc/client.go.
use cometduty.Prelude.{
  ℕ, zero, suc, ◌+◌, ◌≤◌, Bool, true, List, [], ◌++◌, some, ◌≡◌, arith, length, length-append, ◌||◌,
  eqb, inl, inr, Bool-cases, ap, ◌∙◌, if_true, if_false,
}
use cometduty.Prelude.Int.{pos, ◌≤ℤ◌, leb_ℤ}
use cometduty.Prelude.Tried.{done}
use cometduty.Rpc.{RpcReply, call, RpcValidator, Page, after_page, validators_from, validators}

module _ (page_at : ℕ → Page) where
  -- What the first pages list.
  abbrev pub first_pages : ℕ → List RpcValidator
  first_pages zero = []
  first_pages (suc n) = first_pages n ++ (page_at (suc n)).validators

  -- A page with which the list is as long as the total, or that is empty.
  abbrev pub is_last : ℕ → Bool
  is_last n =
      leb_ℤ (page_at n).total (pos (length (first_pages n)))
      || eqb (length (page_at n).validators) 0

  module _ (pages : ℕ → RpcReply Page) (bound : ℕ)
      (answers : (i : ℕ) → call "validators" (pages i) ≡ done (page_at i))
      (bounded : (i : ℕ) → (page_at i).total ≤ℤ pos bound) where
    from-ends :
        (fuel k : ℕ)
        → bound + 1 ≤ length (first_pages k) + fuel
        → 1 ≤ fuel
        → (n : ℕ) × (validators_from pages fuel (suc k) (first_pages k)
            ≡ some (done (first_pages (suc n))))
          × (is_last (suc n) ≡ true)
    unfolding validators_from after_page
    from-ends zero k h h1 = absurd (omega arith)
    from-ends (suc fuel) k h h1 = elim (Bool-cases (is_last (suc k))) [
      | inl e ↦ (
        k,
        ap (λ r. after_page r (first_pages k) (validators_from pages fuel (suc (suc k))))
              (answers (suc k))
            ∙ if_true _ (is_last (suc k)) e,
        e,
      )
      | inr e ↦
          let grown = length-append (first_pages k) (page_at (suc k)).validators in
          let room = bounded (suc k) in
          let (n, ends, last) = from-ends fuel (suc k) (ground arith) (ground arith) in
          (
            n,
            ap (λ r. after_page r (first_pages k) (validators_from pages fuel (suc (suc k))))
                  (answers (suc k))
                ∙ (if_false _ (is_last (suc k)) e ∙ ends),
            last,
          )
    ]

-- Where every page is answered and no page names a total above a bound, the loop ends, with fuel for
-- one round more than the bound, and gives what the pages list up to one with which the list is as long
-- as the total, or that is empty.
pub validators-ends :
    (page_at : ℕ → Page) (pages : ℕ → RpcReply Page) (bound fuel : ℕ)
    → ((i : ℕ) → call "validators" (pages i) ≡ done (page_at i))
    → ((i : ℕ) → (page_at i).total ≤ℤ pos bound)
    → bound + 1 ≤ fuel
    → (n : ℕ) × (validators pages fuel ≡ some (done (first_pages page_at (suc n))))
      × (is_last page_at (suc n) ≡ true)
unfolding validators
validators-ends page_at pages bound fuel answers bounded h =
    from-ends page_at pages bound answers bounded fuel 0 (omega arith) (omega arith)
