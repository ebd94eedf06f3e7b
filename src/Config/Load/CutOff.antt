-- ===== src/Config/Load/CutOff.antt =====
-- What becomes of the chains behind a file that may not be read.
use cometduty.Prelude.{
  true, false, List, [], ◌∷◌, ◌++◌, String, Option, none, some, ◌≡◌, sym, ap, ◌∙◌,
}
use cometduty.Prelude.{if◌then◌else◌, string_eq, not, Bool-cases, if_true, if_false, inl, inr}
use cometduty.Prelude.Maps.{insert}
use cometduty.Prelude.Text.{contains, sprintf}
use cometduty.Prelude.Tried.{failed, done}
use cometduty.Config.{ChainConfig}
use cometduty.Config.Load.{
  Outside, ReadFault, DirEntry, unreadable, Chains, chain_name, chain_in, is_skipped, merge_entries,
  merge_chain_dir, entries, unless_denied, with_chain_dir,
}

module _ (o : Outside) where
  -- What the loop goes on with after an entry that is not skipped.
  abbrev after :
      DirEntry
      → List DirEntry
      → Chains
      → Option ChainConfig × Option ReadFault
      → Chains × Option ReadFault
  after e es chains p = elim p.1 [
    | none ↦ merge_entries o es (insert (chain_name e.name) p.0 chains)
    | some f ↦ (chains, some f)
  ]

  merge-taken :
      (e : DirEntry) (es : List DirEntry) (chains : Chains)
      → is_skipped e ≡ false
      → merge_entries o (e ∷ es) chains ≡ after e es chains (chain_in o e.full e.text)
  unfolding merge_entries
  merge-taken e es chains h = if_false _ _ h

  merge-skipped :
      (e : DirEntry) (es : List DirEntry) (chains : Chains)
      → is_skipped e ≡ true
      → merge_entries o (e ∷ es) chains ≡ merge_entries o es chains
  unfolding merge_entries
  merge-skipped e es chains h = if_true _ _ h

  HandsOn : List DirEntry → List DirEntry → Type 0
  HandsOn es xs =
      (chains merged : Chains)
      → merge_entries o es chains ≡ (merged, none)
      → merge_entries o (es ++ xs) chains ≡ merge_entries o xs merged

  after-append :
      (e : DirEntry) (es xs : List DirEntry) (chains merged : Chains)
      (p : Option ChainConfig × Option ReadFault)
      → HandsOn es xs
      → after e es chains p ≡ (merged, none)
      → after e (es ++ xs) chains p ≡ merge_entries o xs merged
  unfolding HandsOn
  after-append e es xs chains merged (ch, none) ih h = ih _ merged h
  after-append e es xs chains merged (ch, some f) ih h = cc

  -- Entries that raise no error hand on the chains that they leave.
  merge-append : (es xs : List DirEntry) → HandsOn es xs
  unfolding HandsOn merge_entries
  merge-append [] xs chains merged h = ap (λ r. merge_entries o xs r.0) h
  merge-append (e ∷ es) xs chains merged h = elim (Bool-cases (is_skipped e)) [
    | inl k ↦
        merge-skipped e (es ++ xs) chains k
        ∙ merge-append es xs chains merged (sym (merge-skipped e es chains k) ∙ h)
    | inr k ↦
        merge-taken e (es ++ xs) chains k
        ∙ after-append e es xs chains merged (chain_in o e.full e.text) (merge-append es xs)
            (sym (merge-taken e es chains k) ∙ h)
  ]

-- Where the directory of chains is the default one, a file in it that may not be read ends the loop
-- without an error: what stands before it is merged, and what comes behind it is left out.
pub with_chain_dir-cut_off :
    (o : Outside) (source : String) (es fs : List DirEntry) (e : DirEntry) (f : ReadFault)
    (chains merged : Chains)
    → contains source "://" ≡ false
    → merge_entries o es chains ≡ (merged, none)
    → is_skipped e ≡ false
    → e.text ≡ unreadable f
    → f.denied ≡ true
    → with_chain_dir o source "" (entries (es ++ (e ∷ fs))) chains ≡ done merged
unfolding with_chain_dir merge_chain_dir HandsOn unless_denied chain_in
with_chain_dir-cut_off o source es fs e f chains merged local good taken text denied =
    let all : merge_entries o (es ++ (e ∷ fs)) chains
        ≡ after o e fs merged (chain_in o e.full (unreadable f)) =
      merge-append o es (e ∷ fs) chains merged good
      ∙ (merge-taken o e fs merged taken
          ∙ ap (λ t. after o e fs merged (chain_in o e.full t)) text) in
    ap (λ r. if not (contains source "://") then unless_denied r.0 r.1 else done chains) all
    ∙ (ap
          (λ b.
            if not b
            then (if f.denied
                then done merged
                else failed (sprintf "reading %s: %s" (e.full ∷ f.text ∷ [])))
            else done chains)
          local
        ∙ if_true _ _ denied)
