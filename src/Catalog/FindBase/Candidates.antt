-- ===== src/Catalog/FindBase/Candidates.antt =====
-- What a base is chosen for, said without the code's tests.
use nix_sandwich.Prelude.{
  ℕ, ◌≤◌, ◌<◌, ◌≡◌, ◌⊎◌, inl, inr, ◌↔◌, Bool, true, false, List, [], ◌∷◌, ◌++◌, arith, Bytes,
  length, All, Bool-cases,
}
use nix_sandwich.Catalog.Names.{find_dashes, match_len}
use nix_sandwich.Catalog.Item.{BtItem}
use nix_sandwich.Catalog.FindBase.{is_candidate}
use nix_sandwich.Catalog.FindBase.Best.{IsLastBest, score}

-- The system, the signer unless any will do, and the number of dashes.
abbrev pub IsCandidate : ℕ → ℕ → ℕ → BtItem → Type 0
IsCandidate sys want dashes i =
    (i.sys ≡ sys) × ((want ≡ 0) ⊎ (i.signer_hash ≡ want)) × (length (find_dashes i.rest) ≡ dashes)

pub is_candidate_iff :
    (sys want dashes : ℕ) (i : BtItem)
    → (is_candidate sys want dashes i ≡ true) ↔ IsCandidate sys want dashes i
unfolding is_candidate
is_candidate_iff sys want dashes i = (λ h. ground arith, λ h. ground arith)

pub not-IsCandidate :
    (sys want dashes : ℕ) (i : BtItem)
    → is_candidate sys want dashes i ≡ false
    → ¬ IsCandidate sys want dashes i
not-IsCandidate sys want dashes i h = λ p. cc ((is_candidate_iff sys want dashes i).1 p)

-- The item of a range that is the last of the best: it is a candidate, and what is none shares less
-- or, in front of it, no more leading bytes with the request.
pub record IsBestBase (sys want : ℕ) (req : Bytes) (items : List BtItem) (best : BtItem)
    : Type 0 where
  pub before : List BtItem
  pub after : List BtItem
  pub splits : items ≡ before ++ best ∷ after
  pub chosen : IsCandidate sys want (length (find_dashes req)) best
  pub none_better :
      All
        (λ i.
          (¬ IsCandidate sys want (length (find_dashes req)) i)
          ⊎ (match_len req i.rest ≤ match_len req best.rest))
        before
  pub none_as_good :
      All
        (λ i.
          (¬ IsCandidate sys want (length (find_dashes req)) i)
          ⊎ (match_len req i.rest < match_len req best.rest))
        after

module _ (sys want : ℕ) (req : Bytes) where
  abbrev pub tested : BtItem → Bool
  tested = is_candidate sys want (length (find_dashes req))

  no_better :
      (b : BtItem) (items : List BtItem)
      → tested b ≡ true
      → All (λ i. score tested req i ≤ score tested req b) items
      → All
          (λ i.
            (¬ IsCandidate sys want (length (find_dashes req)) i)
            ⊎ (match_len req i.rest ≤ match_len req b.rest))
          items
  unfolding score
  no_better b [] c _ = tt
  no_better b (i ∷ items) c (h, hs) = (
    elim (Bool-cases (tested i)) [
      | inl holds ↦ inr (ground arith)
      | inr other ↦ inl (not-IsCandidate sys want (length (find_dashes req)) i other)
    ],
    no_better b items c hs,
  )

  none_equal :
      (b : BtItem) (items : List BtItem)
      → tested b ≡ true
      → All (λ i. score tested req i < score tested req b) items
      → All
          (λ i.
            (¬ IsCandidate sys want (length (find_dashes req)) i)
            ⊎ (match_len req i.rest < match_len req b.rest))
          items
  unfolding score
  none_equal b [] c _ = tt
  none_equal b (i ∷ items) c (h, hs) = (
    elim (Bool-cases (tested i)) [
      | inl holds ↦ inr (ground arith)
      | inr other ↦ inl (not-IsCandidate sys want (length (find_dashes req)) i other)
    ],
    none_equal b items c hs,
  )

  pub IsLastBest-IsBestBase :
      (items : List BtItem) (b : BtItem)
      → IsLastBest tested req items b
      → IsBestBase sys want req items b
  IsLastBest-IsBestBase items b best = record {
    before = best.before;
    after = best.after;
    splits = best.splits;
    chosen = (is_candidate_iff sys want (length (find_dashes req)) b).0 best.chosen;
    none_better = no_better b best.before best.chosen best.none_better;
    none_as_good = none_equal b best.after best.chosen best.none_as_good;
  }

  pub not_candidates :
      (items : List BtItem)
      → All (λ i. score tested req i < 1) items
      → All (λ i. ¬ IsCandidate sys want (length (find_dashes req)) i) items
  unfolding score
  not_candidates [] h = tt
  not_candidates (i ∷ items) (h, hs) =
      let other : tested i ≡ false = ground arith in
      (not-IsCandidate sys want (length (find_dashes req)) i other, not_candidates items hs)
