-- ===== src/Catalog/FindBase/Best.antt =====
-- The base that `findBase` picks is the best of the range, and the last of the best.
use nix_sandwich.Prelude.{
  ℕ, suc, ◌≤◌, ◌<◌, ◌≡◌, refl, ◌⊎◌, inl, inr, Bool, true, false, List, [], ◌∷◌, ◌++◌, arith, Bytes,
  leb, if◌then◌else◌, All, Bool-cases, ap,
}
use nix_sandwich.Catalog.Names.{match_len}
use nix_sandwich.Catalog.Item.{BtItem}
use nix_sandwich.Catalog.FindBase.{scan}

-- How good an item is: nothing if it is no candidate.
unfoldable pub score : (BtItem → Bool) → Bytes → BtItem → ℕ
score candidate req i = if candidate i then suc (match_len req i.rest) else 0

-- `best` is a candidate among the items, none before it is better, and none behind it is as good.
pub record IsLastBest (candidate : BtItem → Bool) (req : Bytes) (items : List BtItem)
    (best : BtItem) : Type 0 where
  pub before : List BtItem
  pub after : List BtItem
  pub splits : items ≡ before ++ best ∷ after
  pub chosen : candidate best ≡ true
  pub none_better : All (λ i. score candidate req i ≤ score candidate req best) before
  pub none_as_good : All (λ i. score candidate req i < score candidate req best) after

-- Every item scores below a bound, or one is the last best of all and scores at least the bound.
module _ (candidate : BtItem → Bool) (req : Bytes) where
  abbrev pub AllBelow : ℕ → List BtItem → Type 0
  AllBelow bound items = All (λ i. score candidate req i < bound) items

  extend_best :
      (i b : BtItem) (items : List BtItem)
      → score candidate req i ≤ score candidate req b
      → IsLastBest candidate req items b
      → IsLastBest candidate req (i ∷ items) b
  extend_best i b items h best = record {
    before = i ∷ best.before;
    after = best.after;
    splits = ap (λ l. i ∷ l) best.splits;
    chosen = best.chosen;
    none_better = (h, best.none_better);
    none_as_good = best.none_as_good;
  }

  start_best :
      (i : BtItem) (items : List BtItem)
      → candidate i ≡ true
      → AllBelow (score candidate req i) items
      → IsLastBest candidate req (i ∷ items) i
  start_best i items h below = record {
    before = [];
    after = items;
    splits = refl;
    chosen = h;
    none_better = tt;
    none_as_good = below;
  }

  -- What a scan ends with: what it began with, or the last best item.
  abbrev pub Scanned : List BtItem → ℕ → BtItem → BtItem → Type 0
  Scanned items bestmatch best b =
      ((b ≡ best) × AllBelow (suc bestmatch) items)
      ⊎ (IsLastBest candidate req items b × (bestmatch < score candidate req b))

  score_of_candidate :
      (i : BtItem) → candidate i ≡ true → score candidate req i ≡ suc (match_len req i.rest)
  unfolding score
  score_of_candidate i h = rw h

  score_of_other : (i : BtItem) → candidate i ≡ false → score candidate req i ≡ 0
  unfolding score
  score_of_other i h = rw h

  scan-step :
      (i : BtItem) (items : List BtItem) (bestmatch : ℕ) (best b : BtItem)
      → score candidate req i ≤ bestmatch
      → Scanned items bestmatch best b
      → Scanned (i ∷ items) bestmatch best b
  scan-step i items bestmatch best b h (inl (kept, below)) = inl (kept, (omega arith, below))
  scan-step i items bestmatch best b h (inr (last_best, above)) =
      inr (extend_best i b items (omega arith) last_best, above)

  scan-better :
      (i : BtItem) (items : List BtItem) (bestmatch : ℕ) (best b : BtItem)
      → candidate i ≡ true
      → bestmatch ≤ match_len req i.rest
      → Scanned items (match_len req i.rest) i b
      → Scanned (i ∷ items) bestmatch best b
  scan-better i items bestmatch best b c h (inl (kept, below)) = inr (
      rw kept (
        start_best i items c (rw (score_of_candidate i c) below),
        omega (arith, score_of_candidate i c),
      ))
  scan-better i items bestmatch best b c h (inr (last_best, above)) =
      inr (extend_best i b items (omega (arith, score_of_candidate i c)) last_best, omega arith)

  pub scan-Scanned :
      (items : List BtItem) (bestmatch : ℕ) (best : BtItem)
      → Scanned items bestmatch best (scan candidate req items bestmatch best)
  unfolding scan
  scan-Scanned [] bestmatch best = inl (refl, tt)
  scan-Scanned (i ∷ items) bestmatch best = elim (Bool-cases (candidate i)) [
    | inl c ↦ elim (Bool-cases (leb bestmatch (match_len req i.rest))) [
      | inl h ↦
          rw (c, h)
            (scan-better i items bestmatch best _ c (ground arith)
              (scan-Scanned items (match_len req i.rest) i))
      | inr h ↦
          rw (c, h)
            (scan-step i items bestmatch best _ (ground (arith, score_of_candidate i c))
              (scan-Scanned items bestmatch best))
    ]
    | inr c ↦ rw c (
        scan-step i items bestmatch best _ (omega (arith, score_of_other i c))
          (scan-Scanned items bestmatch best))
  ]
