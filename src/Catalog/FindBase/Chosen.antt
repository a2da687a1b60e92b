-- ===== src/Catalog/FindBase/Chosen.antt =====
-- What a successful and what a failed `findBase` say about the catalog.
use nix_sandwich.Prelude.{
  ℕ, ◌≤◌, ◌≡◌, refl, ◌≢◌, inl, inr, true, false, Option, some, List, [], ◌∷◌, ◌++◌, arith, Bytes,
  codes, length, bytes_eq, bytes_eq_iff, has_prefix, ltb, le→ltb, ltb→le, All, Bool-cases,
  Option-cases, ap, sym, ◌∙◌, Outcome, ok, err, panic,
}
use nix_sandwich.External.Lru.{Lru}
use nix_sandwich.External.NarInfo.{NarInfo}
use nix_sandwich.SysChecker.Systems.{PresenceFunc}
use nix_sandwich.SysChecker.Batch.{get_sys_from_nar_info}
use nix_sandwich.Catalog.Names.{find_dashes}
use nix_sandwich.Catalog.Item.{BtItem, bare_item, item_less, item_between-has_prefix}
use nix_sandwich.Catalog.Index.{BTree, items_between, items_between_bounds}
use nix_sandwich.Catalog.FindBase.{
  CatalogResult, FindError, name_too_short, cant_handle_source, no_base_found, is_candidate,
  start_of, choose_base, want_signer, found, find_base,
}
use nix_sandwich.Catalog.FindBase.Candidates.{
  IsCandidate, IsBestBase, IsLastBest-IsBestBase, not_candidates,
}
use nix_sandwich.Catalog.FindBase.Best.{scan-Scanned, Scanned}

-- The items of the catalog that `findBase` looks at.
abbrev pub range_of : List BtItem → Bytes → List BtItem
range_of items req =
    let start = start_of req (find_dashes req) in
    items_between (bare_item start) (bare_item (start ++ 0xff ∷ [])) items

ne_nil_of_long : (req : Bytes) → 3 ≤ length req → req ≢ []
ne_nil_of_long req h = λ e. omega (arith, ap (λ (s : Bytes). length s) e)

start_of-ne-nil : (req : Bytes) (dashes : List ℕ) → req ≢ [] → start_of req dashes ≢ []
unfolding start_of
start_of-ne-nil req [] h = h
start_of-ne-nil [] (d ∷ dashes) h = absurd (h refl)
start_of-ne-nil (c ∷ req) (d ∷ dashes) h = λ e. cc

has_prefix-ne-nil : (s p : Bytes) → p ≢ [] → has_prefix s p ≡ true → s ≢ []
has_prefix-ne-nil s [] h k = absurd (h refl)
has_prefix-ne-nil [] (c ∷ p) h k = cc
has_prefix-ne-nil (x ∷ s) (c ∷ p) h k = λ e. cc

-- The element in the middle of a list has what all elements have.
All-middle {ℓ κ} :
    {A : Type ℓ} (P : A → Type κ) (xs ys : List A) (a : A) → All P (xs ++ a ∷ ys) → P a
All-middle P [] ys a (p, ps) = p
All-middle P (x ∷ xs) ys a (p, ps) = All-middle P xs ys a ps

-- The name of what was found is not empty.
found-ok :
    (encode_string : Bytes → Bytes) (req : Bytes) (b : BtItem) (r : CatalogResult)
    → found encode_string req b ≡ ok r
    → b.rest ≢ []
unfolding found
found-ok encode_string req b r h = λ e. ground (arith, bytes_eq_iff b.rest [])

found-err :
    (encode_string : Bytes → Bytes) (req : Bytes) (b : BtItem)
    → found encode_string req b ≡ err no_base_found
    → b.rest ≡ []
unfolding found
found-err encode_string req b h = ground (arith, bytes_eq_iff b.rest [])

-- A chosen item lies in the range, so its name begins as the request does.
pub best-has_prefix :
    (items : List BtItem) (sys want : ℕ) (req : Bytes) (b : BtItem)
    → IsBestBase sys want req (range_of items req) b
    → has_prefix b.rest (start_of req (find_dashes req)) ≡ true
best-has_prefix items sys want req b best =
    let start = start_of req (find_dashes req) in
    let bounds = items_between_bounds (bare_item start) (bare_item (start ++ 0xff ∷ [])) items in
    let (low, high) =
      All-middle
        (λ i.
          (item_less i (bare_item start) ≡ false)
          × (item_less i (bare_item (start ++ 0xff ∷ [])) ≡ true))
        best.before best.after b (rw best.splits at bounds) in
    item_between-has_prefix b start low high

module _ (bt : BTree) where
  open bt use {Tree, items, ascend_range, ascend_range_lem}

  choose_base-Scanned :
      (t : Tree) (sys want : ℕ) (req : Bytes)
      → Scanned
          (is_candidate sys want (length (find_dashes req)))
          req
          (range_of (items t) req)
          0
          (bare_item [])
          (choose_base bt t sys want req)
  unfolding choose_base
  choose_base-Scanned t sys want req = rw ascend_range_lem (
      scan-Scanned (is_candidate sys want (length (find_dashes req))) req (range_of (items t) req) 0
        (bare_item []))

module _ (bt : BTree) (lru : Lru ℕ) (signer_hash : Bytes → ℕ) (encode_string : Bytes → Bytes)
    (listing : Bytes → Option PresenceFunc) where
  open bt use {Tree, items}
  open lru use {Cache}

  -- After the checks, the answer is that of the walk, for the system of the request.
  find_base-walk :
      (t : Tree) (c c' : Cache) (ni : NarInfo) (req : Bytes) (sys : ℕ)
      → 3 ≤ length req
      → bytes_eq req (codes "source") ≡ false
      → get_sys_from_nar_info lru listing c ni ≡ some (sys, c')
      → find_base bt lru signer_hash encode_string listing t c ni req
        ≡ (found encode_string req (choose_base bt t sys (want_signer signer_hash ni) req), c')
  unfolding find_base
  find_base-walk t c c' ni req sys long other e = rw (le→ltb (length req) 3 long, other, e)

  -- An answer of the walk is the answer of a call that passed the checks.
  abbrev Walked : Tree → Cache → NarInfo → Bytes → Outcome FindError CatalogResult → Cache → Type 0
  Walked t c ni req o c' =
      (sys : ℕ) × (3 ≤ length req)
      × (get_sys_from_nar_info lru listing c ni ≡ some (sys, c'))
      × (found encode_string req (choose_base bt t sys (want_signer signer_hash ni) req) ≡ o)

  -- Every answer but the two errors of the checks and a panic is one of the walk.
  find_base-Walked :
      (t : Tree) (c c' : Cache) (ni : NarInfo) (req : Bytes) (o : Outcome FindError CatalogResult)
      → o ≢ err name_too_short
      → o ≢ err cant_handle_source
      → o ≢ panic
      → find_base bt lru signer_hash encode_string listing t c ni req ≡ (o, c')
      → Walked t c ni req o c'
  unfolding find_base
  find_base-Walked t c c' ni req o n1 n2 n3 h = elim (Bool-cases (ltb (length req) 3)) [
    | inl short ↦ absurd (n1 (sym (ap (λ p. p.0) (rw short at h))))
    | inr long ↦ elim (Bool-cases (bytes_eq req (codes "source"))) [
      | inl source ↦ absurd (n2 (sym (ap (λ p. p.0) (rw (long, source) at h))))
      | inr other ↦ elim (Option-cases (get_sys_from_nar_info lru listing c ni)) [
        | inl e ↦ absurd (n3 (sym (ap (λ p. p.0) (rw (long, other, e) at h))))
        | inr ((sys, c1), e) ↦
            let k : (
              found encode_string req (choose_base bt t sys (want_signer signer_hash ni) req),
              c1,
            )
                ≡ (o, c') =
              rw (long, other, e) at h in
            (sys, ltb→le (length req) 3 long, e ∙ ap (λ p. some (sys, p.1)) k, ap (λ p. p.0) k)
      ]
    ]
  ]

  -- A base that `findBase` returns is made from an item of the catalog that lies in the range of the
  -- request, has its system, its signer (if it has one) and its number of dashes, shares at least as
  -- many leading bytes with it as every other such item, and is the last in order that shares as many.
  pub find_base_best :
      (t : Tree) (c c' : Cache) (ni : NarInfo) (req : Bytes) (r : CatalogResult)
      → find_base bt lru signer_hash encode_string listing t c ni req ≡ (ok r, c')
      → (sys : ℕ) × (best : BtItem) × (get_sys_from_nar_info lru listing c ni ≡ some (sys, c'))
        × IsBestBase sys (want_signer signer_hash ni) req (range_of (items t) req) best
        × (found encode_string req best ≡ ok r)
  find_base_best t c c' ni req r h =
      let want = want_signer signer_hash ni in
      let (sys, long, e, f) =
        find_base-Walked t c c' ni req (ok r) (λ z. cc) (λ z. cc) (λ z. cc) h in
      elim (choose_base-Scanned bt t sys want req) [
        | inl (nothing, _) ↦ absurd (found-ok encode_string req _ r f (ap (λ i. i.rest) nothing))
        | inr (best, _) ↦
            (sys, choose_base bt t sys want req, e, IsLastBest-IsBestBase sys want req _ _ best, f)
      ]

  -- Where `findBase` finds no base, no item in the range of the request has its system, its signer
  -- (if it has one) and its number of dashes.
  pub find_base_none :
      (t : Tree) (c c' : Cache) (ni : NarInfo) (req : Bytes)
      → find_base bt lru signer_hash encode_string listing t c ni req ≡ (err no_base_found, c')
      → (sys : ℕ) × (get_sys_from_nar_info lru listing c ni ≡ some (sys, c'))
        × All
            (λ i. ¬ IsCandidate sys (want_signer signer_hash ni) (length (find_dashes req)) i)
            (range_of (items t) req)
  find_base_none t c c' ni req h =
      let want = want_signer signer_hash ni in
      let (sys, long, e, f) =
        find_base-Walked t c c' ni req (err no_base_found) (λ z. cc) (λ z. cc) (λ z. cc) h in
      elim (choose_base-Scanned bt t sys want req) [
        | inl (_, low) ↦ (sys, e, not_candidates sys want req _ low)
        | inr (best, _) ↦ absurd (
            has_prefix-ne-nil _ _ (start_of-ne-nil req (find_dashes req) (ne_nil_of_long req long))
              (best-has_prefix (items t) sys want req _
                (IsLastBest-IsBestBase sys want req _ _ best))
              (found-err encode_string req _ f))
      ]
