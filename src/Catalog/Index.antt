-- ===== src/Catalog/Index.antt =====
-- The tree of google/btree over `itemLess`, as catalog.go uses it, behind its documented behaviour:
-- it holds items in ascending order, an equal item is replaced, and `AscendRange` hands over the
-- items from the first bound up to the second, which is left out.
use nix_sandwich.Prelude.{
  ◌≡◌, inl, inr, Bool, true, false, not, ◌&&◌, ◌||◌, List, [], ◌∷◌, arith, All, if◌then◌else◌,
  Bool-cases,
}
use nix_sandwich.Catalog.Item.{BtItem, item_less, item_less_trans, item_less_same}

-- The list of items that the tree stands for.
unfoldable pub insert_item : BtItem → List BtItem → List BtItem
insert_item x [] = x ∷ []
insert_item x (y ∷ ys) =
    let later = insert_item x ys in
    if item_less x y then x ∷ y ∷ ys else if item_less y x then y ∷ later else x ∷ ys

unfoldable pub has_item : BtItem → List BtItem → Bool
has_item x [] = false
has_item x (y ∷ ys) = not (item_less x y || item_less y x) || has_item x ys

unfoldable pub items_between : BtItem → BtItem → List BtItem → List BtItem
items_between lo hi [] = []
items_between lo hi (y ∷ ys) =
    let rest = items_between lo hi ys in
    if not (item_less y lo) && item_less y hi then y ∷ rest else rest

pub record BTree : Type 1 where
  pub Tree : Type 0
  pub items : Tree → List BtItem
  pub empty : Tree
  pub has : Tree → BtItem → Bool
  pub replace_or_insert : Tree → BtItem → Tree
  pub ascend_range : Tree → BtItem → BtItem → List BtItem
  pub items-empty : items empty ≡ []
  pub has_lem : (t : Tree) (x : BtItem) → has t x ≡ has_item x (items t)
  pub items-insert :
      (t : Tree) (x : BtItem) → items (replace_or_insert t x) ≡ insert_item x (items t)
  pub ascend_range_lem :
      (t : Tree) (lo hi : BtItem) → ascend_range t lo hi ≡ items_between lo hi (items t)

-- Every item precedes those behind it.
abbrev pub Sorted : List BtItem → Type 0
Sorted [] = Unit
Sorted (x ∷ xs) = All (λ y. item_less x y ≡ true) xs × Sorted xs

module _ {κ} (P : BtItem → Type κ) where
  -- An insertion brings in no other item.
  pub All-insert : (x : BtItem) (xs : List BtItem) → P x → All P xs → All P (insert_item x xs)
  unfolding insert_item
  All-insert x [] px h = (px, tt)
  All-insert x (y ∷ ys) px (py, h) = elim (Bool-cases (item_less x y)) [
    | inl below ↦ rw below (px, (py, h))
    | inr not_below ↦ elim (Bool-cases (item_less y x)) [
      | inl above ↦ rw (not_below, above) (py, All-insert x ys px h)
      | inr same ↦ rw (not_below, same) (px, h)
    ]
  ]

-- What follows `y` follows `x` before `y`.
All-less_trans :
    (x y : BtItem) (ys : List BtItem)
    → item_less x y ≡ true
    → All (λ z. item_less y z ≡ true) ys
    → All (λ z. item_less x z ≡ true) ys
All-less_trans x y [] h k = tt
All-less_trans x y (z ∷ ys) h (k, ks) = (item_less_trans x y z h k, All-less_trans x y ys h ks)

-- Items that agree in name and hash stand at the same place in the order.
All-less_same :
    (x y : BtItem) (ys : List BtItem)
    → item_less x y ≡ false
    → item_less y x ≡ false
    → All (λ z. item_less y z ≡ true) ys
    → All (λ z. item_less x z ≡ true) ys
All-less_same x y [] h k l = tt
All-less_same x y (z ∷ ys) h k (l, ls) = (item_less_same x y z h k l, All-less_same x y ys h k ls)

-- The order is a strict one, so an insertion keeps the items sorted, with no item twice.
pub insert_item-Sorted : (x : BtItem) (xs : List BtItem) → Sorted xs → Sorted (insert_item x xs)
unfolding insert_item
insert_item-Sorted x [] h = (tt, tt)
insert_item-Sorted x (y ∷ ys) (first, h) = elim (Bool-cases (item_less x y)) [
  | inl below ↦ rw below ((below, All-less_trans x y ys below first), (first, h))
  | inr not_below ↦ elim (Bool-cases (item_less y x)) [
    | inl above ↦
        rw (not_below, above)
          (All-insert (λ z. item_less y z ≡ true) x ys above first, insert_item-Sorted x ys h)
    | inr same ↦ rw (not_below, same) (All-less_same x y ys not_below same first, h)
  ]
]

-- What the range holds lies between its bounds.
pub items_between_bounds :
    (lo hi : BtItem) (xs : List BtItem)
    → All (λ i. (item_less i lo ≡ false) × (item_less i hi ≡ true)) (items_between lo hi xs)
unfolding items_between
items_between_bounds lo hi [] = tt
items_between_bounds lo hi (x ∷ xs) = ground (arith, items_between_bounds lo hi xs)
