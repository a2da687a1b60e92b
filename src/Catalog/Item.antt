-- ===== src/Catalog/Item.antt =====
-- `btItem` and its order `itemLess` of catalog.go.
use nix_sandwich.Prelude.{
  ℕ, ◌≡◌, refl, ◌⊎◌, inl, inr, Bool, true, false, ◌&&◌, ◌||◌, [], ◌∷◌, ◌++◌, arith, Bytes, bytes_eq,
  bytes_eq→eq, bytes_eq_refl, bytes_lt, has_prefix, Bool-cases, length, All, ◌<◌,
}
use nix_sandwich.Prelude.Order.{
  bytes_lt_irrefl, bytes_lt_trans, bytes_lt_tri, has_prefix-between, between-has_prefix,
}

-- The hash has 20 bytes, `nar_size` and `signer_hash` are 32-bit numbers.
pub record BtItem : Type 0 where
  pub rest : Bytes
  pub hash : Bytes
  pub sys : ℕ
  pub nar_size : ℕ
  pub signer_hash : ℕ

abbrev pub zero_hash : Bytes
zero_hash = 0 ∷ 0 ∷ 0 ∷ 0 ∷ 0 ∷ 0 ∷ 0 ∷ 0 ∷ 0 ∷ 0 ∷ 0 ∷ 0 ∷ 0 ∷ 0 ∷ 0 ∷ 0 ∷ 0 ∷ 0 ∷ 0 ∷ 0 ∷ []

-- `btItem{rest: rest}`: the other fields have Go's zero values.
abbrev pub bare_item : Bytes → BtItem
bare_item r = record { rest = r; hash = zero_hash; sys = 0; nar_size = 0; signer_hash = 0 }

unfoldable pub item_less : BtItem → BtItem → Bool
item_less a b = bytes_lt a.rest b.rest || (bytes_eq a.rest b.rest && bytes_lt a.hash b.hash)

pub item_less_irrefl : (a : BtItem) → item_less a a ≡ false
unfolding item_less
item_less_irrefl a = ground (arith, bytes_lt_irrefl a.rest, bytes_lt_irrefl a.hash)

pub item_less_trans :
    (a b c : BtItem) → item_less a b ≡ true → item_less b c ≡ true → item_less a c ≡ true
unfolding item_less
item_less_trans a b c h k = ground (
  arith,
  bytes_lt_trans a.rest b.rest c.rest,
  bytes_lt_trans a.hash b.hash c.hash,
  bytes_eq→eq a.rest b.rest,
  bytes_eq→eq b.rest c.rest,
  bytes_eq_refl c.rest,
)

-- Two items that neither precedes the other have one name and one hash.
pub item_less_tri :
    (a b : BtItem)
    → (item_less a b ≡ true) ⊎ (((a.rest ≡ b.rest) × (a.hash ≡ b.hash)) ⊎ (item_less b a ≡ true))
unfolding item_less
item_less_tri a b = elim (bytes_lt_tri a.rest b.rest) [
  | inl below ↦ inl (ground arith)
  | inr (inl same) ↦ elim (bytes_lt_tri a.hash b.hash) [
    | inl below ↦ inl (ground (arith, bytes_eq_refl a.rest))
    | inr (inl equal) ↦ inr (inl (same, equal))
    | inr (inr above) ↦ inr (inr (ground (arith, bytes_eq_refl a.rest)))
  ]
  | inr (inr above) ↦ inr (inr (ground arith))
]

-- Items that agree in name and hash precede the same items.
pub item_less_same :
    (a b c : BtItem)
    → item_less a b ≡ false
    → item_less b a ≡ false
    → item_less b c ≡ true
    → item_less a c ≡ true
item_less_same a b c h k l = elim (item_less_tri a b) [
  | inl below ↦ cc
  | inr (inl (name, hash)) ↦ unfold item_less in ground arith
  | inr (inr above) ↦ cc
]

has_prefix-append : (p t : Bytes) → has_prefix (p ++ t) p ≡ true
has_prefix-append [] t = refl
has_prefix-append (c ∷ p) t = ground (arith, has_prefix-append p t)

-- The bounds of the range that `findBase` walks: an item between them has a name with the prefix.
pub item_between-has_prefix :
    (i : BtItem) (p : Bytes)
    → item_less i (bare_item p) ≡ false
    → item_less i (bare_item (p ++ 0xff ∷ [])) ≡ true
    → has_prefix i.rest p ≡ true
unfolding item_less
item_between-has_prefix i p h k = elim (Bool-cases (bytes_lt i.rest (p ++ 0xff ∷ []))) [
  | inl below ↦ has_prefix-between i.rest p (ground arith) below
  | inr same ↦
      rw (bytes_eq→eq i.rest (p ++ 0xff ∷ []) (ground arith)) (has_prefix-append p (0xff ∷ []))
]

-- No hash of 20 bytes precedes the hash of zeros.
not-bytes_lt-zeros : (h z : Bytes) → length h ≡ length z → All (λ c. c ≡ 0) z → bytes_lt h z ≡ false
not-bytes_lt-zeros h [] e k = refl
not-bytes_lt-zeros [] (c ∷ z) e k = absurd (omega arith)
not-bytes_lt-zeros (x ∷ h) (c ∷ z) e k = ground (arith, not-bytes_lt-zeros h z (omega arith))

-- Every item with a full hash lies between the bounds if its name is the prefix and bytes below 0xff.
pub has_prefix-item_between :
    (i : BtItem) (p t : Bytes)
    → i.rest ≡ p ++ t
    → All (λ c. c < 0xff) t
    → length i.hash ≡ 20
    → (item_less i (bare_item p) ≡ false) × (item_less i (bare_item (p ++ 0xff ∷ [])) ≡ true)
unfolding item_less
has_prefix-item_between i p t e small full =
    let (from, to) = between-has_prefix p t small in
    let low : bytes_lt i.hash zero_hash ≡ false =
      not-bytes_lt-zeros i.hash zero_hash full (omega arith) in
    (rw (e, low) (ground (arith, from)), rw e (ground (arith, to)))
