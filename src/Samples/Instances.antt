-- ===== src/Samples/Instances.antt =====
-- Concrete values of the interfaces: an unbounded cache, a sorted list for the tree, and texts that
-- stand for themselves in the place of nixbase32.
use nix_sandwich.Prelude.{
  ◌≡◌, refl, ◌≢◌, ◌⊎◌, inl, inr, Option, none, some, List, [], Bytes, bytes_eq, bytes_eq_refl,
  if◌then◌else◌, Bool-cases, bytes_eq→eq,
}
use nix_sandwich.External.Lru.{Lru}
use nix_sandwich.External.Base32.{Base32}
use nix_sandwich.Catalog.Item.{BtItem}
use nix_sandwich.Catalog.Index.{BTree, has_item, insert_item, items_between}

abbrev pub Table : Type 0 → Type 0
Table V = Bytes → Option V

module _ {V : Type 0} where
  abbrev table_add : Table V → Bytes → V → Table V
  table_add c k v j = if bytes_eq j k then some v else c j

  pub table_add_self : (c : Table V) (k : Bytes) (v : V) → table_add c k v k ≡ some v
  table_add_self c k v = rw (bytes_eq_refl k)

  pub table_add_other :
      (c : Table V) (k j : Bytes) (v : V)
      → j ≢ k
      → (table_add c k v j ≡ none) ⊎ (table_add c k v j ≡ c j)
  table_add_other c k j v h = elim (Bool-cases (bytes_eq j k)) [
    | inl same ↦ absurd (h (bytes_eq→eq j k same))
    | inr other ↦ inr (rw other)
  ]

abbrev pub table_lru : (V : Type 0) → Lru V
table_lru V = record {
  Cache = Table V;
  get = λ c k. c k;
  touch = λ c k. c;
  add = table_add;
  get-touch = λ c k j. refl;
  get-add_self = table_add_self;
  get-add_other = table_add_other;
}

abbrev pub no_entries : {V : Type 0} → Table V
no_entries k = none

abbrev pub list_tree : BTree
list_tree = record {
  Tree = List BtItem;
  items = λ t. t;
  empty = [];
  has = λ t x. has_item x t;
  replace_or_insert = λ t x. insert_item x t;
  ascend_range = λ t lo hi. items_between lo hi t;
  items-empty = refl;
  has_lem = λ t x. refl;
  items-insert = λ t x. refl;
  ascend_range_lem = λ t lo hi. refl;
}

pub plain_encode : (s h : Bytes) → ◌≡◌ {A = Option Bytes} (some s) (some h) → h ≡ s
plain_encode s h e = cc

abbrev pub plain_base32 : Base32
plain_base32 = record {
  encode_string = λ h. h;
  decode_string = λ s. some s;
  encode-decode = plain_encode;
}
