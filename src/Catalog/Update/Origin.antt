-- ===== src/Catalog/Update/Origin.antt =====
-- Every item of the catalog comes from a name of the store directory, and the items stay sorted.
use nix_sandwich.Prelude.{
  ℕ, ◌≤◌, ◌≡◌, inl, inr, ◌||◌, some, List, [], ◌∷◌, ◌++◌, arith, Bytes, length, cut, ltb, ◌==◌, All,
  Bool-cases, Option-cases,
}
use nix_sandwich.External.Base32.{Base32}
use nix_sandwich.SysChecker.Presence.{store_dir}
use nix_sandwich.SysChecker.Batch.{SysResult}
use nix_sandwich.Catalog.Names.{dash}
use nix_sandwich.Catalog.Item.{BtItem}
use nix_sandwich.Catalog.Index.{BTree, All-insert, Sorted, insert_item-Sorted}
use nix_sandwich.Catalog.Update.{
  max_uint32, trim_store_dir, hashed_item, cut_entry, entry_of, new_entries, insert_results,
}

-- The two parts of a cut, with the separator between them, are the text.
cut_joins : (s : Bytes) (sep : ℕ) (a b : Bytes) → cut s sep ≡ some (a, b) → s ≡ a ++ sep ∷ b
cut_joins [] sep a b h = cc
cut_joins (c ∷ s) sep [] b h = ground arith
cut_joins (c ∷ s) sep (x ∷ a) b h = ground (arith, cut_joins s sep a b)

-- The shape of a new entry.
hashed_item-eq :
    (b32 : Base32) (n hash rest : Bytes) (item : BtItem) (path : Bytes)
    → hashed_item b32 n hash rest ≡ some (item, path)
    → (b32.decode_string hash ≡ some item.hash)
      × (item.rest ≡ rest)
      × (length item.hash ≡ 20)
      × (path ≡ store_dir ++ b'/' ∷ n)
unfolding hashed_item
hashed_item-eq b32 n hash rest item path h = ground arith

-- Where an entry comes from: a cut of the name.
cut_entry-eq :
    (b32 : Base32) (n : Bytes) (item : BtItem) (path : Bytes)
    → cut_entry b32 n ≡ some (item, path)
    → (hash rest : Bytes) × (cut n dash ≡ some (hash, rest))
      × (hashed_item b32 n hash rest ≡ some (item, path))
unfolding cut_entry
cut_entry-eq b32 n item path h = elim (Option-cases (cut n dash)) [
  | inl e ↦ cc (rw (e, cut_entry) at h)
  | inr ((hash, rest), e) ↦ (hash, rest, e, ground (arith, e, h))
]

module _ (b32 : Base32) (store : Bytes → Type 0) where
  -- An item of a store name: hash and name spell it, the hash is full and the size fits 32 bits.
  pub record IsItemOf (i : BtItem) : Type 0 where
    pub named : store (b32.encode_string i.hash ++ b'-' ∷ i.rest)
    pub full : length i.hash ≡ 20
    pub fits : i.nar_size ≤ max_uint32

  -- What a new entry is, with its size still to be filled in.
  pub record IsEntryOf (item : BtItem) (path : Bytes) : Type 0 where
    pub entry_named : store (b32.encode_string item.hash ++ b'-' ∷ item.rest)
    pub entry_full : length item.hash ≡ 20

  hashed_item-IsEntryOf :
      (n hash rest : Bytes) (item : BtItem) (path : Bytes)
      → n ≡ hash ++ b'-' ∷ rest
      → store n
      → hashed_item b32 n hash rest ≡ some (item, path)
      → IsEntryOf item path
  hashed_item-IsEntryOf n hash rest item path whole named h =
      let (decoded, same, full, _) = hashed_item-eq b32 n hash rest item path h in
      record {
        entry_named = rw (b32.encode-decode hash item.hash decoded, same, ← whole) named;
        entry_full = full;
      }

  entry_of-IsEntryOf :
      (name : Bytes) (item : BtItem) (path : Bytes)
      → store (trim_store_dir name)
      → entry_of b32 name ≡ some (item, path)
      → IsEntryOf item path
  unfolding entry_of
  entry_of-IsEntryOf name item path named h =
      let (hash, rest, parts, e) = cut_entry-eq b32 (trim_store_dir name) item path h in
      hashed_item-IsEntryOf (trim_store_dir name) hash rest item path
        (cut_joins _ dash hash rest parts) named e

  abbrev pub AllEntries : List (BtItem × Bytes) → Type 0
  AllEntries [] = Unit
  AllEntries ((item, path) ∷ batch) = IsEntryOf item path × AllEntries batch

  module _ (bt : BTree) where
    open bt use {Tree, items, has, replace_or_insert, items-insert}

    pub new_entries-AllEntries :
        (nt : Tree) (names : List Bytes)
        → All (λ n. store (trim_store_dir n)) names
        → AllEntries (new_entries b32 bt nt names)
    unfolding new_entries
    new_entries-AllEntries nt [] h = tt
    new_entries-AllEntries nt (n ∷ names) (named, h) = elim (Option-cases (entry_of b32 n)) [
      | inl e ↦ rw (e, new_entries) (new_entries-AllEntries nt names h)
      | inr ((item, path), e) ↦ elim (Bool-cases (has nt item)) [
        | inl old ↦ rw (e, new_entries, old) (new_entries-AllEntries nt names h)
        | inr new ↦
            rw (e, new_entries, new)
              (entry_of-IsEntryOf n item path named e, new_entries-AllEntries nt names h)
      ]
    ]

    -- A good catalog: every item is one of the store, and they are sorted.
    pub record IsCatalog (t : Tree) : Type 0 where
      pub from_store : All IsItemOf (items t)
      pub sorted : Sorted (items t)

    replace_or_insert-IsCatalog :
        (t : Tree) (x : BtItem) → IsItemOf x → IsCatalog t → IsCatalog (replace_or_insert t x)
    replace_or_insert-IsCatalog t x p good = record {
      from_store = rw items-insert (All-insert IsItemOf x (items t) p good.from_store);
      sorted = rw items-insert (insert_item-Sorted x (items t) good.sorted);
    }

    pub insert_results-IsCatalog :
        (signer_hash : Bytes → ℕ) (batch : List (BtItem × Bytes)) (nt : Tree)
        (results : List SysResult)
        → AllEntries batch
        → IsCatalog nt
        → IsCatalog (insert_results b32 bt signer_hash nt batch results)
    unfolding insert_results
    insert_results-IsCatalog signer_hash [] nt results h good = good
    insert_results-IsCatalog signer_hash (entry ∷ batch) nt [] h good = good
    insert_results-IsCatalog signer_hash ((item, path) ∷ batch) nt (res ∷ results) (p, h) good =
        elim (Bool-cases (ltb max_uint32 res.nar_size || length res.signer == 0)) [
          | inl skip ↦ rw skip (insert_results-IsCatalog signer_hash batch nt results h good)
          | inr keep ↦
              let x = record item {
                sys = res.sys;
                nar_size = res.nar_size;
                signer_hash = signer_hash res.signer;
              } in
              let fits : res.nar_size ≤ max_uint32 = ground (arith, keep) in
              rw keep (
                insert_results-IsCatalog signer_hash batch (replace_or_insert nt x) results h (
                  replace_or_insert-IsCatalog nt x
                    (record { named = p.entry_named; full = p.entry_full; fits = fits }) good))
        ]
