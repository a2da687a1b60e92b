-- ===== src/Catalog/Update/Atomic.antt =====
-- `update` keeps a good catalog good, and stores nothing unless the directory was read to its end.
use nix_sandwich.Prelude.{
  ◌<◌, ◌≢◌, refl, arith, ap, ◌∙◌, Bool-cases, true, false, ◌==◌, ==_iff, ℕ, ◌≡◌, sym, subst, inl,
  inr, Option, some, List, [], ◌∷◌, Bytes, All, Option-cases,
}
use nix_sandwich.Prelude.Maybe.{some-fst}
use nix_sandwich.External.Lru.{Lru}
use nix_sandwich.External.Base32.{Base32}
use nix_sandwich.SysChecker.Systems.{PresenceFunc}
use nix_sandwich.SysChecker.Batch.{PathInfo, get_sys_from_store_path_batch}
use nix_sandwich.Catalog.Item.{BtItem}
use nix_sandwich.Catalog.Index.{BTree}
use nix_sandwich.Catalog.Trees.{Trees, loaded, clone, set_tree, store_tree, IsOwned}
use nix_sandwich.Catalog.Update.{
  Reply, more, last, failed, trim_store_dir, new_entries, paths_of, insert_results, add_entries,
  add_batch, read_dir, update,
}
use nix_sandwich.Catalog.Update.Origin.{
  AllEntries, new_entries-AllEntries, IsCatalog, insert_results-IsCatalog,
}

-- The names of the replies up to the end or an error.
abbrev pub AllNames : (Bytes → Type 0) → List Reply → Type 0
AllNames P [] = Unit
AllNames P (more names ∷ replies) = All P names × AllNames P replies
AllNames P (last names ∷ replies) = All P names
AllNames P (failed ∷ replies) = Unit

-- Replies up to some time before the end of the directory, or to an error.
abbrev pub IsUnended : List Reply → Type 0
IsUnended [] = Unit
IsUnended (more names ∷ replies) = IsUnended replies
IsUnended (last names ∷ replies) = ⊥
IsUnended (failed ∷ replies) = Unit

==_false : (a b : ℕ) → a ≢ b → (a == b) ≡ false
==_false a b h = elim (Bool-cases (a == b)) [
  | inl same ↦ absurd (h ((==_iff a b).0 same))
  | inr other ↦ other
]

==_refl : (a : ℕ) → (a == a) ≡ true
==_refl a = (==_iff a a).1 refl

owned_ne : {T : Type 0} (h : Trees T) → IsOwned h → h.stored ≢ h.next
owned_ne h owned same = omega arith

module _ (b32 : Base32) (bt : BTree) (lru : Lru ℕ) (signer_hash : Bytes → ℕ)
    (local : Bytes → Option PresenceFunc) (path_info : List Bytes → Option (List PathInfo)) where
  open bt use {Tree}
  open lru use {Cache}

  module _ (store : Bytes → Type 0) where
    add_entries-IsCatalog :
        (t t' : Tree) (c c' : Cache) (batch : List (BtItem × Bytes))
        → AllEntries b32 store batch
        → IsCatalog b32 store bt t
        → add_entries b32 bt lru signer_hash local path_info t c batch ≡ some (t', c')
        → IsCatalog b32 store bt t'
    unfolding add_entries
    add_entries-IsCatalog t t' c c' [] h good e =
        subst (IsCatalog b32 store bt) (some-fst t t' c c' e) good
    add_entries-IsCatalog t t' c c' (entry ∷ entries) h good e =
        let batch = entry ∷ entries in
        elim (Option-cases
          (get_sys_from_store_path_batch lru local path_info c (paths_of b32 bt batch))) [
            | inl none_yet ↦ cc (rw none_yet at e)
            | inr ((results, c1), done) ↦
                let t1 = insert_results b32 bt signer_hash t batch results in
                let k : ◌≡◌ {A = Option (Tree × Cache)} (some (t1, c1)) (some (t', c')) =
                  rw done at e in
                subst (IsCatalog b32 store bt) (some-fst t1 t' c1 c' k)
                  (insert_results-IsCatalog b32 store bt signer_hash batch t results h good)
          ]

    -- A batch of names of the store keeps a catalog one of the store: every item's hash and name
    -- spell a name of the store, its size fits 32 bits, and the items are sorted.
    pub add_batch-IsCatalog :
        (t t' : Tree) (c c' : Cache) (names : List Bytes)
        → All (λ n. store (trim_store_dir n)) names
        → IsCatalog b32 store bt t
        → add_batch b32 bt lru signer_hash local path_info t c names ≡ some (t', c')
        → IsCatalog b32 store bt t'
    unfolding add_batch
    add_batch-IsCatalog t t' c c' names h good e =
        add_entries-IsCatalog t t' c c' (new_entries b32 bt t names)
          (new_entries-AllEntries b32 store bt t names h) good e

    -- The stored tree and the one that grows are good, and are not the same one.
    abbrev pub IsGood : Trees Tree → Type 0
    IsGood h = IsOwned h × IsCatalog b32 store bt (loaded h)

    read_dir-IsGood :
        (h h' : Trees Tree) (nt : ℕ) (c c' : Cache) (replies : List Reply)
        → AllNames (λ n. store (trim_store_dir n)) replies
        → IsGood h
        → nt < h.next
        → h.stored ≢ nt
        → IsCatalog b32 store bt (h.tree_at nt)
        → read_dir b32 bt lru signer_hash local path_info h nt c replies ≡ some (h', c')
        → IsGood h'
    unfolding read_dir
    read_dir-IsGood h h' nt c c' [] names old free apart good e =
        subst IsGood (some-fst h h' c c' e) old
    read_dir-IsGood h h' nt c c' (more ns ∷ replies) (hn, names) (owned, old) free apart good e =
        elim (Option-cases (add_batch b32 bt lru signer_hash local path_info (h.tree_at nt) c ns)) [
          | inl panics ↦ cc (rw panics at e)
          | inr ((t, c1), done) ↦
              read_dir-IsGood (set_tree h nt t) h' nt c1 c' replies names
                (owned, rw (==_false h.stored nt apart) old) free apart
                (rw (==_refl nt) (add_batch-IsCatalog (h.tree_at nt) t c c1 ns hn good done))
                (rw done at e)
        ]
    read_dir-IsGood h h' nt c c' (last ns ∷ replies) hn old free apart good e =
        elim (Option-cases (add_batch b32 bt lru signer_hash local path_info (h.tree_at nt) c ns)) [
          | inl panics ↦ cc (rw panics at e)
          | inr ((t, c1), done) ↦
              subst IsGood (some-fst (store_tree (set_tree h nt t) nt) h' c1 c' (rw done at e))
                (free, rw (==_refl nt) (add_batch-IsCatalog (h.tree_at nt) t c c1 ns hn good done))
        ]
    read_dir-IsGood h h' nt c c' (failed ∷ replies) names old free apart good e =
        subst IsGood (some-fst h h' c c' e) old

    -- An update that reads names of the store keeps a catalog one of the store.
    pub update-IsGood :
        (h h' : Trees Tree) (c c' : Cache) (replies : List Reply)
        → AllNames (λ n. store (trim_store_dir n)) replies
        → IsGood h
        → update b32 bt lru signer_hash local path_info h c (some replies) ≡ some (h', c')
        → IsGood h'
    unfolding update
    update-IsGood h h' c c' replies names (owned, good) e =
        read_dir-IsGood (clone h h.stored).1 h' h.next c c' replies names
          (omega arith, rw (==_false h.stored h.next (owned_ne h owned)) good) (omega arith)
          (owned_ne h owned) (rw (==_refl h.next) good) e

  read_dir_unstored :
      (h h' : Trees Tree) (nt : ℕ) (c c' : Cache) (replies : List Reply)
      → IsUnended replies
      → h.stored ≢ nt
      → read_dir b32 bt lru signer_hash local path_info h nt c replies ≡ some (h', c')
      → loaded h' ≡ loaded h
  unfolding read_dir
  read_dir_unstored h h' nt c c' [] open_end apart e = ap loaded (sym (some-fst h h' c c' e))
  read_dir_unstored h h' nt c c' (more names ∷ replies) open_end apart e =
      elim (Option-cases
        (add_batch b32 bt lru signer_hash local path_info (h.tree_at nt) c names)) [
          | inl panics ↦ cc (rw panics at e)
          | inr ((t, c1), done) ↦
              read_dir_unstored (set_tree h nt t) h' nt c1 c' replies open_end apart (rw done at e)
              ∙ rw (==_false h.stored nt apart)
        ]
  read_dir_unstored h h' nt c c' (last names ∷ replies) open_end apart e = absurd open_end
  read_dir_unstored h h' nt c c' (failed ∷ replies) open_end apart e =
      ap loaded (sym (some-fst h h' c c' e))

  -- Between any two reads of the directory, and behind an update whose reads break off with an error,
  -- the tree that the catalog loads is the one of before, although the batches that were read have been
  -- put into its clone.
  pub update_broken :
      (h h' : Trees Tree) (c c' : Cache) (replies : List Reply)
      → IsOwned h
      → IsUnended replies
      → update b32 bt lru signer_hash local path_info h c (some replies) ≡ some (h', c')
      → loaded h' ≡ loaded h
  unfolding update
  update_broken h h' c c' replies owned open_end e =
      read_dir_unstored (clone h h.stored).1 h' h.next c c' replies open_end (owned_ne h owned) e
      ∙ rw (==_false h.stored h.next (owned_ne h owned))
