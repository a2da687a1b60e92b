-- ===== src/Catalog/Start.antt =====
-- `newCatalog` and `start` of catalog.go: updates one after the other, each for what the store's
-- directory gives then. The ticker between them is not modelled.
use nix_sandwich.Prelude.{
  ℕ, arith, ◌≡◌, subst, inl, inr, Option, none, some, List, [], ◌∷◌, Bytes, All, Option-cases,
}
use nix_sandwich.Prelude.Maybe.{◌>>=◌, some-fst}
use nix_sandwich.External.Lru.{Lru}
use nix_sandwich.External.Base32.{Base32}
use nix_sandwich.SysChecker.Systems.{PresenceFunc}
use nix_sandwich.SysChecker.Batch.{PathInfo}
use nix_sandwich.Catalog.Index.{BTree}
use nix_sandwich.Catalog.Trees.{Trees, loaded, new_catalog, IsOwned}
use nix_sandwich.Catalog.Update.{Reply, trim_store_dir, update}
use nix_sandwich.Catalog.Update.Origin.{IsCatalog}
use nix_sandwich.Catalog.Update.Atomic.{AllNames, IsGood, update-IsGood}

-- What opening the directory gives: nothing, or replies.
abbrev pub DirNames : (Bytes → Type 0) → Option (List Reply) → Type 0
DirNames P none = Unit
DirNames P (some replies) = AllNames P replies

module _ (b32 : Base32) (bt : BTree) (lru : Lru ℕ) (signer_hash : Bytes → ℕ)
    (local : Bytes → Option PresenceFunc) (path_info : List Bytes → Option (List PathInfo)) where
  open bt use {Tree, empty}
  open lru use {Cache}

  -- The loop of `start`.
  unfoldable pub updates :
      Trees Tree → Cache → List (Option (List Reply)) → Option (Trees Tree × Cache)
  updates h c [] = some (h, c)
  updates h c (dir ∷ dirs) = do
    (h', c') ← update b32 bt lru signer_hash local path_info h c dir
    updates h' c' dirs

  -- `newCatalog`, and then `start`.
  unfoldable pub start : Cache → List (Option (List Reply)) → Option (Trees Tree × Cache)
  unfolding updates
  start c dirs = updates (new_catalog empty) c dirs

  module _ (store : Bytes → Type 0) where
    empty-IsCatalog : IsCatalog b32 store bt empty
    empty-IsCatalog = record { from_store = rw bt.items-empty tt; sorted = rw bt.items-empty tt }

    any_update-IsGood :
        (h h' : Trees Tree) (c c' : Cache) (dir : Option (List Reply))
        → DirNames (λ n. store (trim_store_dir n)) dir
        → IsGood b32 bt lru signer_hash local path_info store h
        → update b32 bt lru signer_hash local path_info h c dir ≡ some (h', c')
        → IsGood b32 bt lru signer_hash local path_info store h'
    unfolding update
    any_update-IsGood h h' c c' none names good e =
        subst (IsGood b32 bt lru signer_hash local path_info store) (some-fst h h' c c' e) good
    any_update-IsGood h h' c c' (some replies) names good e =
        update-IsGood b32 bt lru signer_hash local path_info store h h' c c' replies names good e

    updates-IsGood :
        (h h' : Trees Tree) (c c' : Cache) (dirs : List (Option (List Reply)))
        → All (DirNames (λ n. store (trim_store_dir n))) dirs
        → IsGood b32 bt lru signer_hash local path_info store h
        → updates h c dirs ≡ some (h', c')
        → IsGood b32 bt lru signer_hash local path_info store h'
    unfolding updates
    updates-IsGood h h' c c' [] names good e =
        subst (IsGood b32 bt lru signer_hash local path_info store) (some-fst h h' c c' e) good
    updates-IsGood h h' c c' (dir ∷ dirs) (hd, names) good e =
        elim (Option-cases (update b32 bt lru signer_hash local path_info h c dir)) [
          | inl panics ↦ cc (rw panics at e)
          | inr ((h1, c1), done) ↦
              updates-IsGood h1 h' c1 c' dirs names (any_update-IsGood h h1 c c1 dir hd good done)
                (rw done at e)
        ]

    -- From its start on, and through any number of updates that read names of the store, fail or break
    -- off, the catalog that is loaded is good: each item's hash and name spell a name of the store, the
    -- hash has 20 bytes, the size fits 32 bits, and the items are strictly sorted by itemLess. And the
    -- next clone is none that was stored.
    pub start-IsCatalog :
        (h : Trees Tree) (c c' : Cache) (dirs : List (Option (List Reply)))
        → All (DirNames (λ n. store (trim_store_dir n))) dirs
        → start c dirs ≡ some (h, c')
        → IsCatalog b32 store bt (loaded h) × IsOwned h
    unfolding start
    start-IsCatalog h c c' dirs names e =
        let (owned, good) =
          updates-IsGood (new_catalog empty) h c c' dirs names (omega arith, empty-IsCatalog) e in
        (good, owned)
