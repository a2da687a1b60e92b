-- ===== src/Catalog/Update/Complete.antt =====
-- An update that reads the directory to its end, against the same batches added to a tree as a value.
use nix_sandwich.Prelude.{
  ℕ, ◌≡◌, refl, true, ◌==◌, ==_iff, inl, inr, Option, none, some, List, [], ◌∷◌, Bytes,
  Option-cases,
}
use nix_sandwich.Prelude.Maybe.{◌>>=◌}
use nix_sandwich.External.Lru.{Lru}
use nix_sandwich.External.Base32.{Base32}
use nix_sandwich.SysChecker.Systems.{PresenceFunc}
use nix_sandwich.SysChecker.Batch.{PathInfo}
use nix_sandwich.Catalog.Index.{BTree}
use nix_sandwich.Catalog.Trees.{Trees, loaded, clone, set_tree}
use nix_sandwich.Catalog.Update.{Reply, more, last, add_batch, read_dir, update}

-- The replies of a directory that is read to its end.
abbrev pub read_whole : List (List Bytes) → List Bytes → List Reply
read_whole [] names = last names ∷ []
read_whole (batch ∷ batches) names = more batch ∷ read_whole batches names

==_same : (a : ℕ) → (a == a) ≡ true
==_same a = (==_iff a a).1 refl

module _ (b32 : Base32) (bt : BTree) (lru : Lru ℕ) (signer_hash : Bytes → ℕ)
    (local : Bytes → Option PresenceFunc) (path_info : List Bytes → Option (List PathInfo)) where
  open bt use {Tree}
  open lru use {Cache}

  -- One batch after the other, with a tree as a value.
  abbrev pub add_batches : Tree → Cache → List (List Bytes) → List Bytes → Option (Tree × Cache)
  add_batches t c [] names = add_batch b32 bt lru signer_hash local path_info t c names
  add_batches t c (batch ∷ batches) names = do
    (t', c') ← add_batch b32 bt lru signer_hash local path_info t c batch
    add_batches t' c' batches names

  -- What is loaded behind a run.
  abbrev pub loaded_tree : Option (Trees Tree × Cache) → Option (Tree × Cache)
  loaded_tree none = none
  loaded_tree (some (h, c)) = some (loaded h, c)

  read_dir-add_batches :
      (h : Trees Tree) (nt : ℕ) (c : Cache) (batches : List (List Bytes)) (names : List Bytes)
      → loaded_tree
          (read_dir b32 bt lru signer_hash local path_info h nt c (read_whole batches names))
        ≡ add_batches (h.tree_at nt) c batches names
  unfolding read_dir
  read_dir-add_batches h nt c [] names =
      elim (Option-cases
        (add_batch b32 bt lru signer_hash local path_info (h.tree_at nt) c names)) [
          | inl panics ↦ rw panics
          | inr ((t, c1), done) ↦ rw (done, ==_same nt)
        ]
  read_dir-add_batches h nt c (batch ∷ batches) names =
      elim (Option-cases
        (add_batch b32 bt lru signer_hash local path_info (h.tree_at nt) c batch)) [
          | inl panics ↦ rw panics
          | inr ((t, c1), done) ↦
              rw done
                (rw (==_same nt) at (read_dir-add_batches (set_tree h nt t) nt c1 batches names))
        ]

  -- An update that reads the directory to its end panics exactly where adding its batches one after the
  -- other to the tree of before does, and else the tree that is loaded behind it, and the cache, are
  -- those that this gives.
  pub update-add_batches :
      (h : Trees Tree) (c : Cache) (batches : List (List Bytes)) (names : List Bytes)
      → loaded_tree
          (update b32 bt lru signer_hash local path_info h c (some (read_whole batches names)))
        ≡ add_batches (loaded h) c batches names
  unfolding update
  update-add_batches h c batches names =
      rw (==_same h.next) at (read_dir-add_batches (clone h h.stored).1 h.next c batches names)
