-- ===== src/Catalog/Update.antt =====
-- `addBatch`, `set` and `update` of catalog.go, on the trees behind their pointers. `none` is a panic of
-- the check of the systems.
pub mod Origin
pub mod Atomic
pub mod Complete
use nix_sandwich.Prelude.{
  ℕ, ◌*◌, ◌^◌, ◌-◌, Bool, true, false, ◌||◌, Option, none, some, List, [], ◌∷◌, ◌++◌, Bytes, codes,
  length, bytes_eq, cut, trim_prefix, ltb, ◌==◌, if◌then◌else◌,
}
use nix_sandwich.Prelude.Maybe.{◌>>=◌}
use nix_sandwich.External.Lru.{Lru}
use nix_sandwich.External.Base32.{Base32}
use nix_sandwich.SysChecker.Systems.{PresenceFunc, sys_unknown}
use nix_sandwich.SysChecker.Presence.{store_dir}
use nix_sandwich.SysChecker.Batch.{PathInfo, SysResult, get_sys_from_store_path_batch}
use nix_sandwich.Catalog.Names.{dash}
use nix_sandwich.Catalog.Item.{BtItem}
use nix_sandwich.Catalog.Patterns.{match_any, use_expand_nar_res, skip_res}
use nix_sandwich.Catalog.Index.{BTree}
use nix_sandwich.Catalog.Trees.{Trees, clone, set_tree, store_tree}

abbrev pub max_uint32 : ℕ
max_uint32 = 2 ^ 32 - 1

-- What a call of `Readdirnames` gives: names, the last names (with io.EOF), or another error.
pub data Reply : Type 0 where
  more last : List Bytes → Reply
  failed : Reply

-- The name without the store directory in front.
abbrev pub trim_store_dir : Bytes → Bytes
trim_store_dir n = trim_prefix (trim_prefix n store_dir) (codes "/")

module _ (b32 : Base32) where
  -- An item with a name and a decoded hash, and its store path.
  unfoldable pub hashed_item : Bytes → Bytes → Bytes → Option (BtItem × Bytes)
  hashed_item n hash rest = elim (b32.decode_string hash) [
    | none ↦ none
    | some bin_hash ↦
        if length bin_hash == 20
        then some (
          record { rest = rest; hash = bin_hash; sys = sys_unknown; nar_size = 0; signer_hash = 0 },
          store_dir ++ b'/' ∷ n,
        )
        else none
  ]

  -- The body of the loop over the names behind the two trims, up to the look into the tree.
  unfoldable pub cut_entry : Bytes → Option (BtItem × Bytes)
  unfolding hashed_item
  cut_entry n = elim (cut n dash) [
    | none ↦ none
    | some (hash, rest) ↦
        if match_any use_expand_nar_res rest
        then hashed_item n hash rest
        else if match_any skip_res rest
        then none
        else hashed_item n hash rest
  ]

  unfoldable pub entry_of : Bytes → Option (BtItem × Bytes)
  unfolding cut_entry
  entry_of name = cut_entry (trim_store_dir name)

  module _ (bt : BTree) where
    open bt use {Tree, has, replace_or_insert}

    -- `batch` and `storepaths`, which grow together.
    unfoldable pub new_entries : Tree → List Bytes → List (BtItem × Bytes)
    unfolding entry_of
    new_entries nt [] = []
    new_entries nt (n ∷ names) =
        let rest = new_entries nt names in
        elim (entry_of n) [
          | none ↦ rest
          | some (item, path) ↦ if has nt item then rest else (item, path) ∷ rest
        ]

    abbrev pub paths_of : List (BtItem × Bytes) → List Bytes
    paths_of [] = []
    paths_of ((item, path) ∷ batch) = path ∷ paths_of batch

    -- The loop over the results; `uint32(res.narSize)` keeps what fits.
    unfoldable pub insert_results :
        (Bytes → ℕ) → Tree → List (BtItem × Bytes) → List SysResult → Tree
    insert_results signer_hash nt [] results = nt
    insert_results signer_hash nt (entry ∷ batch) [] = nt
    insert_results signer_hash nt ((item, path) ∷ batch) (res ∷ results) =
        insert_results signer_hash
          (if ltb max_uint32 res.nar_size || length res.signer == 0
            then nt
            else replace_or_insert nt (record item {
              sys = res.sys;
              nar_size = res.nar_size;
              signer_hash = signer_hash res.signer;
            }))
          batch results

    module _ (lru : Lru ℕ) (signer_hash : Bytes → ℕ) (local : Bytes → Option PresenceFunc)
        (path_info : List Bytes → Option (List PathInfo)) where
      open lru use {Cache}

      -- Behind the loop over the names: nothing to do, or a check of the systems of the batch.
      unfoldable pub add_entries : Tree → Cache → List (BtItem × Bytes) → Option (Tree × Cache)
      unfolding insert_results
      add_entries nt c [] = some (nt, c)
      add_entries nt c (entry ∷ entries) = do
        let batch = entry ∷ entries
        (results, c') ← get_sys_from_store_path_batch lru local path_info c (paths_of batch)
        some (insert_results signer_hash nt batch results, c')

      unfoldable pub add_batch : Tree → Cache → List Bytes → Option (Tree × Cache)
      unfolding new_entries add_entries
      add_batch nt c names = add_entries nt c (new_entries nt names)

      -- `addBatch` for a pointer: the tree behind it grows.
      abbrev pub add_batch_at : Trees Tree → ℕ → Cache → List Bytes → Option (Trees Tree × Cache)
      add_batch_at h p c names = do
        (t, c') ← add_batch (h.tree_at p) c names
        some (set_tree h p t, c')

      -- `set`
      unfoldable pub set_names : Trees Tree → Cache → List Bytes → Option (Trees Tree × Cache)
      unfolding add_batch
      set_names h c names = do
        let nt = (clone h h.stored).0
        (h', c') ← add_batch_at (clone h h.stored).1 nt c names
        some (store_tree h' nt, c')

      -- The loop of `update` over the replies, with the pointer to the tree that grows.
      unfoldable pub read_dir : Trees Tree → ℕ → Cache → List Reply → Option (Trees Tree × Cache)
      unfolding add_batch
      -- Replies that have not ended yet.
      read_dir h nt c [] = some (h, c)
      read_dir h nt c (more names ∷ replies) = do
        (h', c') ← add_batch_at h nt c names
        read_dir h' nt c' replies
      read_dir h nt c (last names ∷ replies) = do
        (h', c') ← add_batch_at h nt c names
        some (store_tree h' nt, c')
      read_dir h nt c (failed ∷ replies) = some (h, c)

      -- `update`, for a directory that cannot be opened, or that gives these replies.
      unfoldable pub update : Trees Tree → Cache → Option (List Reply) → Option (Trees Tree × Cache)
      unfolding read_dir
      update h c none = some (h, c)
      update h c (some replies) = let (nt, h') = clone h h.stored in read_dir h' nt c replies
