-- ===== src/Samples/UpdateRuns.antt =====
-- Runs of the update of the catalog.
use nix_sandwich.Prelude.{
  ℕ, ◌≡◌, refl, Option, none, some, List, [], ◌∷◌, ◌++◌, arith, Bytes, codes, All,
}
use nix_sandwich.SysChecker.Systems.{PresenceFunc}
use nix_sandwich.SysChecker.Batch.{PathInfo}
use nix_sandwich.Catalog.Item.{BtItem}
use nix_sandwich.Catalog.Trees.{Trees, loaded, clone, set_tree, store_tree, new_catalog, IsOwned}
use nix_sandwich.Catalog.Update.{more, last, failed, update}
use nix_sandwich.Catalog.Update.Origin.{IsCatalog}
use nix_sandwich.Catalog.Start.{start, start-IsCatalog}
use nix_sandwich.Catalog.Update.Atomic.{update_broken}
use nix_sandwich.Catalog.Update.Complete.{loaded_tree, add_batches, update-add_batches}
use nix_sandwich.Samples.Instances.{table_lru, no_entries, list_tree, plain_base32}

-- The texts that stand for themselves have 20 bytes as a hash, so the name is long enough for the
-- check of the systems, which looks behind 33 bytes.
abbrev pub hello_name : Bytes
hello_name = codes "aaaaaaaaaaaaaaaaaaaa-hello-wayland-2.12"

abbrev InStore : Bytes → Type 0
InStore n = n ≡ hello_name

abbrev pub path_info : List Bytes → Option (List PathInfo)
path_info ps = some (
    record {
      path = codes "/nix/store/aaaaaaaaaaaaaaaaaaaa-hello-wayland-2.12";
      references = [];
      nar_size = 226560;
      signatures = codes "cache.nixos.org-1:c2ln" ∷ [];
    }
    ∷ [])

abbrev pub seed : Bytes → ℕ
seed s = 7

abbrev pub no_files : Bytes → Option PresenceFunc
no_files s = none

abbrev pub hello_item : BtItem
hello_item = record {
  rest = codes "hello-wayland-2.12";
  hash = codes "aaaaaaaaaaaaaaaaaaaa";
  sys = 0;
  nar_size = 226560;
  signer_hash = 7;
}

-- The clone of the empty tree, with an item.
abbrev grown : Trees (List BtItem)
grown = set_tree (clone (new_catalog []) 0).1 1 (hello_item ∷ [])

only_hello_added :
    update plain_base32 list_tree
      (table_lru ℕ)
      seed
      no_files
      path_info
      (new_catalog [])
      no_entries
      (some (last (hello_name ∷ []) ∷ []))
    ≡ some (store_tree grown 1, no_entries)
unfolding update nix_sandwich.Catalog.Patterns.match_any nix_sandwich.Catalog.Index.has_item
    nix_sandwich.SysChecker.Batch.get_sys_from_store_path_batch
    nix_sandwich.SysChecker.Cached.get_sys_from_path_deps nix_sandwich.Prelude.slice_from
    nix_sandwich.Catalog.Index.insert_item
only_hello_added = refl

-- The second call of Readdirnames fails.
hello_forgotten :
    update plain_base32 list_tree
      (table_lru ℕ)
      seed
      no_files
      path_info
      (new_catalog [])
      no_entries
      (some (more (hello_name ∷ []) ∷ failed ∷ []))
    ≡ some (grown, no_entries)
unfolding update nix_sandwich.Catalog.Patterns.match_any nix_sandwich.Catalog.Index.has_item
    nix_sandwich.SysChecker.Batch.get_sys_from_store_path_batch
    nix_sandwich.SysChecker.Cached.get_sys_from_path_deps nix_sandwich.Prelude.slice_from
    nix_sandwich.Catalog.Index.insert_item
hello_forgotten = refl

update_broken_example : loaded grown ≡ []
update_broken_example =
    update_broken plain_base32 list_tree (table_lru ℕ) seed no_files path_info (new_catalog [])
      grown no_entries no_entries (more (hello_name ∷ []) ∷ failed ∷ []) (omega arith) tt
      hello_forgotten

update-add_batches_example :
    loaded_tree plain_base32 list_tree (table_lru ℕ) seed no_files path_info (
      update plain_base32 list_tree
        (table_lru ℕ)
        seed
        no_files
        path_info
        (new_catalog [])
        no_entries
        (some (more [] ∷ last (hello_name ∷ []) ∷ [])))
    ≡ add_batches plain_base32 list_tree
        (table_lru ℕ)
        seed
        no_files
        path_info
        []
        no_entries
        ([] ∷ [])
        (hello_name ∷ [])
update-add_batches_example =
    update-add_batches plain_base32 list_tree (table_lru ℕ) seed no_files path_info (new_catalog [])
      no_entries ([] ∷ []) (hello_name ∷ [])

-- A directory that cannot be opened, and then one with a name.
second_update_added :
    start plain_base32 list_tree
      (table_lru ℕ)
      seed
      no_files
      path_info
      no_entries
      (none ∷ some (last (hello_name ∷ []) ∷ []) ∷ [])
    ≡ some (store_tree grown 1, no_entries)
unfolding start update nix_sandwich.Catalog.Patterns.match_any nix_sandwich.Catalog.Index.has_item
    nix_sandwich.SysChecker.Batch.get_sys_from_store_path_batch
    nix_sandwich.SysChecker.Cached.get_sys_from_path_deps nix_sandwich.Prelude.slice_from
    nix_sandwich.Catalog.Index.insert_item
second_update_added = refl

start-IsCatalog_example :
    IsCatalog plain_base32 InStore list_tree (hello_item ∷ []) × IsOwned (store_tree grown 1)
start-IsCatalog_example =
    start-IsCatalog plain_base32 list_tree (table_lru ℕ) seed no_files path_info InStore
      (store_tree grown 1) no_entries no_entries (none ∷ some (last (hello_name ∷ []) ∷ []) ∷ [])
      (tt, ((refl, tt), tt)) second_update_added
