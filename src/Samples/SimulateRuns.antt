-- ===== src/Samples/SimulateRuns.antt =====
-- A simulation of one request against a catalog of one name.
use nix_sandwich.Prelude.{
  ℕ, ◌+◌, ◌≤◌, ◌≡◌, refl, arith, ◌%◌, ◌^◌, Option, none, some, List, [], ◌∷◌, ◌++◌, Bytes, codes,
  length, split, Outcome, ok, false,
}
use mathlib.Core.List.Perm
use nix_sandwich.SysChecker.Batch.{PathInfo}
use nix_sandwich.Catalog.FindBase.{FindError, CatalogResult}
use nix_sandwich.Subst.Types.{Recent, replied}
use nix_sandwich.Subst.Nars.{answered}
use nix_sandwich.Subst.Site.{Site}
use nix_sandwich.Simulate.{Summary, trim_space, perform, wanted, load_bases, simulate}
use nix_sandwich.Simulate.Counted.{simulate-adds_up}
use nix_sandwich.Samples.Instances.{Table, table_lru, no_entries, list_tree, plain_base32}
use nix_sandwich.Samples.SubstRuns.{small_config, hello_info}
use nix_sandwich.Samples.TransferRuns.{small_expander, small_media}
use nix_sandwich.Samples.AnswerRuns.{good_parts}
use nix_sandwich.Samples.SiteRuns.{base32_alphabet}
use nix_sandwich.Samples.UpdateRuns.{hello_name, path_info, seed, no_files, hello_item}

trim_space_both : trim_space (codes " \thello \r") ≡ codes "hello"
unfolding trim_space
trim_space_both = refl

abbrev sim_site : Site (Table ℕ)
sim_site = record {
  lru = table_lru Recent;
  config = small_config;
  -- The simulation puts the search in its catalog here.
  find = λ c ni name. (ok (record { store_path = []; nar_filter = []; nar_size = 0 }), c);
  path_name = λ path. some (codes "hello-wayland-2.13");
  upstream = λ hash head. replied 200 (some hello_info);
  alphabet = base32_alphabet;
  expander = small_expander;
  send = λ req. answered 200 small_media good_parts false;
}

abbrev sim_requests : Bytes
sim_requests = codes "/nix/store/00000000000000000000000000000001-hello-wayland-2.13\n\n"

abbrev sim_ids : ℕ → Bytes
sim_ids n = codes "id"

bases_loaded :
    load_bases plain_base32 list_tree
      (table_lru ℕ)
      seed
      no_files
      no_files
      path_info
      no_entries
      hello_name
    ≡ some (hello_item ∷ [], no_entries)
unfolding load_bases nix_sandwich.Catalog.Update.set_names nix_sandwich.Catalog.Patterns.match_any
    nix_sandwich.Catalog.Index.has_item nix_sandwich.SysChecker.Batch.get_sys_from_store_path_batch
    nix_sandwich.SysChecker.Cached.get_sys_from_path_deps nix_sandwich.Prelude.slice_from
    nix_sandwich.Catalog.Index.insert_item
bases_loaded = refl

one_diffed :
    simulate plain_base32 list_tree
      (table_lru ℕ)
      seed
      no_files
      no_files
      path_info
      sim_site
      sim_ids
      (λ xs. xs)
      (some sim_requests)
      (some hello_name)
      no_entries
      no_entries
    ≡ ok (record { paths = 1; diffed = 1; errors = 0 })
unfolding simulate nix_sandwich.Catalog.Update.set_names nix_sandwich.Catalog.Index.has_item
    nix_sandwich.SysChecker.Batch.get_sys_from_store_path_batch
    nix_sandwich.Catalog.Index.insert_item nix_sandwich.Catalog.Patterns.match_any
    nix_sandwich.SysChecker.Cached.get_sys_from_path_deps nix_sandwich.Prelude.slice_from
    nix_sandwich.Subst.NarInfos.get_nar_info_common nix_sandwich.Subst.NarInfos.is_not_found
    nix_sandwich.Catalog.FindBase.find_base nix_sandwich.SysChecker.Batch.get_sys_from_nar_info
    nix_sandwich.Catalog.Index.items_between nix_sandwich.Catalog.Item.item_less
    nix_sandwich.Catalog.Names.find_dashes nix_sandwich.Catalog.Names.match_len
    nix_sandwich.Prelude.slice_to nix_sandwich.Subst.Nars.get_nar_common
    nix_sandwich.Algo.Delta.expand nix_sandwich.Algo.Pick.get_algo
    nix_sandwich.Prelude.Paths.path_base nix_sandwich.Subst.Recents.put_recent
one_diffed = refl

simulate-adds_up_example :
    (sum : Summary) × (simulate plain_base32 list_tree
        (table_lru ℕ)
        seed
        no_files
        no_files
        path_info
        sim_site
        sim_ids
        (λ xs. xs)
        (some sim_requests)
        (some hello_name)
        no_entries
        no_entries
      ≡ ok sum)
    × (sum.paths ≡ length (wanted (split sim_requests b'\n')))
    × ((sum.diffed + sum.errors) % 2 ^ 32 ≡ sum.paths % 2 ^ 32)
unfolding wanted perform nix_sandwich.Catalog.Patterns.match_any
    nix_sandwich.SysChecker.Cached.get_sys_from_path_deps nix_sandwich.Prelude.slice_from
    nix_sandwich.Subst.NarInfos.get_nar_info_common nix_sandwich.Subst.NarInfos.is_not_found
    nix_sandwich.Catalog.FindBase.find_base nix_sandwich.SysChecker.Batch.get_sys_from_nar_info
    nix_sandwich.Catalog.Index.items_between nix_sandwich.Catalog.Item.item_less
    nix_sandwich.Catalog.Names.find_dashes nix_sandwich.Catalog.Names.match_len
    nix_sandwich.Prelude.slice_to nix_sandwich.Subst.Nars.get_nar_common
    nix_sandwich.Algo.Delta.expand nix_sandwich.Algo.Pick.get_algo
    nix_sandwich.Prelude.Paths.path_base nix_sandwich.Subst.Recents.put_recent
simulate-adds_up_example =
    simulate-adds_up plain_base32 list_tree (table_lru ℕ) seed no_files no_files path_info sim_site
      sim_ids (λ xs. xs) sim_requests hello_name no_entries no_entries no_entries (hello_item ∷ [])
      Perm.refl bases_loaded (omega arith, tt)
