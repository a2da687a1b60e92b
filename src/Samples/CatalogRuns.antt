-- ===== src/Samples/CatalogRuns.antt =====
-- Runs of the catalog, among them the tests of catalog_test.go.
use nix_sandwich.Prelude.{
  ℕ, ◌+◌, ◌≤◌, ◌<◌, ◌≡◌, refl, ◌↔◌, Bool, true, false, Option, none, some, List, [], ◌∷◌, ◌++◌,
  arith, Bytes, codes, length, take, get_elem?, has_prefix, All, ok, err,
}
use nix_sandwich.External.NarInfo.{NarInfo}
use nix_sandwich.SysChecker.Systems.{PresenceFunc}
use nix_sandwich.SysChecker.Presence.{store_dir}
use nix_sandwich.SysChecker.Batch.{get_sys_from_nar_info}
use nix_sandwich.Catalog.Names.{
  dash, In, Ascending, find_dashes, find_dashes_exact, match_len, match_len_longest,
}
use nix_sandwich.Catalog.Item.{BtItem, bare_item}
use nix_sandwich.Catalog.Patterns.{match_any, use_expand_nar_res, skip_res, MatchesAny}
use nix_sandwich.Catalog.Patterns.Match.{match_any_iff}
use nix_sandwich.Catalog.FindBase.{
  CatalogResult, no_base_found, want_signer, found, find_base, start_of,
}
use nix_sandwich.Catalog.FindBase.Candidates.{IsCandidate, IsBestBase}
use nix_sandwich.Catalog.FindBase.Chosen.{find_base_best, find_base_none, range_of}
use nix_sandwich.Catalog.FindBase.Similar.{find_base_similar}
use nix_sandwich.Samples.Instances.{table_lru, no_entries, list_tree}

find_dashes_empty : find_dashes [] ≡ []
unfolding find_dashes
find_dashes_empty = refl

find_dashes_two : find_dashes (codes "asdf--eeeee") ≡ 4 ∷ 5 ∷ []
unfolding find_dashes
find_dashes_two = refl

find_dashes_many : find_dashes (codes "-a-b--cdef-") ≡ 0 ∷ 2 ∷ 4 ∷ 5 ∷ 10 ∷ []
unfolding find_dashes
find_dashes_many = refl

match_len_whole : match_len (codes "uiopuiop") (codes "uiopuiop") ≡ 8
unfolding match_len
match_len_whole = refl

match_len_part : match_len (codes "uiOpuiop") (codes "uiopuiop") ≡ 2
unfolding match_len
match_len_part = refl

kernel_expands : match_any use_expand_nar_res (codes "linux-6.1.55") ≡ true
unfolding match_any
kernel_expands = refl

kernel_doc_not : match_any use_expand_nar_res (codes "linux-doc") ≡ false
unfolding match_any
kernel_doc_not = refl

man_pages_expand : match_any use_expand_nar_res (codes "git-2.42.0-man") ≡ true
unfolding match_any
man_pages_expand = refl

drv_skipped : match_any skip_res (codes "hello-2.12.drv") ≡ true
unfolding match_any
drv_skipped = refl

match_any_iff_example :
    (match_any skip_res (codes "hello-2.12.drv") ≡ true)
    ↔ MatchesAny skip_res (codes "hello-2.12.drv")
match_any_iff_example = match_any_iff skip_res (codes "hello-2.12.drv")

-- A catalog with two versions of rsync and one other package.
abbrev hash_a : Bytes
hash_a = codes "aaaaaaaaaaaaaaaaaaaa"

abbrev item_of : Bytes → Bytes → BtItem
item_of name hash = record { rest = name; hash = hash; sys = 0; nar_size = 100; signer_hash = 7 }

abbrev catalog : List BtItem
catalog =
    item_of (codes "rsync-3.2.5") hash_a
    ∷ item_of (codes "rsync-3.2.6") hash_a
    ∷ item_of (codes "rsync-doc-3.2.6") hash_a
    ∷ item_of (codes "zlib-1.3") hash_a
    ∷ []

abbrev rsync_info : NarInfo
rsync_info = record {
  store_path = codes "/nix/store/bbbbbbbbbbbbbbbbbbbbbbbbbbbbbbbb-rsync-3.2.7";
  url = codes "nar/x.nar.xz";
  compression = codes "xz";
  file_hash = codes "f";
  file_size = 50;
  nar_hash = codes "sha256:n";
  nar_size = 120;
  references = [];
  signatures = codes "cache.nixos.org-1" ∷ [];
}

abbrev seed : Bytes → ℕ
seed s = 7

abbrev no_listing : Bytes → Option PresenceFunc
no_listing s = none

abbrev base : CatalogResult
base = record {
  store_path = codes "/nix/store/aaaaaaaaaaaaaaaaaaaa-rsync-3.2.6";
  nar_filter = [];
  nar_size = 100;
}

finds_rsync :
    find_base list_tree
      (table_lru ℕ)
      seed
      (λ h. h)
      no_listing
      catalog
      no_entries
      rsync_info
      (codes "rsync-3.2.7")
    ≡ (ok base, no_entries)
unfolding find_base get_sys_from_nar_info nix_sandwich.Prelude.slice_from
    nix_sandwich.SysChecker.Cached.get_sys_from_path_deps match_any
    nix_sandwich.Catalog.Index.items_between nix_sandwich.Catalog.Item.item_less find_dashes
    match_len
finds_rsync = refl

find_base_best_example :
    (sys : ℕ) × (best : BtItem) × (get_sys_from_nar_info
        (table_lru ℕ)
        no_listing
        no_entries
        rsync_info
      ≡ some (sys, no_entries))
    × IsBestBase sys 7 (codes "rsync-3.2.7") (range_of catalog (codes "rsync-3.2.7")) best
    × (found (λ h. h) (codes "rsync-3.2.7") best ≡ ok base)
unfolding want_signer
find_base_best_example =
    find_base_best list_tree (table_lru ℕ) seed (λ h. h) no_listing catalog no_entries no_entries
      rsync_info (codes "rsync-3.2.7") base finds_rsync

no_base_for_doc :
    find_base list_tree
      (table_lru ℕ)
      seed
      (λ h. h)
      no_listing
      catalog
      no_entries
      rsync_info
      (codes "rsync-a-b-c")
    ≡ (err no_base_found, no_entries)
unfolding find_base get_sys_from_nar_info nix_sandwich.Prelude.slice_from
    nix_sandwich.SysChecker.Cached.get_sys_from_path_deps match_any
    nix_sandwich.Catalog.Index.items_between nix_sandwich.Catalog.Item.item_less find_dashes
no_base_for_doc = refl

find_base_none_example :
    (sys : ℕ) × (get_sys_from_nar_info (table_lru ℕ) no_listing no_entries rsync_info
      ≡ some (sys, no_entries))
    × All
        (λ i. ¬ IsCandidate sys 7 (length (find_dashes (codes "rsync-a-b-c"))) i)
        (range_of catalog (codes "rsync-a-b-c"))
unfolding want_signer
find_base_none_example =
    find_base_none list_tree (table_lru ℕ) seed (λ h. h) no_listing catalog no_entries no_entries
      rsync_info (codes "rsync-a-b-c") no_base_for_doc

find_base_similar_example :
    (hash name : Bytes) × (base.store_path ≡ store_dir ++ b'/' ∷ (hash ++ b'-' ∷ name))
    × (length (find_dashes name) ≡ length (find_dashes (codes "rsync-3.2.7")))
    × (has_prefix name (start_of (codes "rsync-3.2.7") (find_dashes (codes "rsync-3.2.7"))) ≡ true)
    × (length (start_of (codes "rsync-3.2.7") (find_dashes (codes "rsync-3.2.7")))
        ≤ match_len (codes "rsync-3.2.7") name)
find_base_similar_example =
    find_base_similar list_tree (table_lru ℕ) seed (λ h. h) no_listing catalog no_entries no_entries
      rsync_info (codes "rsync-3.2.7") base finds_rsync

find_dashes_exact_example :
    Ascending (find_dashes (codes "a-b-c"))
    × (In 3 (find_dashes (codes "a-b-c")) ↔ (get_elem? (codes "a-b-c") 3 ≡ some dash))
find_dashes_exact_example = find_dashes_exact (codes "a-b-c") 3

match_len_longest_example : (2 ≤ match_len (codes "uiOp") (codes "uiop")) ↔ (
    (2 ≤ length (codes "uiOp"))
    × (2 ≤ length (codes "uiop"))
    × (take 2 (codes "uiOp") ≡ take 2 (codes "uiop")))
match_len_longest_example = match_len_longest (codes "uiOp") (codes "uiop") 2
