-- ===== src/Samples/SubstRuns.antt =====
-- A run of `getNarInfoCommon` and the request for the nar that follows.
use nix_sandwich.Prelude.{
  arith, ℕ, ◌≡◌, refl, Bool, true, false, Option, none, some, List, [], ◌∷◌, ◌++◌, Bytes, codes,
  Outcome, ok,
}
use nix_sandwich.External.NarInfo.{NarInfo}
use nix_sandwich.Catalog.FindBase.{CatalogResult, FindError}
use nix_sandwich.Subst.Types.{Config, Recent, replied}
use nix_sandwich.Subst.Recents.{put_recent}
use nix_sandwich.Prelude.Paths.{path_base}
use nix_sandwich.Subst.NarInfos.{nar_url, recent_of, rewritten, served_record, get_nar_info_common}
use nix_sandwich.Subst.NarInfos.Answered.{Answered, get_nar_info_common-Answered}
use nix_sandwich.Samples.Instances.{table_lru, no_entries, Table}

abbrev pub small_config : Config
small_config = record {
  min_file_size = 10;
  max_file_size = 1000;
  max_nar_size = 5000;
  diff_algo = codes "zstd-3,xdelta-1";
  upstream = codes "cache.nixos.org";
}

abbrev hello_hash : Bytes
hello_hash = codes "00000000000000000000000000000001"

abbrev pub hello_info : NarInfo
hello_info = record {
  store_path = codes "/nix/store/00000000000000000000000000000001-hello-2.12";
  url = codes "nar/abc.nar.xz";
  compression = codes "xz";
  file_hash = codes "sha256:abc";
  file_size = 100;
  nar_hash = codes "sha256:def";
  nar_size = 400;
  references = [];
  signatures = codes "cache" ∷ [];
}

abbrev pub hello_base : CatalogResult
hello_base = record {
  store_path = codes "/nix/store/00000000000000000000000000000002-hello-2.11";
  nar_filter = [];
  nar_size = 390;
}

abbrev pub find_hello : Unit {0} → NarInfo → Bytes → Outcome FindError CatalogResult × Unit {0}
find_hello s ni name = (ok hello_base, s)

abbrev pub name_hello : Bytes → Option Bytes
name_hello path = some (codes "hello-2.12")

abbrev pub hello_recent : Recent
hello_recent = recent_of small_config (codes "id") hello_info (codes "hello-2.12") hello_base

abbrev pub hello_recents : Table Recent
hello_recents = put_recent (table_lru Recent) no_entries (codes "def.nar") hello_recent

hello_served :
    get_nar_info_common
      (table_lru Recent)
      small_config
      find_hello
      name_hello
      (codes "id")
      hello_hash
      false
      (replied 200 (some hello_info))
      no_entries
      tt
    ≡ (
      (
        ok (hello_recent, rewritten hello_info),
        hello_recents,
        served_record (codes "id") hello_info hello_base hello_recent ∷ [],
      ),
      tt,
    )
unfolding get_nar_info_common nix_sandwich.Subst.NarInfos.is_not_found nix_sandwich.Prelude.slice_to
    path_base
hello_served = refl

get_nar_info_common-Answered_example :
    Answered
      (table_lru Recent)
      small_config
      (codes "id")
      hello_hash
      hello_info
      no_entries
      (get_nar_info_common
        (table_lru Recent)
        small_config
        find_hello
        name_hello
        (codes "id")
        hello_hash
        false
        (replied 200 (some hello_info))
        no_entries
        tt).0
get_nar_info_common-Answered_example =
    get_nar_info_common-Answered (table_lru Recent) small_config (codes "id") hello_hash hello_info
      no_entries find_hello name_hello false 200 tt
