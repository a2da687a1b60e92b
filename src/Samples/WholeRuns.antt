-- ===== src/Samples/WholeRuns.antt =====
-- The two requests of Nix, with the differ that answers the substituter.
use nix_sandwich.Prelude.{
  ℕ, ◌≡◌, refl, arith, true, Option, some, [], ◌∷◌, Bytes, codes, Outcome, ok,
}
use nix_sandwich.Algo.Atoi.{pos}
use nix_sandwich.Algo.Pick.{zst_algo}
use nix_sandwich.Subst.Types.{Recent, replied}
use nix_sandwich.Subst.NarInfos.{rewritten, served_record}
use nix_sandwich.Analytics.Records.{request_record, delta_record}
use nix_sandwich.Subst.Nars.{Served}
use nix_sandwich.Subst.Site.{info, nar_bytes, Site, serve}
use nix_sandwich.Differ.Server.{differ}
use nix_sandwich.Differ.Download.{xz}
use nix_sandwich.Transfer.Setting.{Serves, Setting}
use nix_sandwich.Transfer.Whole.{http_of, whole_transfer}
use nix_sandwich.Samples.Instances.{table_lru, no_entries}
use nix_sandwich.Samples.Servers.{whole_file_tools-Restores}
use nix_sandwich.Samples.SubstRuns.{
  small_config, find_hello, name_hello, hello_info, hello_recents, hello_recent, hello_base,
}
use nix_sandwich.Samples.TransferRuns.{
  small_downloads, small_server, small_expander, good_chances, small_media, small_granted,
  info_serves, small_bounded,
}
use nix_sandwich.Samples.SiteRuns.{base32_alphabet, info_request, nar_request}

abbrev whole_site : Site (Unit {0})
whole_site = record {
  lru = table_lru Recent;
  config = small_config;
  find = find_hello;
  path_name = name_hello;
  upstream = λ hash head. replied 200 (some hello_info);
  alphabet = base32_alphabet;
  expander = small_expander;
  send =
      λ req. http_of small_media (differ small_server good_chances (codes "POST") (some req) []).0;
}

hello-Serves :
    Serves small_downloads (codes "cache.nixos.org") (codes "nar/abc.nar.xz") (codes "nar R")
unfolding nix_sandwich.Differ.Download.decompressor nix_sandwich.Prelude.Paths.path_ext
    nix_sandwich.Prelude.Paths.path_base
hello-Serves = record { body = codes "R"; program = xz; replies = refl; known = refl; plain = refl }

hello-Setting :
    Setting small_server small_expander hello_recent.request (zst_algo (pos 3)) [] (codes "nar R")
unfolding nix_sandwich.Algo.Pick.pick_algo nix_sandwich.Algo.Atoi.atoi
    nix_sandwich.Differ.Server.hash_of nix_sandwich.Prelude.Paths.path_base
    nix_sandwich.Differ.Download.filtered nix_sandwich.Subst.Nars.collapsed
    nix_sandwich.Algo.Delta.create_error nix_sandwich.Subst.NarInfos.recent_of
hello-Setting = record {
  base_nar = codes "nar B";
  filtered_base = codes "nar B";
  filtered_nar = codes "nar R";
  req_file = codes "x";
  base_file = codes "xx";
  temp = codes "base";
  picked = refl;
  serves = hello-Serves;
  serves_base = info_serves;
  dumped = refl;
  req_named = refl;
  base_named = refl;
  temp_named = refl;
  nar_filtered = refl;
  base_filtered = refl;
  dump_filtered = refl;
  nar_collapsed = refl;
  same_wire = refl;
  created = refl;
}

whole_info_served : serve whole_site info_request no_entries tt ≡ (
  ok (info (rewritten hello_info)),
  request_record (served_record (codes "id") hello_info hello_base hello_recent) ∷ [],
  hello_recents,
  tt,
)
unfolding serve nix_sandwich.Subst.NarInfos.get_nar_info_common
    nix_sandwich.Subst.Recents.put_recent nix_sandwich.Subst.NarInfos.is_not_found
    nix_sandwich.Prelude.slice_to nix_sandwich.Prelude.Paths.path_base
whole_info_served = refl

whole_transfer_example :
    (served : Served) × ((serve whole_site nar_request hello_recents tt).0 ≡ ok (nar_bytes served))
    × (served.body ≡ codes "nar R")
    × ((serve whole_site nar_request hello_recents tt).1
        ≡ delta_record (codes "id") served.stats ∷ [])
unfolding rewritten served_record
whole_transfer_example =
    whole_transfer whole_site small_server good_chances hello_recent.request (zst_algo (pos 3)) []
      (codes "nar R") (codes "b") small_media info_request nar_request (rewritten hello_info)
      no_entries hello_recents tt tt tt
      (served_record (codes "id") hello_info hello_base hello_recent) whole_info_served refl
      (omega arith) refl refl refl refl small_granted hello-Setting whole_file_tools-Restores
      small_bounded
