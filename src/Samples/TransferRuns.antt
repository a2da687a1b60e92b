-- ===== src/Samples/TransferRuns.antt =====
-- A transfer of a nar through the filters, and the differ's temporary files.
use nix_sandwich.Prelude.{
  ℕ, ◌≡◌, ◌≢◌, refl, arith, Bool, true, false, Option, none, some, List, [], ◌∷◌, ◌++◌, Bytes,
  codes, drop, bytes_eq, if◌then◌else◌, Outcome, ok, err,
}
use nix_sandwich.External.NarInfo.{NarInfo}
use nix_sandwich.External.Web.{Reply, unreachable, replied}
use nix_sandwich.Algo.Atoi.{pos}
use nix_sandwich.Algo.Pick.{DiffAlgo, zst_algo}
use nix_sandwich.Subst.Types.{DifferRequest}
use nix_sandwich.Subst.Nars.{Expander, MediaType, answered, Served, get_boundary, get_nar_common}
use nix_sandwich.Differ.Download.{ReaderFilter, Decompressor, Downloads, xz}
use nix_sandwich.Differ.Server.{Chances, Server, Answer, differ}
use nix_sandwich.Transfer.Setting.{good, AllGranted, Serves, ServesInfo, Setting}
use nix_sandwich.Transfer.Received.{transfer}
use nix_sandwich.Samples.Servers.{
  long_names, whole_file_tools, whole_file_tools-Restores, number_wire,
}

abbrev pub small_info : NarInfo
small_info = record {
  store_path = codes "/nix/store/00000000000000000000000000000002-hello-2.11";
  url = codes "nar/b.nar.xz";
  compression = codes "xz";
  file_hash = [];
  file_size = 0;
  nar_hash = [];
  nar_size = 0;
  references = [];
  signatures = [];
}

abbrev small_reply : Bytes → Reply
small_reply path =
    if bytes_eq path (codes "/nar/r.nar.xz")
    then replied 200 (codes "R")
    else if bytes_eq path (codes "/nar/abc.nar.xz")
    then replied 200 (codes "R")
    else if bytes_eq path (codes "/nar/b.nar.xz")
    then replied 200 (codes "B")
    else if bytes_eq path (codes "/00000000000000000000000000000002.narinfo")
    then replied 200 (codes "info")
    else unreachable

abbrev pub small_downloads : Downloads
small_downloads = record {
  web = record { get = λ host path. small_reply path; parse_info = λ body. some small_info };
  temps = long_names;
  decompress = λ program body. good (codes "nar " ++ body);
}

-- The filters write a byte in front and take it away.
abbrev mark : ReaderFilter
mark bytes = ok (b'*' ∷ bytes)

abbrev unmark : ReaderFilter
unmark bytes = ok (drop 1 bytes)

abbrev pub small_server : Server
small_server = record {
  downloads = small_downloads;
  tools = whole_file_tools;
  wire = number_wire;
  expand_filter = mark;
  error_text = λ e. [];
  default_upstream = codes "cache.nixos.org";
}

abbrev pub small_expander : Expander
small_expander = record {
  tools = whole_file_tools;
  wire = number_wire;
  dump = λ path. good (codes "nar B");
  expand_filter = mark;
  collapse_filter = unmark;
  collapse_begun = λ bytes. [];
  base_temp = some (codes "base");
}

abbrev pub small_request : DifferRequest
small_request = record {
  req_nar_path = codes "nar/r.nar.xz";
  base_store_path = codes "/nix/store/00000000000000000000000000000002-hello-2.11";
  accept_algos = codes "zstd-3" ∷ [];
  nar_filter = codes "expv2";
  upstream = [];
  base_nar_size = 0;
  req_nar_size = 0;
  req_name = codes "hello-2.12";
}

abbrev pub good_chances : Chances
good_chances = record {
  disk = true;
  req_slot = true;
  base_slot = true;
  delta_slot = true;
  base_first = false;
  header_written = true;
  trailer_written = true;
  end_written = true;
}

abbrev pub small_media : MediaType
small_media = some (codes "multipart/form-data", codes "b")

pub small_granted : AllGranted good_chances
small_granted = record {
  disk = refl;
  req_slot = refl;
  base_slot = refl;
  delta_slot = refl;
  header_written = refl;
  trailer_written = refl;
  end_written = refl;
}

small-Serves :
    Serves small_downloads (codes "cache.nixos.org") (codes "nar/r.nar.xz") (codes "nar R")
unfolding nix_sandwich.Differ.Download.decompressor nix_sandwich.Prelude.Paths.path_ext
    nix_sandwich.Prelude.Paths.path_base
small-Serves = record { body = codes "R"; program = xz; replies = refl; known = refl; plain = refl }

pub base-Serves :
    Serves small_downloads (codes "cache.nixos.org") (codes "nar/b.nar.xz") (codes "nar B")
unfolding nix_sandwich.Differ.Download.decompressor nix_sandwich.Prelude.Paths.path_ext
    nix_sandwich.Prelude.Paths.path_base
base-Serves = record { body = codes "B"; program = xz; replies = refl; known = refl; plain = refl }

pub info_serves :
    ServesInfo small_downloads
      (codes "cache.nixos.org")
      (codes "00000000000000000000000000000002")
      (codes "nar B")
unfolding nix_sandwich.Prelude.slice_from
info_serves = record {
  body = codes "info";
  info = small_info;
  name = codes "hello-2.11";
  replies = refl;
  parsed = refl;
  sliced = refl;
  serves = base-Serves;
}

small-Setting :
    Setting small_server small_expander small_request (zst_algo (pos 3)) [] (codes "nar R")
unfolding nix_sandwich.Algo.Pick.pick_algo nix_sandwich.Algo.Atoi.atoi
    nix_sandwich.Differ.Server.hash_of nix_sandwich.Prelude.Paths.path_base
    nix_sandwich.Differ.Download.filtered nix_sandwich.Subst.Nars.collapsed
    nix_sandwich.Algo.Delta.create_error
small-Setting = record {
  base_nar = codes "nar B";
  filtered_base = codes "*nar B";
  filtered_nar = codes "*nar R";
  req_file = codes "x";
  base_file = codes "xx";
  temp = codes "base";
  picked = refl;
  serves = small-Serves;
  serves_base = info_serves;
  dumped = refl;
  req_named = refl;
  base_named = refl;
  temp_named = refl;
  nar_filtered = refl;
  base_filtered = refl;
  dump_filtered = refl;
  nar_collapsed = refl;
  same_wire = refl;
  created = refl;
}

pub small_bounded : get_boundary small_media ≡ some (codes "b")
unfolding get_boundary
small_bounded = refl

transfer_example :
    (answer : Answer) × (differ small_server good_chances (codes "POST") (some small_request) []
      ≡ (some answer, []))
    × (answer.status ≡ 0)
    × (answer.has_error ≡ false)
    × (served : Served) × (get_nar_common small_expander small_request
          (answered 200 small_media answer.parts false)
        ≡ ok served)
    × (served.body ≡ codes "nar R")
transfer_example =
    transfer small_server small_expander good_chances small_request (zst_algo (pos 3)) []
      (codes "nar R") (codes "b") small_media small_granted small-Setting whole_file_tools-Restores
      small_bounded
