-- ===== src/Subst/NarInfos.antt =====
-- `getNarInfoCommon`. The response of upstream, the name that `nixpath.FromString` reads, and the
-- catalog with what `findBase` uses are parameters.
pub mod Answered
pub mod Found
use nix_sandwich.Prelude.{
  ℕ, ◌^◌, Bool, true, false, not, ◌&&◌, ◌||◌, Option, none, some, List, [], ◌∷◌, ◌++◌, Bytes, codes,
  drop, slice_to, bytes_eq, trim_prefix, split, ltb, ◌==◌, if◌then◌else◌, Outcome, ok, err, panic,
}
use nix_sandwich.Prelude.Decimal.{itoa}
use nix_sandwich.External.Lru.{Lru}
use nix_sandwich.External.NarInfo.{NarInfo}
use nix_sandwich.Catalog.FindBase.{CatalogResult, FindError}
use nix_sandwich.Subst.Types.{
  Config, DifferRequest, Recent, AnRequest, Response, unreachable, replied, Refusal,
}
use nix_sandwich.Subst.Recents.{put_recent}
use nix_sandwich.Prelude.Paths.{path_base}

abbrev pub failed_not_found : Bytes
failed_not_found = codes "notfound"

abbrev pub failed_too_small : Bytes
failed_too_small = codes "toosmall"

abbrev pub failed_too_big : Bytes
failed_too_big = codes "toobig"

abbrev pub failed_no_base : Bytes
failed_no_base = codes "nobase"

abbrev pub failed_identical : Bytes
failed_identical = codes "identical"

unfoldable pub is_not_found : ℕ → Bool
is_not_found code = code == 404 || code == 401 || code == 403

-- `int(n) < bound` and `int(n) > bound` for a uint64: one of 2 ^ 63 or more gets negative.
abbrev pub int_below : ℕ → ℕ → Bool
int_below n bound = ltb n bound || not (ltb n (2 ^ 63))

abbrev pub int_above : ℕ → ℕ → Bool
int_above n bound = ltb bound n && ltb n (2 ^ 63)

-- The code of a size that is not served.
unfoldable pub size_code : Config → NarInfo → Option Bytes
size_code cfg ni =
    let big = int_above ni.file_size cfg.max_file_size || int_above ni.nar_size cfg.max_nar_size in
    if int_below ni.file_size cfg.min_file_size || big
    then some (if big then failed_too_big else failed_too_small)
    else none

-- `ni.StorePath[len(nixpath.StoreDir)+1:]`
abbrev pub store_name : Bytes → Bytes
store_name path = drop 11 path

abbrev pub refused_record : Bytes → NarInfo → Bytes → AnRequest
refused_record reqid ni code = record {
  id = reqid;
  req_store_path = store_name ni.store_path;
  base_store_path = [];
  nar_size = ni.nar_size;
  file_size = ni.file_size;
  failed = code;
  differ_request = none;
}

-- The name of the nar that the new url leads to.
unfoldable pub nar_url : NarInfo → Bytes
nar_url ni = codes "nar/" ++ (trim_prefix ni.nar_hash (codes "sha256:") ++ codes ".nar")

unfoldable pub recent_of : Config → Bytes → NarInfo → Bytes → CatalogResult → Recent
recent_of cfg reqid ni name base = record {
  id = reqid;
  request = record {
    req_nar_path = ni.url;
    base_store_path = base.store_path;
    accept_algos = split cfg.diff_algo b',';
    nar_filter = base.nar_filter;
    upstream = cfg.upstream;
    base_nar_size = base.nar_size;
    req_nar_size = ni.nar_size;
    req_name = name;
  };
}

-- The narinfo for the uncompressed nar.
unfoldable pub rewritten : NarInfo → NarInfo
unfolding nar_url
rewritten ni = record ni {
  url = nar_url ni;
  compression = codes "none";
  file_hash = ni.nar_hash;
  file_size = ni.nar_size;
}

unfoldable pub served_record : Bytes → NarInfo → CatalogResult → Recent → AnRequest
served_record reqid ni base r = record {
  id = reqid;
  req_store_path = store_name ni.store_path;
  base_store_path = store_name base.store_path;
  nar_size = ni.nar_size;
  file_size = ni.file_size;
  failed = [];
  differ_request = some r.request;
}

-- `base.storePath[11:43]`
unfoldable pub base_hash : CatalogResult → Option Bytes
base_hash base = elim (slice_to 43 base.store_path) [ none ↦ none | some p ↦ some (drop 11 p) ]

module _ (lru : Lru Recent) where
  open lru use {Cache}

  -- What a request gives: its answer, the recents, and what goes to the log.
  abbrev pub Handled : Type 0
  Handled = Outcome Refusal (Recent × NarInfo) × Cache × List AnRequest

  abbrev pub refuse : Cache → ℕ → Bytes → Bool → List AnRequest → Handled
  refuse recents status message has_error log = (
    err (record { status = status; message = message; has_error = has_error; written = [] }),
    recents,
    log,
  )

  unfoldable pub serve_base :
      Config → Bytes → Bytes → NarInfo → Bytes → Cache → Outcome FindError CatalogResult → Handled
  unfolding base_hash recent_of rewritten served_record
  serve_base cfg reqid hash ni name recents panic = (panic, recents, [])
  serve_base cfg reqid hash ni name recents (err e) =
      refuse recents 404 [] true (refused_record reqid ni failed_no_base ∷ [])
  serve_base cfg reqid hash ni name recents (ok base) = elim (base_hash base) [
    | none ↦ (panic, recents, [])
    | some h ↦
        if bytes_eq h hash
        then refuse recents 404 [] true (refused_record reqid ni failed_identical ∷ [])
        else (let r = recent_of cfg reqid ni name base in
            (
              ok (r, rewritten ni),
              put_recent lru recents (path_base (nar_url ni)) r,
              served_record reqid ni base r ∷ [],
            ))
  ]

  -- Behind the parser of narinfos. `find` is `findBase`, which may use its cache.
  unfoldable pub serve_nar_info :
      {S : Type 0}
      → Config
      → (S → NarInfo → Bytes → Outcome FindError CatalogResult × S)
      → Bytes
      → Bytes
      → NarInfo
      → Option Bytes
      → Cache
      → S
      → Handled × S
  unfolding serve_base size_code
  serve_nar_info cfg find reqid hash ni none recents s =
      (refuse recents 500 (codes "nixpath parse error") true [], s)
  serve_nar_info cfg find reqid hash ni (some name) recents s = elim (size_code cfg ni) [
    | some code ↦ (
      refuse recents 404
          (name
            ++ (codes " is too "
                ++ (drop 3 code ++ (codes " (" ++ (itoa ni.file_size ++ codes ")")))))
          false (refused_record reqid ni code ∷ []),
      s,
    )
    | none ↦ let (base, s') = find s ni name in (serve_base cfg reqid hash ni name recents base, s')
  ]

  unfoldable pub get_nar_info_common :
      {S : Type 0}
      → Config
      → (S → NarInfo → Bytes → Outcome FindError CatalogResult × S)
      → (Bytes → Option Bytes)
      → Bytes
      → Bytes
      → Bool
      → Response
      → Cache
      → S
      → Handled × S
  unfolding serve_nar_info
  get_nar_info_common cfg find path_name reqid hash head unreachable recents s =
      (refuse recents 500 (codes "upstream http error") true [], s)
  get_nar_info_common cfg find path_name reqid hash head (replied code body) recents s =
      if head
      then (refuse recents code [] false [], s)
      else if is_not_found code
      then (
        refuse recents code (codes "upstream not found") true (
            record {
              id = reqid;
              req_store_path = hash;
              base_store_path = [];
              nar_size = 0;
              file_size = 0;
              failed = failed_not_found;
              differ_request = none;
            }
            ∷ []),
        s,
      )
      else if not (code == 200)
      then (refuse recents code (codes "upstream http status") true [], s)
      else (elim body [
        | none ↦ (refuse recents 500 (codes "narinfo parse error") true [], s)
        | some ni ↦ serve_nar_info cfg find reqid hash ni (path_name ni.store_path) recents s
      ])
