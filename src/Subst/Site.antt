-- ===== src/Subst/Site.antt =====
-- The handlers of subst.go behind `serve`: which one a path leads to, `getCacheInfo`, `getLog`,
-- `getNarInfo` with its pattern, and the status that a client gets by `fw` of fw.go. A path is as the mux of
-- net/http hands it on. The recents and what findBase keeps are the state; of the log, what a request
-- adds.
pub mod Pattern
pub mod Found
pub mod Run
pub mod Logged
pub mod Analyzed
pub mod Direct
pub mod Overlap
pub mod Streamed
use nix_sandwich.Prelude.{
  ℕ, Bool, true, false, not, ◌&&◌, ◌||◌, Option, none, some, List, [], ◌∷◌, ◌++◌, Bytes, codes,
  bytes_eq, has_prefix, ltb, if◌then◌else◌, Outcome, ok, err, panic, ◌==◌,
}
use nix_sandwich.External.Lru.{Lru}
use nix_sandwich.External.NarInfo.{NarInfo}
use nix_sandwich.Catalog.FindBase.{CatalogResult, FindError}
use nix_sandwich.Subst.Types.{Config, DifferRequest, Recent, Response, Refusal}
use nix_sandwich.Analytics.Records.{AnRecord, request_records}
use nix_sandwich.Subst.NarInfos.{Handled, get_nar_info_common}
use nix_sandwich.Subst.Nars.{Expander, Exchange, Served, refusal, get_nar}

-- The handlers that `serve` registers.
pub data Route : Type 0 where
  cache_info log nar nar_info : Route

-- A pattern that ends in a slash stands for all paths under it; the longest one counts.
unfoldable pub route : Bytes → Route
route path =
    if bytes_eq path (codes "/nix-cache-info")
    then cache_info
    else if has_prefix path (codes "/log/")
    then log
    else if has_prefix path (codes "/nar/")
    then nar
    else nar_info

abbrev pub more_of : ℕ → Bytes × Bytes → Bytes × Bytes
more_of c (name, rest) = (c ∷ name, rest)

-- The bytes of the alphabet at the start, and what follows.
unfoldable pub name_part : (ℕ → Bool) → Bytes → Bytes × Bytes
name_part alphabet [] = ([], [])
name_part alphabet (c ∷ s) =
    let more = name_part alphabet s in if alphabet c then more_of c more else ([], c ∷ s)

-- A name and what follows it.
abbrev pub info_type : Bytes × Bytes → Option (Bytes × Bytes)
info_type ([], rest) = none
info_type (c ∷ name, rest) =
    if bytes_eq rest (codes ".narinfo")
    then some (c ∷ name, codes "narinfo")
    else if bytes_eq rest (codes ".ls")
    then some (c ∷ name, codes "ls")
    else none

-- `reInfo`, for the alphabet of nixbase32, which has no dot: the two groups of a match.
unfoldable pub match_info : (ℕ → Bool) → Bytes → Option (Bytes × Bytes)
unfolding name_part
match_info alphabet [] = none
match_info alphabet (c ∷ s) = if c == b'/' then info_type (name_part alphabet s) else none

-- What is sent with status 0.
pub data Body : Type 0 where
  text : Bytes → Body
  info : NarInfo → Body
  nar_bytes : Served → Body

-- A request, with what the semaphore of its handler grants and the id that `newId` makes for it.
pub record Request : Type 0 where
  pub method : Bytes
  pub path : Bytes
  pub granted : Bool
  pub id : Bytes

unfoldable pub get_cache_info : Bytes → Outcome Refusal Body
get_cache_info method =
    if not (bytes_eq method (codes "GET"))
    then refusal 405 [] false
    else ok (text (codes "StoreDir: /nix/store\nWantMassQuery: 0\nPriority: 10\n"))

unfoldable pub get_log : Outcome Refusal Body
get_log = refusal 404 [] false

abbrev pub nar_body : Outcome Refusal Served → Outcome Refusal Body
nar_body (ok served) = ok (nar_bytes served)
nar_body (err r) = err r
nar_body panic = panic

abbrev pub info_body : Outcome Refusal (Recent × NarInfo) → Outcome Refusal Body
info_body (ok (r, ni)) = ok (info ni)
info_body (err r) = err r
info_body panic = panic

-- What the substituter is made from: the cache of recents, the configuration, `findBase`, the name of
-- a store path, upstream, the alphabet of hashes, and the differ.
pub record Site (S : Type 0) : Type 1 where
  pub lru : Lru Recent
  pub config : Config
  pub find : S → NarInfo → Bytes → Outcome FindError CatalogResult × S
  pub path_name : Bytes → Option Bytes
  pub upstream : Bytes → Bool → Response
  pub alphabet : ℕ → Bool
  pub expander : Expander
  pub send : DifferRequest → Exchange

module _ {S : Type 0} (site : Site S) where
  open site use {lru}

  -- What a request gives: the answer, what goes to the log, and the state behind it.
  abbrev pub Answered : Type 0
  Answered = Outcome Refusal Body × List AnRecord × lru.Cache × S

  abbrev pub info_answer : Handled lru × S → Answered
  info_answer ((answer, recents, logged), s) =
      (info_body answer, request_records logged, recents, s)

  abbrev pub nar_answer : S → Outcome Refusal Served × lru.Cache × List AnRecord → Answered
  nar_answer s (answer, recents, logged) = (nar_body answer, logged, recents, s)

  -- `getNarInfo` behind its pattern.
  unfoldable pub get_matched : Request → Option (Bytes × Bytes) → lru.Cache → S → Answered
  get_matched q none recents s = (refusal 404 [] false, [], recents, s)
  get_matched q (some (hash, type)) recents s =
      let head = bytes_eq q.method (codes "HEAD") in
      if bytes_eq type (codes "ls")
      then (refusal 404 [] false, [], recents, s)
      else if not q.granted
      then (refusal 500 (codes "canceled") false, [], recents, s)
      else info_answer (
          get_nar_info_common lru site.config site.find site.path_name q.id hash head
            (site.upstream hash head) recents s)

  unfoldable pub get_nar_info : Request → lru.Cache → S → Answered
  unfolding get_matched match_info
  get_nar_info q recents s =
      if not (bytes_eq q.method (codes "GET") || bytes_eq q.method (codes "HEAD"))
      then (refusal 405 [] false, [], recents, s)
      else get_matched q (match_info site.alphabet q.path) recents s

  unfoldable pub handle : Route → Request → lru.Cache → S → Answered
  unfolding get_nar_info get_log
  handle cache_info q recents s = (get_cache_info q.method, [], recents, s)
  handle log q recents s = (get_log, [], recents, s)
  handle nar q recents s =
      nar_answer s (get_nar lru site.expander site.send q.granted recents q.method q.path)
  handle nar_info q recents s = get_nar_info q recents s

  -- A request to the server of `serve`.
  unfoldable pub serve : Request → lru.Cache → S → Answered
  unfolding handle route
  serve q recents s = handle (route q.path) q recents s

-- `fw`: the status that the client gets, if the handler does not crash. `WriteHeader` does nothing
-- where the body has been begun, which sends 200.
unfoldable pub fw : Outcome Refusal Body → Option ℕ
fw (ok body) = some 200
fw (err r) = if ltb 0 r.status && bytes_eq r.written [] then some r.status else some 200
fw panic = none
