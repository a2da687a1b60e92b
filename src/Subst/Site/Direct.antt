-- ===== src/Subst/Site/Direct.antt =====
-- `request` of subst.go: a narinfo and its nar without HTTP in front, as simulate.go asks for them.
pub mod AsServed
use nix_sandwich.Prelude.{
  false, Option, none, some, List, [], ◌++◌, Bytes, cut, Outcome, ok, err, panic,
}
use nix_sandwich.External.NarInfo.{NarInfo}
use nix_sandwich.Algo.Stats.{DiffStats}
use nix_sandwich.Analytics.Records.{AnRecord, request_records}
use nix_sandwich.Subst.Types.{Recent, Refusal}
use nix_sandwich.Subst.NarInfos.{Handled, get_nar_info_common}
use nix_sandwich.Subst.Nars.{Served, get_nar_common, delta_records}
use nix_sandwich.Subst.Site.{Site}

-- The error says which of the two failed, with its status, message and error.
pub data RequestError : Type 0 where
  narinfo_failed nar_failed : Refusal → RequestError

-- Up to the first dash, or all.
unfoldable pub request_hash : Bytes → Bytes
request_hash req = elim (cut req b'-') [ none ↦ req | some (hash, rest) ↦ hash ]

abbrev pub nar_stats : Outcome Refusal Served → Outcome RequestError DiffStats
nar_stats (ok served) = ok served.stats
nar_stats (err r) = err (nar_failed r)
nar_stats panic = panic

module _ {S : Type 0} (site : Site S) where
  open site use {lru}

  abbrev pub Requested : Type 0
  Requested = Outcome RequestError DiffStats × List AnRecord × lru.Cache × S

  -- Behind `getNarInfoCommon`.
  unfoldable pub request_nar : Handled lru × S → Requested
  request_nar ((err r, recents, logged), s) =
      (err (narinfo_failed r), request_records logged, recents, s)
  request_nar ((panic, recents, logged), s) = (panic, request_records logged, recents, s)
  request_nar ((ok (r, ni), recents, logged), s) =
      let o = get_nar_common site.expander r.request (site.send r.request) in
      (nar_stats o, request_records logged ++ delta_records r.id o, recents, s)

  -- `id` is what `newId` makes.
  unfoldable pub request : Bytes → Bytes → lru.Cache → S → Requested
  unfolding request_nar request_hash
  request id req recents s =
      let hash = request_hash req in
      request_nar (
        get_nar_info_common lru site.config site.find site.path_name id hash false
          (site.upstream hash false) recents s)
