-- ===== src/Subst/NarInfos/Found.antt =====
-- The nar of a narinfo that was served is found.
use nix_sandwich.Prelude.{
  ℕ, ◌≡◌, ◌≢◌, refl, ap, arith, Bool, Option, some, List, [], ◌∷◌, ◌++◌, Bytes, codes,
  has_suffix-append, trim_prefix, All-append, Outcome, ok,
}
use nix_sandwich.External.Lru.{Lru}
use nix_sandwich.External.NarInfo.{NarInfo}
use nix_sandwich.Catalog.FindBase.{CatalogResult, FindError}
use nix_sandwich.Subst.Types.{Config, Recent, AnRequest, replied}
use nix_sandwich.Subst.Recents.{put_recent, get_recent, find_nar}
use nix_sandwich.Prelude.Paths.{
  path_split, path_base, IsPlain, path_split-plain, trim_slashes-append,
}
use nix_sandwich.Subst.NarInfos.{nar_url, recent_of, rewritten, get_nar_info_common}
use nix_sandwich.Subst.NarInfos.Answered.{Answered, served, get_nar_info_common-Answered}

path_split-nar : (s : Bytes) → IsPlain s → path_split (codes "nar/" ++ s) ≡ (codes "nar/", s)
unfolding path_split
path_split-nar s h = rw (path_split-plain s h)

path_split-slash_nar :
    (s : Bytes) → IsPlain s → path_split (codes "/nar/" ++ s) ≡ (codes "/nar/", s)
unfolding path_split
path_split-slash_nar s h = rw (path_split-plain s h)

nar_name-IsPlain : (x : Bytes) → IsPlain x → IsPlain (x ++ codes ".nar")
nar_name-IsPlain x h =
    All-append (λ c. c ≢ b'/') x (codes ".nar") h
      (λ e. omega arith, (λ e. omega arith, (λ e. omega arith, (λ e. omega arith, tt))))

find_nar-put :
    (lru : Lru Recent) (recents : lru.Cache) (x : Bytes) (r : Recent)
    → IsPlain x
    → (find_nar lru
        (put_recent lru recents (x ++ codes ".nar") r)
        (codes "GET")
        (codes "/nar/" ++ (x ++ codes ".nar"))).0
      ≡ ok r
unfolding find_nar get_recent put_recent
find_nar-put lru recents x r h = rw (
  path_split-slash_nar (x ++ codes ".nar") (nar_name-IsPlain x h),
  find_nar,
  has_suffix-append x (codes ".nar"),
  lru.get-add_self recents (x ++ codes ".nar") r,
)

nar_name-ne-nil : (x : Bytes) → x ++ codes ".nar" ≢ []
nar_name-ne-nil [] e = cc
nar_name-ne-nil (c ∷ x) e = cc

path_base-nar : (s : Bytes) → IsPlain s → s ≢ [] → path_base (codes "nar/" ++ s) ≡ s
unfolding path_base
path_base-nar [] h some_here = absurd (some_here refl)
path_base-nar (c ∷ s) h some_here =
    rw (trim_slashes-append (codes "nar/") c s h) (ap (λ p. p.1) (path_split-nar (c ∷ s) h))

path_base-nar_url :
    (ni : NarInfo)
    → IsPlain (trim_prefix ni.nar_hash (codes "sha256:"))
    → path_base (nar_url ni) ≡ trim_prefix ni.nar_hash (codes "sha256:") ++ codes ".nar"
unfolding nar_url
path_base-nar_url ni h =
    let x = trim_prefix ni.nar_hash (codes "sha256:") in
    path_base-nar (x ++ codes ".nar") (nar_name-IsPlain x h) (nar_name-ne-nil x)

module _ (lru : Lru Recent) (cfg : Config) (reqid hash : Bytes) (ni : NarInfo)
    (recents : lru.Cache) where
  pub Answered-found :
      (r : Recent) (ni' : NarInfo) (recents' : lru.Cache) (log : List AnRequest)
      → Answered lru cfg reqid hash ni recents (ok (r, ni'), recents', log)
      → IsPlain (trim_prefix ni.nar_hash (codes "sha256:"))
      → (find_nar lru recents' (codes "GET") (b'/' ∷ ni'.url)).0 ≡ ok r
  unfolding rewritten nar_url
  Answered-found _ _ _ _ (served name h base sizes e other) plain =
      rw (path_base-nar_url ni plain) (
        find_nar-put lru recents (trim_prefix ni.nar_hash (codes "sha256:"))
          (recent_of cfg reqid ni name base) plain)

  -- The url of a narinfo that was served leads to the request that was remembered for it, if the hash
  -- of the nar has no slash.
  pub served_nar_found :
      {S : Type 0} (find : S → NarInfo → Bytes → Outcome FindError CatalogResult × S)
      (path_name : Bytes → Option Bytes) (head : Bool) (code : ℕ) (s s' : S) (r : Recent)
      (ni' : NarInfo) (recents' : lru.Cache) (log : List AnRequest)
      → get_nar_info_common lru cfg find path_name reqid hash head
          (replied code (some ni))
          recents
          s
        ≡ ((ok (r, ni'), recents', log), s')
      → IsPlain (trim_prefix ni.nar_hash (codes "sha256:"))
      → (find_nar lru recents' (codes "GET") (b'/' ∷ ni'.url)).0 ≡ ok r
  served_nar_found find path_name head code s s' r ni' recents' log e plain =
      let answered =
        get_nar_info_common-Answered lru cfg reqid hash ni recents find path_name head code s in
      Answered-found r ni' recents' log (rw e at answered) plain
