-- ===== src/Subst/NarInfos/Answered.antt =====
-- What `getNarInfoCommon` can answer, and that the nar of a served narinfo is found.
use nix_sandwich.Prelude.{
  ℕ, ◌^◌, ◌≤◌, ◌≡◌, ◌≢◌, ◌⊎◌, inl, inr, arith, Bool, true, false, Bool-cases, Option-cases, Option,
  none, some, List, [], ◌∷◌, Bytes, bytes_eq, ne_of_bytes_eq, ◌==◌, Outcome, ok, err, panic,
}
use nix_sandwich.External.Lru.{Lru}
use nix_sandwich.External.NarInfo.{NarInfo}
use nix_sandwich.Catalog.FindBase.{CatalogResult, FindError}
use nix_sandwich.Subst.Types.{Config, Recent, AnRequest, replied}
use nix_sandwich.Subst.Recents.{put_recent}
use nix_sandwich.Prelude.Paths.{path_base}
use nix_sandwich.Subst.NarInfos.{
  is_not_found, size_code, nar_url, recent_of, rewritten, served_record, base_hash, Handled, refuse,
  serve_base, serve_nar_info, get_nar_info_common,
}

-- The sizes are within the limits; for the size of the nar, as far as an int can tell.
abbrev pub IsServable : Config → NarInfo → Type 0
IsServable cfg ni =
    (cfg.min_file_size ≤ ni.file_size)
    × (ni.file_size ≤ cfg.max_file_size)
    × ((ni.nar_size ≤ cfg.max_nar_size) ⊎ (2 ^ 63 ≤ ni.nar_size))

size_code-IsServable : (cfg : Config) (ni : NarInfo) → size_code cfg ni ≡ none → IsServable cfg ni
unfolding size_code
size_code-IsServable cfg ni h = ground arith

-- A crash, a refusal that remembers nothing, or a narinfo of servable sizes with a base that is
-- another store path; its request is remembered under the name of the nar and logged.
pub data Answered (lru : Lru Recent) (cfg : Config) (reqid hash : Bytes) (ni : NarInfo)
    (recents : lru.Cache) : Handled lru → Type 0 where
  crashed : Answered lru cfg reqid hash ni recents (panic, recents, [])
  refused :
      (status : ℕ) (message : Bytes) (e : Bool) (log : List AnRequest)
      → Answered lru cfg reqid hash ni recents (refuse lru recents status message e log)
  served :
      (name h : Bytes) (base : CatalogResult)
      → IsServable cfg ni
      → base_hash base ≡ some h
      → h ≢ hash
      → Answered lru cfg reqid hash ni recents (
        ok (recent_of cfg reqid ni name base, rewritten ni),
        put_recent lru recents (path_base (nar_url ni)) (recent_of cfg reqid ni name base),
        served_record reqid ni base (recent_of cfg reqid ni name base) ∷ [],
      )

module _ (lru : Lru Recent) (cfg : Config) (reqid hash : Bytes) (ni : NarInfo)
    (recents : lru.Cache) where
  serve_base-Answered :
      (name : Bytes) (o : Outcome FindError CatalogResult)
      → IsServable cfg ni
      → Answered lru cfg reqid hash ni recents (serve_base lru cfg reqid hash ni name recents o)
  unfolding serve_base
  serve_base-Answered name panic h = crashed
  serve_base-Answered name (err e) h = refused _ _ _ _
  serve_base-Answered name (ok base) h = elim (Option-cases (base_hash base)) [
    | inl e ↦ rw (e, serve_base) crashed
    | inr (b, e) ↦ elim (Bool-cases (bytes_eq b hash)) [
      | inl same ↦ rw (e, serve_base, same) (refused _ _ _ _)
      | inr different ↦
          rw (e, serve_base, different) (served name b base h e (ne_of_bytes_eq b hash different))
    ]
  ]

  module _ {S : Type 0} (find : S → NarInfo → Bytes → Outcome FindError CatalogResult × S) where
    serve_nar_info-Answered :
        (name : Option Bytes) (s : S)
        → Answered lru cfg reqid hash ni recents
            (serve_nar_info lru cfg find reqid hash ni name recents s).0
    unfolding serve_nar_info
    serve_nar_info-Answered none s = refused _ _ _ _
    serve_nar_info-Answered (some name) s = elim (Option-cases (size_code cfg ni)) [
      | inl e ↦
          rw (e, serve_nar_info)
            (serve_base-Answered name (find s ni name).0 (size_code-IsServable cfg ni e))
      | inr (code, e) ↦ rw (e, serve_nar_info) (refused _ _ _ _)
    ]

    -- Every answer to a request is a crash, a refusal that remembers nothing, or a narinfo of servable
    -- sizes, rewritten, with a base that is another store path, whose request is remembered under the
    -- name of the nar in its url and logged.
    pub get_nar_info_common-Answered :
        (path_name : Bytes → Option Bytes) (head : Bool) (code : ℕ) (s : S)
        → Answered lru cfg reqid hash ni recents
            (get_nar_info_common lru cfg find path_name reqid hash head
              (replied code (some ni))
              recents
              s).0
    unfolding get_nar_info_common
    get_nar_info_common-Answered path_name true code s = refused _ _ _ _
    get_nar_info_common-Answered path_name false code s = elim (Bool-cases (is_not_found code)) [
      | inl missing ↦ rw (missing, get_nar_info_common) (refused _ _ _ _)
      | inr there ↦ elim (Bool-cases (code == 200)) [
        | inl fine ↦
            rw (there, fine, get_nar_info_common)
              (serve_nar_info-Answered (path_name ni.store_path) s)
        | inr other ↦ rw (there, other, get_nar_info_common) (refused _ _ _ _)
      ]
    ]
