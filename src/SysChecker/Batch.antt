-- ===== src/SysChecker/Batch.antt =====
-- `getSysFromStorePathBatch` and `getSysFromNarInfo`. `path_info` is the run of `nix path-info
-- --json` with the decoding of what it prints; it answers none on any error of these. As in
-- SysChecker.Cached the cache is passed along, and `none` is a panic, here also the one of a path
-- that the answer does not list.
use nix_sandwich.Prelude.{
  ℕ, Option, none, some, List, [], ◌∷◌, Bytes, cut, slice_from, bytes_eq, if◌then◌else◌,
}
use nix_sandwich.Prelude.Maybe.{◌>>=◌}
use nix_sandwich.External.Lru.{Lru}
use nix_sandwich.External.NarInfo.{NarInfo}
use nix_sandwich.SysChecker.Systems.{PresenceFunc, sys_unknown}
use nix_sandwich.SysChecker.Cached.{get_sys_from_path_deps}

-- `pathInfoItem`
pub record PathInfo : Type 0 where
  pub path : Bytes
  pub references : List Bytes
  pub nar_size : ℕ
  pub signatures : List Bytes

-- `sysCheckerResult`
pub record SysResult : Type 0 where
  pub sys : ℕ
  pub nar_size : ℕ
  pub signer : Bytes

abbrev pub zero_result : SysResult
zero_result = record { sys = sys_unknown; nar_size = 0; signer = [] }

-- `refMap[storePath]`: the last item of a path counts.
unfoldable pub find_info : List PathInfo → Bytes → Option PathInfo
find_info [] p = none
find_info (i ∷ info) p = elim (find_info info p) [
  | some later ↦ some later
  | none ↦ if bytes_eq i.path p then some i else none
]

-- The name of the first signature, up to its colon.
unfoldable pub first_signer : List Bytes → Bytes
first_signer [] = []
first_signer (s ∷ ss) = elim (cut s b':') [ none ↦ s | some (name, rest) ↦ name ]

module _ (lru : Lru ℕ) where
  open lru use {Cache}

  -- The loop over the store paths, which fills `outs`.
  fill_outs :
      (Bytes → Option PresenceFunc)
      → Cache
      → List PathInfo
      → List Bytes
      → Option (List SysResult × Cache)
  unfolding find_info first_signer
  fill_outs local c info [] = some ([], c)
  fill_outs local c info (p ∷ ps) = do
    item ← find_info info p
    (sys, c') ← get_sys_from_path_deps lru c p item.references 11 local
    (outs, c'') ← fill_outs local c' info ps
    some (
      record { sys = sys; nar_size = item.nar_size; signer = first_signer item.signatures } ∷ outs,
      c'',
    )

  zero_results : List Bytes → List SysResult
  zero_results [] = []
  zero_results (p ∷ ps) = zero_result ∷ zero_results ps

  unfoldable pub get_sys_from_store_path_batch :
      (Bytes → Option PresenceFunc)
      → (List Bytes → Option (List PathInfo))
      → Cache
      → List Bytes
      → Option (List SysResult × Cache)
  unfolding fill_outs zero_results
  get_sys_from_store_path_batch local path_info c store_paths = elim (path_info store_paths) [
    | none ↦ some (zero_results store_paths, c)
    | some info ↦ fill_outs local c info store_paths
  ]

  unfoldable pub get_sys_from_nar_info :
      (Bytes → Option PresenceFunc) → Cache → NarInfo → Option (ℕ × Cache)
  get_sys_from_nar_info listing c ni = do
    store_name ← slice_from 11 ni.store_path
    get_sys_from_path_deps lru c store_name ni.references 0 listing
