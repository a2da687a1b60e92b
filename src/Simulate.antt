-- ===== src/Simulate.antt =====
-- simulate.go: requests from a file, against a catalog from a file. The requests run one after the
-- other, in an order that the scheduler chooses; in the program they also overlap. The differ that may
-- run beside is what the site sends to. Spaces are those of ASCII.
pub mod Counted
use nix_sandwich.Prelude.{
  ℕ, suc, ◌+◌, ◌-◌, ◌%◌, ◌^◌, Bool, true, false, ◌&&◌, ◌||◌, Option, none, some, List, [], ◌∷◌,
  Bytes, length, slice_from, bytes_eq, split, leb, ◌==◌, if◌then◌else◌, Outcome, ok, err, panic,
}
use nix_sandwich.Prelude.Maybe.{◌>>=◌}
use nix_sandwich.External.Lru.{Lru}
use nix_sandwich.External.Base32.{Base32}
use nix_sandwich.Algo.Stats.{DiffStats}
use nix_sandwich.SysChecker.Systems.{PresenceFunc}
use nix_sandwich.SysChecker.Batch.{PathInfo}
use nix_sandwich.Catalog.Index.{BTree}
use nix_sandwich.Catalog.FindBase.{find_base}
use nix_sandwich.Catalog.Trees.{loaded, new_catalog}
use nix_sandwich.Catalog.Update.{trim_store_dir, set_names}
use nix_sandwich.Subst.Site.{Site}
use nix_sandwich.Subst.Site.Direct.{RequestError, request}

-- Tab, line feed, vertical tab, form feed, carriage return and space.
abbrev pub is_space : ℕ → Bool
is_space c = c == b' ' || (leb 9 c && leb c 13)

-- `strings.TrimSpace`
abbrev pub trim_left : Bytes → Bytes
trim_left [] = []
trim_left (c ∷ s) = let rest = trim_left s in if is_space c then rest else c ∷ s

abbrev pub trim_end : ℕ → Bytes → Bytes
trim_end c [] = if is_space c then [] else c ∷ []
trim_end c (d ∷ ds) = c ∷ d ∷ ds

abbrev pub trim_right : Bytes → Bytes
trim_right [] = []
trim_right (c ∷ s) = trim_end c (trim_right s)

unfoldable pub trim_space : Bytes → Bytes
trim_space s = trim_right (trim_left s)

-- A line with nothing but spaces is skipped.
abbrev pub is_blank : Bytes → Bool
is_blank line = bytes_eq (trim_space line) []

unfoldable pub skipped : List Bytes → ℕ
unfolding trim_space
skipped [] = 0
skipped (line ∷ lines) = (if is_blank line then 1 else 0) + skipped lines

-- The names that are asked for.
unfoldable pub wanted : List Bytes → List Bytes
unfolding trim_space
wanted [] = []
wanted (line ∷ lines) =
    let rest = wanted lines in
    if is_blank line then rest else trim_store_dir (trim_space line) ∷ rest

abbrev pub Result : Type 0
Result = Bytes × Outcome RequestError DiffStats

-- The requests, with the ids that `newId` makes.
unfoldable pub perform :
    {S : Type 0} (site : Site S) → (ℕ → Bytes) → ℕ → List Bytes → site.lru.Cache → S → List Result
unfolding request
perform site ids n [] recents s = []
perform site ids n (req ∷ reqs) recents s =
    let (o, logged, recents', s') = request site (ids n) req recents s in
    (req, o) ∷ perform site ids (suc n) reqs recents' s'

-- `success` and `errors`, 32 bits each.
pub record Counters : Type 0 where
  pub success : ℕ
  pub errors : ℕ

abbrev pub int32_add : ℕ → ℕ → ℕ
int32_add a b = (a + b) % 2 ^ 32

-- One result; `none` is a crash, in the request or in `req[33:]`.
abbrev pub count_result : Counters → Result → Option Counters
count_result k (req, err e) = some (record k { errors = int32_add k.errors 1 })
count_result k (req, panic) = none
count_result k (req, ok stats) = elim (slice_from 33 req) [
  | none ↦ none
  | some name ↦ some (record k { success = int32_add k.success 1 })
]

unfoldable pub count_results : Counters → List Result → Option Counters
count_results k [] = some k
count_results k (result ∷ results) = elim (count_result k result) [
  | none ↦ none
  | some k' ↦ count_results k' results
]

-- What is printed at the end.
pub record Summary : Type 0 where
  pub paths : ℕ
  pub diffed : ℕ
  pub errors : ℕ

-- The file that could not be read.
pub data FileError : Type 0 where
  no_requests no_bases : FileError

abbrev pub summary_of : ℕ → Option Counters → Outcome FileError Summary
summary_of paths none = panic
summary_of paths (some k) = ok (record { paths = paths; diffed = k.success; errors = k.errors })

abbrev pub no_counts : Counters
no_counts = record { success = 0; errors = 0 }

module _ (b32 : Base32) (bt : BTree) (lru : Lru ℕ) (signer_hash : Bytes → ℕ)
    (local listing : Bytes → Option PresenceFunc)
    (path_info : List Bytes → Option (List PathInfo)) where
  open bt use {Tree, empty}
  open lru use {Cache}

  -- The substituter with the catalog of a tree.
  abbrev pub with_tree : Site Cache → Tree → Site Cache
  with_tree site t = record site { find = find_base bt lru signer_hash b32.encode_string listing t }

  -- `newCatalog` and `set` on the lines of the file.
  unfoldable pub load_bases : Cache → Bytes → Option (Tree × Cache)
  load_bases c base = do
    (h, c') ←
        set_names b32 bt lru signer_hash local path_info (new_catalog empty) c (split base b'\n')
    some (loaded h, c')

  module _ (site : Site Cache) (ids : ℕ → Bytes) (schedule : List Bytes → List Bytes) where
    -- The loop over the lines, for a catalog, and the end.
    unfoldable pub run_lines :
        Tree → Cache → site.lru.Cache → List Bytes → Outcome FileError Summary
    unfolding skipped wanted perform count_results
    run_lines t c recents lines = summary_of (length lines - skipped lines) (
        count_results no_counts
          (perform (with_tree site t) ids 0 (schedule (wanted lines)) recents c))

    -- The contents of the two files, as far as they can be read.
    unfoldable pub simulate :
        Option Bytes → Option Bytes → Cache → site.lru.Cache → Outcome FileError Summary
    unfolding load_bases run_lines
    simulate none base c recents = err no_requests
    simulate (some req) none c recents = err no_bases
    simulate (some req) (some base) c recents = elim (load_bases c base) [
      | none ↦ panic
      | some (t, c') ↦ run_lines t c' recents (split req b'\n')
    ]
