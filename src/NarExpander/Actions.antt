-- ===== src/NarExpander/Actions.antt =====
-- The reading side of narexpander.go as the sequence of what it waits for and sends: `readAndExpand`
-- and `readAndCollapse` with the semaphore.
use nix_sandwich.Prelude.{
  codes, bytes_eq, has_suffix, not, ℕ, ◌+◌, Bool, true, false, Option, none, some, List, [], ◌∷◌,
  ltb, if◌then◌else◌, Outcome,
}
use nix_sandwich.External.NarTools.{
  EntryType, type_directory, type_symlink, type_regular, NarFile, Meta, NarTools,
}
use nix_sandwich.NarExpander.Entries.{
  ExpandError, bad_meta, unexpected_eof, bad_expanded, unexpected_algo, NarEntry, Trace, closed,
  failure, crash, send,
}
use nix_sandwich.NarExpander.Expand.{data_suffix, expand_entry, expand_nar}
use nix_sandwich.NarExpander.Collapse.{
  recompress_xz, recompress_gz, keep_entry, is_meta, collapse_nar,
}

-- What the reading side waits for and sends. An entry carries what its `release` gives back.
pub data Action : Type 0 where
  acquire : ℕ → Action
  put : NarEntry → ℕ → Action
  put_error : ExpandError → Action
  die : Action

abbrev pub smaller : ℕ → ℕ → ℕ
smaller a b = if ltb a b then a else b

abbrev pub is_closed : Trace → Bool
is_closed closed = true
is_closed _ = false

-- What is sent for one entry of a nar, which holds `k`: its last entry releases it. Nothing follows an error.
abbrev pub sends : ℕ → Trace → List Action → List Action
sends k closed rest = rest
sends k (failure e) rest = put_error e ∷ []
sends k crash rest = die ∷ []
sends k (send x t) rest = put x (if is_closed t then k else 0) ∷ sends k t rest

-- Files wait for the semaphore, for at most all of it.
abbrev pub holding : ℕ → ℕ → EntryType → Trace → List Action → List Action
holding capacity size type_directory t rest = sends 0 t rest
holding capacity size type_symlink t rest = sends 0 t rest
holding capacity size type_regular t rest =
    acquire (smaller capacity size) ∷ sends (smaller capacity size) t rest

-- `readAndExpand`
unfoldable pub expand_actions : ℕ → NarTools → List NarFile → Option ExpandError → List Action
expand_actions capacity tools [] none = []
expand_actions capacity tools [] (some e) = put_error e ∷ []
expand_actions capacity tools (f ∷ fs) ending =
    holding capacity f.header.size f.header.entry_type (expand_entry tools f)
      (expand_actions capacity tools fs ending)

-- `recompressXz` and `recompressGz`: the plain content and the compressed one are held.
abbrev pub recompressing : ℕ → Trace → List Action → List Action
recompressing k t rest = acquire k ∷ sends k t rest

-- The data behind the meta data.
unfoldable pub data_actions : ℕ → NarTools → NarFile → Meta → List Action → List Action
data_actions capacity tools f meta rest =
    let k = smaller capacity (f.header.size + meta.compressed_size) in
    if not (has_suffix f.header.path data_suffix)
    then put_error bad_expanded ∷ []
    else if bytes_eq meta.algo (codes "xz")
    then recompressing k (recompress_xz tools f meta) rest
    else if bytes_eq meta.algo (codes "gz")
    then recompressing k (recompress_gz tools f meta) rest
    else put_error unexpected_algo ∷ []

abbrev pub missing_actions : Option ExpandError → List Action
missing_actions none = put_error unexpected_eof ∷ []
missing_actions (some e) = put_error e ∷ []

abbrev pub kept_actions : ℕ → NarFile → List Action → List Action
kept_actions capacity f rest =
    holding capacity f.header.size f.header.entry_type (keep_entry f) rest

-- `readAndCollapse`
unfoldable pub collapse_actions : ℕ → NarTools → List NarFile → Option ExpandError → List Action
unfolding data_actions
collapse_actions capacity tools [] none = []
collapse_actions capacity tools [] (some e) = put_error e ∷ []
collapse_actions capacity tools (f ∷ []) ending =
    let rest = collapse_actions capacity tools [] ending in
    if is_meta f.header
    then (elim (tools.decode f.content) [
      | none ↦ put_error bad_meta ∷ []
      | some meta ↦ missing_actions ending
    ])
    else kept_actions capacity f rest
collapse_actions capacity tools (f ∷ g ∷ fs) ending =
    let rest = collapse_actions capacity tools fs ending in
    let next = collapse_actions capacity tools (g ∷ fs) ending in
    if is_meta f.header
    then (elim (tools.decode f.content) [
      | none ↦ put_error bad_meta ∷ []
      | some meta ↦ data_actions capacity tools g meta rest
    ])
    else kept_actions capacity f next

-- The two filters, and what each is to come to.
pub data Filter : Type 0 where
  expanding collapsing : Filter

abbrev pub actions : Filter → ℕ → NarTools → List NarFile → Option ExpandError → List Action
actions expanding = expand_actions
actions collapsing = collapse_actions

abbrev pub nar_of :
    Filter → NarTools → List NarFile → Option ExpandError → Outcome ExpandError (List NarFile)
nar_of expanding = expand_nar
nar_of collapsing = collapse_nar
