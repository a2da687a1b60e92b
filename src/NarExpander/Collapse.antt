-- ===== src/NarExpander/Collapse.antt =====
-- `readAndCollapse`, `readMeta`, `recompressXz` and `recompressGz` of narexpander.go.
use nix_sandwich.Prelude.{
  Bool, true, false, not, ◌&&◌, Option, none, some, List, [], ◌∷◌, codes, bytes_eq, has_suffix,
  trim_suffix, if◌then◌else◌, Outcome,
}
use nix_sandwich.External.NarTools.{
  EntryType, type_directory, type_symlink, type_regular, Header, NarFile, Meta, Output, NarTools,
}
use nix_sandwich.NarExpander.Entries.{
  ExpandError, start_failed, bad_meta, unexpected_eof, bad_expanded, unexpected_algo, Trace, closed,
  failure, send, ◌then◌, after, write_ents,
}
use nix_sandwich.NarExpander.Expand.{
  meta_suffix, data_suffix, with_path, read_full_from_nar, send_bare, pass_through,
}

-- The output of the process that compresses; its exit comes with the end of the output.
unfoldable pub send_recompressed : Header → Meta → Option Output → Trace
send_recompressed h meta none = failure start_failed
send_recompressed h meta (some o) =
    send
      (record {
        h = with_path h (trim_suffix h.path data_suffix) meta.compressed_size;
        r = some o;
        release_fails = false;
      })
      closed

unfoldable pub recompress_xz : NarTools → NarFile → Meta → Trace
unfolding send_recompressed
recompress_xz tools f meta =
    after (read_full_from_nar f)
      λ buf. send_recompressed f.header meta (tools.xz_compress meta.options buf)

unfoldable pub recompress_gz : NarTools → NarFile → Meta → Trace
unfolding send_recompressed
recompress_gz tools f meta =
    after (read_full_from_nar f) λ buf. send_recompressed f.header meta (tools.gz_compress buf)

unfoldable pub by_algo : NarTools → NarFile → Meta → Trace
unfolding recompress_xz recompress_gz
by_algo tools f meta =
    if bytes_eq meta.algo (codes "xz")
    then recompress_xz tools f meta
    else if bytes_eq meta.algo (codes "gz")
    then recompress_gz tools f meta
    else failure unexpected_algo

-- The entry behind the meta data.
unfoldable pub recompress : NarTools → NarFile → Meta → Trace
unfolding by_algo
recompress tools f meta =
    if not (has_suffix f.header.path data_suffix)
    then failure bad_expanded
    else by_algo tools f meta

abbrev pub is_regular : EntryType → Bool
is_regular type_directory = false
is_regular type_symlink = false
is_regular type_regular = true

abbrev pub is_meta : Header → Bool
is_meta h = is_regular h.entry_type && has_suffix h.path meta_suffix

-- An entry that is no meta data.
unfoldable pub keep_entry : NarFile → Trace
keep_entry f = if is_regular f.header.entry_type then pass_through f else send_bare f.header closed

abbrev pub missing_data : Option ExpandError → Trace
missing_data none = failure unexpected_eof
missing_data (some e) = failure e

unfoldable pub read_and_collapse : NarTools → List NarFile → Option ExpandError → Trace
unfolding recompress keep_entry
read_and_collapse tools [] none = closed
read_and_collapse tools [] (some e) = failure e
read_and_collapse tools (f ∷ []) ending =
    let rest = read_and_collapse tools [] ending in
    if is_meta f.header
    then (elim (tools.decode f.content) [
      | none ↦ failure bad_meta
      | some meta ↦ missing_data ending
    ])
    else keep_entry f then rest
read_and_collapse tools (f ∷ g ∷ fs) ending =
    let rest = read_and_collapse tools fs ending in
    let next = read_and_collapse tools (g ∷ fs) ending in
    if is_meta f.header
    then (elim (tools.decode f.content) [
      | none ↦ failure bad_meta
      | some meta ↦ recompress tools g meta then rest
    ])
    else keep_entry f then next

unfoldable pub collapse_nar :
    NarTools → List NarFile → Option ExpandError → Outcome ExpandError (List NarFile)
unfolding read_and_collapse
collapse_nar tools fs ending = write_ents tools [] (read_and_collapse tools fs ending)
