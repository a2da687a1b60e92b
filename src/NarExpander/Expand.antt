-- ===== src/NarExpander/Expand.antt =====
-- `readAndExpand`, `expandXz`, `expandGz`, `passThrough` and `readFullFromNar` of narexpander.go.
pub mod Order
use nix_sandwich.Prelude.{
  ℕ, ◌-◌, Bool, true, false, ◌&&◌, not, ◌||◌, Option, none, some, List, [], ◌∷◌, ◌++◌, Bytes, codes,
  length, take, drop, bytes_eq, has_suffix, ltb, if◌then◌else◌, Outcome, ok, err, panic,
}
use nix_sandwich.External.NarTools.{
  EntryType, type_directory, type_symlink, type_regular, Header, NarFile, Meta, Output, NarTools,
}
use nix_sandwich.NarExpander.Xz.{XzInfo, XzError, parse_xz, le_uint32}
use nix_sandwich.NarExpander.Entries.{
  ExpandError, short_read, start_failed, Trace, closed, failure, crash, send, ◌then◌, after,
  write_ents,
}

abbrev pub meta_suffix : Bytes
meta_suffix = 1 ∷ codes "_exp1meta_"

abbrev pub data_suffix : Bytes
data_suffix = 1 ∷ codes "_exp2data_"

abbrev pub with_path : Header → Bytes → ℕ → Header
with_path h path size = record {
  path = path;
  entry_type = h.entry_type;
  link_target = h.link_target;
  size = size;
  executable = h.executable;
}

-- The content, of the size that the header says.
unfoldable pub read_full_from_nar : NarFile → Outcome ExpandError Bytes
read_full_from_nar f =
    if ltb (length f.content) f.header.size
    then err short_read
    else ok (take f.header.size f.content)

-- The entry sent for bytes that are held.
abbrev pub send_bytes : Header → Bytes → Trace → Trace
send_bytes h bytes =
    send (record {
      h = h;
      r = some (record { written = bytes; failed = false });
      release_fails = false;
    })

abbrev pub send_bare : Header → Trace → Trace
send_bare h = send (record { h = h; r = none; release_fails = false })

unfoldable pub pass_through : NarFile → Trace
unfolding read_full_from_nar
pass_through f = after (read_full_from_nar f) λ buf. send_bytes f.header buf closed

-- The meta data, and then the output of the process that decompresses; its exit is checked by
-- `release`.
unfoldable pub send_expanded : NarTools → Header → Meta → ℕ → Option Output → Trace
send_expanded tools h meta size run =
    let meta_data = tools.marshal meta in
    send_bytes (with_path h (h.path ++ meta_suffix) (length meta_data)) meta_data (elim run [
      | none ↦ failure start_failed
      | some o ↦
          send
            (record {
              h = with_path h (h.path ++ data_suffix) size;
              r = some (record { written = o.written; failed = false });
              release_fails = o.failed;
            })
            closed
    ])

abbrev pub xz_meta : List Bytes → ℕ → Meta
xz_meta options size = record { algo = codes "xz"; options = options; compressed_size = size }

abbrev pub gz_meta : ℕ → Meta
gz_meta size = record { algo = codes "gz"; options = []; compressed_size = size }

-- The headers of the file decide: passed through if they are not understood.
unfoldable pub send_xz : NarTools → Header → Bytes → Outcome XzError XzInfo → Trace
unfolding send_expanded
send_xz tools h buf (err e) = send_bytes h buf closed
send_xz tools h buf panic = crash
send_xz tools h buf (ok info) =
    send_expanded tools h (xz_meta info.options h.size) info.uncompressed_size
      (tools.xz_decompress buf)

unfoldable pub expand_xz : NarTools → NarFile → Trace
unfolding read_full_from_nar send_xz
expand_xz tools f = after (read_full_from_nar f) λ buf. send_xz tools f.header buf (parse_xz buf)

-- gzip, deflate, no flags, no time, unix.
abbrev pub gz_magic : Bytes
gz_magic = 0x1f ∷ 0x8b ∷ 8 ∷ 0 ∷ 0 ∷ 0 ∷ 0 ∷ 0 ∷ 0 ∷ 3 ∷ []

unfoldable pub is_plain_gz : Bytes → Bool
is_plain_gz buf = not (ltb (length buf) 18 || not (bytes_eq (take 10 buf) gz_magic))

unfoldable pub gz_size : Bytes → ℕ
gz_size buf = le_uint32 (drop (length buf - 4) buf)

unfoldable pub send_gz : NarTools → Header → Bytes → Trace
unfolding send_expanded is_plain_gz
send_gz tools h buf =
    if not (is_plain_gz buf)
    then send_bytes h buf closed
    else send_expanded tools h (gz_meta h.size) (gz_size buf) (tools.gz_decompress buf)

unfoldable pub expand_gz : NarTools → NarFile → Trace
unfolding read_full_from_nar send_gz
expand_gz tools f = after (read_full_from_nar f) λ buf. send_gz tools f.header buf

unfoldable pub expand_regular : NarTools → NarFile → Trace
unfolding expand_xz expand_gz pass_through
expand_regular tools f =
    if has_suffix f.header.path (codes ".xz")
    then expand_xz tools f
    else if has_suffix f.header.path (codes ".gz")
    then expand_gz tools f
    else pass_through f

-- What is sent for one entry.
unfoldable pub expand_entry : NarTools → NarFile → Trace
unfolding expand_regular
expand_entry tools f = elim f.header.entry_type [
  | type_directory ↦ send_bare f.header closed
  | type_symlink ↦ send_bare f.header closed
  | type_regular ↦ expand_regular tools f
]

-- The entries that `Next` answers, and then the end of the nar or an error.
unfoldable pub read_and_expand : NarTools → List NarFile → Option ExpandError → Trace
unfolding expand_entry
read_and_expand tools [] none = closed
read_and_expand tools [] (some e) = failure e
read_and_expand tools (f ∷ fs) ending = expand_entry tools f then read_and_expand tools fs ending

unfoldable pub expand_nar :
    NarTools → List NarFile → Option ExpandError → Outcome ExpandError (List NarFile)
unfolding read_and_expand
expand_nar tools fs ending = write_ents tools [] (read_and_expand tools fs ending)
