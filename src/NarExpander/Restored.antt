-- ===== src/NarExpander/Restored.antt =====
-- Collapsing what `ExpandNar` writes: which entries are expanded and into what, and that the same
-- entries come back.
pub mod Kept
pub mod Compressed
pub mod RoundTrip
use nix_sandwich.Prelude.{
  ℕ, ◌≡◌, refl, ◌⊎◌, inl, inr, ◌==◌, ==_iff, &&-true, ltb, ltb→lt, ◌+◌, ◌-◌, arith, Bool, true,
  false, not, ◌&&◌, Option, none, some, List, [], ◌∷◌, ◌++◌, Bytes, codes, length, take, drop,
  length-append, take-append_length, drop-append_length, bytes_eq, bytes_eq_refl, eq→bytes_eq,
  has_suffix, trim_suffix, if◌then◌else◌, Outcome, ok, err, panic, ◌>>=◌,
}
use nix_sandwich.External.NarTools.{
  EntryType, type_directory, type_symlink, type_regular, Header, NarFile, Meta, Output, NarTools,
}
use nix_sandwich.NarExpander.Xz.{XzInfo, XzError, parse_xz}
use nix_sandwich.NarExpander.Entries.{
  ExpandError, NarEntry, Trace, closed, failure, crash, send, ◌then◌, io_copy, write_content,
  write_ents,
}
use nix_sandwich.NarExpander.Expand.{
  meta_suffix, data_suffix, with_path, read_full_from_nar, send_bytes, send_bare, pass_through,
  xz_meta, gz_meta, expand_xz, send_expanded, is_plain_gz, gz_size, expand_gz, expand_entry,
  read_and_expand, expand_nar,
}
use nix_sandwich.NarExpander.Collapse.{
  send_recompressed, recompress_xz, recompress_gz, recompress, is_regular, is_meta, keep_entry,
  read_and_collapse, collapse_nar,
}

-- The writer of a nar takes these entries after the headers before them.
abbrev pub accepted : NarTools → List Header → List NarFile → Bool
accepted tools before [] = tools.close_ok before
accepted tools before (f ∷ fs) =
    tools.header_ok before f.header && accepted tools (before ++ f.header ∷ []) fs

-- A queue from which these entries are written.
pub data Gives : Trace → List NarFile → Type 0 where
  gives_closed : Gives closed []
  gives_send :
      (x : NarEntry) (t : Trace) (content : Bytes) (fs : List NarFile)
      → write_content x ≡ ok (record { header = x.h; content = content })
      → Gives t fs
      → Gives (send x t) (record { header = x.h; content = content } ∷ fs)

pub Gives-then :
    (t k : Trace) (fs gs : List NarFile) → Gives t fs → Gives k gs → Gives (t then k) (fs ++ gs)
unfolding ◌then◌
Gives-then closed k [] gs gives_closed h = h
Gives-then closed k (_ ∷ _) gs g h = elim g [ ]
Gives-then (failure _) k fs gs g h = elim g [ ]
Gives-then crash k fs gs g h = elim g [ ]
Gives-then (send _ _) k _ gs (gives_send x t content fs e g) h =
    gives_send x (t then k) content (fs ++ gs) e (Gives-then t k fs gs g h)

pub write_ents-Gives :
    (tools : NarTools) (t : Trace) (before : List Header) (fs : List NarFile)
    → Gives t fs
    → accepted tools before fs ≡ true
    → write_ents tools before t ≡ ok fs
unfolding write_ents
write_ents-Gives tools closed before [] gives_closed h = rw h
write_ents-Gives tools closed before (_ ∷ _) g h = elim g [ ]
write_ents-Gives tools (failure _) before fs g h = elim g [ ]
write_ents-Gives tools crash before fs g h = elim g [ ]
write_ents-Gives tools (send _ _) before _ (gives_send x t content fs e g) h =
    let (now, later) =
      &&-true (tools.header_ok before x.h) (accepted tools (before ++ x.h ∷ []) fs) h in
    rw (now, e, write_ents-Gives tools t (before ++ x.h ∷ []) fs g later)

-- A regular file with the size its header says, whose name is not that of meta data.
abbrev pub IsFile : NarFile → Type 0
IsFile f =
    (f.header.entry_type ≡ type_regular)
    × (length f.content ≡ f.header.size)
    × (has_suffix f.header.path meta_suffix ≡ false)

abbrev pub meta_file : NarTools → Header → Meta → NarFile
meta_file tools h m = record {
  header = with_path h (h.path ++ meta_suffix) (length (tools.marshal m));
  content = tools.marshal m;
}

abbrev pub data_file : Header → Bytes → NarFile
data_file h data' = record {
  header = with_path h (h.path ++ data_suffix) (length data');
  content = data';
}

abbrev pub good : Bytes → Option Output
good bytes = some (record { written = bytes; failed = false })

-- What an entry is expanded into. A compressed file takes part if its headers are understood, their
-- size is right, the tools restore it and the meta data can be read back.
pub data Expansion (tools : NarTools) : NarFile → List NarFile → Type 0 where
  bare :
      (f : NarFile)
      → is_regular f.header.entry_type ≡ false
      → f.content ≡ []
      → Expansion tools f (f ∷ [])
  other :
      (f : NarFile)
      → IsFile f
      → has_suffix f.header.path (codes ".xz") ≡ false
      → has_suffix f.header.path (codes ".gz") ≡ false
      → Expansion tools f (f ∷ [])
  strange_xz :
      (f : NarFile) (e : XzError)
      → IsFile f
      → has_suffix f.header.path (codes ".xz") ≡ true
      → parse_xz f.content ≡ err e
      → Expansion tools f (f ∷ [])
  strange_gz :
      (f : NarFile)
      → IsFile f
      → has_suffix f.header.path (codes ".xz") ≡ false
      → has_suffix f.header.path (codes ".gz") ≡ true
      → is_plain_gz f.content ≡ false
      → Expansion tools f (f ∷ [])
  xz :
      (f : NarFile) (info : XzInfo) (plain : Bytes)
      → IsFile f
      → has_suffix f.header.path (codes ".xz") ≡ true
      → parse_xz f.content ≡ ok info
      → length plain ≡ info.uncompressed_size
      → tools.xz_decompress f.content ≡ good plain
      → tools.xz_compress info.options plain ≡ good f.content
      → tools.decode (tools.marshal (xz_meta info.options f.header.size))
        ≡ some (xz_meta info.options f.header.size)
      → Expansion tools f (
          meta_file tools f.header (xz_meta info.options f.header.size)
          ∷ data_file f.header plain
          ∷ [])
  gz :
      (f : NarFile) (plain : Bytes)
      → IsFile f
      → has_suffix f.header.path (codes ".xz") ≡ false
      → has_suffix f.header.path (codes ".gz") ≡ true
      → is_plain_gz f.content ≡ true
      → length plain ≡ gz_size f.content
      → tools.gz_decompress f.content ≡ good plain
      → tools.gz_compress plain ≡ good f.content
      → tools.decode (tools.marshal (gz_meta f.header.size)) ≡ some (gz_meta f.header.size)
      → Expansion tools f
          (meta_file tools f.header (gz_meta f.header.size) ∷ data_file f.header plain ∷ [])

pub data Expansions (tools : NarTools) : List NarFile → List NarFile → Type 0 where
  nothing : Expansions tools [] []
  entry :
      (f : NarFile) (gs fs hs : List NarFile)
      → Expansion tools f gs
      → Expansions tools fs hs
      → Expansions tools (f ∷ fs) (gs ++ hs)
