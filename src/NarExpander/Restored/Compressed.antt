-- ===== src/NarExpander/Restored/Compressed.antt =====
-- Entries that are expanded come back.
use nix_sandwich.Prelude.{
  ℕ, ◌≡◌, refl, true, false, none, some, List, [], ◌∷◌, Bytes, codes, length, has_suffix,
  has_suffix-append, trim_suffix-append, if◌then◌else◌, ok, err,
}
use nix_sandwich.External.NarTools.{type_regular, Header, NarFile, Meta, NarTools}
use nix_sandwich.NarExpander.Xz.{XzInfo, XzError, parse_xz}
use nix_sandwich.NarExpander.Entries.{closed, ◌then◌}
use nix_sandwich.NarExpander.Expand.{
  meta_suffix, data_suffix, pass_through, xz_meta, gz_meta, expand_xz, send_expanded, send_xz,
  send_gz, is_plain_gz, gz_size, expand_gz, expand_entry,
}
use nix_sandwich.NarExpander.Collapse.{
  send_recompressed, by_algo, recompress_xz, recompress_gz, recompress, is_meta, read_and_collapse,
}
use nix_sandwich.NarExpander.Restored.{
  Gives, gives_closed, IsFile, meta_file, data_file, good, Expansion, bare, other, strange_xz,
  strange_gz, xz, gz,
}
use nix_sandwich.NarExpander.Restored.Kept.{read_full, Gives-bytes, bare-back, ComesBack, file-back}

expand_regular :
    (tools : NarTools) (f : NarFile)
    → f.header.entry_type ≡ type_regular
    → expand_entry tools f ≡ (
        if has_suffix f.header.path (codes ".xz")
        then expand_xz tools f
        else if has_suffix f.header.path (codes ".gz")
        then expand_gz tools f
        else pass_through f)
unfolding expand_entry
expand_regular tools f h = simp (expand_entry, h)

-- The two entries of an expanded file.
Gives-expanded :
    (tools : NarTools) (h : Header) (m : Meta) (plain : Bytes) (n : ℕ)
    → length plain ≡ n
    → Gives (send_expanded tools h m n (good plain)) (meta_file tools h m ∷ data_file h plain ∷ [])
unfolding send_expanded
Gives-expanded tools h m plain n e =
    rw⁻¹ e
      (Gives-bytes _ (tools.marshal m) _ _ refl (Gives-bytes _ plain closed [] refl gives_closed))

-- The meta data and a data entry that is compressed to the old bytes give the file again.
collapse_expanded :
    (tools : NarTools) (f : NarFile) (m : Meta) (plain : Bytes) (rest fs : List NarFile)
    → f.header.entry_type ≡ type_regular
    → length f.content ≡ f.header.size
    → m.compressed_size ≡ f.header.size
    → tools.decode (tools.marshal m) ≡ some m
    → recompress tools (data_file f.header plain) m
      ≡ send_recompressed (data_file f.header plain).header m (good f.content)
    → Gives (read_and_collapse tools rest none) fs
    → Gives
        (read_and_collapse tools
          (meta_file tools f.header m ∷ data_file f.header plain ∷ rest)
          none)
        (f ∷ fs)
unfolding read_and_collapse send_recompressed ◌then◌
collapse_expanded tools f m plain rest fs regular size same read e g =
    let meta_here : is_meta (meta_file tools f.header m).header ≡ true =
      rw (regular, has_suffix-append f.header.path meta_suffix) in
    rw (meta_here, read, e, same, trim_suffix-append f.header.path data_suffix)
      (Gives-bytes f.header f.content _ fs size g)

recompress_data :
    (tools : NarTools) (h : Header) (plain : Bytes) (m : Meta)
    → recompress tools (data_file h plain) m ≡ by_algo tools (data_file h plain) m
unfolding recompress
recompress_data tools h plain m = rw (has_suffix-append h.path data_suffix)

by_algo_xz :
    (tools : NarTools) (f : NarFile) (options : List Bytes) (n : ℕ)
    → length f.content ≡ f.header.size
    → by_algo tools f (xz_meta options n)
      ≡ send_recompressed f.header (xz_meta options n) (tools.xz_compress options f.content)
unfolding by_algo recompress_xz
by_algo_xz tools f options n h = rw (read_full f h)

by_algo_gz :
    (tools : NarTools) (f : NarFile) (n : ℕ)
    → length f.content ≡ f.header.size
    → by_algo tools f (gz_meta n)
      ≡ send_recompressed f.header (gz_meta n) (tools.gz_compress f.content)
unfolding by_algo recompress_gz
by_algo_gz tools f n h = rw (read_full f h)

recompress_xz_back :
    (tools : NarTools) (h : Header) (plain old : Bytes) (options : List Bytes) (n : ℕ)
    → tools.xz_compress options plain ≡ good old
    → recompress tools (data_file h plain) (xz_meta options n)
      ≡ send_recompressed (data_file h plain).header (xz_meta options n) (good old)
recompress_xz_back tools h plain old options n e = rw (
  recompress_data tools h plain (xz_meta options n),
  by_algo_xz tools (data_file h plain) options n refl,
  e,
)

recompress_gz_back :
    (tools : NarTools) (h : Header) (plain old : Bytes) (n : ℕ)
    → tools.gz_compress plain ≡ good old
    → recompress tools (data_file h plain) (gz_meta n)
      ≡ send_recompressed (data_file h plain).header (gz_meta n) (good old)
recompress_gz_back tools h plain old n e =
    rw (recompress_data tools h plain (gz_meta n), by_algo_gz tools (data_file h plain) n refl, e)

expand_xz_read :
    (tools : NarTools) (f : NarFile)
    → length f.content ≡ f.header.size
    → expand_xz tools f ≡ send_xz tools f.header f.content (parse_xz f.content)
unfolding expand_xz
expand_xz_read tools f h = rw (read_full f h)

expand_gz_read :
    (tools : NarTools) (f : NarFile)
    → length f.content ≡ f.header.size
    → expand_gz tools f ≡ send_gz tools f.header f.content
unfolding expand_gz
expand_gz_read tools f h = rw (read_full f h)

strange_xz_passed :
    (tools : NarTools) (f : NarFile) (e : XzError)
    → length f.content ≡ f.header.size
    → parse_xz f.content ≡ err e
    → expand_xz tools f ≡ pass_through f
unfolding send_xz pass_through
strange_xz_passed tools f e size h = rw (expand_xz_read tools f size, h, read_full f size)

strange_gz_passed :
    (tools : NarTools) (f : NarFile)
    → length f.content ≡ f.header.size
    → is_plain_gz f.content ≡ false
    → expand_gz tools f ≡ pass_through f
unfolding send_gz pass_through
strange_gz_passed tools f size h = rw (expand_gz_read tools f size, read_full f size, h)

known_xz :
    (tools : NarTools) (f : NarFile) (info : XzInfo) (plain : Bytes)
    → IsFile f
    → has_suffix f.header.path (codes ".xz") ≡ true
    → parse_xz f.content ≡ ok info
    → tools.xz_decompress f.content ≡ good plain
    → expand_entry tools f
      ≡ send_expanded tools f.header
          (xz_meta info.options f.header.size)
          info.uncompressed_size
          (good plain)
unfolding send_xz
known_xz tools f info plain (regular, size, _) is_xz h out =
    rw (expand_regular tools f regular, is_xz, expand_xz_read tools f size, h, out)

plain_gz :
    (tools : NarTools) (f : NarFile) (plain : Bytes)
    → IsFile f
    → has_suffix f.header.path (codes ".xz") ≡ false
    → has_suffix f.header.path (codes ".gz") ≡ true
    → is_plain_gz f.content ≡ true
    → tools.gz_decompress f.content ≡ good plain
    → expand_entry tools f
      ≡ send_expanded tools f.header (gz_meta f.header.size) (gz_size f.content) (good plain)
unfolding send_gz
plain_gz tools f plain (regular, size, _) not_xz is_gz h out =
    rw (expand_regular tools f regular, not_xz, is_gz, expand_gz_read tools f size, h, out)

pub Expansion-back :
    (tools : NarTools) (f : NarFile) (gs : List NarFile)
    → Expansion tools f gs
    → ComesBack tools f gs
unfolding ComesBack
Expansion-back tools f _ (bare _ h e) = bare-back tools f h e
Expansion-back tools f _ (other _ file not_xz not_gz) =
    file-back tools f file (rw (expand_regular tools f file.0, not_xz, not_gz))
Expansion-back tools f _ (strange_xz _ e file is_xz h) =
    file-back tools f file
      (rw (expand_regular tools f file.0, is_xz) (strange_xz_passed tools f e file.1 h))
Expansion-back tools f _ (strange_gz _ file not_xz is_gz h) =
    file-back tools f file
      (rw (expand_regular tools f file.0, not_xz, is_gz) (strange_gz_passed tools f file.1 h))
Expansion-back tools f _ (xz _ info plain file is_xz parsed known out back read) =
    let m = xz_meta info.options f.header.size in
    let again = recompress_xz_back tools f.header plain f.content info.options f.header.size back in
    (
      rw (known_xz tools f info plain file is_xz parsed out)
          (Gives-expanded tools f.header m plain info.uncompressed_size known),
      λ rest fs g. collapse_expanded tools f m plain rest fs file.0 file.1 refl read again g,
    )
Expansion-back tools f _ (gz _ plain file not_xz is_gz is_plain known out back read) =
    let m = gz_meta f.header.size in
    let again = recompress_gz_back tools f.header plain f.content f.header.size back in
    (
      rw (plain_gz tools f plain file not_xz is_gz is_plain out)
          (Gives-expanded tools f.header m plain (gz_size f.content) known),
      λ rest fs g. collapse_expanded tools f m plain rest fs file.0 file.1 refl read again g,
    )
