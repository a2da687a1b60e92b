-- ===== src/NarExpander/Pipeline/Sent.antt =====
-- Every entry of a nar makes the reading side of narexpander.go send something.
use nix_sandwich.Prelude.{
  Option, none, some, Bytes, codes, has_suffix, Outcome, ok, err, panic, Bool-cases, ◌≡◌, refl,
  false, inl, inr,
}
use nix_sandwich.External.NarTools.{
  Meta, Output, Header, EntryType, type_directory, type_symlink, type_regular, NarFile, NarTools,
}
use nix_sandwich.NarExpander.Entries.{ExpandError, Trace, closed, after}
use nix_sandwich.NarExpander.Xz.{XzInfo, XzError, parse_xz}
use nix_sandwich.NarExpander.Expand.{
  send_xz, send_gz, send_expanded, is_plain_gz, expand_xz, expand_gz, pass_through, expand_regular,
  expand_entry, read_full_from_nar, send_bytes,
}
use nix_sandwich.NarExpander.Collapse.{
  send_recompressed, recompress_xz, recompress_gz, is_regular, keep_entry,
}
use nix_sandwich.NarExpander.Actions.{is_closed}

module _ {A : Type 0} where
  is_closed-after :
      (o : Outcome ExpandError A) (k : A → Trace)
      → ((a : A) → is_closed (k a) ≡ false)
      → is_closed (after o k) ≡ false
  is_closed-after (ok a) k h = h a
  is_closed-after (err e) k h = refl
  is_closed-after panic k h = refl

is_closed-send_xz :
    (tools : NarTools) (h : Header) (buf : Bytes) (o : Outcome XzError XzInfo)
    → is_closed (send_xz tools h buf o) ≡ false
unfolding send_xz send_expanded
is_closed-send_xz tools h buf (ok info) = refl
is_closed-send_xz tools h buf (err e) = refl
is_closed-send_xz tools h buf panic = refl

is_closed-send_gz :
    (tools : NarTools) (h : Header) (buf : Bytes) → is_closed (send_gz tools h buf) ≡ false
unfolding send_gz send_expanded
is_closed-send_gz tools h buf = elim (Bool-cases (is_plain_gz buf)) [
  | inl plain ↦ rw plain
  | inr other ↦ rw other
]

is_closed-expand_xz : (tools : NarTools) (f : NarFile) → is_closed (expand_xz tools f) ≡ false
unfolding expand_xz
is_closed-expand_xz tools f =
    is_closed-after (read_full_from_nar f) _
      (λ buf. is_closed-send_xz tools f.header buf (parse_xz buf))

is_closed-expand_gz : (tools : NarTools) (f : NarFile) → is_closed (expand_gz tools f) ≡ false
unfolding expand_gz
is_closed-expand_gz tools f =
    is_closed-after (read_full_from_nar f) _ (is_closed-send_gz tools f.header)

pub is_closed-pass_through : (f : NarFile) → is_closed (pass_through f) ≡ false
unfolding pass_through
is_closed-pass_through f =
    is_closed-after (read_full_from_nar f) (λ buf. send_bytes f.header buf closed) (λ buf. refl)

is_closed-regular : (tools : NarTools) (f : NarFile) → is_closed (expand_regular tools f) ≡ false
unfolding expand_regular
is_closed-regular tools f = elim (Bool-cases (has_suffix f.header.path (codes ".xz"))) [
  | inl x ↦ rw x (is_closed-expand_xz tools f)
  | inr no_x ↦ elim (Bool-cases (has_suffix f.header.path (codes ".gz"))) [
    | inl g ↦ rw (no_x, g) (is_closed-expand_gz tools f)
    | inr no_g ↦ rw (no_x, no_g) (is_closed-pass_through f)
  ]
]

-- Something is sent for every entry.
pub is_closed-expand_entry :
    (tools : NarTools) (f : NarFile) → is_closed (expand_entry tools f) ≡ false
unfolding expand_entry
is_closed-expand_entry tools f = by_type f.header.entry_type refl
  where
    by_type : (ty : EntryType) → f.header.entry_type ≡ ty → is_closed (expand_entry tools f) ≡ false
    by_type type_directory e = rw (expand_entry, e)
    by_type type_symlink e = rw (expand_entry, e)
    by_type type_regular e = rw (expand_entry, e) (is_closed-regular tools f)

is_closed-send_recompressed :
    (h : Header) (meta : Meta) (run : Option Output)
    → is_closed (send_recompressed h meta run) ≡ false
unfolding send_recompressed
is_closed-send_recompressed h meta none = refl
is_closed-send_recompressed h meta (some o) = refl

pub is_closed-recompress_xz :
    (tools : NarTools) (f : NarFile) (meta : Meta) → is_closed (recompress_xz tools f meta) ≡ false
unfolding recompress_xz
is_closed-recompress_xz tools f meta =
    is_closed-after (read_full_from_nar f) _
      (λ buf. is_closed-send_recompressed f.header meta (tools.xz_compress meta.options buf))

pub is_closed-recompress_gz :
    (tools : NarTools) (f : NarFile) (meta : Meta) → is_closed (recompress_gz tools f meta) ≡ false
unfolding recompress_gz
is_closed-recompress_gz tools f meta =
    is_closed-after (read_full_from_nar f) _
      (λ buf. is_closed-send_recompressed f.header meta (tools.gz_compress buf))

pub is_closed-keep_entry : (f : NarFile) → is_closed (keep_entry f) ≡ false
unfolding keep_entry
is_closed-keep_entry f = elim (Bool-cases (is_regular f.header.entry_type)) [
  | inl file ↦ rw file (is_closed-pass_through f)
  | inr other ↦ rw other
]
