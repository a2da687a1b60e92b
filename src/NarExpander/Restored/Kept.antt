-- ===== src/NarExpander/Restored/Kept.antt =====
-- Entries that are not expanded come back.
use nix_sandwich.Prelude.{
  Bool-cases, ℕ, ◌≡◌, ap, sym, refl, ◌⊎◌, inl, inr, ==_iff, le→ltb, arith, false, none, List, [],
  ◌∷◌, ◌++◌, Bytes, length, take, has_suffix, ok,
}
use nix_sandwich.External.NarTools.{
  EntryType, type_directory, type_symlink, type_regular, Header, NarFile, Output, NarTools,
}
use nix_sandwich.NarExpander.Entries.{Trace, closed, io_copy, write_content}
use nix_sandwich.NarExpander.Expand.{
  meta_suffix, read_full_from_nar, send_bytes, send_bare, pass_through, expand_entry,
}
use nix_sandwich.NarExpander.Collapse.{is_regular, is_meta, keep_entry, read_and_collapse}
use nix_sandwich.NarExpander.Restored.{Gives, gives_closed, gives_send, Gives-then, IsFile, good}

take_all {ℓ} : {A : Type ℓ} (xs : List A) → take (length xs) xs ≡ xs
take_all [] = refl
take_all (x ∷ xs) = ap (λ t. x ∷ t) (take_all xs)

pub read_full :
    (f : NarFile) → length f.content ≡ f.header.size → read_full_from_nar f ≡ ok f.content
unfolding read_full_from_nar
read_full f h =
    rw (sym h, le→ltb (length f.content) (length f.content) (omega arith))
      (ap ok (take_all f.content))

io_copy_good :
    (o : Output) (n : ℕ) → o.failed ≡ false → length o.written ≡ n → io_copy o n ≡ ok o.written
unfolding io_copy
io_copy_good o n h e = rw (h, (==_iff (length o.written) n).1 e)

pub written_lem :
    (h : Header) (bytes : Bytes)
    → length bytes ≡ h.size
    → write_content (record { h = h; r = good bytes; release_fails = false })
      ≡ ok (record { header = h; content = bytes })
unfolding write_content
written_lem h bytes e = rw (io_copy_good (record { written = bytes; failed = false }) h.size refl e)

-- An entry of bytes of the right size is written.
pub Gives-bytes :
    (h : Header) (bytes : Bytes) (t : Trace) (fs : List NarFile)
    → length bytes ≡ h.size
    → Gives t fs
    → Gives (send_bytes h bytes t) (record { header = h; content = bytes } ∷ fs)
Gives-bytes h bytes t fs e g = gives_send _ t bytes fs (written_lem h bytes e) g

-- A reader that copies all entries one by one.
pub Gives-pass : (f : NarFile) → length f.content ≡ f.header.size → Gives (pass_through f) (f ∷ [])
unfolding pass_through
Gives-pass f h = rw (read_full f h) (Gives-bytes f.header f.content closed [] h gives_closed)

Gives-bare : (f : NarFile) → f.content ≡ [] → Gives (send_bare f.header closed) (f ∷ [])
unfolding write_content
Gives-bare f h = gives_send _ closed f.content [] (rw h) gives_closed

-- The entries of one expanded file are written, and give the file again in front of the rest.
unfoldable pub ComesBack : NarTools → NarFile → List NarFile → Type 0
ComesBack tools f gs =
    Gives (expand_entry tools f) gs
    × ((rest fs : List NarFile)
        → Gives (read_and_collapse tools rest none) fs
        → Gives (read_and_collapse tools (gs ++ rest) none) (f ∷ fs))

-- An entry that is no meta data is kept.
collapse_kept :
    (tools : NarTools) (f : NarFile) (rest fs : List NarFile)
    → is_meta f.header ≡ false
    → Gives (keep_entry f) (f ∷ [])
    → Gives (read_and_collapse tools rest none) fs
    → Gives (read_and_collapse tools (f ∷ rest) none) (f ∷ fs)
unfolding read_and_collapse
collapse_kept tools f [] fs not_meta kept g = rw not_meta (Gives-then _ _ (f ∷ []) fs kept g)
collapse_kept tools f (r ∷ rest) fs not_meta kept g =
    rw not_meta (Gives-then _ _ (f ∷ []) fs kept g)

bare_cases : (t : EntryType) → is_regular t ≡ false → (t ≡ type_directory) ⊎ (t ≡ type_symlink)
bare_cases type_directory h = inl refl
bare_cases type_symlink h = inr refl
bare_cases type_regular h = cc

pub expand_directory :
    (tools : NarTools) (f : NarFile)
    → f.header.entry_type ≡ type_directory
    → expand_entry tools f ≡ send_bare f.header closed
unfolding expand_entry
expand_directory tools f h = simp (expand_entry, h)

expand_symlink :
    (tools : NarTools) (f : NarFile)
    → f.header.entry_type ≡ type_symlink
    → expand_entry tools f ≡ send_bare f.header closed
unfolding expand_entry
expand_symlink tools f h = simp (expand_entry, h)

keep_bare :
    (f : NarFile)
    → is_regular f.header.entry_type ≡ false
    → keep_entry f ≡ send_bare f.header closed
unfolding keep_entry
keep_bare f h = simp (h)

keep_file : (f : NarFile) → f.header.entry_type ≡ type_regular → keep_entry f ≡ pass_through f
unfolding keep_entry
keep_file f h = simp (h)

not_meta_bare : (h : Header) → is_regular h.entry_type ≡ false → is_meta h ≡ false
not_meta_bare h e = rw e

not_meta_file : (h : Header) → has_suffix h.path meta_suffix ≡ false → is_meta h ≡ false
not_meta_file h e =
    rw e (elim (Bool-cases (is_regular h.entry_type)) [ inl r ↦ rw r | inr r ↦ rw r ])

pub bare-back :
    (tools : NarTools) (f : NarFile)
    → is_regular f.header.entry_type ≡ false
    → f.content ≡ []
    → ComesBack tools f (f ∷ [])
unfolding ComesBack
bare-back tools f h e =
    let sent = Gives-bare f e in
    (
      elim (bare_cases f.header.entry_type h) [
        | inl d ↦ rw (expand_directory tools f d) sent
        | inr d ↦ rw (expand_symlink tools f d) sent
      ],
      λ rest fs g.
          collapse_kept tools f rest fs (not_meta_bare f.header h) (rw (keep_bare f h) sent) g,
    )

-- A regular file that is passed through when it is expanded.
pub file-back :
    (tools : NarTools) (f : NarFile)
    → IsFile f
    → expand_entry tools f ≡ pass_through f
    → ComesBack tools f (f ∷ [])
unfolding ComesBack
file-back tools f (regular, size, no_meta) e =
    let sent = Gives-pass f size in
    (
      rw e sent,
      λ rest fs g.
          collapse_kept tools f rest fs (not_meta_file f.header no_meta)
            (rw (keep_file f regular) sent) g,
    )
