-- ===== src/Differ/Download/Uncompressed.antt =====
-- The download of a nar that is not compressed.
use nix_sandwich.Prelude.{
  ℕ, ◌≡◌, ◌≢◌, refl, ◌∙◌, ap, arith, Bool-cases, Option-cases, inl, inr, Option, none, [], ◌∷◌,
  ◌++◌, Bytes, codes, ◌==◌, ok,
}
use nix_sandwich.Prelude.Paths.{
  split_step, path_split, path_base, path_ext, IsPlain, trim_slashes-append,
}
use nix_sandwich.External.System.{Files}
use nix_sandwich.External.Web.{Reply-cases}
use nix_sandwich.Differ.Download.{
  ReaderFilter, Downloads, decompressor, fill_file, remove_on_error, download_nar,
}

path_ext-nar : (s : Bytes) → path_ext (s ++ codes ".nar") ≡ codes ".nar"
unfolding path_ext
path_ext-nar [] = refl
path_ext-nar (c ∷ s) = rw (path_ext-nar s)

split_step-dot_nar :
    (c : ℕ) (d t : Bytes)
    → (d' t' : Bytes) × (split_step c (d, t ++ codes ".nar") ≡ (d', t' ++ codes ".nar"))
split_step-dot_nar c [] t = elim (Bool-cases (c == b'/')) [
  | inl slash ↦ (c ∷ [], t, rw slash)
  | inr other ↦ ([], c ∷ t, rw other)
]
split_step-dot_nar c (x ∷ d) t = (c ∷ x ∷ d, t, refl)

-- What follows the last slash of a text that ends in .nar ends in .nar.
path_split-dot_nar :
    (s : Bytes) → (d t : Bytes) × (path_split (s ++ codes ".nar") ≡ (d, t ++ codes ".nar"))
unfolding path_split
path_split-dot_nar [] = ([], [], refl)
path_split-dot_nar (c ∷ s) =
    let (d, t, e) = path_split-dot_nar s in
    let (d', t', e') = split_step-dot_nar c d t in (d', t', ap (λ p. split_step c p) e ∙ e')

dot_nar-IsPlain : IsPlain (codes ".nar")
dot_nar-IsPlain = (λ e. omega arith, (λ e. omega arith, (λ e. omega arith, (λ e. omega arith, tt))))

path_base-dot_nar : (s : Bytes) → (t : Bytes) × (path_base (s ++ codes ".nar") ≡ t ++ codes ".nar")
unfolding path_base
path_base-dot_nar [] = ([], refl)
path_base-dot_nar (c ∷ s) =
    let (d, t, e) = path_split-dot_nar (c ∷ s) in
    (t, rw (trim_slashes-append (c ∷ s) b'.' (codes "nar") dot_nar-IsPlain) (ap (λ p. p.1) e))

decompressor-nar : (s : Bytes) → decompressor (path_ext (path_base (s ++ codes ".nar"))) ≡ none
unfolding decompressor
decompressor-nar s = let (t, e) = path_base-dot_nar s in rw (e, path_ext-nar t)

-- A nar whose url ends in .nar, which is how caches name a nar that is not compressed, is never
-- downloaded.
pub plain_nar_refused :
    (d : Downloads) (filter : Option ReaderFilter) (fs : Files) (upstream s name : Bytes)
    → (download_nar d filter fs upstream (s ++ codes ".nar")).0 ≢ ok name
unfolding download_nar fill_file remove_on_error
plain_nar_refused d filter fs upstream s name h =
    elim (Reply-cases (d.web.get upstream (b'/' ∷ (s ++ codes ".nar")))) [
      | inl e ↦ cc (rw (e, download_nar) at h)
      | inr (status, body, e) ↦ elim (Bool-cases (status == 200)) [
        | inr bad ↦ cc (rw (e, download_nar, bad) at h)
        | inl fine ↦ elim (Option-cases (d.temps.temp_name fs)) [
          | inl t ↦ cc (rw (e, download_nar, fine, t) at h)
          | inr (file, t) ↦ cc (rw (e, download_nar, fine, t, decompressor-nar s, fill_file) at h)
        ]
      ]
    ]
