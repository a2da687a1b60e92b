-- ===== src/Differ/Download/Leaves.antt =====
-- What a download of differ.go leaves in the directory for temporary files.
use nix_sandwich.Prelude.{
  ◌≡◌, ◌≢◌, refl, ◌∙◌, ap, Bool-cases, Option-cases, inl, inr, Option, none, some, [], ◌∷◌, ◌++◌,
  Bytes, codes, slice_from, Outcome, ok, err, panic, ◌==◌, ==_iff, false,
}
use nix_sandwich.Prelude.Paths.{path_base, path_ext}
use nix_sandwich.External.NarTools.{Output}
use nix_sandwich.External.System.{Files, read_file, write_file-head, remove_file-head}
use nix_sandwich.External.Web.{replied, Reply-cases}
use nix_sandwich.Differ.Download.{
  DownloadError, ReaderFilter, Downloads, Downloaded, Decompressor, decompressor, filtered,
  finish_download, fill_file, remove_on_error, download_nar, download_nar_from_info,
}

-- A nar that was downloaded and decompressed, which the filter ended in an error for.
pub record FilterFailed (d : Downloads) (filter : Option ReaderFilter) : Type 0 where
  pub upstream : Bytes
  pub nar_path : Bytes
  pub body : Bytes
  pub program : Decompressor
  pub out : Output
  pub replies : d.web.get upstream (b'/' ∷ nar_path) ≡ replied 200 body
  pub known : decompressor (path_ext (path_base nar_path)) ≡ some program
  pub decompressed : d.decompress program body ≡ some out
  pub whole : out.failed ≡ false
  pub filter_fails : filtered filter out.written ≡ err tt

-- What a download leaves behind: a new file under the name it returns, nothing after an error, and
-- a file that nobody knows of where the filter failed.
pub data Leaves (d : Downloads) (filter : Option ReaderFilter) (fs : Files)
    : Downloaded → Type 0 where
  kept :
      (name content : Bytes)
      → read_file fs name ≡ none
      → name ≢ []
      → Leaves d filter fs (ok name, (name, content) ∷ fs)
  nothing : (e : DownloadError) → Leaves d filter fs (err e, fs)
  crashed : (fs' : Files) → Leaves d filter fs (panic, fs')
  lost :
      (name content : Bytes)
      → FilterFailed d filter
      → Leaves d filter fs (ok [], (name, content) ∷ fs)

module _ (d : Downloads) (filter : Option ReaderFilter) (fs : Files) where
  finish_download-Leaves :
      (upstream nar_path name body : Bytes) (program : Decompressor) (out : Output)
      → d.web.get upstream (b'/' ∷ nar_path) ≡ replied 200 body
      → decompressor (path_ext (path_base nar_path)) ≡ some program
      → d.decompress program body ≡ some out
      → read_file fs name ≡ none
      → name ≢ []
      → (o : Outcome (Unit {0}) Bytes) → filtered filter out.written ≡ o
      → Leaves d filter fs (remove_on_error name (finish_download ((name, []) ∷ fs) name out o))
  unfolding finish_download remove_on_error
  finish_download-Leaves upstream nar_path name body program out w k p fresh named panic e =
      crashed _
  finish_download-Leaves upstream nar_path name body program out w k p fresh named (ok content) e =
      elim (Bool-cases out.failed) [
        | inl bad ↦
            rw (bad, write_file-head fs name [] content, remove_file-head fs name content fresh)
              (nothing _)
        | inr good ↦ rw (good, write_file-head fs name [] content) (kept name content fresh named)
      ]
  finish_download-Leaves upstream nar_path name body program out w k p fresh named (err u) e =
      elim (Bool-cases out.failed) [
        | inl bad ↦ rw (bad, remove_file-head fs name [] fresh) (nothing _)
        | inr good ↦ rw good (
            lost name [] (record {
              upstream = upstream;
              nar_path = nar_path;
              body = body;
              program = program;
              out = out;
              replies = w;
              known = k;
              decompressed = p;
              whole = good;
              filter_fails = e;
            }))
      ]

  fill_file-Leaves :
      (upstream nar_path name body : Bytes)
      → d.web.get upstream (b'/' ∷ nar_path) ≡ replied 200 body
      → read_file fs name ≡ none
      → name ≢ []
      → Leaves d filter fs
          (remove_on_error name (fill_file d filter ((name, []) ∷ fs) name nar_path body))
  unfolding fill_file remove_on_error
  fill_file-Leaves upstream nar_path name body w fresh named =
      elim (Option-cases (decompressor (path_ext (path_base nar_path)))) [
        | inl c ↦ rw (c, fill_file, remove_file-head fs name [] fresh) (nothing _)
        | inr (program, c) ↦ elim (Option-cases (d.decompress program body)) [
          | inl s ↦ rw (c, fill_file, s, remove_file-head fs name [] fresh) (nothing _)
          | inr (out, s) ↦
              rw (c, fill_file, s)
                (finish_download-Leaves upstream nar_path name body program out w c s fresh named
                  (filtered filter out.written) refl)
        ]
      ]

  pub download_nar-Leaves :
      (upstream nar_path : Bytes) → Leaves d filter fs (download_nar d filter fs upstream nar_path)
  unfolding download_nar
  download_nar-Leaves upstream nar_path =
      elim (Reply-cases (d.web.get upstream (b'/' ∷ nar_path))) [
        | inl e ↦ rw (e, download_nar) (nothing _)
        | inr (status, body, e) ↦ elim (Bool-cases (status == 200)) [
          | inr bad ↦ rw (e, download_nar, bad) (nothing _)
          | inl fine ↦ elim (Option-cases (d.temps.temp_name fs)) [
            | inl t ↦ rw (e, download_nar, fine, t) (crashed fs)
            | inr (name, t) ↦
                let is_200 = (==_iff status 200).0 fine in
                rw (e, download_nar, fine, t)
                  (fill_file-Leaves upstream nar_path name body
                    (e ∙ ap (λ n. replied n body) is_200) (d.temps.temp_name_fresh fs name t)
                    (λ z. d.temps.temp_name_some fs (t ∙ ap some z)))
          ]
        ]
      ]

pub download_nar_from_info-Leaves :
    (d : Downloads) (filter : Option ReaderFilter) (fs : Files) (upstream hash : Bytes)
    → Leaves d filter fs (download_nar_from_info d filter fs upstream hash)
unfolding download_nar_from_info
download_nar_from_info-Leaves d filter fs upstream hash =
    elim (Reply-cases (d.web.get upstream (b'/' ∷ (hash ++ codes ".narinfo")))) [
      | inl e ↦ rw (e, download_nar_from_info) (nothing _)
      | inr (status, body, e) ↦ elim (Bool-cases (status == 200)) [
        | inr bad ↦ rw (e, download_nar_from_info, bad) (nothing _)
        | inl fine ↦ elim (Option-cases (d.web.parse_info body)) [
          | inl p ↦ rw (e, download_nar_from_info, fine, p) (nothing _)
          | inr (ni, p) ↦ elim (Option-cases (slice_from 44 ni.store_path)) [
            | inl s ↦ rw (e, download_nar_from_info, fine, p, s) (crashed fs)
            | inr (name, s) ↦
                rw (e, download_nar_from_info, fine, p, s)
                  (download_nar-Leaves d filter fs upstream ni.url)
          ]
        ]
      ]
    ]
