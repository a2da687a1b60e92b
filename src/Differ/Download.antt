-- ===== src/Differ/Download.antt =====
-- `downloadNar` and `downloadNarFromInfo` of differ.go, with the temporary files as state. The runs of
-- the decompressors and the filter are parameters; a run of a filter that stops early is modelled as if
-- the decompressor went on to its end.
pub mod Leaves
pub mod Uncompressed
use nix_sandwich.Prelude.{
  ℕ, Bool, true, false, not, ◌||◌, Option, none, some, List, [], ◌∷◌, ◌++◌, Bytes, codes, bytes_eq,
  slice_from, ◌==◌, if◌then◌else◌, Outcome, ok, err, panic,
}
use nix_sandwich.External.NarInfo.{NarInfo}
use nix_sandwich.External.NarTools.{Output}
use nix_sandwich.External.System.{Files, write_file, remove_file, TempNames}
use nix_sandwich.External.Web.{Reply, unreachable, replied, Web}
use nix_sandwich.Prelude.Paths.{path_base, path_ext}

pub data DownloadError : Type 0 where
  canceled http_error http_status not_found bad_narinfo unknown_compression start_failed
        decompress_failed :
      DownloadError

-- The programs that a nar is decompressed with.
pub data Decompressor : Type 0 where
  cat xz zstd : Decompressor

-- The reader that is put behind a decompressor: what it gives, none if it ends in an error.
abbrev pub ReaderFilter : Type 0
ReaderFilter = Bytes → Outcome (Unit {0}) Bytes

-- The program for the extension of a file's name.
unfoldable pub decompressor : Bytes → Option Decompressor
decompressor compression =
    if bytes_eq compression [] || bytes_eq compression (codes "none")
    then some cat
    else if bytes_eq compression (codes ".xz")
    then some xz
    else if bytes_eq compression (codes ".zst")
    then some zstd
    else none

-- The narinfos and nars of a cache, the runs of the decompressors, and temporary files.
pub record Downloads : Type 0 where
  pub web : Web
  pub temps : TempNames
  pub decompress : Decompressor → Bytes → Option Output

abbrev pub Downloaded : Type 0
Downloaded = Outcome DownloadError Bytes × Files

-- What the file holds: the output, through the filter if there is one.
unfoldable pub filtered : Option ReaderFilter → Bytes → Outcome (Unit {0}) Bytes
filtered none bytes = ok bytes
filtered (some f) bytes = f bytes

-- Behind the start of the decompressor, with the new file of the given name. Where the filter fails,
-- the error that is returned is a nil one, so there is no name and the file stays (without what the
-- filter gave before its error).
unfoldable pub finish_download : Files → Bytes → Output → Outcome (Unit {0}) Bytes → Downloaded
finish_download fs name out panic = (panic, fs)
finish_download fs name out (ok content) =
    let fs' = write_file fs name content in
    if out.failed then (err decompress_failed, fs') else (ok name, fs')
finish_download fs name out (err e) =
    if out.failed then (err decompress_failed, fs) else (ok [], fs)

-- Behind the creation of the file.
unfoldable pub fill_file :
    Downloads → Option ReaderFilter → Files → Bytes → Bytes → Bytes → Downloaded
unfolding path_ext decompressor finish_download filtered
fill_file d filter fs name nar_path body = elim (decompressor (path_ext (path_base nar_path))) [
  | none ↦ (err unknown_compression, fs)
  | some program ↦ elim (d.decompress program body) [
    | none ↦ (err start_failed, fs)
    | some out ↦ finish_download fs name out (filtered filter out.written)
  ]
]

-- The deferred `os.Remove`: only where an error is returned.
unfoldable pub remove_on_error : Bytes → Downloaded → Downloaded
remove_on_error name (ok path, fs) = (ok path, fs)
remove_on_error name (err e, fs) = (err e, remove_file fs name)
remove_on_error name (panic, fs) = (panic, fs)

-- `downloadNar`
unfoldable pub download_nar : Downloads → Option ReaderFilter → Files → Bytes → Bytes → Downloaded
unfolding fill_file remove_on_error
download_nar d filter fs upstream nar_path = elim (d.web.get upstream (b'/' ∷ nar_path)) [
  | unreachable ↦ (err http_error, fs)
  | replied status body ↦
      if not (status == 200) then (err http_status, fs) else (elim (d.temps.temp_name fs) [
        | none ↦ (panic, fs)
        | some name ↦ remove_on_error name (fill_file d filter ((name, []) ∷ fs) name nar_path body)
      ])
]

-- `downloadNarFromInfo`. The slice of the store path is only for the log.
unfoldable pub download_nar_from_info :
    Downloads → Option ReaderFilter → Files → Bytes → Bytes → Downloaded
unfolding download_nar
download_nar_from_info d filter fs upstream hash =
    elim (d.web.get upstream (b'/' ∷ (hash ++ codes ".narinfo"))) [
      | unreachable ↦ (err http_error, fs)
      | replied status body ↦
          if not (status == 200)
          then (err (if status == 404 then not_found else http_status), fs)
          else (elim (d.web.parse_info body) [
            | none ↦ (err bad_narinfo, fs)
            | some ni ↦ elim (slice_from 44 ni.store_path) [
              | none ↦ (panic, fs)
              | some name ↦ download_nar d filter fs upstream ni.url
            ]
          ])
    ]
