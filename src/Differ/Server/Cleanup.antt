-- ===== src/Differ/Server/Cleanup.antt =====
-- The temporary files of the differ.
use nix_sandwich.Prelude.{◌⊎◌, ◌≡◌, Option, none, some}
use nix_sandwich.External.System.{Files}
use nix_sandwich.Subst.Types.{DifferRequest}
use nix_sandwich.Differ.Download.{ReaderFilter, Downloads}
use nix_sandwich.Differ.Download.Leaves.{FilterFailed, Leaves}
use nix_sandwich.Differ.Server.{Server, filter_of}

-- The files are the same, or a filter failed for a nar that was downloaded.
abbrev KeptOr : Downloads → Option ReaderFilter → Files → Files → Type 0
KeptOr d filter fs fs' = (fs' ≡ fs) ⊎ FilterFailed d filter

-- What is said of the files behind a request.
abbrev pub FilesOf : Server → Option DifferRequest → Files → Files → Type 0
FilesOf srv none fs fs' = fs' ≡ fs
FilesOf srv (some req) fs fs' = (fs' ≡ fs) ⊎ FilterFailed srv.downloads (filter_of srv req)
