-- ===== src/External/System.antt =====
-- The operating system, as algo.go, differ.go and subst.go use it: files in the directory for
-- temporary files, and runs of programs.
use nix_sandwich.Prelude.{
  ℕ, ◌≡◌, refl, ap, inl, inr, Bool-cases, bytes_eq_refl, Bool, Option, none, some, List, [], ◌∷◌,
  Bytes, bytes_eq, if◌then◌else◌,
}

-- The contents by name. A name that is created anew hides the older file.
abbrev pub Files : Type 0
Files = List (Bytes × Bytes)

abbrev pub read_file : Files → Bytes → Option Bytes
read_file [] name = none
read_file ((k, content) ∷ files) name =
    let rest = read_file files name in if bytes_eq k name then some content else rest

abbrev pub remove_file : Files → Bytes → Files
remove_file [] name = []
remove_file ((k, content) ∷ files) name =
    let rest = remove_file files name in if bytes_eq k name then rest else (k, content) ∷ rest

-- The file of a name gets a content.
abbrev pub write_file : Files → Bytes → Bytes → Files
write_file [] name content = []
write_file ((k, old) ∷ files) name content =
    let rest = write_file files name content in
    if bytes_eq k name then (k, content) ∷ files else (k, old) ∷ rest

pub write_file-head :
    (fs : Files) (name old content : Bytes)
    → write_file ((name, old) ∷ fs) name content ≡ (name, content) ∷ fs
write_file-head fs name old content = rw (bytes_eq_refl name)

pub remove_file-fresh :
    (fs : Files) (name : Bytes) → read_file fs name ≡ none → remove_file fs name ≡ fs
remove_file-fresh [] name h = refl
remove_file-fresh ((k, content) ∷ fs) name h = elim (Bool-cases (bytes_eq k name)) [
  | inl same ↦ cc (rw same at h)
  | inr other ↦ rw other (ap (λ l. (k, content) ∷ l) (remove_file-fresh fs name (rw other at h)))
]

-- The file that was created last is removed, and only it.
pub remove_file-head :
    (fs : Files) (name content : Bytes)
    → read_file fs name ≡ none
    → remove_file ((name, content) ∷ fs) name ≡ fs
remove_file-head fs name content h = rw (bytes_eq_refl name) (remove_file-fresh fs name h)

-- `os.CreateTemp`: none if it fails, else a name that is not empty and that no file has.
pub record TempNames : Type 0 where
  pub temp_name : Files → Option Bytes
  pub temp_name_fresh :
      (fs : Files) (name : Bytes) → temp_name fs ≡ some name → read_file fs name ≡ none
  pub temp_name_some : (fs : Files) → ¬ (temp_name fs ≡ some [])

-- A run of a program: whether it starts, what it writes to its output, whether its exit status is 0,
-- whether its standard error could be copied, and its times.
pub record Run : Type 0 where
  pub starts : Bool
  pub output : Bytes
  pub succeeds : Bool
  pub stderr_copied : Bool
  pub total_ms : ℕ
  pub user_ms : ℕ
  pub sys_ms : ℕ

-- The runs of xdelta3 and zstd by their arguments: on files by name, and on a base and a delta that
-- are piped in (the base of zstd is a file, whose name is among the arguments).
pub record DeltaTools : Type 0 where
  pub encode : List Bytes → Files → Run
  pub decode : List Bytes → Bytes → Bytes → Run
