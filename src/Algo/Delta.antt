-- ===== src/Algo/Delta.antt =====
-- `Create` and `Expand` of the two algorithms: the programs' arguments, and the order in which their
-- errors are looked at. A pipe that cannot be made is left out.
use nix_sandwich.Prelude.{
  ℕ, Bool, false, not, Option, none, some, List, [], ◌∷◌, Bytes, codes, length, if◌then◌else◌,
  Outcome, ok, err,
}
use nix_sandwich.External.System.{Files, read_file, Run, DeltaTools}
use nix_sandwich.Algo.Atoi.{ℤ}
use nix_sandwich.Algo.Pick.{DiffAlgo, xd3_algo, zst_algo, algo_name}
use nix_sandwich.Algo.Stats.{DiffStats, print_int}

pub data AlgoError : Type 0 where
  start_error exit_error stderr_error base_error temp_error : AlgoError

abbrev pub level_of : DiffAlgo → ℤ
level_of (xd3_algo level) = level
level_of (zst_algo level) = level

-- The arguments behind the program's name, with the names of the base and the requested file.
unfoldable pub create_args : DiffAlgo → Bytes → Bytes → List Bytes
unfolding print_int
create_args (xd3_algo level) base request =
    codes "-v"
    ∷ (b'-' ∷ print_int level)
    ∷ codes "-S"
    ∷ codes "lzma"
    ∷ codes "-A"
    ∷ codes "-D"
    ∷ codes "-c"
    ∷ codes "-e"
    ∷ codes "-s"
    ∷ base
    ∷ request
    ∷ []
create_args (zst_algo level) base request =
    (b'-' ∷ print_int level)
    ∷ codes "--single-thread"
    ∷ codes "-c"
    ∷ codes "--patch-from"
    ∷ base
    ∷ request
    ∷ []

-- With the name of the file that holds the base of zstd.
unfoldable pub expand_args : DiffAlgo → Bytes → List Bytes
expand_args (xd3_algo _) base_file =
    codes "-v" ∷ codes "-R" ∷ codes "-c" ∷ codes "-d" ∷ codes "-s" ∷ codes "/dev/fd/3" ∷ []
expand_args (zst_algo _) base_file =
    codes "--long=30" ∷ codes "-c" ∷ codes "-d" ∷ codes "--patch-from" ∷ base_file ∷ []

-- `fileSize`
unfoldable pub file_size : Files → Bytes → ℕ
file_size fs name = elim (read_file fs name) [ none ↦ 0 | some content ↦ length content ]

-- The error that is returned for a run of `Create`. Where copying the standard error fails, zstd wraps
-- a nil error, which makes an error nevertheless.
unfoldable pub create_error : Run → Option AlgoError
create_error r =
    if not r.starts
    then some start_error
    else if not r.succeeds
    then some exit_error
    else if not r.stderr_copied
    then some stderr_error
    else none

abbrev pub stats_of : DiffAlgo → Files → Bytes → Run → DiffStats
stats_of algo fs request r = record {
  base_size = 0;
  diff_size = length r.output;
  nar_size = file_size fs request;
  algo = algo_name algo;
  level = level_of algo;
  cmp_total_ms = r.total_ms;
  exp_total_ms = 0;
  cmp_user_ms = r.user_ms;
  cmp_sys_ms = r.sys_ms;
  exp_user_ms = 0;
  exp_sys_ms = 0;
}

-- The delta is what was written; it is there also where the run failed.
unfoldable pub create :
    DeltaTools → DiffAlgo → Files → Bytes → Bytes → Bytes × Outcome AlgoError DiffStats
unfolding create_args create_error file_size
create tools algo fs base request =
    let r = tools.encode (create_args algo base request) fs in
    (r.output, elim (create_error r) [ none ↦ ok (stats_of algo fs request r) | some e ↦ err e ])

-- A base that is read: its bytes, and whether reading it ends in an error. `is_file` tells whether it
-- is handed over as a file, so that it is not copied.
pub record BaseReader : Type 0 where
  pub bytes : Bytes
  pub failed : Bool
  pub is_file : Bool

-- `if xdelta.Start(); err != nil` looks at another error: a program that does not start is found out
-- by `Wait`, which fails for it.
unfoldable pub expand_error : Run → Bool → Option AlgoError
expand_error r copy_failed =
    if not r.starts
    then some exit_error
    else if not r.succeeds
    then some exit_error
    else if not r.stderr_copied
    then some stderr_error
    else if copy_failed
    then some base_error
    else none

abbrev pub finish_expand : Run → Option AlgoError → Bytes × Outcome AlgoError Run
finish_expand r none = (r.output, ok r)
finish_expand r (some e) = (r.output, err e)

-- `Expand`: what was written, which is there also where the run failed, and the run, for its times.
-- zstd's base is copied to a file first, whose name is given; none if it cannot be created.
unfoldable pub expand :
    DeltaTools → DiffAlgo → Option Bytes → BaseReader → Bytes → Bytes × Outcome AlgoError Run
unfolding expand_args expand_error
expand tools (xd3_algo level) temp base delta =
    let r = tools.decode (expand_args (xd3_algo level) []) base.bytes delta in
    finish_expand r (expand_error r (if base.is_file then false else base.failed))
expand tools (zst_algo level) none base delta = ([], err temp_error)
expand tools (zst_algo level) (some name) base delta =
    let r = tools.decode (expand_args (zst_algo level) name) base.bytes delta in
    if base.failed then ([], err base_error) else finish_expand r (expand_error r false)
