-- ===== src/Analytics/Report.antt =====
-- What `analyzeLog` prints behind its loop: the counts of requests and the sums over the deltas. Not
-- the times of the log, nor the ratios and speeds, which are floating-point.
pub mod Stored
pub mod Tidy
pub mod Balance
use nix_sandwich.Prelude.{
  ℕ, Option, none, some, List, [], ◌∷◌, Bytes, length, bytes_eq, ◌==◌, if◌then◌else◌,
}
use nix_sandwich.Algo.Stats.{DiffStats}
use nix_sandwich.Subst.Types.{AnRequest}
use nix_sandwich.Subst.NarInfos.{
  failed_identical, failed_not_found, failed_too_small, failed_too_big, failed_no_base,
}
use nix_sandwich.Analytics.Tally.{Entry, Tally, int_add, total_requests}

-- `tUncmp`, `tCmp`, `tDiff` and the times.
pub record Sums : Type 0 where
  pub uncmp : ℕ
  pub cmp : ℕ
  pub diff : ℕ
  pub cmp_total : ℕ
  pub cmp_user : ℕ
  pub cmp_sys : ℕ
  pub exp_total : ℕ
  pub exp_user : ℕ
  pub exp_sys : ℕ

abbrev pub no_sums : Sums
no_sums = record {
  uncmp = 0;
  cmp = 0;
  diff = 0;
  cmp_total = 0;
  cmp_user = 0;
  cmp_sys = 0;
  exp_total = 0;
  exp_user = 0;
  exp_sys = 0;
}

abbrev pub add_sums : Sums → AnRequest → DiffStats → Sums
add_sums s r d = record {
  uncmp = int_add s.uncmp r.nar_size;
  cmp = int_add s.cmp r.file_size;
  diff = int_add s.diff d.diff_size;
  cmp_total = int_add s.cmp_total d.cmp_total_ms;
  cmp_user = int_add s.cmp_user d.cmp_user_ms;
  cmp_sys = int_add s.cmp_sys d.cmp_sys_ms;
  exp_total = int_add s.exp_total d.exp_total_ms;
  exp_user = int_add s.exp_user d.exp_user_ms;
  exp_sys = int_add s.exp_sys d.exp_sys_ms;
}

-- The loop over `diffed`; `none` is the crash on a record without a `D`.
unfoldable pub sum_diffed : (ℕ → Option DiffStats) → Sums → List Entry → Option Sums
sum_diffed diffs s [] = some s
sum_diffed diffs s (e ∷ es) = elim (diffs e.place) [
  | none ↦ none
  | some d ↦ sum_diffed diffs (if d.diff_size == 0 then s else add_sums s e.asked d) es
]

-- `fmap[k]`
unfoldable pub count_of : List (Bytes × ℕ) → Bytes → ℕ
count_of [] k = 0
count_of ((j, n) ∷ m) k = let rest = count_of m k in if bytes_eq j k then n else rest

pub record Report : Type 0 where
  pub requested : ℕ
  pub diffed : ℕ
  pub identical : ℕ
  pub not_found : ℕ
  pub too_small : ℕ
  pub too_big : ℕ
  pub no_base : ℕ
  pub sums : Sums
  pub actual : ℕ

-- What is printed, for the sums.
abbrev pub reported : Tally → Sums → Report
reported t sums = record {
  requested = total_requests t.counts;
  diffed = length t.diffed;
  identical = count_of t.counts failed_identical;
  not_found = count_of t.counts failed_not_found;
  too_small = count_of t.counts failed_too_small;
  too_big = count_of t.counts failed_too_big;
  no_base = count_of t.counts failed_no_base;
  sums = sums;
  actual = t.actual;
}

unfoldable pub report : Tally → Option Report
unfolding sum_diffed count_of total_requests
report t = elim (sum_diffed t.diffs no_sums t.diffed) [
  | none ↦ none
  | some sums ↦ some (reported t sums)
]
