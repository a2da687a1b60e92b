-- ===== src/Analytics/Report/Balance.antt =====
-- The sums that `analyzeLog` prints, for the logs of one delta for an id.
use nix_sandwich.Prelude.{◌+◌, ◌%◌, ◌^◌, ◌≡◌, refl, arith, some, List, []}
use nix_sandwich.Analytics.Records.{AnRecord}
use nix_sandwich.Analytics.Tally.{Tally, no_records, analyze_log}
use nix_sandwich.Analytics.Tally.Balance.{requests_of, asked_bytes, analyze_log-balance}
use nix_sandwich.Analytics.Report.{Sums, no_sums, sum_diffed, Report, reported, report}
use nix_sandwich.Analytics.Report.Stored.{sum_diffed-IsSum}
use nix_sandwich.Analytics.Report.Tidy.{IsTidyLog, no_records-IsTidy, analyze_log-IsSettled}

report-sums :
    (t : Tally) (s : Sums)
    → sum_diffed t.diffs no_sums t.diffed ≡ some s
    → report t ≡ some (reported t s)
unfolding report
report-sums t s h = rw (h, report)

-- The report of a log whose deltas are not empty and are all of different requests does not crash, and
-- balances modulo 2 ^ 64: its actual download and its total of compressed files are together the sizes
-- of the files that were asked for and not identical, and its total of deltas; and its total of
-- requests is theirs.
pub report-balance :
    (recs : List AnRecord)
    → IsTidyLog [] recs
    → (rep : Report) × (report (analyze_log no_records recs) ≡ some rep)
      × ((rep.actual + rep.sums.cmp) % 2 ^ 64 ≡ (asked_bytes recs + rep.sums.diff) % 2 ^ 64)
      × (rep.requested ≡ requests_of recs)
report-balance recs tidy =
    let t = analyze_log no_records recs in
    let (counted, balanced) = analyze_log-balance recs in
    let (all_there, total) =
      analyze_log-IsSettled (λ n. []) [] no_records recs no_records-IsTidy tidy in
    let (s, summed, is_sum) =
      sum_diffed-IsSum t.diffs no_sums t.diffed 0 0 all_there (refl, refl) in
    (reported t s, report-sums t s summed, omega (arith, is_sum.0, is_sum.1), counted)
