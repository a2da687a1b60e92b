-- ===== src/Samples/AnalyticsRuns.antt =====
-- Logs of three requests, one of them with a delta, or with two.
use nix_sandwich.Prelude.{
  arith, some, ◌+◌, ◌%◌, ◌^◌, Option, ℕ, ◌≡◌, refl, none, List, [], ◌∷◌, Bytes, codes,
}
use nix_sandwich.Algo.Stats.{DiffStats, no_stats}
use nix_sandwich.Subst.Types.{AnRequest}
use nix_sandwich.Analytics.Records.{AnRecord, request_record, delta_record}
use nix_sandwich.Analytics.Tally.{no_records, analyze_log, total_requests}
use nix_sandwich.Analytics.Report.{Sums, no_sums, sum_diffed, Report, report}
use nix_sandwich.Analytics.Report.Balance.{report-balance}
use nix_sandwich.Algo.Atoi.{pos}
use nix_sandwich.Analytics.Segments.{itoa_with_segments}
use nix_sandwich.Analytics.Tally.Balance.{
  IsBalanced, asked_bytes, delta_bytes, requests_of, analyze_log-balance,
}

abbrev asked : Bytes → ℕ → Bytes → AnRequest
asked id size failed = record {
  id = id;
  req_store_path = codes "hello";
  base_store_path = [];
  nar_size = 0;
  file_size = size;
  failed = failed;
  differ_request = none;
}

abbrev sized : ℕ → DiffStats
sized n = record no_stats { diff_size = n }

abbrev small_log : List AnRecord
small_log =
    request_record (asked (codes "a") 1000 [])
    ∷ request_record (asked (codes "b") 500 (codes "nobase"))
    ∷ request_record (asked (codes "c") 300 (codes "identical"))
    ∷ delta_record (codes "a") (sized 40)
    ∷ []

small_log_actual : (analyze_log no_records small_log).actual ≡ 540
unfolding analyze_log
small_log_actual = refl

analyze_log-balance_example :
    (total_requests (analyze_log no_records small_log).counts ≡ requests_of small_log)
    × IsBalanced
        (analyze_log no_records small_log)
        (asked_bytes small_log + delta_bytes [] small_log)
analyze_log-balance_example = analyze_log-balance small_log

report-balance_example :
    (rep : Report) × (report (analyze_log no_records small_log) ≡ some rep)
    × ((rep.actual + rep.sums.cmp) % 2 ^ 64 ≡ (asked_bytes small_log + rep.sums.diff) % 2 ^ 64)
    × (rep.requested ≡ requests_of small_log)
report-balance_example = report-balance small_log (refl, omega arith, tt)

-- Two deltas for one request: the later one is counted twice, and the earlier one not at all.
abbrev repeated_log : List AnRecord
repeated_log =
    request_record (asked (codes "a") 1000 [])
    ∷ delta_record (codes "a") (sized 40)
    ∷ delta_record (codes "a") (sized 70)
    ∷ []

abbrev diff_of : Option Sums → Option ℕ
diff_of none = none
diff_of (some s) = some s.diff

repeated_log_diff :
    diff_of (
      sum_diffed
        (analyze_log no_records repeated_log).diffs
        no_sums
        (analyze_log no_records repeated_log).diffed)
    ≡ some 140
unfolding analyze_log sum_diffed
repeated_log_diff = refl

-- The four digits of 1234: the first one is marked.
marked_thousand : itoa_with_segments (pos 1234) ≡ b'1' ∷ 0xcc ∷ 0xb3 ∷ b'2' ∷ b'3' ∷ b'4' ∷ []
unfolding itoa_with_segments nix_sandwich.Algo.Stats.print_int nix_sandwich.Prelude.Decimal.itoa
marked_thousand = refl
