-- ===== src/Samples/AnswerRuns.antt =====
-- Answers of the differ as the substituter reads them: a good one, and one whose delta failed.
use nix_sandwich.Prelude.{
  ℕ, ◌≡◌, ◌≢◌, refl, Bool, true, false, Option, none, some, List, [], ◌∷◌, Bytes, codes, Outcome,
  ok, err,
}
use nix_sandwich.External.System.{Run, DeltaTools}
use nix_sandwich.Algo.Atoi.{pos}
use nix_sandwich.Algo.Stats.{DiffStats}
use nix_sandwich.Subst.Nars.{answered, Served, get_nar_common, delta_records}
use nix_sandwich.Subst.Nars.Accepted.{Accepted, get_nar_common-Accepted}
use nix_sandwich.External.Web.{replied}
use nix_sandwich.Differ.Download.{Downloads, download_nar}
use nix_sandwich.Differ.Download.Uncompressed.{plain_nar_refused}
use nix_sandwich.Differ.Wire.{Part}
use nix_sandwich.Differ.Server.{Server, Answer, part, differ}
use nix_sandwich.Differ.Server.Shaped.{Shaped, differ-Shaped}
use nix_sandwich.Subst.Site.Streamed.{IsSent, late_errors_hidden}
use nix_sandwich.Transfer.Refused.{failed_answer_refused}
use nix_sandwich.Samples.TransferRuns.{
  small_downloads, small_server, small_expander, small_request, good_chances, small_media,
}

-- The trailer says: a base of 6 bytes, a delta of 6, and a nar of 6, by zstd at level 3.
abbrev pub good_parts : List Part
good_parts =
    part (codes "header") (codes "zstd")
    ∷ part (codes "body") (codes "*nar R")
    ∷ part (codes "trailer") (1 ∷ 6 ∷ 6 ∷ 6 ∷ 0 ∷ 3 ∷ 3 ∷ 0 ∷ 2 ∷ 1 ∷ 0 ∷ 0 ∷ codes "zstd")
    ∷ []

abbrev good_stats : DiffStats
good_stats = record {
  base_size = 6;
  diff_size = 6;
  nar_size = 6;
  algo = codes "zstd";
  level = pos 3;
  cmp_total_ms = 3;
  exp_total_ms = 3;
  cmp_user_ms = 2;
  cmp_sys_ms = 1;
  exp_user_ms = 2;
  exp_sys_ms = 1;
}

abbrev pub good_served : Served
good_served = record { stats = good_stats; body = codes "nar R" }

good_parts_served :
    get_nar_common small_expander small_request (answered 200 small_media good_parts false)
    ≡ ok good_served
unfolding get_nar_common nix_sandwich.Algo.Pick.get_algo nix_sandwich.Algo.Delta.expand
good_parts_served = refl

get_nar_common-Accepted_example :
    Accepted small_expander small_request (answered 200 small_media good_parts false) good_served
get_nar_common-Accepted_example =
    get_nar_common-Accepted small_expander small_request (answered 200 small_media good_parts false)
      good_served good_parts_served

abbrev failed_run : Run
failed_run = record {
  starts = true;
  output = codes "par";
  succeeds = false;
  stderr_copied = true;
  total_ms = 1;
  user_ms = 1;
  sys_ms = 1;
}

abbrev failing_tools : DeltaTools
failing_tools = record { encode = λ args fs. failed_run; decode = λ args base delta. failed_run }

abbrev failing_server : Server
failing_server = record small_server { tools = failing_tools }

abbrev failed_answer : Answer
failed_answer = record {
  status = 0;
  message = [];
  has_error = true;
  parts =
      part (codes "header") (codes "zstd")
      ∷ part (codes "body") (codes "par")
      ∷ part (codes "trailer") (0 ∷ [])
      ∷ [];
}

delta_fails :
    differ failing_server good_chances (codes "POST") (some small_request) []
    ≡ (some failed_answer, [])
unfolding differ nix_sandwich.Algo.Pick.pick_algo nix_sandwich.Differ.Download.download_nar
    nix_sandwich.Prelude.Paths.path_base nix_sandwich.Differ.Download.download_nar_from_info
    nix_sandwich.Prelude.slice_from nix_sandwich.Algo.Stats.stats_string
    nix_sandwich.Algo.Delta.create nix_sandwich.Algo.Pick.algo_name nix_sandwich.Algo.Atoi.atoi
delta_fails = refl

failed_answer_refused_example :
    (get_nar_common small_expander small_request
        (answered 200 small_media failed_answer.parts false)
      ≢ ok good_served)
    × (delta_records (codes "id") (
          get_nar_common small_expander small_request
            (answered 200 small_media failed_answer.parts false))
        ≡ [])
failed_answer_refused_example =
    failed_answer_refused failing_server small_expander good_chances (codes "POST")
      (some small_request) [] [] failed_answer small_request 200 small_media false good_served
      (codes "id") refl refl delta_fails refl

-- The good parts without their trailer, from a stream that breaks.
late_errors_hidden_example : IsSent (codes "nar R") (
    get_nar_common small_expander small_request (
      answered 200 small_media
        (part (codes "header") (codes "zstd") ∷ part (codes "body") (codes "*nar R") ∷ [])
        true))
late_errors_hidden_example =
    late_errors_hidden small_expander small_request small_media
      (part (codes "header") (codes "zstd")) (part (codes "body") (codes "*nar R"))
      (part (codes "trailer") (1 ∷ 6 ∷ 6 ∷ 6 ∷ 0 ∷ 3 ∷ 3 ∷ 0 ∷ 2 ∷ 1 ∷ 0 ∷ 0 ∷ codes "zstd") ∷ [])
      [] false true good_served good_parts_served (λ e. cc)

-- For the same parts, an error is returned, behind the nar.
missing_trailer_refused :
    get_nar_common small_expander small_request (
      answered 200 small_media
        (part (codes "header") (codes "zstd") ∷ part (codes "body") (codes "*nar R") ∷ [])
        true)
    ≡ err (record {
      status = 500;
      message = codes "parse multipart trailer";
      has_error = true;
      written = codes "nar R";
    })
unfolding get_nar_common nix_sandwich.Algo.Pick.get_algo nix_sandwich.Algo.Delta.expand
missing_trailer_refused = refl

differ-Shaped_example : Shaped failing_server.wire (some small_request) failed_answer
differ-Shaped_example =
    differ-Shaped failing_server good_chances (some small_request) (codes "POST") [] []
      failed_answer delta_fails

-- A cache with a nar that is not compressed.
abbrev plain_downloads : Downloads
plain_downloads = record small_downloads {
  web = record { get = λ host path. replied 200 (codes "nar"); parse_info = λ body. none };
}

plain_nar_refused_example :
    (download_nar plain_downloads none [] (codes "cache") (codes "nar/abc.nar")).0 ≢ ok (codes "x")
plain_nar_refused_example =
    plain_nar_refused plain_downloads none [] (codes "cache") (codes "nar/abc") (codes "x")
