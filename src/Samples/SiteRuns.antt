-- ===== src/Samples/SiteRuns.antt =====
-- Two requests to the substituter: a narinfo, and the nar that it announces.
use nix_sandwich.Prelude.{
  length, All, ◌++◌, ℕ, ◌≡◌, ◌↔◌, refl, arith, Bool, true, false, ◌||◌, Option, none, some, List,
  [], ◌∷◌, Bytes, codes, ◌==◌, Outcome, ok,
}
use nix_sandwich.Subst.Types.{DifferRequest, Recent, AnRequest, replied}
use nix_sandwich.Subst.NarInfos.{rewritten, served_record}
use nix_sandwich.Analytics.Records.{AnRecord, request_record}
use nix_sandwich.Subst.Nars.{answered, get_nar_common, delta_records}
use nix_sandwich.Subst.Site.{match_info, info, Request, nar_body, Site, serve}
use nix_sandwich.Subst.Site.Pattern.{IsInfoPath, match_info_iff}
use nix_sandwich.Subst.Site.Found.{announced_nar_served}
use nix_sandwich.Subst.Site.Direct.{request_hash, request}
use nix_sandwich.Subst.Site.Direct.AsServed.{body_stats, request-served}
use nix_sandwich.Subst.Site.Run.{Visit, run}
use nix_sandwich.Subst.Site.Overlap.{Move, arrives, writes, overlap, quiet}
use nix_sandwich.Subst.Site.Overlap.Asked.{asks, OfDelta}
use nix_sandwich.Subst.Site.Overlap.Known.{overlap-known}
use nix_sandwich.Subst.Site.Analyzed.{deltas_of, run_log-matched}
use nix_sandwich.Analytics.Tally.{no_records, analyze_log}
use nix_sandwich.Samples.Instances.{table_lru, no_entries}
use nix_sandwich.Samples.SubstRuns.{
  small_config, find_hello, name_hello, hello_info, hello_recents, hello_recent, hello_base,
}
use nix_sandwich.Samples.TransferRuns.{small_expander, small_media}
use nix_sandwich.Samples.AnswerRuns.{good_parts}

abbrev is_among : Bytes → ℕ → Bool
is_among [] c = false
is_among (d ∷ ds) c = c == d || is_among ds c

-- The alphabet of nixbase32.
abbrev pub base32_alphabet : ℕ → Bool
base32_alphabet = is_among (codes "0123456789abcdfghijklmnpqrsvwxyz")

abbrev small_site : Site (Unit {0})
small_site = record {
  lru = table_lru Recent;
  config = small_config;
  find = find_hello;
  path_name = name_hello;
  upstream = λ hash head. replied 200 (some hello_info);
  alphabet = base32_alphabet;
  expander = small_expander;
  send = λ req. answered 200 small_media good_parts false;
}

abbrev pub info_request : Request
info_request = record {
  method = codes "GET";
  path = codes "/00000000000000000000000000000001.narinfo";
  granted = true;
  id = codes "id";
}

abbrev pub nar_request : Request
nar_request = record { method = codes "GET"; path = codes "/nar/def.nar"; granted = true; id = [] }

abbrev pub hello_log : List AnRecord
hello_log = request_record (served_record (codes "id") hello_info hello_base hello_recent) ∷ []

info_served :
    serve small_site info_request no_entries tt
    ≡ (ok (info (rewritten hello_info)), hello_log, hello_recents, tt)
unfolding serve nix_sandwich.Subst.NarInfos.get_nar_info_common
    nix_sandwich.Subst.Recents.put_recent nix_sandwich.Subst.NarInfos.is_not_found
    nix_sandwich.Prelude.slice_to nix_sandwich.Prelude.Paths.path_base
info_served = refl

announced_nar_served_example :
    (entry : AnRequest) × (req : DifferRequest) × (hello_log ≡ request_record entry ∷ [])
    × (entry.differ_request ≡ some req)
    × ((serve small_site nar_request hello_recents tt).0
        ≡ nar_body (get_nar_common small_expander req (answered 200 small_media good_parts false)))
    × ((serve small_site nar_request hello_recents tt).1
        ≡ delta_records entry.id
            (get_nar_common small_expander req (answered 200 small_media good_parts false)))
unfolding rewritten
announced_nar_served_example =
    announced_nar_served small_site info_request nar_request (rewritten hello_info) no_entries
      hello_recents tt tt tt hello_log info_served (omega arith) refl refl refl

match_info_iff_example :
    (match_info base32_alphabet (codes "/0a.ls") ≡ some (codes "0a", codes "ls"))
    ↔ IsInfoPath base32_alphabet (codes "/0a.ls") (codes "0a") (codes "ls")
match_info_iff_example =
    match_info_iff base32_alphabet (codes "/0a.ls") (codes "0a") (codes "ls") refl

-- The two requests, one after the other.
abbrev visit_of : Request → Visit (Unit {0})
visit_of q = record {
  request = q;
  state = tt;
  upstream = small_site.upstream;
  send = small_site.send;
}

abbrev two_visits : List (Visit (Unit {0}))
two_visits = visit_of info_request ∷ visit_of nar_request ∷ []

run_log-matched_example :
    ((analyze_log no_records (run small_site two_visits no_entries)).missing ≡ [])
    × (length (analyze_log no_records (run small_site two_visits no_entries)).diffed
        ≡ deltas_of (run small_site two_visits no_entries))
run_log-matched_example = run_log-matched small_site two_visits no_entries (λ k. refl)

two_visits_deltas : deltas_of (run small_site two_visits no_entries) ≡ 1
unfolding run nix_sandwich.Subst.NarInfos.get_nar_info_common
    nix_sandwich.Subst.NarInfos.is_not_found nix_sandwich.Prelude.slice_to
    nix_sandwich.Subst.Nars.get_nar nix_sandwich.Subst.Recents.put_recent
    nix_sandwich.Prelude.Paths.path_base nix_sandwich.Algo.Pick.get_algo
    nix_sandwich.Algo.Delta.expand
two_visits_deltas = refl

-- The record of the delta is written before that of its request.
abbrev crossed : List (Move (Unit {0}))
crossed =
    arrives (visit_of info_request) ∷ arrives (visit_of nar_request) ∷ writes 1 ∷ writes 0 ∷ []

crossed_settled : (overlap small_site (quiet no_entries) crossed).pending ≡ []
unfolding overlap nix_sandwich.Subst.NarInfos.get_nar_info_common
    nix_sandwich.Subst.NarInfos.is_not_found nix_sandwich.Prelude.slice_to
    nix_sandwich.Subst.Nars.get_nar nix_sandwich.Subst.Recents.put_recent
    nix_sandwich.Prelude.Paths.path_base nix_sandwich.Algo.Pick.get_algo
    nix_sandwich.Algo.Delta.expand
crossed_settled = refl

overlap-known_example :
    All
      (OfDelta (λ id. asks id (overlap small_site (quiet no_entries) crossed).written))
      (overlap small_site (quiet no_entries) crossed).written
overlap-known_example = overlap-known small_site crossed no_entries (λ k. refl) crossed_settled

-- `analyzeLog` prints that the record of the request is missing.
crossed_missing :
    (analyze_log no_records (overlap small_site (quiet no_entries) crossed).written).missing
    ≡ codes "id" ∷ []
unfolding overlap analyze_log nix_sandwich.Subst.NarInfos.get_nar_info_common
    nix_sandwich.Subst.NarInfos.is_not_found nix_sandwich.Prelude.slice_to
    nix_sandwich.Subst.Nars.get_nar nix_sandwich.Subst.Recents.put_recent
    nix_sandwich.Prelude.Paths.path_base nix_sandwich.Algo.Pick.get_algo
    nix_sandwich.Algo.Delta.expand
crossed_missing = refl

-- The name of the path, as the simulation would ask for it.
abbrev hello_req : Bytes
hello_req = codes "00000000000000000000000000000001-hello-2.12"

hello_hash-named : All (λ c. base32_alphabet c ≡ true) (request_hash hello_req)
unfolding request_hash
hello_hash-named = (
  refl,
  (
    refl,
    (
      refl,
      (
        refl,
        (
          refl,
          (
            refl,
            (
              refl,
              (
                refl,
                (
                  refl,
                  (
                    refl,
                    (
                      refl,
                      (
                        refl,
                        (
                          refl,
                          (
                            refl,
                            (
                              refl,
                              (
                                refl,
                                (
                                  refl,
                                  (
                                    refl,
                                    (
                                      refl,
                                      (
                                        refl,
                                        (
                                          refl,
                                          (
                                            refl,
                                            (
                                              refl,
                                              (
                                                refl,
                                                (
                                                  refl,
                                                  (
                                                    refl,
                                                    (
                                                      refl,
                                                      (refl, (refl, (refl, (refl, (refl, tt))))),
                                                    ),
                                                  ),
                                                ),
                                              ),
                                            ),
                                          ),
                                        ),
                                      ),
                                    ),
                                  ),
                                ),
                              ),
                            ),
                          ),
                        ),
                      ),
                    ),
                  ),
                ),
              ),
            ),
          ),
        ),
      ),
    ),
  ),
)

request-served_example : request small_site (codes "id") hello_req no_entries tt ≡ (
  body_stats (serve small_site nar_request hello_recents tt).0,
  hello_log ++ (serve small_site nar_request hello_recents tt).1,
  hello_recents,
  tt,
)
unfolding rewritten request_hash
request-served_example =
    request-served small_site info_request nar_request hello_req (rewritten hello_info) no_entries
      hello_recents tt tt tt hello_log info_served (λ e. cc) hello_hash-named refl refl
      (omega arith) refl refl refl refl refl refl
