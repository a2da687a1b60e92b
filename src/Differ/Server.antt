-- ===== src/Differ/Server.antt =====
-- The handler `differ` of differ.go. The two downloads run one after the other, since they share only
-- the names of new files; which of two errors is the first is a parameter, and so is what the semaphores
-- and the connection to the client allow. The part of the body can be opened.
pub mod Cleanup
pub mod Answers
pub mod Shaped
use nix_sandwich.Prelude.{
  ℕ, Bool, true, false, not, ◌||◌, Option, none, some, List, [], ◌∷◌, Bytes, codes, bytes_eq, cut,
  if◌then◌else◌, Outcome, ok, err, panic,
}
use nix_sandwich.Prelude.Paths.{path_base}
use nix_sandwich.External.System.{Files, remove_file, DeltaTools}
use nix_sandwich.Algo.Pick.{DiffAlgo, algo_name, pick_algo}
use nix_sandwich.Algo.Stats.{DiffStats, stats_string}
use nix_sandwich.Algo.Delta.{AlgoError, create, file_size}
use nix_sandwich.Catalog.FindBase.{nar_filter_expand_v2}
use nix_sandwich.Subst.Types.{DifferRequest}
use nix_sandwich.Differ.Download.{
  DownloadError, canceled, not_found, ReaderFilter, Downloads, Downloaded, download_nar,
  download_nar_from_info,
}
use nix_sandwich.Differ.Wire.{
  Trailer, Part, differ_header_name, differ_body_name, differ_trailer_name, Wire,
}

-- The expanding and the collapsing filter, if there is one.
abbrev pub filters_for {ℓ} : {F : Type ℓ} → F → F → Bool → Option F × Option F
filters_for ex cl true = (some ex, some cl)
filters_for ex cl false = (none, none)

abbrev pub get_nar_filter {ℓ} : {F : Type ℓ} → F → F → DifferRequest → Option F × Option F
get_nar_filter ex cl req = filters_for ex cl (bytes_eq req.nar_filter nar_filter_expand_v2)

-- What the semaphores grant, whether the base's error is the first, and what can be written.
pub record Chances : Type 0 where
  pub disk : Bool
  pub req_slot : Bool
  pub base_slot : Bool
  pub delta_slot : Bool
  pub base_first : Bool
  pub header_written : Bool
  pub trailer_written : Bool
  pub end_written : Bool

pub record Server : Type 0 where
  pub downloads : Downloads
  pub tools : DeltaTools
  pub wire : Wire
  pub expand_filter : ReaderFilter
  pub error_text : AlgoError → Bytes
  pub default_upstream : Bytes

-- The results of the handler, and the parts that were written.
pub record Answer : Type 0 where
  pub status : ℕ
  pub message : Bytes
  pub has_error : Bool
  pub parts : List Part

abbrev pub answer_error : ℕ → Bytes → Bool → Answer
answer_error status message has_error = record {
  status = status;
  message = message;
  has_error = has_error;
  parts = [];
}

-- The name of a file that was downloaded; the empty one if there is none.
abbrev pub name_of : Outcome DownloadError Bytes → Bytes
name_of (ok name) = name
name_of (err e) = []
name_of panic = []

-- `g.Wait()`: the first error; none where there is none.
unfoldable pub first_error :
    Bool → Outcome DownloadError Bytes → Outcome DownloadError Bytes → Option DownloadError
first_error base_first (err e) (err e') = some (if base_first then e' else e)
first_error base_first (err e) base = some e
first_error base_first req (err e) = some e
first_error base_first req base = none

abbrev pub has_panic : Outcome DownloadError Bytes → Bool
has_panic (ok name) = false
has_panic (err e) = false
has_panic panic = true

abbrev pub trailer_of : Server → ℕ → Outcome AlgoError DiffStats → Trailer
trailer_of srv base_size (ok stats) = record {
  is_ok = true;
  stats = some (record stats { base_size = base_size });
  error = [];
}
trailer_of srv base_size (err e) = record { is_ok = false; stats = none; error = srv.error_text e }
trailer_of srv base_size panic = record { is_ok = false; stats = none; error = [] }

abbrev pub is_err : Outcome AlgoError DiffStats → Bool
is_err (ok stats) = false
is_err (err e) = true
is_err panic = true

abbrev pub part : Bytes → Bytes → Part
part name content = record { name = name; content = content }

-- Behind the downloads: the delta is made and sent.
unfoldable pub send_delta : Server → Chances → DiffAlgo → Files → Bytes → Bytes → Answer
send_delta srv ch algo fs base_nar req_nar =
    if not ch.delta_slot
    then answer_error 500 (codes "canceled") false
    else if not ch.header_written
    then answer_error 500 (codes "multipart write header") true
    else (let (delta, result) = create srv.tools algo fs base_nar req_nar in
        let t = trailer_of srv (file_size fs base_nar) result in
        let header = part differ_header_name (srv.wire.encode_header (algo_name algo)) in
        let body = part differ_body_name delta in
        if not ch.trailer_written
        then record {
          status = 500;
          message = codes "multipart write trailer";
          has_error = true;
          parts = header ∷ body ∷ [];
        }
        else record {
          status = 0;
          message = stats_string t.stats;
          has_error = is_err result || not ch.end_written;
          parts = header ∷ body ∷ part differ_trailer_name (srv.wire.encode_trailer t) ∷ [];
        })

abbrev pub download_answer : DownloadError → Answer
download_answer not_found = answer_error 404 (codes "nar download error") true
download_answer _ = answer_error 500 (codes "nar download error") true

-- Both downloads have ended; their files are removed at the end.
unfoldable pub downloaded :
    Server
    → Chances
    → DiffAlgo
    → Files
    → Outcome DownloadError Bytes
    → Outcome DownloadError Bytes
    → Option Answer × Files
unfolding first_error send_delta
downloaded srv ch algo fs req base = if has_panic req || has_panic base then (none, fs) else (
  elim (first_error ch.base_first req base) [
    | some e ↦ some (download_answer e)
    | none ↦ some (send_delta srv ch algo fs (name_of base) (name_of req))
  ],
  remove_file (remove_file fs (name_of base)) (name_of req),
)

-- The hash of a store path: its name up to the dash.
unfoldable pub hash_of : Bytes → Bytes
hash_of path = elim (cut (path_base path) b'-') [ none ↦ path_base path | some (hash, rest) ↦ hash ]

abbrev pub upstream_of : Server → DifferRequest → Bytes
upstream_of srv req = if bytes_eq req.upstream [] then srv.default_upstream else req.upstream

abbrev pub filter_of : Server → DifferRequest → Option ReaderFilter
filter_of srv req = (get_nar_filter srv.expand_filter srv.expand_filter req).0

unfoldable pub get_req : Server → Chances → DifferRequest → Files → Downloaded
get_req srv ch req fs =
    if not ch.req_slot
    then (err canceled, fs)
    else download_nar srv.downloads (filter_of srv req) fs (upstream_of srv req) req.req_nar_path

unfoldable pub get_base : Server → Chances → DifferRequest → Files → Downloaded
unfolding hash_of
get_base srv ch req fs =
    if not ch.base_slot
    then (err canceled, fs)
    else download_nar_from_info srv.downloads (filter_of srv req) fs (upstream_of srv req)
        (hash_of req.base_store_path)

abbrev pub with_both :
    Server → Chances → DiffAlgo → Outcome DownloadError Bytes → Downloaded → Option Answer × Files
with_both srv ch algo req_nar (base_nar, fs) = downloaded srv ch algo fs req_nar base_nar

abbrev pub with_req :
    Server → Chances → DiffAlgo → DifferRequest → Downloaded → Option Answer × Files
with_req srv ch algo req (req_nar, fs) = with_both srv ch algo req_nar (get_base srv ch req fs)

-- The two downloads, and what follows.
unfoldable pub serve_delta :
    Server → Chances → DiffAlgo → DifferRequest → Files → Option Answer × Files
unfolding get_req get_base downloaded
serve_delta srv ch algo req fs = with_req srv ch algo req (get_req srv ch req fs)

-- `differ`: for a method and what the JSON decoder makes of the request's body. `none` is a crash.
unfoldable pub differ :
    Server → Chances → Bytes → Option DifferRequest → Files → Option Answer × Files
unfolding serve_delta
differ srv ch method request fs =
    if not (bytes_eq method (codes "POST"))
    then (some (answer_error 405 [] false), fs)
    else (elim request [
      | none ↦ (some (answer_error 400 (codes "json decode error") true), fs)
      | some req ↦ elim (pick_algo req.accept_algos) [
        | none ↦ (some (answer_error 400 (codes "unknown algo") false), fs)
        | some algo ↦
            if not ch.disk
            then (some (answer_error 507 (codes "disk semaphore") true), fs)
            else serve_delta srv ch algo req fs
      ]
    ])
