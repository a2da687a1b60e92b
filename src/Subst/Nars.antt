-- ===== src/Subst/Nars.antt =====
-- `getNarCommon` of subst.go, `getNar` and `getBoundary`. The request to the differ is
-- sent as it is; the answer is a parameter, as are the dump of the base by nix-store and the filters. A
-- part comes whole or not at all. The client is sent what the algorithm writes before anything behind
-- it is looked at, so an error from there on carries what had been written.
pub mod Trailing
pub mod Accepted
use nix_sandwich.Prelude.{
  ℕ, Bool, true, false, not, ◌||◌, Option, none, some, List, [], ◌∷◌, Bytes, codes, bytes_eq, ◌==◌,
  if◌then◌else◌, Outcome, ok, err, panic, ◌>>=◌,
}
use nix_sandwich.External.Lru.{Lru}
use nix_sandwich.External.NarTools.{Output}
use nix_sandwich.External.System.{Run, DeltaTools}
use nix_sandwich.Algo.Pick.{DiffAlgo, get_algo}
use nix_sandwich.Algo.Stats.{DiffStats, nonnil}
use nix_sandwich.Algo.Delta.{AlgoError, BaseReader, expand}
use nix_sandwich.Subst.Types.{DifferRequest, Recent, Refusal}
use nix_sandwich.Analytics.Records.{AnRecord, delta_record}
use nix_sandwich.Subst.Recents.{find_nar}
use nix_sandwich.Differ.Download.{ReaderFilter}
use nix_sandwich.Differ.Wire.{Part, differ_header_name, differ_body_name, differ_trailer_name, Wire}
use nix_sandwich.Differ.Server.{get_nar_filter}

-- `mime.ParseMediaType`: the media type, and the parameter `boundary`, if they can be read.
abbrev pub MediaType : Type 0
MediaType = Option (Bytes × Bytes)

unfoldable pub get_boundary : MediaType → Option Bytes
get_boundary none = none
get_boundary (some (media_type, boundary)) =
    if not (bytes_eq media_type (codes "multipart/form-data")) || bytes_eq boundary []
    then none
    else some boundary

-- What a request to the differ comes to. Behind the parts, the stream ends or breaks.
pub data Exchange : Type 0 where
  no_request no_answer : Exchange
  answered : ℕ → MediaType → List Part → Bool → Exchange

-- The programs, the JSON, the dumps and the filters. Of the collapsing filter, also what it has given
-- for a text before it fails on it or misses the rest of it.
pub record Expander : Type 0 where
  pub tools : DeltaTools
  pub wire : Wire
  pub dump : Bytes → Option Output
  pub expand_filter : ReaderFilter
  pub collapse_filter : ReaderFilter
  pub collapse_begun : Bytes → Bytes
  pub base_temp : Option Bytes

-- What is answered with status 0: the statistics, and what was written.
pub record Served : Type 0 where
  pub stats : DiffStats
  pub body : Bytes

abbrev pub refusal {ℓ} : {A : Type ℓ} → ℕ → Bytes → Bool → Outcome Refusal A
refusal status message has_error =
    err (record { status = status; message = message; has_error = has_error; written = [] })

-- An error behind what was written.
abbrev pub behind {ℓ} : {A : Type ℓ} → Bytes → Outcome Refusal A → Outcome Refusal A
behind body (ok a) = ok a
behind body (err r) = err (record r { written = body })
behind body panic = panic

-- The base's nar, through the filter if there is one: `none` is a crash.
unfoldable pub base_reader : Option ReaderFilter → Bytes → Option BaseReader
base_reader none bytes = some (record { bytes = bytes; failed = false; is_file = true })
base_reader (some f) bytes = elim (f bytes) [
  | ok expanded ↦ some (record { bytes = expanded; failed = false; is_file = false })
  | err e ↦ some (record { bytes = []; failed = true; is_file = false })
  | panic ↦ none
]

-- What comes through the collapsing filter.
unfoldable pub collapsed : Option ReaderFilter → Bytes → Outcome (Unit {0}) Bytes
collapsed none bytes = ok bytes
collapsed (some f) bytes = f bytes

-- A part that must come next.
unfoldable pub next_part : List Part → Bytes → Bytes → Bytes → Outcome Refusal (Bytes × List Part)
next_part [] name missing wrong = refusal 500 missing true
next_part (p ∷ parts) name missing wrong =
    if not (bytes_eq p.name name) then refusal 500 wrong false else ok (p.content, parts)

-- The trailer is the last part and says that all is well.
unfoldable pub read_trailer : Wire → List Part → Bool → Outcome Refusal (Option DiffStats)
unfolding next_part
read_trailer wire parts broken = do
  (json, more) ←
      next_part parts differ_trailer_name (codes "parse multipart trailer")
        (codes "parse multipart trailer wrong name")
  elim (wire.decode_trailer json) [
    | none ↦ refusal 500 (codes "parse multipart trailer json") true
    | some t ↦ elim more [
      | p ∷ ps ↦ refusal 500 (codes "parse multipart trailing parts") false
      | [] ↦
          if broken
          then refusal 500 (codes "parse multipart trailing parts") false
          else if not t.is_ok
          then refusal 500 [] true
          else ok t.stats
    ]
  ]

abbrev pub with_times : DiffStats → Run → DiffStats
with_times d r = record d {
  exp_total_ms = r.total_ms;
  exp_user_ms = r.user_ms;
  exp_sys_ms = r.sys_ms;
}

-- Behind a delta that was applied, with the output of the algorithm.
unfoldable pub finish_nar :
    Expander
    → List Part
    → Bool
    → Bool
    → Bytes
    → Run
    → Outcome (Unit {0}) Bytes
    → Outcome Refusal Served
unfolding read_trailer
finish_nar x parts broken dump_failed output run panic = panic
finish_nar x parts broken true output run (ok body) =
    behind body (refusal 500 (codes "base dump error") true)
finish_nar x parts broken true output run (err e) =
    behind (x.collapse_begun output) (refusal 500 (codes "base dump error") true)
finish_nar x parts broken false output run (err e) =
    behind (x.collapse_begun output) (refusal 500 (codes "nar filter error") true)
finish_nar x parts broken false output run (ok body) = behind body (do
  stats ← read_trailer x.wire parts broken
  ok (record { stats = with_times (nonnil stats) run; body = body }))

-- What comes through the collapsing filter of an output that does not end.
abbrev pub begun : Expander → Option ReaderFilter → Bytes → Bytes
begun x none output = output
begun x (some f) output = x.collapse_begun output

abbrev pub applied :
    Expander
    → List Part
    → Bool
    → Bool
    → Option ReaderFilter
    → Bytes × Outcome AlgoError Run
    → Outcome Refusal Served
applied x parts broken dump_failed filter (output, err e) =
    behind (begun x filter output) (refusal 500 (codes "diff algo error") true)
applied x parts broken dump_failed filter (output, panic) = panic
applied x parts broken dump_failed filter (output, ok run) =
    finish_nar x parts broken dump_failed output run (collapsed filter output)

-- The delta is applied to the dump of the base.
unfoldable pub apply_delta :
    Expander → DifferRequest → DiffAlgo → Bytes → List Part → Bool → Outcome Refusal Served
unfolding base_reader collapsed finish_nar
apply_delta x req algo delta parts broken = elim (x.dump req.base_store_path) [
  | none ↦ refusal 500 (codes "base dump error") true
  | some out ↦
      let (ex, cl) = get_nar_filter x.expand_filter x.collapse_filter req in
      elim (base_reader ex out.written) [
        | none ↦ panic
        | some base ↦
            applied x parts broken out.failed cl (expand x.tools algo x.base_temp base delta)
      ]
]

-- The header names the algorithm.
unfoldable pub read_algo_name : Wire → Bytes → Outcome Refusal DiffAlgo
read_algo_name wire json = elim (wire.decode_header json) [
  | none ↦ refusal 500 (codes "parse multipart header json") true
  | some name ↦ elim (get_algo name) [
    | none ↦ refusal 500 (codes "unknown algo") false
    | some algo ↦ ok algo
  ]
]

unfoldable pub read_parts : Expander → DifferRequest → List Part → Bool → Outcome Refusal Served
unfolding next_part read_algo_name apply_delta
read_parts x req parts broken = do
  (json, parts') ←
      next_part parts differ_header_name (codes "parse multipart header")
        (codes "parse multipart header wrong name")
  algo ← read_algo_name x.wire json
  (delta, parts'') ←
      next_part parts' differ_body_name (codes "parse multipart body")
        (codes "parse multipart body wrong name")
  apply_delta x req algo delta parts'' broken

unfoldable pub get_nar_common : Expander → DifferRequest → Exchange → Outcome Refusal Served
unfolding get_boundary read_parts
get_nar_common x req no_request = refusal 500 (codes "create req") true
get_nar_common x req no_answer = refusal 500 (codes "differ http error") true
get_nar_common x req (answered status media parts broken) =
    if not (status == 200)
    then refusal status (codes "differ http status") true
    else (elim (get_boundary media) [
      | none ↦ refusal 500 (codes "parse multipart") true
      | some boundary ↦ read_parts x req parts broken
    ])

-- What goes to the log: behind a nar that was served, its statistics, under the id of the recent.
abbrev pub delta_records : Bytes → Outcome Refusal Served → List AnRecord
delta_records id (ok served) = delta_record id served.stats ∷ []
delta_records id (err r) = []
delta_records id panic = []

-- `getNar` behind `getRecent`.
unfoldable pub get_found :
    Expander
    → (DifferRequest → Exchange)
    → Bool
    → Outcome Refusal Recent
    → Outcome Refusal Served × List AnRecord
unfolding get_nar_common
get_found x send slot (err r) = (err r, [])
get_found x send slot panic = (panic, [])
get_found x send slot (ok r) =
    if not slot
    then (refusal 500 (codes "canceled") false, [])
    else (let answer = get_nar_common x r.request (send r.request) in
        (answer, delta_records r.id answer))

-- `getNar`, for the recents, and for what the differ answers to a request. `slot` is whether the
-- semaphore lets the request in.
unfoldable pub get_nar :
    (lru : Lru Recent)
    → Expander
    → (DifferRequest → Exchange)
    → Bool
    → lru.Cache
    → Bytes
    → Bytes
    → Outcome Refusal Served × lru.Cache × List AnRecord
unfolding find_nar get_found
get_nar lru x send slot recents method url_path =
    let (found, recents') = find_nar lru recents method url_path in
    let (answer, logged) = get_found x send slot found in (answer, recents', logged)
