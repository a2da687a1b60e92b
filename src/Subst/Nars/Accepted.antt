-- ===== src/Subst/Nars/Accepted.antt =====
-- What an answer of the differ must be for the substituter to serve a nar.
use nix_sandwich.Prelude.{
  ◌≡◌, refl, sym, ◌∙◌, ap, Bool, true, false, Bool-cases, Option-cases, inl, inr, Option, some,
  List, ◌∷◌, Bytes, ◌==◌, ==_iff, Outcome, ok, err, panic, chained,
}
use nix_sandwich.External.NarTools.{Output}
use nix_sandwich.External.System.{Run}
use nix_sandwich.Algo.Pick.{DiffAlgo, get_algo}
use nix_sandwich.Algo.Stats.{DiffStats, nonnil}
use nix_sandwich.Algo.Delta.{AlgoError, BaseReader, expand}
use nix_sandwich.Subst.Types.{DifferRequest, Refusal}
use nix_sandwich.Differ.Download.{ReaderFilter}
use nix_sandwich.Differ.Wire.{Part, differ_header_name, differ_body_name, Wire}
use nix_sandwich.Differ.Server.{get_nar_filter, part}
use nix_sandwich.Subst.Nars.Trailing.{next_part-ok, Trailing, read_trailer-Trailing}
use nix_sandwich.Subst.Nars.{
  MediaType, get_boundary, Exchange, no_request, no_answer, answered, Expander, Served, base_reader,
  collapsed, next_part, read_trailer, with_times, finish_nar, applied, behind, apply_delta,
  read_algo_name, read_parts, get_nar_common,
}

-- How the nar that is served was made, from the delta and the parts behind it.
pub record Applied (x : Expander) (req : DifferRequest) (algo : DiffAlgo) (delta : Bytes)
    (parts : List Part) (broken : Bool) (served : Served) : Type 0 where
  pub out : Output
  pub base : BaseReader
  pub output : Bytes
  pub run : Run
  pub stats : Option DiffStats
  pub dumped : x.dump req.base_store_path ≡ some out
  pub dump_good : out.failed ≡ false
  pub base_read :
      base_reader (get_nar_filter x.expand_filter x.collapse_filter req).0 out.written ≡ some base
  pub expanded : expand x.tools algo x.base_temp base delta ≡ (output, ok run)
  pub body_collapsed :
      collapsed (get_nar_filter x.expand_filter x.collapse_filter req).1 output ≡ ok served.body
  pub trailing : Trailing x.wire parts broken stats
  pub stats_kept : served.stats ≡ with_times (nonnil stats) run

-- An error behind what was written is still an error.
behind-ok :
    (body : Bytes) (o : Outcome Refusal Served) (served : Served)
    → behind body o ≡ ok served
    → o ≡ ok served
behind-ok body (ok v) served h = h
behind-ok body (err r) served h = cc
behind-ok body panic served h = cc

module _ (x : Expander) (parts : List Part) (broken : Bool) (output : Bytes) (run : Run)
    (served : Served) where
  finish_nar-Trailing :
      (dump_failed : Bool) (o : Outcome (Unit {0}) Bytes)
      → finish_nar x parts broken dump_failed output run o ≡ ok served
      → (dump_failed ≡ false)
        × (o ≡ ok served.body)
        × (stats : Option DiffStats) × Trailing x.wire parts broken stats
        × (served.stats ≡ with_times (nonnil stats) run)
  unfolding finish_nar
  finish_nar-Trailing dump_failed panic h = cc
  finish_nar-Trailing true (ok body) h = cc
  finish_nar-Trailing true (err e) h = cc
  finish_nar-Trailing false (err e) h = cc
  finish_nar-Trailing false (ok body) h =
      let (stats, made, read) =
        chained _ _ (read_trailer x.wire parts broken) (behind-ok body _ served h) in
      let same : record { stats = with_times (nonnil stats) run; body = body } ≡ served = cc in
      (
        refl,
        ap (λ (v : Served). ok v.body) same,
        stats,
        read_trailer-Trailing x.wire parts broken stats read,
        sym (ap (λ (v : Served). v.stats) same),
      )

module _ (x : Expander) (req : DifferRequest) (parts : List Part) (broken : Bool)
    (served : Served) where
  applied-run :
      (dump_failed : Bool) (cl : Option ReaderFilter) (o : Bytes × Outcome AlgoError Run)
      → applied x parts broken dump_failed cl o ≡ ok served
      → (output : Bytes) × (run : Run) × (o ≡ (output, ok run))
        × (finish_nar x parts broken dump_failed output run (collapsed cl output) ≡ ok served)
  applied-run dump_failed cl (output, ok run) h = (output, run, refl, h)
  applied-run dump_failed cl (output, err e) h = cc
  applied-run dump_failed cl (output, panic) h = cc

  apply_delta-Applied :
      (algo : DiffAlgo) (delta : Bytes)
      → apply_delta x req algo delta parts broken ≡ ok served
      → Applied x req algo delta parts broken served
  unfolding apply_delta
  apply_delta-Applied algo delta h = elim (Option-cases (x.dump req.base_store_path)) [
    | inl missing ↦ cc (rw (missing, apply_delta) at h)
    | inr (out, dumped) ↦
        let (ex, cl) = get_nar_filter x.expand_filter x.collapse_filter req in
        elim (Option-cases (base_reader ex out.written)) [
          | inl crash ↦ cc (rw (dumped, apply_delta, crash) at h)
          | inr (base, read) ↦
              let (output, run, made, finished) =
                applied-run out.failed cl _ (rw (dumped, apply_delta, read) at h) in
              let (good, body, stats, trailing, kept) =
                finish_nar-Trailing x parts broken output run served _ _ finished in
              record {
                out = out;
                base = base;
                output = output;
                run = run;
                stats = stats;
                dumped = dumped;
                dump_good = good;
                base_read = read;
                expanded = made;
                body_collapsed = body;
                trailing = trailing;
                stats_kept = kept;
              }
        ]
  ]

-- The answer of the differ from which a nar is served.
pub record Accepted (x : Expander) (req : DifferRequest) (exchange : Exchange) (served : Served)
    : Type 0 where
  pub media : MediaType
  pub boundary : Bytes
  pub json : Bytes
  pub name : Bytes
  pub algo : DiffAlgo
  pub delta : Bytes
  pub rest : List Part
  pub broken : Bool
  pub exchanged :
      exchange
      ≡ answered 200 media
          (part differ_header_name json ∷ part differ_body_name delta ∷ rest)
          broken
  pub bounded : get_boundary media ≡ some boundary
  pub header : x.wire.decode_header json ≡ some name
  pub known : get_algo name ≡ some algo
  pub made : Applied x req algo delta rest broken served

read_algo_name-known :
    (wire : Wire) (json : Bytes) (algo : DiffAlgo)
    → read_algo_name wire json ≡ ok algo
    → (name : Bytes) × (wire.decode_header json ≡ some name) × (get_algo name ≡ some algo)
unfolding read_algo_name
read_algo_name-known wire json algo h = elim (Option-cases (wire.decode_header json)) [
  | inl bad ↦ cc (rw (bad, read_algo_name) at h)
  | inr (name, good) ↦ elim (Option-cases (get_algo name)) [
    | inl unknown ↦ cc (rw (good, read_algo_name, unknown) at h)
    | inr (a, known) ↦
        let same : a ≡ algo = cc (rw (good, read_algo_name, known) at h) in
        (name, good, known ∙ ap some same)
  ]
]

-- `getNarCommon` returns the status 0 and statistics only for an answer with status 200 and a boundary,
-- whose parts are exactly a header with a known algorithm, a body and a trailer that says that all went
-- well, with the end of the stream behind them, only if the dump of the base went well, and then what
-- was written is the delta applied to this dump, through the filters, and the statistics are those of
-- the trailer with the times of the run. (What was written before an error is with the client by then.)
pub get_nar_common-Accepted :
    (x : Expander) (req : DifferRequest) (exchange : Exchange) (served : Served)
    → get_nar_common x req exchange ≡ ok served
    → Accepted x req exchange served
unfolding get_nar_common read_parts
get_nar_common-Accepted x req no_request served h = cc
get_nar_common-Accepted x req no_answer served h = cc
get_nar_common-Accepted x req (answered status media parts broken) served h =
    elim (Bool-cases (status == 200)) [
      | inr other ↦ cc (rw other at h)
      | inl good ↦ elim (Option-cases (get_boundary media)) [
        | inl missing ↦ cc (rw (good, missing) at h)
        | inr (boundary, bounded) ↦
            let k = rw (good, bounded) at h in
            let ((json, parts1), k1, header) = chained _ _ (next_part parts _ _ _) k in
            let (algo, k2, named) = chained _ _ (read_algo_name x.wire json) k1 in
            let ((delta, rest), k3, body) = chained _ _ (next_part parts1 _ _ _) k2 in
            let (name, decoded, known) = read_algo_name-known x.wire json algo named in
            record {
              media = media;
              boundary = boundary;
              json = json;
              name = name;
              algo = algo;
              delta = delta;
              rest = rest;
              broken = broken;
              exchanged =
                  ap (λ n. answered n media parts broken) ((==_iff status 200).0 good)
                  ∙ ap (λ ps. answered 200 media ps broken)
                      (next_part-ok parts _ _ _ json parts1 header
                        ∙ ap (λ ps. part differ_header_name json ∷ ps)
                            (next_part-ok parts1 _ _ _ delta rest body));
              bounded = bounded;
              header = decoded;
              known = known;
              made = apply_delta-Applied x req rest broken served algo delta k3;
            }
      ]
    ]
