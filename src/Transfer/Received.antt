-- ===== src/Transfer/Received.antt =====
-- The substituter's part of a transfer, and the whole of it.
use nix_sandwich.Prelude.{
  Bool-cases, inl, inr, ◌≡◌, refl, sym, arith, true, false, Option, none, some, List, [], ◌∷◌,
  Bytes, codes, bytes_eq, bytes_eq_refl, eq→bytes_eq, bytes_eq→eq, ok,
}
use nix_sandwich.External.System.{Files, Run, read_file, DeltaTools}
use nix_sandwich.Algo.Pick.{DiffAlgo, xd3_algo, zst_algo, algo_name, get_algo}
use nix_sandwich.Algo.Atoi.{ℤ, pos}
use nix_sandwich.Algo.Delta.{
  AlgoError, BaseReader, expand_args, expand_error, expand, finish_expand,
}
use nix_sandwich.Subst.Types.{DifferRequest}
use nix_sandwich.Subst.Nars.{
  Expander, MediaType, get_boundary, answered, Served, base_reader, next_part, read_trailer,
  with_times, finish_nar, apply_delta, read_algo_name, read_parts, get_nar_common,
}
use nix_sandwich.Differ.Download.{ReaderFilter, filtered}
use nix_sandwich.Differ.Wire.{Trailer, Part, IsAscii}
use nix_sandwich.Differ.Server.{Chances, Server, Answer, get_nar_filter, differ}
use nix_sandwich.Transfer.Setting.{Restores, AllGranted, Setting}
use nix_sandwich.Transfer.Sent.{both_files, delta_of, sent_stats, sent_parts, sent, differ-granted}

-- The algorithm that a header names: the picked one, with its own level.
abbrev pub named_algo : DiffAlgo → DiffAlgo
named_algo (xd3_algo _) = xd3_algo (pos 6)
named_algo (zst_algo _) = zst_algo (pos 9)

get_algo-algo_name : (algo : DiffAlgo) → get_algo (algo_name algo) ≡ some (named_algo algo)
unfolding get_algo algo_name
get_algo-algo_name (xd3_algo _) = refl
get_algo-algo_name (zst_algo _) = refl

algo_name-IsAscii : (algo : DiffAlgo) → IsAscii (algo_name algo)
unfolding algo_name
algo_name-IsAscii (xd3_algo _) = omega arith
algo_name-IsAscii (zst_algo _) = omega arith

-- Its arguments for expanding do not depend on the level.
expand_args-named_algo :
    (algo : DiffAlgo) (temp : Bytes) → expand_args (named_algo algo) temp ≡ expand_args algo temp
unfolding expand_args
expand_args-named_algo (xd3_algo _) temp = refl
expand_args-named_algo (zst_algo _) temp = refl

expand_args-xd3 :
    (level : ℤ) (temp : Bytes) → expand_args (xd3_algo level) [] ≡ expand_args (xd3_algo level) temp
unfolding expand_args
expand_args-xd3 level temp = refl

finish_expand-ok :
    (r : Run) (e : Option AlgoError) (nar : Bytes)
    → e ≡ none
    → r.output ≡ nar
    → finish_expand r e ≡ (nar, ok r)
finish_expand-ok r e nar h o = rw (h, o)

-- Applying a delta to a base that was read without an error.
expand-ok :
    (tools : DeltaTools) (algo : DiffAlgo) (temp : Bytes) (base : BaseReader) (delta nar : Bytes)
    → base.failed ≡ false
    → expand_error (tools.decode (expand_args algo temp) base.bytes delta) false ≡ none
    → (tools.decode (expand_args algo temp) base.bytes delta).output ≡ nar
    → expand tools (named_algo algo) (some temp) base delta
      ≡ (nar, ok (tools.decode (expand_args algo temp) base.bytes delta))
unfolding expand expand_args
expand-ok tools (xd3_algo level) temp base delta nar read h o = elim (Bool-cases base.is_file) [
  | inl file ↦ rw file (finish_expand-ok _ _ nar h o)
  | inr piped ↦ rw (piped, read) (finish_expand-ok _ _ nar h o)
]
expand-ok tools (zst_algo level) temp base delta nar read h o =
    rw read (finish_expand-ok _ _ nar h o)

-- A base that the filter takes is read without an error.
base_reader-filtered :
    (filter : Option ReaderFilter) (bytes content : Bytes)
    → filtered filter bytes ≡ ok content
    → (base : BaseReader) × (base_reader filter bytes ≡ some base)
      × (base.bytes ≡ content)
      × (base.failed ≡ false)
unfolding base_reader filtered
base_reader-filtered none bytes content h =
    (record { bytes = bytes; failed = false; is_file = true }, refl, ground arith, refl)
base_reader-filtered (some f) bytes content h =
    (record { bytes = content; failed = false; is_file = false }, rw h, refl, refl)

next_part-here :
    (p : Part) (parts : List Part) (name missing wrong : Bytes)
    → bytes_eq p.name name ≡ true
    → next_part (p ∷ parts) name missing wrong ≡ ok (p.content, parts)
unfolding next_part
next_part-here p parts name missing wrong h = rw h

-- A file is still there under a newer one.
read_file-below :
    (fs : Files) (newer name content content' : Bytes)
    → read_file ((name, content') ∷ fs) newer ≡ none
    → read_file ((newer, content) ∷ (name, content') ∷ fs) name ≡ some content'
read_file-below fs newer name content content' h = elim (Bool-cases (bytes_eq newer name)) [
  | inl same ↦
      let e : bytes_eq name newer ≡ true =
        eq→bytes_eq name newer (sym (bytes_eq→eq newer name same)) in
      cc (rw e at h)
  | inr other ↦ rw (other, bytes_eq_refl name)
]

module _ (srv : Server) (x : Expander) (ch : Chances) (req : DifferRequest) (algo : DiffAlgo)
    (fs : Files) (nar : Bytes) (all : AllGranted ch) (s : Setting srv x req algo fs nar) where
  -- The run that applies the delta.
  abbrev pub last_run : Run
  last_run =
      x.tools.decode (expand_args algo s.temp) s.filtered_base
        (delta_of srv x ch req algo fs nar all s)

  abbrev pub received : Served
  received = record {
    stats = with_times (sent_stats srv x ch req algo fs nar all s) last_run;
    body = nar;
  }

  abbrev sent_trailer : Trailer
  sent_trailer = record {
    is_ok = true;
    stats = some (sent_stats srv x ch req algo fs nar all s);
    error = [];
  }

  read_trailer-sent :
      read_trailer x.wire
        (record { name = codes "trailer"; content = srv.wire.encode_trailer sent_trailer } ∷ [])
        false
      ≡ ok (some (sent_stats srv x ch req algo fs nar all s))
  unfolding read_trailer next_part
  read_trailer-sent = rw (
    s.same_wire,
    srv.wire.decode_trailer-encode_trailer (sent_stats srv x ch req algo fs nar all s)
        (algo_name-IsAscii algo),
  )

  finish_nar-sent :
      finish_nar x
        (record { name = codes "trailer"; content = srv.wire.encode_trailer sent_trailer } ∷ [])
        false
        false
        s.filtered_nar
        last_run
        (ok nar)
      ≡ ok received
  unfolding finish_nar
  finish_nar-sent = rw read_trailer-sent

  restored :
      Restores srv.tools x.tools
      → (expand_error last_run false ≡ none) × (last_run.output ≡ s.filtered_nar)
  restored law =
      law algo (both_files srv x ch req algo fs nar all s) s.base_file s.req_file s.temp
        s.filtered_base s.filtered_nar (rw (bytes_eq_refl s.base_file))
        (read_file-below fs s.base_file s.req_file s.filtered_base s.filtered_nar
          (srv.downloads.temps.temp_name_fresh _ _ s.base_named))
        s.created

  apply_delta-sent :
      Restores srv.tools x.tools
      → apply_delta x req
          (named_algo algo)
          (delta_of srv x ch req algo fs nar all s)
          (record { name = codes "trailer"; content = srv.wire.encode_trailer sent_trailer } ∷ [])
          false
        ≡ ok received
  unfolding apply_delta
  apply_delta-sent law =
      let ex = (get_nar_filter x.expand_filter x.collapse_filter req).0 in
      let (base, read, bytes, fine) =
        base_reader-filtered ex s.base_nar s.filtered_base s.dump_filtered in
      let (no_error, output) = restored law in
      let run =
        expand-ok x.tools algo s.temp base (delta_of srv x ch req algo fs nar all s) s.filtered_nar
          fine (rw bytes no_error) (rw bytes output) in
      rw (s.dumped, apply_delta, read, s.temp_named, run, s.nar_collapsed)
        (rw bytes finish_nar-sent)

  read_algo_name-sent :
      read_algo_name x.wire (srv.wire.encode_header (algo_name algo)) ≡ ok (named_algo algo)
  unfolding read_algo_name
  read_algo_name-sent = rw (
    s.same_wire,
    read_algo_name,
    srv.wire.decode_header-encode_header (algo_name algo) (algo_name-IsAscii algo),
    get_algo-algo_name algo,
  )

  read_parts-sent :
      Restores srv.tools x.tools
      → read_parts x req (sent_parts srv x ch req algo fs nar all s) false ≡ ok received
  unfolding read_parts next_part
  read_parts-sent law = rw read_algo_name-sent (apply_delta-sent law)

-- Where upstream serves the two nars, the filters fit, and a delta that is made can be applied, a
-- request to the differ is answered with status 0 and no error, its temporary files are gone, and the
-- substituter makes of the answer, if its media type has a boundary, exactly the requested nar.
pub transfer :
    (srv : Server) (x : Expander) (ch : Chances) (req : DifferRequest) (algo : DiffAlgo)
    (fs : Files) (nar boundary : Bytes) (media : MediaType)
    → AllGranted ch
    → Setting srv x req algo fs nar
    → Restores srv.tools x.tools
    → get_boundary media ≡ some boundary
    → (answer : Answer) × (differ srv ch (codes "POST") (some req) fs ≡ (some answer, fs))
      × (answer.status ≡ 0)
      × (answer.has_error ≡ false)
      × (served : Served) × (get_nar_common x req (answered 200 media answer.parts false)
          ≡ ok served)
      × (served.body ≡ nar)
unfolding get_nar_common
transfer srv x ch req algo fs nar boundary media all s law bounded = (
  sent srv x ch req algo fs nar all s,
  differ-granted srv x ch req algo fs nar all s,
  refl,
  refl,
  received srv x ch req algo fs nar all s,
  rw (bounded, get_nar_common) (read_parts-sent srv x ch req algo fs nar all s law),
  refl,
)
