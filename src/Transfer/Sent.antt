-- ===== src/Transfer/Sent.antt =====
-- The differ's part of a transfer: the parts that it sends.
use nix_sandwich.Prelude.{◌≡◌, ◌∙◌, ap, true, false, Option, some, List, [], ◌∷◌, Bytes, codes, ok}
use nix_sandwich.External.System.{Files, remove_file-head, write_file-head}
use nix_sandwich.Algo.Pick.{DiffAlgo, algo_name}
use nix_sandwich.Algo.Stats.{DiffStats, stats_string}
use nix_sandwich.Algo.Delta.{create_args, create, stats_of, file_size}
use nix_sandwich.Subst.Types.{DifferRequest}
use nix_sandwich.Subst.Nars.{Expander}
use nix_sandwich.Differ.Download.{
  ReaderFilter, Downloads, filtered, finish_download, fill_file, remove_on_error, download_nar,
  download_nar_from_info,
}
use nix_sandwich.Differ.Wire.{Part, differ_header_name, differ_body_name, differ_trailer_name}
use nix_sandwich.Differ.Server.{
  Chances, Server, Answer, part, send_delta, downloaded, filter_of, upstream_of, hash_of, get_req,
  get_base, with_req, with_both, serve_delta, differ, first_error,
}
use nix_sandwich.Transfer.Setting.{Serves, ServesInfo, AllGranted, Setting}

download_nar-Serves :
    (d : Downloads) (filter : Option ReaderFilter) (fs : Files)
    (upstream path nar content name : Bytes)
    → Serves d upstream path nar
    → filtered filter nar ≡ ok content
    → d.temps.temp_name fs ≡ some name
    → download_nar d filter fs upstream path ≡ (ok name, (name, content) ∷ fs)
unfolding download_nar fill_file remove_on_error finish_download
download_nar-Serves d filter fs upstream path nar content name s f t =
    rw (
      s.replies,
      download_nar,
      t,
      s.known,
      fill_file,
      s.plain,
      f,
      write_file-head fs name [] content,
    )

download_nar_from_info-ServesInfo :
    (d : Downloads) (filter : Option ReaderFilter) (fs : Files)
    (upstream hash nar content name : Bytes)
    → ServesInfo d upstream hash nar
    → filtered filter nar ≡ ok content
    → d.temps.temp_name fs ≡ some name
    → download_nar_from_info d filter fs upstream hash ≡ (ok name, (name, content) ∷ fs)
unfolding download_nar_from_info
download_nar_from_info-ServesInfo d filter fs upstream hash nar content name s f t =
    rw (s.replies, download_nar_from_info, s.parsed, s.sliced)
      (download_nar-Serves d filter fs upstream s.info.url nar content name s.serves f t)

module _ (srv : Server) (x : Expander) (ch : Chances) (req : DifferRequest) (algo : DiffAlgo)
    (fs : Files) (nar : Bytes) (all : AllGranted ch) (s : Setting srv x req algo fs nar) where
  -- The files while the delta is made.
  abbrev pub both_files : Files
  both_files = (s.base_file, s.filtered_base) ∷ (s.req_file, s.filtered_nar) ∷ fs

  abbrev pub delta_of : Bytes
  delta_of = (srv.tools.encode (create_args algo s.base_file s.req_file) both_files).output

  -- The statistics that are sent.
  abbrev pub sent_stats : DiffStats
  sent_stats =
      record (stats_of algo both_files s.req_file
        (srv.tools.encode (create_args algo s.base_file s.req_file) both_files)) {
          base_size = file_size both_files s.base_file;
        }

  abbrev pub sent_parts : List Part
  sent_parts =
      part differ_header_name (srv.wire.encode_header (algo_name algo))
      ∷ part differ_body_name delta_of
      ∷ part differ_trailer_name
          (srv.wire.encode_trailer (record { is_ok = true; stats = some sent_stats; error = [] }))
      ∷ []

  abbrev pub sent : Answer
  sent = record {
    status = 0;
    message = stats_string (some sent_stats);
    has_error = false;
    parts = sent_parts;
  }

  get_req-granted : get_req srv ch req fs ≡ (ok s.req_file, (s.req_file, s.filtered_nar) ∷ fs)
  unfolding get_req
  get_req-granted = rw all.req_slot (
      download_nar-Serves srv.downloads (filter_of srv req) fs (upstream_of srv req)
        req.req_nar_path nar s.filtered_nar s.req_file s.serves s.nar_filtered s.req_named)

  get_base-granted :
      get_base srv ch req ((s.req_file, s.filtered_nar) ∷ fs) ≡ (ok s.base_file, both_files)
  unfolding get_base
  get_base-granted = rw all.base_slot (
      download_nar_from_info-ServesInfo srv.downloads (filter_of srv req)
        ((s.req_file, s.filtered_nar) ∷ fs) (upstream_of srv req) (hash_of req.base_store_path)
        s.base_nar s.filtered_base s.base_file s.serves_base s.base_filtered s.base_named)

  create_ok : create srv.tools algo both_files s.base_file s.req_file ≡ (
    delta_of,
    ok (
        stats_of algo both_files s.req_file
          (srv.tools.encode (create_args algo s.base_file s.req_file) both_files)),
  )
  unfolding create
  create_ok = rw (s.created, create)

  send_delta-granted : send_delta srv ch algo both_files s.base_file s.req_file ≡ sent
  unfolding send_delta
  send_delta-granted =
      rw (all.delta_slot, all.header_written, all.trailer_written, all.end_written, create_ok)

  downloaded-granted :
      downloaded srv ch algo both_files (ok s.req_file) (ok s.base_file) ≡ (some sent, fs)
  unfolding downloaded first_error
  downloaded-granted =
      let temps = srv.downloads.temps in
      rw (
        send_delta-granted,
        remove_file-head ((s.req_file, s.filtered_nar) ∷ fs) s.base_file s.filtered_base
            (temps.temp_name_fresh _ _ s.base_named),
        remove_file-head fs s.req_file s.filtered_nar (temps.temp_name_fresh _ _ s.req_named),
      )

  serve_delta-granted : serve_delta srv ch algo req fs ≡ (some sent, fs)
  unfolding serve_delta
  serve_delta-granted =
      ap (with_req srv ch algo req) get_req-granted
      ∙ ap (with_both srv ch algo (ok s.req_file)) get_base-granted
      ∙ downloaded-granted

  -- The differ answers with the three parts, and removes its files.
  pub differ-granted : differ srv ch (codes "POST") (some req) fs ≡ (some sent, fs)
  unfolding differ
  differ-granted = rw (s.picked, differ, all.disk) serve_delta-granted
