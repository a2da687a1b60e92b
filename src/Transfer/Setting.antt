-- ===== src/Transfer/Setting.antt =====
-- The circumstances in which a nar is transferred: what upstream serves, what the tools and filters do.
use nix_sandwich.Prelude.{
  ◌≡◌, true, false, Option, none, some, ◌∷◌, ◌++◌, Bytes, codes, slice_from, ok,
}
use nix_sandwich.Prelude.Paths.{path_base, path_ext}
use nix_sandwich.External.NarInfo.{NarInfo}
use nix_sandwich.External.NarTools.{Output}
use nix_sandwich.External.System.{Files, read_file, DeltaTools}
use nix_sandwich.External.Web.{replied}
use nix_sandwich.Algo.Pick.{DiffAlgo, pick_algo}
use nix_sandwich.Algo.Delta.{create_args, create_error, expand_args, expand_error}
use nix_sandwich.Subst.Types.{DifferRequest}
use nix_sandwich.Subst.Nars.{Expander, collapsed}
use nix_sandwich.Differ.Download.{Decompressor, Downloads, decompressor, filtered}
use nix_sandwich.Differ.Server.{Chances, Server, get_nar_filter, filter_of, upstream_of, hash_of}

abbrev pub good : Bytes → Option Output
good bytes = some (record { written = bytes; failed = false })

-- Upstream has a nar under a path, compressed in a known way.
pub record Serves (d : Downloads) (upstream nar_path nar : Bytes) : Type 0 where
  pub body : Bytes
  pub program : Decompressor
  pub replies : d.web.get upstream (b'/' ∷ nar_path) ≡ replied 200 body
  pub known : decompressor (path_ext (path_base nar_path)) ≡ some program
  pub plain : d.decompress program body ≡ good nar

-- Upstream has a narinfo for a hash that leads to a nar.
pub record ServesInfo (d : Downloads) (upstream hash nar : Bytes) : Type 0 where
  pub body : Bytes
  pub info : NarInfo
  pub name : Bytes
  pub replies : d.web.get upstream (b'/' ∷ (hash ++ codes ".narinfo")) ≡ replied 200 body
  pub parsed : d.web.parse_info body ≡ some info
  pub sliced : slice_from 44 info.store_path ≡ some name
  pub serves : Serves d upstream info.url nar

-- A delta that was made without an error is applied without an error, and restores the request.
abbrev pub Restores : DeltaTools → DeltaTools → Type 0
Restores encoder decoder =
    (algo : DiffAlgo) (fs : Files) (base request temp base_nar nar : Bytes)
    → read_file fs base ≡ some base_nar
    → read_file fs request ≡ some nar
    → create_error (encoder.encode (create_args algo base request) fs) ≡ none
    → let delta = (encoder.encode (create_args algo base request) fs).output in
      (expand_error (decoder.decode (expand_args algo temp) base_nar delta) false ≡ none)
      × ((decoder.decode (expand_args algo temp) base_nar delta).output ≡ nar)

-- All semaphores and writes go through.
pub record AllGranted (ch : Chances) : Type 0 where
  pub disk : ch.disk ≡ true
  pub req_slot : ch.req_slot ≡ true
  pub base_slot : ch.base_slot ≡ true
  pub delta_slot : ch.delta_slot ≡ true
  pub header_written : ch.header_written ≡ true
  pub trailer_written : ch.trailer_written ≡ true
  pub end_written : ch.end_written ≡ true

-- A request whose nars upstream has, with the base in the local store, filters that fit one another,
-- new names for the temporary files, and an algorithm that makes the delta.
pub record Setting (srv : Server) (x : Expander) (req : DifferRequest) (algo : DiffAlgo)
    (fs : Files) (nar : Bytes) : Type 0 where
  pub base_nar : Bytes
  pub filtered_base : Bytes
  pub filtered_nar : Bytes
  pub req_file : Bytes
  pub base_file : Bytes
  pub temp : Bytes
  pub picked : pick_algo req.accept_algos ≡ some algo
  pub serves : Serves srv.downloads (upstream_of srv req) req.req_nar_path nar
  pub serves_base :
      ServesInfo srv.downloads (upstream_of srv req) (hash_of req.base_store_path) base_nar
  pub dumped : x.dump req.base_store_path ≡ good base_nar
  pub req_named : srv.downloads.temps.temp_name fs ≡ some req_file
  pub base_named : srv.downloads.temps.temp_name ((req_file, filtered_nar) ∷ fs) ≡ some base_file
  pub temp_named : x.base_temp ≡ some temp
  pub nar_filtered : filtered (filter_of srv req) nar ≡ ok filtered_nar
  pub base_filtered : filtered (filter_of srv req) base_nar ≡ ok filtered_base
  pub dump_filtered :
      filtered (get_nar_filter x.expand_filter x.collapse_filter req).0 base_nar ≡ ok filtered_base
  pub nar_collapsed :
      collapsed (get_nar_filter x.expand_filter x.collapse_filter req).1 filtered_nar ≡ ok nar
  pub same_wire : x.wire ≡ srv.wire
  pub created :
      create_error (
        srv.tools.encode
          (create_args algo base_file req_file)
          ((base_file, filtered_base) ∷ (req_file, filtered_nar) ∷ fs))
      ≡ none
