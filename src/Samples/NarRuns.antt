-- ===== src/Samples/NarRuns.antt =====
-- Runs of narexpander.go and algo.go: a nar with a gzip file, numbers, and an xz file.
use nix_sandwich.Prelude.{
  arith, ℕ, ◌+◌, ◌-◌, ◌≡◌, refl, Bool, true, false, Option, none, some, List, [], ◌∷◌, ◌++◌, Bytes,
  codes, length, take, drop, bytes_lt, bytes_eq, if◌then◌else◌, Outcome, ok, err, panic,
}
use nix_sandwich.External.NarTools.{type_directory, type_regular, Header, NarFile, NarTools}
use nix_sandwich.NarExpander.Varint.{read_varint}
use nix_sandwich.NarExpander.Varint.RoundTrip.{encode_xz, read_varint-encode}
use nix_sandwich.NarExpander.Expand.{expand_nar, gz_magic, gz_meta, meta_suffix, data_suffix}
use nix_sandwich.NarExpander.Expand.Order.{expanded_names_ascend}
use nix_sandwich.NarExpander.Collapse.{collapse_nar}
use nix_sandwich.NarExpander.Restored.{
  meta_file, data_file, good, Expansion, bare, other, gz, Expansions, nothing, entry,
}
use nix_sandwich.NarExpander.Filter.{NarCodec, expand_bytes, collapse_bytes}
use nix_sandwich.NarExpander.Restored.RoundTrip.{collapse_nar-expand_nar}
use nix_sandwich.Algo.Atoi.{pos}
use nix_sandwich.Algo.Pick.{
  DiffAlgo, xd3_algo, zst_algo, pick_algo, print_algo, set_level, pick_algo-print_algo,
}

-- gzip that stores: the header, the bytes, a checksum of zeros, and the length.
abbrev store_gz : Bytes → Bytes
store_gz plain = gz_magic ++ plain ++ 0 ∷ 0 ∷ 0 ∷ 0 ∷ length plain ∷ 0 ∷ 0 ∷ 0 ∷ []

abbrev load_gz : Bytes → Bytes
load_gz packed = take (length packed - 18) (drop 10 packed)

abbrev later_than : Header → List Header → Bool
later_than h [] = true
later_than h (b ∷ before) = elim (bytes_lt b.path h.path) [
  | true ↦ later_than h before
  | false ↦ false
]

abbrev pub storing_tools : NarTools
storing_tools = record {
  xz_decompress = λ b. none;
  xz_compress = λ o b. none;
  gz_decompress = λ b. good (load_gz b);
  gz_compress = λ b. good (store_gz b);
  marshal = λ m. m.compressed_size ∷ m.algo;
  decode = λ b. elim b [
    | [] ↦ none
    | size ∷ algo ↦ some (record { algo = algo; options = []; compressed_size = size })
  ];
  header_ok = λ before h. later_than h before;
  close_ok = λ before. true;
}

abbrev root_dir : NarFile
root_dir = record {
  header = record {
    path = codes "/";
    entry_type = type_directory;
    link_target = [];
    size = 0;
    executable = false;
  };
  content = [];
}

abbrev file_at : Bytes → Bytes → NarFile
file_at path content = record {
  header = record {
    path = path;
    entry_type = type_regular;
    link_target = [];
    size = length content;
    executable = false;
  };
  content = content;
}

abbrev man_page : NarFile
man_page = file_at (codes "/m.gz") (store_gz (codes "man"))

abbrev pub program : NarFile
program = file_at (codes "/n") (codes "run")

abbrev small_nar : List NarFile
small_nar = root_dir ∷ man_page ∷ program ∷ []

abbrev expanded_nar : List NarFile
expanded_nar =
    root_dir
    ∷ meta_file storing_tools man_page.header (gz_meta 21)
    ∷ data_file man_page.header (codes "man")
    ∷ program
    ∷ []

man_page-Expansion : Expansion storing_tools man_page (
    meta_file storing_tools man_page.header (gz_meta 21)
    ∷ data_file man_page.header (codes "man")
    ∷ [])
unfolding nix_sandwich.NarExpander.Expand.is_plain_gz nix_sandwich.NarExpander.Expand.gz_size
    nix_sandwich.NarExpander.Xz.le_uint32
man_page-Expansion = gz man_page (codes "man") (refl, refl, refl) refl refl refl refl refl refl refl

small_nar-Expansions : Expansions storing_tools small_nar expanded_nar
small_nar-Expansions = entry root_dir (root_dir ∷ []) _ _ (bare root_dir refl refl) (
    entry man_page _ (program ∷ []) (program ∷ []) man_page-Expansion
      (entry program (program ∷ []) [] [] (other program (refl, refl, refl) refl refl) nothing))

collapse_nar-expand_nar_example :
    (expand_nar storing_tools small_nar none ≡ ok expanded_nar)
    × (collapse_nar storing_tools expanded_nar none ≡ ok small_nar)
collapse_nar-expand_nar_example =
    collapse_nar-expand_nar storing_tools small_nar expanded_nar small_nar-Expansions refl refl

small_nar_expanded : expand_nar storing_tools small_nar none ≡ ok expanded_nar
unfolding expand_nar nix_sandwich.NarExpander.Entries.write_ents
    nix_sandwich.NarExpander.Entries.◌then◌ nix_sandwich.NarExpander.Expand.gz_size
    nix_sandwich.NarExpander.Xz.le_uint32
small_nar_expanded = refl

expanded_names_ascend_example :
    (bytes_lt (codes "/m.gz" ++ meta_suffix) (codes "/m.gz" ++ data_suffix) ≡ true)
    × (bytes_lt (codes "/m.gz" ++ data_suffix) (codes "/m.gz2") ≡ true)
expanded_names_ascend_example =
    expanded_names_ascend (codes "/m.gz") (codes "/m.gz2") (omega arith) refl

read_varint-encode_example :
    read_varint (encode_xz 300 ++ 7 ∷ []) ≡ some (300, length (encode_xz 300))
read_varint-encode_example = read_varint-encode 300 (7 ∷ []) (omega arith)

three_hundred : read_varint (0xac ∷ 2 ∷ 7 ∷ []) ≡ some (300, 2)
unfolding read_varint
three_hundred = refl

pick_algo-print_algo_example :
    pick_algo (codes "brotli" ∷ codes "zstd-3" ∷ codes "xdelta-1" ∷ []) ≡ some (zst_algo (pos 3))
unfolding nix_sandwich.Algo.Pick.read_algo nix_sandwich.Algo.Pick.algo_name
    nix_sandwich.Prelude.Decimal.itoa
pick_algo-print_algo_example =
    pick_algo-print_algo (codes "brotli" ∷ []) (codes "xdelta-1" ∷ []) (zst_algo (pos 9)) 3
      (refl, tt) (omega arith)

-- A writer that keeps the number of entries, and a reader that knows the two nars.
abbrev counting_codec : NarCodec
counting_codec = record {
  parse = λ bytes. if bytes_eq bytes (3 ∷ []) then (small_nar, none) else (expanded_nar, none);
  print = λ fs. length fs ∷ [];
}

small_bytes_expanded : expand_bytes storing_tools counting_codec (3 ∷ []) ≡ ok (4 ∷ [])
unfolding expand_bytes expand_nar nix_sandwich.NarExpander.Entries.write_ents
    nix_sandwich.NarExpander.Entries.◌then◌ nix_sandwich.NarExpander.Expand.gz_size
    nix_sandwich.NarExpander.Xz.le_uint32
small_bytes_expanded = refl

expanded_bytes_collapsed : collapse_bytes storing_tools counting_codec (4 ∷ []) ≡ ok (3 ∷ [])
unfolding collapse_bytes collapse_nar nix_sandwich.NarExpander.Entries.write_ents
    nix_sandwich.NarExpander.Entries.◌then◌ nix_sandwich.NarExpander.Expand.read_full_from_nar
    nix_sandwich.NarExpander.Expand.pass_through
expanded_bytes_collapsed = refl
