-- ===== src/External/NarTools.antt =====
-- What narexpander.go uses of other code: the entries that go-nix's `nar` reads and writes, the runs
-- of xz and gzip, and the JSON of `narExpanderMeta`.
use nix_sandwich.Prelude.{ℕ, Bool, Option, List, Bytes}

pub data EntryType : Type 0 where
  type_directory type_symlink type_regular : EntryType

-- `nar.Header`. A size is not negative.
pub record Header : Type 0 where
  pub path : Bytes
  pub entry_type : EntryType
  pub link_target : Bytes
  pub size : ℕ
  pub executable : Bool

-- An entry with its content, which is empty for directories and links.
pub record NarFile : Type 0 where
  pub header : Header
  pub content : Bytes

-- `narExpanderMeta`
pub record Meta : Type 0 where
  pub algo : Bytes
  pub options : List Bytes
  pub compressed_size : ℕ

-- What a process writes, and whether it exits with an error.
pub record Output : Type 0 where
  pub written : Bytes
  pub failed : Bool

-- The runs answer none where the process does not start. `header_ok` tells whether the writer of a
-- nar takes a header after the ones before it, and `close_ok` whether the nar may end with them.
-- `decode` answers none for what is no JSON of the type.
pub record NarTools : Type 0 where
  pub xz_decompress : Bytes → Option Output
  pub xz_compress : List Bytes → Bytes → Option Output
  pub gz_decompress : Bytes → Option Output
  pub gz_compress : Bytes → Option Output
  pub marshal : Meta → Bytes
  pub decode : Bytes → Option Meta
  pub header_ok : List Header → Header → Bool
  pub close_ok : List Header → Bool
