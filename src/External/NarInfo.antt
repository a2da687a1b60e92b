-- ===== src/External/NarInfo.antt =====
-- `narinfo.NarInfo` of go-nix, as far as the program reads and writes it. Sizes are uint64, and of
-- the signatures only the names are read. `nar_hash` is what `NixString` prints.
use nix_sandwich.Prelude.{ℕ, List, Bytes}

pub record NarInfo : Type 0 where
  pub store_path : Bytes
  pub url : Bytes
  pub compression : Bytes
  pub file_hash : Bytes
  pub file_size : ℕ
  pub nar_hash : Bytes
  pub nar_size : ℕ
  pub references : List Bytes
  pub signatures : List Bytes
