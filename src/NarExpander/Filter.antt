-- ===== src/NarExpander/Filter.antt =====
-- `ExpandNar` and `CollapseNar` as filters of bytes, for a reader and a writer of nars.
use nix_sandwich.Prelude.{Option, List, Bytes, Outcome, ok, err, panic}
use nix_sandwich.External.NarTools.{NarFile, NarTools}
use nix_sandwich.NarExpander.Entries.{ExpandError}
use nix_sandwich.NarExpander.Expand.{expand_nar}
use nix_sandwich.NarExpander.Collapse.{collapse_nar}

-- The entries that `Next` gives and the error they end in, if any; and the bytes that are written.
pub record NarCodec : Type 0 where
  pub parse : Bytes → List NarFile × Option ExpandError
  pub print : List NarFile → Bytes

-- A reader that fails gives an error at its end.
abbrev pub printed : NarCodec → Outcome ExpandError (List NarFile) → Outcome (Unit {0}) Bytes
printed codec (ok fs) = ok (codec.print fs)
printed codec (err e) = err tt
printed codec panic = panic

abbrev pub expand_parsed :
    NarTools → NarCodec → List NarFile × Option ExpandError → Outcome (Unit {0}) Bytes
expand_parsed tools codec (fs, ending) = printed codec (expand_nar tools fs ending)

abbrev pub collapse_parsed :
    NarTools → NarCodec → List NarFile × Option ExpandError → Outcome (Unit {0}) Bytes
collapse_parsed tools codec (fs, ending) = printed codec (collapse_nar tools fs ending)

-- `ex` and `cl` of `getNarFilter`.
unfoldable pub expand_bytes : NarTools → NarCodec → Bytes → Outcome (Unit {0}) Bytes
expand_bytes tools codec bytes = expand_parsed tools codec (codec.parse bytes)

unfoldable pub collapse_bytes : NarTools → NarCodec → Bytes → Outcome (Unit {0}) Bytes
collapse_bytes tools codec bytes = collapse_parsed tools codec (codec.parse bytes)
