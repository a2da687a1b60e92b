-- ===== src/NarExpander/Restored/RoundTrip.antt =====
-- `CollapseNar` undoes `ExpandNar`.
use nix_sandwich.Prelude.{◌≡◌, true, none, List, [], ◌∷◌, ok}
use nix_sandwich.External.NarTools.{NarFile, NarTools}
use nix_sandwich.NarExpander.Expand.{expand_entry, read_and_expand, expand_nar}
use nix_sandwich.NarExpander.Collapse.{read_and_collapse, collapse_nar}
use nix_sandwich.NarExpander.Restored.{
  accepted, Gives, gives_closed, Gives-then, write_ents-Gives, Expansions, nothing, entry,
}
use nix_sandwich.NarExpander.Restored.Kept.{ComesBack}
use nix_sandwich.NarExpander.Restored.Compressed.{Expansion-back}

Expansions-back :
    (tools : NarTools) (fs gs : List NarFile)
    → Expansions tools fs gs
    → Gives (read_and_expand tools fs none) gs × Gives (read_and_collapse tools gs none) fs
unfolding read_and_expand read_and_collapse ComesBack
Expansions-back tools [] [] nothing = (gives_closed, gives_closed)
Expansions-back tools [] (_ ∷ _) h = elim h [ ]
Expansions-back tools (f ∷ fs) _ (entry _ gs _ hs one more) =
    let (sent, back) = Expansion-back tools f gs one in
    let (sent_more, back_more) = Expansions-back tools fs hs more in
    (
      Gives-then (expand_entry tools f) (read_and_expand tools fs none) gs hs sent sent_more,
      back hs fs back_more,
    )

-- A nar that expands to certain entries is expanded to these and collapsed from them to itself, if the
-- writer of nars takes the entries of both.
pub collapse_nar-expand_nar :
    (tools : NarTools) (fs gs : List NarFile)
    → Expansions tools fs gs
    → accepted tools [] fs ≡ true
    → accepted tools [] gs ≡ true
    → (expand_nar tools fs none ≡ ok gs) × (collapse_nar tools gs none ≡ ok fs)
unfolding expand_nar collapse_nar
collapse_nar-expand_nar tools fs gs h before after =
    let (sent, back) = Expansions-back tools fs gs h in
    (
      write_ents-Gives tools (read_and_expand tools fs none) [] gs sent after,
      write_ents-Gives tools (read_and_collapse tools gs none) [] fs back before,
    )
