-- ===== src/NarExpander/Pipeline/ToSend.antt =====
-- The reading side of narexpander.go sends the sequence of entries that the filters are modelled by.
use nix_sandwich.Prelude.{
  Option-cases, codes, bytes_eq, has_suffix, ℕ, ◌≡◌, refl, ◌∙◌, ap, Bool-cases, inl, inr, Option,
  none, some, List, [], ◌∷◌, if◌then◌else◌,
}
use nix_sandwich.External.NarTools.{
  Meta, EntryType, type_directory, type_symlink, type_regular, NarFile, NarTools,
}
use nix_sandwich.NarExpander.Entries.{
  ExpandError, Trace, closed, failure, crash, send, ◌then◌, write_ents,
}
use nix_sandwich.NarExpander.Expand.{data_suffix, expand_entry, read_and_expand, expand_nar}
use nix_sandwich.NarExpander.Collapse.{
  recompress, by_algo, recompress_xz, recompress_gz, is_meta, keep_entry, missing_data,
  read_and_collapse, collapse_nar,
}
use nix_sandwich.NarExpander.Actions.{
  Filter, expanding, collapsing, actions, nar_of, recompressing, data_actions, missing_actions,
  kept_actions, collapse_actions, Action, acquire, put, put_error, die, sends, holding, smaller,
  expand_actions,
}

-- What is still to come, as a sequence.
abbrev pub to_send : List Action → Trace
to_send [] = closed
to_send (acquire n ∷ acts) = to_send acts
to_send (put x k ∷ acts) = send x (to_send acts)
to_send (put_error e ∷ acts) = failure e
to_send (die ∷ acts) = crash

to_send-sends :
    (k : ℕ) (t : Trace) (rest : List Action) → to_send (sends k t rest) ≡ t then to_send rest
unfolding ◌then◌
to_send-sends k closed rest = refl
to_send-sends k (failure e) rest = refl
to_send-sends k crash rest = refl
to_send-sends k (send x t) rest = ap (λ u. send x u) (to_send-sends k t rest)

to_send-holding :
    (capacity size : ℕ) (ty : EntryType) (t : Trace) (rest : List Action)
    → to_send (holding capacity size ty t rest) ≡ t then to_send rest
to_send-holding capacity size type_directory t rest = to_send-sends 0 t rest
to_send-holding capacity size type_symlink t rest = to_send-sends 0 t rest
to_send-holding capacity size type_regular t rest = to_send-sends (smaller capacity size) t rest

to_send-expand_actions :
    (capacity : ℕ) (tools : NarTools) (fs : List NarFile) (ending : Option ExpandError)
    → to_send (expand_actions capacity tools fs ending) ≡ read_and_expand tools fs ending
unfolding expand_actions read_and_expand
to_send-expand_actions capacity tools [] none = refl
to_send-expand_actions capacity tools [] (some e) = refl
to_send-expand_actions capacity tools (f ∷ fs) ending =
    to_send-holding capacity f.header.size f.header.entry_type (expand_entry tools f)
      (expand_actions capacity tools fs ending)
    ∙ ap (λ t. expand_entry tools f then t) (to_send-expand_actions capacity tools fs ending)

to_send-recompressing :
    (k : ℕ) (t : Trace) (rest : List Action)
    → to_send (recompressing k t rest) ≡ t then to_send rest
to_send-recompressing k t rest = to_send-sends k t rest

to_send-data_actions :
    (capacity : ℕ) (tools : NarTools) (f : NarFile) (meta : Meta) (rest : List Action)
    → to_send (data_actions capacity tools f meta rest) ≡ recompress tools f meta then to_send rest
unfolding data_actions recompress by_algo ◌then◌
to_send-data_actions capacity tools f meta rest =
    elim (Bool-cases (has_suffix f.header.path data_suffix)) [
      | inr other ↦ rw other
      | inl suffix ↦ elim (Bool-cases (bytes_eq meta.algo (codes "xz"))) [
        | inl x ↦ rw (suffix, x) (to_send-recompressing _ (recompress_xz tools f meta) rest)
        | inr no_x ↦ elim (Bool-cases (bytes_eq meta.algo (codes "gz"))) [
          | inl g ↦ rw (suffix, no_x, g) (to_send-recompressing _ (recompress_gz tools f meta) rest)
          | inr no_g ↦ rw (suffix, no_x, no_g)
        ]
      ]
    ]

to_send-missing_actions :
    (ending : Option ExpandError) → to_send (missing_actions ending) ≡ missing_data ending
to_send-missing_actions none = refl
to_send-missing_actions (some e) = refl

to_send-kept_actions :
    (capacity : ℕ) (f : NarFile) (rest : List Action)
    → to_send (kept_actions capacity f rest) ≡ keep_entry f then to_send rest
to_send-kept_actions capacity f rest =
    to_send-holding capacity f.header.size f.header.entry_type (keep_entry f) rest

to_send-collapse_actions :
    (capacity : ℕ) (tools : NarTools) (fs : List NarFile) (ending : Option ExpandError)
    → to_send (collapse_actions capacity tools fs ending) ≡ read_and_collapse tools fs ending
unfolding collapse_actions read_and_collapse
to_send-collapse_actions capacity tools [] none = refl
to_send-collapse_actions capacity tools [] (some e) = refl
to_send-collapse_actions capacity tools (f ∷ []) ending = elim (Bool-cases (is_meta f.header)) [
  | inr other ↦ rw other (
      to_send-kept_actions capacity f (collapse_actions capacity tools [] ending)
      ∙ ap (λ t. keep_entry f then t) (to_send-collapse_actions capacity tools [] ending))
  | inl meta_data ↦ elim (Option-cases (tools.decode f.content)) [
    | inl bad ↦ rw (meta_data, bad)
    | inr (meta, good) ↦ rw (meta_data, good) (to_send-missing_actions ending)
  ]
]
to_send-collapse_actions capacity tools (f ∷ g ∷ fs) ending = elim (Bool-cases (is_meta f.header)) [
  | inr other ↦ rw other (
      to_send-kept_actions capacity f (collapse_actions capacity tools (g ∷ fs) ending)
      ∙ ap (λ t. keep_entry f then t) (to_send-collapse_actions capacity tools (g ∷ fs) ending))
  | inl meta_data ↦ elim (Option-cases (tools.decode f.content)) [
    | inl bad ↦ rw (meta_data, bad)
    | inr (meta, good) ↦
        rw (meta_data, good)
          (to_send-data_actions capacity tools g meta (collapse_actions capacity tools fs ending)
            ∙ ap (λ t. recompress tools g meta then t)
                (to_send-collapse_actions capacity tools fs ending))
  ]
]

-- What the sequence of entries comes to is what the filter makes.
pub write_ents-to_send :
    (filter : Filter) (capacity : ℕ) (tools : NarTools) (fs : List NarFile)
    (ending : Option ExpandError)
    → write_ents tools [] (to_send (actions filter capacity tools fs ending))
      ≡ nar_of filter tools fs ending
unfolding expand_nar collapse_nar
write_ents-to_send expanding capacity tools fs ending =
    ap (λ t. write_ents tools [] t) (to_send-expand_actions capacity tools fs ending)
write_ents-to_send collapsing capacity tools fs ending =
    ap (λ t. write_ents tools [] t) (to_send-collapse_actions capacity tools fs ending)
