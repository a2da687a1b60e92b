-- ===== src/NarExpander/Pipeline/Fitting.antt =====
-- What the reading side of narexpander.go waits for fits what it holds.
use nix_sandwich.Prelude.{
  Option-cases, bytes_eq, codes, has_suffix, Bool-cases, ℕ, ◌≡◌, ◌≤◌, refl, arith, false, ◌⊎◌, inl,
  inr, Option, none, some, List, [], ◌∷◌,
}
use nix_sandwich.External.NarTools.{
  Meta, EntryType, type_directory, type_symlink, type_regular, NarFile, NarTools,
}
use nix_sandwich.NarExpander.Entries.{ExpandError, Trace, closed, failure, crash, send}
use nix_sandwich.NarExpander.Expand.{data_suffix, expand_entry}
use nix_sandwich.NarExpander.Pipeline.Sent.{
  is_closed-expand_entry, is_closed-keep_entry, is_closed-recompress_xz, is_closed-recompress_gz,
}
use nix_sandwich.NarExpander.Collapse.{recompress_xz, recompress_gz, keep_entry, is_meta}
use nix_sandwich.NarExpander.Actions.{
  Filter, expanding, collapsing, actions, recompressing, data_actions, missing_actions,
  kept_actions, collapse_actions, Action, acquire, put, put_error, die, sends, is_closed, holding,
  smaller, expand_actions,
}

-- What the reading side does next fits what it holds: it waits for no more than all, and only while it
-- holds nothing, and an entry releases nothing or all that is held.
abbrev pub Fits : ℕ → ℕ → List Action → Type 0
Fits capacity held [] = Unit
Fits capacity held (acquire n ∷ acts) = (held ≡ 0) × (n ≤ capacity) × Fits capacity n acts
Fits capacity held (put x k ∷ acts) =
    ((k ≡ 0) × Fits capacity held acts) ⊎ ((k ≡ held) × Fits capacity 0 acts)
Fits capacity held (put_error e ∷ acts) = acts ≡ []
Fits capacity held (die ∷ acts) = acts ≡ []

Fits-sends :
    (capacity k : ℕ) (t : Trace) (rest : List Action)
    → Fits capacity 0 rest
    → is_closed t ≡ false
    → Fits capacity k (sends k t rest)
Fits-sends capacity k closed rest h c = cc
Fits-sends capacity k (failure e) rest h c = refl
Fits-sends capacity k crash rest h c = refl
Fits-sends capacity k (send x closed) rest h c = inr (refl, h)
Fits-sends capacity k (send x (failure e)) rest h c = inl (refl, refl)
Fits-sends capacity k (send x crash) rest h c = inl (refl, refl)
Fits-sends capacity k (send x (send y t)) rest h c =
    inl (refl, Fits-sends capacity k (send y t) rest h refl)

smaller-le : (a b : ℕ) → smaller a b ≤ a
smaller-le a b = ground arith

Fits-holding :
    (capacity size : ℕ) (ty : EntryType) (t : Trace) (rest : List Action)
    → Fits capacity 0 rest
    → is_closed t ≡ false
    → Fits capacity 0 (holding capacity size ty t rest)
Fits-holding capacity size type_directory t rest h c = Fits-sends capacity 0 t rest h c
Fits-holding capacity size type_symlink t rest h c = Fits-sends capacity 0 t rest h c
Fits-holding capacity size type_regular t rest h c =
    (refl, smaller-le capacity size, Fits-sends capacity (smaller capacity size) t rest h c)

pub expand_actions-Fits :
    (capacity : ℕ) (tools : NarTools) (fs : List NarFile) (ending : Option ExpandError)
    → Fits capacity 0 (expand_actions capacity tools fs ending)
unfolding expand_actions
expand_actions-Fits capacity tools [] none = tt
expand_actions-Fits capacity tools [] (some e) = refl
expand_actions-Fits capacity tools (f ∷ fs) ending =
    Fits-holding capacity f.header.size f.header.entry_type (expand_entry tools f) _
      (expand_actions-Fits capacity tools fs ending) (is_closed-expand_entry tools f)

Fits-recompressing :
    (capacity size : ℕ) (t : Trace) (rest : List Action)
    → Fits capacity 0 rest
    → is_closed t ≡ false
    → Fits capacity 0 (recompressing (smaller capacity size) t rest)
Fits-recompressing capacity size t rest h c =
    (refl, smaller-le capacity size, Fits-sends capacity (smaller capacity size) t rest h c)

Fits-kept_actions :
    (capacity : ℕ) (f : NarFile) (rest : List Action)
    → Fits capacity 0 rest
    → Fits capacity 0 (kept_actions capacity f rest)
Fits-kept_actions capacity f rest h =
    Fits-holding capacity f.header.size f.header.entry_type (keep_entry f) rest h
      (is_closed-keep_entry f)

data_actions-Fits :
    (capacity : ℕ) (tools : NarTools) (f : NarFile) (meta : Meta) (rest : List Action)
    → Fits capacity 0 rest
    → Fits capacity 0 (data_actions capacity tools f meta rest)
unfolding data_actions
data_actions-Fits capacity tools f meta rest h =
    elim (Bool-cases (has_suffix f.header.path data_suffix)) [
      | inr other ↦ rw other refl
      | inl suffix ↦ elim (Bool-cases (bytes_eq meta.algo (codes "xz"))) [
        | inl x ↦
            rw (suffix, x)
              (Fits-recompressing capacity _ (recompress_xz tools f meta) rest h
                (is_closed-recompress_xz tools f meta))
        | inr no_x ↦ elim (Bool-cases (bytes_eq meta.algo (codes "gz"))) [
          | inl g ↦
              rw (suffix, no_x, g)
                (Fits-recompressing capacity _ (recompress_gz tools f meta) rest h
                  (is_closed-recompress_gz tools f meta))
          | inr no_g ↦ rw (suffix, no_x, no_g) refl
        ]
      ]
    ]

missing_actions-Fits :
    (capacity : ℕ) (ending : Option ExpandError) → Fits capacity 0 (missing_actions ending)
missing_actions-Fits capacity none = refl
missing_actions-Fits capacity (some e) = refl

collapse_actions-Fits :
    (capacity : ℕ) (tools : NarTools) (fs : List NarFile) (ending : Option ExpandError)
    → Fits capacity 0 (collapse_actions capacity tools fs ending)
unfolding collapse_actions
collapse_actions-Fits capacity tools [] none = tt
collapse_actions-Fits capacity tools [] (some e) = refl
collapse_actions-Fits capacity tools (f ∷ []) ending = elim (Bool-cases (is_meta f.header)) [
  | inr other ↦
      rw other (Fits-kept_actions capacity f _ (collapse_actions-Fits capacity tools [] ending))
  | inl meta_data ↦ elim (Option-cases (tools.decode f.content)) [
    | inl bad ↦ rw (meta_data, bad) refl
    | inr (meta, good) ↦ rw (meta_data, good) (missing_actions-Fits capacity ending)
  ]
]
collapse_actions-Fits capacity tools (f ∷ g ∷ fs) ending = elim (Bool-cases (is_meta f.header)) [
  | inr other ↦
      rw other
        (Fits-kept_actions capacity f _ (collapse_actions-Fits capacity tools (g ∷ fs) ending))
  | inl meta_data ↦ elim (Option-cases (tools.decode f.content)) [
    | inl bad ↦ rw (meta_data, bad) refl
    | inr (meta, good) ↦
        rw (meta_data, good)
          (data_actions-Fits capacity tools g meta _
            (collapse_actions-Fits capacity tools fs ending))
  ]
]

pub actions-Fits :
    (filter : Filter) (capacity : ℕ) (tools : NarTools) (fs : List NarFile)
    (ending : Option ExpandError)
    → Fits capacity 0 (actions filter capacity tools fs ending)
actions-Fits expanding capacity tools fs ending = expand_actions-Fits capacity tools fs ending
actions-Fits collapsing capacity tools fs ending = collapse_actions-Fits capacity tools fs ending
