-- ===== src/Prelude/Paths.antt =====
-- `path.Split`, `path.Base` and `path.Ext`.
use Prim.Native.Nat.{ℕ}
use mathlib.Core.Path.{◌≡◌, refl}
use mathlib.Core.Logic.{◌≢◌, inl, inr}
use mathlib.Core.Bool.{Bool, true, false, ◌&&◌, ◌||◌}
use mathlib.Core.List.{[], ◌∷◌, ◌++◌}
use native.Mathlib.Omega.{arith}
use nix_sandwich.Prelude.Tests.{◌==◌, if◌then◌else◌, Bool-cases}
use nix_sandwich.Prelude.Lists.{All}
use nix_sandwich.Prelude.Text.{Bytes, has_prefix}

abbrev pub split_step : ℕ → Bytes × Bytes → Bytes × Bytes
split_step c ([], file) = if c == b'/' then (c ∷ [], file) else ([], c ∷ file)
split_step c (d ∷ ds, file) = (c ∷ d ∷ ds, file)

-- What goes up to the last slash of a text, with it, and what follows.
unfoldable pub path_split : Bytes → Bytes × Bytes
path_split [] = ([], [])
path_split (c ∷ s) = split_step c (path_split s)

abbrev pub trim_step : ℕ → Bytes → Bytes
trim_step c [] = if c == b'/' then [] else c ∷ []
trim_step c (d ∷ ds) = c ∷ d ∷ ds

-- Without the slashes at the end.
unfoldable pub trim_slashes : Bytes → Bytes
trim_slashes [] = []
trim_slashes (c ∷ s) = trim_step c (trim_slashes s)

abbrev pub base_of : Bytes → Bytes
base_of [] = b'/' ∷ []
base_of (c ∷ s) = (path_split (c ∷ s)).1

unfoldable pub path_base : Bytes → Bytes
unfolding path_split trim_slashes
path_base [] = b'.' ∷ []
path_base (c ∷ s) = base_of (trim_slashes (c ∷ s))

abbrev pub has_slash : Bytes → Bool
has_slash [] = false
has_slash (c ∷ s) = c == b'/' || has_slash s

abbrev pub ext_step : ℕ → Bytes → Bytes → Bytes
ext_step c s [] = if c == b'.' then (if has_slash s then [] else c ∷ s) else []
ext_step c s (d ∷ ds) = d ∷ ds

-- From the last dot on, if it stands behind the last slash.
unfoldable pub path_ext : Bytes → Bytes
path_ext [] = []
path_ext (c ∷ s) = ext_step c s (path_ext s)

-- A text without a slash.
abbrev pub IsPlain : Bytes → Type 0
IsPlain = All (λ c. c ≢ b'/')

not_slash : (c : ℕ) → c ≢ b'/' → c == b'/' ≡ false
not_slash c h = ground arith

pub path_split-plain : (s : Bytes) → IsPlain s → path_split s ≡ ([], s)
unfolding path_split
path_split-plain [] h = refl
path_split-plain (c ∷ s) (h, hs) = rw (path_split-plain s hs, not_slash c h)

trim_slashes-plain : (s : Bytes) → IsPlain s → trim_slashes s ≡ s
unfolding trim_slashes
trim_slashes-plain [] h = refl
trim_slashes-plain (c ∷ []) (h, _) = rw (not_slash c h)
trim_slashes-plain (c ∷ d ∷ s) (h, hs) = rw (trim_slashes-plain (d ∷ s) hs)

-- A text that ends in a plain part ends in no slash.
pub trim_slashes-append :
    (p : Bytes) (c : ℕ) (s : Bytes) → IsPlain (c ∷ s) → trim_slashes (p ++ (c ∷ s)) ≡ p ++ (c ∷ s)
unfolding trim_slashes
trim_slashes-append [] c s h = trim_slashes-plain (c ∷ s) h
trim_slashes-append (a ∷ []) c s h = rw (trim_slashes-append [] c s h)
trim_slashes-append (a ∷ b ∷ p) c s h = rw (trim_slashes-append (b ∷ p) c s h)

pub has_slash-IsPlain : (s : Bytes) → has_slash s ≡ false → IsPlain s
has_slash-IsPlain [] h = tt
has_slash-IsPlain (c ∷ s) h = elim (Bool-cases (c == b'/')) [
  | inl here ↦ cc (rw here at h)
  | inr there ↦ (λ e. ground (arith, e), has_slash-IsPlain s (rw there at h))
]

and_false : (b : Bool) → (b && false) ≡ false
and_false true = refl
and_false false = refl

-- A text without a slash has no prefix with one.
pub has_prefix-plain : (s p : Bytes) → IsPlain s → has_slash p ≡ true → has_prefix s p ≡ false
has_prefix-plain s [] h slash = cc
has_prefix-plain [] (d ∷ p) h slash = refl
has_prefix-plain (c ∷ s) (d ∷ p) (h, hs) slash = elim (Bool-cases (d == b'/')) [
  | inl here ↦ ground (arith, h)
  | inr there ↦ rw (has_prefix-plain s p hs (rw there at slash)) (and_false (c == d))
]
