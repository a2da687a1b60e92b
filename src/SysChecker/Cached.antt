-- ===== src/SysChecker/Cached.antt =====
-- `getCached` and `getSysFromPathDeps`. The cache is passed along; `none` is a panic, of a store
-- name too short to be sliced. One call is modelled at a time: `singleflight` only joins calls that
-- overlap. `make_presence` answers none where the source's returns a nil function.
pub mod Laws
pub mod Transparent
use nix_sandwich.Prelude.{
  ℕ, Bool, Option, none, some, List, [], ◌∷◌, Bytes, codes, slice_from, slice_to, if◌then◌else◌,
}
use nix_sandwich.Prelude.Maybe.{◌>>=◌}
use nix_sandwich.External.Lru.{Lru}
use nix_sandwich.Catalog.Patterns.{Pattern, lit, plus, is_version, is_dotted, match_any}
use nix_sandwich.SysChecker.Systems.{PresenceFunc, sys_unknown, system_from_libc, system_from_grub}

abbrev pub libc_re : List Pattern
libc_re =
    (lit (codes "glibc-") ∷ plus is_version ∷ []) ∷ (lit (codes "musl-") ∷ plus is_dotted ∷ []) ∷ []

abbrev pub grub_re : List Pattern
grub_re = (lit (codes "grub-") ∷ plus is_version ∷ []) ∷ []

module _ (lru : Lru ℕ) where
  open lru use {Cache, get, touch, add}

  -- A value that is not cached is computed and stored.
  unfoldable pub get_cached : Cache → Bytes → ℕ → ℕ × Cache
  get_cached c store_hash v = elim (get c store_hash) [
    | none ↦ (v, add c store_hash v)
    | some w ↦ (w, touch c store_hash)
  ]

  -- `getCached(name[:32], f)`
  unfoldable pub cached_at : Cache → Bytes → ℕ → Option (ℕ × Cache)
  unfolding get_cached
  cached_at c name v = do store_hash ← slice_to 32 name; some (get_cached c store_hash v)

  -- The loop over the dependencies: the first libc among them decides.
  unfoldable pub deps_system :
      Cache → List Bytes → ℕ → (Bytes → Option PresenceFunc) → Option (ℕ × Cache)
  unfolding cached_at
  deps_system c [] prefix make_presence = some (sys_unknown, c)
  deps_system c (d ∷ deps) prefix make_presence = do
    dep ← slice_from prefix d
    name ← slice_from 33 dep
    let rest = deps_system c deps prefix make_presence
    if match_any libc_re name then cached_at c dep (system_from_libc (make_presence dep)) else rest

  unfoldable pub get_sys_from_path_deps :
      Cache → Bytes → List Bytes → ℕ → (Bytes → Option PresenceFunc) → Option (ℕ × Cache)
  unfolding deps_system cached_at
  get_sys_from_path_deps c store_path deps prefix make_presence = do
    store_name ← slice_from prefix store_path
    name ← slice_from 33 store_name
    if match_any grub_re name
        then cached_at c store_name (system_from_grub (make_presence store_name))
        else deps_system c deps prefix make_presence
