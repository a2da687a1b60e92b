-- ===== src/SysChecker/Cached/Laws.antt =====
-- What the cache of systems does to the answers of `getSysFromPathDeps`.
use nix_sandwich.Prelude.{
  ℕ, ◌≡◌, inl, inr, Option, none, some, List, [], ◌∷◌, arith, Bytes, slice_from, slice_to,
  Bool-cases, Option-cases, ◌∙◌,
}
use nix_sandwich.Prelude.Maybe.{>>=-eq-some}
use nix_sandwich.External.Lru.{Lru}
use nix_sandwich.Catalog.Patterns.{match_any}
use nix_sandwich.SysChecker.Systems.{PresenceFunc, system_from_libc, system_from_grub}
use nix_sandwich.SysChecker.Cached.{
  libc_re, grub_re, get_cached, cached_at, deps_system, get_sys_from_path_deps,
}

module _ (lru : Lru ℕ) where
  open lru use {Cache, get, touch, add, get-touch, get-add_self, get-add_other}

  pub get_cached_hit :
      (c : Cache) (k : Bytes) (v w : ℕ) → get c k ≡ some w → get_cached lru c k v ≡ (w, touch c k)
  unfolding get_cached
  get_cached_hit c k v w e = rw (e, get_cached)

  pub get_cached_miss :
      (c : Cache) (k : Bytes) (v : ℕ) → get c k ≡ none → get_cached lru c k v ≡ (v, add c k v)
  unfolding get_cached
  get_cached_miss c k v e = rw (e, get_cached)

  -- The answer is in the cache afterwards.
  get_cached-get :
      (c : Cache) (k : Bytes) (v : ℕ)
      → get (get_cached lru c k v).1 k ≡ some (get_cached lru c k v).0
  get_cached-get c k v = elim (Option-cases (get c k)) [
    | inl e ↦ rw (get_cached_miss c k v e) (get-add_self c k v)
    | inr (w, e) ↦ rw (get_cached_hit c k v w e) (get-touch c k k ∙ e)
  ]

  cached_at_sticks :
      (c c1 : Cache) (name : Bytes) (v v' w : ℕ)
      → cached_at lru c name v ≡ some (w, c1)
      → (c2 : Cache) × (cached_at lru c1 name v' ≡ some (w, c2))
  unfolding cached_at
  cached_at_sticks c c1 name v v' w h =
      let (k, e, r) = >>=-eq-some (slice_to 32 name) (λ k. some (get_cached lru c k v)) h in
      let stored : get c1 k ≡ some w = ground (arith, get_cached-get c k v) in
      (touch c1 k, ground (arith, get_cached_hit c1 k v' w stored))

  deps_system_sticks :
      (c c1 : Cache) (deps : List Bytes) (n : ℕ) (mk mk' : Bytes → Option PresenceFunc) (w : ℕ)
      → deps_system lru c deps n mk ≡ some (w, c1)
      → (c2 : Cache) × (deps_system lru c1 deps n mk' ≡ some (w, c2))
  unfolding deps_system
  deps_system_sticks c c1 [] n mk mk' w h = (c1, ground arith)
  deps_system_sticks c c1 (d ∷ deps) n mk mk' w h =
      let (dep, e, h1) = >>=-eq-some (slice_from n d) _ h in
      let (name, e', h2) = >>=-eq-some (slice_from 33 dep) _ h1 in
      elim (Bool-cases (match_any libc_re name)) [
        | inl libc ↦
            let (c2, r) =
              cached_at_sticks c c1 dep _ (system_from_libc (mk' dep)) w (rw libc at h2) in
            (c2, rw (e, e', libc) r)
        | inr other ↦
            let (c2, r) = deps_system_sticks c c1 deps n mk mk' w (rw other at h2) in
            (c2, rw (e, e', other) r)
      ]

  -- Once a call has answered, the same call answers the same again, whatever the files are by then:
  -- a listing that failed leaves the system unknown.
  pub get_sys_from_path_deps_sticks :
      (c c1 : Cache) (p : Bytes) (deps : List Bytes) (n : ℕ) (mk mk' : Bytes → Option PresenceFunc)
      (w : ℕ)
      → get_sys_from_path_deps lru c p deps n mk ≡ some (w, c1)
      → (c2 : Cache) × (get_sys_from_path_deps lru c1 p deps n mk' ≡ some (w, c2))
  unfolding get_sys_from_path_deps
  get_sys_from_path_deps_sticks c c1 p deps n mk mk' w h =
      let (store_name, e, h1) = >>=-eq-some (slice_from n p) _ h in
      let (name, e', h2) = >>=-eq-some (slice_from 33 store_name) _ h1 in
      elim (Bool-cases (match_any grub_re name)) [
        | inl grub ↦
            let (c2, r) =
              cached_at_sticks c c1 store_name _ (system_from_grub (mk' store_name)) w
                (rw grub at h2) in
            (c2, rw (e, e', grub) r)
        | inr other ↦
            let (c2, r) = deps_system_sticks c c1 deps n mk mk' w (rw other at h2) in
            (c2, rw (e, e', other) r)
      ]
