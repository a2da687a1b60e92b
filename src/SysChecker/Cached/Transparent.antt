-- ===== src/SysChecker/Cached/Transparent.antt =====
-- The cache of systems is transparent while the files of a store path do not change.
use nix_sandwich.Prelude.{
  ℕ, ◌≡◌, refl, inl, inr, true, Option, none, some, List, [], ◌∷◌, arith, Bytes, take, slice_from,
  slice_to, if◌then◌else◌, All, bytes_eq, bytes_eq→eq, ne_of_bytes_eq, Bool-cases, Option-cases, ap,
  sym, ◌∙◌,
}
use nix_sandwich.Prelude.Maybe.{◌>>=◌}
use nix_sandwich.External.Lru.{Lru}
use nix_sandwich.Catalog.Patterns.{match_any}
use nix_sandwich.SysChecker.Systems.{PresenceFunc, sys_unknown, system_from_libc, system_from_grub}
use nix_sandwich.SysChecker.Cached.{
  libc_re, grub_re, get_cached, cached_at, deps_system, get_sys_from_path_deps,
}
use nix_sandwich.SysChecker.Cached.Laws.{get_cached_hit, get_cached_miss}

-- The system of a path computed afresh: the answer that the cache should not change.
unfoldable fresh_deps : List Bytes → ℕ → (Bytes → Option PresenceFunc) → Option ℕ
fresh_deps [] prefix make_presence = some sys_unknown
fresh_deps (d ∷ deps) prefix make_presence = do
  dep ← slice_from prefix d
  name ← slice_from 33 dep
  let rest = fresh_deps deps prefix make_presence
  if match_any libc_re name then some (system_from_libc (make_presence dep)) else rest

unfoldable pub fresh_system : Bytes → List Bytes → ℕ → (Bytes → Option PresenceFunc) → Option ℕ
unfolding fresh_deps
fresh_system store_path deps prefix make_presence = do
  store_name ← slice_from prefix store_path
  name ← slice_from 33 store_name
  if match_any grub_re name
      then some (system_from_grub (make_presence store_name))
      else fresh_deps deps prefix make_presence

-- `sys` gives the system of a store hash: for the store names that there are, the files under a path
-- are settled by its hash.
pub record Settled (exists : Bytes → Type 0) (mk : Bytes → Option PresenceFunc) (sys : Bytes → ℕ)
    : Type 0 where
  pub of_libc :
      (d name : Bytes)
      → exists d
      → slice_from 33 d ≡ some name
      → match_any libc_re name ≡ true
      → system_from_libc (mk d) ≡ sys (take 32 d)
  pub of_grub :
      (d name : Bytes)
      → exists d
      → slice_from 33 d ≡ some name
      → match_any grub_re name ≡ true
      → system_from_grub (mk d) ≡ sys (take 32 d)

-- What stands behind the first `n` bytes of a path is a store name that there is.
abbrev pub Exists : (Bytes → Type 0) → ℕ → Bytes → Type 0
Exists exists n p = (s : Bytes) → slice_from n p ≡ some s → exists s

module _ (lru : Lru ℕ) (sys : Bytes → ℕ) where
  open lru use {Cache, get, touch, add, get-touch, get-add_self, get-add_other}

  -- What is cached is right.
  abbrev pub Agrees : Cache → Type 0
  Agrees c = (k : Bytes) (w : ℕ) → get c k ≡ some w → w ≡ sys k

  -- The answer is the fresh one and leaves a cache that is right.
  abbrev pub Answers : Option (ℕ × Cache) → Option ℕ → Type 0
  Answers none r = r ≡ none
  Answers (some (v, c)) r = (r ≡ some v) × Agrees c

  touch-Agrees : (c : Cache) (k : Bytes) → Agrees c → Agrees (touch c k)
  touch-Agrees c k a j w h = a j w (sym (get-touch c k j) ∙ h)

  add-Agrees : (c : Cache) (k : Bytes) → Agrees c → Agrees (add c k (sys k))
  add-Agrees c k a j w h = elim (Bool-cases (bytes_eq j k)) [
    | inl same ↦ ground (arith, bytes_eq→eq j k same, get-add_self c k (sys k))
    | inr apart ↦ elim (get-add_other c k j (sys k) (ne_of_bytes_eq j k apart)) [
      | inl gone ↦ ground arith
      | inr kept ↦ a j w (sym kept ∙ h)
    ]
  ]

  get_cached-Agrees :
      (c : Cache) (k : Bytes)
      → Agrees c
      → ((get_cached lru c k (sys k)).0 ≡ sys k) × Agrees (get_cached lru c k (sys k)).1
  get_cached-Agrees c k a = elim (Option-cases (get c k)) [
    | inl e ↦ rw (get_cached_miss lru c k (sys k) e) (refl, add-Agrees c k a)
    | inr (w, e) ↦ rw (get_cached_hit lru c k (sys k) w e) (a k w e, touch-Agrees c k a)
  ]

  cached_at-Answers :
      (c : Cache) (name tail : Bytes)
      → Agrees c
      → slice_from 33 name ≡ some tail
      → (v : ℕ) → v ≡ sys (take 32 name)
      → Answers (cached_at lru c name v) (some v)
  unfolding cached_at slice_from slice_to
  cached_at-Answers c name tail a e v h =
      let long : slice_to 32 name ≡ some (take 32 name) = ground (arith, e) in
      let (same, agrees) = get_cached-Agrees c (take 32 name) a in
      rw (h, long) (ap some (sym same), agrees)

  module _ (exists : Bytes → Type 0) (mk : Bytes → Option PresenceFunc)
      (settled : Settled exists mk sys) where
    deps_system-Answers :
        (c : Cache) (deps : List Bytes) (n : ℕ)
        → All (Exists exists n) deps
        → Agrees c
        → Answers (deps_system lru c deps n mk) (fresh_deps deps n mk)
    unfolding deps_system fresh_deps
    deps_system-Answers c [] n there a = (refl, a)
    deps_system-Answers c (d ∷ deps) n (here, there) a = elim (Option-cases (slice_from n d)) [
      | inl e ↦ rw e refl
      | inr (dep, e) ↦ elim (Option-cases (slice_from 33 dep)) [
        | inl e' ↦ rw (e, e') refl
        | inr (name, e') ↦ elim (Bool-cases (match_any libc_re name)) [
          | inl libc ↦
              rw (e, e', libc)
                (cached_at-Answers c dep name a e' _
                  (settled.of_libc dep name (here dep e) e' libc))
          | inr other ↦ rw (e, e', other) (deps_system-Answers c deps n there a)
        ]
      ]
    ]

    -- With a cache that is right, and store names whose files are settled by the hash, the answer is the one
    -- computed afresh, a panic included, and the cache stays right.
    pub get_sys_from_path_deps_fresh :
        (c : Cache) (p : Bytes) (deps : List Bytes) (n : ℕ)
        → Exists exists n p
        → All (Exists exists n) deps
        → Agrees c
        → Answers (get_sys_from_path_deps lru c p deps n mk) (fresh_system p deps n mk)
    unfolding get_sys_from_path_deps fresh_system
    get_sys_from_path_deps_fresh c p deps n here there a = elim (Option-cases (slice_from n p)) [
      | inl e ↦ rw e refl
      | inr (store_name, e) ↦ elim (Option-cases (slice_from 33 store_name)) [
        | inl e' ↦ rw (e, e') refl
        | inr (name, e') ↦ elim (Bool-cases (match_any grub_re name)) [
          | inl grub ↦
              rw (e, e', grub)
                (cached_at-Answers c store_name name a e' _
                  (settled.of_grub store_name name (here store_name e) e' grub))
          | inr other ↦ rw (e, e', other) (deps_system-Answers c deps n there a)
        ]
      ]
    ]
