-- ===== src/Samples/SysCheckerRuns.antt =====
-- Runs of the check of systems.
use nix_sandwich.Prelude.{
  ℕ, ◌+◌, ◌≡◌, ◌≢◌, refl, ◌↔◌, ◌⊎◌, inl, inr, All, Bool, true, false, Option, none, some, List, [],
  ◌∷◌, ◌++◌, arith, Bytes, codes, bytes_eq, take, drop, slice_from, if◌then◌else◌,
}
use nix_sandwich.Catalog.Patterns.{match_any}
use nix_sandwich.SysChecker.Systems.{
  absent, regular, PresenceFunc, sys_unknown, system_from_libc, system_from_grub,
}
use nix_sandwich.SysChecker.Systems.Loaders.{
  glibc_x86_64, glibc_aarch64, glibc_i686, musl_x86_64, musl_aarch64, musl_i686, HasOnly,
  system_from_libc_same_iff,
}
use nix_sandwich.SysChecker.Cached.{get_sys_from_path_deps, libc_re, grub_re}
use nix_sandwich.SysChecker.Cached.Laws.{get_sys_from_path_deps_sticks}
use nix_sandwich.SysChecker.Cached.Transparent.{
  Exists, Agrees, Answers, fresh_system, get_sys_from_path_deps_fresh,
}
use nix_sandwich.SysChecker.Batch.{PathInfo, SysResult, get_sys_from_store_path_batch}
use nix_sandwich.Samples.Instances.{Table, table_lru, no_entries}

-- A libc with one file.
abbrev only : Bytes → PresenceFunc
only path p = if bytes_eq p path then regular else absent

abbrev glibc_amd64 : PresenceFunc
glibc_amd64 = only (codes "lib/ld-linux-x86-64.so.2")

abbrev musl_arm : PresenceFunc
musl_arm = only (codes "lib/ld-musl-aarch64.so.1")

glibc_amd64_only : HasOnly glibc_amd64 glibc_x86_64
glibc_amd64_only = (
  refl,
  elim [
    | glibc_x86_64 ↦ λ h. refl
    | glibc_aarch64 ↦ λ h. cc
    | glibc_i686 ↦ λ h. cc
    | musl_x86_64 ↦ λ h. cc
    | musl_aarch64 ↦ λ h. cc
    | musl_i686 ↦ λ h. cc
  ],
)

musl_arm_only : HasOnly musl_arm musl_aarch64
musl_arm_only = (
  refl,
  elim [
    | glibc_x86_64 ↦ λ h. cc
    | glibc_aarch64 ↦ λ h. cc
    | glibc_i686 ↦ λ h. cc
    | musl_x86_64 ↦ λ h. cc
    | musl_aarch64 ↦ λ h. refl
    | musl_i686 ↦ λ h. cc
  ],
)

glibc_is_257 : system_from_libc (some glibc_amd64) ≡ 257
unfolding system_from_libc
glibc_is_257 = refl

system_from_libc_same_iff_example :
    (system_from_libc (some glibc_amd64) ≡ system_from_libc (some musl_arm))
    ↔ (glibc_x86_64 ≡ musl_aarch64)
system_from_libc_same_iff_example =
    system_from_libc_same_iff glibc_amd64 musl_arm glibc_x86_64 musl_aarch64 glibc_amd64_only
      musl_arm_only

both_unknown :
    system_from_libc (some (only (codes "etc/rpc")))
    ≡ system_from_grub (some (only (codes "etc/rpc")))
unfolding system_from_libc system_from_grub
both_unknown = refl

abbrev hello : Bytes
hello = codes "aaaaaaaaaaaaaaaaaaaaaaaaaaaaaaaa-hello-2.12"

abbrev hello_deps : List Bytes
hello_deps =
    codes "cccccccccccccccccccccccccccccccc-bash-5.2"
    ∷ codes "dddddddddddddddddddddddddddddddd-glibc-2.38-27"
    ∷ []

abbrev glibc_hash : Bytes
glibc_hash = codes "dddddddddddddddddddddddddddddddd"

abbrev one_entry : Bytes → ℕ → Table ℕ
one_entry k v j = if bytes_eq j k then some v else none

-- The listing of the libc cannot be fetched.
failed_listing :
    get_sys_from_path_deps (table_lru ℕ) no_entries hello hello_deps 0 (λ s. none)
    ≡ some (sys_unknown, one_entry glibc_hash sys_unknown)
unfolding get_sys_from_path_deps slice_from match_any nix_sandwich.Prelude.slice_to system_from_libc
failed_listing = refl

-- The same path is unknown for good, although the listing is there now.
get_sys_from_path_deps_sticks_example :
    (c : Table ℕ) × (get_sys_from_path_deps
        (table_lru ℕ)
        (one_entry glibc_hash sys_unknown)
        hello
        hello_deps
        0
        (λ s. some glibc_amd64)
      ≡ some (sys_unknown, c))
get_sys_from_path_deps_sticks_example =
    get_sys_from_path_deps_sticks (table_lru ℕ) no_entries (one_entry glibc_hash sys_unknown) hello
      hello_deps 0 (λ s. none) (λ s. some glibc_amd64) sys_unknown failed_listing

abbrev glibc_path : Bytes
glibc_path = codes "dddddddddddddddddddddddddddddddd-glibc-2.38-27"

abbrev grub_path : Bytes
grub_path = codes "eeeeeeeeeeeeeeeeeeeeeeeeeeeeeeee-grub-2.12"

-- A store with one libc and one grub, both for x86_64.
abbrev InStore : Bytes → Type 0
InStore d = (d ≡ glibc_path) ⊎ (d ≡ grub_path)

abbrev amd64_store : Bytes → Option PresenceFunc
amd64_store s =
    if bytes_eq s grub_path then some (only (codes "lib/grub/x86_64-efi")) else some glibc_amd64

abbrev amd64_sys : Bytes → ℕ
amd64_sys k = if bytes_eq k glibc_hash then 257 else 21

store_of_libc :
    (d name : Bytes)
    → InStore d
    → slice_from 33 d ≡ some name
    → match_any libc_re name ≡ true
    → system_from_libc (amd64_store d) ≡ amd64_sys (take 32 d)
unfolding slice_from match_any system_from_libc
store_of_libc d name (inl e) h k = rw e refl
store_of_libc d name (inr e) h k =
    let n : name ≡ codes "grub-2.12" = cc (rw e at h) in cc (rw n at k)

store_of_grub :
    (d name : Bytes)
    → InStore d
    → slice_from 33 d ≡ some name
    → match_any grub_re name ≡ true
    → system_from_grub (amd64_store d) ≡ amd64_sys (take 32 d)
unfolding slice_from match_any system_from_grub
store_of_grub d name (inl e) h k =
    let n : name ≡ codes "glibc-2.38-27" = cc (rw e at h) in cc (rw n at k)
store_of_grub d name (inr e) h k = rw e refl

glibc-InStore : Exists InStore 0 glibc_path
unfolding slice_from
glibc-InStore s h = inl (cc)

nothing_cached : Agrees (table_lru ℕ) amd64_sys no_entries
nothing_cached k w h = cc

get_sys_from_path_deps_fresh_example :
    Answers
      (table_lru ℕ)
      amd64_sys
      (get_sys_from_path_deps (table_lru ℕ) no_entries glibc_path (glibc_path ∷ []) 0 amd64_store)
      (fresh_system glibc_path (glibc_path ∷ []) 0 amd64_store)
get_sys_from_path_deps_fresh_example =
    get_sys_from_path_deps_fresh (table_lru ℕ) amd64_sys InStore amd64_store
      (record { of_libc = store_of_libc; of_grub = store_of_grub }) no_entries glibc_path
      (glibc_path ∷ []) 0 glibc-InStore (glibc-InStore, tt) nothing_cached

abbrev hello_info : PathInfo
hello_info = record {
  path = codes "/nix/store/aaaaaaaaaaaaaaaaaaaaaaaaaaaaaaaa-hello-2.12";
  references = [];
  nar_size = 226560;
  signatures = codes "cache.nixos.org-1:c2ln" ∷ [];
}

abbrev hello_result : SysResult
hello_result = record { sys = 0; nar_size = 226560; signer = codes "cache.nixos.org-1" }

hello_batch :
    get_sys_from_store_path_batch
      (table_lru ℕ)
      amd64_store
      (λ ps. some (hello_info ∷ []))
      no_entries
      (hello_info.path ∷ [])
    ≡ some (hello_result ∷ [], no_entries)
unfolding get_sys_from_store_path_batch get_sys_from_path_deps slice_from match_any
hello_batch = refl
