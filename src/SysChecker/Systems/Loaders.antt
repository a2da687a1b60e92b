-- ===== src/SysChecker/Systems/Loaders.antt =====
-- Systems tell libcs apart just as their loaders do.
use nix_sandwich.Prelude.{
  ℕ, ◌<◌, ◌≡◌, ◌≢◌, ◌⊎◌, ◌↔◌, inl, inr, true, false, some, List, [], ◌∷◌, All, Bool-cases, ap, sym,
  ◌∙◌, arith, Bytes, codes,
}
use nix_sandwich.SysChecker.Systems.{
  PresenceFunc, is_present, sys_unknown, libc_system, system_from_libc, system_from_grub,
}

-- What the loaders of a libc are called, with the libc and the architecture that each stands for.
pub data Loader : Type 0 where
  glibc_x86_64 glibc_aarch64 glibc_i686 musl_x86_64 musl_aarch64 musl_i686 : Loader

abbrev pub file_of : Loader → Bytes
file_of glibc_x86_64 = codes "lib/ld-linux-x86-64.so.2"
file_of glibc_aarch64 = codes "lib/ld-linux-aarch64.so.1"
file_of glibc_i686 = codes "lib/ld-linux.so.2"
file_of musl_x86_64 = codes "lib/ld-musl-x86_64.so.1"
file_of musl_aarch64 = codes "lib/ld-musl-aarch64.so.1"
file_of musl_i686 = codes "lib/ld-musl-i386.so.1"

abbrev pub HasLoader : PresenceFunc → Loader → Type 0
HasLoader f l = is_present (f (file_of l)) ≡ true

-- A libc with just one loader.
abbrev pub HasOnly : PresenceFunc → Loader → Type 0
HasOnly f l = HasLoader f l × ((m : Loader) → HasLoader f m → m ≡ l)

known_of_loader : (f : PresenceFunc) (l : Loader) → HasLoader f l → libc_system f ≢ sys_unknown
unfolding libc_system
known_of_loader f glibc_x86_64 h = ground arith
known_of_loader f glibc_aarch64 h = ground arith
known_of_loader f glibc_i686 h = ground arith
known_of_loader f musl_x86_64 h = ground arith
known_of_loader f musl_aarch64 h = ground arith
known_of_loader f musl_i686 h = ground arith

abbrev loaders : List Loader
loaders = glibc_x86_64 ∷ glibc_aarch64 ∷ glibc_i686 ∷ musl_x86_64 ∷ musl_aarch64 ∷ musl_i686 ∷ []

-- Some listed loader is there, or none is.
first_loader :
    (f : PresenceFunc) (ls : List Loader)
    → ((l : Loader) × HasLoader f l) ⊎ All (λ l. is_present (f (file_of l)) ≡ false) ls
first_loader f [] = inr tt
first_loader f (l ∷ ls) = elim (Bool-cases (is_present (f (file_of l)))) [
  | inl here ↦ inl (l, here)
  | inr missing ↦ elim (first_loader f ls) [
    | inl found ↦ inl found
    | inr rest ↦ inr (missing, rest)
  ]
]

unknown_of_no_loader :
    (f : PresenceFunc)
    → All (λ l. is_present (f (file_of l)) ≡ false) loaders
    → libc_system f ≡ sys_unknown
unfolding libc_system
unknown_of_no_loader f h = ground arith

loader_of_known : (f : PresenceFunc) → libc_system f ≢ sys_unknown → (l : Loader) × HasLoader f l
loader_of_known f h = elim (first_loader f loaders) [
  | inl found ↦ found
  | inr missing ↦ absurd (h (unknown_of_no_loader f missing))
]

-- The number that stands for a loader.
abbrev system_of : Loader → ℕ
system_of glibc_x86_64 = 257
system_of glibc_aarch64 = 259
system_of glibc_i686 = 258
system_of musl_x86_64 = 513
system_of musl_aarch64 = 515
system_of musl_i686 = 514

system_of-injective : (l m : Loader) → system_of l ≡ system_of m → l ≡ m
system_of-injective l m h = ground arith

libc_system_only : (f : PresenceFunc) (l : Loader) → HasOnly f l → libc_system f ≡ system_of l
unfolding libc_system
libc_system_only f l h = ground (
  arith,
  h.1 glibc_x86_64,
  h.1 glibc_aarch64,
  h.1 glibc_i686,
  h.1 musl_x86_64,
  h.1 musl_aarch64,
  h.1 musl_i686,
)

-- A libc's system is known exactly if it has one of the six loaders.
pub system_from_libc_known_iff :
    (f : PresenceFunc) → (system_from_libc (some f) ≢ sys_unknown) ↔ ((l : Loader) × HasLoader f l)
unfolding system_from_libc
system_from_libc_known_iff f = (loader_of_known f, λ (l, h). known_of_loader f l h)

-- Two libcs with a single loader each have the same system exactly if these are the same loader.
pub system_from_libc_same_iff :
    (f g : PresenceFunc) (l m : Loader)
    → HasOnly f l
    → HasOnly g m
    → (system_from_libc (some f) ≡ system_from_libc (some g)) ↔ (l ≡ m)
unfolding system_from_libc
system_from_libc_same_iff f g l m hf hg =
    rw (libc_system_only f l hf, libc_system_only g m hg)
      (system_of-injective l m, λ e. ap system_of e)

grub_small : (f : PresenceFunc) → system_from_grub (some f) < 256
unfolding system_from_grub
grub_small f = ground arith

libc_large : (f : PresenceFunc) → (libc_system f ≡ sys_unknown) ⊎ (256 < libc_system f)
unfolding libc_system
libc_large f = ground arith

-- A libc and a grub have one system only if it is the unknown one, so the two kinds of numbers do
-- not get mixed up.
pub libc_grub_apart :
    (f g : PresenceFunc)
    → system_from_libc (some f) ≡ system_from_grub (some g)
    → (system_from_libc (some f) ≡ sys_unknown) × (system_from_grub (some g) ≡ sys_unknown)
unfolding system_from_libc
libc_grub_apart f g e = elim (libc_large f) [
  | inl unknown ↦ (unknown, sym e ∙ unknown)
  | inr large ↦ absurd (omega (arith, grub_small g))
]
