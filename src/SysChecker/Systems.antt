-- ===== src/SysChecker/Systems.antt =====
-- `systemFromLibc` and `systemFromGrub`: which files are present decides the system.
pub mod Loaders
use Prim.Native.Nat.{bit_or}
use nix_sandwich.Prelude.{
  ℕ, zero, suc, ◌+◌, ◌*◌, ◌^◌, ◌≤◌, ◌<◌, ◌≡◌, refl, ◌≢◌, ◌⊎◌, ◌↔◌, inl, inr, Bool, true, false,
  ◌||◌, not, Option, none, some, arith, Bytes, codes, if◌then◌else◌,
}

-- `nar.NodeType` with `TypeNone` and `TypeOther`
pub data NodeType : Type 0 where
  absent regular directory symlink other : NodeType

abbrev pub is_present : NodeType → Bool
is_present absent = false
is_present regular = true
is_present directory = true
is_present symlink = true
is_present other = true

abbrev pub PresenceFunc : Type 0
PresenceFunc = Bytes → NodeType

abbrev pub sys_unknown : ℕ
sys_unknown = 0

-- `iota` of the two blocks of constants
abbrev pub x86_64 : ℕ
x86_64 = 1

abbrev pub i686 : ℕ
i686 = 2

abbrev pub aarch64 : ℕ
aarch64 = 3

abbrev pub glibc : ℕ
glibc = 1 * 2 ^ 8

abbrev pub musl : ℕ
musl = 2 * 2 ^ 8

-- `iota + 20`
abbrev pub x86_64_grub : ℕ
x86_64_grub = 21

abbrev pub i686_grub : ℕ
i686_grub = 22

unfoldable pub libc_system : PresenceFunc → ℕ
libc_system f =
    if is_present (f (codes "lib/ld-linux-x86-64.so.2"))
    then bit_or glibc x86_64
    else if is_present (f (codes "lib/ld-linux-aarch64.so.1"))
    then bit_or glibc aarch64
    else if is_present (f (codes "lib/ld-linux.so.2"))
    then bit_or glibc i686
    else if is_present (f (codes "lib/ld-musl-x86_64.so.1"))
    then bit_or musl x86_64
    else if is_present (f (codes "lib/ld-musl-aarch64.so.1"))
    then bit_or musl aarch64
    else if is_present (f (codes "lib/ld-musl-i386.so.1"))
    then bit_or musl i686
    else sys_unknown

-- A presence function that is nil makes the system unknown.
unfoldable pub system_from_libc : Option PresenceFunc → ℕ
unfolding libc_system
system_from_libc none = sys_unknown
system_from_libc (some f) = libc_system f

unfoldable pub system_from_grub : Option PresenceFunc → ℕ
system_from_grub none = sys_unknown
system_from_grub (some f) =
    if is_present (f (codes "lib/grub/x86_64-efi"))
    then x86_64_grub
    else if is_present (f (codes "lib/grub/i386-pc"))
    then i686_grub
    else sys_unknown
