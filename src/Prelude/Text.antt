-- ===== src/Prelude/Text.antt =====
-- Go strings as lists of bytes, with the operations of `strings` and `bytes` that the program
-- calls: HasPrefix, HasSuffix, TrimPrefix, TrimSuffix, Cut, comparison and equality.
use Prim.Native.Nat.{ℕ, ◌-◌}
use Prim.Native.Char.{code}
use Prim.Native.String.{String}
use mathlib.Core.Path.{◌≡◌, refl}
use mathlib.Core.Logic.{◌↔◌, ◌≢◌}
use mathlib.Core.Bool.{Bool, true, false, ◌&&◌}
use mathlib.Core.List.{List, [], ◌∷◌, ◌++◌}
use mathlib.Core.Option.{Option, none, some}
use native.Mathlib.Omega.{arith}
use nix_sandwich.Prelude.Tests.{ltb, le→ltb, ◌==◌, if◌then◌else◌}
use nix_sandwich.Prelude.Lists.{
  length, take, drop, length-append, take-append_length, drop-append_length,
}

abbrev pub Bytes : Type 0
Bytes = List ℕ

-- The code points of a literal; these are its bytes where the text is ASCII.
abbrev pub codes : String → Bytes
codes String.[] = []
codes (String.◌∷◌ c s) = code c ∷ codes s

abbrev pub bytes_eq : Bytes → Bytes → Bool
bytes_eq [] [] = true
bytes_eq [] (y ∷ ys) = false
bytes_eq (x ∷ xs) [] = false
bytes_eq (x ∷ xs) (y ∷ ys) = x == y && bytes_eq xs ys

pub bytes_eq→eq : (a b : Bytes) → bytes_eq a b ≡ true → a ≡ b
bytes_eq→eq [] [] h = refl
bytes_eq→eq [] (y ∷ ys) h = ground arith
bytes_eq→eq (x ∷ xs) [] h = ground arith
bytes_eq→eq (x ∷ xs) (y ∷ ys) h = ground (arith, bytes_eq→eq xs ys)

pub bytes_eq_refl : (a : Bytes) → bytes_eq a a ≡ true
bytes_eq_refl [] = refl
bytes_eq_refl (x ∷ xs) = ground (arith, bytes_eq_refl xs)

pub eq→bytes_eq : (a b : Bytes) → a ≡ b → bytes_eq a b ≡ true
eq→bytes_eq a b h = ground (arith, bytes_eq_refl a)

pub bytes_eq_iff : (a b : Bytes) → (bytes_eq a b ≡ true) ↔ (a ≡ b)
bytes_eq_iff a b = (bytes_eq→eq a b, eq→bytes_eq a b)

pub ne_of_bytes_eq : (a b : Bytes) → bytes_eq a b ≡ false → a ≢ b
ne_of_bytes_eq a b h e = cc (eq→bytes_eq a b e)

-- `a < b` on strings, and `bytes.Compare(a, b) < 0`.
abbrev pub bytes_lt : Bytes → Bytes → Bool
bytes_lt a [] = false
bytes_lt [] (y ∷ ys) = true
bytes_lt (x ∷ xs) (y ∷ ys) =
    let rest = bytes_lt xs ys in if ltb x y then true else if x == y then rest else false

abbrev pub has_prefix : Bytes → Bytes → Bool
has_prefix s [] = true
has_prefix [] (p ∷ ps) = false
has_prefix (c ∷ s) (p ∷ ps) = c == p && has_prefix s ps

-- The last `length p` bytes of `s` are `p`.
abbrev pub has_suffix : Bytes → Bytes → Bool
has_suffix s p =
    if ltb (length s) (length p) then false else bytes_eq (drop (length s - length p) s) p

abbrev pub trim_prefix : Bytes → Bytes → Bytes
trim_prefix s p = if has_prefix s p then drop (length p) s else s

abbrev pub trim_suffix : Bytes → Bytes → Bytes
trim_suffix s p = if has_suffix s p then take (length s - length p) s else s

pub has_suffix-append : (p s : Bytes) → has_suffix (p ++ s) s ≡ true
has_suffix-append p s =
    let n : length (p ++ s) - length s ≡ length p = omega (arith, length-append p s) in
    rw
      (
        le→ltb (length (p ++ s)) (length s) (omega (arith, length-append p s)),
        n,
        drop-append_length p s,
      )
      (bytes_eq_refl s)

pub trim_suffix-append : (p s : Bytes) → trim_suffix (p ++ s) s ≡ p
trim_suffix-append p s =
    let n : length (p ++ s) - length s ≡ length p = omega (arith, length-append p s) in
    rw (has_suffix-append p s, n) (take-append_length p s)

-- `strings.Cut` at one byte: what stands before and after the first one, if there is one.
abbrev pub cut : Bytes → ℕ → Option (Bytes × Bytes)
cut [] sep = none
cut (c ∷ s) sep = elim (c == sep) [
  | true ↦ some ([], s)
  | false ↦ elim (cut s sep) [ none ↦ none | some (before, after) ↦ some (c ∷ before, after) ]
]

-- `strings.Split` at one byte: the parts between the separators, one at least.
abbrev pub split : Bytes → ℕ → List Bytes
split [] sep = [] ∷ []
split (c ∷ s) sep = elim (c == sep) [
  | true ↦ [] ∷ split s sep
  | false ↦ elim (split s sep) [ [] ↦ (c ∷ []) ∷ [] | part ∷ parts ↦ (c ∷ part) ∷ parts ]
]
