-- ===== src/Prelude/Order.antt =====
-- The order of byte strings is a strict total order.
use Prim.Native.Nat.{◌<◌}
use mathlib.Core.Path.{◌≡◌, refl}
use mathlib.Core.Logic.{◌⊎◌, inl, inr}
use mathlib.Core.Bool.{true, false}
use mathlib.Core.List.{[], ◌∷◌, ◌++◌}
use native.Mathlib.Omega.{arith}
use nix_sandwich.Prelude.Text.{Bytes, bytes_lt, has_prefix}
use nix_sandwich.Prelude.Lists.{All}

pub bytes_lt_irrefl : (a : Bytes) → bytes_lt a a ≡ false
bytes_lt_irrefl [] = refl
bytes_lt_irrefl (x ∷ a) = ground (arith, bytes_lt_irrefl a)

pub bytes_lt_trans :
    (a b c : Bytes) → bytes_lt a b ≡ true → bytes_lt b c ≡ true → bytes_lt a c ≡ true
bytes_lt_trans a [] c h k = cc
bytes_lt_trans a (y ∷ b) [] h k = cc
bytes_lt_trans [] (y ∷ b) (z ∷ c) h k = refl
bytes_lt_trans (x ∷ a) (y ∷ b) (z ∷ c) h k = ground (arith, bytes_lt_trans a b c)

pub bytes_lt_tri : (a b : Bytes) → (bytes_lt a b ≡ true) ⊎ ((a ≡ b) ⊎ (bytes_lt b a ≡ true))
bytes_lt_tri [] [] = inr (inl refl)
bytes_lt_tri [] (y ∷ b) = inl refl
bytes_lt_tri (x ∷ a) [] = inr (inr refl)
bytes_lt_tri (x ∷ a) (y ∷ b) = ground (arith, bytes_lt_tri a b)

-- What lies between `p` and `p` followed by the byte 0xff begins with `p`.
pub has_prefix-between :
    (s p : Bytes)
    → bytes_lt s p ≡ false
    → bytes_lt s (p ++ 0xff ∷ []) ≡ true
    → has_prefix s p ≡ true
has_prefix-between s [] h k = ground arith
has_prefix-between [] (c ∷ p) h k = cc
has_prefix-between (x ∷ s) (c ∷ p) h k = ground (arith, has_prefix-between s p)

-- Exactly the texts that begin with `p` and do not go on with 0xff or above lie there.
pub between-has_prefix :
    (p rest : Bytes)
    → All (λ c. c < 0xff) rest
    → (bytes_lt (p ++ rest) p ≡ false) × (bytes_lt (p ++ rest) (p ++ 0xff ∷ []) ≡ true)
between-has_prefix [] [] h = (refl, refl)
between-has_prefix [] (c ∷ rest) h = ground arith
between-has_prefix (x ∷ p) rest h = ground (arith, between-has_prefix p rest)
