-- ===== src/NarExpander/Expand/Order.antt =====
-- The order of the entries that `ExpandNar` writes: the writer of nars wants names that ascend.
use nix_sandwich.Prelude.{◌≤◌, ◌≡◌, refl, arith, true, [], ◌∷◌, ◌++◌, Bytes, codes, bytes_lt, All}
use nix_sandwich.NarExpander.Expand.{meta_suffix, data_suffix}

-- No byte is a 0 or a 1.
abbrev pub IsPlainName : Bytes → Type 0
IsPlainName = All (λ c. 2 ≤ c)

append_lt : (p q s : Bytes) → IsPlainName q → bytes_lt p q ≡ true → bytes_lt (p ++ 1 ∷ s) q ≡ true
append_lt p [] s plain h = cc
append_lt [] (y ∷ ys) s plain h = ground arith
append_lt (x ∷ p) (y ∷ ys) s plain h = ground (arith, append_lt p ys s)

suffixes_lt : (p : Bytes) → bytes_lt (p ++ meta_suffix) (p ++ data_suffix) ≡ true
suffixes_lt [] = refl
suffixes_lt (x ∷ p) = ground (arith, suffixes_lt p)

-- The two names that a file gets ascend, and stay before every plain name that came after its own.
pub expanded_names_ascend :
    (p q : Bytes)
    → IsPlainName q
    → bytes_lt p q ≡ true
    → (bytes_lt (p ++ meta_suffix) (p ++ data_suffix) ≡ true)
      × (bytes_lt (p ++ data_suffix) q ≡ true)
expanded_names_ascend p q plain h = (suffixes_lt p, append_lt p q (codes "_exp2data_") plain h)
