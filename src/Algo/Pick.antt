-- ===== src/Algo/Pick.antt =====
-- `getAlgo` and `pickAlgo` of algo.go.
use nix_sandwich.Prelude.{
  ℕ, ◌<◌, ◌^◌, ◌≡◌, ◌++◌, All, Option, none, some, List, [], ◌∷◌, Bytes, codes, bytes_eq, cut,
  if◌then◌else◌,
}
use nix_sandwich.Prelude.Decimal.{itoa}
use nix_sandwich.Algo.Atoi.{ℤ, pos, atoi, atoi-itoa}

-- The two implementations of `DiffAlgo`, with their level.
pub data DiffAlgo : Type 0 where
  xd3_algo zst_algo : ℤ → DiffAlgo

abbrev pub xdelta_name : Bytes
xdelta_name = codes "xdelta"

abbrev pub zstd_name : Bytes
zstd_name = codes "zstd"

unfoldable pub get_algo : Bytes → Option DiffAlgo
get_algo name =
    if bytes_eq name xdelta_name
    then some (xd3_algo (pos 6))
    else if bytes_eq name zstd_name
    then some (zst_algo (pos 9))
    else none

unfoldable pub set_level : DiffAlgo → ℤ → DiffAlgo
set_level (xd3_algo _) level = xd3_algo level
set_level (zst_algo _) level = zst_algo level

unfoldable pub algo_name : DiffAlgo → Bytes
algo_name (xd3_algo _) = xdelta_name
algo_name (zst_algo _) = zstd_name

-- A level that is no number leaves the algorithm's own.
abbrev pub with_level : DiffAlgo → Option ℤ → DiffAlgo
with_level algo none = algo
with_level algo (some level) = set_level algo level

-- What an accepted text stands for.
unfoldable pub read_algo : Bytes → Option DiffAlgo
unfolding get_algo set_level
read_algo a = elim (cut a b'-') [
  | none ↦ get_algo a
  | some (name, level) ↦ elim (get_algo name) [
    | none ↦ none
    | some algo ↦ some (with_level algo (atoi level))
  ]
]

-- The first accepted text that stands for an algorithm.
unfoldable pub pick_algo : List Bytes → Option DiffAlgo
unfolding read_algo
pick_algo [] = none
pick_algo (a ∷ accept) = elim (read_algo a) [ none ↦ pick_algo accept | some algo ↦ some algo ]

-- How the configuration writes an algorithm with a level.
abbrev pub print_algo : DiffAlgo → ℕ → Bytes
print_algo algo n = algo_name algo ++ b'-' ∷ itoa n

read_algo-print_algo :
    (algo : DiffAlgo) (n : ℕ)
    → n < 2 ^ 63
    → read_algo (print_algo algo n) ≡ some (set_level algo (pos n))
unfolding read_algo algo_name
read_algo-print_algo (xd3_algo _) n h = rw (atoi-itoa n h)
read_algo-print_algo (zst_algo _) n h = rw (atoi-itoa n h)

pick_algo_first :
    (a : Bytes) (after : List Bytes) (algo : DiffAlgo)
    → read_algo a ≡ some algo
    → pick_algo (a ∷ after) ≡ some algo
unfolding pick_algo
pick_algo_first a after algo h = rw (h, pick_algo)

-- The algorithm that is picked is the one of the first text that stands for one, with the level
-- written behind its name, a number below 2 ^ 63.
pub pick_algo-print_algo :
    (before after : List Bytes) (algo : DiffAlgo) (n : ℕ)
    → All (λ a. read_algo a ≡ none) before
    → n < 2 ^ 63
    → pick_algo (before ++ print_algo algo n ∷ after) ≡ some (set_level algo (pos n))
unfolding pick_algo
pick_algo-print_algo [] after algo n _ h =
    pick_algo_first (print_algo algo n) after (set_level algo (pos n))
      (read_algo-print_algo algo n h)
pick_algo-print_algo (a ∷ before) after algo n (unknown, others) h =
    rw (unknown, pick_algo) (pick_algo-print_algo before after algo n others h)
