-- ===== src/Analytics/Report/Stored.antt =====
-- The sums over the records of a tally whose deltas are all there.
use nix_sandwich.Prelude.{
  ℕ, ◌+◌, ◌%◌, ◌^◌, ◌<◌, ◌≡◌, refl, arith, false, Option, none, some, List, [], ◌∷◌, All, ◌==◌,
}
use nix_sandwich.Algo.Stats.{DiffStats}
use nix_sandwich.Analytics.Tally.{Entry}
use nix_sandwich.Analytics.Tally.Balance.{file_bytes}
use nix_sandwich.Analytics.Report.{Sums, add_sums, sum_diffed}

-- The sizes of the deltas in the store.
abbrev pub stored_size : Option DiffStats → ℕ
stored_size none = 0
stored_size (some d) = d.diff_size

abbrev pub stored_bytes : (ℕ → Option DiffStats) → List Entry → ℕ
stored_bytes diffs [] = 0
stored_bytes diffs (e ∷ es) = stored_size (diffs e.place) + stored_bytes diffs es

-- A record that got a delta that is not empty.
abbrev pub IsFilled : (ℕ → Option DiffStats) → Entry → Type 0
IsFilled diffs e = (d : DiffStats) × (diffs e.place ≡ some d) × (0 < d.diff_size)

-- The sums of the files and the deltas, modulo 2 ^ 64.
abbrev pub IsSum : Sums → ℕ → ℕ → Type 0
IsSum s files deltas = (s.cmp % 2 ^ 64 ≡ files % 2 ^ 64) × (s.diff % 2 ^ 64 ≡ deltas % 2 ^ 64)

pub sum_diffed-IsSum :
    (diffs : ℕ → Option DiffStats) (s : Sums) (es : List Entry) (m n : ℕ)
    → All (IsFilled diffs) es
    → IsSum s m n
    → (s' : Sums) × (sum_diffed diffs s es ≡ some s')
      × IsSum s' (m + file_bytes es) (n + stored_bytes diffs es)
unfolding sum_diffed
sum_diffed-IsSum diffs s [] m n filled h = (s, refl, (omega (arith, h.0), omega (arith, h.1)))
sum_diffed-IsSum diffs s (e ∷ es) m n (filled, rest) h =
    let d = filled.0 in
    let here = filled.1 in
    let some_size : d.diff_size == 0 ≡ false = ground (arith, filled.2) in
    let next =
      sum_diffed-IsSum diffs (add_sums s e.asked d) es (m + e.asked.file_size) (n + d.diff_size)
        rest (omega (arith, h.0), omega (arith, h.1)) in
    let stored : stored_size (diffs e.place) ≡ d.diff_size = rw here in
    (
      next.0,
      rw (here, sum_diffed, some_size) next.1,
      (omega (arith, next.2.0), omega (arith, next.2.1, stored)),
    )
