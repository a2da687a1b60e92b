-- ===== src/Analytics/Segments.antt =====
-- `itoaWithSegments` of analytics.go. The combining mark is its two bytes in UTF-8.
use nix_sandwich.Prelude.{◌/◌, ◌%◌, [], ◌∷◌, Bytes, length, ltb, ◌==◌, if◌then◌else◌}
use nix_sandwich.Algo.Atoi.{ℤ}
use nix_sandwich.Algo.Stats.{print_int}

-- A digit with a mark if it is in an odd group of three, counted from the right.
unfoldable pub marked : Bytes → Bytes
marked [] = []
marked (c ∷ s) =
    let rest = marked s in if (length s / 3) % 2 == 1 then c ∷ 0xcc ∷ 0xb3 ∷ rest else c ∷ rest

unfoldable pub itoa_with_segments : ℤ → Bytes
unfolding marked
itoa_with_segments v = let s = print_int v in if ltb (length s) 4 then s else marked s
