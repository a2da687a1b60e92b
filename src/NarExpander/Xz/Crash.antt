-- ===== src/NarExpander/Xz/Crash.antt =====
-- A footer that makes `parseXz` panic: its backward size wraps to an index of no bytes.
use nix_sandwich.Prelude.{
  ℕ, ◌+◌, ◌-◌, ◌*◌, ◌%◌, ◌^◌, ◌≤◌, ◌≡◌, arith, true, List, [], ◌∷◌, Bytes, length, drop, bytes_eq,
  le→ltb, ok, panic,
}
use nix_sandwich.NarExpander.Xz.{
  slice, le_uint32, parse_header, parse_footer, parse_index, parse_xz,
}

-- The last bytes of a file are those of a footer.
abbrev pub HasFooter : Bytes → Type 0
HasFooter buf =
    (bytes_eq (drop (length buf - 2) buf) (b'Y' ∷ b'Z' ∷ []) ≡ true)
    × (bytes_eq (slice buf (length buf - 4) (length buf - 2)) (slice buf 6 8) ≡ true)

-- `backward_size` of the footer
abbrev pub backward_size : Bytes → ℕ
backward_size buf = le_uint32 (slice buf (length buf - 8) (length buf - 4))

wraps : (n : ℕ) → (n + 1) % 2 ^ 30 ≡ 0 → (n + 1) % 2 ^ 32 * 4 % 2 ^ 32 ≡ 0
wraps n h = omega arith

parse_footer-wraps :
    (buf : Bytes)
    → 24 ≤ length buf
    → HasFooter buf
    → (backward_size buf + 1) % 2 ^ 30 ≡ 0
    → parse_footer buf ≡ panic
unfolding parse_footer parse_index
parse_footer-wraps buf long (tail, flags) h =
    let none_left : length buf - 12 - (length buf - 12 - 0) ≡ 0 = omega arith in
    rw (wraps (backward_size buf) h, tail, flags, le→ltb (length buf) 24 long, none_left)

-- A file whose header is understood, with a footer whose backward size is one less than a multiple of
-- 2 ^ 30, makes `parseXz` panic.
pub parse_xz-wraps :
    (buf : Bytes) (options : List Bytes)
    → parse_header buf ≡ ok options
    → 24 ≤ length buf
    → HasFooter buf
    → (backward_size buf + 1) % 2 ^ 30 ≡ 0
    → parse_xz buf ≡ panic
unfolding parse_xz
parse_xz-wraps buf options e long footer h = rw (e, parse_footer-wraps buf long footer h)
