-- ===== src/NarExpander/Xz/Whole.antt =====
-- An xz file whose index and footer are as they are written.
use nix_sandwich.Prelude.{
  ℕ, zero, suc, ◌+◌, ◌-◌, ◌*◌, ◌%◌, ◌^◌, ◌≤◌, ◌<◌, ◌≡◌, refl, ap, arith, List, [], ◌∷◌, ◌++◌,
  append_assoc, Bytes, length, length-append, length-drop, take, drop, take-append_length,
  drop-append_length, bytes_eq_refl, le→ltb, All, ok,
}
use nix_sandwich.NarExpander.Varint.{two_64}
use nix_sandwich.NarExpander.Xz.{
  slice, le_uint32, parse_header, parse_index, parse_footer, parse_xz,
}
use nix_sandwich.NarExpander.Xz.Index.{print_index, total_size, IsRecord, parse_index-print_index}

-- A part of a file by where it starts and how long it is.
slice-middle :
    (buf front part rest : Bytes) (i j : ℕ)
    → buf ≡ front ++ (part ++ rest)
    → i ≡ length front
    → j ≡ length front + length part
    → slice buf i j ≡ part
slice-middle buf front part rest i j e at_i at_j =
    let size : j - i ≡ length part = omega arith in
    rw (size, at_i, e, drop-append_length front (part ++ rest)) (take-append_length part rest)

-- The footer: a checksum, the backward size, the flags and the magic bytes.
abbrev pub print_footer : Bytes → Bytes → Bytes → Bytes
print_footer crc backward flags = crc ++ (backward ++ (flags ++ b'Y' ∷ b'Z' ∷ []))

-- The parts of a footer have their lengths, the flags are those of the header, and the backward size
-- is that of the index.
abbrev pub IsFooter : Bytes → Bytes → Bytes → Bytes → Bytes → Type 0
IsFooter front index crc backward flags =
    (12 ≤ length front)
    × (length crc ≡ 4)
    × (length backward ≡ 4)
    × (length flags ≡ 2)
    × (slice front 6 8 ≡ flags)
    × ((le_uint32 backward + 1) * 4 ≡ length index)
    × (length index < 2 ^ 32)

drop-append {ℓ} :
    {A : Type ℓ} (n : ℕ) (xs ys : List A) → n ≤ length xs → drop n (xs ++ ys) ≡ drop n xs ++ ys
drop-append zero xs ys h = refl
drop-append (suc n) [] ys h = absurd (omega arith)
drop-append (suc n) (x ∷ xs) ys h = drop-append n xs ys (omega arith)

take-append {ℓ} :
    {A : Type ℓ} (n : ℕ) (xs ys : List A) → n ≤ length xs → take n (xs ++ ys) ≡ take n xs
take-append zero xs ys h = refl
take-append (suc n) [] ys h = absurd (omega arith)
take-append (suc n) (x ∷ xs) ys h = ap (λ l. x ∷ l) (take-append n xs ys (omega arith))

-- The parser of the footer, for the parts that it finds.
parse_footer-parts :
    (buf index backward flags : Bytes)
    → drop (length buf - 2) buf ≡ b'Y' ∷ b'Z' ∷ []
    → slice buf (length buf - 4) (length buf - 2) ≡ flags
    → slice buf 6 8 ≡ flags
    → slice buf (length buf - 8) (length buf - 4) ≡ backward
    → (le_uint32 backward + 1) * 4 ≡ length index
    → length index < 2 ^ 32
    → length index + 24 ≤ length buf
    → slice buf (length buf - 12 - length index) (length buf - 12) ≡ index
    → parse_footer buf ≡ parse_index index
unfolding parse_footer
parse_footer-parts buf index backward flags tail flags_here flags_there back size small long here =
    let bw : (le_uint32 backward + 1) % 2 ^ 32 * 4 % 2 ^ 32 ≡ length index = omega arith in
    rw (
      tail,
      flags_here,
      flags_there,
      back,
      bytes_eq_refl flags,
      bw,
      le→ltb (length buf) (length index + 24) long,
      here,
    )

module _ (front index crc backward flags : Bytes) where
  abbrev whole : Bytes
  whole = front ++ (index ++ print_footer crc backward flags)

  length-whole :
      IsFooter front index crc backward flags → length whole ≡ length front + length index + 12
  length-whole (_, hc, hb, hf, _, _, _) = omega (
    arith,
    length-append front (index ++ print_footer crc backward flags),
    length-append index (print_footer crc backward flags),
    length-append crc (backward ++ (flags ++ b'Y' ∷ b'Z' ∷ [])),
    length-append backward (flags ++ b'Y' ∷ b'Z' ∷ []),
    length-append flags (b'Y' ∷ b'Z' ∷ []),
  )

  whole-backward : whole ≡ (front ++ (index ++ crc)) ++ (backward ++ (flags ++ b'Y' ∷ b'Z' ∷ []))
  whole-backward = simp (append_assoc)

  whole-flags : whole ≡ (front ++ (index ++ (crc ++ backward))) ++ (flags ++ b'Y' ∷ b'Z' ∷ [])
  whole-flags = simp (append_assoc)

  whole-magic : whole ≡ (front ++ (index ++ (crc ++ (backward ++ flags)))) ++ b'Y' ∷ b'Z' ∷ []
  whole-magic = simp (append_assoc)

  before_backward :
      IsFooter front index crc backward flags
      → length (front ++ (index ++ crc)) ≡ length front + length index + 4
  before_backward (_, hc, _, _, _, _, _) =
      omega (arith, length-append front (index ++ crc), length-append index crc)

  before_flags :
      IsFooter front index crc backward flags
      → length (front ++ (index ++ (crc ++ backward))) ≡ length front + length index + 8
  before_flags (_, hc, hb, _, _, _, _) = omega (
    arith,
    length-append front (index ++ (crc ++ backward)),
    length-append index (crc ++ backward),
    length-append crc backward,
  )

  before_magic :
      IsFooter front index crc backward flags
      → length (front ++ (index ++ (crc ++ (backward ++ flags)))) ≡ length front + length index + 10
  before_magic (_, hc, hb, hf, _, _, _) = omega (
    arith,
    length-append front (index ++ (crc ++ (backward ++ flags))),
    length-append index (crc ++ (backward ++ flags)),
    length-append crc (backward ++ flags),
    length-append backward flags,
  )

  magic_here :
      IsFooter front index crc backward flags → drop (length whole - 2) whole ≡ b'Y' ∷ b'Z' ∷ []
  magic_here h =
      let pre = front ++ (index ++ (crc ++ (backward ++ flags))) in
      let at : length whole - 2 ≡ length pre = omega (arith, length-whole h, before_magic h) in
      rw (at, whole-magic) (drop-append_length pre (b'Y' ∷ b'Z' ∷ []))

  backward_here :
      IsFooter front index crc backward flags
      → slice whole (length whole - 8) (length whole - 4) ≡ backward
  backward_here h =
      slice-middle whole (front ++ (index ++ crc)) backward (flags ++ b'Y' ∷ b'Z' ∷ [])
        (length whole - 8) (length whole - 4) whole-backward
        (omega (arith, length-whole h, before_backward h))
        (omega (arith, length-whole h, before_backward h, h.2))

  flags_here :
      IsFooter front index crc backward flags
      → slice whole (length whole - 4) (length whole - 2) ≡ flags
  flags_here h =
      slice-middle whole (front ++ (index ++ (crc ++ backward))) flags (b'Y' ∷ b'Z' ∷ [])
        (length whole - 4) (length whole - 2) whole-flags
        (omega (arith, length-whole h, before_flags h))
        (omega (arith, length-whole h, before_flags h, h.3))

  flags_there : IsFooter front index crc backward flags → slice whole 6 8 ≡ flags
  flags_there (long, _, _, _, there, _, _) =
      rw
        (
          drop-append 6 front (index ++ print_footer crc backward flags) (omega arith),
          take-append 2 (drop 6 front) (index ++ print_footer crc backward flags)
              (omega (arith, length-drop 6 front)),
        )
        there

  index_here :
      IsFooter front index crc backward flags
      → slice whole (length whole - 12 - length index) (length whole - 12) ≡ index
  index_here h =
      slice-middle whole front index (print_footer crc backward flags)
        (length whole - 12 - length index) (length whole - 12) refl (omega (arith, length-whole h))
        (omega (arith, length-whole h))

  parse_footer-whole :
      IsFooter front index crc backward flags → parse_footer whole ≡ parse_index index
  parse_footer-whole h =
      parse_footer-parts whole index backward flags (magic_here h) (flags_here h) (flags_there h)
        (backward_here h) h.5 h.6 (omega (arith, length-whole h, h.0)) (index_here h)

-- A file with an understood header that ends in the index of certain records (fewer than 2 ^ 63, sizes
-- below 2 ^ 63), its padding and a footer that fits, is parsed: the options are those of the header,
-- and the size is the sum of the sizes of the records, modulo 2 ^ 64.
pub parse_xz-whole :
    (front pad crc backward flags : Bytes) (rs : List (ℕ × ℕ)) (options : List Bytes)
    → parse_header (front ++ ((print_index rs ++ pad) ++ print_footer crc backward flags))
      ≡ ok options
    → IsFooter front (print_index rs ++ pad) crc backward flags
    → All IsRecord rs
    → length rs < 2 ^ 63
    → parse_xz (front ++ ((print_index rs ++ pad) ++ print_footer crc backward flags))
      ≡ ok (record { uncompressed_size = total_size rs % two_64; options = options })
unfolding parse_xz
parse_xz-whole front pad crc backward flags rs options header footer records few = rw (
  header,
  parse_footer-whole front (print_index rs ++ pad) crc backward flags footer,
  parse_index-print_index rs pad records few,
)
