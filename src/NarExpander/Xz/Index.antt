-- ===== src/NarExpander/Xz/Index.antt =====
-- The index at the end of an xz file, written and read.
use nix_sandwich.Prelude.{
  ℕ, ◌+◌, ◌%◌, ◌^◌, ◌<◌, ◌≡◌, refl, sym, ap, ◌∙◌, arith, some, List, [], ◌∷◌, ◌++◌, append_assoc,
  Bytes, length, length-append, drop-append_length, slice_from, lt→ltb, le→ltb, All, ok,
}
use nix_sandwich.NarExpander.Varint.{two_64}
use nix_sandwich.NarExpander.Varint.RoundTrip.{encode_xz, read_varint-encode}
use nix_sandwich.NarExpander.Xz.{varint_at, records_loop, parse_index}

-- A record: the unpadded size of a block and the size of its content.
abbrev pub print_record : ℕ × ℕ → Bytes
print_record (unpadded, size) = encode_xz unpadded ++ encode_xz size

abbrev pub print_records : List (ℕ × ℕ) → Bytes
print_records [] = []
print_records (r ∷ rs) = print_record r ++ print_records rs

abbrev pub print_index : List (ℕ × ℕ) → Bytes
print_index rs = 0 ∷ (encode_xz (length rs) ++ print_records rs)

abbrev pub total_size : List (ℕ × ℕ) → ℕ
total_size [] = 0
total_size ((unpadded, size) ∷ rs) = size + total_size rs

abbrev pub IsRecord : ℕ × ℕ → Type 0
IsRecord (unpadded, size) = (unpadded < 2 ^ 63) × (size < 2 ^ 63)

slice_from-append : (pre rest : Bytes) → slice_from (length pre) (pre ++ rest) ≡ some rest
unfolding slice_from
slice_from-append pre rest =
    rw (le→ltb (length (pre ++ rest)) (length pre) (omega (arith, length-append pre rest)))
      (ap some (drop-append_length pre rest))

-- A number that stands at an index, whatever is before and behind it.
pub varint_at_lem :
    (buf pre rest : Bytes) (i v : ℕ)
    → v < 2 ^ 63
    → buf ≡ pre ++ (encode_xz v ++ rest)
    → i ≡ length pre
    → varint_at buf i ≡ ok (v, length (encode_xz v))
unfolding varint_at
varint_at_lem buf pre rest i v h e at_i =
    rw
      (e, at_i, varint_at, slice_from-append pre (encode_xz v ++ rest), read_varint-encode v rest h)

at_i_next : (pre u : Bytes) (i : ℕ) → i ≡ length pre → i + length u ≡ length (pre ++ u)
at_i_next pre u i h = omega (arith, length-append pre u)

-- The loop over the records that stand behind `pre`.
records_loop-print :
    (rs : List (ℕ × ℕ)) (buf pre rest : Bytes) (i total : ℕ)
    → All IsRecord rs
    → buf ≡ pre ++ (print_records rs ++ rest)
    → i ≡ length pre
    → total < two_64
    → records_loop buf (length rs) i total ≡ ok ((total + total_size rs) % two_64)
unfolding records_loop
records_loop-print [] buf pre rest i total _ e at_i small = ap ok (omega arith)
records_loop-print ((unpadded, size) ∷ rs) buf pre rest i total ((hu, hs), hr) e at_i small =
    let u = encode_xz unpadded in
    let s = encode_xz size in
    let more = print_records rs ++ rest in
    let e1 : buf ≡ pre ++ (u ++ (s ++ more)) =
      e
      ∙ ap (λ l. pre ++ l)
          (append_assoc (u ++ s) (print_records rs) rest ∙ append_assoc u s more) in
    let e2 : buf ≡ (pre ++ u) ++ (s ++ more) = e1 ∙ sym (append_assoc pre u (s ++ more)) in
    let e3 : buf ≡ ((pre ++ u) ++ s) ++ more = e2 ∙ sym (append_assoc (pre ++ u) s more) in
    let at2 : i + length u ≡ length (pre ++ u) = at_i_next pre u i at_i in
    let at3 : i + length u + length s ≡ length ((pre ++ u) ++ s) =
      at_i_next (pre ++ u) s (i + length u) at2 in
    let first = varint_at_lem buf pre (s ++ more) i unpadded hu e1 at_i in
    let second = varint_at_lem buf (pre ++ u) more (i + length u) size hs e2 at2 in
    let ih =
      records_loop-print rs buf ((pre ++ u) ++ s) rest (i + length u + length s)
        ((total + size) % two_64) hr e3 at3 (omega arith) in
    rw (first, second, ih) (ap ok (omega arith))

-- The index that is written for records gives the sum of their sizes, modulo 2 ^ 64, whatever pads it.
pub parse_index-print_index :
    (rs : List (ℕ × ℕ)) (rest : Bytes)
    → All IsRecord rs
    → length rs < 2 ^ 63
    → parse_index (print_index rs ++ rest) ≡ ok (total_size rs % two_64)
unfolding parse_index
parse_index-print_index rs rest h few =
    let n = encode_xz (length rs) in
    let buf = print_index rs ++ rest in
    let e1 : buf ≡ (0 ∷ []) ++ (n ++ (print_records rs ++ rest)) =
      ap (λ l. 0 ∷ l) (append_assoc n (print_records rs) rest) in
    let count = varint_at_lem buf (0 ∷ []) (print_records rs ++ rest) 1 (length rs) few e1 refl in
    let loop =
      records_loop-print rs buf (0 ∷ n) rest (1 + length n) 0 h
        (ap (λ l. 0 ∷ l) (append_assoc n (print_records rs) rest)) (omega arith) (omega arith) in
    rw (count, lt→ltb (length rs) (2 ^ 63) few, loop) (ap ok (omega arith))
