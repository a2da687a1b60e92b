-- ===== src/NarExpander/Varint/RoundTrip.antt =====
-- `read_varint` reads back what the xz format writes.
use Prim.Native.Nat.{bit_and}
use native.Mathlib.Nat.{div-add-mod, mod-eq_of_lt, pow-suc}
use nix_sandwich.Prelude.{
  ℕ, zero, suc, ◌+◌, ◌*◌, ◌/◌, ◌%◌, ◌^◌, ◌≤◌, ◌<◌, ◌≡◌, ap, some, [], ◌∷◌, ◌++◌, arith, Bytes,
  length, ltb, ltb→lt, inl, inr, Bool-cases, if◌then◌else◌,
}
use nix_sandwich.Prelude.Bits.{low_seven, top_bit, bit_or_disjoint, pow-double}
use nix_sandwich.NarExpander.Varint.{two_64, add_group, read_varint_loop, read_varint}

-- The encoding of the xz format (section 1.2): groups of seven bits, the lowest first, with the top
-- bit set on all but the last. `k` more groups are allowed.
unfoldable pub encode : ℕ → ℕ → Bytes
encode zero v = v ∷ []
encode (suc k) v =
    let rest = encode k (v / 128) in if ltb v 128 then v ∷ [] else (v % 128 + 128) ∷ rest

-- A number that a multibyte integer can hold: 63 bits, in nine bytes.
abbrev pub encode_xz : ℕ → Bytes
encode_xz v = encode 8 v

next_place : (l : ℕ) → 2 ^ (suc l * 7) ≡ 128 * 2 ^ (l * 7)
next_place l =
    let s = l * 7 in
    let e : suc l * 7 ≡ suc (suc (suc (suc (suc (suc (suc s)))))) = omega arith in
    rw e (
      omega (
        arith,
        pow-double s,
        pow-double (suc s),
        pow-double (suc (suc s)),
        pow-double (suc (suc (suc s))),
        pow-double (suc (suc (suc (suc s)))),
        pow-double (suc (suc (suc (suc (suc s))))),
        pow-double (suc (suc (suc (suc (suc (suc s)))))),
      ))

-- A group that fits 64 bits in its place is added.
add_group_fits :
    (n b l : ℕ)
    → b < 256
    → n < 2 ^ (l * 7)
    → b % 128 * 2 ^ (l * 7) < two_64
    → add_group n b l ≡ n + b % 128 * 2 ^ (l * 7)
add_group_fits n b l hb hn fits =
    rw (low_seven b hb, mod-eq_of_lt fits) (bit_or_disjoint (l * 7) n (b % 128) hn)

-- A last byte ends the loop, and a byte with the top bit set goes on to the next place.
loop_last :
    (b n l : ℕ) (rest : Bytes)
    → b < 128
    → read_varint_loop (b ∷ rest) n l ≡ some (add_group n b l, suc l)
unfolding read_varint_loop
loop_last b n l rest h =
    let low : bit_and b 0x80 ≡ 0 = omega (arith, top_bit b (omega arith)) in rw low

loop_inner :
    (b n l : ℕ) (rest : Bytes)
    → 128 ≤ b
    → b < 256
    → read_varint_loop (b ∷ rest) n l ≡ read_varint_loop rest (add_group n b l) (suc l)
unfolding read_varint_loop
loop_inner b n l rest h k = let high : bit_and b 0x80 ≡ 128 = omega (arith, top_bit b k) in rw high

-- The value of a number at a place, split into its lowest group and the others.
split_group : (v l : ℕ) → v * 2 ^ (l * 7) ≡ v % 128 * 2 ^ (l * 7) + v / 128 * 2 ^ (suc l * 7)
split_group v l = omega (
  arith,
  ap (λ (t : ℕ). t * 2 ^ (l * 7)) (div-add-mod v 128),
  ap (λ (t : ℕ). v / 128 * t) (next_place l),
)

below_place : (n g p : ℕ) → n < p → g < 128 → n + g * p < 128 * p
below_place n g p h k = grind arith

last_group :
    (v n l : ℕ) (rest : Bytes)
    → v < 128
    → n < 2 ^ (l * 7)
    → v * 2 ^ (l * 7) < two_64
    → read_varint_loop (v ∷ rest) n l ≡ some (n + v * 2 ^ (l * 7), l + 1)
last_group v n l rest h hn fits =
    let low : v % 128 ≡ v = omega arith in
    let added = rw low at (add_group_fits n v l (omega arith) hn (rw low fits)) in
    rw (loop_last v n l rest h, added) (ground arith)

inner_group :
    (v n l : ℕ) (rest : Bytes)
    → n < 2 ^ (l * 7)
    → v * 2 ^ (l * 7) < two_64
    → read_varint_loop ((v % 128 + 128) ∷ rest) n l
      ≡ read_varint_loop rest (n + v % 128 * 2 ^ (l * 7)) (suc l)
inner_group v n l rest hn fits =
    let b = v % 128 + 128 in
    let low : b % 128 ≡ v % 128 = omega arith in
    let fits' : b % 128 * 2 ^ (l * 7) < two_64 = rw low (omega (arith, split_group v l)) in
    let added = rw low at (add_group_fits n b l (omega arith) hn fits') in
    rw (loop_inner b n l rest (omega arith) (omega arith), added)

read_varint_loop-encode :
    (k v n l : ℕ) (rest : Bytes)
    → v < 128 ^ suc k
    → n < 2 ^ (l * 7)
    → v * 2 ^ (l * 7) < two_64
    → read_varint_loop (encode k v ++ rest) n l
      ≡ some (n + v * 2 ^ (l * 7), l + length (encode k v))
unfolding encode
read_varint_loop-encode zero v n l rest hv hn fits = last_group v n l rest (omega arith) hn fits
read_varint_loop-encode (suc k) v n l rest hv hn fits = elim (Bool-cases (ltb v 128)) [
  | inl small ↦ rw small (last_group v n l rest (ltb→lt v 128 small) hn fits)
  | inr large ↦
      let n' = n + v % 128 * 2 ^ (l * 7) in
      let next : n' < 2 ^ (suc l * 7) =
        omega (arith, next_place l, below_place n (v % 128) (2 ^ (l * 7)) hn (omega arith)) in
      let ih =
        read_varint_loop-encode k (v / 128) n' (suc l) rest (omega (arith, pow-suc 128 (suc k)))
          next (omega (arith, split_group v l)) in
      rw (large, inner_group v n l (encode k (v / 128) ++ rest) hn fits, ih)
        (ground (arith, split_group v l))
]

-- A number of 63 bits that is written as a multibyte integer of the xz format is read back, with its
-- length, whatever follows it.
pub read_varint-encode :
    (v : ℕ) (rest : Bytes)
    → v < 2 ^ 63
    → read_varint (encode_xz v ++ rest) ≡ some (v, length (encode_xz v))
unfolding read_varint
read_varint-encode v rest h =
    rw (read_varint_loop-encode 8 v 0 0 rest (omega arith) (omega arith) (omega arith))
      (ground arith)

-- It takes nine bytes at most.
pub length-encode : (k v : ℕ) → (1 ≤ length (encode k v)) × (length (encode k v) ≤ suc k)
unfolding encode
length-encode zero v = omega arith
length-encode (suc k) v = ground (arith, length-encode k (v / 128))
