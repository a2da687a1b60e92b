-- ===== src/NarExpander/Varint.antt =====
-- `readVarint`: the multibyte integers of the xz format.
pub mod RoundTrip
use Prim.Native.Nat.{bit_and, bit_or}
use nix_sandwich.Prelude.{
  ℕ, suc, ◌+◌, ◌*◌, ◌%◌, ◌^◌, Option, none, some, [], ◌∷◌, Bytes, ◌==◌, if◌then◌else◌,
}

abbrev pub two_64 : ℕ
two_64 = 2 ^ 64

-- `n |= uint64(b[l]&0x7f) << (l * 7)`: a shift by 64 or more leaves nothing.
abbrev pub add_group : ℕ → ℕ → ℕ → ℕ
add_group n b l = bit_or n (bit_and b 0x7f * 2 ^ (l * 7) % two_64)

-- The loop at index `l`, with the bytes from there on. `none` is the panic of an index out of range.
unfoldable pub read_varint_loop : Bytes → ℕ → ℕ → Option (ℕ × ℕ)
read_varint_loop [] n l = none
read_varint_loop (b ∷ bs) n l =
    let n' = add_group n b l in
    let more = read_varint_loop bs n' (suc l) in
    if bit_and b 0x80 == 0 then some (n', suc l) else more

-- The number and how many bytes it takes.
unfoldable pub read_varint : Bytes → Option (ℕ × ℕ)
unfolding read_varint_loop
read_varint b = read_varint_loop b 0 0
