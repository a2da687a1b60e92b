-- ===== src/NarExpander/Xz.antt =====
-- `parseXz`: the options that compress a file again the way it was, and its uncompressed size, from
-- the headers of the xz format. A Go int is 64 bits wide; a negative one is a number of 2^63 or more
-- here, which is out of range of every slice, as the source's is. `panic` is an index or a slice out
-- of range.
pub mod Index
pub mod Crash
pub mod Whole
use Prim.Native.Nat.{bit_and, bit_or}
use nix_sandwich.Prelude.{
  ℕ, zero, suc, ◌+◌, ◌-◌, ◌*◌, ◌/◌, ◌%◌, ◌^◌, Bool, true, false, not, ◌&&◌, ◌||◌, List, [], ◌∷◌,
  ◌++◌, Bytes, codes, length, get_elem?, take, drop, slice_from, bytes_eq, ltb, ◌==◌, if◌then◌else◌,
  Outcome, ok, err, ◌>>=◌, must,
}
use nix_sandwich.Prelude.Decimal.{itoa}
use nix_sandwich.NarExpander.Varint.{two_64, read_varint}

pub record XzInfo : Type 0 where
  pub uncompressed_size : ℕ
  pub options : List Bytes

-- What follows "bad xz data".
pub data XzError : Type 0 where
  bad_magic unknown_check lzma2_prop_size bad_dict_size delta_prop_size : XzError
  bad_footer big_index corrupt_index : XzError

abbrev pub magic : Bytes
magic = 0xfd ∷ b'7' ∷ b'z' ∷ b'X' ∷ b'Z' ∷ 0 ∷ []

-- `buf[from:to]`, for bounds that are in range
abbrev pub slice : Bytes → ℕ → ℕ → Bytes
slice buf from to = take (to - from) (drop from buf)

-- The option of a check type.
unfoldable pub check_option : ℕ → Outcome XzError Bytes
check_option c =
    if c == 0x00
    then ok (codes "--check=none")
    else if c == 0x01
    then ok (codes "--check=crc32")
    else if c == 0x04
    then ok (codes "--check=crc64")
    else if c == 0x0a
    then ok (codes "--check=sha256")
    else err unknown_check

-- `readVarint(buf[i:])`
unfoldable pub varint_at : Bytes → ℕ → Outcome XzError (ℕ × ℕ)
varint_at buf i = do rest ← must (slice_from i buf); must (read_varint rest)

-- `tab`, for the filters 0x04 to 0x0a
unfoldable pub bcj_option : ℕ → Bytes
bcj_option filter_id =
    if filter_id == 0x04
    then codes "--x86"
    else if filter_id == 0x05
    then codes "--powerpc"
    else if filter_id == 0x06
    then codes "--ia64"
    else if filter_id == 0x07
    then codes "--arm"
    else if filter_id == 0x08
    then codes "--armthumb"
    else if filter_id == 0x09
    then codes "--sparc"
    else codes "--arm64"

unfoldable pub dict_size : ℕ → ℕ
dict_size bits = if bits == 40 then 2 ^ 32 - 1 else bit_or 2 (bit_and bits 1) * 2 ^ (bits / 2 + 11)

unfoldable pub lzma2_option : Bytes → ℕ → ℕ → Outcome XzError (List Bytes)
unfolding dict_size
lzma2_option buf prop_size i = do
  if not (prop_size == 1) then err lzma2_prop_size else (do
    b ← must (get_elem? buf i)
    let bits = bit_and b 0x3f
    if ltb 40 bits
        then err bad_dict_size
        else ok ((codes "--lzma2=dict=" ++ itoa (dict_size bits)) ∷ []))

-- `buf[i]+1` is a byte.
unfoldable pub delta_option : Bytes → ℕ → ℕ → Outcome XzError (List Bytes)
delta_option buf prop_size i =
    if not (prop_size == 1)
    then err delta_prop_size
    else (do b ← must (get_elem? buf i); ok ((codes "--delta=dist=" ++ itoa ((b + 1) % 256)) ∷ []))

-- What a filter appends to the options.
unfoldable pub filter_option : Bytes → ℕ → ℕ → ℕ → Outcome XzError (List Bytes)
unfolding lzma2_option delta_option bcj_option
filter_option buf filter_id prop_size i =
    if filter_id == 0x21
    then lzma2_option buf prop_size i
    else if ltb 0x03 filter_id && ltb filter_id 0x0b
    then ok (bcj_option filter_id ∷ [])
    else if filter_id == 0x03
    then delta_option buf prop_size i
    else ok []

-- The filter flags, of `n` filters from index `i` on.
unfoldable pub filters_loop : Bytes → ℕ → ℕ → List Bytes → Outcome XzError (List Bytes)
unfolding filter_option varint_at
filters_loop buf zero i opts = ok opts
filters_loop buf (suc n) i opts = do
  (filter_id, l) ← varint_at buf i
  (prop_size, l') ← varint_at buf (i + l)
  more ← filter_option buf filter_id prop_size (i + l + l')
  filters_loop buf n ((i + l + l' + prop_size) % two_64) (opts ++ more)

-- A size that is there or not, and is passed over.
unfoldable pub skip_size : Bytes → Bool → ℕ → Outcome XzError ℕ
unfolding varint_at
skip_size buf true i = do (size, l) ← varint_at buf i; ok (i + l)
skip_size buf false i = ok i

-- Stream header and first block header.
unfoldable pub parse_header : Bytes → Outcome XzError (List Bytes)
unfolding check_option skip_size filters_loop
parse_header buf =
    if ltb (length buf) 32 || not (bytes_eq (take 6 buf) magic) then err bad_magic else (do
      flags ← must (get_elem? buf 7)
      check ← check_option (bit_and flags 0xf)
      b_flags ← must (get_elem? buf 13)
      i ← skip_size buf (not (bit_and b_flags 0x40 == 0)) 14
      j ← skip_size buf (not (bit_and b_flags 0x80 == 0)) i
      filters_loop buf (bit_and b_flags 0x03 + 1) j (check ∷ []))

-- `binary.LittleEndian.Uint32`
unfoldable pub le_uint32 : Bytes → ℕ
le_uint32 [] = 0
le_uint32 (b ∷ bs) = b + 256 * le_uint32 bs

-- The loop over the records of the index; the sum is an int64.
unfoldable pub records_loop : Bytes → ℕ → ℕ → ℕ → Outcome XzError ℕ
unfolding varint_at
records_loop index zero i total = ok total
records_loop index (suc n) i total = do
  (unpadded, l) ← varint_at index i
  (uncompressed, l') ← varint_at index (i + l)
  records_loop index n (i + l + l') ((total + uncompressed) % two_64)

unfoldable pub parse_index : Bytes → Outcome XzError ℕ
unfolding records_loop
parse_index index = do
  first ← must (get_elem? index 0)
  if not (first == 0) then err corrupt_index else (do
    (n_rec, l) ← varint_at index 1
    records_loop index (if ltb n_rec (2 ^ 63) then n_rec else 0) (1 + l) 0)

-- Footer and index. The size of the index is a uint32.
unfoldable pub parse_footer : Bytes → Outcome XzError ℕ
unfolding parse_index le_uint32
parse_footer buf =
    let end = length buf in
    let bw_size = (le_uint32 (slice buf (end - 8) (end - 4)) + 1) % 2 ^ 32 * 4 % 2 ^ 32 in
    if not (bytes_eq (drop (end - 2) buf) (b'Y' ∷ b'Z' ∷ []))
      || not (bytes_eq (slice buf (end - 4) (end - 2)) (slice buf 6 8))
    then err bad_footer
    else if ltb end (bw_size + 24)
    then err big_index
    else parse_index (slice buf (end - 12 - bw_size) (end - 12))

unfoldable pub parse_xz : Bytes → Outcome XzError XzInfo
unfolding parse_header parse_footer
parse_xz buf = do
  options ← parse_header buf
  total ← parse_footer buf
  ok (record { uncompressed_size = total; options = options })
