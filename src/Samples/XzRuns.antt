-- ===== src/Samples/XzRuns.antt =====
-- Runs of `parseXz`: a file of two blocks, and one of 36 bytes that makes it panic.
use nix_sandwich.Prelude.{
  arith, ℕ, ◌^◌, ◌≡◌, refl, List, [], ◌∷◌, ◌++◌, Bytes, codes, Outcome, ok, panic, length,
}
use nix_sandwich.NarExpander.Xz.{XzInfo, parse_header, parse_xz}
use nix_sandwich.NarExpander.Xz.Index.{print_index}
use nix_sandwich.NarExpander.Xz.Whole.{print_footer, IsFooter, parse_xz-whole}
use nix_sandwich.NarExpander.Xz.Crash.{parse_xz-wraps}

abbrev two_blocks : List (ℕ × ℕ)
two_blocks = (60, 300) ∷ (70, 5000) ∷ []

abbrev start_of_file : Bytes
start_of_file =
    0xfd ∷ b'7' ∷ b'z' ∷ b'X' ∷ b'Z' ∷ 0 ∷ 0 ∷ 4 ∷ 0 ∷ 0 ∷ 0 ∷ 0 ∷ 2 ∷ 0 ∷ 0x21 ∷ 1 ∷ 0x16 ∷ 0 ∷ 0
    ∷ 0 ∷ []

abbrev flags_of_file : Bytes
flags_of_file = 0 ∷ 4 ∷ []

abbrev small_file : Bytes
small_file =
    start_of_file
    ++ ((print_index two_blocks ++ [])
        ++ print_footer (0 ∷ 0 ∷ 0 ∷ 0 ∷ []) (1 ∷ 0 ∷ 0 ∷ 0 ∷ []) flags_of_file)

abbrev small_options : List Bytes
small_options = codes "--check=crc64" ∷ codes "--lzma2=dict=8388608" ∷ []

small_file_header : parse_header small_file ≡ ok small_options
unfolding parse_header nix_sandwich.NarExpander.Varint.RoundTrip.encode
    nix_sandwich.Prelude.slice_from nix_sandwich.NarExpander.Varint.read_varint
    nix_sandwich.Prelude.Decimal.itoa
small_file_header = refl

small_file-IsFooter :
    IsFooter start_of_file
      (print_index two_blocks ++ [])
      (0 ∷ 0 ∷ 0 ∷ 0 ∷ [])
      (1 ∷ 0 ∷ 0 ∷ 0 ∷ [])
      flags_of_file
unfolding nix_sandwich.NarExpander.Varint.RoundTrip.encode nix_sandwich.NarExpander.Xz.le_uint32
small_file-IsFooter = (omega arith, refl, refl, refl, refl, refl, omega arith)

parse_xz-whole_example :
    parse_xz small_file ≡ ok (record { uncompressed_size = 5300; options = small_options })
parse_xz-whole_example =
    parse_xz-whole start_of_file [] (0 ∷ 0 ∷ 0 ∷ 0 ∷ []) (1 ∷ 0 ∷ 0 ∷ 0 ∷ []) flags_of_file
      two_blocks small_options small_file_header small_file-IsFooter (omega arith) (omega arith)

abbrev end_of_file : Bytes
end_of_file = 0 ∷ 0 ∷ 0 ∷ 0 ∷ 0 ∷ 0 ∷ 0 ∷ 0 ∷ 0xff ∷ 0xff ∷ 0xff ∷ 0x3f ∷ 0 ∷ 4 ∷ b'Y' ∷ b'Z' ∷ []

abbrev bad_file : Bytes
bad_file = start_of_file ++ end_of_file

bad_file_header :
    parse_header bad_file ≡ ok (codes "--check=crc64" ∷ codes "--lzma2=dict=8388608" ∷ [])
unfolding parse_header nix_sandwich.Prelude.slice_from nix_sandwich.NarExpander.Varint.read_varint
    nix_sandwich.Prelude.Decimal.itoa
bad_file_header = refl

parse_xz-wraps_example : parse_xz bad_file ≡ panic
unfolding nix_sandwich.NarExpander.Xz.le_uint32
parse_xz-wraps_example =
    parse_xz-wraps bad_file (codes "--check=crc64" ∷ codes "--lzma2=dict=8388608" ∷ [])
      bad_file_header (omega arith) (refl, refl) refl
