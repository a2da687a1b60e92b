-- ===== src/External/Base32.antt =====
-- `EncodeToString` and `DecodeString` of go-nix/nixbase32: what is decoded is encoded to the same
-- text again.
use nix_sandwich.Prelude.{◌≡◌, Option, some, Bytes}

pub record Base32 : Type 0 where
  pub encode_string : Bytes → Bytes
  pub decode_string : Bytes → Option Bytes
  pub encode-decode : (s h : Bytes) → decode_string s ≡ some h → encode_string h ≡ s
