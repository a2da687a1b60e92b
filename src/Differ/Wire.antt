-- ===== src/Differ/Wire.antt =====
-- What differ.go and subst.go send one another: the parts of a multipart answer, and the JSON in them.
use nix_sandwich.Prelude.{◌≡◌, Bool, true, Option, some, [], ◌<◌, All, Bytes, codes}
use nix_sandwich.Algo.Stats.{DiffStats}

-- `differTrailer`
pub record Trailer : Type 0 where
  pub is_ok : Bool
  pub stats : Option DiffStats
  pub error : Bytes

-- A part by its form name.
pub record Part : Type 0 where
  pub name : Bytes
  pub content : Bytes

abbrev pub differ_header_name : Bytes
differ_header_name = codes "header"

abbrev pub differ_body_name : Bytes
differ_body_name = codes "body"

abbrev pub differ_trailer_name : Bytes
differ_trailer_name = codes "trailer"

abbrev pub IsAscii : Bytes → Type 0
IsAscii = All (λ c. c < 128)

-- JSON of a header, which is the name of an algorithm, and of a trailer. What is ASCII is read
-- back, and `Ok` always is.
pub record Wire : Type 0 where
  pub encode_header : Bytes → Bytes
  pub decode_header : Bytes → Option Bytes
  pub encode_trailer : Trailer → Bytes
  pub decode_trailer : Bytes → Option Trailer
  pub decode_header-encode_header :
      (algo : Bytes) → IsAscii algo → decode_header (encode_header algo) ≡ some algo
  pub decode_trailer-encode_trailer :
      (d : DiffStats)
      → IsAscii d.algo
      → decode_trailer (encode_trailer (record { is_ok = true; stats = some d; error = [] }))
        ≡ some (record { is_ok = true; stats = some d; error = [] })
  pub decode_trailer-is_ok :
      (t u : Trailer) → decode_trailer (encode_trailer t) ≡ some u → u.is_ok ≡ t.is_ok
