-- ===== src/Catalog/Patterns.antt =====
-- The regular expressions of catalog.go and syschecker.go, and `matchAny`. An expression is a
-- sequence of pieces that has to match a whole text; the one that is not anchored at its start
-- begins with a run of any bytes.
pub mod Match
use nix_sandwich.Prelude.{
  ℕ, ◌≡◌, refl, ◌↔◌, ◌≢◌, ◌⊎◌, inl, inr, Bool, true, false, not, ◌&&◌, ◌||◌, List, [], ◌∷◌, ◌++◌,
  arith, Bytes, codes, bytes_eq, has_prefix, drop, All, leb, ◌==◌, Bool-cases, append_assoc,
}

pub data Piece : Type 0 where
  lit : Bytes → Piece
  plus : (ℕ → Bool) → Piece
  run : (ℕ → Bool) → Piece
  one_of : List Bytes → Piece

abbrev pub Pattern : Type 0
Pattern = List Piece

-- `[\d.-]`, `[\d.]` and `.`
abbrev pub is_version : ℕ → Bool
is_version c = (leb b'0' c && leb c b'9') || c == b'.' || c == b'-'

abbrev pub is_dotted : ℕ → Bool
is_dotted c = (leb b'0' c && leb c b'9') || c == b'.'

abbrev pub is_dot : ℕ → Bool
is_dot c = not (c == 10)

abbrev pub is_byte : ℕ → Bool
is_byte c = true

-- The rest of the match is `k`; a run takes as many bytes as `k` allows.
match_run : (ℕ → Bool) → (Bytes → Bool) → Bytes → Bool
match_run f k [] = k []
match_run f k (c ∷ s) = k (c ∷ s) || (f c && match_run f k s)

match_plus : (ℕ → Bool) → (Bytes → Bool) → Bytes → Bool
match_plus f k [] = false
match_plus f k (c ∷ s) = f c && match_run f k s

match_lit : Bytes → (Bytes → Bool) → Bytes → Bool
match_lit [] k s = k s
match_lit (p ∷ ps) k [] = false
match_lit (p ∷ ps) k (c ∷ s) = c == p && match_lit ps k s

match_one_of : List Bytes → (Bytes → Bool) → Bytes → Bool
match_one_of [] k s = false
match_one_of (a ∷ alts) k s = match_lit a k s || match_one_of alts k s

is_end : Bytes → Bool
is_end [] = true
is_end (c ∷ s) = false

match_piece : Piece → (Bytes → Bool) → Bytes → Bool
unfolding match_lit match_plus match_run match_one_of
match_piece (lit p) k s = match_lit p k s
match_piece (plus f) k s = match_plus f k s
match_piece (run f) k s = match_run f k s
match_piece (one_of alts) k s = match_one_of alts k s

unfoldable pub match_string : Pattern → Bytes → Bool
unfolding match_piece is_end
match_string [] s = is_end s
match_string (p ∷ ps) s = match_piece p (match_string ps) s

-- `matchAny` of a list of expressions.
unfoldable pub match_any : List Pattern → Bytes → Bool
unfolding match_string
match_any [] s = false
match_any (re ∷ l) s = match_string re s || match_any l s

-- Packages that contain compressed files.
abbrev pub use_expand_nar_res : List Pattern
use_expand_nar_res =
    (lit (codes "linux-") ∷ plus is_version ∷ [])
    ∷ (lit (codes "alsa-firmware-") ∷ plus is_version ∷ lit (codes "-xz") ∷ [])
    ∷ (lit (codes "libreelec-dvb-firmware-") ∷ plus is_version ∷ lit (codes "-xz") ∷ [])
    ∷ (lit (codes "rtl8192su-unstable-") ∷ plus is_version ∷ lit (codes "-xz") ∷ [])
    ∷ (lit (codes "rt5677-firmware-xz") ∷ [])
    ∷ (lit (codes "intel2200BGFirmware-") ∷ plus is_version ∷ lit (codes "-xz") ∷ [])
    ∷ (lit (codes "rtw88-firmware-unstable-") ∷ plus is_version ∷ lit (codes "-xz") ∷ [])
    ∷ (lit (codes "linux-firmware-") ∷ plus is_version ∷ lit (codes "-xz") ∷ [])
    ∷ (lit (codes "wireless-regdb-") ∷ plus is_version ∷ lit (codes "-xz") ∷ [])
    ∷ (lit (codes "sof-firmware-") ∷ plus is_version ∷ lit (codes "-xz") ∷ [])
    ∷ (lit (codes "zd1211-firmware-") ∷ plus is_version ∷ lit (codes "-xz") ∷ [])
    ∷ (lit (codes "v4l2loopback-unstable-") ∷ plus is_version ∷ [])
    ∷ (run is_dot ∷ lit (codes "-") ∷ run is_dot ∷ lit (codes "-man") ∷ [])
    ∷ []

-- Compressed single files.
abbrev pub skip_res : List Pattern
skip_res =
    (run is_byte
      ∷ lit (codes ".")
      ∷ one_of (codes "drv" ∷ codes "lock" ∷ codes "bz2" ∷ codes "gz" ∷ codes "xz" ∷ [])
      ∷ [])
    ∷ []

-- What a piece accepts, and what it means for a text to match, with no search in it.
abbrev pub OneOf : List Bytes → Bytes → Type 0
OneOf [] v = ⊥
OneOf (a ∷ alts) v = (v ≡ a) ⊎ OneOf alts v

abbrev pub Accepts : Piece → Bytes → Type 0
Accepts (lit p) v = v ≡ p
Accepts (plus f) v = (v ≢ []) × All (λ c. f c ≡ true) v
Accepts (run f) v = All (λ c. f c ≡ true) v
Accepts (one_of alts) v = OneOf alts v

-- A text matches if it splits into one part for each piece.
abbrev pub Matches : Pattern → Bytes → Type 0
Matches [] s = s ≡ []
Matches (p ∷ ps) s = (v : Bytes) × (t : Bytes) × (s ≡ v ++ t) × Accepts p v × Matches ps t

abbrev pub MatchesAny : List Pattern → Bytes → Type 0
MatchesAny [] s = ⊥
MatchesAny (re ∷ l) s = Matches re s ⊎ MatchesAny l s
