-- ===== src/Samples/Servers.antt =====
-- A concrete world for differ.go and subst.go: a cache of two nars, delta tools that send the whole
-- file, JSON as a list of numbers, and names of files that are longer than all others.
use nix_sandwich.Prelude.{
  ◌∙◌, sym, Bool, false, ℕ, zero, suc, ◌+◌, ◌≡◌, ◌<◌, refl, ap, arith, true, Bool-cases, inl, inr,
  Option, none, some, List, [], ◌∷◌, ◌++◌, Bytes, codes, length, length-append, bytes_eq,
  bytes_eq→eq,
}
use nix_sandwich.External.System.{Files, read_file, TempNames, Run, DeltaTools}
use nix_sandwich.Algo.Atoi.{ℤ, pos, negsuc}
use nix_sandwich.Algo.Pick.{xd3_algo, zst_algo}
use nix_sandwich.Algo.Stats.{DiffStats}
use nix_sandwich.Algo.Delta.{create_args, create_error, expand_error}
use nix_sandwich.Differ.Wire.{Trailer, Wire, IsAscii}
use nix_sandwich.Transfer.Setting.{Restores}

-- All names, and an x.
abbrev pub long_name : Files → Bytes
long_name [] = codes "x"
long_name ((k, content) ∷ fs) = k ++ long_name fs

long_name_pos : (fs : Files) → 0 < length (long_name fs)
long_name_pos [] = omega arith
long_name_pos ((k, content) ∷ fs) = omega (arith, length-append k (long_name fs), long_name_pos fs)

read_file-long :
    (fs : Files) (name : Bytes) → length (long_name fs) < 1 + length name → read_file fs name ≡ none
read_file-long [] name h = refl
read_file-long ((k, content) ∷ fs) name h = elim (Bool-cases (bytes_eq k name)) [
  | inl same ↦ absurd (
      omega (
        arith,
        length-append k (long_name fs),
        ap (λ (s : Bytes). length s) (bytes_eq→eq k name same),
        long_name_pos fs,
      ))
  | inr other ↦ rw other (read_file-long fs name (omega (arith, length-append k (long_name fs))))
]

pub long_name_fresh :
    (fs : Files) (name : Bytes)
    → ◌≡◌ {A = Option Bytes} (some (long_name fs)) (some name)
    → read_file fs name ≡ none
long_name_fresh fs name e =
    let same : long_name fs ≡ name = cc in
    read_file-long fs name (omega (arith, ap (λ (s : Bytes). length s) same))

pub long_name_named : (fs : Files) → ¬ (◌≡◌ {A = Option Bytes} (some (long_name fs)) (some []))
long_name_named fs e =
    let same : long_name fs ≡ [] = cc in
    omega (arith, ap (λ (s : Bytes). length s) same, long_name_pos fs)

abbrev pub long_names : TempNames
long_names = record {
  temp_name = λ fs. some (long_name fs);
  temp_name_fresh = long_name_fresh;
  temp_name_some = long_name_named;
}

abbrev good_run : Bytes → Run
good_run output = record {
  starts = true;
  output = output;
  succeeds = true;
  stderr_copied = true;
  total_ms = 3;
  user_ms = 2;
  sys_ms = 1;
}

abbrev last_of : List Bytes → Bytes
last_of [] = []
last_of (x ∷ []) = x
last_of (x ∷ y ∷ xs) = last_of (y ∷ xs)

abbrev content_of : Option Bytes → Bytes
content_of none = []
content_of (some content) = content

abbrev pub whole_file_tools : DeltaTools
whole_file_tools = record {
  encode = λ args fs. good_run (content_of (read_file fs (last_of args)));
  decode = λ args base delta. good_run delta;
}

pub whole_file_tools-Restores : Restores whole_file_tools whole_file_tools
unfolding create_args create_error expand_error
whole_file_tools-Restores (xd3_algo level) fs base request temp base_nar nar h k e = (refl, rw k)
whole_file_tools-Restores (zst_algo level) fs base request temp base_nar nar h k e = (refl, rw k)

abbrev sign_code : ℤ → ℕ
sign_code (pos n) = 0
sign_code (negsuc n) = 1

abbrev size_code : ℤ → ℕ
size_code (pos n) = n
size_code (negsuc n) = n

abbrev int_of : ℕ → ℕ → ℤ
int_of sign n = elim sign [ zero ↦ pos n | suc k ↦ negsuc n ]

abbrev flag_code : Bool → ℕ
flag_code true = 1
flag_code false = 0

abbrev flag_of : ℕ → Bool
flag_of zero = false
flag_of (suc n) = true

flag_of-code : (b : Bool) → flag_of (flag_code b) ≡ b
flag_of-code true = refl
flag_of-code false = refl

abbrev encode_stats : Option DiffStats → Bytes
encode_stats none = []
encode_stats (some d) =
    d.base_size
    ∷ d.diff_size
    ∷ d.nar_size
    ∷ sign_code d.level
    ∷ size_code d.level
    ∷ d.cmp_total_ms
    ∷ d.exp_total_ms
    ∷ d.cmp_user_ms
    ∷ d.cmp_sys_ms
    ∷ d.exp_user_ms
    ∷ d.exp_sys_ms
    ∷ d.algo

abbrev decode_stats : Bytes → Option DiffStats
decode_stats (a ∷ b ∷ c ∷ s ∷ n ∷ d ∷ e ∷ f ∷ g ∷ h ∷ i ∷ algo) = some (record {
  base_size = a;
  diff_size = b;
  nar_size = c;
  algo = algo;
  level = int_of s n;
  cmp_total_ms = d;
  exp_total_ms = e;
  cmp_user_ms = f;
  cmp_sys_ms = g;
  exp_user_ms = h;
  exp_sys_ms = i;
})
decode_stats _ = none

-- The text of an error is dropped.
abbrev pub encode_flagged : Trailer → Bytes
encode_flagged t = flag_code t.is_ok ∷ encode_stats t.stats

abbrev pub decode_flagged : Bytes → Option Trailer
decode_flagged [] = none
decode_flagged (flag ∷ stats) =
    some (record { is_ok = flag_of flag; stats = decode_stats stats; error = [] })

int_of-codes : (level : ℤ) → int_of (sign_code level) (size_code level) ≡ level
int_of-codes (pos n) = refl
int_of-codes (negsuc n) = refl

pub decode_flagged-encode_flagged :
    (d : DiffStats)
    → IsAscii d.algo
    → decode_flagged (encode_flagged (record { is_ok = true; stats = some d; error = [] }))
      ≡ some (record { is_ok = true; stats = some d; error = [] })
decode_flagged-encode_flagged d h = simp (int_of-codes)

pub decode_flagged-is_ok :
    (t u : Trailer) → decode_flagged (encode_flagged t) ≡ some u → u.is_ok ≡ t.is_ok
decode_flagged-is_ok t u h =
    let same : record {
      is_ok = flag_of (flag_code t.is_ok);
      stats = decode_stats (encode_stats t.stats);
      error = [];
    }
        ≡ u =
      cc in
    sym (ap (λ (v : Trailer). v.is_ok) same) ∙ flag_of-code t.is_ok

pub plain_header : (algo : Bytes) → IsAscii algo → ◌≡◌ {A = Option Bytes} (some algo) (some algo)
plain_header algo h = refl

abbrev pub number_wire : Wire
number_wire = record {
  encode_header = λ algo. algo;
  decode_header = λ json. some json;
  encode_trailer = encode_flagged;
  decode_trailer = decode_flagged;
  decode_header-encode_header = plain_header;
  decode_trailer-encode_trailer = decode_flagged-encode_flagged;
  decode_trailer-is_ok = decode_flagged-is_ok;
}
