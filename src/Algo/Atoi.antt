-- ===== src/Algo/Atoi.antt =====
-- `strconv.Atoi` for a 64-bit int, and the numbers it answers.
use nix_sandwich.Prelude.{
  ℕ, zero, suc, ◌+◌, ◌-◌, ◌/◌, ◌%◌, ◌^◌, ◌≤◌, ◌<◌, ◌≡◌, refl, arith, Bool, true, ◌&&◌, Option, none,
  some, [], ◌∷◌, Bytes, length, &&-true, leb, ◌==◌, if◌then◌else◌,
}
use nix_sandwich.Prelude.Decimal.{digits, itoa, value, value-itoa}

-- `negsuc n` is -(n + 1).
pub data ℤ : Type 0 where
  pos negsuc : ℕ → ℤ

abbrev pub is_digit : ℕ → Bool
is_digit c = leb b'0' c && leb c b'9'

abbrev pub all_digits : Bytes → Bool
all_digits [] = true
all_digits (c ∷ s) = is_digit c && all_digits s

-- Digits, one at least.
unfoldable pub parse_digits : Bytes → Option ℕ
parse_digits [] = none
parse_digits (c ∷ s) = if all_digits (c ∷ s) then some (value 0 (c ∷ s)) else none

abbrev pub at_most : ℕ → Option ℕ → Option ℕ
at_most bound none = none
at_most bound (some n) = if leb n bound then some n else none

abbrev pub positive : Option ℕ → Option ℤ
positive none = none
positive (some n) = some (pos n)

abbrev pub negative : Option ℕ → Option ℤ
negative none = none
negative (some zero) = some (pos 0)
negative (some (suc n)) = some (negsuc n)

unfoldable pub atoi : Bytes → Option ℤ
unfolding parse_digits
atoi [] = none
atoi (c ∷ s) =
    if c == b'-'
    then negative (at_most (2 ^ 63) (parse_digits s))
    else if c == b'+'
    then positive (at_most (2 ^ 63 - 1) (parse_digits s))
    else positive (at_most (2 ^ 63 - 1) (parse_digits (c ∷ s)))

-- What is printed are digits.
all_digits-digits :
    (fuel n : ℕ) (out : Bytes) → all_digits out ≡ true → all_digits (digits fuel n out) ≡ true
unfolding digits
all_digits-digits zero n out h = h
all_digits-digits (suc fuel) n out h =
    let here : all_digits ((b'0' + n % 10) ∷ out) ≡ true = ground arith in
    let more = all_digits-digits fuel (n / 10) ((b'0' + n % 10) ∷ out) here in ground arith

-- Of digits, the first is neither a sign nor missing.
atoi_digits :
    (s : Bytes) (n : ℕ)
    → all_digits s ≡ true
    → value 0 s ≡ n
    → n < 2 ^ 63
    → 0 < length s
    → atoi s ≡ some (pos n)
unfolding atoi parse_digits
atoi_digits [] n h e small some_here = absurd (omega arith)
atoi_digits (c ∷ s) n h e small some_here =
    let (first, others) = &&-true (is_digit c) (all_digits s) h in ground arith

length-digits : (fuel n : ℕ) (out : Bytes) → length out ≤ length (digits fuel n out)
unfolding digits
length-digits zero n out = omega arith
length-digits (suc fuel) n out = ground (arith, length-digits fuel (n / 10) ((b'0' + n % 10) ∷ out))

length-itoa : (n : ℕ) → 0 < length (itoa n)
unfolding itoa digits
length-itoa n = ground (arith, length-digits n (n / 10) ((b'0' + n % 10) ∷ []))

all_digits-itoa : (n : ℕ) → all_digits (itoa n) ≡ true
unfolding itoa
all_digits-itoa n = all_digits-digits (suc n) n [] refl

-- A number of 63 bits that is printed is read back.
pub atoi-itoa : (n : ℕ) → n < 2 ^ 63 → atoi (itoa n) ≡ some (pos n)
atoi-itoa n h = atoi_digits (itoa n) n (all_digits-itoa n) (value-itoa n) h (length-itoa n)
