-- ===== src/Prelude/Bits.antt =====
-- `&` and `|` on the native numbers: masks of a byte, and the union of disjoint bits.
use Prim.Native.Nat.{
  ℕ, zero, suc, ◌+◌, ◌*◌, ◌/◌, ◌%◌, ◌^◌, ◌≤◌, ◌<◌, max, bit_and, bit_or, digits, bit_or-bitwise,
}
use mathlib.Core.Path.{◌≡◌, refl, ap, ◌∙◌}
use native.Mathlib.Omega.{arith}
use native.Mathlib.Nat.{pow-suc}
use nix_sandwich.Prelude.Tests.{◌==◌, if◌then◌else◌}

-- How many of the numbers below a bound two functions tell apart.
module _ (f g : ℕ → ℕ) where
  differences : ℕ → ℕ
  differences zero = 0
  differences (suc n) = differences n + (if f n == g n then 0 else 1)

  same_of_no_differences : (n : ℕ) → differences n ≡ 0 → (x : ℕ) → x < n → f x ≡ g x
  unfolding differences
  same_of_no_differences zero h x lt = absurd (omega arith)
  same_of_no_differences (suc n) h x lt = ground (arith, same_of_no_differences n (ground arith) x)

-- The low seven bits of a byte.
pub low_seven : (x : ℕ) → x < 256 → bit_and x 0x7f ≡ x % 128
unfolding differences
low_seven x h = same_of_no_differences (λ b. bit_and b 0x7f) (λ b. b % 128) 256 refl x h

-- The top bit of a byte.
pub top_bit : (x : ℕ) → x < 256 → bit_and x 0x80 ≡ x / 128 * 128
unfolding differences
top_bit x h = same_of_no_differences (λ b. bit_and b 0x80) (λ b. b / 128 * 128) 256 refl x h

pub pow-double : (s : ℕ) → 2 ^ suc s ≡ 2 * 2 ^ s
pow-double s = omega (arith, pow-suc 2 s)

shift_double : (g s : ℕ) → g * 2 ^ suc s ≡ 2 * (g * 2 ^ s)
shift_double g s = omega (arith, ap (λ (t : ℕ). g * t) (pow-double s))

-- The recursion on digits adds the higher bits, from any count of digits that is enough.
digits-disjoint :
    (fuel a s g : ℕ) → a ≤ fuel → a < 2 ^ s → digits (λ y. y) max fuel a (g * 2 ^ s) ≡ a + g * 2 ^ s
digits-disjoint zero zero s g enough small = omega arith
digits-disjoint zero (suc a) s g enough small = absurd (omega arith)
digits-disjoint (suc fuel) zero s g enough small = omega arith
digits-disjoint (suc fuel) (suc a) zero g enough small = absurd (omega arith)
digits-disjoint (suc fuel) (suc a) (suc s) g enough small =
    let m = g * 2 ^ s in
    let half : 2 * m / 2 ≡ m = omega arith in
    let even : 2 * m % 2 ≡ 0 = omega arith in
    let rest = digits-disjoint fuel (suc a / 2) s g (omega arith) (omega (arith, pow-double s)) in
    rw (shift_double g s, half, even, rest) (omega arith)

-- Bits at position `s` and above are added to a number below `2 ^ s`.
pub bit_or_disjoint : (s n g : ℕ) → n < 2 ^ s → bit_or n (g * 2 ^ s) ≡ n + g * 2 ^ s
bit_or_disjoint s n g h = bit_or-bitwise n (g * 2 ^ s) ∙ digits-disjoint n n s g (omega arith) h
