-- ===== src/Prelude/Bits.antt =====
-- Laws of `bit_and` at variables: the lowest bit, and the test for a power of two.
use Prim.Native.Nat.{ℕ, zero, suc, ◌+◌, ◌*◌, ◌/◌, ◌%◌, ◌≤◌, min, bit_and, digits, bit_and-bitwise}
use mathlib.Core.Path.{◌≡◌, refl, ap}
use native.Mathlib.Omega.{arith}

-- The digit recursion behind `bit_and`; it may stop as soon as the first number is used up.
enough_digits :
    (k l a b : ℕ) → a ≤ k → a ≤ l → digits (λ x. zero) min k a b ≡ digits (λ x. zero) min l a b
enough_digits zero zero a b p q = refl
enough_digits zero (suc l) zero b p q = refl
enough_digits zero (suc l) (suc a) b p q = absurd (omega arith)
enough_digits (suc k) l zero b p q = only_zero l b
  where
    only_zero : (m c : ℕ) → zero ≡ digits (λ x. zero) min m zero c
    only_zero zero c = refl
    only_zero (suc m) c = refl
enough_digits (suc k) zero (suc a) b p q = absurd (omega arith)
enough_digits (suc k) (suc l) (suc a) b p q =
    let halves : digits (λ x. zero) min k (suc a / 2) (b / 2)
        ≡ digits (λ x. zero) min l (suc a / 2) (b / 2) =
      enough_digits k l (suc a / 2) (b / 2) (omega arith) (omega arith) in
    ap (λ (d : ℕ). d * 2 + min (suc a % 2) (b % 2)) halves

and-zero_left : (b : ℕ) → bit_and zero b ≡ 0
and-zero_left b = bit_and-bitwise zero b

-- The lowest digits, and the rest of both numbers.
pub bit_and-halves : (a b : ℕ) → bit_and a b ≡ bit_and (a / 2) (b / 2) * 2 + min (a % 2) (b % 2)
bit_and-halves zero b = omega (arith, and-zero_left b, and-zero_left (b / 2))
bit_and-halves (suc a) b = omega (
  arith,
  bit_and-bitwise (suc a) b,
  bit_and-bitwise (suc a / 2) (b / 2),
  enough_digits (suc a / 2) a (suc a / 2) (b / 2) (omega arith) (omega arith),
)

below_is_zero : (k a : ℕ) → a ≤ k → bit_and a zero ≡ 0
below_is_zero k zero h = and-zero_left zero
below_is_zero zero (suc a) h = absurd (omega arith)
below_is_zero (suc k) (suc a) h =
    omega (arith, bit_and-halves (suc a) zero, below_is_zero k (suc a / 2) (omega arith))

-- `n & 1` is the parity of `n`.
pub bit_and-one : (a : ℕ) → bit_and a 1 ≡ a % 2
bit_and-one a = omega (arith, bit_and-halves a 1, below_is_zero (a / 2) (a / 2) (omega arith))
