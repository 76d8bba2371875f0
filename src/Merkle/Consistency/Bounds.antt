-- ===== src/Merkle/Consistency/Bounds.antt =====
-- The test for a power of two and the shifts that start the consistency check of
-- apps/core/merkle.py.
use multilingual_task_api.Prelude.{
  ℕ, zero, suc, ◌+◌, ◌-◌, ◌*◌, ◌/◌, ◌%◌, ◌^◌, ◌≤◌, ◌<◌, ◌≡◌, refl, ap, bit_and, arith, true, false,
  dec_lt,
}
use multilingual_task_api.Prelude.Bits.{bit_and-halves, bit_and-one}
use multilingual_task_api.Prelude.Powers.{pow_pos, pow_double, shr}
use multilingual_task_api.Merkle.Consistency.{is_exact_power_of_two, strip_ones}

and_self : (k a : ℕ) → a ≤ k → bit_and a a ≡ a
and_self k zero h = omega (arith, bit_and-halves 0 0)
and_self zero (suc a) h = absurd (omega arith)
and_self (suc k) (suc a) h =
    omega (arith, bit_and-halves (suc a) (suc a), and_self k (suc a / 2) (omega arith))

and_pred_power : (j : ℕ) → bit_and (2 ^ j) (2 ^ j - 1) ≡ 0
and_pred_power zero = refl
and_pred_power (suc j) =
    let dbl : 2 ^ suc j ≡ 2 * 2 ^ j = pow_double j in
    let one : 1 ≤ 2 ^ j = pow_pos j in
    let upper : 2 ^ suc j / 2 ≡ 2 ^ j = omega arith in
    let lower : (2 ^ suc j - 1) / 2 ≡ 2 ^ j - 1 = omega arith in
    rw (bit_and-halves (2 ^ suc j) (2 ^ suc j - 1), upper, lower, and_pred_power j) (omega arith)

and_pred_between : (j n : ℕ) → 2 ^ j < n → n < 2 ^ suc j → 1 ≤ bit_and n (n - 1)
and_pred_between zero n p q = absurd (omega arith)
and_pred_between (suc j) n p q = elim (dec_lt (n % 2) 1) [
  | yes even ↦
      let below : (n - 1) / 2 ≡ n / 2 - 1 = omega arith in
      let ih : 1 ≤ bit_and (n / 2) (n / 2 - 1) =
        and_pred_between j (n / 2) (omega (arith, pow_double j))
          (omega (arith, pow_double (suc j))) in
      rw (bit_and-halves n (n - 1), below) (omega arith)
  | no odd ↦
      let same : (n - 1) / 2 ≡ n / 2 = omega arith in
      rw (bit_and-halves n (n - 1), same, and_self (n / 2) (n / 2) (omega arith))
        (omega (arith, pow_pos j, pow_double j))
]

pub power_test : (j : ℕ) → is_exact_power_of_two (2 ^ j) ≡ true
unfolding is_exact_power_of_two
power_test j = ground (arith, and_pred_power j)

pub power_test_between : (j n : ℕ) → 2 ^ j < n → n < 2 ^ suc j → is_exact_power_of_two n ≡ false
unfolding is_exact_power_of_two
power_test_between j n p q = ground (arith, and_pred_between j n p q)

shr-half : (j n : ℕ) → shr j (n / 2) ≡ shr j n / 2
shr-half zero n = refl
shr-half (suc j) n = ap (λ (k : ℕ). k / 2) (shr-half j n)

-- At the last leaf of an even block of 2 ^ j leaves, the shifts lead to the block.
pub strip_ones_block :
    (j f c fn sn : ℕ)
    → fn + 1 ≡ 2 ^ j + 2 * c * 2 ^ j
    → j ≤ f
    → strip_ones f fn sn ≡ (2 * c, shr j sn)
unfolding strip_ones
strip_ones_block zero zero c fn sn e q = ap (λ (k : ℕ). (k, sn)) (omega arith)
strip_ones_block zero (suc f) c fn sn e q = ground (arith, bit_and-one fn)
strip_ones_block (suc j) zero c fn sn e q = absurd (omega arith)
strip_ones_block (suc j) (suc f) c fn sn e q =
    let dbl : 2 ^ suc j ≡ 2 * 2 ^ j = pow_double j in
    let scale : 2 * c * 2 ^ suc j ≡ 2 * c * (2 * 2 ^ j) = ap (λ (k : ℕ). 2 * c * k) dbl in
    let odd : bit_and fn 1 ≡ 1 = omega (arith, bit_and-one fn) in
    let rest : strip_ones f (fn / 2) (sn / 2) ≡ (2 * c, shr j (sn / 2)) =
      strip_ones_block j f c (fn / 2) (sn / 2) (omega arith) (omega arith) in
    rw (strip_ones, odd, rest, shr-half j sn)

pub lt-pow : (j : ℕ) → j < 2 ^ j
lt-pow zero = omega arith
lt-pow (suc j) = omega (arith, lt-pow j, pow_double j)
