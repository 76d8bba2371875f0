-- ===== src/Merkle/Split.antt =====
-- `_largest_power_of_two_less_than` and `int.bit_length` of apps/core/merkle.py.
use multilingual_task_api.Prelude.{
  ℕ, zero, suc, ◌-◌, ◌/◌, ◌^◌, ◌≤◌, ◌<◌, ◌≡◌, ap, arith, ok, ge→ltb,
}
use multilingual_task_api.Prelude.Powers.{pow_pos, pow_double}
use multilingual_task_api.Merkle.{bit_length_fuel, bit_length, largest_power_of_two_less_than}

bit_length_fuel_lem : (j f n : ℕ) → 2 ^ j ≤ n → n < 2 ^ suc j → n ≤ f → bit_length_fuel f n ≡ suc j
unfolding bit_length_fuel
bit_length_fuel_lem zero zero n p q h = absurd (omega arith)
bit_length_fuel_lem zero (suc zero) n p q h = ground arith
bit_length_fuel_lem zero (suc (suc f)) n p q h = ground arith
bit_length_fuel_lem (suc j) zero n p q h = absurd (omega (arith, pow_double j, pow_pos j))
bit_length_fuel_lem (suc j) (suc f) n p q h =
    ground (arith, pow_double j, pow_double (suc j), pow_pos j, bit_length_fuel_lem j f (n / 2))

pub bit_length_lem : (j n : ℕ) → 2 ^ j ≤ n → n < 2 ^ suc j → bit_length n ≡ suc j
unfolding bit_length
bit_length_lem j n p q = bit_length_fuel_lem j n n p q (omega arith)

-- Between 2 ^ j and 2 ^ (j + 1), the split is at 2 ^ j.
pub largest_power_lem :
    (j n : ℕ) → 2 ^ j < n → n ≤ 2 ^ suc j → largest_power_of_two_less_than n ≡ ok (2 ^ j)
unfolding largest_power_of_two_less_than
largest_power_lem j n p q =
    rw
      (
        ge→ltb n 2 (omega (arith, pow_pos j)),
        bit_length_lem j (n - 1) (omega (arith, pow_pos j)) (omega (arith, pow_pos j)),
      )
      (ap (λ (e : ℕ). ok (2 ^ e)) (omega arith))
