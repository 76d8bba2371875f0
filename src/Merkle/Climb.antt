-- ===== src/Merkle/Climb.antt =====
-- The shifts of `fn` and `sn` in the verifiers of apps/core/merkle.py.
use multilingual_task_api.Prelude.{
  ℕ, zero, suc, ◌+◌, ◌*◌, ◌/◌, ◌%◌, ◌≤◌, ◌<◌, ◌≡◌, refl, ap, arith, true, false, dec_lt, ◌≡⟨◌⟩◌, ◌∎,
}
use multilingual_task_api.Prelude.Bits.{bit_and-one}
use multilingual_task_api.Merkle.{skip_evens, joins_left, climb}

-- An odd node, and the last node of a row, are joined from the left.
pub joins_left_odd : (c s : ℕ) → joins_left (2 * c + 1) s ≡ true
unfolding joins_left
joins_left_odd c s = ground (arith, bit_and-one (2 * c + 1))

pub joins_left_even : (c s : ℕ) → 2 * c < s → joins_left (2 * c) s ≡ false
unfolding joins_left
joins_left_even c s q = ground (arith, bit_and-one (2 * c))

pub joins_left_last : (c : ℕ) → joins_left c c ≡ true
unfolding joins_left
joins_left_last c = ground arith

skip_evens_odd : (f c s : ℕ) → skip_evens f (2 * c + 1) s ≡ (2 * c + 1, s)
unfolding skip_evens
skip_evens_odd zero c s = refl
skip_evens_odd (suc f) c s = ground (arith, bit_and-one (2 * c + 1))

pub climb_odd : (c s : ℕ) → climb (2 * c + 1) s ≡ (c, s / 2)
unfolding climb
climb_odd c s =
    rw (joins_left_odd c s, skip_evens_odd (2 * c + 1) c s)
      (ap (λ (v : ℕ). (v, s / 2)) (omega arith))

pub climb_even : (c s : ℕ) → 2 * c < s → climb (2 * c) s ≡ (c, s / 2)
unfolding climb
climb_even c s q = rw (joins_left_even c s q) (ap (λ (v : ℕ). (v, s / 2)) (omega arith))

skip_evens-zero : (f s : ℕ) → skip_evens f zero s ≡ (zero, s)
unfolding skip_evens
skip_evens-zero zero s = refl
skip_evens-zero (suc f) s = ground arith

skip_evens_even :
    (f n s : ℕ) → n % 2 ≡ 0 → 1 ≤ n → skip_evens (suc f) n s ≡ skip_evens f (n / 2) (s / 2)
unfolding skip_evens
skip_evens_even f n s p q = ground (arith, bit_and-one n)

skip_evens_stop : (f n s : ℕ) → n % 2 ≡ 1 → skip_evens f n s ≡ (n, s)
unfolding skip_evens
skip_evens_stop zero n s p = refl
skip_evens_stop (suc f) n s p = ground (arith, bit_and-one n)

-- Fuel of at least `fn` is enough, and more makes no difference.
skip_evens_fuel : (f g c s : ℕ) → c ≤ f → c ≤ g → skip_evens f c s ≡ skip_evens g c s
skip_evens_fuel f g zero s p q = rw (skip_evens-zero f s, skip_evens-zero g s)
skip_evens_fuel zero g (suc c) s p q = absurd (omega arith)
skip_evens_fuel (suc f) zero (suc c) s p q = absurd (omega arith)
skip_evens_fuel (suc f) (suc g) (suc c) s p q = elim (dec_lt (suc c % 2) 1) [
  | yes even ↦
      rw
        (
          skip_evens_even f (suc c) s (omega arith) (omega arith),
          skip_evens_even g (suc c) s (omega arith) (omega arith),
        )
        (skip_evens_fuel f g (suc c / 2) (s / 2) (omega arith) (omega arith))
  | no odd ↦ rw (
    skip_evens_stop (suc f) (suc c) s (omega arith),
    skip_evens_stop (suc g) (suc c) s (omega arith),
  )
]

skip_evens_double : (c s : ℕ) → 1 ≤ c → skip_evens (2 * c) (2 * c) s ≡ skip_evens c c (s / 2)
skip_evens_double c s p =
    skip_evens (2 * c) (2 * c) s
    ≡⟨ skip_evens_fuel (2 * c) (suc (2 * c)) (2 * c) s (omega arith) (omega arith) ⟩
      skip_evens (suc (2 * c)) (2 * c) s
    ≡⟨ skip_evens_even (2 * c) (2 * c) s (omega arith) (omega arith) ⟩
      skip_evens (2 * c) (2 * c / 2) (s / 2)
    ≡⟨ ap (λ (n : ℕ). skip_evens (2 * c) n (s / 2)) (omega arith) ⟩ skip_evens (2 * c) c (s / 2)
    ≡⟨ skip_evens_fuel (2 * c) c c (s / 2) (omega arith) (omega arith) ⟩ skip_evens c c (s / 2) ∎

climb_last : (c : ℕ) → climb c c ≡ ((skip_evens c c c).0 / 2, (skip_evens c c c).1 / 2)
unfolding climb
climb_last c = rw (joins_left_last c)

-- Two equal nodes on the right edge: the zero bits below the lowest one make no difference.
pub climb_double : (c : ℕ) → climb (2 * c) (2 * c) ≡ climb c c
climb_double zero = refl
climb_double (suc c) =
    let half : 2 * suc c / 2 ≡ suc c = omega arith in
    rw (
      climb_last (2 * suc c),
      climb_last (suc c),
      skip_evens_double (suc c) (2 * suc c) (omega arith),
      half,
    )
