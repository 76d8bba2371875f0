-- ===== src/Prelude/Powers.antt =====
-- Powers of two, in the form that `omega` reads: `2 ^ j` is an unknown of at least one.
use Prim.Native.Nat.{ℕ, zero, suc, ◌+◌, ◌-◌, ◌*◌, ◌/◌, ◌^◌, ◌≤◌, ◌<◌}
use mathlib.Core.Path.{◌≡◌, ap}
use native.Mathlib.Omega.{arith}
use native.Mathlib.Decide.{dec_le, dec_lt}
use native.Mathlib.Nat.{pow-suc, one-le-pow, pow-le-pow_right}

pub pow_pos : (j : ℕ) → 1 ≤ 2 ^ j
pow_pos j = one-le-pow j 2 (omega arith)

pub pow_double : (j : ℕ) → 2 ^ suc j ≡ 2 * 2 ^ j
pow_double j = omega (arith, pow-suc 2 j)

-- Every number from 2 on lies above one power of two and up to the next.
pub pow_between : (n : ℕ) → 2 ≤ n → (j : ℕ) × (2 ^ j < n) × (n ≤ 2 ^ suc j)
pow_between zero h = absurd (omega arith)
pow_between (suc zero) h = absurd (omega arith)
pow_between (suc (suc zero)) h = (0, omega arith, omega arith)
pow_between (suc (suc (suc n))) h =
    let (j, low, high) = pow_between (suc (suc n)) (omega arith) in next j low high
  where
    next :
        (j : ℕ)
        → 2 ^ j < suc (suc n)
        → suc (suc n) ≤ 2 ^ suc j
        → (k : ℕ) × (2 ^ k < suc (suc (suc n))) × (suc (suc (suc n)) ≤ 2 ^ suc k)
    next j low high = elim (dec_le (suc (suc (suc n))) (2 ^ suc j)) [
      | yes fits ↦ (j, omega arith, fits)
      | no full ↦ (suc j, omega arith, omega (arith, pow_double (suc j)))
    ]

-- Below the next power of two there is no other.
pub pow_below_double : (j e : ℕ) → 2 ^ j < 2 ^ suc e → 2 ^ j ≤ 2 ^ e
pow_below_double j e h = elim (dec_le j e) [
  | yes p ↦ pow-le-pow_right {n = 2} (omega arith) p
  | no p ↦
      absurd
        (omega (arith, pow-le-pow_right {n = 2} (omega arith) {i = suc e} {j = j} (omega arith)))
]

-- The right part of a perfect block is as long as the left one.
pub pow_halves :
    (j e b : ℕ) → 2 ^ j + b ≡ 2 ^ suc e → 1 ≤ b → b ≤ 2 ^ j → (2 ^ j ≡ 2 ^ e) × (b ≡ 2 ^ e)
pow_halves j e b s p q =
    omega (arith, pow_double e, pow_double j, pow_below_double j e (omega (arith, pow_double e)))

-- A smaller power of two divides a larger one.
pub pow_quotient : (j e : ℕ) → 2 ^ j ≤ 2 ^ e → (d : ℕ) × (2 ^ e ≡ 2 ^ d * 2 ^ j)
pow_quotient j zero h = (0, omega (arith, pow_pos j))
pow_quotient j (suc e) h = elim (dec_le (2 ^ suc e) (2 ^ j)) [
  | yes p ↦ (0, omega arith)
  | no p ↦ let (d, q) = pow_quotient j e (pow_below_double j e (omega arith)) in (suc d, larger d q)
]
  where
    larger : (d : ℕ) → 2 ^ e ≡ 2 ^ d * 2 ^ j → 2 ^ suc e ≡ 2 ^ suc d * 2 ^ j
    larger d q = rw (pow_double d, pow_double e) (omega arith)

-- `n >> e`
abbrev pub shr : ℕ → ℕ → ℕ
shr zero n = n
shr (suc e) n = shr e n / 2

-- The bits above the lowest `e`.
pub shr_lem : (e low s : ℕ) → low < 2 ^ e → shr e (low + s * 2 ^ e) ≡ s
shr_lem zero low s h = omega arith
shr_lem (suc e) low s h =
    let step : s * 2 ^ suc e ≡ s * (2 * 2 ^ e) = ap (λ (t : ℕ). s * t) (pow_double e) in
    elim (dec_lt low (2 ^ e)) [
      | yes p ↦
          let ih : shr e (low + 2 * s * 2 ^ e) ≡ 2 * s = shr_lem e low (2 * s) p in
          let same : low + s * 2 ^ suc e ≡ low + 2 * s * 2 ^ e = omega arith in
          rw (same, ih) (omega arith)
      | no p ↦
          let ih : shr e (low - 2 ^ e + (2 * s + 1) * 2 ^ e) ≡ 2 * s + 1 =
            shr_lem e (low - 2 ^ e) (2 * s + 1) (omega (arith, pow_double e)) in
          let same : low + s * 2 ^ suc e ≡ low - 2 ^ e + (2 * s + 1) * 2 ^ e = omega arith in
          rw (same, ih) (omega arith)
    ]

pub pow_above : (n : ℕ) → (e : ℕ) × (n ≤ 2 ^ e)
pow_above n = elim (dec_le 2 n) [
  | yes p ↦ let (j, low, high) = pow_between n p in (suc j, high)
  | no p ↦ (0, omega arith)
]
