-- ===== src/Tasks/Majority.antt =====
-- When the vote on a task has a winner, apps/tasks/consensus.py.
use native.Mathlib.Omega.{div_any, mod_fact}
use native.Mathlib.Nat.{mul-le-mul_left}
use multilingual_task_api.Prelude.{
  ℕ, zero, suc, ◌+◌, ◌*◌, ◌/◌, ◌%◌, ◌≤◌, ◌<◌, ◌≡◌, refl, ap, sym, subst, ◌∙◌, true, ◌&&◌, List, [],
  ◌∷◌, arith, Bool-cases, inl, inr, ltb, lt→ltb, ◌↔◌, if◌then◌else◌,
}
use multilingual_task_api.Tasks.{Preference, same_preference, round_ratio}
use multilingual_task_api.Tasks.Consensus.{Entry, total_weight, has_unique_leader, agreement_ratio}
use multilingual_task_api.Tasks.Totals.{
  weight_share, IsTable, share_bounded, leader_share, shares_apart, same_preference→eq,
}
use multilingual_task_api.Tasks.Ranks.{IsTop}

-- A share of more than a half, after rounding, is one before.
over_half_at :
    (q r d x : ℕ)
    → d * q + r ≡ x * 10_000
    → r < d
    → 5_000 < (if ltb (r * 2) d then q else if ltb d (r * 2) then q + 1 else q + q % 2)
    → d < 2 * x
over_half_at q r d x split rest h = elim (Bool-cases (ltb q 5_001)) [
  | inr g ↦ let more : d * 5_001 ≤ d * q = mul-le-mul_left d (ground arith) in omega arith
  | inl g ↦ elim (Bool-cases (ltb q 5_000)) [
    | inl f ↦ absurd (ground arith)
    | inr f ↦
        let is_half : q ≡ 5_000 = ground arith in
        let product : d * q ≡ d * 5_000 = ap (λ y. d * y) is_half in ground arith
  ]
]

over_half : (x d : ℕ) → 1 ≤ d → 5_000 < round_ratio (x * 10_000) d → d < 2 * x
unfolding round_ratio
over_half x zero p h = absurd (omega arith)
over_half x (suc k) p h =
    over_half_at (x * 10_000 / suc k) (x * 10_000 % suc k) (suc k) x (div_any (x * 10_000) (suc k))
      (mod_fact (x * 10_000) k) h

unique_leader :
    (e : Entry) (others : List Entry)
    → total_weight others < e.weight
    → has_unique_leader e others ≡ true
unfolding has_unique_leader total_weight
unique_leader e [] h = refl
unique_leader e (f ∷ t) h = ground arith

-- Who has more than a half comes first, and alone.
leads :
    (e : Entry) (others : List Entry) (p : Preference)
    → IsTop (e ∷ others)
    → IsTable (e ∷ others)
    → total_weight (e ∷ others) < 2 * weight_share p (e ∷ others)
    → (e.preference ≡ p) × (has_unique_leader e others ≡ true)
unfolding total_weight
leads e others p top table more =
    let most = share_bounded e.weight p (e ∷ others) (omega arith, top) (table p) in
    let own = leader_share e others (table e.preference) in
    (
      elim (Bool-cases (same_preference e.preference p)) [
        | inl g ↦ same_preference→eq e.preference p g
        | inr g ↦ absurd (omega (arith, shares_apart e.preference p (e ∷ others) g))
      ],
      unique_leader e others (omega arith),
    )

ratio-total :
    (w total unweighted : ℕ)
    → 1 ≤ total
    → agreement_ratio w total unweighted ≡ round_ratio (w * 10_000) total
unfolding agreement_ratio
ratio-total w total unweighted h = rw (lt→ltb 0 total h) refl

-- The ratio of the first entry decides as the ratio of a preference does.
pub wins_iff :
    (e : Entry) (others : List Entry) (p : Preference) (unweighted : ℕ)
    → IsTop (e ∷ others)
    → IsTable (e ∷ others)
    → 1 ≤ total_weight (e ∷ others)
    → let total = total_weight (e ∷ others) in
      ((has_unique_leader e others && ltb 5_000 (agreement_ratio e.weight total unweighted) ≡ true)
        × (e.preference ≡ p))
      ↔ (5_000 < round_ratio (weight_share p (e ∷ others) * 10_000) total)
wins_iff e others p unweighted top table some_weight =
    let total = total_weight (e ∷ others) in
    let own = leader_share e others (table e.preference) in
    let at_ratio : agreement_ratio e.weight total unweighted
        ≡ round_ratio (weight_share e.preference (e ∷ others) * 10_000) total =
      ratio-total e.weight total unweighted some_weight
      ∙ ap (λ w. round_ratio (w * 10_000) total) (sym own) in
    (
      (λ (w, q).
          let over : 5_000 < agreement_ratio e.weight total unweighted = ground (arith, w) in
          subst (λ r. 5_000 < round_ratio (weight_share r (e ∷ others) * 10_000) total) q
            (subst (λ r. 5_000 < r) at_ratio over)),
      (λ h.
          let (q, alone) = leads e others p top table (over_half _ total some_weight h) in
          let over : 5_000 < agreement_ratio e.weight total unweighted =
            subst (λ r. 5_000 < r) (sym at_ratio)
              (subst (λ r. 5_000 < round_ratio (weight_share r (e ∷ others) * 10_000) total) (sym q)
                h) in
          (rw alone (lt→ltb 5_000 _ over), q)),
    )
