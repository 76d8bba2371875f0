-- ===== src/Merkle/Consistency/Climb.antt =====
-- The consistency check of apps/core/merkle.py climbs the old and the new tree together.
use multilingual_task_api.Prelude.{
  ℕ, zero, suc, ◌+◌, ◌*◌, ◌/◌, ◌^◌, ◌≤◌, ◌<◌, ◌≡◌, sym, ap, subst, ◌∙◌, List, [], ◌∷◌, arith,
  pos→ne_zero,
}
use multilingual_task_api.Prelude.Powers.{pow_pos, pow_double}
use multilingual_task_api.PyText.{Text}
use multilingual_task_api.Merkle.{Sha256}
use multilingual_task_api.Merkle.Climb.{
  climb_odd, climb_even, climb_double, joins_left_odd, joins_left_even, joins_left_last,
}
use multilingual_task_api.Merkle.Tree.{Tree, node, hex}
use multilingual_task_api.Merkle.Root.{hash-children-hex}
use multilingual_task_api.Merkle.Inclusion.{GoesOn}
use multilingual_task_api.Merkle.Consistency.{join_both, climb_both}

module _ (h : Sha256) where
  -- A round at an even node: only the new tree has the right sibling.
  pub both_even :
      (c s : ℕ) (old l r : Tree) (rest : List Text)
      → 2 * c < s
      → climb_both h (hex h r ∷ rest) (2 * c) s (hex h old) (hex h l)
        ≡ climb_both h rest c (s / 2) (hex h old) (hex h (node l r))
  unfolding climb_both join_both
  both_even c s old l r rest q = rw (
    climb_both,
    pos→ne_zero s (omega arith),
    joins_left_even c s q,
    hash-children-hex h l r,
    climb_even c s q,
  )

  -- A round at an odd node: both trees have the left sibling.
  pub both_odd :
      (c s : ℕ) (l old r : Tree) (rest : List Text)
      → 1 ≤ s
      → climb_both h (hex h l ∷ rest) (2 * c + 1) s (hex h old) (hex h r)
        ≡ climb_both h rest c (s / 2) (hex h (node l old)) (hex h (node l r))
  unfolding climb_both join_both
  both_odd c s l old r rest q = rw (
    climb_both,
    pos→ne_zero s q,
    joins_left_odd c s,
    hash-children-hex h l old,
    hash-children-hex h l r,
    climb_odd c s,
  )

  both_last :
      (c : ℕ) (l old r : Tree) (rest : List Text)
      → 1 ≤ c
      → climb_both h (hex h l ∷ rest) (2 * c) (2 * c) (hex h old) (hex h r)
        ≡ climb_both h (hex h l ∷ rest) c c (hex h old) (hex h r)
  unfolding climb_both join_both
  both_last c l old r rest q = rw (
    climb_both,
    pos→ne_zero c q,
    pos→ne_zero (2 * c) (omega arith),
    joins_left_last c,
    joins_left_last (2 * c),
    hash-children-hex h l old,
    hash-children-hex h l r,
    climb_double c,
  )

  pub both_edge :
      (e q : ℕ) (rest : List Text) (old r : Tree)
      → GoesOn h q rest
      → climb_both h rest (q * 2 ^ e) (q * 2 ^ e) (hex h old) (hex h r)
        ≡ climb_both h rest q q (hex h old) (hex h r)
  both_edge e zero rest old r g =
      ap (λ (n : ℕ). climb_both h rest n n (hex h old) (hex h r)) (omega arith)
  both_edge e (suc q) [] old r g = elim g [ ]
  both_edge zero (suc q) (s ∷ rest) old r g =
      ap (λ (n : ℕ). climb_both h (s ∷ rest) n n (hex h old) (hex h r)) (omega arith)
  both_edge (suc e) (suc q) (s ∷ rest) old r g =
      let n : ℕ = suc q * 2 ^ e in
      let big : 1 ≤ n = ground (arith, pow_pos e) in
      let twice : suc q * 2 ^ suc e ≡ 2 * n =
        ap (λ (t : ℕ). suc q * t) (pow_double e) ∙ omega arith in
      let later = both_edge e (suc q) (s ∷ rest) old r g in
      ap (λ (k : ℕ). climb_both h (s ∷ rest) k k (hex h old) (hex h r)) twice
      ∙ subst
          (λ t.
            climb_both h (t ∷ rest) (2 * n) (2 * n) (hex h old) (hex h r)
            ≡ climb_both h (t ∷ rest) n n (hex h old) (hex h r))
          (sym g.1) (both_last n g.0 old r rest big)
      ∙ later
