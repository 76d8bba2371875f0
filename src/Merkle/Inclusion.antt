-- ===== src/Merkle/Inclusion.antt =====
-- The verifier of apps/core/merkle.py climbs the tree of RFC 9162.
use multilingual_task_api.Prelude.{
  ℕ, zero, suc, ◌+◌, ◌-◌, ◌*◌, ◌/◌, ◌^◌, ◌≤◌, ◌<◌, ◌≡◌, refl, sym, ap, subst, ◌∙◌, List, [], ◌∷◌,
  ◌++◌, append_assoc, append-nil, arith, ltb, ltb→lt, ltb→ge, Bool-cases, inl, inr, length,
  length-append, pos→ne_zero,
}
use multilingual_task_api.Prelude.Powers.{
  pow_pos, pow_double, pow_above, pow_below_double, pow_quotient, pow_halves, shr, shr_lem,
}
use multilingual_task_api.PyText.{Text, hexdigest}
use multilingual_task_api.Merkle.{Sha256, walk}
use multilingual_task_api.Merkle.Climb.{
  climb_odd, climb_even, climb_double, joins_left_odd, joins_left_even, joins_left_last,
}
use multilingual_task_api.Merkle.Tree.{
  Tree, leaf, node, size, hex, leaf_at, audit_path, Layout, single, split,
}
use multilingual_task_api.Merkle.Root.{length-Layout, hash-children-hex}

module _ (h : Sha256) where
  abbrev pub leaf_hash_at : Tree → ℕ → Text
  leaf_hash_at t m = hexdigest (h.digest (0 ∷ leaf_at t m))

  -- A round at an even node that is not the last of its row.
  walk_even :
      (c s : ℕ) (l r : Tree) (rest : List Text)
      → 2 * c < s
      → walk h (hex h r ∷ rest) (2 * c) s (hex h l) ≡ walk h rest c (s / 2) (hex h (node l r))
  unfolding walk
  walk_even c s l r rest q = rw (
    walk,
    pos→ne_zero s (omega arith),
    joins_left_even c s q,
    hash-children-hex h l r,
    climb_even c s q,
  )

  -- A round at an odd node.
  walk_odd :
      (c s : ℕ) (l r : Tree) (rest : List Text)
      → 1 ≤ s
      → walk h (hex h l ∷ rest) (2 * c + 1) s (hex h r) ≡ walk h rest c (s / 2) (hex h (node l r))
  unfolding walk
  walk_odd c s l r rest q =
      rw (walk, pos→ne_zero s q, joins_left_odd c s, hash-children-hex h l r, climb_odd c s)

  -- A round at the last node of a row.
  walk_last :
      (c : ℕ) (l r : Tree) (rest : List Text)
      → 1 ≤ c
      → walk h (hex h l ∷ rest) (2 * c) (2 * c) (hex h r) ≡ walk h (hex h l ∷ rest) c c (hex h r)
  unfolding walk
  walk_last c l r rest q = rw (
    walk,
    pos→ne_zero c q,
    pos→ne_zero (2 * c) (omega arith),
    joins_left_last c,
    joins_left_last (2 * c),
    hash-children-hex h l r,
    climb_double c,
  )

  -- What is left of a path at node `q` of the right edge: nothing is asked at the root.
  abbrev pub GoesOn : ℕ → List Text → Type 0
  GoesOn zero rest = Unit
  GoesOn (suc q) [] = ⊥
  GoesOn (suc q) (sibling ∷ rest) = (l : Tree) × (sibling ≡ hex h l)

  pub goes_on : (l : Tree) (rest : List Text) (q : ℕ) → GoesOn q (hex h l ∷ rest)
  goes_on l rest zero = tt
  goes_on l rest (suc q) = (l, refl)

  pub walk_edge :
      (e q : ℕ) (rest : List Text) (r : Tree)
      → GoesOn q rest
      → walk h rest (q * 2 ^ e) (q * 2 ^ e) (hex h r) ≡ walk h rest q q (hex h r)
  walk_edge e zero rest r g = ap (λ (n : ℕ). walk h rest n n (hex h r)) (omega arith)
  walk_edge e (suc q) [] r g = elim g [ ]
  walk_edge zero (suc q) (s ∷ rest) r g =
      ap (λ (n : ℕ). walk h (s ∷ rest) n n (hex h r)) (omega arith)
  walk_edge (suc e) (suc q) (s ∷ rest) r g =
      let n : ℕ = suc q * 2 ^ e in
      let big : 1 ≤ n = ground (arith, pow_pos e) in
      let twice : suc q * 2 ^ suc e ≡ 2 * n =
        ap (λ (t : ℕ). suc q * t) (pow_double e) ∙ omega arith in
      let later : walk h (s ∷ rest) n n (hex h r) ≡ walk h (s ∷ rest) (suc q) (suc q) (hex h r) =
        walk_edge e (suc q) (s ∷ rest) r g in
      ap (λ (k : ℕ). walk h (s ∷ rest) k k (hex h r)) twice
      ∙ (subst (λ t. walk h (t ∷ rest) (2 * n) (2 * n) (hex h r) ≡ walk h (t ∷ rest) n n (hex h r))
          (sym g.1) (walk_last n g.0 r rest big))
      ∙ later

  -- A perfect block of 2 ^ e leaves that is not on the right edge: its audit path leads from leaf `m`
  -- to the node of the block.
  pub walk_block :
      {xs : List Text} {t : Tree} (e m q s fn sn : ℕ) (rest : List Text)
      → Layout xs t
      → length xs ≡ 2 ^ e
      → m < 2 ^ e
      → fn ≡ m + q * 2 ^ e
      → shr e sn ≡ s
      → q < s
      → walk h (audit_path h t m ++ rest) fn sn (leaf_hash_at t m) ≡ walk h rest q s (hex h t)
  walk_block zero m q s fn sn rest (single d) len lt ef es qs =
      let here : fn ≡ q = omega arith in rw (here, es)
  walk_block (suc e) m q s fn sn rest (single d) len lt ef es qs =
      absurd (omega (arith, pow_double e, pow_pos e))
  walk_block zero m q s fn sn rest (split j ys zs a p b c lay_l lay_r) len lt ef es qs =
      absurd (omega (arith, ap length a, length-append ys zs, pow_pos j))
  walk_block {xs} (suc e) m q s fn sn rest (split {l} {r} j ys zs a p b c lay_l lay_r) len lt ef es
        qs =
      let total : length xs ≡ length ys + length zs = ap length a ∙ length-append ys zs in
      let (front, back) = pow_halves j e (length zs) (omega arith) b c in
      let dbl : 2 ^ suc e ≡ 2 * 2 ^ e = pow_double e in
      let scale : q * 2 ^ suc e ≡ q * (2 * 2 ^ e) = ap (λ (k : ℕ). q * k) dbl in
      let whole : size l ≡ 2 ^ e = sym (length-Layout lay_l) ∙ p ∙ front in
      elim (Bool-cases (ltb m (size l))) [
        | inl left ↦
            let before : m < size l = ltb→lt m (size l) left in
            rw (
              left,
              append_assoc (audit_path h l m) (hex h r ∷ []) rest,
              walk_block e m (2 * q) (shr e sn) fn sn (hex h r ∷ rest) lay_l (p ∙ front)
                  (omega arith) (omega arith) refl (omega arith),
              walk_even q (shr e sn) l r rest (omega arith),
              es,
            )
        | inr right ↦
            let past : size l ≤ m = ltb→ge m (size l) right in
            rw (
              right,
              append_assoc (audit_path h r (m - size l)) (hex h l ∷ []) rest,
              walk_block e (m - size l) (2 * q + 1) (shr e sn) fn sn (hex h l ∷ rest) lay_r back
                  (omega arith) (omega arith) refl (omega arith),
              walk_odd q (shr e sn) l r rest (omega arith),
              es,
            )
      ]

  -- A subtree on the right edge, with `q` whole blocks of 2 ^ e leaves before it: its audit path leads
  -- from leaf `m` to the node of the subtree.
  pub walk_right :
      {xs : List Text} {t : Tree} (e m q fn sn : ℕ) (rest : List Text)
      → Layout xs t
      → length xs ≤ 2 ^ e
      → m < length xs
      → fn ≡ m + q * 2 ^ e
      → suc sn ≡ length xs + q * 2 ^ e
      → GoesOn q rest
      → walk h (audit_path h t m ++ rest) fn sn (leaf_hash_at t m) ≡ walk h rest q q (hex h t)
  walk_right e m q fn sn rest (single {d} dec) len lt ef es g =
      let here : fn ≡ q * 2 ^ e = omega arith in
      let last : sn ≡ q * 2 ^ e = omega arith in rw (here, last) (walk_edge e q rest (leaf d) g)
  walk_right {xs} zero m q fn sn rest (split j ys zs a p b c lay_l lay_r) len lt ef es g =
      absurd (omega (arith, ap length a, length-append ys zs, pow_pos j))
  walk_right {xs} (suc e) m q fn sn rest (split {l} {r} j ys zs a p b c lay_l lay_r) len lt ef es
        g =
      let total : length xs ≡ length ys + length zs = ap length a ∙ length-append ys zs in
      let (d, parts) = pow_quotient j e (pow_below_double j e (omega arith)) in
      let c1 : ℕ = q * 2 ^ d in
      let dbl : 2 ^ suc e ≡ 2 * 2 ^ e = pow_double e in
      let scale : q * 2 ^ suc e ≡ q * (2 * (2 ^ d * 2 ^ j)) =
        ap (λ (k : ℕ). q * k) (dbl ∙ ap (λ (k : ℕ). 2 * k) parts) in
      let whole : size l ≡ 2 ^ j = sym (length-Layout lay_l) ∙ p in
      let half : (2 * c1 + 1) / 2 ≡ c1 = omega arith in
      elim (Bool-cases (ltb m (size l))) [
        | inl left ↦
            let before : m < size l = ltb→lt m (size l) left in
            let row : sn ≡ length zs - 1 + (2 * c1 + 1) * 2 ^ j = omega arith in
            let top : shr j sn ≡ 2 * c1 + 1 =
              ap (shr j) row ∙ shr_lem j (length zs - 1) (2 * c1 + 1) (omega arith) in
            rw
              (
                left,
                append_assoc (audit_path h l m) (hex h r ∷ []) rest,
                walk_block j m (2 * c1) (2 * c1 + 1) fn sn (hex h r ∷ rest) lay_l p (omega arith)
                    (omega arith) top (omega arith),
                walk_even c1 (2 * c1 + 1) l r rest (omega arith),
                half,
              )
              (walk_edge d q rest (node l r) g)
        | inr right ↦
            let past : size l ≤ m = ltb→ge m (size l) right in
            rw
              (
                right,
                append_assoc (audit_path h r (m - size l)) (hex h l ∷ []) rest,
                walk_right j (m - size l) (2 * c1 + 1) fn sn (hex h l ∷ rest) lay_r c (omega arith)
                    (omega arith) (omega arith) (goes_on l rest (2 * c1 + 1)),
                walk_odd c1 (2 * c1 + 1) l r rest (omega arith),
                half,
              )
              (walk_edge d q rest (node l r) g)
      ]

  -- The audit path of leaf `m` leads the verifier's loop from the leaf to the root, and to `sn = 0`.
  pub walk-audit_path :
      {xs : List Text} {t : Tree} (m : ℕ)
      → Layout xs t
      → m < length xs
      → walk h (audit_path h t m) m (length xs - 1) (leaf_hash_at t m)
        ≡ record { sn = 0; running = hex h t; reasons = [] }
  walk-audit_path {xs} {t} m lay lt =
      let room = pow_above (length xs) in
      subst
        (λ p.
          walk h p m (length xs - 1) (leaf_hash_at t m)
          ≡ record { sn = 0; running = hex h t; reasons = [] })
        (append-nil (audit_path h t m))
        (walk_right room.0 m 0 m (length xs - 1) [] lay room.1 lt (omega arith) (omega arith) tt
          ∙ unfold walk in refl)
