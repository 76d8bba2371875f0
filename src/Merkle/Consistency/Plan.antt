-- ===== src/Merkle/Consistency/Plan.antt =====
-- `SUBPROOF` of RFC 9162 on trees, against `_subproof` of apps/core/merkle.py.
use multilingual_task_api.Prelude.{
  ℕ, zero, suc, ◌+◌, ◌-◌, ◌≤◌, ◌<◌, ◌≡◌, ◌≢◌, refl, ap, ◌∙◌, List, [], ◌∷◌, ◌++◌, arith, true,
  false, Bool-cases, inl, inr, leb, ◌==◌, ==_iff, if◌then◌else◌, length, take, length-append,
  length-take,
}
use multilingual_task_api.PyText.{Text}
use multilingual_task_api.Merkle.{Sha256}
use multilingual_task_api.Merkle.Tree.{Tree, leaf, node, size, hex, Layout, single, split}
use multilingual_task_api.Merkle.Root.{length-Layout}

-- The tree of the first `m` leaves.
abbrev pub prefix : Tree → ℕ → Tree
prefix (leaf d) m = leaf d
prefix (node l r) m = if leb m (size l) then prefix l m else node l (prefix r (m - size l))

-- The largest subtree that ends with leaf `m - 1` and that both trees have.
abbrev pub shared : Tree → ℕ → Tree
shared (leaf d) m = leaf d
shared (node l r) m =
    if m == size l + size r
    then node l r
    else if leb m (size l)
    then shared l m
    else shared r (m - size l)

module _ (h : Sha256) where
  -- The nodes that lead from the shared subtree to the root.
  abbrev pub upper_path : Tree → ℕ → List Text
  upper_path (leaf d) m = []
  upper_path (node l r) m =
      if m == size l + size r
      then []
      else if leb m (size l)
      then upper_path l m ++ hex h r ∷ []
      else upper_path r (m - size l) ++ hex h l ∷ []

pub leb→ge : (a b : ℕ) → leb a b ≡ false → b < a
leb→ge a b e = ground arith

pub leb-true : (a b : ℕ) → a ≤ b → leb a b ≡ true
leb-true a b q = ground arith

pub leb-false : (a b : ℕ) → b < a → leb a b ≡ false
leb-false a b q = ground arith

pub eq_false : (a b : ℕ) → a ≢ b → a == b ≡ false
eq_false a b q = ground arith

size_pos : (t : Tree) → 1 ≤ size t
size_pos (leaf d) = omega arith
size_pos (node l r) = omega (arith, size_pos l)

pub prefix_whole : (t : Tree) (m : ℕ) → m ≡ size t → prefix t m ≡ t
prefix_whole (leaf d) m e = refl
prefix_whole (node l r) m e =
    rw (leb-false m (size l) (omega (arith, size_pos r)))
      (ap (node l) (prefix_whole r (m - size l) (omega arith)))

pub upper_path-whole : (h : Sha256) (t : Tree) (m : ℕ) → m ≡ size t → upper_path h t m ≡ []
upper_path-whole h (leaf d) m e = refl
upper_path-whole h (node l r) m e = rw ((==_iff m (size l + size r)).1 e)

pub shared_whole : (t : Tree) (m : ℕ) → m ≡ size t → shared t m ≡ t
shared_whole (leaf d) m e = refl
shared_whole (node l r) m e = rw ((==_iff m (size l + size r)).1 e)

take-append_left {ℓ} :
    {A : Type ℓ} (m : ℕ) (xs ys : List A) → m ≤ length xs → take m (xs ++ ys) ≡ take m xs
take-append_left zero xs ys q = refl
take-append_left (suc m) [] ys q = absurd (omega arith)
take-append_left (suc m) (x ∷ xs) ys q = ap (λ r. x ∷ r) (take-append_left m xs ys (omega arith))

take-append_right {ℓ} :
    {A : Type ℓ} (m : ℕ) (xs ys : List A)
    → length xs ≤ m
    → take m (xs ++ ys) ≡ xs ++ take (m - length xs) ys
take-append_right m [] ys q = ap (λ (k : ℕ). take k ys) (omega arith)
take-append_right zero (x ∷ xs) ys q = absurd (omega arith)
take-append_right (suc m) (x ∷ xs) ys q =
    let same : suc m - suc (length xs) ≡ m - length xs = omega arith in
    rw same (ap (λ r. x ∷ r) (take-append_right m xs ys (omega arith)))

-- The first `m` leaves are laid out as the prefix of the tree.
pub prefix-Layout :
    {xs : List Text} {t : Tree} (m : ℕ)
    → Layout xs t
    → 1 ≤ m
    → m ≤ length xs
    → Layout (take m xs) (prefix t m)
prefix-Layout zero lay p q = absurd (omega arith)
prefix-Layout (suc zero) (single dec) p q = single dec
prefix-Layout (suc (suc m)) (single dec) p q = absurd (omega arith)
prefix-Layout {xs} (suc m) (split {l} {r} j ys zs e a b c lay_l lay_r) p q =
    let whole : length ys ≡ size l = length-Layout lay_l in
    let total : length xs ≡ length ys + length zs = ap length e ∙ length-append ys zs in
    elim (Bool-cases (leb (suc m) (size l))) [
      | inl inside ↦
          let le : suc m ≤ length ys = ground arith in
          rw (inside, e, take-append_left (suc m) ys zs le) (prefix-Layout (suc m) lay_l p le)
      | inr beyond ↦
          let lt : length ys < suc m = ground arith in
          let more = suc m - length ys in
          let len : length (take more zs) ≡ more = omega (arith, length-take more zs) in
          rw (beyond, ← whole)
            (split j ys (take more zs)
              (ap (take (suc m)) e ∙ take-append_right (suc m) ys zs (omega arith)) a (omega arith)
              (omega arith) lay_l (prefix-Layout more lay_r (omega arith) (omega arith)))
    ]
