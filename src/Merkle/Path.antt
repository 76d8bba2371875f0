-- ===== src/Merkle/Path.antt =====
-- `build_merkle_inclusion_proof` of apps/core/merkle.py against `PATH` of RFC 9162.
use multilingual_task_api.Prelude.{
  ℕ, zero, suc, ◌+◌, ◌-◌, ◌*◌, ◌^◌, ◌≤◌, ◌<◌, ◌≡◌, sym, ap, ◌∙◌, List, [], ◌∷◌, ◌++◌, length, take,
  drop, length-append, arith, ok, ◌>>=◌, true, false, ltb, leb, ltb→lt, ltb→ge, lt→ltb, ge→ltb,
  Bool-cases, inl, inr,
}
use multilingual_task_api.Prelude.Int.{pos}
use multilingual_task_api.Prelude.Powers.{pow_pos, pow_double, pow_below_double}
use multilingual_task_api.PyText.{Text}
use multilingual_task_api.Merkle.{
  Sha256, largest_power_of_two_less_than, compute_merkle_root, inclusion_path_fuel,
  build_merkle_inclusion_proof,
}
use multilingual_task_api.Merkle.Split.{largest_power_lem}
use multilingual_task_api.Merkle.Tree.{Tree, size, hex, audit_path, Layout, single, split}
use multilingual_task_api.Merkle.Root.{length-Layout, split_slices, compute_merkle_root_lem}

leb-false : (a b : ℕ) → b < a → leb a b ≡ false
leb-false a b h = ground arith

module _ (h : Sha256) where
  path_step :
      (f : ℕ) (xs : List Text) (m : ℕ)
      → 2 ≤ length xs
      → m < length xs
      → inclusion_path_fuel h (suc f) xs m ≡ (do
        k ← largest_power_of_two_less_than (length xs)
        elim (ltb m k) [
          | true ↦ do
            sub_path ← inclusion_path_fuel h f (take k xs) m
            sibling ← compute_merkle_root h (drop k xs)
            ok (sub_path ++ sibling ∷ [])
          | false ↦ do
            sub_path ← inclusion_path_fuel h f (drop k xs) (m - k)
            sibling ← compute_merkle_root h (take k xs)
            ok (sub_path ++ sibling ∷ [])
        ])
  unfolding inclusion_path_fuel
  path_step f [] m q r = absurd (omega arith)
  path_step f (x ∷ []) m q r = absurd (omega arith)
  path_step f (x ∷ y ∷ more) m q r = rw (leb-false (length (x ∷ y ∷ more)) m r)

  path_left :
      (f : ℕ) (xs : List Text) (m k : ℕ)
      → 2 ≤ length xs
      → m < length xs
      → largest_power_of_two_less_than (length xs) ≡ ok k
      → m < k
      → inclusion_path_fuel h (suc f) xs m ≡ (do
        sub_path ← inclusion_path_fuel h f (take k xs) m
        sibling ← compute_merkle_root h (drop k xs)
        ok (sub_path ++ sibling ∷ []))
  path_left f xs m k q r e lt = rw (path_step f xs m q r, e, ◌>>=◌, lt→ltb m k lt)

  path_right :
      (f : ℕ) (xs : List Text) (m k : ℕ)
      → 2 ≤ length xs
      → m < length xs
      → largest_power_of_two_less_than (length xs) ≡ ok k
      → k ≤ m
      → inclusion_path_fuel h (suc f) xs m ≡ (do
        sub_path ← inclusion_path_fuel h f (drop k xs) (m - k)
        sibling ← compute_merkle_root h (take k xs)
        ok (sub_path ++ sibling ∷ []))
  path_right f xs m k q r e ge = rw (path_step f xs m q r, e, ◌>>=◌, ge→ltb m k ge)

  pub inclusion_path_fuel_lem :
      {xs : List Text} {t : Tree} (f m : ℕ)
      → Layout xs t
      → m < length xs
      → length xs < f
      → inclusion_path_fuel h f xs m ≡ ok (audit_path h t m)
  inclusion_path_fuel_lem zero m lay r q = absurd (omega arith)
  inclusion_path_fuel_lem (suc f) m (single e) r q =
      unfold inclusion_path_fuel in rw (leb-false 1 m r)
  inclusion_path_fuel_lem {xs} (suc f) m (split {l} {r = t} j ys zs e p a b lay_l lay_r) r q =
      let total : length xs ≡ length ys + length zs = ap length e ∙ length-append ys zs in
      let one : 1 ≤ 2 ^ j = pow_pos j in
      let dbl : 2 ^ suc j ≡ 2 * 2 ^ j = pow_double j in
      let (front, back) = split_slices xs ys zs e in
      let whole : length ys ≡ size l = length-Layout lay_l in
      let k : largest_power_of_two_less_than (length xs) ≡ ok (length ys) =
        largest_power_lem j (length xs) (omega arith) (omega arith)
        ∙ ap (λ (v : ℕ). ok v) (sym p) in
      elim (Bool-cases (ltb m (length ys))) [
        | inl left ↦
            let before : m < length ys = ltb→lt m (length ys) left in
            rw (
              ← whole,
              left,
              path_left f xs m (length ys) (omega arith) r k before,
              front,
              inclusion_path_fuel_lem f m lay_l before (omega arith),
              back,
              compute_merkle_root_lem h lay_r,
            )
        | inr right ↦
            let past : length ys ≤ m = ltb→ge m (length ys) right in
            rw (
              ← whole,
              right,
              path_right f xs m (length ys) (omega arith) r k past,
              back,
              inclusion_path_fuel_lem f (m - length ys) lay_r (omega arith) (omega arith),
              front,
              compute_merkle_root_lem h lay_l,
            )
      ]

  -- The code's path of leaf `m` is the audit path of the tree.
  pub build_proof_lem :
      {xs : List Text} {t : Tree} (m : ℕ)
      → Layout xs t
      → m < length xs
      → build_merkle_inclusion_proof h xs (pos m) ≡ ok (audit_path h t m)
  unfolding build_merkle_inclusion_proof
  build_proof_lem {xs} m lay r = inclusion_path_fuel_lem (suc (length xs)) m lay r (omega arith)

  -- A tree of at most 2 ^ e leaves has audit paths of at most e nodes.
  pub length-audit_path :
      {xs : List Text} {t : Tree} (e m : ℕ)
      → Layout xs t
      → length xs ≤ 2 ^ e
      → length (audit_path h t m) ≤ e
  length-audit_path zero m (single e) q = omega arith
  length-audit_path (suc e) m (single d) q = omega arith
  length-audit_path {xs} zero m (split j ys zs s p a b lay_l lay_r) q =
      absurd (omega (arith, ap length s, length-append ys zs, pow_pos j))
  length-audit_path {xs} (suc e) m (split {l} {r} j ys zs s p a b lay_l lay_r) q =
      let total : length xs ≡ length ys + length zs = ap length s ∙ length-append ys zs in
      let fits : 2 ^ j ≤ 2 ^ e = pow_below_double j e (omega arith) in
      elim (Bool-cases (ltb m (size l))) [
        | inl left ↦ rw left (
            omega (
              arith,
              length-append (audit_path h l m) (hex h r ∷ []),
              length-audit_path e m lay_l (omega arith),
            ))
        | inr right ↦ rw right (
            omega (
              arith,
              length-append (audit_path h r (m - size l)) (hex h l ∷ []),
              length-audit_path e (m - size l) lay_r (omega arith),
            ))
      ]
