-- ===== src/Merkle/Root.antt =====
-- `compute_merkle_root` of apps/core/merkle.py against the tree of RFC 9162.
use multilingual_task_api.Prelude.{
  ℕ, zero, suc, ◌+◌, ◌-◌, ◌*◌, ◌^◌, ◌≤◌, ◌<◌, ◌≡◌, refl, sym, ap, ◌∙◌, List, [], ◌∷◌, ◌++◌, length,
  take, drop, All, All-take, All-drop, length-append, length-take, length-drop, take-append-drop,
  take-length_append, drop-length_append, arith, ok, ◌>>=◌,
}
use multilingual_task_api.Prelude.Powers.{pow_pos, pow_double, pow_between}
use multilingual_task_api.PyText.{Text}
use multilingual_task_api.Merkle.{
  Sha256, hash_merkle_leaf, hash_merkle_children, largest_power_of_two_less_than, merkle_root_fuel,
  compute_merkle_root,
}
use multilingual_task_api.Merkle.Digest.{IsHash, decode-hexdigest}
use multilingual_task_api.Merkle.Split.{largest_power_lem}
use multilingual_task_api.Merkle.Tree.{
  Tree, leaf, node, size, raw, hex, Layout, single, split, IsLeafHex,
}

pub length-Layout : {xs : List Text} {t : Tree} → Layout xs t → length xs ≡ size t
length-Layout (single e) = refl
length-Layout (split j ys zs e p q s l r) =
    omega (arith, ap length e, length-append ys zs, length-Layout l, length-Layout r)

pub Layout-pos : {xs : List Text} {t : Tree} → Layout xs t → 1 ≤ length xs
Layout-pos (single e) = omega arith
Layout-pos (split j ys zs e p q s l r) = omega (arith, ap length e, length-append ys zs)

-- Both parts of a split list, as the slices that the code takes.
pub split_slices :
    (xs ys zs : List Text) → xs ≡ ys ++ zs → (take (length ys) xs ≡ ys) × (drop (length ys) xs ≡ zs)
split_slices xs ys zs e = (
  ap (take (length ys)) e ∙ take-length_append ys zs,
  ap (drop (length ys)) e ∙ drop-length_append ys zs,
)

Layout-fuel :
    (f : ℕ) (xs : List Text)
    → length xs ≤ f
    → 1 ≤ length xs
    → All IsLeafHex xs
    → (t : Tree) × Layout xs t
Layout-fuel f [] p q h = absurd (omega arith)
Layout-fuel f (x ∷ []) p q h = (leaf h.0.0, single h.0.1)
Layout-fuel zero (x ∷ y ∷ xs) p q h = absurd (omega arith)
Layout-fuel (suc f) (x ∷ y ∷ more) p q h =
    let xs = x ∷ y ∷ more in
    let (j, low, high) = pow_between (length xs) (omega arith) in
    let k = 2 ^ j in
    let ys = take k xs in
    let zs = drop k xs in
    let p2 : 1 ≤ k = pow_pos j in
    let d : 2 ^ suc j ≡ 2 * k = pow_double j in
    let ly : length ys ≡ k = omega (arith, length-take k xs) in
    let lz : length zs ≡ length xs - k = length-drop k xs in
    let (l, lay_l) = Layout-fuel f ys (omega arith) (omega arith) (All-take IsLeafHex k xs h) in
    let (r, lay_r) = Layout-fuel f zs (omega arith) (omega arith) (All-drop IsLeafHex k xs h) in
    (
      node l r,
      split j ys zs (sym (take-append-drop k xs)) ly (omega arith) (omega arith) lay_l lay_r,
    )

-- Every nonempty list of decodable digests is laid out as a tree.
pub Layout-of : (xs : List Text) → 1 ≤ length xs → All IsLeafHex xs → (t : Tree) × Layout xs t
Layout-of xs q h = Layout-fuel (length xs) xs (omega arith) q h

module _ (h : Sha256) where
  pub raw-IsHash : (t : Tree) → IsHash (raw h t)
  raw-IsHash (leaf d) = h.digest-IsHash (0 ∷ d)
  raw-IsHash (node l r) = h.digest-IsHash (1 ∷ raw h l ++ raw h r)

  pub hash-children-hex :
      (l r : Tree) → hash_merkle_children h (hex h l) (hex h r) ≡ ok (hex h (node l r))
  unfolding hash_merkle_children
  hash-children-hex l r =
      rw (decode-hexdigest (raw h l) (raw-IsHash l), decode-hexdigest (raw h r) (raw-IsHash r))

  merkle_root_step :
      (f : ℕ) (xs : List Text)
      → 2 ≤ length xs
      → merkle_root_fuel h (suc f) xs ≡ (do
        k ← largest_power_of_two_less_than (length xs)
        left_root ← merkle_root_fuel h f (take k xs)
        right_root ← merkle_root_fuel h f (drop k xs)
        hash_merkle_children h left_root right_root)
  unfolding merkle_root_fuel
  merkle_root_step f [] q = absurd (omega arith)
  merkle_root_step f (x ∷ []) q = absurd (omega arith)
  merkle_root_step f (x ∷ y ∷ more) q = refl

  pub merkle_root_fuel_lem :
      {xs : List Text} {t : Tree} (f : ℕ)
      → Layout xs t
      → length xs < f
      → merkle_root_fuel h f xs ≡ ok (hex h t)
  merkle_root_fuel_lem zero lay q = absurd (omega arith)
  merkle_root_fuel_lem (suc f) (single e) q = unfold merkle_root_fuel hash_merkle_leaf in rw e
  merkle_root_fuel_lem {xs} (suc f) (split {l} {r} j ys zs e p a b lay_l lay_r) q =
      let total : length xs ≡ length ys + length zs = ap length e ∙ length-append ys zs in
      let pos : 1 ≤ 2 ^ j = pow_pos j in
      let dbl : 2 ^ suc j ≡ 2 * 2 ^ j = pow_double j in
      let (front, back) = split_slices xs ys zs e in
      rw
        (
          merkle_root_step f xs (omega arith),
          largest_power_lem j (length xs) (omega arith) (omega arith),
          ← p,
          front,
          back,
          merkle_root_fuel_lem f lay_l (omega arith),
          merkle_root_fuel_lem f lay_r (omega arith),
        )
        (hash-children-hex l r)

  -- The root of a list of leaves is the hash of its tree.
  pub compute_merkle_root_lem :
      {xs : List Text} {t : Tree} → Layout xs t → compute_merkle_root h xs ≡ ok (hex h t)
  unfolding compute_merkle_root
  compute_merkle_root_lem {xs} lay = merkle_root_fuel_lem (suc (length xs)) lay (omega arith)
