-- ===== src/Merkle/Complete.antt =====
-- Every proof that `build_merkle_inclusion_proof` makes is accepted by
-- `verify_merkle_inclusion_path`, both of apps/core/merkle.py.
use multilingual_task_api.Prelude.{
  ℕ, zero, suc, ◌-◌, ◌^◌, ◌≤◌, ◌<◌, ◌≡◌, sym, ap, ◌∙◌, List, [], ◌∷◌, ◌++◌, arith, ok, true, ltb,
  ltb→lt, ltb→ge, Bool-cases, inl, inr, some, length, get_elem?, get_elem?-append_left,
  get_elem?-append_right, All,
}
use multilingual_task_api.Prelude.Int.{pos}
use multilingual_task_api.Prelude.Powers.{pow_between}
use multilingual_task_api.PyText.{Text}
use multilingual_task_api.PyText.Hex.{text_eq_refl}
use multilingual_task_api.Merkle.Digest.{clean-hexdigest, hexdigest-ne-empty}
use multilingual_task_api.Merkle.{
  Sha256, bit_length, decode_digest_hex, hash_merkle_leaf, compute_merkle_root,
  build_merkle_inclusion_proof, verify_merkle_inclusion_path, walk, judge,
}
use multilingual_task_api.Merkle.Tree.{
  Tree, size, raw, hex, leaf_at, audit_path, Layout, single, split, IsLeafHex,
}
use multilingual_task_api.Merkle.Split.{bit_length_lem}
use multilingual_task_api.Merkle.Root.{
  Layout-of, length-Layout, raw-IsHash, compute_merkle_root_lem,
}
use multilingual_task_api.Merkle.Path.{build_proof_lem, length-audit_path}
use multilingual_task_api.Merkle.Inclusion.{leaf_hash_at, walk-audit_path}

pub get_elem?-lt {ℓ} :
    {A : Type ℓ} (xs : List A) (m : ℕ) {x : A} → get_elem? xs m ≡ some x → m < length xs
get_elem?-lt [] m e = cc
get_elem?-lt (y ∷ xs) zero e = omega arith
get_elem?-lt (y ∷ xs) (suc m) e = omega (arith, get_elem?-lt xs m e)

-- The tree holds, at `m`, what the leaf at `m` decodes to.
pub decode-leaf_at :
    {xs : List Text} {t : Tree} (m : ℕ) {x : Text}
    → Layout xs t
    → get_elem? xs m ≡ some x
    → decode_digest_hex x ≡ ok (leaf_at t m)
decode-leaf_at zero (single dec) e = ground (arith, dec)
decode-leaf_at (suc m) (single dec) e = cc
decode-leaf_at {xs} m {x} (split {l} {r} j ys zs s p a b lay_l lay_r) e =
    let whole : length ys ≡ size l = length-Layout lay_l in
    let found : get_elem? (ys ++ zs) m ≡ some x =
      ap (λ (v : List Text). get_elem? v m) (sym s) ∙ e in
    elim (Bool-cases (ltb m (size l))) [
      | inl left ↦
          let before : m < size l = ltb→lt m (size l) left in
          rw left
            (decode-leaf_at m lay_l (sym (get_elem?-append_left ys zs m (omega arith)) ∙ found))
      | inr right ↦
          let past : size l ≤ m = ltb→ge m (size l) right in
          rw right (
            decode-leaf_at (m - size l) lay_r
              (sym (get_elem?-append_right ys zs m (m - size l) (omega arith)) ∙ found))
    ]

-- The depth of a tree of `n` leaves, as the code's `bit_length` counts it.
pub depth_bound : (n : ℕ) → n ≤ 2 ^ bit_length (n - 1)
unfolding bit_length
depth_bound zero = omega arith
depth_bound (suc zero) = omega arith
depth_bound (suc (suc n)) =
    let (j, low, high) = pow_between (suc (suc n)) (omega arith) in
    let bits : bit_length (suc (suc n) - 1) ≡ suc j =
      bit_length_lem j (suc (suc n) - 1) (omega arith) (omega arith) in
    rw bits high

module _ (h : Sha256) where
  -- Where the loop ends at the root, the verdict has no reason against the proof.
  judge_accepts :
      (t : Tree) (leaf_hash : Text)
      → judge h leaf_hash (hex h t) (record { sn = 0; running = hex h t; reasons = [] })
        ≡ record { valid = true; recomputed_root = hex h t; leaf_hash = leaf_hash; reasons = [] }
  unfolding judge
  judge_accepts t leaf_hash = rw (
    clean-hexdigest (raw h t) (raw-IsHash h t),
    hexdigest-ne-empty (raw h t) (raw-IsHash h t),
    text_eq_refl (hex h t),
  )

  verify_step :
      (leaf_hex : Text) (m n : ℕ) (path : List Text) (root : Text) {leaf_hash : Text}
      → m < n
      → hash_merkle_leaf h leaf_hex ≡ ok leaf_hash
      → verify_merkle_inclusion_path h leaf_hex (pos m) (pos n) path root
        ≡ judge h leaf_hash root (walk h path m (n - 1) leaf_hash)
  unfolding verify_merkle_inclusion_path
  verify_step leaf_hex m n path root lt e = ground (arith, e)

  -- For every list of decodable leaves and every index in it: the proof is built, the root is
  -- computed, and the verifier accepts the proof with that root and no reason against it. The
  -- proof has no more nodes than the last index has bits.
  pub inclusion_complete :
      (leaves : List Text) (m : ℕ) (leaf_hex : Text)
      → All IsLeafHex leaves
      → get_elem? leaves m ≡ some leaf_hex
      → (path : List Text) × (root : Text) × (leaf_hash : Text) × (build_merkle_inclusion_proof h
            leaves
            (pos m)
          ≡ ok path)
        × (compute_merkle_root h leaves ≡ ok root)
        × (hash_merkle_leaf h leaf_hex ≡ ok leaf_hash)
        × (verify_merkle_inclusion_path h leaf_hex (pos m) (pos (length leaves)) path root
            ≡ record { valid = true; recomputed_root = root; leaf_hash = leaf_hash; reasons = [] })
        × (length path ≤ bit_length (length leaves - 1))
  inclusion_complete leaves m leaf_hex good found =
      let lt = get_elem?-lt leaves m found in
      let (t, lay) = Layout-of leaves (omega arith) good in
      let hashed : hash_merkle_leaf h leaf_hex ≡ ok (leaf_hash_at h t m) =
        unfold hash_merkle_leaf in rw (decode-leaf_at m lay found) in
      (
        audit_path h t m,
        hex h t,
        leaf_hash_at h t m,
        build_proof_lem h m lay lt,
        compute_merkle_root_lem h lay,
        hashed,
        verify_step leaf_hex m (length leaves) (audit_path h t m) (hex h t) lt hashed
            ∙ ap (judge h (leaf_hash_at h t m) (hex h t)) (walk-audit_path h m lay lt)
            ∙ judge_accepts t (leaf_hash_at h t m),
        length-audit_path h (bit_length (length leaves - 1)) m lay (depth_bound (length leaves)),
      )
