-- ===== src/Merkle/Consistency/Complete.antt =====
-- Every proof that `build_merkle_consistency_proof` makes is accepted by
-- `verify_merkle_consistency_proof`, both of apps/core/merkle.py.
use multilingual_task_api.Prelude.{
  ℕ, zero, suc, ◌+◌, ◌-◌, ◌≤◌, ◌<◌, ◌≡◌, refl, sym, ap, subst, ◌∙◌, List, [], ◌∷◌, append-nil,
  arith, ok, some, Bool, true, false, Bool-cases, inl, inr, ◌⊎◌, leb, length, length-append, take,
  All, dec_lt,
}
use multilingual_task_api.Prelude.Int.{pos}
use multilingual_task_api.Prelude.Powers.{pow_above}
use multilingual_task_api.PyText.{Text, strip, lower, text_eq}
use multilingual_task_api.PyText.Hex.{text_eq_refl}
use multilingual_task_api.Merkle.{Sha256, compute_merkle_root, empty_merkle_root}
use multilingual_task_api.Merkle.Digest.{clean-hexdigest, decode-hexdigest}
use multilingual_task_api.Merkle.Tree.{Tree, leaf, node, size, raw, hex, Layout, IsLeafHex}
use multilingual_task_api.Merkle.Root.{
  Layout-of, length-Layout, raw-IsHash, compute_merkle_root_lem,
}
use multilingual_task_api.Merkle.Consistency.{
  ConsistencyVerdict, arrived, is_exact_power_of_two, strip_ones, subproof_fuel,
  build_merkle_consistency_proof, climb_both, climb_nodes, weigh, path_nodes,
  verify_merkle_consistency_proof,
}
use multilingual_task_api.Merkle.Consistency.Plan.{
  prefix, shared, upper_path, prefix-Layout, eq_false,
}
use multilingual_task_api.Merkle.Consistency.Subproof.{plan, subproof_true, shared-prefix}
use multilingual_task_api.Merkle.Consistency.Ascent.{ascent_right}

take_all {ℓ} : {A : Type ℓ} (xs : List A) (m : ℕ) → m ≡ length xs → take m xs ≡ xs
take_all [] zero e = refl
take_all [] (suc m) e = refl
take_all (x ∷ xs) zero e = absurd (omega arith)
take_all (x ∷ xs) (suc m) e = ap (λ r. x ∷ r) (take_all xs m (omega arith))

module _ (h : Sha256) where
  hex_clean : (t : Tree) → lower (strip (hex h t)) ≡ hex h t
  hex_clean t = clean-hexdigest (raw h t) (raw-IsHash h t)

  upper_path_pos : (t : Tree) (m : ℕ) → 1 ≤ m → m < size t → 1 ≤ length (upper_path h t m)
  upper_path_pos (leaf d) m p q = absurd (omega arith)
  upper_path_pos (node l r) m p q =
      rw (eq_false m (size l + size r) (omega arith)) (elim (Bool-cases (leb m (size l))) [
        | inl inside ↦ rw inside (omega (arith, length-append (upper_path h l m) (hex h r ∷ [])))
        | inr beyond ↦
            rw beyond (omega (arith, length-append (upper_path h r (m - size l)) (hex h l ∷ [])))
      ])

  -- With the old root in front where it was left out, the nodes begin at the shared subtree.
  nodes_of_plan :
      {xs : List Text} {t : Tree} (m : ℕ)
      → Layout xs t
      → 1 ≤ m
      → m ≤ length xs
      → path_nodes m (hex h (prefix t m)) (plan h t m (is_exact_power_of_two m))
        ≡ hex h (shared t m) ∷ upper_path h t m
  unfolding path_nodes
  nodes_of_plan {t} m lay p q = elim (Bool-cases (is_exact_power_of_two m)) [
    | inl power ↦
        rw power
          (ap (λ (s : Tree). hex h s ∷ upper_path h t m) (sym (shared-prefix m lay p q power)))
    | inr other ↦ rw other
  ]

  climb_from_hex :
      (s : Tree) (nodes : List Text) (fn sn : ℕ)
      → climb_nodes h (hex h s ∷ nodes) (fn, sn) ≡ climb_both h nodes fn sn (hex h s) (hex h s)
  unfolding climb_nodes
  climb_from_hex s nodes fn sn =
      rw (climb_nodes, hex_clean s, decode-hexdigest (raw h s) (raw-IsHash h s))
        (ap (λ (t : Text). climb_both h nodes fn sn t t) (hex_clean s))

  climb_both_nil : (fn sn : ℕ) (fr sr : Text) → climb_both h [] fn sn fr sr ≡ arrived sn fr sr
  unfolding climb_both
  climb_both_nil fn sn fr sr = refl

  abbrev accepting : Text → Text → ConsistencyVerdict
  accepting old new = record {
    valid = true;
    recomputed_first_root = some old;
    recomputed_second_root = some new;
    reasons = [];
  }

  weigh_accepts :
      (old new : Tree)
      → weigh (hex h old) (hex h new) (arrived 0 (hex h old) (hex h new))
        ≡ accepting (hex h old) (hex h new)
  unfolding weigh
  weigh_accepts old new = rw (text_eq_refl (hex h old), text_eq_refl (hex h new))

  nodes_arrive :
      {xs : List Text} {t : Tree} (m : ℕ)
      → Layout xs t
      → 1 ≤ m
      → m < length xs
      → climb_nodes h
          (path_nodes m (hex h (prefix t m)) (plan h t m (is_exact_power_of_two m)))
          (strip_ones (m - 1) (m - 1) (length xs - 1))
        ≡ arrived 0 (hex h (prefix t m)) (hex h t)
  nodes_arrive {xs} {t} m lay p q =
      let start = strip_ones (m - 1) (m - 1) (length xs - 1) in
      let (e, above) = pow_above (length xs) in
      let climbs =
        ascent_right h e m 0 (m - 1) (length xs - 1) [] lay above p q (omega arith) (omega arith)
          tt in
      ap (λ v. climb_nodes h v start) (nodes_of_plan m lay p (omega arith))
      ∙ climb_from_hex (shared t m) (upper_path h t m) start.0 start.1
      ∙ ap (λ v. climb_both h v start.0 start.1 (hex h (shared t m)) (hex h (shared t m)))
          (sym (append-nil (upper_path h t m)))
      ∙ climbs
      ∙ climb_both_nil 0 0 (hex h (prefix t m)) (hex h t)

  build_proper :
      (xs : List Text) (m : ℕ)
      → 1 ≤ m
      → m < length xs
      → build_merkle_consistency_proof h xs (pos m) ≡ subproof_fuel h (suc (length xs)) xs m true
  unfolding build_merkle_consistency_proof
  build_proper xs m p q = ground arith

  verify_proper :
      (m n : ℕ) (first second : Text) (path : List Text)
      → 1 ≤ m
      → m < n
      → 1 ≤ length path
      → verify_merkle_consistency_proof h (pos m) (pos n) first second path
        ≡ weigh (lower (strip first)) (lower (strip second)) (
            climb_nodes h
              (path_nodes m (lower (strip first)) path)
              (strip_ones (m - 1) (m - 1) (n - 1)))
  unfolding verify_merkle_consistency_proof
  verify_proper m n first second path p q r = ground arith

  plan_pos : (t : Tree) (m : ℕ) (omit : Bool) → 1 ≤ m → m < size t → 1 ≤ length (plan h t m omit)
  plan_pos t m true p q = upper_path_pos t m p q
  plan_pos t m false p q = omega arith

  verify_accepts :
      {xs : List Text} {t : Tree} (m : ℕ)
      → Layout xs t
      → 1 ≤ m
      → m < length xs
      → verify_merkle_consistency_proof h
          (pos m)
          (pos (length xs))
          (hex h (prefix t m))
          (hex h t)
          (plan h t m (is_exact_power_of_two m))
        ≡ accepting (hex h (prefix t m)) (hex h t)
  verify_accepts {xs} {t} m lay p q =
      let power = is_exact_power_of_two m in
      let short : 1 ≤ length (plan h t m power) =
        plan_pos t m power p (omega (arith, length-Layout lay)) in
      rw (
        verify_proper m (length xs) (hex h (prefix t m)) (hex h t) (plan h t m power) p q short,
        hex_clean (prefix t m),
        hex_clean t,
        nodes_arrive m lay p q,
        weigh_accepts (prefix t m) t,
      )

  root_nil : compute_merkle_root h [] ≡ ok (empty_merkle_root h)
  unfolding compute_merkle_root
  root_nil = refl

  -- The root of decodable leaves is computed.
  pub root_total :
      (leaves : List Text)
      → All IsLeafHex leaves
      → (root : Text) × (compute_merkle_root h leaves ≡ ok root)
  root_total [] good = (empty_merkle_root h, root_nil)
  root_total (x ∷ xs) good =
      let (t, lay) = Layout-of (x ∷ xs) (omega arith) good in
      (hex h t, compute_merkle_root_lem h lay)

  build_trivial :
      (xs : List Text) (m : ℕ)
      → (m ≡ 0) ⊎ (m ≡ length xs)
      → build_merkle_consistency_proof h xs (pos m) ≡ ok []
  unfolding build_merkle_consistency_proof
  build_trivial xs m w = ground arith

  -- What the check of a proof must say: it is accepted, with no reason against it.
  abbrev pub Accepted : ConsistencyVerdict → Type 0
  Accepted v = (v.valid ≡ true) × (v.reasons ≡ [])

  verify_zero :
      (n : ℕ) (second : Text)
      → Accepted (verify_merkle_consistency_proof h (pos 0) (pos n) (empty_merkle_root h) second [])
  unfolding verify_merkle_consistency_proof
  verify_zero n second =
      let clean : text_eq (lower (strip (empty_merkle_root h))) (empty_merkle_root h) ≡ true =
        rw (clean-hexdigest (h.digest []) (h.digest-IsHash []))
          (text_eq_refl (empty_merkle_root h)) in
      ground (arith, clean)

  verify_same :
      (n : ℕ) (root : Text)
      → 1 ≤ n
      → Accepted (verify_merkle_consistency_proof h (pos n) (pos n) root root [])
  unfolding verify_merkle_consistency_proof
  verify_same n root p = ground (arith, text_eq_refl (lower (strip root)))

  -- For every list of decodable leaves and every earlier size of it: the proof is built, both roots
  -- are computed, the old one from the first leaves alone, and the check accepts the proof
  -- between them with no reason against it.
  pub consistency_complete :
      (leaves : List Text) (m : ℕ)
      → All IsLeafHex leaves
      → m ≤ length leaves
      → (path : List Text) × (first : Text) × (second : Text) × (build_merkle_consistency_proof h
            leaves
            (pos m)
          ≡ ok path)
        × (compute_merkle_root h (take m leaves) ≡ ok first)
        × (compute_merkle_root h leaves ≡ ok second)
        × Accepted
            (verify_merkle_consistency_proof h (pos m) (pos (length leaves)) first second path)
  consistency_complete leaves zero good q =
      let (second, whole) = root_total leaves good in
      (
        [],
        empty_merkle_root h,
        second,
        build_trivial leaves 0 (inl refl),
        root_nil,
        whole,
        verify_zero (length leaves) second,
      )
  consistency_complete leaves (suc m) good q =
      let (t, lay) = Layout-of leaves (omega arith) good in
      elim (dec_lt (suc m) (length leaves)) [
        | no all ↦
            let e : suc m ≡ length leaves = omega arith in
            (
              [],
              hex h t,
              hex h t,
              build_trivial leaves (suc m) (inr e),
              ap (compute_merkle_root h) (take_all leaves (suc m) e)
                  ∙ compute_merkle_root_lem h lay,
              compute_merkle_root_lem h lay,
              subst
                  (λ n. Accepted (
                    verify_merkle_consistency_proof h (pos (suc m)) (pos n) (hex h t) (hex h t) []))
                  e (verify_same (suc m) (hex h t) (omega arith)),
            )
        | yes part ↦
            let power = is_exact_power_of_two (suc m) in
            (
              plan h t (suc m) power,
              hex h (prefix t (suc m)),
              hex h t,
              build_proper leaves (suc m) (omega arith) part
                  ∙ subproof_true h (suc (length leaves)) (suc m) lay (omega arith) q
                      (λ e. absurd (omega arith)) (omega arith),
              compute_merkle_root_lem h (prefix-Layout (suc m) lay (omega arith) q),
              compute_merkle_root_lem h lay,
              rw (verify_accepts (suc m) lay (omega arith) part) (refl, refl),
            )
      ]
