-- ===== src/Merkle/Theorem.antt =====
-- The security of inclusion proofs: `verify_merkle_inclusion_path` of apps/core/merkle.py against
-- the root that `compute_merkle_root` gives.
use multilingual_task_api.Prelude.{
  ℕ, zero, suc, ◌-◌, ◌<◌, ◌≡◌, refl, sym, ap, subst, ◌∙◌, List, [], ◌∷◌, arith, ok, true, some, inl,
  inr, ◌⊎◌, length, get_elem?, All, Outcome-cases, bind-eq-ok, ok-injective, drop,
}
use multilingual_task_api.Prelude.Int.{ℤ, pos, negsuc}
use multilingual_task_api.PyText.{Text, Bytes, hexdigest, strip, lower}
use multilingual_task_api.PyText.Hex.{text_eq_iff}
use multilingual_task_api.Merkle.{
  Sha256, Reason, decode_digest_hex, hash_merkle_leaf, compute_merkle_root, walk, judge,
  verify_merkle_inclusion_path, build_merkle_inclusion_proof,
}
use multilingual_task_api.Merkle.Tree.{hex, leaf_at, audit_path, IsLeafHex}
use multilingual_task_api.Merkle.Root.{Layout-of, compute_merkle_root_lem}
use multilingual_task_api.Merkle.Inclusion.{leaf_hash_at, walk-audit_path}
use multilingual_task_api.Merkle.Complete.{decode-leaf_at}
use multilingual_task_api.Merkle.Sound.{
  Collision, Arrives, hexed_binds, walk_binds, now_collides, later_collides, raw, raw_lem,
  leaf_input, inputs,
}
use multilingual_task_api.Merkle.Path.{build_proof_lem}

get_elem?_below {ℓ} :
    {A : Type ℓ} (xs : List A) (m : ℕ) → m < length xs → (x : A) × (get_elem? xs m ≡ some x)
get_elem?_below [] m q = elim q [ ]
get_elem?_below (x ∷ xs) zero q = (x, refl)
get_elem?_below (x ∷ xs) (suc m) q = get_elem?_below xs m (omega arith)

module _ (h : Sha256) where
  -- A verdict without a reason: the loop arrived at the root that was expected.
  judge_valid :
      (leaf_hash expected_root : Text) (sn : ℕ) (running : Text) (reasons : List Reason)
      → (judge h leaf_hash expected_root
          (record { sn = sn; running = running; reasons = reasons })).valid
        ≡ true
      → (sn ≡ 0) × (running ≡ lower (strip expected_root)) × (reasons ≡ [])
  unfolding judge
  judge_valid leaf_hash expected_root sn running [] e =
      ground (arith, text_eq_iff running (lower (strip expected_root)))
  judge_valid leaf_hash expected_root sn running (x ∷ xs) e = ground arith

  -- An accepted call passed every guard.
  accepted :
      (leaf_hex : Text) (leaf_index : ℤ) (n : ℕ) (path : List Text) (root : Text)
      → (verify_merkle_inclusion_path h leaf_hex leaf_index (pos n) path root).valid ≡ true
      → (m : ℕ) × (leaf_hash : Text) × (leaf_index ≡ pos m)
        × (m < n)
        × (hash_merkle_leaf h leaf_hex ≡ ok leaf_hash)
        × Arrives h (walk h path m (n - 1) leaf_hash) (lower (strip root))
  unfolding verify_merkle_inclusion_path
  accepted leaf_hex (negsuc i) n path root e = ground arith
  accepted leaf_hex (pos m) n path root e = elim (Outcome-cases (hash_merkle_leaf h leaf_hex)) [
    | inr (x, bad) ↦ ground (arith, bad)
    | inl (leaf_hash, good) ↦
        let w = walk h path m (n - 1) leaf_hash in
        let inside : m < n = ground arith in
        let fine : (judge h leaf_hash root w).valid ≡ true = ground (arith, good) in
        (m, leaf_hash, refl, inside, good, judge_valid leaf_hash root w.sn w.running w.reasons fine)
  ]

  leaf_decoded :
      (leaf_hex : Text) {leaf_hash : Text}
      → hash_merkle_leaf h leaf_hex ≡ ok leaf_hash
      → (decode_digest_hex leaf_hex ≡ ok (raw h leaf_hex))
        × (leaf_hash ≡ hexdigest (h.digest (leaf_input h leaf_hex)))
  unfolding hash_merkle_leaf
  leaf_decoded leaf_hex e =
      let (d, dec, last) = bind-eq-ok (decode_digest_hex leaf_hex) _ e in
      let same = raw_lem h leaf_hex dec in
      (
        dec ∙ ap (λ (v : Bytes). ok v) (sym same),
        sym (ok-injective last) ∙ ap (λ v. hexdigest (h.digest (0 ∷ v))) (sym same),
      )

  -- Two runs of the verifier to one root, from the same place, began at the same leaf.
  leaf_binds :
      (leaf there : Text) (p q : List Text) (m n : ℕ) (top : Text)
      → Arrives h (walk h p m (n - 1) (hexdigest (h.digest (leaf_input h leaf)))) top
      → Arrives h (walk h q m (n - 1) (hexdigest (h.digest (leaf_input h there)))) top
      → (raw h leaf ≡ raw h there) ⊎ Collision h (inputs h leaf p m n) (inputs h there q m n)
  leaf_binds leaf there p q m n top on on' =
      let a = leaf_input h leaf in
      let b = leaf_input h there in
      elim (walk_binds h p q m (n - 1) (hexdigest (h.digest a)) (hexdigest (h.digest b)) top
        (h.digest a, h.digest-IsHash a, refl) (h.digest b, h.digest-IsHash b, refl) on on') [
          | inr c ↦ inr (later_collides h a b _ _ c)
          | inl same ↦ elim (hexed_binds h a b same) [
            | inr c ↦ inr (now_collides h a b _ _ c)
            | inl eq ↦ inl (ap (drop 1) eq)
          ]
        ]

  -- An accepted proof against the root of `leaves` is for an index of the list, and the leaf decodes
  -- to the same bytes as the one there; otherwise at some step of the verifier, its input of the hash
  -- function there and its input on the built proof of the leaf that is there are different and have
  -- one digest. The root may be written with other letters and spaces than `compute_merkle_root`
  -- writes it.
  pub inclusion_sound :
      (leaves : List Text) (leaf_hex : Text) (leaf_index : ℤ) (path : List Text) (root : Text)
      → All IsLeafHex leaves
      → compute_merkle_root h leaves ≡ ok (lower (strip root))
      → (verify_merkle_inclusion_path h leaf_hex leaf_index (pos (length leaves)) path root).valid
        ≡ true
      → (m : ℕ) × (there : Text) × (honest : List Text) × (leaf_index ≡ pos m)
        × (get_elem? leaves m ≡ some there)
        × (build_merkle_inclusion_proof h leaves (pos m) ≡ ok honest)
        × ((decode_digest_hex leaf_hex ≡ decode_digest_hex there)
            ⊎ Collision h
                (inputs h leaf_hex path m (length leaves))
                (inputs h there honest m (length leaves)))
  inclusion_sound leaves leaf_hex leaf_index path root good top e =
      let (m, leaf_hash, here, lt, hashed, on) =
        accepted leaf_hex leaf_index (length leaves) path root e in
      let (there, found) = get_elem?_below leaves m lt in
      let (t, lay) = Layout-of leaves (omega arith) good in
      let honest = audit_path h t m in
      let stored : decode_digest_hex there ≡ ok (leaf_at t m) = decode-leaf_at m lay found in
      let (dec, made) = leaf_decoded leaf_hex hashed in
      let top_hex : hex h t ≡ lower (strip root) =
        ok-injective (sym (compute_merkle_root_lem h lay) ∙ top) in
      let same_leaf : leaf_hash_at h t m ≡ hexdigest (h.digest (leaf_input h there)) =
        ap (λ v. hexdigest (h.digest (0 ∷ v))) (sym (raw_lem h there stored)) in
      let arrives : Arrives h (walk h honest m (length leaves - 1) (leaf_hash_at h t m))
          (lower (strip root)) =
        rw (walk-audit_path h m lay lt) (refl, top_hex, refl) in
      let bound =
        leaf_binds leaf_hex there path honest m (length leaves) (lower (strip root))
          (subst (λ l. Arrives h (walk h path m (length leaves - 1) l) (lower (strip root))) made
            on)
          (subst (λ l. Arrives h (walk h honest m (length leaves - 1) l) (lower (strip root)))
            same_leaf arrives) in
      (
        m,
        there,
        honest,
        here,
        found,
        build_proof_lem h m lay lt,
        elim bound [
          | inr c ↦ inr c
          | inl same ↦
              inl (dec ∙ ap (λ (v : Bytes). ok v) (same ∙ raw_lem h there stored) ∙ sym stored)
        ],
      )
