-- ===== src/Merkle/Sound.antt =====
-- What an accepted inclusion proof of apps/core/merkle.py shows: the leaf is in the tree, or two
-- different inputs of the hash function with the same digest are at hand.
use multilingual_task_api.Prelude.{
  ℕ, suc, ◌+◌, ◌-◌, ◌≡◌, refl, get_elem?, some, ◌≢◌, sym, ap, ◌∙◌, List, [], ◌∷◌, ◌++◌, arith,
  Outcome, Exn, ok, err, subst, ==_iff, Bool, true, false, Bool-cases, inl, inr, ◌⊎◌, length,
  length-append, Outcome-cases, bind-eq-ok, ok-injective, append-parts, ◌==◌, if◌then◌else◌, drop,
}
use multilingual_task_api.PyText.{Text, Bytes, hexdigest, text_eq}
use multilingual_task_api.PyText.Hex.{text_eq_iff}
use multilingual_task_api.Merkle.{
  Sha256, Walk, IsDigest, decode_digest_hex, hash_merkle_children, walk, joins_left, climb,
  audit_path_length_mismatch, malformed_audit_path_digest,
}
use multilingual_task_api.Merkle.Digest.{IsHash, decode-hexdigest}

module _ (h : Sha256) where
  -- Two different inputs with one digest.
  abbrev pub Clash : Bytes → Bytes → Type 0
  Clash x y = (x ≢ y) × (h.digest x ≡ h.digest y)

  -- Of two runs with these inputs of the hash function, the inputs of one step clash.
  abbrev pub Collision : List Bytes → List Bytes → Type 0
  Collision xs ys =
      (i : ℕ) × (x : Bytes) × (y : Bytes) × (get_elem? xs i ≡ some x)
      × (get_elem? ys i ≡ some y)
      × Clash x y

  pub now_collides : (x y : Bytes) (xs ys : List Bytes) → Clash x y → Collision (x ∷ xs) (y ∷ ys)
  now_collides x y xs ys c = (0, x, y, refl, refl, c)

  pub later_collides :
      (x y : Bytes) (xs ys : List Bytes) → Collision xs ys → Collision (x ∷ xs) (y ∷ ys)
  later_collides x y xs ys (i, a, b, ea, eb, c) = (suc i, a, b, ea, eb, c)

  -- The bytes that a text of a digest is read as, and the inputs of the two hashes of the tree.
  pub raw : Text → Bytes
  raw t = elim (decode_digest_hex t) [ ok a ↦ a | err e ↦ [] ]

  abbrev pub leaf_input : Text → Bytes
  leaf_input t = 0 ∷ raw t

  abbrev pub node_input : Bool → Text → Text → Bytes
  node_input left sibling running =
      if left then 1 ∷ raw sibling ++ raw running else 1 ∷ raw running ++ raw sibling

  -- What the verifier's loop hashes, round by round.
  pub walk_inputs : List Text → ℕ → ℕ → Text → List Bytes
  walk_inputs [] fn sn running = []
  walk_inputs (sibling ∷ path) fn sn running =
      let input = node_input (joins_left fn sn) sibling running in
      input ∷ walk_inputs path (climb fn sn).0 (climb fn sn).1 (hexdigest (h.digest input))

  -- What the verifier hashes: the leaf, then the nodes on the way up.
  abbrev pub inputs : Text → List Text → ℕ → ℕ → List Bytes
  inputs leaf path index size =
      leaf_input leaf ∷ walk_inputs path index (size - 1) (hexdigest (h.digest (leaf_input leaf)))

  pub raw_lem : (t : Text) {a : Bytes} → decode_digest_hex t ≡ ok a → raw t ≡ a
  unfolding raw
  raw_lem t e = rw (raw, e) refl

  digest_binds : (x y : Bytes) → h.digest x ≡ h.digest y → (x ≡ y) ⊎ Clash x y
  digest_binds x y e = elim (Bool-cases (text_eq x y)) [
    | inl same ↦ inl ((text_eq_iff x y).0 same)
    | inr other ↦ inr (λ q. cc (sym other ∙ (text_eq_iff x y).1 q), e)
  ]

  pub hexdigest-injective : (a b : Bytes) → IsHash a → IsHash b → hexdigest a ≡ hexdigest b → a ≡ b
  hexdigest-injective a b va vb e =
      cc (decode-hexdigest a va, decode-hexdigest b vb, ap decode_digest_hex e)

  pub hexed_binds :
      (x y : Bytes) → hexdigest (h.digest x) ≡ hexdigest (h.digest y) → (x ≡ y) ⊎ Clash x y
  hexed_binds x y e =
      digest_binds x y
        (hexdigest-injective (h.digest x) (h.digest y) (h.digest-IsHash x) (h.digest-IsHash y) e)

  children_parts :
      (l r : Text) {next : Text}
      → hash_merkle_children h l r ≡ ok next
      → (a : Bytes) × (b : Bytes) × (decode_digest_hex l ≡ ok a)
        × (decode_digest_hex r ≡ ok b)
        × (next ≡ hexdigest (h.digest (1 ∷ a ++ b)))
  unfolding hash_merkle_children
  children_parts l r e =
      let (a, da, rest) = bind-eq-ok (decode_digest_hex l) _ e in
      let (b, db, last) = bind-eq-ok (decode_digest_hex r) _ rest in
      (a, b, da, db, sym (ok-injective last))

  -- Equal nodes whose left or right parts have the same length.
  children_bind :
      (a a' b b' : Bytes)
      → (length a ≡ length a') ⊎ (length b ≡ length b')
      → hexdigest (h.digest (1 ∷ a ++ b)) ≡ hexdigest (h.digest (1 ∷ a' ++ b'))
      → ((a ≡ a') × (b ≡ b')) ⊎ Clash (1 ∷ a ++ b) (1 ∷ a' ++ b')
  children_bind a a' b b' len e = elim (hexed_binds (1 ∷ a ++ b) (1 ∷ a' ++ b') e) [
    | inr c ↦ inr c
    | inl same ↦
        let whole : a ++ b ≡ a' ++ b' = ap (drop 1) same in
        let sums : length a + length b ≡ length a' + length b' =
          sym (length-append a b) ∙ ap length whole ∙ length-append a' b' in
        inl (append-parts a a' b b' (omega arith) whole)
  ]

  IsDigest-decodes : (t : Text) (d : IsDigest t) → decode_digest_hex t ≡ ok d.0
  IsDigest-decodes t d = ap decode_digest_hex d.2 ∙ decode-hexdigest d.0 d.1

  IsDigest-length : (t : Text) {a : Bytes} → IsDigest t → decode_digest_hex t ≡ ok a → length a ≡ 32
  IsDigest-length t d e = ap length (ok-injective (sym e ∙ IsDigest-decodes t d)) ∙ d.1.0

  IsDigest-eq :
      (t t' : Text) {a a' : Bytes}
      → IsDigest t
      → IsDigest t'
      → decode_digest_hex t ≡ ok a
      → decode_digest_hex t' ≡ ok a'
      → a ≡ a'
      → t ≡ t'
  IsDigest-eq t t' d d' e e' q =
      d.2
      ∙ ap hexdigest (
          ok-injective (sym (IsDigest-decodes t d) ∙ e)
          ∙ q
          ∙ ok-injective (sym e' ∙ IsDigest-decodes t' d'))
      ∙ sym d'.2

  node_lem :
      (l r : Text) {a b : Bytes}
      → decode_digest_hex l ≡ ok a
      → decode_digest_hex r ≡ ok b
      → 1 ∷ raw l ++ raw r ≡ 1 ∷ a ++ b
  node_lem l r {a} {b} da db =
      ap (λ x. 1 ∷ x ++ raw r) (raw_lem l da) ∙ ap (λ x. 1 ∷ a ++ x) (raw_lem r db)

  -- Two joins at the same place with the same result had the same digest below them.
  join_binds :
      (left : Bool) (s s' r r' : Text) {next : Text}
      → IsDigest r
      → IsDigest r'
      → (if left then hash_merkle_children h s r else hash_merkle_children h r s) ≡ ok next
      → (if left then hash_merkle_children h s' r' else hash_merkle_children h r' s') ≡ ok next
      → (r ≡ r') ⊎ Clash (node_input left s r) (node_input left s' r')
  join_binds true s s' r r' d d' e e' =
      let (a, b, da, db, n) = children_parts s r e in
      let (a', b', da', db', n') = children_parts s' r' e' in
      let len : length b ≡ length b' = IsDigest-length r d db ∙ sym (IsDigest-length r' d' db') in
      elim (children_bind a a' b b' (inr len) (sym n ∙ n')) [
        | inl same ↦ inl (IsDigest-eq r r' d d' db db' same.1)
        | inr c ↦ inr (
            subst (λ x. Clash x (node_input true s' r')) (sym (node_lem s r da db))
              (subst (λ y. Clash (1 ∷ a ++ b) y) (sym (node_lem s' r' da' db')) c))
      ]
  join_binds false s s' r r' d d' e e' =
      let (a, b, da, db, n) = children_parts r s e in
      let (a', b', da', db', n') = children_parts r' s' e' in
      let len : length a ≡ length a' = IsDigest-length r d da ∙ sym (IsDigest-length r' d' da') in
      elim (children_bind a a' b b' (inl len) (sym n ∙ n')) [
        | inl same ↦ inl (IsDigest-eq r r' d d' da da' same.0)
        | inr c ↦ inr (
            subst (λ x. Clash x (node_input false s' r')) (sym (node_lem r s da db))
              (subst (λ y. Clash (1 ∷ a ++ b) y) (sym (node_lem r' s' da' db')) c))
      ]

  joined :
      (left : Bool) (s r : Text) {next : Text}
      → (if left then hash_merkle_children h s r else hash_merkle_children h r s) ≡ ok next
      → next ≡ hexdigest (h.digest (node_input left s r))
  joined true s r e =
      let (a, b, da, db, n) = children_parts s r e in
      n ∙ ap (λ x. hexdigest (h.digest x)) (sym (node_lem s r da db))
  joined false s r e =
      let (a, b, da, db, n) = children_parts r s e in
      n ∙ ap (λ x. hexdigest (h.digest x)) (sym (node_lem r s da db))

  join-IsDigest :
      (left : Bool) (s r : Text) {next : Text}
      → (if left then hash_merkle_children h s r else hash_merkle_children h r s) ≡ ok next
      → IsDigest next
  join-IsDigest true s r e =
      let (a, b, _, _, n) = children_parts s r e in
      (h.digest (1 ∷ a ++ b), h.digest-IsHash (1 ∷ a ++ b), n)
  join-IsDigest false s r e =
      let (a, b, _, _, n) = children_parts r s e in
      (h.digest (1 ∷ a ++ b), h.digest-IsHash (1 ∷ a ++ b), n)

  -- One round of the loop by how it ends.
  abbrev round : Text → ℕ → ℕ → Text → Outcome Text
  round s fn sn r =
      if joins_left fn sn then hash_merkle_children h s r else hash_merkle_children h r s

  walk_done :
      (s : Text) (p : List Text) (fn sn : ℕ) (r : Text)
      → sn == 0 ≡ true
      → (walk h (s ∷ p) fn sn r).reasons ≡ audit_path_length_mismatch ∷ []
  unfolding walk
  walk_done s p fn sn r e = rw (walk, e)

  walk_err :
      (s : Text) (p : List Text) (fn sn : ℕ) (r : Text) {x : Exn}
      → sn == 0 ≡ false
      → round s fn sn r ≡ err x
      → (walk h (s ∷ p) fn sn r).reasons ≡ malformed_audit_path_digest ∷ []
  unfolding walk
  walk_err s p fn sn r e q = rw (walk, e, q)

  walk_ok :
      (s : Text) (p : List Text) (fn sn : ℕ) (r : Text) {next : Text}
      → sn == 0 ≡ false
      → round s fn sn r ≡ ok next
      → walk h (s ∷ p) fn sn r ≡ walk h p (climb fn sn).0 (climb fn sn).1 next
  unfolding walk
  walk_ok s p fn sn r e q = rw (walk, e, q)

  -- The loop ended at the root `top` with nothing against the proof.
  abbrev pub Arrives : Walk → Text → Type 0
  Arrives w top = (w.sn ≡ 0) × (w.running ≡ top) × (w.reasons ≡ [])

  -- A loop with a sibling left arrives only through a join.
  walk_step :
      (s : Text) (p : List Text) (fn sn : ℕ) (r top : Text)
      → Arrives (walk h (s ∷ p) fn sn r) top
      → (next : Text) × (round s fn sn r ≡ ok next)
        × Arrives (walk h p (climb fn sn).0 (climb fn sn).1 next) top
        × (sn ≢ 0)
  walk_step s p fn sn r top w = elim (Bool-cases (sn == 0)) [
    | inl done ↦ cc (walk_done s p fn sn r done, w.2)
    | inr more ↦ elim (Outcome-cases (round s fn sn r)) [
      | inr (x, q) ↦ cc (walk_err s p fn sn r more q, w.2)
      | inl (next, q) ↦
          let same : walk h (s ∷ p) fn sn r ≡ walk h p (climb fn sn).0 (climb fn sn).1 next =
            walk_ok s p fn sn r more q in
          (next, q, subst (λ v. Arrives v top) same w, λ z. cc (sym more ∙ (==_iff sn 0).1 z))
    ]
  ]

  -- Two loops from the same place of a tree that arrive at the same root began at the same digest.
  pub walk_binds :
      (p p' : List Text) (fn sn : ℕ) (r r' top : Text)
      → IsDigest r
      → IsDigest r'
      → Arrives (walk h p fn sn r) top
      → Arrives (walk h p' fn sn r') top
      → (r ≡ r') ⊎ Collision (walk_inputs p fn sn r) (walk_inputs p' fn sn r')
  unfolding walk_inputs
  walk_binds [] [] fn sn r r' top d d' w w' = unfold walk in inl (w.1 ∙ sym w'.1)
  walk_binds [] (s' ∷ p') fn sn r r' top d d' w w' =
      unfold walk in absurd ((walk_step s' p' fn sn r' top w').3 w.0)
  walk_binds (s ∷ p) [] fn sn r r' top d d' w w' =
      unfold walk in absurd ((walk_step s p fn sn r top w).3 w'.0)
  walk_binds (s ∷ p) (s' ∷ p') fn sn r r' top d d' w w' =
      let (next, q, on, _) = walk_step s p fn sn r top w in
      let (next', q', on', _) = walk_step s' p' fn sn r' top w' in
      let left = joins_left fn sn in
      let up = climb fn sn in
      elim (walk_binds p p' up.0 up.1 next next' top (join-IsDigest left s r q)
        (join-IsDigest left s' r' q') on on') [
          | inr c ↦ inr (
              later_collides (node_input left s r) (node_input left s' r') _ _ (
                subst
                  (λ n.
                    Collision (walk_inputs p up.0 up.1 n)
                      (walk_inputs p' up.0 up.1 (hexdigest (h.digest (node_input left s' r')))))
                  (joined left s r q)
                  (subst
                    (λ n. Collision (walk_inputs p up.0 up.1 next) (walk_inputs p' up.0 up.1 n))
                    (joined left s' r' q') c)))
          | inl same ↦
              elim (join_binds left s s' r r' d d' q (q' ∙ ap (λ (t : Text). ok t) (sym same))) [
                | inl eq ↦ inl eq
                | inr c ↦ inr (now_collides (node_input left s r) (node_input left s' r') _ _ c)
              ]
        ]
