-- ===== src/Audit/Offline.antt =====
-- What an inclusion bundle of apps/core/audit_chain.py shows to an auditor who verifies it offline.
use multilingual_task_api.Prelude.{
  ℕ, ◌-◌, Outcome-cases, zero, suc, ==_iff, ◌≡◌, refl, sym, ap, subst, ◌∙◌, true, not, ◌||◌,
  Bool-cases, inl, inr, ◌⊎◌, some, List, [], ◌∷◌, ◌++◌, arith, length, if◌then◌else◌, map, ok,
  bind-eq-ok, ok-injective, get_elem?,
}
use multilingual_task_api.Prelude.Int.{ℤ, pos, pos_part}
use multilingual_task_api.PyText.{Text, Bytes, hexdigest, strip, lower, text_eq}
use multilingual_task_api.Merkle.{
  Sha256, Walk, hash_merkle_leaf, walk, judge, refuse, decode_digest_hex, compute_merkle_root,
  verify_merkle_inclusion_path, build_merkle_inclusion_proof,
}
use multilingual_task_api.Merkle.Digest.{decode-hexdigest}
use multilingual_task_api.Merkle.Sound.{
  Clash, Collision, hexed_binds, now_collides, later_collides, inputs,
}
use multilingual_task_api.Merkle.Theorem.{inclusion_sound}
use multilingual_task_api.Audit.{
  Encoding, EntryDoc, AuditLog, genesis_audit_hash, canonical_doc, compute_audit_entry_hash,
}
use multilingual_task_api.Audit.Chain.{IsChain}
use multilingual_task_api.Audit.Leaves.{leaves_of, length-leaves_of, leaves-IsLeafHex}
use multilingual_task_api.Audit.Signatures.{Cryptography}
use multilingual_task_api.Audit.Checkpoints.{is_empty}
use multilingual_task_api.Audit.Documents.{
  InclusionBundle, BundleVerdict, BundleReason, bundle_merkle, bundle_entry_hash_mismatch, or_text,
  root_of, signature_part,
}
use multilingual_task_api.Audit.Bundles.{check_signature, verify_audit_inclusion_bundle_offline}
use multilingual_task_api.Audit.Pinned.{is_empty-eq}
use multilingual_task_api.Audit.Tamper.{append_empty}

row_of_leaf :
    (x : Encoding) (seq : ℕ) (prev : Text) (rows : List AuditLog) (m : ℕ) (there : Text)
    → IsChain x seq prev rows
    → get_elem? (leaves_of rows) m ≡ some there
    → (e : AuditLog) × (get_elem? rows m ≡ some e) × (there ≡ compute_audit_entry_hash x e)
row_of_leaf x seq prev [] m there h at = cc
row_of_leaf x seq prev (e ∷ rows) zero there h at = (e, refl, cc (h.2, at))
row_of_leaf x seq prev (e ∷ rows) (suc m) there h at =
    row_of_leaf x (suc seq) e.entry_hash rows m there h.3 at

map_empty : {A B : Type 0} (f : A → B) (xs : List A) → map f xs ≡ [] → xs ≡ []
map_empty f [] h = refl
map_empty f (x ∷ xs) h = cc

module _ (h : Sha256) where
  judged_without_reasons :
      (leaf root : Text) (w : Walk)
      → (judge h leaf root w).reasons ≡ []
      → (judge h leaf root w).valid ≡ true
  unfolding judge
  judged_without_reasons leaf root w e = (==_iff _ 0).1 (ap length e)

  -- A verdict without a reason is valid.
  valid_without_reasons :
      (leaf : Text) (i n : ℤ) (path : List Text) (root : Text)
      → (verify_merkle_inclusion_path h leaf i n path root).reasons ≡ []
      → (verify_merkle_inclusion_path h leaf i n path root).valid ≡ true
  unfolding verify_merkle_inclusion_path refuse
  valid_without_reasons leaf i n path root e = elim (Outcome-cases (hash_merkle_leaf h leaf)) [
    | inr (bad, fails) ↦ ground (arith, fails)
    | inl (leaf_hash, good) ↦ ground (
      arith,
      good,
      judged_without_reasons leaf_hash root (walk h path (pos_part i) (pos_part n - 1) leaf_hash),
    )
  ]

module _ (x : Encoding) where
  -- Hash texts that decode to the same bytes are of the same document.
  docs_bind :
      (a b : EntryDoc)
      → decode_digest_hex (hexdigest (x.sha256.digest (x.entry_json a)))
        ≡ decode_digest_hex (hexdigest (x.sha256.digest (x.entry_json b)))
      → (a ≡ b) ⊎ Clash x.sha256 (x.entry_json a) (x.entry_json b)
  docs_bind a b h =
      let da = decode-hexdigest _ (x.sha256.digest-IsHash (x.entry_json a)) in
      let db = decode-hexdigest _ (x.sha256.digest-IsHash (x.entry_json b)) in
      let same : x.sha256.digest (x.entry_json a) ≡ x.sha256.digest (x.entry_json b) =
        ok-injective (sym da ∙ h ∙ db) in
      elim (hexed_binds x.sha256 _ _ (ap hexdigest same)) [
        | inl bytes ↦ inl (x.entry_json-injective a b bytes)
        | inr bad ↦ inr bad
      ]

  abbrev pub doc_hash : EntryDoc → Text
  doc_hash d = hexdigest (x.sha256.digest (x.entry_json d))

  -- What is hashed when a document is verified: its encoding, then the leaf and the nodes.
  abbrev pub doc_inputs : EntryDoc → List Text → ℕ → ℕ → List Bytes
  doc_inputs d path m n = x.entry_json d ∷ inputs x.sha256 (doc_hash d) path m n

  module _ (c : Cryptography) where
    -- A bundle without a reason has a Merkle proof without one.
    proof_accepted :
        (b : InclusionBundle) (pem : Text) (v : BundleVerdict)
        → verify_audit_inclusion_bundle_offline x c b pem ≡ ok v
        → v.valid ≡ true
        → (verify_merkle_inclusion_path x.sha256
            (hexdigest (x.sha256.digest (x.entry_json b.entry)))
            b.inclusion_proof.leaf_index
            b.inclusion_proof.tree_size
            b.inclusion_proof.audit_path
            (or_text (root_of b.checkpoint) b.inclusion_proof.merkle_root)).valid
          ≡ true
    unfolding verify_audit_inclusion_bundle_offline is_empty
    proof_accepted b pem v e valid =
        let proof = b.inclusion_proof in
        let recomputed = hexdigest (x.sha256.digest (x.entry_json b.entry)) in
        let claimed = or_text b.entry_hash proof.entry_hash in
        let root = or_text (root_of b.checkpoint) proof.merkle_root in
        let merkle =
          verify_merkle_inclusion_path x.sha256 recomputed proof.leaf_index proof.tree_size
            proof.audit_path root in
        let (signed, _, made) =
          bind-eq-ok (check_signature x c b.checkpoint (strip (or_text pem b.public_key_pem))) _
            e in
        let first : List BundleReason =
          if text_eq claimed [] || not (text_eq claimed recomputed)
          then bundle_entry_hash_mismatch ∷ []
          else [] in
        let second : List BundleReason =
          if merkle.valid then [] else map bundle_merkle merkle.reasons in
        let none_left : first ++ second ++ signature_part signed ≡ [] =
          is_empty-eq _ (ap (λ (q : BundleVerdict). q.valid) (ok-injective made) ∙ valid) in
        let clean = (append_empty first second (append_empty (first ++ second) _ none_left).0).1 in
        elim (Bool-cases merkle.valid) [
          | inl good ↦ good
          | inr bad ↦
              valid_without_reasons x.sha256 recomputed proof.leaf_index proof.tree_size
                proof.audit_path root (map_empty bundle_merkle merkle.reasons (rw bad at clean))
        ]

    -- Let the rows be a chain, a bundle be over as many leaves as there are rows, and its root, that of the checkpoint
    -- or else the one it states, be the root of their digests. If its offline verification accepts,
    -- then its index is one of the rows, and the bundle's entry is the canonical document of the row
    -- there; otherwise at some step of the verification, the input of the hash function there and the
    -- input for that document and its built proof are different and have one digest.
    pub bundle_sound :
        (rows : List AuditLog) (b : InclusionBundle) (pem : Text) (v : BundleVerdict)
        → IsChain x 1 genesis_audit_hash rows
        → b.inclusion_proof.tree_size ≡ pos (length rows)
        → compute_merkle_root x.sha256 (leaves_of rows)
          ≡ ok (lower (strip (or_text (root_of b.checkpoint) b.inclusion_proof.merkle_root)))
        → verify_audit_inclusion_bundle_offline x c b pem ≡ ok v
        → v.valid ≡ true
        → (m : ℕ) × (e : AuditLog) × (honest : List Text) × (b.inclusion_proof.leaf_index ≡ pos m)
          × (get_elem? rows m ≡ some e)
          × (build_merkle_inclusion_proof x.sha256 (leaves_of rows) (pos m) ≡ ok honest)
          × ((b.entry ≡ canonical_doc e)
              ⊎ Collision x.sha256
                  (doc_inputs b.entry b.inclusion_proof.audit_path m (length rows))
                  (doc_inputs (canonical_doc e) honest m (length rows)))
    unfolding compute_audit_entry_hash
    bundle_sound rows b pem v chain size top e valid =
        let proof = b.inclusion_proof in
        let recomputed = hexdigest (x.sha256.digest (x.entry_json b.entry)) in
        let root = or_text (root_of b.checkpoint) proof.merkle_root in
        let over : proof.tree_size ≡ pos (length (leaves_of rows)) =
          size ∙ ap (λ (n : ℕ). pos n) (sym (length-leaves_of rows)) in
        let accepted : (verify_merkle_inclusion_path x.sha256 recomputed proof.leaf_index
              (pos (length (leaves_of rows))) proof.audit_path root).valid
            ≡ true =
          ap
            (λ (n : ℤ).
              (verify_merkle_inclusion_path x.sha256 recomputed proof.leaf_index n proof.audit_path
                root).valid)
            (sym over)
          ∙ proof_accepted b pem v e valid in
        let (m, there, honest, index, at, built, same) =
          inclusion_sound x.sha256 (leaves_of rows) recomputed proof.leaf_index proof.audit_path
            root (leaves-IsLeafHex x 1 genesis_audit_hash rows chain) top accepted in
        let (row, found, hash) = row_of_leaf x 1 genesis_audit_hash rows m there chain at in
        let A = x.entry_json b.entry in
        let B = x.entry_json (canonical_doc row) in
        let below = inputs x.sha256 recomputed proof.audit_path m (length rows) in
        let below' = inputs x.sha256 (doc_hash (canonical_doc row)) honest m (length rows) in
        (
          m,
          row,
          honest,
          index,
          found,
          built,
          elim same [
            | inr bad ↦ inr (
                later_collides x.sha256 A B below below' (
                  subst
                    (λ (n : ℕ).
                      Collision x.sha256 (inputs x.sha256 recomputed proof.audit_path m n)
                        (inputs x.sha256 (doc_hash (canonical_doc row)) honest m n))
                    (length-leaves_of rows)
                    (subst
                      (λ (l : Text).
                        Collision x.sha256
                          (inputs x.sha256 recomputed proof.audit_path m (length (leaves_of rows)))
                          (inputs x.sha256 l honest m (length (leaves_of rows))))
                      hash bad)))
            | inl leaf ↦
                elim (docs_bind b.entry (canonical_doc row) (leaf ∙ ap decode_digest_hex hash)) [
                  | inr bad ↦ inr (now_collides x.sha256 A B below below' bad)
                  | inl doc ↦ inl doc
                ]
          ],
        )
