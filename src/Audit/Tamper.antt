-- ===== src/Audit/Tamper.antt =====
-- What an accepted verification of apps/core/audit_chain.py shows about the entries.
use multilingual_task_api.Prelude.{
  ℕ, suc, ◌≡◌, refl, sym, ap, subst, ◌∙◌, Bool, true, false, not, inl, inr, ◌⊎◌, Option, List, [],
  ◌∷◌, ◌++◌, map, arith, length, ◌==◌, ==_iff, ok, bind-eq-ok, ok-injective, All,
}
use multilingual_task_api.PyText.{Text, Bytes, text_eq}
use multilingual_task_api.PyText.Hex.{text_eq_iff}
use multilingual_task_api.Merkle.Sound.{Collision, hexed_binds, now_collides, later_collides}
use multilingual_task_api.Audit.{
  Encoding, EntryDoc, AuditLog, canonical_doc, compute_audit_entry_hash,
}
use multilingual_task_api.Audit.Chain.{IsChain, tip}
use multilingual_task_api.Audit.Scan.{
  EntryReason, sequence_gap, prev_hash_mismatch, entry_hash_mismatch, Violation, Hashes, Scan, scan,
  noted, note_violation, entry_reasons, check_entry,
}
use multilingual_task_api.Audit.Signatures.{
  PublicKey, Cryptography, Settings, CheckpointReason, checkpoint_anchor_divergence,
  checkpoint_sequence_gap, checkpoint_prev_hash_mismatch, checkpoint_hash_mismatch,
  checkpoint_signature_mismatch, compute_checkpoint_hash_and_signature,
}
use multilingual_task_api.Audit.Checkpoints.{
  AuditChainCheckpoint, envelope_of, CheckpointViolation, Rounds, flagged, anchor_holds,
  note_checkpoint,
}
use multilingual_task_api.Audit.Verification.{
  asymmetric_reasons, root_reasons, checkpoint_reasons, check_checkpoint, check_checkpoints,
}

abbrev pub docs_of : List AuditLog → List EntryDoc
docs_of t = map canonical_doc t

pub append_empty : {A : Type 0} (xs ys : List A) → xs ++ ys ≡ [] → (xs ≡ []) × (ys ≡ [])
append_empty [] ys h = (refl, h)
append_empty (x ∷ xs) ys h = cc

note_violation-empty :
    (e : AuditLog) (n : ℕ) (rs : List EntryReason) (vs : List Violation)
    → note_violation e n rs vs ≡ []
    → (rs ≡ []) × (vs ≡ [])
unfolding note_violation
note_violation-empty e n [] vs h = (refl, h)
note_violation-empty e n (r ∷ rs) [] h = cc
note_violation-empty e n (r ∷ rs) (v ∷ vs) h = cc

noted-empty : (b : Bool) (r : EntryReason) → noted (not b) r ≡ [] → b ≡ true
unfolding noted
noted-empty true r h = refl
noted-empty false r h = cc

module _ (x : Encoding) where
  entry_reasons-empty :
      (s : Scan) (e : AuditLog)
      → entry_reasons x s e ≡ []
      → (e.chain_seq ≡ s.expected_seq)
        × (e.prev_hash ≡ s.expected_prev)
        × (e.entry_hash ≡ compute_audit_entry_hash x e)
  unfolding entry_reasons
  entry_reasons-empty s e h =
      let first = noted (not (e.chain_seq == s.expected_seq)) sequence_gap in
      let second = noted (not (text_eq e.prev_hash s.expected_prev)) prev_hash_mismatch in
      let third =
        noted (not (text_eq e.entry_hash (compute_audit_entry_hash x e))) entry_hash_mismatch in
      let (rest, d) = append_empty (first ++ second) third h in
      let (a, b) = append_empty first second rest in
      (
        (==_iff e.chain_seq s.expected_seq).0 (noted-empty _ _ a),
        (text_eq_iff e.prev_hash s.expected_prev).0 (noted-empty _ _ b),
        (text_eq_iff e.entry_hash (compute_audit_entry_hash x e)).0 (noted-empty _ _ d),
      )

  -- A scan that ends without a violation began without one, over a chain.
  pub scan-IsChain_of :
      (t : List AuditLog) (s : Scan)
      → (scan x t s).violations ≡ []
      → (s.violations ≡ []) × IsChain x s.expected_seq s.expected_prev t
  unfolding scan check_entry
  scan-IsChain_of [] s h = (h, tt)
  scan-IsChain_of (e ∷ t) s h =
      let (later, chain) = scan-IsChain_of t (check_entry x s e) h in
      let (reasons, before) =
        note_violation-empty e s.expected_seq (entry_reasons x s e) s.violations later in
      let (seq, prev, hash) = entry_reasons-empty s e reasons in
      (before, (seq, prev, hash, subst (λ (n : ℕ). IsChain x n e.entry_hash t) (omega arith) chain))

  -- What the hash function is given for an entry, and for the entries of a table.
  abbrev pub entry_input : AuditLog → Bytes
  entry_input e = x.entry_json (canonical_doc e)

  abbrev pub entry_inputs : List AuditLog → List Bytes
  entry_inputs t = map entry_input t

  -- Two chains of the same length with the same last digest have the same documents.
  pub chains_agree :
      (n : ℕ) (p q : Text) (t u : List AuditLog)
      → IsChain x n p t
      → IsChain x n q u
      → length t ≡ length u
      → tip x p t ≡ tip x q u
      → ((p ≡ q) × (docs_of t ≡ docs_of u)) ⊎ Collision x.sha256 (entry_inputs t) (entry_inputs u)
  unfolding compute_audit_entry_hash canonical_doc
  chains_agree n p q [] [] ht hu len e = inl (e, refl)
  chains_agree n p q [] (f ∷ u) ht hu len e = absurd (omega arith)
  chains_agree n p q (e ∷ t) [] ht hu len h = absurd (omega arith)
  chains_agree n p q (e ∷ t) (f ∷ u) ht hu len h =
      elim (chains_agree (suc n) e.entry_hash f.entry_hash t u ht.3 hu.3 (omega arith) h) [
        | inr bad ↦ inr (later_collides x.sha256 (entry_input e) (entry_input f) _ _ bad)
        | inl (same, rest) ↦
            elim (hexed_binds x.sha256 (entry_input e) (entry_input f) (sym ht.2 ∙ same ∙ hu.2)) [
              | inr bad ↦ inr (now_collides x.sha256 (entry_input e) (entry_input f) _ _ bad)
              | inl bytes ↦
                  let doc : canonical_doc e ≡ canonical_doc f = x.entry_json-injective _ _ bytes in
                  let link : e.prev_hash ≡ f.prev_hash = ap (λ (d : EntryDoc). d.prev_hash) doc in
                  inl (
                    sym ht.1 ∙ link ∙ hu.1,
                    ap (λ (d : EntryDoc). d ∷ docs_of t) doc
                        ∙ ap (λ (r : List EntryDoc). canonical_doc f ∷ r) rest,
                  )
            ]
      ]

flagged-empty : (b : Bool) (r : CheckpointReason) → flagged (not b) r ≡ [] → b ≡ true
unfolding flagged
flagged-empty true r h = refl
flagged-empty false r h = cc

note_checkpoint-empty :
    (ckpt : AuditChainCheckpoint) (rs : List CheckpointReason) (vs : List CheckpointViolation)
    → note_checkpoint ckpt rs vs ≡ []
    → (rs ≡ []) × (vs ≡ [])
unfolding note_checkpoint
note_checkpoint-empty ckpt [] vs h = (refl, h)
note_checkpoint-empty ckpt (r ∷ rs) [] h = cc
note_checkpoint-empty ckpt (r ∷ rs) (v ∷ vs) h = cc

module _ (x : Encoding) (c : Cryptography) (s : Settings) where
  anchored_of_reasons :
      (active : Option PublicKey) (d : Hashes) (r : Rounds) (ckpt : AuditChainCheckpoint)
      → checkpoint_reasons x c s active d r ckpt ≡ []
      → anchor_holds ckpt.covered_up_to_seq d ckpt.head_hash ≡ true
  unfolding checkpoint_reasons
  anchored_of_reasons active d r ckpt h =
      let expected = compute_checkpoint_hash_and_signature x s (envelope_of ckpt) in
      let earlier =
        flagged (not (ckpt.checkpoint_seq == r.expected_ckpt_seq)) checkpoint_sequence_gap
        ++ flagged (not (text_eq ckpt.prev_checkpoint_hash r.expected_prev_ckpt_hash))
            checkpoint_prev_hash_mismatch
        ++ flagged (not (text_eq ckpt.checkpoint_hash expected.0)) checkpoint_hash_mismatch
        ++ flagged (not (text_eq ckpt.signature expected.1)) checkpoint_signature_mismatch
        ++ asymmetric_reasons x c s active expected.0 ckpt in
      flagged-empty _ checkpoint_anchor_divergence (append_empty earlier _ h).1

  pub anchors_of_rounds :
      (active : Option PublicKey) (d : Hashes) (cs : List AuditChainCheckpoint) (r after : Rounds)
      → check_checkpoints x c s active d cs r ≡ ok after
      → after.checkpoint_violations ≡ []
      → (r.checkpoint_violations ≡ [])
        × All
            (λ (q : AuditChainCheckpoint). anchor_holds q.covered_up_to_seq d q.head_hash ≡ true)
            cs
  unfolding check_checkpoints check_checkpoint
  anchors_of_rounds active d [] r after e h =
      (ap (λ (q : Rounds). q.checkpoint_violations) (ok-injective e) ∙ h, tt)
  anchors_of_rounds active d (ckpt ∷ cs) r after e h =
      let (next, one, rest) = bind-eq-ok (check_checkpoint x c s active d r ckpt) _ e in
      let (last, root, made) =
        bind-eq-ok (root_reasons x ckpt.covered_up_to_seq d ckpt.merkle_root) _ one in
      let (later, all) = anchors_of_rounds active d cs next after rest h in
      let (reasons, before) =
        note_checkpoint-empty ckpt (checkpoint_reasons x c s active d r ckpt ++ last)
          r.checkpoint_violations
          (ap (λ (q : Rounds). q.checkpoint_violations) (ok-injective made) ∙ later) in
      (
        before,
        (
          anchored_of_reasons active d r ckpt
              (append_empty (checkpoint_reasons x c s active d r ckpt) last reasons).0,
          all,
        ),
      )
