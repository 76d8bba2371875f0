-- ===== src/Audit/Verification.antt =====
-- `verify_organization_audit_chain` of apps/core/audit_chain.py: the loop over the checkpoints, and the
-- report. The rows are read from the primary database or a replica alike.
use multilingual_task_api.Prelude.{
  ℕ, zero, suc, ◌+◌, Bool, true, false, ◌&&◌, not, Option, some, none, List, [], ◌∷◌, ◌++◌, ◌==◌,
  length, Outcome, ok, err, ◌>>=◌,
}
use multilingual_task_api.PyText.{Text, hexdigest, text_eq}
use multilingual_task_api.Merkle.{compute_merkle_root, empty_merkle_root}
use multilingual_task_api.Audit.{Encoding, Table, genesis_audit_hash}
use multilingual_task_api.Audit.Scan.{Hashes, Scan, start, entries_of, scan}
use multilingual_task_api.Audit.Signatures.{
  CheckpointReason, checkpoint_sequence_gap, checkpoint_prev_hash_mismatch,
  checkpoint_hash_mismatch, checkpoint_signature_mismatch, checkpoint_public_key_unavailable,
  checkpoint_anchor_divergence, checkpoint_merkle_root_mismatch, PublicKey, Cryptography, Settings,
  Kms, compute_checkpoint_hash_and_signature, verify_signature_with_public_key,
  resolve_verification_public_key,
}
use multilingual_task_api.Audit.Checkpoints.{
  AuditChainCheckpoint, envelope_of, checkpoints_of, hashes_in, all_of_length_64,
  ordered_leaf_hashes, is_asymmetric, or_hmac, has_asymmetric, flagged, anchor_holds,
  note_checkpoint, Rounds, first_round, Report, is_empty,
}

module _ (x : Encoding) where
  -- Whether the root that a checkpoint notes is the root of the hashes that it covers.
  unfoldable pub merkle_holds : ℕ → Hashes → Text → Outcome Bool
  unfolding hashes_in all_of_length_64
  merkle_holds zero d root = ok (text_eq (empty_merkle_root x.sha256) root)
  merkle_holds (suc n) d root =
      let leaf_list = hashes_in d 1 (suc n) in
      elim (length leaf_list == suc n && all_of_length_64 leaf_list) [
        | false ↦ ok false
        | true ↦ do
          expected_merkle ← compute_merkle_root x.sha256 leaf_list
          ok (text_eq expected_merkle root)
      ]

  unfoldable pub root_reasons : ℕ → Hashes → Text → Outcome (List CheckpointReason)
  unfolding merkle_holds flagged
  root_reasons anchored_seq d root = elim (text_eq root []) [
    | true ↦ ok []
    | false ↦ do
      holds ← merkle_holds anchored_seq d root
      ok (flagged (not holds) checkpoint_merkle_root_mismatch)
  ]

  module _ (c : Cryptography) (s : Settings) where
    unfoldable pub asymmetric_reasons :
        Option PublicKey → Text → AuditChainCheckpoint → List CheckpointReason
    unfolding is_asymmetric or_hmac
    asymmetric_reasons active exp_hash ckpt =
        elim (is_asymmetric (or_hmac ckpt.signature_algorithm) ckpt.asymmetric_signature) [
          | false ↦ []
          | true ↦ elim active [
            | none ↦ checkpoint_public_key_unavailable ∷ []
            | some key ↦
                verify_signature_with_public_key x c key exp_hash (or_hmac ckpt.signature_algorithm)
                  ckpt.asymmetric_signature ckpt.public_key_fingerprint
          ]
        ]

    -- The reasons before the last, which needs the Merkle root.
    unfoldable pub checkpoint_reasons :
        Option PublicKey → Hashes → Rounds → AuditChainCheckpoint → List CheckpointReason
    unfolding flagged anchor_holds asymmetric_reasons
    checkpoint_reasons active d r ckpt =
        let expected = compute_checkpoint_hash_and_signature x s (envelope_of ckpt) in
        flagged (not (ckpt.checkpoint_seq == r.expected_ckpt_seq)) checkpoint_sequence_gap
        ++ flagged (not (text_eq ckpt.prev_checkpoint_hash r.expected_prev_ckpt_hash))
            checkpoint_prev_hash_mismatch
        ++ flagged (not (text_eq ckpt.checkpoint_hash expected.0)) checkpoint_hash_mismatch
        ++ flagged (not (text_eq ckpt.signature expected.1)) checkpoint_signature_mismatch
        ++ asymmetric_reasons active expected.0 ckpt
        ++ flagged (not (anchor_holds ckpt.covered_up_to_seq d ckpt.head_hash))
            checkpoint_anchor_divergence

    -- One round.
    unfoldable pub check_checkpoint :
        Option PublicKey → Hashes → Rounds → AuditChainCheckpoint → Outcome Rounds
    unfolding checkpoint_reasons root_reasons note_checkpoint
    check_checkpoint active d r ckpt = do
      last ← root_reasons ckpt.covered_up_to_seq d ckpt.merkle_root
      ok (record {
        checkpoint_violations =
            note_checkpoint ckpt (checkpoint_reasons active d r ckpt ++ last)
              r.checkpoint_violations;
        expected_ckpt_seq = ckpt.checkpoint_seq + 1;
        expected_prev_ckpt_hash = ckpt.checkpoint_hash;
      })

    unfoldable pub check_checkpoints :
        Option PublicKey → Hashes → List AuditChainCheckpoint → Rounds → Outcome Rounds
    unfolding check_checkpoint
    check_checkpoints active d [] r = ok r
    check_checkpoints active d (ckpt ∷ t) r = do
      next ← check_checkpoint active d r ckpt
      check_checkpoints active d t next

    -- The key of the `try` block: an exception leaves none.
    unfoldable pub active_public_key : Kms → List AuditChainCheckpoint → Option PublicKey
    unfolding has_asymmetric
    active_public_key k checkpoints = elim (has_asymmetric checkpoints) [
      | false ↦ none
      | true ↦ elim (resolve_verification_public_key x c s k) [ ok key ↦ key | err e ↦ none ]
    ]

    unfoldable pub report_of : Text → Scan → Rounds → ℕ → Text → Report
    unfolding is_empty
    report_of org found rounds count root =
        let chain_valid = is_empty found.violations && is_empty rounds.checkpoint_violations in
        record {
          organization_id = org;
          valid = chain_valid;
          verified_entries = found.verified_count;
          head_chain_seq = found.max_chain_seq;
          genesis_hash = genesis_audit_hash;
          head_hash = found.head_hash;
          merkle_root = root;
          manifest_digest = hexdigest (
              x.sha256.digest (
                x.manifest_json (record {
                  organization_id = org;
                  verified_entries = found.verified_count;
                  genesis_hash = genesis_audit_hash;
                  head_hash = found.head_hash;
                  valid = chain_valid;
                })));
          violations = found.violations;
          checkpoint_valid = is_empty rounds.checkpoint_violations;
          checkpoints_verified = count;
          checkpoint_violations = rounds.checkpoint_violations;
        }

    unfoldable pub verify_organization_audit_chain :
        Kms → Text → Table → List AuditChainCheckpoint → Outcome Report
    unfolding active_public_key ordered_leaf_hashes report_of
    verify_organization_audit_chain k org entries_table checkpoint_table = do
      let checkpoints = checkpoints_of org checkpoint_table
      let found = scan x (entries_of org entries_table) start
      rounds ←
          check_checkpoints (active_public_key k checkpoints) found.hash_by_seq checkpoints
            first_round
      chain_merkle_root ← compute_merkle_root x.sha256 (ordered_leaf_hashes found.hash_by_seq)
      ok (report_of org found rounds (length checkpoints) chain_merkle_root)
