-- ===== src/Audit/Bundles.antt =====
-- The bundles that prove an entry to be in a checkpoint, and their verification without the database, of
-- apps/core/audit_chain.py.
use multilingual_task_api.Prelude.{
  true, false, ◌&&◌, ◌||◌, not, Option, some, none, List, [], ◌∷◌, ◌++◌, ◌==◌, if◌then◌else◌, map,
  length, Outcome, ok, validation_error, ◌>>=◌, ◌>>◌, raise_if,
}
use multilingual_task_api.Prelude.Int.{pos}
use multilingual_task_api.PyText.{Text, strip, hexdigest, text_eq}
use multilingual_task_api.Merkle.{build_merkle_inclusion_proof, verify_merkle_inclusion_path}
use multilingual_task_api.Audit.{Encoding, AuditLog, Table, canonical_doc}
use multilingual_task_api.Audit.Signatures.{
  checkpoint_hash_mismatch, Cryptography, Settings, Kms, compute_canonical_checkpoint_hash,
  fingerprint, normalize_pem_bytes, verify_signature_with_public_key,
  resolve_verification_public_key,
}
use multilingual_task_api.Audit.Checkpoints.{AuditChainCheckpoint, envelope_of, or_hmac, is_empty}
use multilingual_task_api.Audit.Documents.{
  signature_part, CheckpointVerdict, bundle_entry_hash_mismatch, bundle_merkle, InclusionBundle,
  BundleVerdict, or_text, root_of, first_entry, found, choose_checkpoint, leaf_hashes_of, index_of,
  root_or_computed,
}

module _ (x : Encoding) (c : Cryptography) where
  unfoldable pub verify_checkpoint_offline_bundle :
      AuditChainCheckpoint → Text → Outcome CheckpointVerdict
  verify_checkpoint_offline_bundle checkpoint public_key_pem = do
    let recomputed = compute_canonical_checkpoint_hash x (envelope_of checkpoint)
    key ← c.load_pem_public_key (normalize_pem_bytes public_key_pem)
    let algorithm = or_hmac checkpoint.signature_algorithm
    let reasons =
        (if text_eq checkpoint.checkpoint_hash recomputed
          then []
          else checkpoint_hash_mismatch ∷ [])
        ++ verify_signature_with_public_key x c key recomputed algorithm
            checkpoint.asymmetric_signature checkpoint.public_key_fingerprint
    ok (record {
      valid = is_empty reasons;
      recomputed_checkpoint_hash = recomputed;
      public_key_fingerprint = fingerprint x c key;
      signature_algorithm = algorithm;
      reasons = reasons;
    })

  -- Without a key or without a signature the checkpoint is not looked at.
  unfoldable pub check_signature :
      Option AuditChainCheckpoint → Text → Outcome (Option CheckpointVerdict)
  unfolding verify_checkpoint_offline_bundle
  check_signature none pem = ok none
  check_signature (some checkpoint) pem =
      elim (not (text_eq pem []) && not (text_eq checkpoint.asymmetric_signature [])) [
        | false ↦ ok none
        | true ↦ do verdict ← verify_checkpoint_offline_bundle checkpoint pem; ok (some verdict)
      ]

  unfoldable pub verify_audit_inclusion_bundle_offline :
      InclusionBundle → Text → Outcome BundleVerdict
  unfolding or_text root_of check_signature signature_part
  verify_audit_inclusion_bundle_offline bundle public_key_pem = do
    let proof = bundle.inclusion_proof
    let claimed = or_text bundle.entry_hash proof.entry_hash
    let recomputed = hexdigest (x.sha256.digest (x.entry_json bundle.entry))
    let merkle =
        verify_merkle_inclusion_path x.sha256 recomputed proof.leaf_index proof.tree_size
          proof.audit_path (or_text (root_of bundle.checkpoint) proof.merkle_root)
    signed ←
        check_signature bundle.checkpoint (strip (or_text public_key_pem bundle.public_key_pem))
    let reasons =
        (if text_eq claimed [] || not (text_eq claimed recomputed)
          then bundle_entry_hash_mismatch ∷ []
          else [])
        ++ (if merkle.valid then [] else map bundle_merkle merkle.reasons)
        ++ signature_part signed
    ok (record {
      valid = is_empty reasons;
      recomputed_entry_hash = recomputed;
      recomputed_merkle_root = merkle.recomputed_root;
      leaf_hash = merkle.leaf_hash;
      checkpoint_signature_verification = signed;
      reasons = reasons;
    })

  -- The PEM text of `get_active_transparency_public_key_metadata`.
  unfoldable pub active_pem : Settings → Kms → Outcome Text
  active_pem s k = do
    key ← resolve_verification_public_key x c s k
    ok (elim key [ none ↦ [] | some p ↦ c.spki_pem p ])

  unfoldable pub bundle_of :
      AuditLog → AuditChainCheckpoint → List Text → Text → Text → InclusionBundle
  unfolding index_of or_text
  bundle_of entry checkpoint path root pem =
      let size = pos checkpoint.covered_up_to_seq in
      record {
        entry = canonical_doc entry;
        entry_hash = entry.entry_hash;
        inclusion_proof = record {
          leaf_index = index_of entry.chain_seq;
          tree_size = size;
          entry_hash = entry.entry_hash;
          leaf_hash =
              (verify_merkle_inclusion_path x.sha256 entry.entry_hash (index_of entry.chain_seq)
                size path root).leaf_hash;
          merkle_root = root;
          audit_path = path;
        };
        checkpoint = some (record checkpoint { merkle_root = or_text checkpoint.merkle_root root });
        public_key_pem = pem;
      }

  unfoldable pub build_audit_entry_inclusion_bundle :
      Settings
      → Kms
      → Text
      → Text
      → Option Text
      → Table
      → List AuditChainCheckpoint
      → Outcome (InclusionBundle × BundleVerdict)
  unfolding first_entry choose_checkpoint leaf_hashes_of root_or_computed active_pem bundle_of
  build_audit_entry_inclusion_bundle s k org entry_id checkpoint_id logs checkpoints = do
    entry ← found (first_entry org entry_id logs)
    checkpoint ← choose_checkpoint org entry.chain_seq checkpoint_id checkpoints
    let leaves = leaf_hashes_of org checkpoint.covered_up_to_seq logs
    raise_if (not (length leaves == checkpoint.covered_up_to_seq)) validation_error
    path ← build_merkle_inclusion_proof x.sha256 leaves (index_of entry.chain_seq)
    root ← root_or_computed x checkpoint.merkle_root leaves
    pem ← active_pem s k
    let bundle = bundle_of entry checkpoint path root pem
    verdict ← verify_audit_inclusion_bundle_offline bundle pem
    ok (bundle, verdict)
