-- ===== src/Audit/Tests.antt =====
-- Tests for apps/core/audit_chain.py.
use multilingual_task_api.Prelude.{
  ℕ, ◌+◌, ◌≡◌, ◌≢◌, refl, true, false, ◌⊎◌, some, none, List, [], ◌∷◌, arith, length, All, ok, err,
  value_error, Outcome, take, get_elem?, replicate,
}
use multilingual_task_api.Prelude.Int.{pos}
use multilingual_task_api.PyText.{Text, codes, fromhex, hexdigest, text_eq, strip, lower}
use multilingual_task_api.PyText.Base64.{b64decode, b64url_encode, b64url_decode}
use multilingual_task_api.PyText.Base64.Round.{decode-encode}
use multilingual_task_api.Merkle.{
  build_merkle_inclusion_proof, decode_digest_hex, compute_merkle_root, hash_merkle_leaf,
  hash_merkle_children, largest_power_of_two_less_than, bit_length, verify_merkle_inclusion_path,
}
use multilingual_task_api.Merkle.Sound.{Collision}
use multilingual_task_api.Merkle.Tests.{toy}
use multilingual_task_api.Audit.{
  AuditLog, in_scope, canonical_doc, genesis_audit_hash, compute_audit_entry_hash,
  seal_and_insert_audit_log, Table,
}
use multilingual_task_api.Audit.Scan.{
  entries_of, scan, check_entry, dict_set, dict_get, comes_first,
}
use multilingual_task_api.Audit.Signatures.{
  compute_checkpoint_hash_and_signature, is_blank, normalize_pem_bytes,
  sign_checkpoint_asymmetrically,
}
use multilingual_task_api.Audit.Checkpoints.{
  is_empty, envelope_of, hmac_sealed, AuditChainCheckpoint, checkpoints_of, Report,
}
use multilingual_task_api.Audit.Verification.{
  check_checkpoints, asymmetric_reasons, verify_organization_audit_chain,
}
use multilingual_task_api.Audit.Anchors.{
  Database, Sweep, Organization, new_checkpoint, pending_organizations, sweep,
  anchor_pending_audit_checkpoints,
}
use multilingual_task_api.Audit.Documents.{InclusionBundle, BundleVerdict, or_text, root_of}
use multilingual_task_api.Audit.Bundles.{verify_audit_inclusion_bundle_offline}
use multilingual_task_api.Audit.Chain.{IsChain}
use multilingual_task_api.Audit.Leaves.{leaves_of}
use multilingual_task_api.Audit.Created.{resolved, Agree}
use multilingual_task_api.Audit.Runs.{empty, sealed_for, run_steps, history_verifies}
use multilingual_task_api.Audit.Sweeps.{Covers}
use multilingual_task_api.Audit.Swept.{sweep-Covers, broken_hash_stops_sweep}
use multilingual_task_api.Audit.Tamper.{docs_of, entry_inputs}
use multilingual_task_api.Audit.Pinned.{checkpoint_pins}
use multilingual_task_api.Audit.Keys.{ed25519_agrees, mixed_keys_rejected}
use multilingual_task_api.Audit.Offline.{doc_inputs, bundle_sound}
use multilingual_task_api.Audit.Samples.{
  pack, packed, signer, ed25519_settings, plain_settings, mixed_settings, no_kms, some_kms, archive,
  acme, login, draw, steps, signs_well, agrees,
}

history_verifies_example :
    (db : Database) × (r : Report) × (run_steps packed signer ed25519_settings no_kms archive steps
        empty
      ≡ ok db)
    × (verify_organization_audit_chain packed signer ed25519_settings no_kms acme db.audit_logs
          db.checkpoints
        ≡ ok r)
    × (r.valid ≡ true)
    × (r.verified_entries ≡ sealed_for acme steps)
history_verifies_example =
    history_verifies packed signer ed25519_settings no_kms archive steps acme agrees

decode-encode_example :
    b64url_decode (b64url_encode (255 ∷ 254 ∷ 0 ∷ 7 ∷ [])) ≡ ok (255 ∷ 254 ∷ 0 ∷ 7 ∷ [])
decode-encode_example =
    decode-encode (255 ∷ 254 ∷ 0 ∷ 7 ∷ [])
      (omega arith, (omega arith, (omega arith, (omega arith, tt))))

ed25519_agrees_example : Agree packed signer ed25519_settings no_kms archive
unfolding strip is_blank normalize_pem_bytes text_eq
ed25519_agrees_example =
    ed25519_agrees packed signer ed25519_settings no_kms archive (codes "private") refl refl refl
      refl signs_well

abbrev acme_only : List Organization
acme_only = record { id = acme; is_active = true; created_at = 1 } ∷ []

sweep-Covers_example :
    (db : Database) × (after : Database) × (n : Sweep) × (run_steps packed signer ed25519_settings
        no_kms archive steps empty
      ≡ ok db)
    × (anchor_pending_audit_checkpoints packed signer ed25519_settings no_kms archive 100 acme_only
          draw db
        ≡ (ok n, after))
    × (n.corrupted ≡ 0)
    × (n.anchored + n.skipped ≡ length (pending_organizations 100 acme_only db.audit_logs))
    × All (λ org. Covers org after) (pending_organizations 100 acme_only db.audit_logs)
sweep-Covers_example =
    sweep-Covers packed signer ed25519_settings no_kms archive steps 100 acme_only draw agrees

abbrev first_log : AuditLog
first_log = (seal_and_insert_audit_log packed 5 (login (codes "a")) []).0

abbrev bad_log : AuditLog
bad_log = record first_log { entry_hash = replicate 64 122 }

abbrev bad_db : Database
bad_db = record { audit_logs = bad_log ∷ []; checkpoints = []; outbox = [] }

abbrev zeroes : Sweep
zeroes = record { anchored = 0; skipped = 0; corrupted = 0 }

broken_hash_stops_sweep_example :
    (verify_organization_audit_chain packed signer plain_settings no_kms acme (bad_log ∷ []) []
      ≡ err value_error)
    × (sweep packed signer plain_settings no_kms archive draw 0
          (acme ∷ codes "other" ∷ [])
          bad_db
          zeroes
        ≡ (err value_error, bad_db))
unfolding entries_of in_scope text_eq checkpoints_of decode_digest_hex strip lower fromhex
    seal_and_insert_audit_log
broken_hash_stops_sweep_example =
    broken_hash_stops_sweep packed signer plain_settings no_kms archive draw 0 acme
      (codes "other" ∷ []) bad_log bad_db zeroes refl refl refl refl

abbrev kms_row : AuditChainCheckpoint
kms_row = record {
  id = codes "c";
  organization = acme;
  checkpoint_seq = 1;
  covered_up_to_seq = 0;
  verified_entries = 0;
  head_hash = [];
  merkle_root = [];
  manifest_digest = [];
  prev_checkpoint_hash = [];
  checkpoint_hash = codes "ab";
  signature = [];
  signature_algorithm = codes "KMS-ECDSA-SHA256";
  public_key_fingerprint = hexdigest (toy.digest (2 ∷ 5 ∷ []));
  asymmetric_signature = b64url_encode (0 ∷ 0 ∷ 0 ∷ []);
  anchor_status = hmac_sealed;
  worm_uri = [];
  worm_etag = [];
  worm_version_id = [];
  retention_until = 0;
  anchor_error = [];
  created_at = 0;
}

mixed_keys_rejected_example :
    asymmetric_reasons packed signer mixed_settings
      (resolved packed signer mixed_settings some_kms archive)
      (codes "ab")
      kms_row
    ≢ []
unfolding strip is_blank normalize_pem_bytes text_eq sign_checkpoint_asymmetrically fromhex
    b64decode hexdigest
mixed_keys_rejected_example =
    mixed_keys_rejected packed signer mixed_settings some_kms archive (codes "private") (codes "ab")
      kms_row refl refl refl refl refl

abbrev result_or {ℓ} : {A : Type ℓ} → A → Outcome A → A
result_or a (ok b) = b
result_or a (err e) = a

abbrev one_log : Table
one_log = first_log ∷ []

abbrev top : Text
top = result_or [] (compute_merkle_root toy (leaves_of one_log))

abbrev first_bundle : InclusionBundle
first_bundle = record {
  entry = canonical_doc first_log;
  entry_hash = first_log.entry_hash;
  inclusion_proof = record {
    leaf_index = pos 0;
    tree_size = pos 1;
    entry_hash = first_log.entry_hash;
    leaf_hash = top;
    merkle_root = top;
    audit_path = [];
  };
  checkpoint = none;
  public_key_pem = [];
}

abbrev no_verdict : BundleVerdict
no_verdict = record {
  valid = false;
  recomputed_entry_hash = [];
  recomputed_merkle_root = [];
  leaf_hash = [];
  checkpoint_signature_verification = none;
  reasons = [];
}

first_log-IsChain : IsChain packed 1 genesis_audit_hash one_log
unfolding seal_and_insert_audit_log compute_audit_entry_hash canonical_doc
first_log-IsChain = (refl, refl, refl, tt)

bundle_sound_example :
    (m : ℕ) × (e : AuditLog) × (honest : List Text) × (pos 0 ≡ pos m)
    × (get_elem? one_log m ≡ some e)
    × (build_merkle_inclusion_proof toy (leaves_of one_log) (pos m) ≡ ok honest)
    × ((canonical_doc first_log ≡ canonical_doc e)
        ⊎ Collision toy
            (doc_inputs packed
              (canonical_doc first_log)
              first_bundle.inclusion_proof.audit_path
              m
              1)
            (doc_inputs packed (canonical_doc e) honest m 1))
unfolding verify_audit_inclusion_bundle_offline compute_merkle_root hash_merkle_leaf
    verify_merkle_inclusion_path seal_and_insert_audit_log compute_audit_entry_hash canonical_doc
    decode_digest_hex strip lower fromhex hexdigest text_eq or_text root_of pack is_empty
bundle_sound_example =
    bundle_sound packed signer one_log first_bundle []
      (result_or no_verdict (verify_audit_inclusion_bundle_offline packed signer first_bundle []))
      first_log-IsChain refl refl refl refl

abbrev no_report : Report
no_report = record {
  organization_id = [];
  valid = false;
  verified_entries = 0;
  head_chain_seq = 0;
  genesis_hash = [];
  head_hash = [];
  merkle_root = [];
  manifest_digest = [];
  violations = [];
  checkpoint_valid = false;
  checkpoints_verified = 0;
  checkpoint_violations = [];
}

abbrev two_logs : Table
two_logs = (seal_and_insert_audit_log packed 6 (login (codes "b")) one_log).1

abbrev first_report : Report
first_report =
    result_or no_report
      (verify_organization_audit_chain packed signer plain_settings no_kms acme one_log [])

abbrev first_checkpoint : AuditChainCheckpoint
first_checkpoint =
    new_checkpoint packed signer plain_settings no_kms archive (draw 1) acme first_report none

checkpoint_pins_example :
    (docs_of (take 1 (entries_of acme two_logs)) ≡ docs_of (entries_of acme one_log))
    ⊎ Collision toy
        (entry_inputs packed (take 1 (entries_of acme two_logs)))
        (entry_inputs packed (entries_of acme one_log))
unfolding verify_organization_audit_chain new_checkpoint seal_and_insert_audit_log
    compute_audit_entry_hash checkpoints_of compute_merkle_root hash_merkle_leaf
    hash_merkle_children largest_power_of_two_less_than bit_length canonical_doc decode_digest_hex
    strip lower fromhex hexdigest text_eq entries_of scan check_entry pack check_checkpoints
    dict_set sign_checkpoint_asymmetrically dict_get comes_first
    compute_checkpoint_hash_and_signature envelope_of
checkpoint_pins_example =
    checkpoint_pins packed signer plain_settings no_kms acme one_log two_logs []
      (first_checkpoint ∷ []) first_report
      (result_or no_report (
        verify_organization_audit_chain packed signer plain_settings no_kms acme two_logs
          (first_checkpoint ∷ [])))
      0 first_checkpoint refl refl refl refl refl refl refl
