-- ===== src/Audit/Documents.antt =====
-- The bundles for auditors of apps/core/audit_chain.py and the rows that they are made of. A document has
-- the columns of the row that it stands for; a text that is missing stands as empty.
use multilingual_task_api.Prelude.{
  ℕ, zero, suc, Bool, ◌&&◌, Option, some, none, List, [], ◌∷◌, ltb, leb, if◌then◌else◌, filter, map,
  sort_by, Outcome, ok, err, lookup_error, value_error, ◌>>=◌, ◌>>◌, raise_if,
}
use multilingual_task_api.Prelude.Int.{ℤ, pos, negsuc}
use multilingual_task_api.PyText.{Text, text_eq}
use multilingual_task_api.Merkle.{Reason, compute_merkle_root}
use multilingual_task_api.Audit.{Encoding, EntryDoc, AuditLog, Table, in_scope}
use multilingual_task_api.Audit.Signatures.{CheckpointReason}
use multilingual_task_api.Audit.Checkpoints.{AuditChainCheckpoint, latest}

pub record CheckpointVerdict : Type 0 where
  pub valid : Bool
  pub recomputed_checkpoint_hash : Text
  pub public_key_fingerprint : Text
  pub signature_algorithm : Text
  pub reasons : List CheckpointReason

pub data BundleReason : Type 0 where
  bundle_entry_hash_mismatch : BundleReason
  bundle_merkle : Reason → BundleReason
  bundle_checkpoint : CheckpointReason → BundleReason

pub record InclusionProof : Type 0 where
  pub leaf_index : ℤ
  pub tree_size : ℤ
  pub entry_hash : Text
  pub leaf_hash : Text
  pub merkle_root : Text
  pub audit_path : List Text

pub record InclusionBundle : Type 0 where
  pub entry : EntryDoc
  pub entry_hash : Text
  pub inclusion_proof : InclusionProof
  pub checkpoint : Option AuditChainCheckpoint
  pub public_key_pem : Text

pub record BundleVerdict : Type 0 where
  pub valid : Bool
  pub recomputed_entry_hash : Text
  pub recomputed_merkle_root : Text
  pub leaf_hash : Text
  pub checkpoint_signature_verification : Option CheckpointVerdict
  pub reasons : List BundleReason

-- `a or b`
unfoldable pub or_text : Text → Text → Text
or_text [] b = b
or_text (c ∷ t) b = c ∷ t

unfoldable pub root_of : Option AuditChainCheckpoint → Text
root_of none = []
root_of (some c) = c.merkle_root

unfoldable pub signature_part : Option CheckpointVerdict → List BundleReason
signature_part none = []
signature_part (some v) = if v.valid then [] else map bundle_checkpoint v.reasons

unfoldable pub first_entry : Text → Text → Table → Option AuditLog
first_entry org entry_id [] = none
first_entry org entry_id (e ∷ t) =
    if in_scope (some org) e && text_eq e.id entry_id then some e else first_entry org entry_id t

unfoldable pub first_checkpoint :
    Text → Text → List AuditChainCheckpoint → Option AuditChainCheckpoint
first_checkpoint org id [] = none
first_checkpoint org id (c ∷ t) =
    if text_eq c.organization org && text_eq c.id id then some c else first_checkpoint org id t

-- The latest checkpoint that covers an entry.
unfoldable pub covering : Text → ℕ → List AuditChainCheckpoint → Option AuditChainCheckpoint
covering org seq t = latest (
    filter (λ (c : AuditChainCheckpoint). text_eq c.organization org && leb seq c.covered_up_to_seq)
      t)

unfoldable pub found : {A : Type 0} → Option A → Outcome A
found none = err lookup_error
found (some a) = ok a

unfoldable pub choose_checkpoint :
    Text → ℕ → Option Text → List AuditChainCheckpoint → Outcome AuditChainCheckpoint
unfolding first_checkpoint covering found
choose_checkpoint org seq (some (i ∷ id)) t = do
  checkpoint ← found (first_checkpoint org (i ∷ id) t)
  raise_if (ltb checkpoint.covered_up_to_seq seq) value_error
  ok checkpoint
choose_checkpoint org seq _ t = elim (covering org seq t) [
  | none ↦ err value_error
  | some checkpoint ↦ ok checkpoint
]

-- `filter(organization_id, chain_seq__lte=size).order_by("chain_seq").values_list("entry_hash")`
unfoldable pub leaf_hashes_of : Text → ℕ → Table → List Text
leaf_hashes_of org size t =
    map (λ (e : AuditLog). e.entry_hash)
      (sort_by (λ (e : AuditLog). e.chain_seq)
        (filter (λ (e : AuditLog). in_scope (some org) e && leb e.chain_seq size) t))

unfoldable pub index_of : ℕ → ℤ
index_of zero = negsuc 0
index_of (suc n) = pos n

module _ (x : Encoding) where
  -- The root that the checkpoint notes, or that of the leaves.
  unfoldable pub root_or_computed : Text → List Text → Outcome Text
  root_or_computed [] leaves = compute_merkle_root x.sha256 leaves
  root_or_computed (c ∷ t) leaves = ok (c ∷ t)
