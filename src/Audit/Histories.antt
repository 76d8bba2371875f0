-- ===== src/Audit/Histories.antt =====
-- The bundles that prove one checkpoint to continue another, of apps/core/audit_chain.py.
use multilingual_task_api.Prelude.{
  ℕ, not, Option, some, none, List, [], ◌∷◌, ltb, ◌==◌, if◌then◌else◌, filter, take, sort_by,
  length, Outcome, ok, err, validation_error, lookup_error, value_error, ◌>>=◌, ◌>>◌, raise_if,
}
use multilingual_task_api.Prelude.Int.{pos}
use multilingual_task_api.PyText.{Text, text_eq}
use multilingual_task_api.Merkle.Consistency.{
  ConsistencyVerdict, build_merkle_consistency_proof, verify_merkle_consistency_proof,
}
use multilingual_task_api.Audit.{Encoding, Table}
use multilingual_task_api.Audit.Checkpoints.{AuditChainCheckpoint}
use multilingual_task_api.Audit.Documents.{found, leaf_hashes_of, root_or_computed}

pub record ConsistencyPayload : Type 0 where
  pub from_checkpoint_seq : ℕ
  pub to_checkpoint_seq : ℕ
  pub first_tree_size : ℕ
  pub second_tree_size : ℕ
  pub first_merkle_root : Text
  pub second_merkle_root : Text
  pub consistency_path : List Text
  pub verification : ConsistencyVerdict

unfoldable pub by_seq : ℕ → List AuditChainCheckpoint → Option AuditChainCheckpoint
by_seq seq [] = none
by_seq seq (c ∷ t) = elim (by_seq seq t) [
  | none ↦ if c.checkpoint_seq == seq then some c else none
  | some d ↦ some d
]

unfoldable pub last_of : AuditChainCheckpoint → List AuditChainCheckpoint → AuditChainCheckpoint
last_of c [] = c
last_of c (d ∷ t) = last_of d t

unfoldable pub asked_or :
    Option ℕ → AuditChainCheckpoint → List AuditChainCheckpoint → Option AuditChainCheckpoint
unfolding by_seq
asked_or none usual t = some usual
asked_or (some seq) usual t = by_seq seq t

-- The checkpoints of an organization in order of their numbers.
unfoldable pub numbered : Text → List AuditChainCheckpoint → List AuditChainCheckpoint
numbered org t =
    sort_by (λ (c : AuditChainCheckpoint). c.checkpoint_seq)
      (filter (λ (c : AuditChainCheckpoint). text_eq c.organization org) t)

module _ (x : Encoding) where
  unfoldable pub payload_between :
      Text → Table → AuditChainCheckpoint → AuditChainCheckpoint → Outcome ConsistencyPayload
  payload_between org logs first second = do
    raise_if (ltb second.checkpoint_seq first.checkpoint_seq) value_error
    let leaves = leaf_hashes_of org second.covered_up_to_seq logs
    raise_if (not (length leaves == second.covered_up_to_seq)) validation_error
    first_root ← root_or_computed x first.merkle_root (take first.covered_up_to_seq leaves)
    second_root ← root_or_computed x second.merkle_root leaves
    path ← build_merkle_consistency_proof x.sha256 leaves (pos first.covered_up_to_seq)
    ok (record {
      from_checkpoint_seq = first.checkpoint_seq;
      to_checkpoint_seq = second.checkpoint_seq;
      first_tree_size = first.covered_up_to_seq;
      second_tree_size = second.covered_up_to_seq;
      first_merkle_root = first_root;
      second_merkle_root = second_root;
      consistency_path = path;
      verification =
          verify_merkle_consistency_proof x.sha256 (pos first.covered_up_to_seq)
            (pos second.covered_up_to_seq) first_root second_root path;
    })

  unfoldable pub build_checkpoint_consistency_bundle :
      Text → Option ℕ → Option ℕ → Table → List AuditChainCheckpoint → Outcome ConsistencyPayload
  unfolding last_of asked_or payload_between
  build_checkpoint_consistency_bundle org from_seq to_seq logs checkpoints =
      elim (numbered org checkpoints) [
        | [] ↦ err lookup_error
        | c ∷ t ↦ do
          first ← found (asked_or from_seq c (c ∷ t))
          second ← found (asked_or to_seq (last_of c t) (c ∷ t))
          payload_between org logs first second
      ]
