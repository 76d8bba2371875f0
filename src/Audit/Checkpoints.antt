-- ===== src/Audit/Checkpoints.antt =====
-- The checkpoints of apps/core/audit_chain.py, their columns of apps/core/models.py, and what the
-- verification of a checkpoint reads off the hashes of the entries.
use multilingual_task_api.Prelude.{
  ℕ, zero, suc, ◌+◌, Bool, true, false, ◌&&◌, ◌||◌, not, Option, some, none, List, [], ◌∷◌, ◌++◌,
  ltb, leb, ◌==◌, if◌then◌else◌, filter, length, map,
}
use multilingual_task_api.PyText.{Text, codes, text_eq, text_leb}
use multilingual_task_api.Audit.{Envelope, genesis_audit_hash}
use multilingual_task_api.Audit.Scan.{Hashes, dict_get, Violation}
use multilingual_task_api.Audit.Signatures.{CheckpointReason}

pub data AnchorStatus : Type 0 where
  hmac_sealed s3_worm_locked anchor_error : AnchorStatus

-- The columns of `AuditChainCheckpoint`.
pub record AuditChainCheckpoint : Type 0 where
  pub id : Text
  pub organization : Text
  pub checkpoint_seq : ℕ
  pub covered_up_to_seq : ℕ
  pub verified_entries : ℕ
  pub head_hash : Text
  pub merkle_root : Text
  pub manifest_digest : Text
  pub prev_checkpoint_hash : Text
  pub checkpoint_hash : Text
  pub signature : Text
  pub signature_algorithm : Text
  pub public_key_fingerprint : Text
  pub asymmetric_signature : Text
  pub anchor_status : AnchorStatus
  pub worm_uri : Text
  pub worm_etag : Text
  pub worm_version_id : Text
  pub retention_until : ℕ
  pub anchor_error : Text
  pub created_at : ℕ

pub record CheckpointViolation : Type 0 where
  pub checkpoint_id : Text
  pub checkpoint_seq : ℕ
  pub covered_up_to_seq : ℕ
  pub reasons : List CheckpointReason

-- `if merkle_root: envelope["merkle_root"] = merkle_root`
unfoldable pub given : Text → Option Text
given [] = none
given (c ∷ t) = some (c ∷ t)

unfoldable pub envelope_of : AuditChainCheckpoint → Envelope
unfolding given
envelope_of c = record {
  id = c.id;
  organization_id = c.organization;
  checkpoint_seq = c.checkpoint_seq;
  covered_up_to_seq = c.covered_up_to_seq;
  verified_entries = c.verified_entries;
  head_hash = c.head_hash;
  manifest_digest = c.manifest_digest;
  prev_checkpoint_hash = c.prev_checkpoint_hash;
  retention_until = c.retention_until;
  created_at = c.created_at;
  merkle_root = given c.merkle_root;
}

-- `filter(organization_id=org.id).order_by("checkpoint_seq", "id")`
unfoldable pub ckpt_comes_first : AuditChainCheckpoint → AuditChainCheckpoint → Bool
ckpt_comes_first c d =
    ltb c.checkpoint_seq d.checkpoint_seq
    || (c.checkpoint_seq == d.checkpoint_seq && text_leb c.id d.id)

-- `order_by("-checkpoint_seq").first()`
unfoldable pub latest : List AuditChainCheckpoint → Option AuditChainCheckpoint
latest [] = none
latest (c ∷ t) = elim (latest t) [
  | none ↦ some c
  | some d ↦ if ltb d.checkpoint_seq c.checkpoint_seq then some c else some d
]

unfoldable pub insert_checkpoint :
    AuditChainCheckpoint → List AuditChainCheckpoint → List AuditChainCheckpoint
unfolding ckpt_comes_first
insert_checkpoint c [] = c ∷ []
insert_checkpoint c (d ∷ t) = if ckpt_comes_first c d then c ∷ d ∷ t else d ∷ insert_checkpoint c t

unfoldable pub ordered_checkpoints : List AuditChainCheckpoint → List AuditChainCheckpoint
unfolding insert_checkpoint
ordered_checkpoints [] = []
ordered_checkpoints (c ∷ t) = insert_checkpoint c (ordered_checkpoints t)

unfoldable pub checkpoints_of : Text → List AuditChainCheckpoint → List AuditChainCheckpoint
unfolding ordered_checkpoints
checkpoints_of org t = ordered_checkpoints (filter (λ c. text_eq c.organization org) t)

-- `[hash_by_seq[s] for s in range(first, first + n) if s in hash_by_seq]`
unfoldable pub hashes_in : Hashes → ℕ → ℕ → List Text
hashes_in d first zero = []
hashes_in d first (suc n) = elim (dict_get first d) [
  | none ↦ hashes_in d (first + 1) n
  | some v ↦ v ∷ hashes_in d (first + 1) n
]

unfoldable pub all_of_length_64 : List Text → Bool
all_of_length_64 [] = true
all_of_length_64 (v ∷ vs) = length v == 64 && all_of_length_64 vs

-- `sorted(hash_by_seq.keys())`, with the values.
unfoldable pub insert_key : ℕ × Text → Hashes → Hashes
insert_key e [] = e ∷ []
insert_key e (f ∷ d) = if leb e.0 f.0 then e ∷ f ∷ d else f ∷ insert_key e d

unfoldable pub sorted_by_key : Hashes → Hashes
unfolding insert_key
sorted_by_key [] = []
sorted_by_key (e ∷ d) = insert_key e (sorted_by_key d)

unfoldable pub ordered_leaf_hashes : Hashes → List Text
unfolding sorted_by_key
ordered_leaf_hashes d = filter (λ v. length v == 64) (map (λ (e : ℕ × Text). e.1) (sorted_by_key d))

unfoldable pub is_asymmetric : Text → Text → Bool
is_asymmetric algorithm signature =
    not (text_eq algorithm (codes "HMAC-SHA256")) || not (text_eq signature [])

-- `signature_algorithm or "HMAC-SHA256"`
unfoldable pub or_hmac : Text → Text
or_hmac [] = codes "HMAC-SHA256"
or_hmac (c ∷ t) = c ∷ t

unfoldable pub has_asymmetric : List AuditChainCheckpoint → Bool
unfolding is_asymmetric
has_asymmetric [] = false
has_asymmetric (c ∷ t) =
    is_asymmetric c.signature_algorithm c.asymmetric_signature || has_asymmetric t

unfoldable pub flagged : Bool → CheckpointReason → List CheckpointReason
flagged true r = r ∷ []
flagged false r = []

-- The value that was observed at the covered number is the head that was noted.
unfoldable pub anchor_holds : ℕ → Hashes → Text → Bool
anchor_holds zero d head = true
anchor_holds (suc n) d head = elim (dict_get (suc n) d) [
  | none ↦ false
  | some observed ↦ text_eq observed head
]

unfoldable pub note_checkpoint :
    AuditChainCheckpoint
    → List CheckpointReason
    → List CheckpointViolation
    → List CheckpointViolation
note_checkpoint c [] violations = violations
note_checkpoint c (r ∷ reasons) violations =
    violations
    ++ record {
      checkpoint_id = c.id;
      checkpoint_seq = c.checkpoint_seq;
      covered_up_to_seq = c.covered_up_to_seq;
      reasons = r ∷ reasons;
    }
      ∷ []

-- The local variables of the loop.
pub record Rounds : Type 0 where
  pub checkpoint_violations : List CheckpointViolation
  pub expected_ckpt_seq : ℕ
  pub expected_prev_ckpt_hash : Text

abbrev pub first_round : Rounds
first_round = record {
  checkpoint_violations = [];
  expected_ckpt_seq = 1;
  expected_prev_ckpt_hash = genesis_audit_hash;
}

pub record Report : Type 0 where
  pub organization_id : Text
  pub valid : Bool
  pub verified_entries : ℕ
  pub head_chain_seq : ℕ
  pub genesis_hash : Text
  pub head_hash : Text
  pub merkle_root : Text
  pub manifest_digest : Text
  pub violations : List Violation
  pub checkpoint_valid : Bool
  pub checkpoints_verified : ℕ
  pub checkpoint_violations : List CheckpointViolation

unfoldable pub is_empty : {A : Type 0} → List A → Bool
is_empty [] = true
is_empty (a ∷ more) = false
