-- ===== src/Audit.antt =====
-- apps/core/audit_chain.py, and the columns of apps/core/models.py that it uses: the hash chain over
-- an organization's audit log. The table is the list of its rows, the oldest first. SHA-256, HMAC and
-- `json.dumps` are parameters. Times are in
-- microseconds, which the encodings write as timestamps; ids are the texts of UUIDs.
pub mod Scan
pub mod Chain
pub mod Scanned
pub mod Leaves
pub mod Anchored
pub mod Signatures
pub mod Checkpoints
pub mod Verification
pub mod Anchors
pub mod Created
pub mod Intact
pub mod Runs
pub mod Sweeps
pub mod Swept
pub mod Tamper
pub mod Pinned
pub mod Keys
pub mod Offline
pub mod Samples
pub mod Tests
pub mod Documents
pub mod Bundles
pub mod Histories
use multilingual_task_api.Prelude.{
  ℕ, ◌+◌, ◌≡◌, Bool, true, false, ◌&&◌, not, Option, some, none, List, [], ◌∷◌, ◌++◌, ltb, leb,
  ◌==◌, if◌then◌else◌, replicate, filter,
}
use multilingual_task_api.PyText.{Text, Bytes, codes, hexdigest, text_eq}
use multilingual_task_api.Merkle.{Sha256}

-- The dict `canonical_doc` of an entry; the metadata stand as their JSON text.
pub record EntryDoc : Type 0 where
  pub id : Text
  pub organization_id : Option Text
  pub user_id : Option Text
  pub action : Text
  pub resource_type : Text
  pub resource_id : Text
  pub ip_address : Option Text
  pub user_agent : Text
  pub metadata : Text
  pub created_at : ℕ
  pub chain_seq : ℕ
  pub prev_hash : Text

-- The dict `envelope` of a checkpoint.
pub record Envelope : Type 0 where
  pub id : Text
  pub organization_id : Text
  pub checkpoint_seq : ℕ
  pub covered_up_to_seq : ℕ
  pub verified_entries : ℕ
  pub head_hash : Text
  pub manifest_digest : Text
  pub prev_checkpoint_hash : Text
  pub retention_until : ℕ
  pub created_at : ℕ
  pub merkle_root : Option Text

-- The dict of which a verification takes the digest.
pub record Manifest : Type 0 where
  pub organization_id : Text
  pub verified_entries : ℕ
  pub genesis_hash : Text
  pub head_hash : Text
  pub valid : Bool

-- `json.dumps` with sorted keys writes different documents differently, as `json.loads` inverts it.
pub record Encoding : Type 0 where
  pub sha256 : Sha256
  pub hmac_sha256 : Bytes → Bytes → Bytes
  pub entry_json : EntryDoc → Bytes
  pub envelope_json : Envelope → Bytes
  pub manifest_json : Manifest → Bytes
  pub entry_json-injective : (a b : EntryDoc) → entry_json a ≡ entry_json b → a ≡ b

pub data Metadata : Type 0 where
  dict : Text → Metadata
  other : Metadata

-- The columns of `AuditLog`.
pub record AuditLog : Type 0 where
  pub id : Text
  pub organization : Option Text
  pub user : Option Text
  pub action : Text
  pub resource_type : Text
  pub resource_id : Text
  pub ip_address : Option Text
  pub user_agent : Text
  pub metadata : Metadata
  pub created_at : ℕ
  pub chain_seq : ℕ
  pub prev_hash : Text
  pub entry_hash : Text

-- An entry that is not yet sealed: its time and its metadata may be missing.
pub record NewEntry : Type 0 where
  pub id : Text
  pub organization : Option Text
  pub user : Option Text
  pub action : Text
  pub resource_type : Text
  pub resource_id : Text
  pub ip_address : Option Text
  pub user_agent : Text
  pub metadata : Option Metadata
  pub created_at : Option ℕ

abbrev pub Table : Type 0
Table = List AuditLog

abbrev pub genesis_audit_hash : Text
genesis_audit_hash = replicate 64 48

-- `str(value) if value else None`
unfoldable pub or_none : Option Text → Option Text
or_none (some (c ∷ t)) = some (c ∷ t)
or_none _ = none

unfoldable pub dict_or_empty : Metadata → Text
dict_or_empty (dict t) = t
dict_or_empty other = codes "{}"

unfoldable pub canonical_doc : AuditLog → EntryDoc
unfolding or_none dict_or_empty
canonical_doc e = record {
  id = e.id;
  organization_id = e.organization;
  user_id = e.user;
  action = e.action;
  resource_type = e.resource_type;
  resource_id = e.resource_id;
  ip_address = or_none e.ip_address;
  user_agent = e.user_agent;
  metadata = dict_or_empty e.metadata;
  created_at = e.created_at;
  chain_seq = e.chain_seq;
  prev_hash = e.prev_hash;
}

unfoldable pub or_now : ℕ → Option ℕ → ℕ
or_now now none = now
or_now now (some at) = at

unfoldable pub or_empty_dict : Option Metadata → Metadata
or_empty_dict none = dict (codes "{}")
or_empty_dict (some d) = d

unfoldable pub in_scope : Option Text → AuditLog → Bool
in_scope org e = elim org [
  | none ↦ elim e.organization [ none ↦ true | some _ ↦ false ]
  | some o ↦ elim e.organization [ none ↦ false | some p ↦ text_eq p o ]
]

-- `order_by("-chain_seq").first()`: of two rows with the same number either may come first.
unfoldable pub head_row : Table → Option AuditLog
head_row [] = none
head_row (e ∷ t) = elim (head_row t) [
  | none ↦ some e
  | some f ↦ if ltb f.chain_seq e.chain_seq then some e else some f
]

unfoldable pub previous : Option AuditLog → ℕ × Text
previous none = (0, genesis_audit_hash)
previous (some e) =
    if ltb 0 e.chain_seq && not (text_eq e.entry_hash [])
    then (e.chain_seq, e.entry_hash)
    else (0, genesis_audit_hash)

module _ (x : Encoding) where
  unfoldable pub compute_audit_entry_hash : AuditLog → Text
  unfolding canonical_doc
  compute_audit_entry_hash e = hexdigest (x.sha256.digest (x.entry_json (canonical_doc e)))

  -- The entry with its place in the chain and without its hash.
  abbrev pub placed : ℕ → NewEntry → ℕ → Text → AuditLog
  placed now e seq prev = record {
    id = e.id;
    organization = e.organization;
    user = e.user;
    action = e.action;
    resource_type = e.resource_type;
    resource_id = e.resource_id;
    ip_address = e.ip_address;
    user_agent = e.user_agent;
    metadata = or_empty_dict e.metadata;
    created_at = or_now now e.created_at;
    chain_seq = seq;
    prev_hash = prev;
    entry_hash = [];
  }

  -- The lock on the scope is held from the query to the insertion, which adds the row to the table.
  unfoldable pub seal_and_insert_audit_log : ℕ → NewEntry → Table → AuditLog × Table
  unfolding in_scope head_row previous or_now or_empty_dict
  seal_and_insert_audit_log now e t =
      let head = previous (head_row (filter (in_scope e.organization) t)) in
      let unsealed = placed now e (head.0 + 1) head.1 in
      let sealed = record unsealed { entry_hash = compute_audit_entry_hash unsealed } in
      (sealed, t ++ sealed ∷ [])
