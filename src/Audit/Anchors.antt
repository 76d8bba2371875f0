-- ===== src/Audit/Anchors.antt =====
-- `create_organization_audit_checkpoint` and `anchor_pending_audit_checkpoints` of
-- apps/core/audit_chain.py. The upload to S3 is a parameter, and so is what `str` gives for an
-- exception; a checkpoint's time and ids are given.
use multilingual_task_api.Prelude.{
  ℕ, ◌+◌, ◌*◌, max, Bool, true, false, ◌&&◌, ◌||◌, not, Option, some, none, List, [], ◌∷◌, ◌++◌,
  ◌==◌, if◌then◌else◌, filter, map, take, sort_by, Exn, Outcome, ok, err, validation_error, ◌>>=◌,
  ◌>>◌, raise_if,
}
use multilingual_task_api.PyText.{Text, codes, strip, text_eq}
use multilingual_task_api.Outbox.{enqueue_outbox_event}
use multilingual_task_api.Outbox
use multilingual_task_api.Audit.{Encoding, Table, genesis_audit_hash, in_scope}
use multilingual_task_api.Audit.Signatures.{
  Cryptography, Settings, Kms, compute_checkpoint_hash_and_signature,
  sign_checkpoint_asymmetrically,
}
use multilingual_task_api.Audit.Checkpoints.{
  latest, AuditChainCheckpoint, AnchorStatus, hmac_sealed, s3_worm_locked, anchor_error,
  envelope_of, Report,
}
use multilingual_task_api.Audit.Verification.{verify_organization_audit_chain}

pub record Database : Type 0 where
  pub audit_logs : Table
  pub checkpoints : List AuditChainCheckpoint
  pub outbox : Outbox.Table

-- What `upload_worm_checkpoint_to_s3` gives: the object's place, or the text of what it raised.
pub data Upload : Type 0 where
  stored : Text → Text → Text → Upload
  refused : Text → Upload

-- The settings of the archive and the upload of a checkpoint, of whose columns the document is made.
pub record Archive : Type 0 where
  pub bucket : Text
  pub retention_days : ℕ
  pub upload : AuditChainCheckpoint → Upload
  pub str : Exn → Text
  pub payload_json : AuditChainCheckpoint → Text

-- What a new row draws: the time and the ids.
pub record Draw : Type 0 where
  pub now : ℕ
  pub checkpoint_id : Text
  pub event_id : ℕ

-- `filter(organization_id=org.id).order_by("-checkpoint_seq").first()`
unfoldable pub latest_of : Text → List AuditChainCheckpoint → Option AuditChainCheckpoint
latest_of org t = latest (filter (λ (c : AuditChainCheckpoint). text_eq c.organization org) t)

-- The latest checkpoint already covers what was verified.
unfoldable pub is_covered : Report → Option AuditChainCheckpoint → Bool
is_covered r none = false
is_covered r (some c) = c.covered_up_to_seq == r.head_chain_seq && text_eq c.head_hash r.head_hash

unfoldable pub next_seq : Option AuditChainCheckpoint → ℕ
next_seq none = 1
next_seq (some c) = c.checkpoint_seq + 1

unfoldable pub prev_hash_of : Option AuditChainCheckpoint → Text
prev_hash_of none = genesis_audit_hash
prev_hash_of (some c) = c.checkpoint_hash

unfoldable pub with_signature :
    (Exn → Text) → Outcome (Text × Text × Text) → AuditChainCheckpoint → AuditChainCheckpoint
with_signature str (ok (algorithm, fingerprint, signature)) c = record c {
  signature_algorithm = algorithm;
  public_key_fingerprint = fingerprint;
  asymmetric_signature = signature;
}
with_signature str (err e) c = record c {
  anchor_status = anchor_error;
  anchor_error = codes "Asymmetric signing error: " ++ take 420 (str e);
}

unfoldable pub locked : AnchorStatus → AnchorStatus
locked anchor_error = anchor_error
locked _ = s3_worm_locked

-- `strip("; ")`
unfoldable pub lstrip_marks : Text → Text
lstrip_marks [] = []
lstrip_marks (c ∷ t) = let rest = lstrip_marks t in if c == 59 || c == 32 then rest else c ∷ t

unfoldable pub rstrip_marks : Text → Text
rstrip_marks [] = []
rstrip_marks (c ∷ t) = elim (rstrip_marks t) [
  | [] ↦ if c == 59 || c == 32 then [] else c ∷ []
  | d ∷ s ↦ c ∷ d ∷ s
]

unfoldable pub strip_marks : Text → Text
unfolding lstrip_marks rstrip_marks
strip_marks t = rstrip_marks (lstrip_marks t)

unfoldable pub with_upload : Upload → AuditChainCheckpoint → AuditChainCheckpoint
unfolding locked strip_marks
with_upload (stored uri etag version) c = record c {
  anchor_status = locked c.anchor_status;
  worm_uri = uri;
  worm_etag = etag;
  worm_version_id = version;
}
with_upload (refused text) c = record c {
  anchor_status = anchor_error;
  anchor_error = take 500 (strip_marks (c.anchor_error ++ codes "; " ++ take 480 text));
}

unfoldable pub archived : Archive → AuditChainCheckpoint → AuditChainCheckpoint
unfolding with_upload
archived w c = elim (strip w.bucket) [ [] ↦ c | b ∷ bs ↦ with_upload (w.upload c) c ]

abbrev pub microseconds_per_day : ℕ
microseconds_per_day = 86_400_000_000

-- The columns that are known before the hash is taken.
abbrev pub draft :
    Archive → Draw → Text → Report → Option AuditChainCheckpoint → AuditChainCheckpoint
draft w d org r latest = record {
  id = d.checkpoint_id;
  organization = org;
  checkpoint_seq = next_seq latest;
  covered_up_to_seq = r.head_chain_seq;
  verified_entries = r.verified_entries;
  head_hash = r.head_hash;
  merkle_root = r.merkle_root;
  manifest_digest = r.manifest_digest;
  prev_checkpoint_hash = prev_hash_of latest;
  checkpoint_hash = [];
  signature = [];
  signature_algorithm = codes "HMAC-SHA256";
  public_key_fingerprint = [];
  asymmetric_signature = [];
  anchor_status = hmac_sealed;
  worm_uri = [];
  worm_etag = [];
  worm_version_id = [];
  retention_until = d.now + max 1 w.retention_days * microseconds_per_day;
  anchor_error = [];
  created_at = d.now;
}

pub record Sweep : Type 0 where
  pub anchored : ℕ
  pub skipped : ℕ
  pub corrupted : ℕ

unfoldable pub count_created : Bool → Sweep → Sweep
count_created true n = record n { anchored = n.anchored + 1 }
count_created false n = record n { skipped = n.skipped + 1 }

abbrev pub no_rounds : Sweep
no_rounds = record { anchored = 0; skipped = 0; corrupted = 0 }

-- The columns of `Organization` that the sweep reads.
pub record Organization : Type 0 where
  pub id : Text
  pub is_active : Bool
  pub created_at : ℕ

unfoldable pub has_audit_logs : Table → Text → Bool
has_audit_logs [] org = false
has_audit_logs (e ∷ t) org = in_scope (some org) e || has_audit_logs t org

unfoldable pub pending_organizations : ℕ → List Organization → Table → List Text
unfolding has_audit_logs
pending_organizations batch_size orgs logs =
    map (λ (o : Organization). o.id)
      (take (max 1 batch_size) (
        sort_by (λ (o : Organization). o.created_at)
          (filter (λ (o : Organization). o.is_active && has_audit_logs logs o.id) orgs)))

module _ (x : Encoding) (c : Cryptography) (s : Settings) (k : Kms) (w : Archive) where
  -- The row that is created.
  unfoldable pub new_checkpoint :
      Draw → Text → Report → Option AuditChainCheckpoint → AuditChainCheckpoint
  unfolding next_seq prev_hash_of with_signature archived
  new_checkpoint d org r latest =
      let unsealed = draft w d org r latest in
      let hashes = compute_checkpoint_hash_and_signature x s (envelope_of unsealed) in
      archived w (
        with_signature w.str (sign_checkpoint_asymmetrically x c s k hashes.0)
          (record unsealed { checkpoint_hash = hashes.0; signature = hashes.1 }))

  -- The row goes in, and an event about it.
  unfoldable pub insert_new : Draw → Text → AuditChainCheckpoint → Database → Database
  insert_new d org row db = record db {
    checkpoints = db.checkpoints ++ row ∷ [];
    outbox =
        (enqueue_outbox_event d.event_id d.now (some org) (codes "audit.checkpoint_anchored")
          (w.payload_json row) (codes "webhook") [] db.outbox).1;
  }

  -- The checkpoint, whether it is new, and the database.
  unfoldable pub create_organization_audit_checkpoint :
      Bool → Draw → Text → Database → Outcome (Option AuditChainCheckpoint × Bool × Database)
  unfolding latest_of is_covered new_checkpoint insert_new
  create_organization_audit_checkpoint force d org db = do
    report ← verify_organization_audit_chain x c s k org db.audit_logs db.checkpoints
    raise_if (not report.valid) validation_error
    let latest = latest_of org db.checkpoints
    let row = new_checkpoint d org report latest
    ok (
        if report.verified_entries == 0 && not force
        then (none, false, db)
        else if not force && is_covered report latest
        then (latest, false, db)
        else (some row, true, insert_new d org row db))

  -- The loop over the organizations; each round draws anew. Only `ValidationError` is caught.
  unfoldable pub sweep : (ℕ → Draw) → ℕ → List Text → Database → Sweep → Outcome Sweep × Database
  unfolding count_created
  sweep draw i [] db n = (ok n, db)
  sweep draw i (org ∷ orgs) db n =
      elim (create_organization_audit_checkpoint false (draw i) org db) [
        | ok (row, created, after) ↦ sweep draw (i + 1) orgs after (count_created created n)
        | err validation_error ↦
            sweep draw (i + 1) orgs db (record n { corrupted = n.corrupted + 1 })
        | err e ↦ (err e, db)
      ]

  unfoldable pub anchor_pending_audit_checkpoints :
      ℕ → List Organization → (ℕ → Draw) → Database → Outcome Sweep × Database
  unfolding pending_organizations
  anchor_pending_audit_checkpoints batch_size orgs draw db =
      sweep draw 0 (pending_organizations batch_size orgs db.audit_logs) db no_rounds
