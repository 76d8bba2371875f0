-- ===== src/Audit/Swept.antt =====
-- Whole sweeps of `anchor_pending_audit_checkpoints` of apps/core/audit_chain.py.
use multilingual_task_api.Prelude.{
  ℕ, ◌+◌, ◌≤◌, ◌≡◌, ◌∙◌, max, Bool, true, false, ◌&&◌, Bool-cases, inl, inr, some, List, [], ◌∷◌,
  map, arith, length, ==_iff, filter, All, All-filter, All-take, All-sort_by, All-imp, All-always,
  ok, err, value_error,
}
use multilingual_task_api.PyText.{Text}
use multilingual_task_api.Merkle.{decode_digest_hex, hash_merkle_leaf, compute_merkle_root}
use multilingual_task_api.Audit.{Encoding, AuditLog, Table, in_scope}
use multilingual_task_api.Audit.Scan.{dict_set, entries_of, scan, check_entry}
use multilingual_task_api.Audit.Signatures.{Cryptography, Settings, Kms}
use multilingual_task_api.Audit.Checkpoints.{
  checkpoints_of, sorted_by_key, insert_key, ordered_leaf_hashes,
}
use multilingual_task_api.Audit.Verification.{check_checkpoints, verify_organization_audit_chain}
use multilingual_task_api.Audit.Anchors.{
  Archive, Draw, Database, Sweep, no_rounds, Organization, has_audit_logs, pending_organizations,
  create_organization_audit_checkpoint, sweep, anchor_pending_audit_checkpoints,
}
use multilingual_task_api.Audit.Created.{Agree}
use multilingual_task_api.Audit.Intact.{rows_of}
use multilingual_task_api.Audit.Runs.{Step, empty, run_steps, run-IsIntact}
use multilingual_task_api.Audit.Sweeps.{Covers, sweep_lem}

has_rows : (t : Table) (org : Text) → has_audit_logs t org ≡ true → 1 ≤ length (rows_of org t)
unfolding has_audit_logs
has_rows [] org h = cc
has_rows (e ∷ t) org h = elim (Bool-cases (in_scope (some org) e)) [
  | inl mine ↦ rw mine (omega arith)
  | inr other ↦ rw other (has_rows t org (rw (has_audit_logs, other) at h))
]

All-map {ℓ κ} :
    {A : Type ℓ} {B : Type κ} (P : B → Type 0) (f : A → B) (xs : List A)
    → All (λ a. P (f a)) xs
    → All P (map f xs)
All-map P f [] h = tt
All-map P f (x ∷ xs) h = (h.0, All-map P f xs h.1)

pending_have_rows :
    (batch_size : ℕ) (orgs : List Organization) (t : Table)
    → All (λ org. 1 ≤ length (rows_of org t)) (pending_organizations batch_size orgs t)
unfolding pending_organizations
pending_have_rows batch_size orgs t =
    let Rows = λ (o : Organization). 1 ≤ length (rows_of o.id t) in
    let test = λ (o : Organization). o.is_active && has_audit_logs t o.id in
    let passed = All-filter (λ _. Unit {0}) test orgs (All-always _ (λ _. tt) orgs) in
    All-map (λ org. 1 ≤ length (rows_of org t)) (λ (o : Organization). o.id) _
      (All-take Rows (max 1 batch_size) _ (
        All-sort_by Rows (λ (o : Organization). o.created_at) (filter test orgs)
          (All-imp _ Rows (λ o p. has_rows t o.id (both o.is_active (has_audit_logs t o.id) p.0))
            (filter test orgs) passed)))
  where
    both : (a b : Bool) → (a && b) ≡ true → b ≡ true
    both true b h = h
    both false b h = cc

module _ (x : Encoding) (c : Cryptography) (s : Settings) (k : Kms) (w : Archive) where
  -- After any history of sealed entries and checkpoints a sweep ends, finds no organization corrupted,
  -- counts each one in its batch as anchored or skipped, and leaves each of them with a latest
  -- checkpoint that covers all its entries. The key that the settings resolve accepts the
  -- asymmetric signatures that they make.
  pub sweep-Covers :
      (steps : List Step) (batch_size : ℕ) (orgs : List Organization) (draw : ℕ → Draw)
      → Agree x c s k w
      → (db : Database) × (after : Database) × (n : Sweep) × (run_steps x c s k w steps empty
          ≡ ok db)
        × (anchor_pending_audit_checkpoints x c s k w batch_size orgs draw db ≡ (ok n, after))
        × (n.corrupted ≡ 0)
        × (n.anchored + n.skipped ≡ length (pending_organizations batch_size orgs db.audit_logs))
        × All (λ org. Covers org after) (pending_organizations batch_size orgs db.audit_logs)
  unfolding anchor_pending_audit_checkpoints
  sweep-Covers steps batch_size orgs draw agree =
      let (db, ran, intact, _) = run-IsIntact x c s k w steps empty agree (λ o. tt, λ o. tt) in
      let (n, after, swept, bad, total, _, all) =
        sweep_lem x c s k w draw 0 (pending_organizations batch_size orgs db.audit_logs) db
          no_rounds agree intact (pending_have_rows batch_size orgs db.audit_logs) in
      (db, after, n, ran, swept, bad, total ∙ omega arith, all)

  verify-broken :
      (org : Text) (e : AuditLog) (db : Database)
      → entries_of org db.audit_logs ≡ e ∷ []
      → checkpoints_of org db.checkpoints ≡ []
      → length e.entry_hash ≡ 64
      → decode_digest_hex e.entry_hash ≡ err value_error
      → verify_organization_audit_chain x c s k org db.audit_logs db.checkpoints ≡ err value_error
  unfolding verify_organization_audit_chain check_checkpoints scan check_entry ordered_leaf_hashes
      sorted_by_key insert_key dict_set compute_merkle_root hash_merkle_leaf
  verify-broken org e db rows none_yet wide bad =
      rw (rows, none_yet, (==_iff (length e.entry_hash) 64).1 wide, bad)

  -- Where an organization has one entry, under no checkpoint, and the stored digest of the entry has 64
  -- characters and is no hex text, the verification raises `ValueError` instead of reporting a
  -- violation, and a sweep that comes to the organization ends with that exception; the organizations
  -- after it get no checkpoint.
  pub broken_hash_stops_sweep :
      (draw : ℕ → Draw) (i : ℕ) (org : Text) (orgs : List Text) (e : AuditLog) (db : Database)
      (n : Sweep)
      → entries_of org db.audit_logs ≡ e ∷ []
      → checkpoints_of org db.checkpoints ≡ []
      → length e.entry_hash ≡ 64
      → decode_digest_hex e.entry_hash ≡ err value_error
      → (verify_organization_audit_chain x c s k org db.audit_logs db.checkpoints ≡ err value_error)
        × (sweep x c s k w draw i (org ∷ orgs) db n ≡ (err value_error, db))
  unfolding sweep create_organization_audit_checkpoint
  broken_hash_stops_sweep draw i org orgs e db n rows none_yet wide bad =
      let raised = verify-broken org e db rows none_yet wide bad in
      (raised, rw (sweep, create_organization_audit_checkpoint, raised))
