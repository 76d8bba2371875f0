-- ===== src/Audit/Intact.antt =====
-- Databases on which `verify_organization_audit_chain` of apps/core/audit_chain.py finds nothing, whatever
-- was sealed and anchored before.
use multilingual_task_api.Prelude.{
  ℕ, suc, ◌≡◌, refl, ap, ◌∙◌, true, false, Bool-cases, inl, inr, Option, some, List, [], ◌∷◌, arith,
  filter, length, ok,
}
use multilingual_task_api.PyText.{Text, codes, text_eq}
use multilingual_task_api.PyText.Hex.{text_eq_iff}
use multilingual_task_api.Merkle.{compute_merkle_root}
use multilingual_task_api.Merkle.Consistency.Complete.{root_total}
use multilingual_task_api.Audit.{Encoding, AuditLog, Table, genesis_audit_hash, in_scope}
use multilingual_task_api.Audit.Chain.{IsSealed, tip}
use multilingual_task_api.Audit.Scan.{scan, start, entries_of}
use multilingual_task_api.Audit.Scanned.{numbered_hashes, fine, ordered-IsChain, scan-IsChain}
use multilingual_task_api.Audit.Leaves.{
  leaves_of, leaves-IsLeafHex, leaves-IsWide, ordered_leaf_hashes-numbered,
}
use multilingual_task_api.Audit.Signatures.{PublicKey, Cryptography, Settings, Kms}
use multilingual_task_api.Audit.Checkpoints.{
  AuditChainCheckpoint, has_asymmetric, is_asymmetric, checkpoints_of, Report, is_empty,
}
use multilingual_task_api.Audit.Verification.{
  active_public_key, report_of, verify_organization_audit_chain,
}
use multilingual_task_api.Audit.Anchored.{AreAnchored, check-AreAnchored}
use multilingual_task_api.Audit.Anchors.{Archive, Database}
use multilingual_task_api.Audit.Created.{hmac-signed, resolved, ordered-AreAnchored}

not_asymmetric : (a g : Text) → is_asymmetric a g ≡ false → (a ≡ codes "HMAC-SHA256") × (g ≡ [])
unfolding is_asymmetric
not_asymmetric a g h = ground (arith, text_eq_iff a (codes "HMAC-SHA256"), text_eq_iff g [])

abbrev pub rows_of : Text → Table → List AuditLog
rows_of org t = filter (in_scope (some org)) t

abbrev pub anchors_of : Text → List AuditChainCheckpoint → List AuditChainCheckpoint
anchors_of org t = filter (λ (q : AuditChainCheckpoint). text_eq q.organization org) t

-- A report without a violation on the rows `t`.
pub record IsClean (x : Encoding) (t : List AuditLog) (r : Report) : Type 0 where
  pub valid : r.valid ≡ true
  pub verified : r.verified_entries ≡ length t
  pub length_ : r.head_chain_seq ≡ length t
  pub head : r.head_hash ≡ tip x genesis_audit_hash t
  pub root : compute_merkle_root x.sha256 (leaves_of t) ≡ ok r.merkle_root

module _ (x : Encoding) (c : Cryptography) (s : Settings) where
  -- Without asymmetric signatures the key does not matter.
  quiet-AreAnchored :
      (a b : Option PublicKey) (n : ℕ) (prev : Text) (t : List AuditLog)
      (cs : List AuditChainCheckpoint)
      → has_asymmetric cs ≡ false
      → AreAnchored x c s a n prev t cs
      → AreAnchored x c s b n prev t cs
  unfolding has_asymmetric
  quiet-AreAnchored a b n prev t [] e h = tt
  quiet-AreAnchored a b n prev t (ckpt ∷ cs) e h =
      let here : is_asymmetric ckpt.signature_algorithm ckpt.asymmetric_signature ≡ false =
        ground (arith, e) in
      let rest : has_asymmetric cs ≡ false = ground (arith, e) in
      let (alg, sig) = not_asymmetric ckpt.signature_algorithm ckpt.asymmetric_signature here in
      let h0 = h.0 in
      (
        record {
          seq = h0.seq;
          linked = h0.linked;
          hash = h0.hash;
          mac = h0.mac;
          signed = hmac-signed x c s b _ ckpt alg sig;
          covered = h0.covered;
          head = h0.head;
          root = h0.root;
        },
        quiet-AreAnchored a b (suc n) ckpt.checkpoint_hash t cs rest h.1,
      )

module _ (x : Encoding) (c : Cryptography) (s : Settings) (k : Kms) (w : Archive) where
  active-AreAnchored :
      (n : ℕ) (prev : Text) (t : List AuditLog) (cs : List AuditChainCheckpoint)
      → AreAnchored x c s (resolved x c s k w) n prev t cs
      → AreAnchored x c s (active_public_key x c s k cs) n prev t cs
  unfolding active_public_key
  active-AreAnchored n prev t cs h = elim (Bool-cases (has_asymmetric cs)) [
    | inl asym ↦ rw (active_public_key, asym) h
    | inr quiet ↦ quiet-AreAnchored x c s (resolved x c s k w) _ n prev t cs quiet h
  ]

  -- The rows are sealed, and every organization's checkpoints hold for its rows.
  abbrev pub IsIntact : Database → Type 0
  IsIntact db =
      IsSealed x db.audit_logs
      × ((org : Text)
          → AreAnchored x c s (resolved x c s k w) 0 genesis_audit_hash (rows_of org db.audit_logs)
              (anchors_of org db.checkpoints))

  scan-IsSealed :
      (t : Table) (org : Text)
      → IsSealed x t
      → scan x (entries_of org t) start
        ≡ fine x
            (length (rows_of org t))
            (tip x genesis_audit_hash (rows_of org t))
            (numbered_hashes 1 (rows_of org t))
  unfolding entries_of
  scan-IsSealed t org h =
      let rows = rows_of org t in
      ap (λ (r : List AuditLog). scan x r start)
        (ordered-IsChain x 1 genesis_audit_hash rows (h (some org)))
      ∙ scan-IsChain x 0 genesis_audit_hash [] rows (h (some org)) tt
      ∙ ap (λ (n : ℕ). fine x n (tip x genesis_audit_hash rows) (numbered_hashes 1 rows))
          (omega arith)

  pub verify-IsIntact :
      (org : Text) (db : Database)
      → IsIntact db
      → (r : Report) × (verify_organization_audit_chain x c s k org db.audit_logs db.checkpoints
          ≡ ok r)
        × IsClean x (rows_of org db.audit_logs) r
  unfolding verify_organization_audit_chain checkpoints_of report_of is_empty
  verify-IsIntact org db h =
      let rows = rows_of org db.audit_logs in
      let cs = anchors_of org db.checkpoints in
      let chain = h.0 (some org) in
      let wide = leaves-IsWide x 1 genesis_audit_hash rows chain in
      let sorted : checkpoints_of org db.checkpoints ≡ cs =
        ordered-AreAnchored x c s _ 0 genesis_audit_hash rows cs (h.1 org) in
      let (rounds, run, none_bad) =
        check-AreAnchored x c s (active_public_key x c s k cs) 0 genesis_audit_hash rows cs wide
          (active-AreAnchored 0 genesis_audit_hash rows cs (h.1 org)) in
      let (root, computed) =
        root_total x.sha256 (leaves_of rows) (leaves-IsLeafHex x 1 genesis_audit_hash rows chain) in
      (
        report_of x c s org
            (fine x (length rows) (tip x genesis_audit_hash rows) (numbered_hashes 1 rows)) rounds
            (length cs) root,
        rw (
          sorted,
          scan-IsSealed db.audit_logs org h.0,
          run,
          ordered_leaf_hashes-numbered 1 rows wide,
          computed,
        ),
        record {
          valid = rw none_bad;
          verified = refl;
          length_ = refl;
          head = refl;
          root = computed;
        },
      )
