-- ===== src/Audit/Pinned.antt =====
-- A checkpoint of apps/core/audit_chain.py pins the entries that it covers.
use multilingual_task_api.Prelude.{
  ℕ, zero, suc, ◌+◌, ◌<◌, ◌≡◌, refl, sym, ap, subst, ◌∙◌, Bool, true, false, ◌&&◌, inl, inr, ◌⊎◌,
  some, List, [], ◌∷◌, arith, length, ok, bind-eq-ok, ok-injective, take, get_elem?, All,
  Option-cases, length-take,
}
use multilingual_task_api.PyText.{Text}
use multilingual_task_api.PyText.Hex.{text_eq_iff}
use multilingual_task_api.Merkle.{compute_merkle_root}
use multilingual_task_api.Merkle.Sound.{Collision}
use multilingual_task_api.Audit.{Encoding, AuditLog, Table, genesis_audit_hash}
use multilingual_task_api.Audit.Chain.{IsChain, tip}
use multilingual_task_api.Audit.Scan.{Hashes, Scan, dict_get, start, entries_of, scan}
use multilingual_task_api.Audit.Scanned.{numbered_hashes, fine, scan-IsChain}
use multilingual_task_api.Audit.Leaves.{leaves_of, length-leaves_of, dict_get-numbered}
use multilingual_task_api.Audit.Signatures.{Cryptography, Settings, Kms}
use multilingual_task_api.Audit.Checkpoints.{
  AuditChainCheckpoint, Report, checkpoints_of, anchor_holds, first_round, is_empty,
  ordered_leaf_hashes,
}
use multilingual_task_api.Audit.Verification.{
  check_checkpoints, active_public_key, report_of, verify_organization_audit_chain,
}
use multilingual_task_api.Audit.Anchored.{take_below}
use multilingual_task_api.Audit.Tamper.{
  docs_of, entry_inputs, scan-IsChain_of, chains_agree, anchors_of_rounds,
}

pub is_empty-eq : {A : Type 0} (xs : List A) → is_empty xs ≡ true → xs ≡ []
unfolding is_empty
is_empty-eq [] h = refl
is_empty-eq (a ∷ more) h = cc

All-get {ℓ} :
    {A : Type ℓ} (P : A → Type 0) (xs : List A) (i : ℕ) (a : A)
    → All P xs
    → get_elem? xs i ≡ some a
    → P a
All-get P [] i a h e = cc
All-get P (x ∷ xs) zero a h e = let same : x ≡ a = cc in subst P same h.0
All-get P (x ∷ xs) (suc i) a h e = All-get P xs i a h.1 e

get_elem?-inside {ℓ} :
    {A : Type ℓ} (xs : List A) (i : ℕ) (a : A) → get_elem? xs i ≡ some a → i < length xs
get_elem?-inside [] i a e = cc
get_elem?-inside (x ∷ xs) zero a e = omega arith
get_elem?-inside (x ∷ xs) (suc i) a e = omega (arith, get_elem?-inside xs i a e)

observed_head :
    (n : ℕ) (d : Hashes) (head : Text)
    → anchor_holds (suc n) d head ≡ true
    → dict_get (suc n) d ≡ some head
unfolding anchor_holds
observed_head n d head h = elim (Option-cases (dict_get (suc n) d)) [
  | inl e ↦ cc (rw (anchor_holds, e) at h)
  | inr (v, e) ↦ e ∙ ap some ((text_eq_iff v head).0 (rw (anchor_holds, e) at h))
]

both_true : (a b : Bool) → (a && b) ≡ true → (a ≡ true) × (b ≡ true)
both_true true b h = (refl, h)
both_true false b h = cc

module _ (x : Encoding) where
  take-IsChain :
      (seq : ℕ) (prev : Text) (n : ℕ) (t : List AuditLog)
      → IsChain x seq prev t
      → IsChain x seq prev (take n t)
  take-IsChain seq prev zero t h = tt
  take-IsChain seq prev (suc n) [] h = tt
  take-IsChain seq prev (suc n) (e ∷ t) h =
      (h.0, h.1, h.2, take-IsChain (suc seq) e.entry_hash n t h.3)

  module _ (c : Cryptography) (s : Settings) (k : Kms) where
    -- What a report without a violation says.
    record Accepted (org : Text) (logs : Table) (checkpoints : List AuditChainCheckpoint)
        (r : Report) : Type 0 where
      pub chain : IsChain x 1 genesis_audit_hash (entries_of org logs)
      pub size : r.head_chain_seq ≡ length (entries_of org logs)
      pub head : r.head_hash ≡ tip x genesis_audit_hash (entries_of org logs)
      pub anchored :
          All
            (λ (q : AuditChainCheckpoint).
              anchor_holds q.covered_up_to_seq (numbered_hashes 1 (entries_of org logs)) q.head_hash
              ≡ true)
            (checkpoints_of org checkpoints)

    accepted :
        (org : Text) (logs : Table) (checkpoints : List AuditChainCheckpoint) (r : Report)
        → verify_organization_audit_chain x c s k org logs checkpoints ≡ ok r
        → r.valid ≡ true
        → Accepted org logs checkpoints r
    unfolding verify_organization_audit_chain report_of
    accepted org logs checkpoints r e valid =
        let cs = checkpoints_of org checkpoints in
        let rows = entries_of org logs in
        let seen = scan x rows start in
        let (rounds, checked, rest) =
          bind-eq-ok
            (check_checkpoints x c s (active_public_key x c s k cs) seen.hash_by_seq cs first_round)
            _ e in
        let (root, computed, made) =
          bind-eq-ok (compute_merkle_root x.sha256 (ordered_leaf_hashes seen.hash_by_seq)) _ rest in
        let report = ok-injective made in
        let both : (is_empty seen.violations && is_empty rounds.checkpoint_violations) ≡ true =
          ap (λ (q : Report). q.valid) report ∙ valid in
        let (no_violation, no_ckpt) = both_true _ _ both in
        let chain = (scan-IsChain_of x rows start (is_empty-eq _ no_violation)).1 in
        let whole : seen
            ≡ fine x (length rows + 0) (tip x genesis_audit_hash rows) (numbered_hashes 1 rows) =
          scan-IsChain x 0 genesis_audit_hash [] rows chain tt in
        let anchors =
          (anchors_of_rounds x c s _ _ cs first_round rounds checked (is_empty-eq _ no_ckpt)).1 in
        record {
          chain = chain;
          size =
              sym (ap (λ (q : Report). q.head_chain_seq) report)
              ∙ ap (λ (q : Scan). q.max_chain_seq) whole
              ∙ omega arith;
          head =
              sym (ap (λ (q : Report). q.head_hash) report) ∙ ap (λ (q : Scan). q.head_hash) whole;
          anchored =
              subst
                (λ (d : Hashes).
                  All
                    (λ (q : AuditChainCheckpoint).
                      anchor_holds q.covered_up_to_seq d q.head_hash ≡ true)
                    cs)
                (ap (λ (q : Scan). q.hash_by_seq) whole) anchors;
        }

    pins_covered :
        (n : ℕ) (head : Text) (rows old : List AuditLog)
        → IsChain x 1 genesis_audit_hash rows
        → IsChain x 1 genesis_audit_hash old
        → anchor_holds n (numbered_hashes 1 rows) head ≡ true
        → n ≡ length old
        → head ≡ tip x genesis_audit_hash old
        → (docs_of (take n rows) ≡ docs_of old)
          ⊎ Collision x.sha256 (entry_inputs x (take n rows)) (entry_inputs x old)
    pins_covered zero head rows [] chain was h len top = inl refl
    pins_covered zero head rows (e ∷ old) chain was h len top = absurd (omega arith)
    pins_covered (suc n) head rows old chain was h len top =
        let at : get_elem? (leaves_of rows) n ≡ some head =
          sym (dict_get-numbered 1 n (suc n) rows (omega arith))
          ∙ observed_head n (numbered_hashes 1 rows) head h in
        let inside : n < length rows =
          omega (arith, get_elem?-inside (leaves_of rows) n head at, length-leaves_of rows) in
        let there : tip x genesis_audit_hash (take (suc n) rows) ≡ head =
          cc (take_below genesis_audit_hash rows n inside x, at) in
        elim (chains_agree x 1 genesis_audit_hash genesis_audit_hash (take (suc n) rows) old
          (take-IsChain 1 genesis_audit_hash (suc n) rows chain) was
          (omega (arith, length-take (suc n) rows)) (there ∙ top)) [
            | inl (_, same) ↦ inl same
            | inr bad ↦ inr bad
          ]

    -- Let a verification accept an organization's chain, and a checkpoint note the head of that report. If a later
    -- verification accepts while the checkpoint still stands among the organization's, then the
    -- entries that it covers have the same canonical documents as those of the first one, in the
    -- same order and number; otherwise at some place the encodings of the two entries there are
    -- different and have one digest.
    pub checkpoint_pins :
        (org : Text) (logs later_logs : Table) (cps later_cps : List AuditChainCheckpoint)
        (r later_r : Report) (i : ℕ) (ckpt : AuditChainCheckpoint)
        → verify_organization_audit_chain x c s k org logs cps ≡ ok r
        → r.valid ≡ true
        → ckpt.covered_up_to_seq ≡ r.head_chain_seq
        → ckpt.head_hash ≡ r.head_hash
        → verify_organization_audit_chain x c s k org later_logs later_cps ≡ ok later_r
        → later_r.valid ≡ true
        → get_elem? (checkpoints_of org later_cps) i ≡ some ckpt
        → (docs_of (take ckpt.covered_up_to_seq (entries_of org later_logs))
            ≡ docs_of (entries_of org logs))
          ⊎ Collision x.sha256
              (entry_inputs x (take ckpt.covered_up_to_seq (entries_of org later_logs)))
              (entry_inputs x (entries_of org logs))
    checkpoint_pins org logs later_logs cps later_cps r later_r i ckpt e valid size head later_e
          later_valid here =
        let was = accepted org logs cps r e valid in
        let is_now = accepted org later_logs later_cps later_r later_e later_valid in
        pins_covered ckpt.covered_up_to_seq ckpt.head_hash (entries_of org later_logs)
          (entries_of org logs) is_now.chain was.chain
          (All-get _ (checkpoints_of org later_cps) i ckpt is_now.anchored here) (size ∙ was.size)
          (head ∙ was.head)
