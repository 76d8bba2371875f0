-- ===== src/Audit/Scanned.antt =====
-- What the loop over the entries in `verify_organization_audit_chain` of apps/core/audit_chain.py
-- gives for a chain that was sealed.
use multilingual_task_api.Prelude.{
  ℕ, suc, ◌+◌, ◌<◌, ◌≡◌, refl, sym, ap, ◌∙◌, max, List, [], ◌∷◌, ◌++◌, append-nil, append_assoc,
  arith, length, lt→ltb, All, All-append, All-imp, ==_iff,
}
use multilingual_task_api.PyText.{Text}
use multilingual_task_api.PyText.Hex.{text_eq_iff}
use multilingual_task_api.Audit.{Encoding, AuditLog, compute_audit_entry_hash}
use multilingual_task_api.Audit.Chain.{IsChain, tip}
use multilingual_task_api.Audit.Scan.{
  Hashes, dict_set, Scan, comes_first, insert_row, ordered, noted, or_recomputed, note_violation,
  entry_reasons, check_entry, scan,
}

-- The rows in their order are numbered `seq`, `seq + 1`, …
abbrev pub numbered_hashes : ℕ → List AuditLog → Hashes
numbered_hashes seq [] = []
numbered_hashes seq (e ∷ t) = (seq, e.entry_hash) ∷ numbered_hashes (suc seq) t

module _ (x : Encoding) where
  -- A chain is already in the order that the query asks for.
  pub ordered-IsChain :
      (seq : ℕ) (prev : Text) (t : List AuditLog) → IsChain x seq prev t → ordered t ≡ t
  unfolding ordered
  ordered-IsChain seq prev [] h = refl
  ordered-IsChain seq prev (e ∷ []) h = refl
  ordered-IsChain seq prev (e ∷ f ∷ t) h =
      rw (ordered, ordered-IsChain (suc seq) e.entry_hash (f ∷ t) h.3)
        (unfold insert_row comes_first in
          rw (lt→ltb e.chain_seq f.chain_seq (omega (arith, h.0, h.3.0))))

  dict_set-new :
      (k : ℕ) (v : Text) (d : Hashes)
      → All (λ (e : ℕ × Text). e.0 < k) d
      → dict_set k v d ≡ d ++ (k, v) ∷ []
  unfolding dict_set
  dict_set-new k v [] h = refl
  dict_set-new k v (e ∷ d) h = grind (arith, dict_set-new k v d h.1)

  -- What the scan holds after `n` rows without a violation.
  abbrev pub fine : ℕ → Text → Hashes → Scan
  fine n prev d = record {
    violations = [];
    expected_seq = suc n;
    expected_prev = prev;
    head_hash = prev;
    max_chain_seq = n;
    verified_count = n;
    hash_by_seq = d;
  }

  or_recomputed-same : (t r : Text) → t ≡ r → or_recomputed t r ≡ t
  unfolding or_recomputed
  or_recomputed-same [] r h = sym h
  or_recomputed-same (c ∷ t) r h = refl

  no_reasons :
      (s : Scan) (e : AuditLog)
      → e.chain_seq ≡ s.expected_seq
      → e.prev_hash ≡ s.expected_prev
      → e.entry_hash ≡ compute_audit_entry_hash x e
      → entry_reasons x s e ≡ []
  unfolding entry_reasons noted
  no_reasons s e a b c = rw (
    (==_iff e.chain_seq s.expected_seq).1 a,
    (text_eq_iff e.prev_hash s.expected_prev).1 b,
    (text_eq_iff e.entry_hash (compute_audit_entry_hash x e)).1 c,
  )

  check-fine :
      (n : ℕ) (prev : Text) (d : Hashes) (e : AuditLog)
      → e.chain_seq ≡ suc n
      → e.prev_hash ≡ prev
      → e.entry_hash ≡ compute_audit_entry_hash x e
      → All (λ (e : ℕ × Text). e.0 < suc n) d
      → check_entry x (fine n prev d) e
        ≡ fine (suc n) e.entry_hash (d ++ (suc n, e.entry_hash) ∷ [])
  unfolding check_entry note_violation
  check-fine n prev d e a b c h =
      let next : e.chain_seq + 1 ≡ suc (suc n) = omega arith in
      let most : max n e.chain_seq ≡ suc n = omega arith in
      let count : n + 1 ≡ suc n = omega arith in
      let set : dict_set e.chain_seq e.entry_hash d ≡ d ++ (suc n, e.entry_hash) ∷ [] =
        ap (λ (k : ℕ). dict_set k e.entry_hash d) a ∙ dict_set-new (suc n) e.entry_hash d h in
      rw (
        check_entry,
        no_reasons (fine n prev d) e a b c,
        or_recomputed-same e.entry_hash (compute_audit_entry_hash x e) c,
        next,
        most,
        count,
        set,
      )

  -- A chain has no violation, however many rows went before it.
  pub scan-IsChain :
      (n : ℕ) (prev : Text) (d : Hashes) (t : List AuditLog)
      → IsChain x (suc n) prev t
      → All (λ (e : ℕ × Text). e.0 < suc n) d
      → scan x t (fine n prev d)
        ≡ fine (length t + n) (tip x prev t) (d ++ numbered_hashes (suc n) t)
  unfolding scan
  scan-IsChain n prev d [] h below =
      ap (λ (d : Hashes). fine n prev d) (sym (append-nil d))
      ∙ ap (λ (m : ℕ). fine m prev (d ++ [])) (omega arith)
  scan-IsChain n prev d (e ∷ t) h below =
      let after = d ++ (suc n, e.entry_hash) ∷ [] in
      ap (scan x t) (check-fine n prev d e h.0 h.1 h.2 below)
      ∙ scan-IsChain (suc n) e.entry_hash after t h.3 (
          All-append (λ (e : ℕ × Text). e.0 < suc (suc n)) d _
            (All-imp _ _ (λ e l. omega arith) d below) (omega arith, tt))
      ∙ rw (append_assoc d ((suc n, e.entry_hash) ∷ []) (numbered_hashes (suc (suc n)) t)) (
          ap (λ (m : ℕ). fine m (tip x e.entry_hash t) (d ++ numbered_hashes (suc n) (e ∷ t)))
            (omega arith))
