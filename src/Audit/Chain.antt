-- ===== src/Audit/Chain.antt =====
-- The hash chain of apps/core/audit_chain.py as a predicate on an organization's rows, and what
-- `seal_and_insert_audit_log` does to it.
use multilingual_task_api.Prelude.{
  ℕ, suc, ◌+◌, ◌≡◌, refl, ap, Bool, true, false, Bool-cases, inl, inr, Option, some, none, List, [],
  ◌∷◌, ◌++◌, append-nil, arith, filter, length, lt→ltb, ge→ltb,
}
use multilingual_task_api.PyText.{Text, text_eq}
use multilingual_task_api.PyText.Hex.{text_eq_iff, text_eq_refl}
use multilingual_task_api.Merkle.Digest.{hexdigest-ne-empty}
use multilingual_task_api.Audit.{
  Encoding, AuditLog, NewEntry, Table, genesis_audit_hash, in_scope, head_row, previous, placed,
  compute_audit_entry_hash, seal_and_insert_audit_log,
}

pub filter-append :
    {A : Type 0} (p : A → Bool) (xs ys : List A) → filter p (xs ++ ys) ≡ filter p xs ++ filter p ys
filter-append p [] ys = refl
filter-append p (x ∷ xs) ys = elim (Bool-cases (p x)) [
  | inl e ↦ rw e (ap (λ r. x ∷ r) (filter-append p xs ys))
  | inr e ↦ rw e (filter-append p xs ys)
]

module _ (x : Encoding) where
  -- From number `seq` on, after the digest `prev`: every row has its number, the digest of the row
  -- before it, and its own digest.
  abbrev pub IsChain : ℕ → Text → List AuditLog → Type 0
  IsChain seq prev [] = Unit
  IsChain seq prev (e ∷ t) =
      (e.chain_seq ≡ seq)
      × (e.prev_hash ≡ prev)
      × (e.entry_hash ≡ compute_audit_entry_hash x e)
      × IsChain (suc seq) e.entry_hash t

  -- Every organization's rows, and those of no organization, are a chain from the genesis.
  abbrev pub IsSealed : Table → Type 0
  IsSealed t = (org : Option Text) → IsChain 1 genesis_audit_hash (filter (in_scope org) t)

  abbrev pub tip : Text → List AuditLog → Text
  tip prev [] = prev
  tip prev (e ∷ t) = tip e.entry_hash t

  pub snoc-IsChain :
      (seq : ℕ) (prev : Text) (t : List AuditLog) (e : AuditLog)
      → IsChain seq prev t
      → e.chain_seq ≡ length t + seq
      → e.prev_hash ≡ tip prev t
      → e.entry_hash ≡ compute_audit_entry_hash x e
      → IsChain seq prev (t ++ e ∷ [])
  snoc-IsChain seq prev [] e h a b c = (omega arith, b, c, tt)
  snoc-IsChain seq prev (f ∷ t) e h a b c =
      (h.0, h.1, h.2, snoc-IsChain (suc seq) f.entry_hash t e h.3 (omega arith) b c)

  hash-ne-empty : (e : AuditLog) → text_eq (compute_audit_entry_hash x e) [] ≡ false
  unfolding compute_audit_entry_hash
  hash-ne-empty e = hexdigest-ne-empty _ (x.sha256.digest-IsHash _)

  -- The row with the largest number is the last one.
  head_of_chain :
      (seq : ℕ) (prev : Text) (e : AuditLog) (t : List AuditLog)
      → IsChain seq prev (e ∷ t)
      → (l : AuditLog) × (head_row (e ∷ t) ≡ some l)
        × (l.chain_seq ≡ length t + seq)
        × (l.entry_hash ≡ tip prev (e ∷ t))
        × (text_eq l.entry_hash [] ≡ false)
  unfolding head_row
  head_of_chain seq prev e [] h = (e, refl, omega (arith, h.0), refl, rw h.2 (hash-ne-empty e))
  head_of_chain seq prev e (f ∷ t) h =
      let (l, found, num, hash, full) = head_of_chain (suc seq) e.entry_hash f t h.3 in
      (
        l,
        rw (head_row, found, ge→ltb l.chain_seq e.chain_seq (omega (arith, h.0))),
        omega arith,
        hash,
        full,
      )

  previous_of_chain :
      (t : List AuditLog)
      → IsChain 1 genesis_audit_hash t
      → previous (head_row t) ≡ (length t, tip genesis_audit_hash t)
  unfolding previous head_row
  previous_of_chain [] h = refl
  previous_of_chain (e ∷ t) h =
      let (l, found, num, hash, full) = head_of_chain 1 genesis_audit_hash e t h in
      rw (found, previous, full, lt→ltb 0 l.chain_seq (omega arith), num, hash)
        (ap (λ (n : ℕ). (n, tip genesis_audit_hash (e ∷ t))) (omega arith))

  pub in_scope-eq :
      (org : Option Text) (e : AuditLog) → in_scope org e ≡ true → org ≡ e.organization
  unfolding in_scope
  in_scope-eq none e h = ground arith
  in_scope-eq (some o) e h = grind (arith, λ (p : Text). (text_eq_iff p o).0)

  pub in_scope_self : (e : AuditLog) → in_scope e.organization e ≡ true
  unfolding in_scope
  in_scope_self e = grind (arith, text_eq_refl)

  sealed-hash :
      (now : ℕ) (e : NewEntry) (seq : ℕ) (prev : Text)
      → let unsealed = placed x now e seq prev in
        let hash = compute_audit_entry_hash x unsealed in
        hash ≡ compute_audit_entry_hash x (record unsealed { entry_hash = hash })
  unfolding compute_audit_entry_hash
  sealed-hash now e seq prev = refl

  -- The new row continues the chain of its scope, and the other scopes stay as they are.
  pub seal-IsSealed :
      (now : ℕ) (e : NewEntry) (t : Table)
      → IsSealed t
      → IsSealed (seal_and_insert_audit_log x now e t).1
  unfolding seal_and_insert_audit_log
  seal-IsSealed now e t h org =
      let sealed = (seal_and_insert_audit_log x now e t).0 in
      let rows = filter (in_scope e.organization) t in
      let head = previous_of_chain rows (h e.organization) in
      elim (Bool-cases (in_scope org sealed)) [
        | inr other ↦ rw (filter-append (in_scope org) t (sealed ∷ []), other, append-nil) (h org)
        | inl same ↦
            rw
              (
                in_scope-eq org sealed same,
                filter-append (in_scope e.organization) t (sealed ∷ []),
                in_scope_self sealed,
              )
              (snoc-IsChain 1 genesis_audit_hash rows sealed (h e.organization)
                (ap (λ (p : ℕ × Text). p.0 + 1) head) (ap (λ (p : ℕ × Text). p.1) head)
                (sealed-hash now e _ _))
      ]
