-- ===== src/Audit/Scan.antt =====
-- The loop over the entries in `verify_organization_audit_chain` of apps/core/audit_chain.py.
use multilingual_task_api.Prelude.{
  ℕ, ◌+◌, max, Bool, true, false, ◌&&◌, ◌||◌, not, Option, some, none, List, [], ◌∷◌, ◌++◌, ltb,
  ◌==◌, if◌then◌else◌, filter,
}
use multilingual_task_api.PyText.{Text, text_eq, text_leb}
use multilingual_task_api.Audit.{
  Encoding, AuditLog, Table, genesis_audit_hash, in_scope, compute_audit_entry_hash,
}

pub data EntryReason : Type 0 where
  sequence_gap prev_hash_mismatch entry_hash_mismatch : EntryReason

pub record Violation : Type 0 where
  pub id : Text
  pub chain_seq : ℕ
  pub expected_seq : ℕ
  pub reasons : List EntryReason

-- The dict `hash_by_seq`: an assignment replaces what the key had.
abbrev pub Hashes : Type 0
Hashes = List (ℕ × Text)

unfoldable pub dict_set : ℕ → Text → Hashes → Hashes
dict_set k v [] = (k, v) ∷ []
dict_set k v (e ∷ d) = if e.0 == k then (k, v) ∷ d else e ∷ dict_set k v d

unfoldable pub dict_get : ℕ → Hashes → Option Text
dict_get k [] = none
dict_get k (e ∷ d) = if e.0 == k then some e.1 else dict_get k d

-- The local variables of the loop.
pub record Scan : Type 0 where
  pub violations : List Violation
  pub expected_seq : ℕ
  pub expected_prev : Text
  pub head_hash : Text
  pub max_chain_seq : ℕ
  pub verified_count : ℕ
  pub hash_by_seq : Hashes

abbrev pub start : Scan
start = record {
  violations = [];
  expected_seq = 1;
  expected_prev = genesis_audit_hash;
  head_hash = genesis_audit_hash;
  max_chain_seq = 0;
  verified_count = 0;
  hash_by_seq = [];
}

-- `order_by("chain_seq", "id")`
unfoldable pub comes_first : AuditLog → AuditLog → Bool
comes_first e f = ltb e.chain_seq f.chain_seq || (e.chain_seq == f.chain_seq && text_leb e.id f.id)

unfoldable pub insert_row : AuditLog → List AuditLog → List AuditLog
insert_row e [] = e ∷ []
insert_row e (f ∷ t) = if comes_first e f then e ∷ f ∷ t else f ∷ insert_row e t

unfoldable pub ordered : List AuditLog → List AuditLog
unfolding insert_row
ordered [] = []
ordered (e ∷ t) = insert_row e (ordered t)

-- `AuditLog.objects.filter(organization_id=org.id).order_by("chain_seq", "id")`
unfoldable pub entries_of : Text → Table → List AuditLog
unfolding ordered
entries_of org t = ordered (filter (in_scope (some org)) t)

unfoldable pub noted : Bool → EntryReason → List EntryReason
noted true r = r ∷ []
noted false r = []

-- `entry_hash or recomputed`
unfoldable pub or_recomputed : Text → Text → Text
or_recomputed [] recomputed = recomputed
or_recomputed (c ∷ t) recomputed = c ∷ t

unfoldable pub note_violation : AuditLog → ℕ → List EntryReason → List Violation → List Violation
note_violation e expected [] violations = violations
note_violation e expected (r ∷ reasons) violations =
    violations
    ++ record { id = e.id; chain_seq = e.chain_seq; expected_seq = expected; reasons = r ∷ reasons }
      ∷ []

module _ (x : Encoding) where
  unfoldable pub entry_reasons : Scan → AuditLog → List EntryReason
  unfolding noted
  entry_reasons s e =
      noted (not (e.chain_seq == s.expected_seq)) sequence_gap
      ++ noted (not (text_eq e.prev_hash s.expected_prev)) prev_hash_mismatch
      ++ noted (not (text_eq e.entry_hash (compute_audit_entry_hash x e))) entry_hash_mismatch

  -- One round.
  unfoldable pub check_entry : Scan → AuditLog → Scan
  unfolding entry_reasons note_violation or_recomputed
  check_entry s e = record {
    violations = note_violation e s.expected_seq (entry_reasons s e) s.violations;
    expected_seq = e.chain_seq + 1;
    expected_prev = e.entry_hash;
    head_hash = or_recomputed e.entry_hash (compute_audit_entry_hash x e);
    max_chain_seq = max s.max_chain_seq e.chain_seq;
    verified_count = s.verified_count + 1;
    hash_by_seq = dict_set e.chain_seq e.entry_hash s.hash_by_seq;
  }

  unfoldable pub scan : List AuditLog → Scan → Scan
  unfolding check_entry
  scan [] s = s
  scan (e ∷ t) s = scan t (check_entry s e)
