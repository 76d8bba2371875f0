-- ===== src/Audit/Leaves.antt =====
-- The digests of a sealed chain as leaves of the Merkle tree, for apps/core/audit_chain.py.
use multilingual_task_api.Prelude.{
  ℕ, zero, suc, ◌+◌, ◌≤◌, ◌<◌, ◌≡◌, refl, sym, ap, subst, ◌∙◌, true, some, List, [], ◌∷◌, arith,
  filter, length, map, All, take, drop, get_elem?, ◌==◌, ==_iff,
}
use multilingual_task_api.PyText.{Text}
use multilingual_task_api.PyText.Hex.{length-hexdigest}
use multilingual_task_api.Merkle.Digest.{decode-hexdigest}
use multilingual_task_api.Merkle.Tree.{IsLeafHex}
use multilingual_task_api.Audit.{Encoding, AuditLog, compute_audit_entry_hash}
use multilingual_task_api.Audit.Chain.{IsChain}
use multilingual_task_api.Audit.Scan.{dict_get}
use multilingual_task_api.Audit.Scanned.{numbered_hashes}
use multilingual_task_api.Audit.Checkpoints.{
  hashes_in, all_of_length_64, insert_key, sorted_by_key, ordered_leaf_hashes,
}

-- The digests of the rows.
abbrev pub leaves_of : List AuditLog → List Text
leaves_of t = map (λ (e : AuditLog). e.entry_hash) t

pub length-leaves_of : (t : List AuditLog) → length (leaves_of t) ≡ length t
length-leaves_of [] = refl
length-leaves_of (e ∷ t) = ap suc (length-leaves_of t)

abbrev pub IsWide : Text → Type 0
IsWide v = length v ≡ 64

pub all_of_length_64_lem : (vs : List Text) → All IsWide vs → all_of_length_64 vs ≡ true
unfolding all_of_length_64
all_of_length_64_lem [] h = refl
all_of_length_64_lem (v ∷ vs) h = rw ((==_iff (length v) 64).1 h.0) (all_of_length_64_lem vs h.1)

filter-wide : (vs : List Text) → All IsWide vs → filter (λ v. length v == 64) vs ≡ vs
filter-wide [] h = refl
filter-wide (v ∷ vs) h =
    rw ((==_iff (length v) 64).1 h.0) (ap (λ (r : List Text). v ∷ r) (filter-wide vs h.1))

sorted-numbered :
    (seq : ℕ) (t : List AuditLog) → sorted_by_key (numbered_hashes seq t) ≡ numbered_hashes seq t
unfolding sorted_by_key insert_key
sorted-numbered seq [] = refl
sorted-numbered seq (e ∷ []) = refl
sorted-numbered seq (e ∷ f ∷ t) =
    rw (sorted_by_key, sorted-numbered (suc seq) (f ∷ t)) (ground arith)

values-numbered :
    (seq : ℕ) (t : List AuditLog)
    → map (λ (e : ℕ × Text). e.1) (numbered_hashes seq t) ≡ leaves_of t
values-numbered seq [] = refl
values-numbered seq (e ∷ t) = ap (λ (r : List Text). e.entry_hash ∷ r) (values-numbered (suc seq) t)

pub ordered_leaf_hashes-numbered :
    (seq : ℕ) (t : List AuditLog)
    → All IsWide (leaves_of t)
    → ordered_leaf_hashes (numbered_hashes seq t) ≡ leaves_of t
unfolding ordered_leaf_hashes
ordered_leaf_hashes-numbered seq t h =
    rw (sorted-numbered seq t, values-numbered seq t) (filter-wide (leaves_of t) h)

pub dict_get-numbered :
    (seq i k : ℕ) (t : List AuditLog)
    → k ≡ i + seq
    → dict_get k (numbered_hashes seq t) ≡ get_elem? (leaves_of t) i
unfolding dict_get
dict_get-numbered seq i k [] e = refl
dict_get-numbered seq zero k (e ∷ t) h = ground arith
dict_get-numbered seq (suc i) k (e ∷ t) h =
    ground (arith, dict_get-numbered (suc seq) i k t (omega arith))

drop_below :
    (ls : List Text) (j : ℕ)
    → j < length ls
    → (v : Text) × (get_elem? ls j ≡ some v) × (drop j ls ≡ v ∷ drop (suc j) ls)
drop_below [] j h = elim h [ ]
drop_below (v ∷ ls) zero h = (v, refl, refl)
drop_below (v ∷ ls) (suc j) h = drop_below ls j (omega arith)

-- What is read off the dict of the rows is a part of their digests.
pub hashes_in-numbered :
    (t : List AuditLog) (j n first : ℕ)
    → first ≡ suc j
    → j + n ≤ length t
    → hashes_in (numbered_hashes 1 t) first n ≡ take n (drop j (leaves_of t))
unfolding hashes_in
hashes_in-numbered t j zero first e h = refl
hashes_in-numbered t j (suc n) first e h =
    let (v, at, split) = drop_below (leaves_of t) j (omega (arith, length-leaves_of t)) in
    rw (hashes_in, dict_get-numbered 1 j first t (omega arith), at, split)
      (ap (λ (r : List Text). v ∷ r)
        (hashes_in-numbered t (suc j) n (first + 1) (omega arith) (omega arith)))

module _ (x : Encoding) where
  hash-IsLeafHex : (e : AuditLog) → IsLeafHex (compute_audit_entry_hash x e)
  unfolding compute_audit_entry_hash
  hash-IsLeafHex e = (_, decode-hexdigest _ (x.sha256.digest-IsHash _))

  hash-IsWide : (e : AuditLog) → IsWide (compute_audit_entry_hash x e)
  unfolding compute_audit_entry_hash
  hash-IsWide e = length-hexdigest _ ∙ ap (λ (n : ℕ). n + n) (x.sha256.digest-IsHash _).0

  pub leaves-IsLeafHex :
      (seq : ℕ) (prev : Text) (t : List AuditLog)
      → IsChain x seq prev t
      → All IsLeafHex (leaves_of t)
  leaves-IsLeafHex seq prev [] h = tt
  leaves-IsLeafHex seq prev (e ∷ t) h =
      (subst IsLeafHex (sym h.2) (hash-IsLeafHex e), leaves-IsLeafHex (suc seq) e.entry_hash t h.3)

  pub leaves-IsWide :
      (seq : ℕ) (prev : Text) (t : List AuditLog) → IsChain x seq prev t → All IsWide (leaves_of t)
  leaves-IsWide seq prev [] h = tt
  leaves-IsWide seq prev (e ∷ t) h =
      (subst IsWide (sym h.2) (hash-IsWide e), leaves-IsWide (suc seq) e.entry_hash t h.3)
