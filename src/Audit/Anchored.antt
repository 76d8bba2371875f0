-- ===== src/Audit/Anchored.antt =====
-- When the loop over the checkpoints in `verify_organization_audit_chain` of apps/core/audit_chain.py
-- finds nothing.
use multilingual_task_api.Prelude.{
  ℕ, zero, suc, ◌+◌, ◌≤◌, ◌<◌, ◌≡◌, refl, ap, ◌∙◌, true, Bool-cases, inl, inr, Option, some, List,
  [], ◌∷◌, arith, length, All, take, get_elem?, ◌==◌, ==_iff, ok, ok-injective, length-take,
  All-take,
}
use multilingual_task_api.PyText.{Text, text_eq}
use multilingual_task_api.PyText.Hex.{text_eq_iff, text_eq_refl}
use multilingual_task_api.Merkle.{compute_merkle_root, empty_merkle_root}
use multilingual_task_api.Audit.{Encoding, AuditLog, genesis_audit_hash}
use multilingual_task_api.Audit.Chain.{tip}
use multilingual_task_api.Audit.Scanned.{numbered_hashes}
use multilingual_task_api.Audit.Leaves.{
  leaves_of, length-leaves_of, all_of_length_64_lem, IsWide, dict_get-numbered, hashes_in-numbered,
}
use multilingual_task_api.Audit.Signatures.{
  PublicKey, Cryptography, Settings, compute_checkpoint_hash_and_signature,
}
use multilingual_task_api.Audit.Checkpoints.{
  AuditChainCheckpoint, envelope_of, flagged, anchor_holds, note_checkpoint, Rounds, hashes_in,
}
use multilingual_task_api.Audit.Verification.{
  merkle_holds, root_reasons, asymmetric_reasons, checkpoint_reasons, check_checkpoint,
  check_checkpoints,
}

pub take_below :
    (prev : Text) (t : List AuditLog) (n : ℕ)
    → n < length t
    → (x : Encoding) → get_elem? (leaves_of t) n ≡ some (tip x prev (take (suc n) t))
take_below prev [] n h x = elim h [ ]
take_below prev (e ∷ t) zero h x = refl
take_below prev (e ∷ t) (suc n) h x = take_below e.entry_hash t n (omega arith) x

take-leaves_of : (n : ℕ) (t : List AuditLog) → take n (leaves_of t) ≡ leaves_of (take n t)
take-leaves_of zero t = refl
take-leaves_of (suc n) [] = refl
take-leaves_of (suc n) (e ∷ t) = ap (λ (r : List Text). e.entry_hash ∷ r) (take-leaves_of n t)

module _ (x : Encoding) where
  empty_root_lem :
      (root : Text) → compute_merkle_root x.sha256 [] ≡ ok root → empty_merkle_root x.sha256 ≡ root
  unfolding compute_merkle_root
  empty_root_lem root e = ok-injective e

  merkle_holds_lem :
      (n : ℕ) (t : List AuditLog) (root : Text)
      → n ≤ length t
      → All IsWide (leaves_of t)
      → compute_merkle_root x.sha256 (take n (leaves_of t)) ≡ ok root
      → merkle_holds x n (numbered_hashes 1 t) root ≡ ok true
  unfolding merkle_holds
  merkle_holds_lem zero t root le wide e = rw (empty_root_lem root e, text_eq_refl root)
  merkle_holds_lem (suc n) t root le wide e =
      let read : hashes_in (numbered_hashes 1 t) 1 (suc n) ≡ take (suc n) (leaves_of t) =
        hashes_in-numbered t 0 (suc n) 1 refl (omega arith) in
      let long : (length (take (suc n) (leaves_of t)) == suc n) ≡ true =
        (==_iff _ _).1 (omega (arith, length-take (suc n) (leaves_of t), length-leaves_of t)) in
      rw (
        merkle_holds,
        read,
        long,
        all_of_length_64_lem (take (suc n) (leaves_of t))
            (All-take IsWide (suc n) (leaves_of t) wide),
        read,
        e,
        text_eq_refl root,
      )

  -- A noted root that is the root of the covered digests gives no reason.
  no_root_reasons :
      (n : ℕ) (t : List AuditLog) (root : Text)
      → n ≤ length t
      → All IsWide (leaves_of t)
      → compute_merkle_root x.sha256 (take n (leaves_of t)) ≡ ok root
      → root_reasons x n (numbered_hashes 1 t) root ≡ ok []
  unfolding root_reasons flagged
  no_root_reasons n t root le wide e =
      let holds = merkle_holds_lem n t root le wide e in
      elim (Bool-cases (text_eq root [])) [
        | inl none_given ↦ rw (root_reasons, none_given)
        | inr some_given ↦ rw (root_reasons, some_given, holds)
      ]

  anchor_holds_lem :
      (n : ℕ) (t : List AuditLog)
      → n ≤ length t
      → anchor_holds n (numbered_hashes 1 t) (tip x genesis_audit_hash (take n t)) ≡ true
  unfolding anchor_holds
  anchor_holds_lem zero t h = refl
  anchor_holds_lem (suc n) t h =
      rw
        (
          anchor_holds,
          dict_get-numbered 1 n (suc n) t (omega arith),
          take_below genesis_audit_hash t n h x,
        )
        (text_eq_refl _)

  module _ (c : Cryptography) (s : Settings) where
    -- One checkpoint over the rows `t`, number `suc n`, after the digest `prev`.
    pub record Holds (active : Option PublicKey) (n : ℕ) (prev : Text) (t : List AuditLog)
        (ckpt : AuditChainCheckpoint) : Type 0 where
      pub seq : ckpt.checkpoint_seq ≡ suc n
      pub linked : ckpt.prev_checkpoint_hash ≡ prev
      pub hash :
          ckpt.checkpoint_hash ≡ (compute_checkpoint_hash_and_signature x s (envelope_of ckpt)).0
      pub mac : ckpt.signature ≡ (compute_checkpoint_hash_and_signature x s (envelope_of ckpt)).1
      pub signed :
          asymmetric_reasons x c s active
            (compute_checkpoint_hash_and_signature x s (envelope_of ckpt)).0
            ckpt
          ≡ []
      pub covered : ckpt.covered_up_to_seq ≤ length t
      pub head : ckpt.head_hash ≡ tip x genesis_audit_hash (take ckpt.covered_up_to_seq t)
      pub root :
          compute_merkle_root x.sha256 (take ckpt.covered_up_to_seq (leaves_of t))
          ≡ ok ckpt.merkle_root

    abbrev pub AreAnchored :
        Option PublicKey → ℕ → Text → List AuditLog → List AuditChainCheckpoint → Type 0
    AreAnchored active n prev t [] = Unit
    AreAnchored active n prev t (ckpt ∷ cs) =
        Holds active n prev t ckpt × AreAnchored active (suc n) ckpt.checkpoint_hash t cs

    abbrev round : ℕ → Text → Rounds
    round n prev = record {
      checkpoint_violations = [];
      expected_ckpt_seq = suc n;
      expected_prev_ckpt_hash = prev;
    }

    no_checkpoint_reasons :
        (active : Option PublicKey) (n : ℕ) (prev : Text) (t : List AuditLog)
        (ckpt : AuditChainCheckpoint)
        → Holds active n prev t ckpt
        → checkpoint_reasons x c s active (numbered_hashes 1 t) (round n prev) ckpt ≡ []
    unfolding checkpoint_reasons flagged
    no_checkpoint_reasons active n prev t ckpt h =
        let expected = compute_checkpoint_hash_and_signature x s (envelope_of ckpt) in
        let anchored : anchor_holds ckpt.covered_up_to_seq (numbered_hashes 1 t) ckpt.head_hash
            ≡ true =
          ap (anchor_holds ckpt.covered_up_to_seq (numbered_hashes 1 t)) h.head
          ∙ anchor_holds_lem ckpt.covered_up_to_seq t h.covered in
        rw (
          (==_iff ckpt.checkpoint_seq (suc n)).1 h.seq,
          (text_eq_iff ckpt.prev_checkpoint_hash prev).1 h.linked,
          (text_eq_iff ckpt.checkpoint_hash expected.0).1 h.hash,
          (text_eq_iff ckpt.signature expected.1).1 h.mac,
          h.signed,
          anchored,
        )

    pub check-AreAnchored :
        (active : Option PublicKey) (n : ℕ) (prev : Text) (t : List AuditLog)
        (cs : List AuditChainCheckpoint)
        → All IsWide (leaves_of t)
        → AreAnchored active n prev t cs
        → (r : Rounds) × (check_checkpoints x c s active (numbered_hashes 1 t) cs (round n prev)
            ≡ ok r)
          × (r.checkpoint_violations ≡ [])
    unfolding check_checkpoints check_checkpoint note_checkpoint
    check-AreAnchored active n prev t [] wide h = (round n prev, refl, refl)
    check-AreAnchored active n prev t (ckpt ∷ cs) wide h =
        let (r, run, clean) = check-AreAnchored active (suc n) ckpt.checkpoint_hash t cs wide h.1 in
        let next : ckpt.checkpoint_seq + 1 ≡ suc (suc n) = omega (arith, h.0.seq) in
        (
          r,
          rw
              (
                check_checkpoints,
                no_root_reasons ckpt.covered_up_to_seq t ckpt.merkle_root h.0.covered wide h.0.root,
                no_checkpoint_reasons active n prev t ckpt h.0,
                next,
              )
              run,
          clean,
        )
