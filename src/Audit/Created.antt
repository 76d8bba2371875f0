-- ===== src/Audit/Created.antt =====
-- `create_organization_audit_checkpoint` of apps/core/audit_chain.py keeps an organization's checkpoints
-- in order, and so does every entry that is sealed later.
use multilingual_task_api.Prelude.{
  ℕ, zero, suc, ◌+◌, ◌≤◌, ◌≡◌, refl, sym, ap, subst, ◌∙◌, Option, some, none, List, [], ◌∷◌, ◌++◌,
  arith, length, lt→ltb, ge→ltb, take, ok, err, Exn, Outcome, length-append,
}
use multilingual_task_api.PyText.{Text, codes, strip, text_eq}
use multilingual_task_api.Merkle.{compute_merkle_root}
use multilingual_task_api.Audit.{Encoding, AuditLog, genesis_audit_hash}
use multilingual_task_api.Audit.Chain.{tip}
use multilingual_task_api.Audit.Leaves.{leaves_of, length-leaves_of}
use multilingual_task_api.Audit.Signatures.{
  PublicKey, Cryptography, Settings, Kms, compute_checkpoint_hash_and_signature,
  resolve_verification_public_key, sign_checkpoint_asymmetrically,
}
use multilingual_task_api.Audit.Checkpoints.{
  AuditChainCheckpoint, hmac_sealed, envelope_of, is_asymmetric, or_hmac, latest,
  ordered_checkpoints, insert_checkpoint, ckpt_comes_first, Report,
}
use multilingual_task_api.Audit.Verification.{asymmetric_reasons}
use multilingual_task_api.Audit.Anchored.{Holds, AreAnchored}
use multilingual_task_api.Audit.Anchors.{
  Archive, Draw, Upload, stored, refused, draft, new_checkpoint, next_seq, prev_hash_of,
  with_signature, with_upload, archived,
}

-- The first rows stay where they are when a row is added.
take-append_left :
    {A : Type 0} (n : ℕ) (xs ys : List A) → n ≤ length xs → take n (xs ++ ys) ≡ take n xs
take-append_left zero xs ys h = refl
take-append_left (suc n) [] ys h = absurd (omega arith)
take-append_left (suc n) (x ∷ xs) ys h = ap (λ r. x ∷ r) (take-append_left n xs ys (omega arith))

take-length : {A : Type 0} (xs : List A) → take (length xs) xs ≡ xs
take-length [] = refl
take-length (x ∷ xs) = ap (λ r. x ∷ r) (take-length xs)

leaves-append : (t u : List AuditLog) → leaves_of (t ++ u) ≡ leaves_of t ++ leaves_of u
leaves-append [] u = refl
leaves-append (e ∷ t) u = ap (λ (r : List Text). e.entry_hash ∷ r) (leaves-append t u)

module _ (x : Encoding) (c : Cryptography) (s : Settings) where
  Holds-longer :
      (active : Option PublicKey) (n : ℕ) (prev : Text) (t u : List AuditLog)
      (ckpt : AuditChainCheckpoint)
      → Holds x c s active n prev t ckpt
      → Holds x c s active n prev (t ++ u) ckpt
  Holds-longer active n prev t u ckpt h = record {
    seq = h.seq;
    linked = h.linked;
    hash = h.hash;
    mac = h.mac;
    signed = h.signed;
    covered = omega (arith, length-append t u, h.covered);
    head = rw (take-append_left ckpt.covered_up_to_seq t u h.covered) h.head;
    root =
        rw
          (
            leaves-append t u,
            take-append_left ckpt.covered_up_to_seq (leaves_of t) (leaves_of u)
                (omega (arith, length-leaves_of t, h.covered)),
          )
          h.root;
  }

  -- Entries that are sealed later leave the checkpoints as they are.
  pub append-AreAnchored :
      (active : Option PublicKey) (n : ℕ) (prev : Text) (t u : List AuditLog)
      (cs : List AuditChainCheckpoint)
      → AreAnchored x c s active n prev t cs
      → AreAnchored x c s active n prev (t ++ u) cs
  append-AreAnchored active n prev t u [] h = tt
  append-AreAnchored active n prev t u (ckpt ∷ cs) h = (
    Holds-longer active n prev t u ckpt h.0,
    append-AreAnchored active (suc n) ckpt.checkpoint_hash t u cs h.1,
  )

  abbrev pub last_hash : Text → List AuditChainCheckpoint → Text
  last_hash prev [] = prev
  last_hash prev (ckpt ∷ cs) = last_hash ckpt.checkpoint_hash cs

  pub snoc-AreAnchored :
      (active : Option PublicKey) (n : ℕ) (prev : Text) (t : List AuditLog)
      (cs : List AuditChainCheckpoint) (ckpt : AuditChainCheckpoint)
      → AreAnchored x c s active n prev t cs
      → Holds x c s active (length cs + n) (last_hash prev cs) t ckpt
      → AreAnchored x c s active n prev t (cs ++ ckpt ∷ [])
  snoc-AreAnchored active n prev t [] ckpt h last =
      (subst (λ (m : ℕ). Holds x c s active m prev t ckpt) (omega arith) last, tt)
  snoc-AreAnchored active n prev t (d ∷ cs) ckpt h last = (
    h.0,
    snoc-AreAnchored active (suc n) d.checkpoint_hash t cs ckpt h.1 (
        subst (λ (m : ℕ). Holds x c s active m (last_hash d.checkpoint_hash cs) t ckpt)
          (omega arith) last),
  )

  -- They are in the order of the query, and the last one is the latest.
  pub ordered-AreAnchored :
      (active : Option PublicKey) (n : ℕ) (prev : Text) (t : List AuditLog)
      (cs : List AuditChainCheckpoint)
      → AreAnchored x c s active n prev t cs
      → ordered_checkpoints cs ≡ cs
  unfolding ordered_checkpoints
  ordered-AreAnchored active n prev t [] h = refl
  ordered-AreAnchored active n prev t (d ∷ []) h = refl
  ordered-AreAnchored active n prev t (d ∷ e ∷ cs) h =
      rw (ordered_checkpoints, ordered-AreAnchored active (suc n) d.checkpoint_hash t (e ∷ cs) h.1)
        (unfold insert_checkpoint ckpt_comes_first in
          rw (lt→ltb d.checkpoint_seq e.checkpoint_seq (omega (arith, h.0.seq, h.1.0.seq))))

  latest_of_more :
      (active : Option PublicKey) (n : ℕ) (prev : Text) (t : List AuditLog)
      (d : AuditChainCheckpoint) (cs : List AuditChainCheckpoint)
      → AreAnchored x c s active n prev t (d ∷ cs)
      → (l : AuditChainCheckpoint) × (latest (d ∷ cs) ≡ some l)
        × (l.checkpoint_seq ≡ length (d ∷ cs) + n)
        × (l.checkpoint_hash ≡ last_hash prev (d ∷ cs))
  unfolding latest
  latest_of_more active n prev t d [] h = (d, refl, omega (arith, h.0.seq), refl)
  latest_of_more active n prev t d (e ∷ cs) h =
      let (l, found, num, hash) = latest_of_more active (suc n) d.checkpoint_hash t e cs h.1 in
      (
        l,
        rw (latest, found, ge→ltb l.checkpoint_seq d.checkpoint_seq (omega (arith, h.0.seq))),
        omega arith,
        hash,
      )

  pub latest-AreAnchored :
      (active : Option PublicKey) (t : List AuditLog) (cs : List AuditChainCheckpoint)
      → AreAnchored x c s active 0 genesis_audit_hash t cs
      → (next_seq (latest cs) ≡ suc (length cs))
        × (prev_hash_of (latest cs) ≡ last_hash genesis_audit_hash cs)
  unfolding next_seq prev_hash_of latest
  latest-AreAnchored active t [] h = (refl, refl)
  latest-AreAnchored active t (d ∷ cs) h =
      let (l, found, num, hash) = latest_of_more active 0 genesis_audit_hash t d cs h in
      rw found (omega arith, hash)

-- The columns that signing and archiving leave alone.
abbrev pub bare : AuditChainCheckpoint → AuditChainCheckpoint
bare c = record c {
  signature_algorithm = [];
  public_key_fingerprint = [];
  asymmetric_signature = [];
  anchor_status = hmac_sealed;
  worm_uri = [];
  worm_etag = [];
  worm_version_id = [];
  anchor_error = [];
}

archived-cases :
    (P : AuditChainCheckpoint → Type 0) (w : Archive) (c : AuditChainCheckpoint)
    → P c
    → ((u : Upload) → P (with_upload u c))
    → P (archived w c)
unfolding archived
archived-cases P w c none_kept each =
    elim (strip w.bucket) as (λ b. P (elim b [ [] ↦ c | d ∷ bs ↦ with_upload (w.upload c) c ])) [
      | [] ↦ none_kept
      | d ∷ bs ↦ each (w.upload c)
    ]

bare-with_upload : (u : Upload) (c : AuditChainCheckpoint) → bare (with_upload u c) ≡ bare c
unfolding with_upload
bare-with_upload (stored uri etag version) c = refl
bare-with_upload (refused text) c = refl

bare-with_signature :
    (str : Exn → Text) (o : Outcome (Text × Text × Text)) (c : AuditChainCheckpoint)
    → bare (with_signature str o c) ≡ bare c
unfolding with_signature
bare-with_signature str (ok (a, f, g)) c = refl
bare-with_signature str (err e) c = refl

pub hmac-signed :
    (x : Encoding) (c : Cryptography) (s : Settings) (active : Option PublicKey) (hash : Text)
    (ckpt : AuditChainCheckpoint)
    → ckpt.signature_algorithm ≡ codes "HMAC-SHA256"
    → ckpt.asymmetric_signature ≡ []
    → asymmetric_reasons x c s active hash ckpt ≡ []
unfolding asymmetric_reasons is_asymmetric or_hmac text_eq
hmac-signed x c s active hash ckpt alg sig = rw (asymmetric_reasons, alg, sig)

module _ (x : Encoding) (c : Cryptography) (s : Settings) (k : Kms) (w : Archive) where
  -- The key that a verification resolves; an exception leaves none.
  abbrev pub resolved : Option PublicKey
  resolved = elim (resolve_verification_public_key x c s k) [ ok key ↦ key | err e ↦ none ]

  -- The key that the settings resolve accepts every signature that they make.
  abbrev pub Agree : Type 0
  Agree =
      (hash : Text) (ckpt : AuditChainCheckpoint)
      → sign_checkpoint_asymmetrically x c s k hash
        ≡ ok (ckpt.signature_algorithm, ckpt.public_key_fingerprint, ckpt.asymmetric_signature)
      → asymmetric_reasons x c s resolved hash ckpt ≡ []

  signed-with_signature :
      (hash : Text) (ckpt : AuditChainCheckpoint)
      → Agree
      → (o : Outcome (Text × Text × Text)) → sign_checkpoint_asymmetrically x c s k hash ≡ o
      → ckpt.signature_algorithm ≡ codes "HMAC-SHA256"
      → ckpt.asymmetric_signature ≡ []
      → asymmetric_reasons x c s resolved hash (with_signature w.str o ckpt) ≡ []
  unfolding with_signature
  signed-with_signature hash ckpt agree (ok (a, f, g)) e alg sig =
      agree hash (with_signature w.str (ok (a, f, g)) ckpt) e
  signed-with_signature hash ckpt agree (err bad) e alg sig =
      hmac-signed x c s resolved hash (with_signature w.str (err bad) ckpt) alg sig

  signed-with_upload :
      (hash : Text) (u : Upload) (ckpt : AuditChainCheckpoint)
      → asymmetric_reasons x c s resolved hash (with_upload u ckpt)
        ≡ asymmetric_reasons x c s resolved hash ckpt
  unfolding with_upload asymmetric_reasons
  signed-with_upload hash (stored uri etag version) ckpt = refl
  signed-with_upload hash (refused text) ckpt = refl

  abbrev pub sealed_draft :
      Draw → Text → Report → Option AuditChainCheckpoint → AuditChainCheckpoint
  sealed_draft d org r l =
      let hashes = compute_checkpoint_hash_and_signature x s (envelope_of (draft w d org r l)) in
      record (draft w d org r l) { checkpoint_hash = hashes.0; signature = hashes.1 }

  pub bare-new :
      (d : Draw) (org : Text) (r : Report) (l : Option AuditChainCheckpoint)
      → bare (new_checkpoint x c s k w d org r l) ≡ bare (sealed_draft d org r l)
  unfolding new_checkpoint
  bare-new d org r l =
      let base = sealed_draft d org r l in
      let signed =
        with_signature w.str (sign_checkpoint_asymmetrically x c s k base.checkpoint_hash) base in
      archived-cases (λ q. bare q ≡ bare base) w signed (bare-with_signature w.str _ base)
        (λ u. bare-with_upload u signed ∙ bare-with_signature w.str _ base)

  signed-new :
      (d : Draw) (org : Text) (r : Report) (l : Option AuditChainCheckpoint)
      → Agree
      → asymmetric_reasons x c s resolved
          (sealed_draft d org r l).checkpoint_hash
          (new_checkpoint x c s k w d org r l)
        ≡ []
  unfolding new_checkpoint
  signed-new d org r l agree =
      let base = sealed_draft d org r l in
      let hash = base.checkpoint_hash in
      let signed = with_signature w.str (sign_checkpoint_asymmetrically x c s k hash) base in
      let fine = signed-with_signature hash base agree _ refl refl refl in
      archived-cases (λ q. asymmetric_reasons x c s resolved hash q ≡ []) w signed fine
        (λ u. signed-with_upload hash u signed ∙ fine)

  -- A checkpoint that is made from a report on the chain holds for the chain.
  pub new-Holds :
      (d : Draw) (org : Text) (r : Report) (l : Option AuditChainCheckpoint) (t : List AuditLog)
      (n : ℕ) (prev : Text)
      → Agree
      → r.head_chain_seq ≡ length t
      → r.head_hash ≡ tip x genesis_audit_hash t
      → compute_merkle_root x.sha256 (leaves_of t) ≡ ok r.merkle_root
      → next_seq l ≡ suc n
      → prev_hash_of l ≡ prev
      → Holds x c s resolved n prev t (new_checkpoint x c s k w d org r l)
  unfolding envelope_of
  new-Holds d org r l t n prev agree len head root next link =
      let row = new_checkpoint x c s k w d org r l in
      let base = sealed_draft d org r l in
      let same = bare-new d org r l in
      let env : envelope_of row ≡ envelope_of base = ap envelope_of same in
      let all : ℕ = row.covered_up_to_seq in
      let covers : row.covered_up_to_seq ≡ length t =
        ap (λ (q : AuditChainCheckpoint). q.covered_up_to_seq) same ∙ len in
      record {
        seq = ap (λ (q : AuditChainCheckpoint). q.checkpoint_seq) same ∙ next;
        linked = ap (λ (q : AuditChainCheckpoint). q.prev_checkpoint_hash) same ∙ link;
        hash =
            ap (λ (q : AuditChainCheckpoint). q.checkpoint_hash) same
            ∙ ap (λ q. (compute_checkpoint_hash_and_signature x s q).0) (sym env);
        mac =
            ap (λ (q : AuditChainCheckpoint). q.signature) same
            ∙ ap (λ q. (compute_checkpoint_hash_and_signature x s q).1) (sym env);
        signed = rw env (signed-new d org r l agree);
        covered = omega arith;
        head =
            ap (λ (q : AuditChainCheckpoint). q.head_hash) same
            ∙ head
            ∙ ap (tip x genesis_audit_hash) (sym (ap (λ (m : ℕ). take m t) covers ∙ take-length t));
        root =
            ap (λ (m : ℕ). compute_merkle_root x.sha256 (take m (leaves_of t)))
              (covers ∙ sym (length-leaves_of t))
            ∙ ap (compute_merkle_root x.sha256) (take-length (leaves_of t))
            ∙ root
            ∙ ap (λ (q : AuditChainCheckpoint). ok q.merkle_root) (sym same);
      }
