-- ===== src/Audit/Keys.antt =====
-- Which settings of apps/core/audit_chain.py make signatures that its verification accepts.
use multilingual_task_api.Prelude.{
  ◌≡◌, ◌≢◌, refl, sym, ap, ◌∙◌, true, false, not, ◌&&◌, Bool-cases, inl, inr, Option, some, none,
  List, [], ◌∷◌, arith, if◌then◌else◌, All, ok, bind-eq-ok, ok-injective, Outcome-cases,
}
use multilingual_task_api.PyText.{Text, Bytes, codes, text_eq}
use multilingual_task_api.PyText.Hex.{IsByte, text_eq_refl}
use multilingual_task_api.PyText.Base64.{b64url_encode, b64url_decode}
use multilingual_task_api.PyText.Base64.Round.{decode-encode}
use multilingual_task_api.Audit.{Encoding}
use multilingual_task_api.Audit.Signatures.{
  CheckpointReason, checkpoint_public_key_mismatch, checkpoint_public_key_unavailable, PublicKey,
  ed25519_public, ed25519_private, Cryptography, Settings, Kms, normalize_pem_bytes, is_blank,
  fingerprint, signature_reasons, verify_signature_with_public_key, resolve_from_private,
  resolve_verification_public_key, kms_public_key, kms_sign_checkpoint_digest, kms_signature,
  ed25519_signature, sign_checkpoint_asymmetrically,
}
use multilingual_task_api.Audit.Checkpoints.{AuditChainCheckpoint, is_asymmetric, or_hmac}
use multilingual_task_api.Audit.Verification.{asymmetric_reasons}
use multilingual_task_api.Audit.Anchors.{Archive}
use multilingual_task_api.Audit.Created.{resolved, Agree}
use multilingual_task_api.Audit.Tamper.{append_empty}

module _ (x : Encoding) (c : Cryptography) (s : Settings) (k : Kms) (w : Archive) where
  -- What `cryptography` promises of the signatures of an Ed25519 key.
  abbrev pub SignsWell : Bytes → Type 0
  SignsWell p =
      (m : Bytes)
      → (c.verify_ed25519 (c.public_key p) (c.sign p m) m ≡ true)
        × All IsByte (c.sign p m)
        × (text_eq (b64url_encode (c.sign p m)) [] ≡ false)

  resolves_private :
      (p : Bytes)
      → is_blank s.audit_anchor_public_key_pem ≡ true
      → is_blank s.audit_anchor_ed25519_private_key_pem ≡ false
      → c.load_pem_private_key (normalize_pem_bytes s.audit_anchor_ed25519_private_key_pem)
        ≡ ok (ed25519_private p)
      → resolve_verification_public_key x c s k ≡ ok (some (ed25519_public (c.public_key p)))
  unfolding resolve_verification_public_key resolve_from_private
  resolves_private p no_pin has_key loads = rw (no_pin, has_key, loads)

  same_key : (f : Text) → (not (text_eq f []) && not (text_eq f f)) ≡ false
  same_key f = ground (arith, text_eq_refl f)

  reasons_of_own :
      (p hash : Bytes)
      → SignsWell p
      → signature_reasons x c
          (ed25519_public (c.public_key p))
          hash
          (codes "Ed25519")
          (b64url_encode (c.sign p hash))
        ≡ []
  unfolding signature_reasons text_eq
  reasons_of_own p hash well =
      rw (signature_reasons, decode-encode (c.sign p hash) (well hash).1, (well hash).0)

  -- The asymmetric reasons, by the algorithm, the fingerprint and the signature that a row has.
  abbrev judged : Option PublicKey → Text → Text × Text × Text → List CheckpointReason
  judged active hash (a, f, g) = elim (is_asymmetric (or_hmac a) g) [
    | false ↦ []
    | true ↦ elim active [
      | none ↦ checkpoint_public_key_unavailable ∷ []
      | some key ↦ verify_signature_with_public_key x c key hash (or_hmac a) g f
    ]
  ]

  abbrev signed_columns : AuditChainCheckpoint → Text × Text × Text
  signed_columns q = (q.signature_algorithm, q.public_key_fingerprint, q.asymmetric_signature)

  asymmetric-eq-judged :
      (active : Option PublicKey) (hash : Text) (ckpt : AuditChainCheckpoint)
      → asymmetric_reasons x c s active hash ckpt ≡ judged active hash (signed_columns ckpt)
  unfolding asymmetric_reasons
  asymmetric-eq-judged active hash ckpt = refl

  abbrev ed25519_columns : Bytes → Text → Text × Text × Text
  ed25519_columns p hash = (
    codes "Ed25519",
    fingerprint x c (ed25519_public (c.public_key p)),
    b64url_encode (c.sign p hash),
  )

  ed25519_accepted :
      (p hash : Bytes)
      → SignsWell p
      → judged (some (ed25519_public (c.public_key p))) hash (ed25519_columns p hash) ≡ []
  unfolding is_asymmetric or_hmac verify_signature_with_public_key text_eq
  ed25519_accepted p hash well = rw (
    verify_signature_with_public_key,
    same_key (fingerprint x c (ed25519_public (c.public_key p))),
    (well hash).2,
    reasons_of_own p hash well,
  )

  kms_algorithm :
      (hash : Text) (q : Text × Text × Text)
      → kms_signature x c s k hash ≡ ok q
      → q.0 ≡ codes "KMS-ECDSA-SHA256"
  unfolding kms_signature
  kms_algorithm hash q e =
      let (raw, _, rest) = bind-eq-ok (kms_sign_checkpoint_digest k hash) _ e in
      let (key, _, made) =
        bind-eq-ok
          (if is_blank s.audit_anchor_public_key_pem
            then kms_public_key x c s k
            else c.load_pem_public_key (normalize_pem_bytes s.audit_anchor_public_key_pem))
          _ rest in
      sym (ap (λ (q : Text × Text × Text). q.0) (ok-injective made))

  -- An Ed25519 key does not check a KMS signature.
  kms_reasons :
      (key hash : Bytes) (g : Text)
      → signature_reasons x c (ed25519_public key) hash (codes "KMS-ECDSA-SHA256") g ≢ []
  unfolding signature_reasons text_eq
  kms_reasons key hash g h = elim (Outcome-cases (b64url_decode g)) [
    | inl (raw, e) ↦ cc (rw (signature_reasons, e) at h)
    | inr (bad, e) ↦ cc (rw (signature_reasons, e) at h)
  ]

  kms_rejected :
      (p hash : Bytes) (q : Text × Text × Text)
      → q.0 ≡ codes "KMS-ECDSA-SHA256"
      → judged (some (ed25519_public (c.public_key p))) hash q ≢ []
  unfolding is_asymmetric or_hmac verify_signature_with_public_key text_eq
  kms_rejected p hash (a, f, g) alg empty =
      let key = ed25519_public (c.public_key p) in
      let whole : verify_signature_with_public_key x c key hash (codes "KMS-ECDSA-SHA256") g f
          ≡ [] =
        rw alg at empty in
      let part =
        (append_empty
          (if not (text_eq f []) && not (text_eq (fingerprint x c key) f)
            then checkpoint_public_key_mismatch ∷ []
            else [])
          _ whole).1 in
      elim (Bool-cases (text_eq g [])) [
        | inl unsigned ↦ cc (rw unsigned at part)
        | inr signed ↦ kms_reasons (c.public_key p) hash g (rw signed at part)
      ]

  -- With an Ed25519 key alone, neither a pinned key nor a KMS key, every signature that is made is accepted.
  pub ed25519_agrees :
      (p : Bytes)
      → is_blank s.audit_anchor_public_key_pem ≡ true
      → is_blank s.audit_anchor_kms_key_id ≡ true
      → is_blank s.audit_anchor_ed25519_private_key_pem ≡ false
      → c.load_pem_private_key (normalize_pem_bytes s.audit_anchor_ed25519_private_key_pem)
        ≡ ok (ed25519_private p)
      → SignsWell p
      → Agree x c s k w
  unfolding sign_checkpoint_asymmetrically ed25519_signature
  ed25519_agrees p no_pin no_kms has_key loads well hash ckpt made =
      let columns : ed25519_columns p hash ≡ signed_columns ckpt =
        ok-injective (
          rw (sign_checkpoint_asymmetrically, no_kms, has_key, ed25519_signature, loads) at made) in
      rw (resolved, resolves_private p no_pin has_key loads)
        (asymmetric-eq-judged (some (ed25519_public (c.public_key p))) hash ckpt
          ∙ ap (judged (some (ed25519_public (c.public_key p))) hash) (sym columns)
          ∙ ed25519_accepted p hash well)

  -- With a KMS key and an Ed25519 key and no pinned key, signing takes the KMS key and verification the
  -- Ed25519 key: every signature that is made is rejected.
  pub mixed_keys_rejected :
      (p hash : Bytes) (ckpt : AuditChainCheckpoint)
      → is_blank s.audit_anchor_public_key_pem ≡ true
      → is_blank s.audit_anchor_kms_key_id ≡ false
      → is_blank s.audit_anchor_ed25519_private_key_pem ≡ false
      → c.load_pem_private_key (normalize_pem_bytes s.audit_anchor_ed25519_private_key_pem)
        ≡ ok (ed25519_private p)
      → sign_checkpoint_asymmetrically x c s k hash
        ≡ ok (ckpt.signature_algorithm, ckpt.public_key_fingerprint, ckpt.asymmetric_signature)
      → asymmetric_reasons x c s (resolved x c s k w) hash ckpt ≢ []
  unfolding sign_checkpoint_asymmetrically
  mixed_keys_rejected p hash ckpt no_pin has_kms has_key loads made none_given =
      let kms : kms_signature x c s k hash ≡ ok (signed_columns ckpt) =
        rw (sign_checkpoint_asymmetrically, has_kms) at made in
      let empty : judged (some (ed25519_public (c.public_key p))) hash (signed_columns ckpt) ≡ [] =
        sym (asymmetric-eq-judged _ hash ckpt)
        ∙ (rw (resolved, resolves_private p no_pin has_key loads) at none_given) in
      kms_rejected p hash (signed_columns ckpt) (kms_algorithm hash (signed_columns ckpt) kms) empty
