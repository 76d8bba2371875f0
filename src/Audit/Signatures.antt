-- ===== src/Audit/Signatures.antt =====
-- The keys and signatures of apps/core/audit_chain.py. The package `cryptography`, the answers of AWS
-- KMS and the settings are parameters.
use multilingual_task_api.Prelude.{
  Bool, true, false, ◌&&◌, not, Option, some, none, List, [], ◌∷◌, ◌++◌, ◌==◌, if◌then◌else◌,
  Outcome, ok, err, value_error, runtime_error, ◌>>=◌, ◌>>◌, raise_if,
}
use multilingual_task_api.PyText.{Text, Bytes, codes, strip, fromhex, hexdigest, text_eq}
use multilingual_task_api.PyText.Base64.{b64decode, b64url_encode, b64url_decode}
use multilingual_task_api.Audit.{Encoding, Envelope}

pub data CheckpointReason : Type 0 where
  checkpoint_sequence_gap checkpoint_prev_hash_mismatch : CheckpointReason
  checkpoint_hash_mismatch checkpoint_signature_mismatch : CheckpointReason
  checkpoint_public_key_unavailable checkpoint_public_key_mismatch : CheckpointReason
  checkpoint_asymmetric_signature_mismatch checkpoint_anchor_divergence : CheckpointReason
  checkpoint_merkle_root_mismatch : CheckpointReason

-- The classes of keys that the code tells apart.
pub data PublicKey : Type 0 where
  ed25519_public ec_public other_public : Bytes → PublicKey

pub data PrivateKey : Type 0 where
  ed25519_private other_private : Bytes → PrivateKey

-- The package `cryptography`. `verify` answers whether the call returns: it raises `InvalidSignature` or
-- `ValueError` otherwise. A signature that a private key makes is accepted by its public key.
pub record Cryptography : Type 0 where
  pub spki_der : PublicKey → Bytes
  pub spki_pem : PublicKey → Text
  pub load_pem_public_key : Text → Outcome PublicKey
  pub load_der_public_key : Bytes → Outcome PublicKey
  pub load_pem_private_key : Text → Outcome PrivateKey
  pub public_key : Bytes → Bytes
  pub sign : Bytes → Bytes → Bytes
  pub verify_ed25519 : Bytes → Bytes → Bytes → Bool
  pub verify_prehashed : Bytes → Bytes → Bytes → Bool

-- The settings, as they are configured.
pub record Settings : Type 0 where
  pub audit_anchor_signing_key : Text
  pub secret_key : Text
  pub audit_anchor_public_key_pem : Text
  pub audit_anchor_ed25519_private_key_pem : Text
  pub audit_anchor_kms_key_id : Text

-- What `_kms_sigv4_json_post` returns for a key: the field `PublicKey`, and for a message the field
-- `Signature`, empty where it is missing. `cached` is what the memo holds for the key.
pub record Kms : Type 0 where
  pub cached : Option Bytes
  pub get_public_key : Outcome Text
  pub sign : Bytes → Outcome Text

-- `text.replace("\\n", "\n")`
unfoldable pub replace_newlines : Text → Text
replace_newlines [] = []
replace_newlines (c ∷ []) = c ∷ []
replace_newlines (c ∷ d ∷ t) =
    let both = replace_newlines t in
    let one = replace_newlines (d ∷ t) in if c == 92 && d == 110 then 10 ∷ both else c ∷ one

unfoldable pub normalize_pem_bytes : Text → Text
unfolding replace_newlines
normalize_pem_bytes raw_pem = replace_newlines (strip raw_pem)

unfoldable pub is_blank : Text → Bool
is_blank t = text_eq (strip t) []

unfoldable pub kms_get_public_key_der : Kms → Outcome Bytes
kms_get_public_key_der k = elim k.cached [
  | some der ↦ ok der
  | none ↦ do
    answer ← k.get_public_key
    raise_if (text_eq (strip answer) []) runtime_error
    b64decode (strip answer)
]

unfoldable pub kms_sign_checkpoint_digest : Kms → Text → Outcome Bytes
kms_sign_checkpoint_digest k checkpoint_hash_hex = do
  digest_bytes ← fromhex checkpoint_hash_hex
  answer ← k.sign digest_bytes
  raise_if (text_eq (strip answer) []) runtime_error
  b64decode (strip answer)

unfoldable pub compute_canonical_checkpoint_hash : Encoding → Envelope → Text
compute_canonical_checkpoint_hash x e = hexdigest (x.sha256.digest (x.envelope_json e))

module _ (x : Encoding) (s : Settings) where
  unfoldable pub anchor_signing_secret : Bytes
  anchor_signing_secret = elim (strip s.audit_anchor_signing_key) [
    | [] ↦ x.hmac_sha256 s.secret_key (codes "mltask-audit-worm-anchor-v1")
    | c ∷ t ↦ c ∷ t
  ]

  unfoldable pub compute_checkpoint_hash_and_signature : Envelope → Text × Text
  unfolding anchor_signing_secret compute_canonical_checkpoint_hash
  compute_checkpoint_hash_and_signature e =
      let ckpt_hash = compute_canonical_checkpoint_hash x e in
      (ckpt_hash, hexdigest (x.hmac_sha256 anchor_signing_secret ckpt_hash))

module _ (x : Encoding) (c : Cryptography) where
  unfoldable pub fingerprint : PublicKey → Text
  fingerprint k = hexdigest (x.sha256.digest (c.spki_der k))

  -- The `try` block, once the signature is not empty.
  unfoldable pub signature_reasons : PublicKey → Text → Text → Text → List CheckpointReason
  signature_reasons key checkpoint_hash algorithm signature = elim (b64url_decode signature) [
    | err e ↦ checkpoint_asymmetric_signature_mismatch ∷ []
    | ok raw ↦
        if text_eq algorithm (codes "Ed25519")
        then elim key [
          | ed25519_public k ↦
              if c.verify_ed25519 k raw checkpoint_hash
              then []
              else checkpoint_asymmetric_signature_mismatch ∷ []
          | _ ↦ checkpoint_public_key_mismatch ∷ []
        ]
        else if text_eq algorithm (codes "KMS-ECDSA-SHA256")
        then elim key [
          | ec_public k ↦ elim (fromhex checkpoint_hash) [
            | err e ↦ checkpoint_asymmetric_signature_mismatch ∷ []
            | ok digest ↦
                if c.verify_prehashed k raw digest
                then []
                else checkpoint_asymmetric_signature_mismatch ∷ []
          ]
          | _ ↦ checkpoint_public_key_mismatch ∷ []
        ]
        else checkpoint_asymmetric_signature_mismatch ∷ []
  ]

  unfoldable pub verify_signature_with_public_key :
      PublicKey → Text → Text → Text → Text → List CheckpointReason
  unfolding fingerprint signature_reasons
  verify_signature_with_public_key key checkpoint_hash algorithm signature expected =
      (if not (text_eq expected []) && not (text_eq (fingerprint key) expected)
        then checkpoint_public_key_mismatch ∷ []
        else [])
      ++ elim (text_eq signature []) [
        | true ↦ checkpoint_asymmetric_signature_mismatch ∷ []
        | false ↦ signature_reasons key checkpoint_hash algorithm signature
      ]

  module _ (s : Settings) (k : Kms) where
    unfoldable pub kms_public_key : Outcome PublicKey
    unfolding kms_get_public_key_der
    kms_public_key = do der_bytes ← kms_get_public_key_der k; c.load_der_public_key der_bytes

    -- The keys of `_resolve_verification_public_key` after the Ed25519 key.
    unfoldable pub resolve_from_kms : Outcome (Option PublicKey)
    unfolding is_blank kms_public_key
    resolve_from_kms =
        if is_blank s.audit_anchor_kms_key_id
        then ok none
        else do key ← kms_public_key; ok (some key)

    unfoldable pub resolve_from_private : Outcome (Option PublicKey)
    unfolding is_blank normalize_pem_bytes resolve_from_kms
    resolve_from_private =
        if is_blank s.audit_anchor_ed25519_private_key_pem then resolve_from_kms else do
          priv ← c.load_pem_private_key (normalize_pem_bytes s.audit_anchor_ed25519_private_key_pem)
          elim priv [
            | ed25519_private p ↦ ok (some (ed25519_public (c.public_key p)))
            | other_private _ ↦ resolve_from_kms
          ]

    unfoldable pub resolve_verification_public_key : Outcome (Option PublicKey)
    unfolding is_blank normalize_pem_bytes resolve_from_private
    resolve_verification_public_key =
        if is_blank s.audit_anchor_public_key_pem then resolve_from_private else do
          key ← c.load_pem_public_key (normalize_pem_bytes s.audit_anchor_public_key_pem)
          ok (some key)

    unfoldable pub kms_signature : Text → Outcome (Text × Text × Text)
    unfolding kms_sign_checkpoint_digest is_blank normalize_pem_bytes kms_public_key fingerprint
    kms_signature checkpoint_hash = do
      sig_bytes ← kms_sign_checkpoint_digest k checkpoint_hash
      key ←
          if is_blank s.audit_anchor_public_key_pem
          then kms_public_key
          else c.load_pem_public_key (normalize_pem_bytes s.audit_anchor_public_key_pem)
      ok (codes "KMS-ECDSA-SHA256", fingerprint key, b64url_encode sig_bytes)

    unfoldable pub ed25519_signature : Text → Outcome (Text × Text × Text)
    unfolding normalize_pem_bytes fingerprint
    ed25519_signature checkpoint_hash = do
      priv ← c.load_pem_private_key (normalize_pem_bytes s.audit_anchor_ed25519_private_key_pem)
      elim priv [
        | other_private _ ↦ err value_error
        | ed25519_private p ↦ ok (
          codes "Ed25519",
          fingerprint (ed25519_public (c.public_key p)),
          b64url_encode (c.sign p checkpoint_hash),
        )
      ]

    -- The algorithm, the fingerprint of the key, and the signature.
    unfoldable pub sign_checkpoint_asymmetrically : Text → Outcome (Text × Text × Text)
    unfolding is_blank kms_signature ed25519_signature
    sign_checkpoint_asymmetrically checkpoint_hash =
        if not (is_blank s.audit_anchor_kms_key_id)
        then kms_signature checkpoint_hash
        else if not (is_blank s.audit_anchor_ed25519_private_key_pem)
        then ed25519_signature checkpoint_hash
        else ok (codes "HMAC-SHA256", [], [])
