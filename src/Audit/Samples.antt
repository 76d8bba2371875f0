-- ===== src/Audit/Samples.antt =====
-- Instances for the tests of apps/core/audit_chain.py. The encoding writes the length of every field
-- before it.
use multilingual_task_api.Prelude.{
  ℕ, zero, suc, ◌+◌, ◌≡◌, refl, sym, ap, ◌∙◌, true, false, Option, some, none, List, [], ◌∷◌, ◌++◌,
  length, ok, err, runtime_error, append-parts,
}
use multilingual_task_api.PyText.{Text, Bytes, codes, text_eq, strip}
use multilingual_task_api.PyText.Base64.Round.{encode-ne-empty}
use multilingual_task_api.Merkle.Tests.{toy}
use multilingual_task_api.Audit.{Encoding, EntryDoc, Envelope, Manifest, NewEntry}
use multilingual_task_api.PyText.Hex.{text_eq_refl}
use multilingual_task_api.Audit.Signatures.{
  ed25519_public, ec_public, other_public, ed25519_private, Cryptography, Settings, Kms, is_blank,
  normalize_pem_bytes,
}
use multilingual_task_api.Audit.Anchors.{Archive, refused, Draw}
use multilingual_task_api.Audit.Created.{Agree}
use multilingual_task_api.Audit.Runs.{Step, seal, anchor}
use multilingual_task_api.Audit.Keys.{SignsWell, ed25519_agrees}

unfoldable pub pack : List Text → Bytes
pack [] = []
pack (t ∷ ts) = length t ∷ t ++ pack ts

pub pack-injective : (a b : List Text) → pack a ≡ pack b → a ≡ b
unfolding pack
pack-injective [] [] e = refl
pack-injective [] (t ∷ ts) e = cc
pack-injective (t ∷ ts) [] e = cc
pack-injective (t ∷ ts) (u ∷ us) e =
    let (head, tail) = append-parts t u (pack ts) (pack us) (cc) (cc) in
    cc (head, pack-injective ts us tail)

abbrev pub option_text : Option Text → Text
option_text none = []
option_text (some t) = 1 ∷ t

abbrev pub text_option : Text → Option Text
text_option [] = none
text_option (c ∷ t) = some t

text_option_lem : (o : Option Text) → text_option (option_text o) ≡ o
text_option_lem none = refl
text_option_lem (some t) = refl

abbrev pub entry_fields : EntryDoc → List Text
entry_fields d =
    d.id
    ∷ option_text d.organization_id
    ∷ option_text d.user_id
    ∷ d.action
    ∷ d.resource_type
    ∷ d.resource_id
    ∷ option_text d.ip_address
    ∷ d.user_agent
    ∷ d.metadata
    ∷ (d.created_at ∷ [])
    ∷ (d.chain_seq ∷ [])
    ∷ d.prev_hash
    ∷ []

abbrev pub nth : ℕ → List Text → Text
nth n [] = []
nth zero (t ∷ ts) = t
nth (suc n) (t ∷ ts) = nth n ts

abbrev pub first_of : Text → ℕ
first_of [] = 0
first_of (n ∷ t) = n

abbrev pub entry_of : List Text → EntryDoc
entry_of l = record {
  id = nth 0 l;
  organization_id = text_option (nth 1 l);
  user_id = text_option (nth 2 l);
  action = nth 3 l;
  resource_type = nth 4 l;
  resource_id = nth 5 l;
  ip_address = text_option (nth 6 l);
  user_agent = nth 7 l;
  metadata = nth 8 l;
  created_at = first_of (nth 9 l);
  chain_seq = first_of (nth 10 l);
  prev_hash = nth 11 l;
}

pub entry_of_fields : (d : EntryDoc) → entry_of (entry_fields d) ≡ d
entry_of_fields d =
    rw (text_option_lem d.organization_id, text_option_lem d.user_id, text_option_lem d.ip_address)

abbrev pub envelope_fields : Envelope → List Text
envelope_fields e =
    e.id
    ∷ e.organization_id
    ∷ (e.checkpoint_seq ∷ [])
    ∷ (e.covered_up_to_seq ∷ [])
    ∷ (e.verified_entries ∷ [])
    ∷ e.head_hash
    ∷ e.manifest_digest
    ∷ e.prev_checkpoint_hash
    ∷ (e.retention_until ∷ [])
    ∷ (e.created_at ∷ [])
    ∷ option_text e.merkle_root
    ∷ []

abbrev pub manifest_fields : Manifest → List Text
manifest_fields m =
    m.organization_id
    ∷ (m.verified_entries ∷ [])
    ∷ m.genesis_hash
    ∷ m.head_hash
    ∷ (elim m.valid [ true ↦ codes "true" | false ↦ codes "false" ])
    ∷ []

abbrev pub packed : Encoding
packed = record {
  sha256 = toy;
  hmac_sha256 = λ key message. toy.digest (key ++ message);
  entry_json = λ d. pack (entry_fields d);
  envelope_json = λ e. pack (envelope_fields e);
  manifest_json = λ m. pack (manifest_fields m);
  entry_json-injective = λ a b e.
      sym (entry_of_fields a)
      ∙ ap entry_of (pack-injective (entry_fields a) (entry_fields b) e)
      ∙ entry_of_fields b;
}

-- Keys of the tests: a key signs by a digest over itself and the message.
abbrev pub signer : Cryptography
signer = record {
  spki_der =
      λ key. elim key [ ed25519_public k ↦ 1 ∷ k | ec_public k ↦ 2 ∷ k | other_public k ↦ 3 ∷ k ];
  spki_pem = λ key. elim key [ ed25519_public k ↦ k | ec_public k ↦ k | other_public k ↦ k ];
  load_pem_public_key = λ pem. ok (ed25519_public pem);
  load_der_public_key = λ der. ok (ec_public der);
  load_pem_private_key = λ pem. ok (ed25519_private pem);
  public_key = λ p. p;
  sign = λ p m. toy.digest (p ++ m);
  verify_ed25519 = λ k sig m. text_eq sig (toy.digest (k ++ m));
  verify_prehashed = λ k sig d. text_eq sig (toy.digest (k ++ d));
}

abbrev pub ed25519_settings : Settings
ed25519_settings = record {
  audit_anchor_signing_key = codes "anchor";
  secret_key = codes "django";
  audit_anchor_public_key_pem = [];
  audit_anchor_ed25519_private_key_pem = codes "private";
  audit_anchor_kms_key_id = [];
}

abbrev pub plain_settings : Settings
plain_settings = record ed25519_settings { audit_anchor_ed25519_private_key_pem = [] }

abbrev pub mixed_settings : Settings
mixed_settings = record ed25519_settings { audit_anchor_kms_key_id = codes "kms" }

-- AWS KMS that cannot be reached, and one that answers.
abbrev pub no_kms : Kms
no_kms = record { cached = none; get_public_key = err runtime_error; sign = λ _. err runtime_error }

abbrev pub some_kms : Kms
some_kms = record {
  cached = some (5 ∷ []);
  get_public_key = err runtime_error;
  sign = λ _. ok (codes "AAAA");
}

abbrev pub archive : Archive
archive = record {
  bucket = codes "worm";
  retention_days = 365;
  upload = λ _. refused (codes "down");
  str = λ _. codes "failed";
  payload_json = λ _. [];
}

abbrev pub acme : Text
acme = codes "acme"

abbrev pub login : Text → NewEntry
login id = record {
  id = id;
  organization = some acme;
  user = none;
  action = codes "login";
  resource_type = codes "user";
  resource_id = [];
  ip_address = some (codes "10.0.0.1");
  user_agent = [];
  metadata = none;
  created_at = none;
}

abbrev pub draw : ℕ → Draw
draw i = record { now = 100 + i; checkpoint_id = i ∷ []; event_id = i }

abbrev pub steps : List Step
steps = seal 5 (login (codes "a")) ∷ anchor false (draw 1) acme ∷ seal 6 (login (codes "b")) ∷ []

pub signs_well : SignsWell packed signer ed25519_settings no_kms archive (codes "private")
signs_well m =
    let bytes = (toy.digest-IsHash (codes "private" ++ m)).1 in
    (text_eq_refl (toy.digest (codes "private" ++ m)), bytes, encode-ne-empty _ _ bytes)

pub agrees : Agree packed signer ed25519_settings no_kms archive
unfolding strip is_blank normalize_pem_bytes text_eq
agrees =
    ed25519_agrees packed signer ed25519_settings no_kms archive (codes "private") refl refl refl
      refl signs_well
