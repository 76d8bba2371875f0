-- ===== src/Merkle/Digest.antt =====
-- The hex digests of apps/core/merkle.py and the two domain-separated hashes.
use multilingual_task_api.Prelude.{
  ◌≡◌, refl, false, not, [], ◌∷◌, ◌++◌, ◌==◌, length, All, Outcome, ok, value_error, ◌>>=◌, ◌>>◌,
  raise_if, arith, ==_iff,
}
use multilingual_task_api.PyText.{Text, Bytes, strip, lower, fromhex, hexdigest, text_eq}
use multilingual_task_api.PyText.Hex.{
  IsByte, hexdigest-IsHexChar, length-hexdigest, fromhex-hexdigest, strip-keeps, lower-keeps,
}

abbrev pub IsHash : Bytes → Type 0
IsHash bs = (length bs ≡ 32) × All IsByte bs

-- `hashlib.sha256(m).digest()`: some function on bytes; its result has 32 bytes.
pub record Sha256 : Type 0 where
  pub digest : Bytes → Bytes
  pub digest-IsHash : (m : Bytes) → IsHash (digest m)

unfoldable pub decode_digest_hex : Text → Outcome Bytes
decode_digest_hex hex_digest = do
  let cleaned = lower (strip hex_digest)
  raise_if (not (length cleaned == 64)) value_error
  fromhex cleaned

module _ (h : Sha256) where
  unfoldable pub hash_merkle_leaf : Text → Outcome Text
  hash_merkle_leaf leaf_hex = do
    raw ← decode_digest_hex leaf_hex
    ok (hexdigest (h.digest (0 ∷ raw)))

  unfoldable pub hash_merkle_children : Text → Text → Outcome Text
  hash_merkle_children left_hex right_hex = do
    left_raw ← decode_digest_hex left_hex
    right_raw ← decode_digest_hex right_hex
    ok (hexdigest (h.digest (1 ∷ left_raw ++ right_raw)))

-- A text that `hexdigest` wrote for a hash.
abbrev pub IsDigest : Text → Type 0
IsDigest t = (bs : Bytes) × IsHash bs × (t ≡ hexdigest bs)

pub decode-hexdigest : (bs : Bytes) → IsHash bs → decode_digest_hex (hexdigest bs) ≡ ok bs
unfolding decode_digest_hex
decode-hexdigest bs v =
    let chars = hexdigest-IsHexChar bs v.1 in
    rw
      (
        strip-keeps (hexdigest bs) chars,
        lower-keeps (hexdigest bs) chars,
        (==_iff (length (hexdigest bs)) 64).1 (omega (arith, length-hexdigest bs)),
      )
      (fromhex-hexdigest bs v.1)

pub clean-hexdigest : (bs : Bytes) → IsHash bs → lower (strip (hexdigest bs)) ≡ hexdigest bs
clean-hexdigest bs v =
    let chars = hexdigest-IsHexChar bs v.1 in
    rw (strip-keeps (hexdigest bs) chars) (lower-keeps (hexdigest bs) chars)

pub hexdigest-ne-empty : (bs : Bytes) → IsHash bs → text_eq (hexdigest bs) [] ≡ false
unfolding text_eq hexdigest
hexdigest-ne-empty [] v = absurd (omega arith)
hexdigest-ne-empty (b ∷ bs) v = refl
