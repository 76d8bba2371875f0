-- ===== src/Merkle/Tree.antt =====
-- The tree of RFC 9162 over bytes, as a specification of apps/core/merkle.py: the hash of a tree,
-- the audit path of a leaf, and how a list of hex digests is laid out as a tree.
use multilingual_task_api.Prelude.{
  ℕ, ◌+◌, ◌-◌, ◌^◌, ◌≤◌, ◌≡◌, List, [], ◌∷◌, ◌++◌, length, ltb, if◌then◌else◌, ok,
}
use multilingual_task_api.PyText.{Text, Bytes, hexdigest}
use multilingual_task_api.Merkle.{Sha256, decode_digest_hex}

pub data Tree : Type 0 where
  leaf : Bytes → Tree
  node : Tree → Tree → Tree

abbrev pub size : Tree → ℕ
size (leaf d) = 1
size (node l r) = size l + size r

-- The data of leaf `m`.
abbrev pub leaf_at : Tree → ℕ → Bytes
leaf_at (leaf d) m = d
leaf_at (node l r) m = if ltb m (size l) then leaf_at l m else leaf_at r (m - size l)

module _ (h : Sha256) where
  -- `MTH`
  abbrev pub raw : Tree → Bytes
  raw (leaf d) = h.digest (0 ∷ d)
  raw (node l r) = h.digest (1 ∷ raw l ++ raw r)

  abbrev pub hex : Tree → Text
  hex t = hexdigest (raw t)

  -- `PATH`, from the leaf to the root.
  abbrev pub audit_path : Tree → ℕ → List Text
  audit_path (leaf d) m = []
  audit_path (node l r) m =
      if ltb m (size l)
      then audit_path l m ++ hex r ∷ []
      else audit_path r (m - size l) ++ hex l ∷ []

-- The left part of a list is the largest power of two below its length, `2 ^ j`.
pub data Layout : List Text → Tree → Type 0 where
  single : {x : Text} {d : Bytes} → decode_digest_hex x ≡ ok d → Layout (x ∷ []) (leaf d)
  split :
      {xs : List Text} {l r : Tree} (j : ℕ) (ys zs : List Text)
      → xs ≡ ys ++ zs
      → length ys ≡ 2 ^ j
      → 1 ≤ length zs
      → length zs ≤ 2 ^ j
      → Layout ys l
      → Layout zs r
      → Layout xs (node l r)

-- `x` decodes, as `bytes.fromhex` and the length check want it.
abbrev pub IsLeafHex : Text → Type 0
IsLeafHex x = (d : Bytes) × (decode_digest_hex x ≡ ok d)
