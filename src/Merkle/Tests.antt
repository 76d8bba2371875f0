-- ===== src/Merkle/Tests.antt =====
-- Tests and instances for apps/core/merkle.py, with a checksum in place of SHA-256.
use multilingual_task_api.Prelude.{
  ℕ, zero, suc, ◌+◌, ◌*◌, ◌%◌, ◌≤◌, ◌<◌, ◌-◌, ◌≡◌, refl, true, List, [], ◌∷◌, ◌++◌, ◌⊎◌, replicate,
  length, length-replicate, All, get_elem?, some, take, ok, arith,
}
use multilingual_task_api.Prelude.Int.{pos}
use multilingual_task_api.PyText.{Text, Bytes, codes, strip, lower, fromhex, hexdigest, text_eq}
use multilingual_task_api.PyText.Hex.{IsByte}
use multilingual_task_api.Merkle.{
  Sha256, bit_length, decode_digest_hex, hash_merkle_leaf, compute_merkle_root,
  build_merkle_inclusion_proof, verify_merkle_inclusion_path, hash_merkle_children,
  largest_power_of_two_less_than, joins_left, climb,
}
use multilingual_task_api.Merkle.Digest.{IsHash}
use multilingual_task_api.Merkle.Tree.{IsLeafHex}
use multilingual_task_api.Merkle.Complete.{inclusion_complete}
use multilingual_task_api.Merkle.Sound.{Collision, inputs}
use multilingual_task_api.Merkle.Theorem.{inclusion_sound}
use multilingual_task_api.Merkle.Consistency.{
  build_merkle_consistency_proof, verify_merkle_consistency_proof,
}
use multilingual_task_api.Merkle.Consistency.Complete.{Accepted, consistency_complete}

abbrev pub checksum : ℕ → Bytes → ℕ
checksum acc [] = acc % 256
checksum acc (b ∷ bs) = checksum (acc * 31 + b) bs

checksum-IsByte : (acc : ℕ) (bs : Bytes) → checksum acc bs < 256
checksum-IsByte acc [] = omega arith
checksum-IsByte acc (b ∷ bs) = checksum-IsByte (acc * 31 + b) bs

replicate-IsByte : (n v : ℕ) → v < 256 → All IsByte (replicate n v)
replicate-IsByte zero v h = tt
replicate-IsByte (suc n) v h = (h, replicate-IsByte n v h)

pub toy_digest-IsHash : (m : Bytes) → IsHash (replicate 32 (checksum 7 m))
toy_digest-IsHash m =
    (length-replicate 32 (checksum 7 m), replicate-IsByte 32 (checksum 7 m) (checksum-IsByte 7 m))

abbrev pub toy : Sha256
toy = record { digest = λ m. replicate 32 (checksum 7 m); digest-IsHash = toy_digest-IsHash }

abbrev leaf_a : Text
leaf_a = hexdigest (replicate 32 1)

abbrev leaf_b : Text
leaf_b = hexdigest (replicate 32 2)

abbrev leaf_c : Text
leaf_c = hexdigest (replicate 32 3)

abbrev leaves : List Text
leaves = leaf_a ∷ leaf_b ∷ leaf_c ∷ []

leaves-good : All IsLeafHex leaves
unfolding decode_digest_hex hexdigest fromhex strip lower
leaves-good = ((replicate 32 1, refl), ((replicate 32 2, refl), ((replicate 32 3, refl), tt)))

upper_case :
    decode_digest_hex (codes "  ABABABABABABABABABABABABABABABABABABABABABABABABABABABABABABABAB ")
    ≡ ok (replicate 32 171)
unfolding decode_digest_hex fromhex strip lower
upper_case = refl

-- A text of 64 characters with a space inside passes as a digest, of 31 bytes here.
short_digest :
    decode_digest_hex (codes "abababababababababababababababab  ababababababababababababababab")
    ≡ ok (replicate 31 171)
unfolding decode_digest_hex fromhex strip lower
short_digest = refl

inclusion_complete_example :
    (path : List Text) × (root : Text) × (leaf_hash : Text) × (build_merkle_inclusion_proof toy
        leaves
        (pos 2)
      ≡ ok path)
    × (compute_merkle_root toy leaves ≡ ok root)
    × (hash_merkle_leaf toy leaf_c ≡ ok leaf_hash)
    × (verify_merkle_inclusion_path toy leaf_c (pos 2) (pos 3) path root
        ≡ record { valid = true; recomputed_root = root; leaf_hash = leaf_hash; reasons = [] })
    × (length path ≤ bit_length (3 - 1))
inclusion_complete_example = inclusion_complete toy leaves 2 leaf_c leaves-good refl

consistency_complete_example :
    (path : List Text) × (first : Text) × (second : Text) × (build_merkle_consistency_proof toy
        leaves
        (pos 2)
      ≡ ok path)
    × (compute_merkle_root toy (take 2 leaves) ≡ ok first)
    × (compute_merkle_root toy leaves ≡ ok second)
    × Accepted toy (verify_merkle_consistency_proof toy (pos 2) (pos 3) first second path)
consistency_complete_example = consistency_complete toy leaves 2 leaves-good (omega arith)

abbrev leaf_hash_of : Bytes → Text
leaf_hash_of d = hexdigest (toy.digest (0 ∷ d))

abbrev pair_hash : Text
pair_hash =
    hexdigest (toy.digest (1 ∷ toy.digest (0 ∷ replicate 32 1) ++ toy.digest (0 ∷ replicate 32 2)))

abbrev top : Text
top = hexdigest (
    toy.digest (
      1 ∷ toy.digest (1 ∷ toy.digest (0 ∷ replicate 32 1) ++ toy.digest (0 ∷ replicate 32 2))
      ++ toy.digest (0 ∷ replicate 32 3)))

top_lem : compute_merkle_root toy leaves ≡ ok (lower (strip top))
unfolding compute_merkle_root hash_merkle_leaf hash_merkle_children largest_power_of_two_less_than
    bit_length decode_digest_hex hexdigest fromhex strip lower
top_lem = refl

proof_passes :
    (verify_merkle_inclusion_path toy leaf_c (pos 2) (pos 3) (pair_hash ∷ []) top).valid ≡ true
unfolding verify_merkle_inclusion_path hash_merkle_leaf hash_merkle_children decode_digest_hex
    hexdigest fromhex strip lower text_eq joins_left climb
proof_passes = refl

inclusion_sound_example :
    (m : ℕ) × (there : Text) × (honest : List Text) × (pos 2 ≡ pos m)
    × (get_elem? leaves m ≡ some there)
    × (build_merkle_inclusion_proof toy leaves (pos m) ≡ ok honest)
    × ((decode_digest_hex leaf_c ≡ decode_digest_hex there)
        ⊎ Collision toy (inputs toy leaf_c (pair_hash ∷ []) m 3) (inputs toy there honest m 3))
inclusion_sound_example =
    inclusion_sound toy leaves leaf_c (pos 2) (pair_hash ∷ []) top leaves-good top_lem proof_passes
