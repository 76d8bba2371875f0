-- ===== src/Merkle.antt =====
-- apps/core/merkle.py: the RFC 9162 Merkle tree over hex digests, its inclusion proofs and their
-- verification. `hashlib.sha256` is a parameter: a function on bytes with 32 bytes of result.
-- Each recursion on slices takes fuel, one more than the number of leaves.
pub mod Digest
pub mod Tree
pub mod Split
pub mod Root
pub mod Path
pub mod Climb
pub mod Inclusion
pub mod Complete
pub mod Sound
pub mod Theorem
pub mod Tests
pub mod Consistency
pub use Digest.{Sha256, IsDigest}
unfoldable pub use Digest.{decode_digest_hex, hash_merkle_leaf, hash_merkle_children}
use multilingual_task_api.Prelude.{
  ℕ, zero, suc, ◌+◌, ◌-◌, ◌/◌, ◌^◌, bit_and, Bool, true, false, not, ◌&&◌, ◌||◌, List, [], ◌∷◌,
  ◌++◌, ltb, leb, ◌==◌, if◌then◌else◌, length, take, drop, Outcome, ok, err, value_error,
  out_of_fuel, ◌>>=◌, ◌>>◌, raise_if,
}
use multilingual_task_api.Prelude.Int.{ℤ, pos, negsuc, leb_ℤ, ltb_ℤ, pos_part}
use multilingual_task_api.PyText.{Text, strip, lower, hexdigest, text_eq}

-- `int.bit_length` with fuel.
unfoldable pub bit_length_fuel : ℕ → ℕ → ℕ
bit_length_fuel zero n = 0
bit_length_fuel (suc f) n = let rest = bit_length_fuel f (n / 2) in if n == 0 then 0 else suc rest

unfoldable pub bit_length : ℕ → ℕ
unfolding bit_length_fuel
bit_length n = bit_length_fuel n n

unfoldable pub largest_power_of_two_less_than : ℕ → Outcome ℕ
largest_power_of_two_less_than n = do
  raise_if (ltb n 2) value_error
  ok (2 ^ (bit_length (n - 1) - 1))

pub data Reason : Type 0 where
  invalid_tree_bounds malformed_leaf_digest audit_path_length_mismatch : Reason
  malformed_audit_path_digest merkle_root_mismatch : Reason

-- The dict that `verify_merkle_inclusion_path` returns.
pub record Verdict : Type 0 where
  pub valid : Bool
  pub recomputed_root : Text
  pub leaf_hash : Text
  pub reasons : List Reason

-- The local variables of the verifier's loop, where it stopped.
pub record Walk : Type 0 where
  pub sn : ℕ
  pub running : Text
  pub reasons : List Reason

-- `while (fn & 1) == 0 and fn != 0: fn >>= 1; sn >>= 1`
unfoldable pub skip_evens : ℕ → ℕ → ℕ → ℕ × ℕ
skip_evens zero fn sn = (fn, sn)
skip_evens (suc f) fn sn = elim (bit_and fn 1 == 0 && not (fn == 0)) [
  | true ↦ skip_evens f (fn / 2) (sn / 2)
  | false ↦ (fn, sn)
]

-- The sibling stands on the left of the running hash.
unfoldable pub joins_left : ℕ → ℕ → Bool
joins_left fn sn = bit_and fn 1 == 1 || fn == sn

-- The shifts at the end of a round.
unfoldable pub climb : ℕ → ℕ → ℕ × ℕ
unfolding skip_evens joins_left
climb fn sn =
    let (fn', sn') = if joins_left fn sn then skip_evens fn fn sn else (fn, sn) in
    (fn' / 2, sn' / 2)

unfoldable pub is_length_mismatch : Reason → Bool
is_length_mismatch audit_path_length_mismatch = true
is_length_mismatch _ = false

unfoldable pub has_length_mismatch : List Reason → Bool
unfolding is_length_mismatch
has_length_mismatch [] = false
has_length_mismatch (r ∷ rs) = is_length_mismatch r || has_length_mismatch rs

module _ (h : Sha256) where
  abbrev pub empty_merkle_root : Text
  empty_merkle_root = hexdigest (h.digest [])

  unfoldable pub merkle_root_fuel : ℕ → List Text → Outcome Text
  merkle_root_fuel zero leaves = err out_of_fuel
  merkle_root_fuel (suc f) [] = ok empty_merkle_root
  merkle_root_fuel (suc f) (leaf ∷ []) = hash_merkle_leaf h leaf
  merkle_root_fuel (suc f) (a ∷ b ∷ more) = do
    let leaves = a ∷ b ∷ more
    split ← largest_power_of_two_less_than (length leaves)
    left_root ← merkle_root_fuel f (take split leaves)
    right_root ← merkle_root_fuel f (drop split leaves)
    hash_merkle_children h left_root right_root

  unfoldable pub compute_merkle_root : List Text → Outcome Text
  unfolding merkle_root_fuel
  compute_merkle_root leaves = merkle_root_fuel (suc (length leaves)) leaves

  -- `PATH(m, D)` for an index that is not negative.
  unfoldable pub inclusion_path_fuel : ℕ → List Text → ℕ → Outcome (List Text)
  inclusion_path_fuel zero leaves m = err out_of_fuel
  inclusion_path_fuel (suc f) [] m = err value_error
  inclusion_path_fuel (suc f) (leaf ∷ []) m = do raise_if (leb 1 m) value_error; ok []
  inclusion_path_fuel (suc f) (a ∷ b ∷ more) m = do
    let leaves = a ∷ b ∷ more
    raise_if (leb (length leaves) m) value_error
    split ← largest_power_of_two_less_than (length leaves)
    elim (ltb m split) [
      | true ↦ do
        sub_path ← inclusion_path_fuel f (take split leaves) m
        sibling ← compute_merkle_root (drop split leaves)
        ok (sub_path ++ sibling ∷ [])
      | false ↦ do
        sub_path ← inclusion_path_fuel f (drop split leaves) (m - split)
        sibling ← compute_merkle_root (take split leaves)
        ok (sub_path ++ sibling ∷ [])
    ]

  unfoldable pub build_merkle_inclusion_proof : List Text → ℤ → Outcome (List Text)
  unfolding inclusion_path_fuel
  build_merkle_inclusion_proof leaves (negsuc i) = err value_error
  build_merkle_inclusion_proof leaves (pos i) = inclusion_path_fuel (suc (length leaves)) leaves i

  -- The loop over `audit_path`; a `ValueError` stops it with the variables as they are.
  unfoldable pub walk : List Text → ℕ → ℕ → Text → Walk
  walk [] fn sn running = record { sn = sn; running = running; reasons = [] }
  walk (sibling ∷ path) fn sn running = elim (sn == 0) [
    | true ↦ record { sn = sn; running = running; reasons = audit_path_length_mismatch ∷ [] }
    | false ↦
        elim (if joins_left fn sn
          then hash_merkle_children h sibling running
          else hash_merkle_children h running sibling) [
            | err e ↦ record {
              sn = sn;
              running = running;
              reasons = malformed_audit_path_digest ∷ [];
            }
            | ok next ↦ walk path (climb fn sn).0 (climb fn sn).1 next
          ]
  ]

  -- What follows the loop.
  unfoldable pub judge : Text → Text → Walk → Verdict
  unfolding has_length_mismatch
  judge leaf_hash expected_root w =
      let expected_clean = lower (strip expected_root) in
      let with_length =
        if not (w.sn == 0) && not (has_length_mismatch w.reasons)
        then w.reasons ++ audit_path_length_mismatch ∷ []
        else w.reasons in
      let reasons =
        if text_eq expected_clean [] || not (text_eq w.running expected_clean)
        then with_length ++ merkle_root_mismatch ∷ []
        else with_length in
      record {
        valid = length reasons == 0;
        recomputed_root = w.running;
        leaf_hash = leaf_hash;
        reasons = reasons;
      }

  unfoldable pub refuse : Reason → Verdict
  refuse r = record { valid = false; recomputed_root = []; leaf_hash = []; reasons = r ∷ [] }

  unfoldable pub verify_merkle_inclusion_path : Text → ℤ → ℤ → List Text → Text → Verdict
  unfolding walk judge refuse
  verify_merkle_inclusion_path leaf leaf_index tree_size audit_path expected_root =
      if leb_ℤ tree_size (pos 0) || ltb_ℤ leaf_index (pos 0) || leb_ℤ tree_size leaf_index
      then refuse invalid_tree_bounds
      else elim (hash_merkle_leaf h leaf) [
        | err e ↦ refuse malformed_leaf_digest
        | ok leaf_hash ↦
            judge leaf_hash expected_root
              (walk audit_path (pos_part leaf_index) (pos_part tree_size - 1) leaf_hash)
      ]
