-- ===== src/Merkle/Consistency.antt =====
-- apps/core/merkle.py: consistency proofs between two sizes of one tree, and their verification.
pub mod Bounds
pub mod Plan
pub mod Subproof
pub mod Climb
pub mod Ascent
pub mod Complete
use multilingual_task_api.Prelude.{
  ℕ, zero, suc, ◌-◌, ◌/◌, bit_and, Bool, true, false, not, ◌&&◌, ◌||◌, List, [], ◌∷◌, ◌++◌, Option,
  some, none, leb, ◌==◌, if◌then◌else◌, length, take, drop, Outcome, ok, err, value_error,
  out_of_fuel, ◌>>=◌, ◌>>◌, raise_if,
}
use multilingual_task_api.Prelude.Int.{ℤ, pos, negsuc, ltb_ℤ, pos_part}
use multilingual_task_api.PyText.{Text, strip, lower, text_eq}
use multilingual_task_api.Merkle.{
  Sha256, decode_digest_hex, hash_merkle_children, largest_power_of_two_less_than,
  compute_merkle_root, empty_merkle_root, joins_left, climb,
}

pub data ConsistencyReason : Type 0 where
  invalid_consistency_bounds consistency_root_mismatch consistency_path_empty : ConsistencyReason
  consistency_path_length_mismatch malformed_consistency_digest : ConsistencyReason
  first_root_mismatch second_root_mismatch : ConsistencyReason

-- The dict that `verify_merkle_consistency_proof` returns; an early return has no roots.
pub record ConsistencyVerdict : Type 0 where
  pub valid : Bool
  pub recomputed_first_root : Option Text
  pub recomputed_second_root : Option Text
  pub reasons : List ConsistencyReason

-- How the loop over the path ends: by a return, by a `ValueError`, or with its variables.
pub data Climbed : Type 0 where
  too_long malformed : Climbed
  arrived : ℕ → Text → Text → Climbed

-- `(first_size & (first_size - 1)) == 0`
unfoldable pub is_exact_power_of_two : ℕ → Bool
is_exact_power_of_two n = bit_and n (n - 1) == 0

-- `while (fn & 1) == 1: fn >>= 1; sn >>= 1`
unfoldable pub strip_ones : ℕ → ℕ → ℕ → ℕ × ℕ
strip_ones zero fn sn = (fn, sn)
strip_ones (suc f) fn sn = elim (bit_and fn 1 == 1) [
  | true ↦ strip_ones f (fn / 2) (sn / 2)
  | false ↦ (fn, sn)
]

unfoldable pub early : Bool → ConsistencyReason → ConsistencyVerdict
early valid reason = record {
  valid = valid;
  recomputed_first_root = none;
  recomputed_second_root = none;
  reasons = if valid then [] else reason ∷ [];
}

unfoldable pub weigh : Text → Text → Climbed → ConsistencyVerdict
unfolding early
weigh first_clean second_clean too_long = early false consistency_path_length_mismatch
weigh first_clean second_clean malformed = early false malformed_consistency_digest
weigh first_clean second_clean (arrived sn fr sr) =
    let reasons =
      (if sn == 0 then [] else consistency_path_length_mismatch ∷ [])
      ++ (if text_eq fr first_clean then [] else first_root_mismatch ∷ [])
      ++ (if text_eq sr second_clean then [] else second_root_mismatch ∷ []) in
    record {
      valid = length reasons == 0;
      recomputed_first_root = some fr;
      recomputed_second_root = some sr;
      reasons = reasons;
    }

unfoldable pub path_nodes : ℕ → Text → List Text → List Text
unfolding is_exact_power_of_two
path_nodes first_size first_clean path =
    if is_exact_power_of_two first_size then first_clean ∷ path else path

module _ (h : Sha256) where
  unfoldable pub subproof_fuel : ℕ → List Text → ℕ → Bool → Outcome (List Text)
  subproof_fuel zero leaves first_size start = err out_of_fuel
  subproof_fuel (suc f) leaves first_size start = elim (first_size == length leaves) [
    | true ↦ elim start [
      | true ↦ ok []
      | false ↦ do root ← compute_merkle_root h leaves; ok (root ∷ [])
    ]
    | false ↦ do
      split ← largest_power_of_two_less_than (length leaves)
      elim (leb first_size split) [
        | true ↦ do
          sub ← subproof_fuel f (take split leaves) first_size start
          right_root ← compute_merkle_root h (drop split leaves)
          ok (sub ++ right_root ∷ [])
        | false ↦ do
          sub ← subproof_fuel f (drop split leaves) (first_size - split) false
          left_root ← compute_merkle_root h (take split leaves)
          ok (sub ++ left_root ∷ [])
      ]
  ]

  unfoldable pub build_merkle_consistency_proof : List Text → ℤ → Outcome (List Text)
  build_merkle_consistency_proof leaves (negsuc i) = err value_error
  build_merkle_consistency_proof leaves (pos first_size) = do
    raise_if (not (leb first_size (length leaves))) value_error
    let trivial = first_size == 0 || first_size == length leaves
    elim trivial [
      | true ↦ ok []
      | false ↦ subproof_fuel (suc (length leaves)) leaves first_size true
    ]

  -- The two hashes of a round: of the old root and of the new root.
  unfoldable pub join_both : ℕ → ℕ → Text → Text → Text → Outcome (Text × Text)
  join_both fn sn node fr sr =
      if joins_left fn sn
      then (do
        fr' ← hash_merkle_children h node fr
        sr' ← hash_merkle_children h node sr
        ok (fr', sr'))
      else (do sr' ← hash_merkle_children h sr node; ok (fr, sr'))

  unfoldable pub climb_both : List Text → ℕ → ℕ → Text → Text → Climbed
  climb_both [] fn sn fr sr = arrived sn fr sr
  climb_both (node ∷ path) fn sn fr sr = elim (sn == 0) [
    | true ↦ too_long
    | false ↦ elim (join_both fn sn node fr sr) [
      | err e ↦ malformed
      | ok (fr', sr') ↦ climb_both path (climb fn sn).0 (climb fn sn).1 fr' sr'
    ]
  ]

  -- The `try` block: its first node is checked, and the loop runs over the others.
  unfoldable pub climb_nodes : List Text → ℕ × ℕ → Climbed
  unfolding climb_both
  climb_nodes [] (fn, sn) = malformed
  climb_nodes (first ∷ nodes) (fn, sn) =
      let start = lower (strip first) in
      elim (decode_digest_hex start) [
        | err e ↦ malformed
        | ok raw ↦ climb_both nodes fn sn start start
      ]

  unfoldable pub verify_merkle_consistency_proof :
      ℤ → ℤ → Text → Text → List Text → ConsistencyVerdict
  unfolding early
  verify_merkle_consistency_proof first_size second_size first_root second_root path =
      let first_clean = lower (strip first_root) in
      let second_clean = lower (strip second_root) in
      let m = pos_part first_size in
      let n = pos_part second_size in
      if ltb_ℤ first_size (pos 0) || ltb_ℤ second_size (pos 0) || ltb_ℤ second_size first_size
      then early false invalid_consistency_bounds
      else if m == 0
      then early (text_eq first_clean (empty_merkle_root h) && length path == 0)
          consistency_root_mismatch
      else if m == n
      then early (text_eq first_clean second_clean && length path == 0) consistency_root_mismatch
      else if length path == 0
      then early false consistency_path_empty
      else weigh first_clean second_clean
          (climb_nodes (path_nodes m first_clean path) (strip_ones (m - 1) (m - 1) (n - 1)))
