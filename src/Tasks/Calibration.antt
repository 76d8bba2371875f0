-- ===== src/Tasks/Calibration.antt =====
-- apps/tasks/calibration.py: the weight of an annotator, from the gold tasks. The floats are computed
-- exactly and rounded to ten-thousandths.
use multilingual_task_api.Prelude.{
  ℕ, zero, suc, ◌+◌, ◌*◌, ◌%◌, min, max, Bool, true, false, ◌&&◌, not, Option, some, none, List, [],
  ◌∷◌, ◌++◌, ltb, leb, ◌==◌, if◌then◌else◌, length,
}
use multilingual_task_api.PyText.{Text, codes, strip, lower, text_eq}
use multilingual_task_api.Tasks.{round_ratio}

-- An entry of a map of skill vectors.
pub record Vector : Type 0 where
  pub evaluated : ℕ
  pub correct : ℕ
  pub accuracy_rate : ℕ
  pub skill_weight : ℕ

abbrev pub Vectors : Type 0
Vectors = List (Text × Vector)

pub record AnnotatorCalibration : Type 0 where
  pub organization : ℕ
  pub user : ℕ
  pub gold_evaluated_count : ℕ
  pub gold_correct_count : ℕ
  pub accuracy_rate : ℕ
  pub skill_weight : ℕ
  pub language_skill_vectors : Vectors
  pub domain_skill_vectors : Vectors

abbrev pub calibration_spotcheck_interval : ℕ
calibration_spotcheck_interval = 5

abbrev pub specialist_weight_threshold : ℕ
specialist_weight_threshold = 11_000

abbrev pub probation_weight_cutoff : ℕ
probation_weight_cutoff = 7_000

-- The accuracy and the weight: `0.10 + 1.40 * (correct + 0.5) / (evaluated + 1)`.
unfoldable pub compute_bayesian_skill_weight : ℕ → ℕ → ℕ × ℕ
unfolding round_ratio
compute_bayesian_skill_weight gold_correct zero = (10_000, 10_000)
compute_bayesian_skill_weight gold_correct (suc n) =
    let safe_correct = min gold_correct (suc n) in
    (
      round_ratio (safe_correct * 10_000) (suc n),
      max 1_000 (
          min 15_000 (
            round_ratio (2_000 * (suc n + 1) + 14_000 * (2 * safe_correct + 1)) (2 * (suc n + 1)))),
    )

unfoldable pub get_vector : Text → Vectors → Option Vector
get_vector key [] = none
get_vector key (e ∷ vs) = elim (text_eq e.0 key) [ true ↦ some e.1 | false ↦ get_vector key vs ]

unfoldable pub set_vector : Text → Vector → Vectors → Vectors
set_vector key v [] = (key, v) ∷ []
set_vector key v (e ∷ vs) = elim (text_eq e.0 key) [
  | true ↦ (key, v) ∷ vs
  | false ↦ e ∷ set_vector key v vs
]

unfoldable pub counts_of : Option Vector → ℕ × ℕ
counts_of none = (0, 0)
counts_of (some v) = (v.correct, v.evaluated)

unfoldable pub one_if : Bool → ℕ
one_if true = 1
one_if false = 0

unfoldable pub update_dimension_vector : Vectors → Text → Bool → Vectors
unfolding get_vector set_vector counts_of one_if
update_dimension_vector vectors_map key is_correct = elim (lower (strip key)) [
  | [] ↦ vectors_map
  | c ∷ t ↦
      let (prev_corr, prev_eval) = counts_of (get_vector (c ∷ t) vectors_map) in
      let new_corr = prev_corr + one_if is_correct in
      let (acc, weight) = compute_bayesian_skill_weight new_corr (prev_eval + 1) in
      set_vector (c ∷ t)
        (record {
          evaluated = prev_eval + 1;
          correct = new_corr;
          accuracy_rate = acc;
          skill_weight = weight;
        })
        vectors_map
]

-- `str(value or default).strip().lower()`
unfoldable pub normal : Text → Text → Text
normal default [] = lower (strip default)
normal default (c ∷ t) = lower (strip (c ∷ t))

-- The weight of a dimension that was evaluated, unless its key is the general one.
unfoldable pub specialist : Text → Text → Vectors → List ℕ
unfolding get_vector
specialist general key vs = elim (text_eq key general) [
  | true ↦ []
  | false ↦ elim (get_vector key vs) [
    | none ↦ []
    | some v ↦ if ltb 0 v.evaluated then v.skill_weight ∷ [] else []
  ]
]

unfoldable pub sum : List ℕ → ℕ
sum [] = 0
sum (n ∷ ns) = n + sum ns

-- `0.70 * mean + 0.30 * base`, between 0.10 and 1.50.
unfoldable pub blend : ℕ → List ℕ → ℕ
unfolding sum
blend base [] = base
blend base (n ∷ ns) =
    let count = length (n ∷ ns) in
    max 1_000 (min 15_000 (round_ratio (7 * sum (n ∷ ns) + 3 * base * count) (10 * count)))

unfoldable pub resolve_effective_skill_weight : Option AnnotatorCalibration → Text → Text → ℕ
unfolding normal specialist blend
resolve_effective_skill_weight none domain language = 10_000
resolve_effective_skill_weight (some cal) domain language =
    if cal.gold_evaluated_count == 0
    then 10_000
    else blend cal.skill_weight (
        specialist (codes "general") (normal (codes "general") domain) cal.domain_skill_vectors
        ++ specialist (codes "en") (normal (codes "en") language) cal.language_skill_vectors)

-- The keys of the domains in which an annotator is a specialist, in the order of the map.
unfoldable pub trusted_keys : Vectors → List Text
trusted_keys [] = []
trusted_keys (e ∷ vs) =
    if not (text_eq e.0 (codes "general"))
      && ltb 0 e.1.evaluated
      && leb specialist_weight_threshold e.1.skill_weight
    then e.0 ∷ trusted_keys vs
    else trusted_keys vs

pub record Routing : Type 0 where
  pub inject_gold_first : Bool
  pub is_probation : Bool
  pub trusted_domains : List Text

-- `get_annotator_claim_routing`, from the annotator's calibration and number of annotations. The keys
-- are only looked up in, so that their order does not matter.
unfoldable pub get_annotator_claim_routing : Option AnnotatorCalibration → ℕ → Routing
unfolding trusted_keys
get_annotator_claim_routing none total_org_anns = record {
  inject_gold_first = true;
  is_probation = false;
  trusted_domains = [];
}
get_annotator_claim_routing (some cal) total_org_anns =
    if ltb cal.gold_evaluated_count 1
    then record { inject_gold_first = true; is_probation = false; trusted_domains = [] }
    else record {
      inject_gold_first =
          ltb 0 total_org_anns && total_org_anns % calibration_spotcheck_interval == 0;
      is_probation = ltb cal.skill_weight probation_weight_cutoff;
      trusted_domains = trusted_keys cal.domain_skill_vectors;
    }
