-- ===== src/Tasks/Skills.antt =====
-- The weights of annotators stay between 0.10 and 1.50, apps/tasks/calibration.py.
use multilingual_task_api.Prelude.{
  ℕ, zero, suc, ◌+◌, ◌≤◌, Bool, true, false, ◌&&◌, ◌||◌, Option, some, none, List, [], ◌∷◌, All,
  arith, Bool-cases, inl, inr, Option-cases, ◌==◌, length, ltb,
}
use multilingual_task_api.PyText.{Text}
use multilingual_task_api.Tasks.{Task, TaskAnnotation, Preference, has_annotated}
use multilingual_task_api.Tasks.Calibration.{
  AnnotatorCalibration, compute_bayesian_skill_weight, resolve_effective_skill_weight, blend,
  one_if,
}
use multilingual_task_api.Tasks.Consensus.{Entry, calibration_of, weight_of, votes_of}
use multilingual_task_api.Tasks.Annotations.{
  record_answer, update_calibration, new_calibration, evaluate_gold_annotation, store, refused,
  annotate, is_leased_to_another,
}
use multilingual_task_api.Tasks.Totals.{whole}

-- A row's counts are in order, and its weight is between 0.10 and 1.50.
abbrev pub IsSound : AnnotatorCalibration → Type 0
IsSound c =
    (c.gold_correct_count ≤ c.gold_evaluated_count)
    × (1_000 ≤ c.skill_weight)
    × (c.skill_weight ≤ 15_000)

skill_weight_bounds :
    (correct evaluated : ℕ)
    → (1_000 ≤ (compute_bayesian_skill_weight correct evaluated).1)
      × ((compute_bayesian_skill_weight correct evaluated).1 ≤ 15_000)
unfolding compute_bayesian_skill_weight
skill_weight_bounds correct zero = (omega arith, omega arith)
skill_weight_bounds correct (suc n) = (omega arith, omega arith)

record_answer-IsSound :
    (is_correct : Bool) (language domain : Text) (c : AnnotatorCalibration)
    → IsSound c
    → IsSound (record_answer is_correct language domain c)
unfolding record_answer one_if
record_answer-IsSound true language domain c (counts, low, high) =
    let (low', high') =
      skill_weight_bounds (c.gold_correct_count + 1) (c.gold_evaluated_count + 1) in
    (omega arith, low', high')
record_answer-IsSound false language domain c (counts, low, high) =
    let (low', high') =
      skill_weight_bounds (c.gold_correct_count + 0) (c.gold_evaluated_count + 1) in
    (omega arith, low', high')

update_calibration-IsSound :
    (organization user : ℕ) (is_correct : Bool) (language domain : Text)
    (cals : List AnnotatorCalibration)
    → All IsSound cals
    → All IsSound
        (update_calibration organization user (record_answer is_correct language domain) cals).1
unfolding update_calibration new_calibration
update_calibration-IsSound organization user is_correct language domain [] h = (
  record_answer-IsSound is_correct language domain (new_calibration organization user)
      (omega arith, omega arith, omega arith),
  tt,
)
update_calibration-IsSound organization user is_correct language domain (c ∷ cals) (s, h) =
    let rest = update_calibration-IsSound organization user is_correct language domain cals h in
    elim (Bool-cases (c.organization == organization && c.user == user)) [
      | inl e ↦ rw (All, e) (record_answer-IsSound is_correct language domain c s, h)
      | inr e ↦ rw (All, e) (s, rest)
    ]

gold-IsSound :
    (cals : List AnnotatorCalibration) (task : Task) (annotation : TaskAnnotation)
    → All IsSound cals
    → All IsSound (evaluate_gold_annotation cals task annotation).1
unfolding evaluate_gold_annotation
gold-IsSound cals task annotation h = elim (Option-cases task.organization) [
  | inl e ↦ rw (evaluate_gold_annotation, e) h
  | inr (org, e) ↦
      rw (evaluate_gold_annotation, e)
        (update_calibration-IsSound org annotation.annotator _ _ _ cals h)
]

store-IsSound :
    (uncertainty : List Entry → ℕ) (cals : List AnnotatorCalibration) (anns : List TaskAnnotation)
    (task : Task) (annotation : TaskAnnotation)
    → All IsSound cals
    → All IsSound (store uncertainty cals anns task annotation).calibrations
unfolding store
store-IsSound uncertainty cals anns task annotation h = elim (Bool-cases task.is_gold) [
  | inl e ↦ rw (store, e) (gold-IsSound cals task annotation h)
  | inr e ↦ rw (store, e) h
]

-- Whatever is submitted, the calibrations keep their counts in order and their weights in bounds.
pub annotate-IsSound :
    (uncertainty : List Entry → ℕ) (now user : ℕ) (preference : Preference) (language : Text)
    (seen : List TaskAnnotation) (cals : List AnnotatorCalibration) (anns : List TaskAnnotation)
    (task : Task)
    → All IsSound cals
    → All IsSound
        (annotate uncertainty now user preference language seen cals anns task).calibrations
unfolding annotate refused
annotate-IsSound uncertainty now user preference language seen cals anns task h =
    elim (Bool-cases (is_leased_to_another now user task)) [
      | inl e ↦ rw (annotate, e) h
      | inr e ↦
          elim (Bool-cases (has_annotated task.id user seen || has_annotated task.id user anns)) [
            | inl f ↦ rw (annotate, e, f) h
            | inr f ↦ rw (annotate, e, f) (store-IsSound uncertainty cals anns task _ h)
          ]
    ]

abbrev IsSoundOrNone : Option AnnotatorCalibration → Type 0
IsSoundOrNone none = Unit
IsSoundOrNone (some c) = IsSound c

calibration_of-IsSoundOrNone :
    (cals : List AnnotatorCalibration) (organization : Option ℕ) (user : ℕ)
    → All IsSound cals
    → IsSoundOrNone (calibration_of cals organization user)
unfolding calibration_of
calibration_of-IsSoundOrNone [] none user h = tt
calibration_of-IsSoundOrNone (c ∷ cals) none user h = tt
calibration_of-IsSoundOrNone [] (some org) user h = tt
calibration_of-IsSoundOrNone (c ∷ cals) (some org) user (s, h) =
    let rest = calibration_of-IsSoundOrNone cals (some org) user h in
    elim (Bool-cases (c.organization == org && c.user == user && ltb 0 c.gold_evaluated_count)) [
      | inl e ↦ rw (IsSoundOrNone, e) s
      | inr e ↦ rw (IsSoundOrNone, e) rest
    ]

blend_bounds :
    (base : ℕ) (ws : List ℕ)
    → 1_000 ≤ base
    → base ≤ 15_000
    → (1_000 ≤ blend base ws) × (blend base ws ≤ 15_000)
unfolding blend
blend_bounds base [] low high = (low, high)
blend_bounds base (w ∷ ws) low high = (omega arith, omega arith)

effective_bounds :
    (cal : Option AnnotatorCalibration) (domain language : Text)
    → IsSoundOrNone cal
    → let w = resolve_effective_skill_weight cal domain language in (1_000 ≤ w) × (w ≤ 15_000)
unfolding resolve_effective_skill_weight
effective_bounds none domain language h = (omega arith, omega arith)
effective_bounds (some c) domain language (counts, low, high) =
    elim (Bool-cases (c.gold_evaluated_count == 0)) [
      | inl e ↦ rw (resolve_effective_skill_weight, e) (omega arith, omega arith)
      | inr e ↦ rw (resolve_effective_skill_weight, e) (blend_bounds c.skill_weight _ low high)
    ]

-- With sound calibrations, a vote weighs between 0.10 and 1.50.
pub weight_bounds :
    (cals : List AnnotatorCalibration) (task : Task) (a : TaskAnnotation)
    → All IsSound cals
    → (1_000 ≤ weight_of cals task a) × (weight_of cals task a ≤ 15_000)
unfolding weight_of
weight_bounds cals task a h =
    effective_bounds _ _ _ (calibration_of-IsSoundOrNone cals task.organization a.annotator h)

pub some_weight :
    (cals : List AnnotatorCalibration) (task : Task) (anns : List TaskAnnotation)
    → All IsSound cals
    → 1 ≤ length anns
    → 1 ≤ whole (votes_of cals task anns)
unfolding whole votes_of
some_weight cals task [] h some_one = absurd (omega arith)
some_weight cals task (a ∷ anns) h some_one =
    let (low, high) = weight_bounds cals task a h in omega arith
