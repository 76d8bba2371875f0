-- ===== src/Tasks/Tests.antt =====
-- Tests and instances for apps/tasks: tasks, annotators and claims.
use multilingual_task_api.Prelude.{
  ℕ, ◌≡◌, refl, true, false, ◌||◌, Option, some, none, List, [], ◌∷◌, ◌++◌, All, arith,
  if◌then◌else◌, ◌↔◌,
}
use multilingual_task_api.PyText.{codes}
use multilingual_task_api.Tasks.{
  Task, TaskAnnotation, Preference, has_annotated, round_ratio, same_preference,
}
use multilingual_task_api.Tasks.TaskStatus.{pending, in_progress, completed}
use multilingual_task_api.Tasks.Priority.{medium, critical}
use multilingual_task_api.Tasks.Preference.{response_a, response_b, tie}
use multilingual_task_api.Tasks.Choice.{unresolved, preferred}
use multilingual_task_api.Tasks.Difficulty.{standard}
use multilingual_task_api.Tasks.Calibration.{
  AnnotatorCalibration, Routing, compute_bayesian_skill_weight, resolve_effective_skill_weight,
}
use multilingual_task_api.Tasks.Consensus.{
  Entry, votes_of, weight_of, calibration_of, is_expert, evaluate_task_consensus,
}
use multilingual_task_api.Tasks.Totals.{weight_for, whole}
use multilingual_task_api.Tasks.Verdicts.{IsPastHalf, decided_by_majority, split_erases_choice}
use multilingual_task_api.Tasks.Claims.{
  ClaimRequest, is_candidate, claim_task, candidate_ids, in_claim_order, is_lockable, take_first,
  lease, comes_before, insert_task,
}
use multilingual_task_api.Tasks.Leases.{Call, claim_of, claims, Spares, lease_exclusive}
use multilingual_task_api.Tasks.Available.{all_free, claim_finds}
use multilingual_task_api.Tasks.Annotations.{
  leased_to_another, already_annotated, created, refused, annotate, new_calibration,
}
use multilingual_task_api.Tasks.Guards.{row_of, lease_guards}
use multilingual_task_api.Tasks.Skills.{IsSound, annotate-IsSound}

abbrev task_of : ℕ → Option ℕ → Task
task_of id organization = record {
  id = id;
  user = 1;
  organization = organization;
  status = pending;
  priority = medium;
  domain = codes "general";
  difficulty = standard;
  required_annotations = 2;
  claimed_by = none;
  claimed_until = none;
  consensus_score = none;
  consensus_choice = unresolved;
  is_gold = false;
  gold_choice = none;
  uncertainty_score = none;
  auto_escalated = false;
  is_active = true;
  created_at = id;
}

abbrev vote : ℕ → Preference → TaskAnnotation
vote user preference = record {
  task = 1;
  annotator = user;
  preference = preference;
  language = codes "en";
}

abbrev no_uncertainty : List Entry → ℕ
no_uncertainty _ = 0

-- The weights that the documentation of the function names.
documented_weights :
    (compute_bayesian_skill_weight 1 1 ≡ (10_000, 11_500))
    × (compute_bayesian_skill_weight 4 4 ≡ (10_000, 13_600))
    × (compute_bayesian_skill_weight 0 1 ≡ (0, 4_500))
    × (compute_bayesian_skill_weight 0 4 ≡ (0, 2_400))
unfolding compute_bayesian_skill_weight round_ratio
documented_weights = (refl, refl, refl, refl)

abbrev beginner : AnnotatorCalibration
beginner = record (new_calibration 9 7) {
  gold_evaluated_count = 1;
  accuracy_rate = 0;
  skill_weight = 4_500;
}

abbrev three_votes : List TaskAnnotation
three_votes = vote 5 response_a ∷ vote 6 response_b ∷ vote 7 response_a ∷ []

decided_by_majority_example :
    let after =
      (evaluate_task_consensus no_uncertainty (beginner ∷ []) three_votes (task_of 1 (some 9))).0 in
    (after.consensus_choice ≡ preferred response_a)
    ↔ IsPastHalf response_a (votes_of (beginner ∷ []) (task_of 1 (some 9)) three_votes)
unfolding new_calibration
decided_by_majority_example =
    decided_by_majority no_uncertainty (beginner ∷ []) three_votes (task_of 1 (some 9)) response_a
      ((omega arith, omega arith, omega arith), tt) (omega arith) (omega arith)

abbrev late_votes : List TaskAnnotation
late_votes = vote 5 response_a ∷ vote 6 response_b ∷ []

abbrev decided_task : Task
decided_task = record (task_of 1 none) {
  status = completed;
  consensus_choice = preferred response_a;
}

no_majority : (p : Preference) → ¬ IsPastHalf p (votes_of [] decided_task late_votes)
unfolding weight_for whole votes_of weight_of calibration_of resolve_effective_skill_weight
    round_ratio same_preference
no_majority response_a h = omega arith
no_majority response_b h = omega arith
no_majority tie h = omega arith

split_erases_choice_example :
    let after = (evaluate_task_consensus no_uncertainty [] late_votes decided_task).0 in
    (after.status ≡ completed) × (after.consensus_choice ≡ unresolved)
split_erases_choice_example =
    split_erases_choice no_uncertainty [] late_votes decided_task refl tt (omega arith) no_majority

abbrev two_tasks : List Task
two_tasks = task_of 1 (some 9) ∷ record (task_of 2 (some 9)) { priority = critical } ∷ []

abbrev any_routing : Routing
any_routing = record { inject_gold_first = false; is_probation = false; trusted_domains = [] }

abbrev asks : ℕ → ClaimRequest
asks user = record {
  user = user;
  organization = some 9;
  lease_seconds = 900;
  priority = none;
  domain = none;
  difficulty = none;
}

abbrev call_at : ℕ → ℕ → Call
call_at user now = record {
  request = asks user;
  routing = any_routing;
  now = now;
  annotations = [];
  snapshot = two_tasks;
  locked = all_free;
}

abbrev claimed : Task
claimed = record (task_of 2 (some 9)) {
  priority = critical;
  status = in_progress;
  claimed_by = some 5;
  claimed_until = some 1_000;
}

claimed_first : (claim_of (call_at 5 100) two_tasks).0 ≡ some claimed
unfolding claim_task candidate_ids in_claim_order is_candidate is_lockable take_first lease
    comes_before is_expert insert_task
claimed_first = refl

lease_exclusive_example :
    All
      (Spares 2)
      (claims (call_at 6 200 ∷ call_at 7 999 ∷ []) (claim_of (call_at 5 100) two_tasks).1)
lease_exclusive_example =
    lease_exclusive (call_at 5 100) two_tasks claimed (call_at 6 200 ∷ call_at 7 999 ∷ [])
      claimed_first (((λ e. omega arith), omega arith), (((λ e. omega arith), omega arith), tt))

lease_guards_example :
    (annotate no_uncertainty 500 6 tie [] [] [] [] claimed
      ≡ refused leased_to_another [] [] claimed)
    × (let r = annotate no_uncertainty 500 5 tie [] [] [] [] claimed in
        let is_late = has_annotated 2 5 [] || has_annotated 2 5 [] in
        (r.reply ≡ (if is_late then already_annotated else created))
        × (r.annotations ≡ (if is_late then [] else [] ++ row_of 2 5 tie [] ∷ [])))
lease_guards_example =
    lease_guards (call_at 5 100) two_tasks claimed 6 500 no_uncertainty tie [] [] [] []
      claimed_first (λ e. omega arith) (omega arith)

claim_finds_example :
    ((claim_task (asks 5) any_routing 100 three_votes two_tasks all_free two_tasks).0 ≡ none)
    ↔ All (λ t. is_candidate (asks 5) any_routing 100 three_votes t ≡ false) two_tasks
claim_finds_example = claim_finds (asks 5) any_routing 100 three_votes two_tasks

annotate-IsSound_example :
    All IsSound
      (annotate no_uncertainty 500 7 tie
        (codes "en")
        []
        (beginner ∷ [])
        []
        (record (task_of 2 (some 9)) { is_gold = true; gold_choice = some tie })).calibrations
unfolding new_calibration
annotate-IsSound_example =
    annotate-IsSound no_uncertainty 500 7 tie (codes "en") [] (beginner ∷ []) []
      (record (task_of 2 (some 9)) { is_gold = true; gold_choice = some tie })
      ((omega arith, omega arith, omega arith), tt)
