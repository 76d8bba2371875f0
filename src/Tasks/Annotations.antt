-- ===== src/Tasks/Annotations.antt =====
-- apps/tasks/views.py: `annotations` by POST and `adjudicate`, with the scoring of gold tasks of
-- apps/tasks/calibration.py. The rubric scores are left out but for the language.
use multilingual_task_api.Prelude.{
  ℕ, ◌+◌, Bool, true, false, not, ◌&&◌, ◌||◌, Option, some, none, List, [], ◌∷◌, ◌++◌, ltb, ◌==◌,
}
use multilingual_task_api.PyText.{codes, Text}
use multilingual_task_api.Tasks.{
  Task, TaskAnnotation, Preference, Choice, has_annotated, same_preference,
}
use multilingual_task_api.Tasks.TaskStatus.{pending, completed}
use multilingual_task_api.Tasks.Calibration.{
  AnnotatorCalibration, compute_bayesian_skill_weight, update_dimension_vector, normal, one_if,
}
use multilingual_task_api.Tasks.Consensus.{
  Entry, TaskEvent, annotator_calibrated, consensus_reached, task_completed, for_organization,
  evaluate_task_consensus,
}
use multilingual_task_api.Tasks.Claims.{is_user}

-- The row that `get_or_create` makes.
unfoldable pub new_calibration : ℕ → ℕ → AnnotatorCalibration
new_calibration organization user = record {
  organization = organization;
  user = user;
  gold_evaluated_count = 0;
  gold_correct_count = 0;
  accuracy_rate = 10_000;
  skill_weight = 10_000;
  language_skill_vectors = [];
  domain_skill_vectors = [];
}

-- An answer to a gold task, in the row of the annotator.
unfoldable pub record_answer : Bool → Text → Text → AnnotatorCalibration → AnnotatorCalibration
unfolding one_if
record_answer is_correct language domain cal =
    let evaluated = cal.gold_evaluated_count + 1 in
    let correct = cal.gold_correct_count + one_if is_correct in
    let (accuracy, weight) = compute_bayesian_skill_weight correct evaluated in
    record cal {
      gold_evaluated_count = evaluated;
      gold_correct_count = correct;
      accuracy_rate = accuracy;
      skill_weight = weight;
      language_skill_vectors =
          update_dimension_vector cal.language_skill_vectors language is_correct;
      domain_skill_vectors = update_dimension_vector cal.domain_skill_vectors domain is_correct;
    }

-- `get_or_create(organization_id=..., user_id=...)`, the change and `save`; with the row as it is then.
unfoldable pub update_calibration :
    ℕ
    → ℕ
    → (AnnotatorCalibration → AnnotatorCalibration)
    → List AnnotatorCalibration
    → AnnotatorCalibration × List AnnotatorCalibration
unfolding new_calibration
update_calibration organization user f [] =
    let cal = f (new_calibration organization user) in (cal, cal ∷ [])
update_calibration organization user f (c ∷ cals) =
    let (cal, cals') = update_calibration organization user f cals in
    elim (c.organization == organization && c.user == user) [
      | true ↦ (f c, f c ∷ cals)
      | false ↦ (cal, c ∷ cals')
    ]

unfoldable pub is_choice : Option Preference → Preference → Bool
is_choice none p = false
is_choice (some q) p = same_preference p q

-- The lease is released, and the task is pending again.
unfoldable pub released : Task → Task
released task = record task { claimed_by = none; claimed_until = none; status = pending }

unfoldable pub evaluate_gold_annotation :
    List AnnotatorCalibration
    → Task
    → TaskAnnotation
    → Task × List AnnotatorCalibration × List TaskEvent
unfolding is_choice released
evaluate_gold_annotation cals task annotation =
    let is_correct = is_choice task.gold_choice annotation.preference in
    elim task.organization [
      | none ↦ (released task, cals, [])
      | some org ↦
          let (cal, cals') =
            update_calibration org annotation.annotator
              (record_answer is_correct (normal (codes "en") annotation.language)
                (normal (codes "general") task.domain))
              cals in
          (
            released task,
            cals',
            annotator_calibrated annotation.annotator task.id is_correct cal.gold_evaluated_count
                  cal.gold_correct_count
                ∷ [],
          )
    ]

pub data Reply : Type 0 where
  leased_to_another already_annotated created : Reply

-- What a request leaves in the database, and the events of the outbox.
pub record Annotated : Type 0 where
  pub reply : Reply
  pub task : Task
  pub annotations : List TaskAnnotation
  pub calibrations : List AnnotatorCalibration
  pub events : List TaskEvent

unfoldable pub is_leased_to_another : ℕ → ℕ → Task → Bool
unfolding is_user
is_leased_to_another now user task = elim task.claimed_by [
  | none ↦ false
  | some u ↦ elim task.claimed_until [
    | none ↦ false
    | some until ↦ not (u == user) && ltb now until
  ]
]

unfoldable pub refused : Reply → List AnnotatorCalibration → List TaskAnnotation → Task → Annotated
refused reply cals anns task = record {
  reply = reply;
  task = task;
  annotations = anns;
  calibrations = cals;
  events = [];
}

-- The transaction: the new row, then the gold answer or the vote.
unfoldable pub store :
    (List Entry → ℕ)
    → List AnnotatorCalibration
    → List TaskAnnotation
    → Task
    → TaskAnnotation
    → Annotated
store uncertainty cals anns task annotation =
    let anns' = anns ++ annotation ∷ [] in
    elim task.is_gold [
      | true ↦
          let (task', cals', events) = evaluate_gold_annotation cals task annotation in
          record {
            reply = created;
            task = task';
            annotations = anns';
            calibrations = cals';
            events = events;
          }
      | false ↦
          let (task', summary, events) = evaluate_task_consensus uncertainty cals anns' task in
          record {
            reply = created;
            task = task';
            annotations = anns';
            calibrations = cals;
            events = events;
          }
    ]

-- The annotations are looked at before the transaction, where another may have come in by then: then the
-- constraint on (task, annotator) raises an IntegrityError.
unfoldable pub annotate :
    (List Entry → ℕ)
    → ℕ
    → ℕ
    → Preference
    → Text
    → List TaskAnnotation
    → List AnnotatorCalibration
    → List TaskAnnotation
    → Task
    → Annotated
unfolding is_leased_to_another
annotate uncertainty now user preference language seen cals anns task =
    elim (is_leased_to_another now user task) [
      | true ↦ refused leased_to_another cals anns task
      | false ↦ elim (has_annotated task.id user seen || has_annotated task.id user anns) [
        | true ↦ refused already_annotated cals anns task
        | false ↦ store uncertainty cals anns task (record {
          task = task.id;
          annotator = user;
          preference = preference;
          language = language;
        })
      ]
    ]

unfoldable pub adjudicate : Choice → Task → Task × List TaskEvent
unfolding for_organization
adjudicate choice task = (
  record task {
    consensus_choice = choice;
    consensus_score = some 10_000;
    status = completed;
    claimed_by = none;
    claimed_until = none;
  },
  for_organization task.organization
      (consensus_reached task.id choice none ∷ task_completed task.id choice none ∷ []),
)
