-- ===== src/Tasks/Consensus.antt =====
-- apps/tasks/consensus.py: the weighted vote on a task. The two dictionaries by preference are one list
-- of entries, in the order of first appearance. The score of the uncertainty is a function of the
-- weighted totals: its logarithms are of Python's library.
use multilingual_task_api.Prelude.{
  ℕ, ◌+◌, ◌*◌, max, Bool, true, false, not, ◌&&◌, ◌||◌, Option, some, none, List, [], ◌∷◌, ltb, leb,
  ◌==◌, if◌then◌else◌, length,
}
use multilingual_task_api.PyText.{codes}
use multilingual_task_api.Tasks.{
  Task, TaskAnnotation, TaskStatus, Preference, Choice, Difficulty, annotations_of, round_ratio,
  same_preference,
}
use multilingual_task_api.Tasks.TaskStatus.{pending, in_progress, completed}
use multilingual_task_api.Tasks.Choice.{unresolved, preferred}
use multilingual_task_api.Tasks.Difficulty.{expert}
use multilingual_task_api.Tasks.Calibration.{
  AnnotatorCalibration, normal, resolve_effective_skill_weight,
}

-- A preference and the weight of the annotator.
abbrev pub Vote : Type 0
Vote = Preference × ℕ

-- `weighted_totals` and `counts` of a preference.
pub record Entry : Type 0 where
  pub preference : Preference
  pub weight : ℕ
  pub count : ℕ

unfoldable pub add_vote : Preference → ℕ → List Entry → List Entry
add_vote p w [] = record { preference = p; weight = w; count = 1 } ∷ []
add_vote p w (e ∷ t) = elim (same_preference p e.preference) [
  | true ↦ record e { weight = e.weight + w; count = e.count + 1 } ∷ t
  | false ↦ e ∷ add_vote p w t
]

unfoldable pub tally : List Vote → List Entry → List Entry
tally [] t = t
tally (v ∷ vs) t = tally vs (add_vote v.0 v.1 t)

-- `sum(weighted_totals.values())`
unfoldable pub total_weight : List Entry → ℕ
total_weight [] = 0
total_weight (e ∷ t) = e.weight + total_weight t

-- `unweighted_ranked[0][1]`
unfoldable pub top_count : List Entry → ℕ
top_count [] = 0
top_count (e ∷ t) = max e.count (top_count t)

-- The keys of the sort, the greater one first; equal ones stay in their order.
unfoldable pub outranks : Entry → Entry → Bool
outranks e f = ltb f.weight e.weight || (f.weight == e.weight && leb f.count e.count)

unfoldable pub insert_entry : Entry → List Entry → List Entry
insert_entry e [] = e ∷ []
insert_entry e (f ∷ t) = elim (outranks e f) [ true ↦ e ∷ f ∷ t | false ↦ f ∷ insert_entry e t ]

unfoldable pub ranked : List Entry → List Entry
ranked [] = []
ranked (e ∷ t) = insert_entry e (ranked t)

unfoldable pub has_unique_leader : Entry → List Entry → Bool
has_unique_leader top [] = true
has_unique_leader top (second ∷ others) = ltb second.weight top.weight

unfoldable pub agreement_ratio : ℕ → ℕ → ℕ → ℕ
agreement_ratio top total unweighted =
    if ltb 0 total then round_ratio (top * 10_000) total else unweighted

-- `filter(organization_id=..., user_id__in=..., gold_evaluated_count__gt=0)`, at a user.
unfoldable pub calibration_of :
    List AnnotatorCalibration → Option ℕ → ℕ → Option AnnotatorCalibration
calibration_of cals none user = none
calibration_of [] (some org) user = none
calibration_of (c ∷ cals) (some org) user =
    elim (c.organization == org && c.user == user && ltb 0 c.gold_evaluated_count) [
      | true ↦ some c
      | false ↦ calibration_of cals (some org) user
    ]

unfoldable pub weight_of : List AnnotatorCalibration → Task → TaskAnnotation → ℕ
weight_of cals task a =
    resolve_effective_skill_weight (calibration_of cals task.organization a.annotator)
      (normal (codes "general") task.domain) (normal (codes "en") a.language)

-- The votes of a task, in the order of the annotations.
unfoldable pub votes_of : List AnnotatorCalibration → Task → List TaskAnnotation → List Vote
votes_of cals task [] = []
votes_of cals task (a ∷ more) = (a.preference, weight_of cals task a) ∷ votes_of cals task more

pub data TaskEvent : Type 0 where
  uncertainty_escalated :
      (task : ℕ) → (difficulty : Difficulty) → (annotation_count : ℕ) → TaskEvent
  consensus_reached task_completed :
      (task : ℕ) → (consensus_choice : Choice) → (annotation_count : Option ℕ) → TaskEvent
  annotator_calibrated :
      (user task : ℕ) → (is_correct : Bool) → (gold_evaluated gold_correct : ℕ) → TaskEvent

pub record Summary : Type 0 where
  pub annotation_count : ℕ
  pub is_reached : Bool
  pub awaiting_adjudication : Bool
  pub choice : Choice
  pub score : Option ℕ

unfoldable pub started : TaskStatus → TaskStatus
started pending = in_progress
started s = s

unfoldable pub is_expert : Difficulty → Bool
is_expert expert = true
is_expert _ = false

unfoldable pub for_organization : Option ℕ → List TaskEvent → List TaskEvent
for_organization none events = []
for_organization (some org) events = events

-- `task.difficulty = "expert"; task.auto_escalated = True`
unfoldable pub escalate : Task → Task
escalate task = record task { difficulty = expert; auto_escalated = true }

unfoldable pub is_escalating : Task → Bool
unfolding is_expert
is_escalating task =
    not task.is_gold && (not (is_expert task.difficulty) || not task.auto_escalated)

-- The task, without a lease, with the score and the uncertainty, before the vote is settled.
unfoldable pub scored : ℕ → ℕ → Task → Task
scored ratio uncertainty task = record task {
  claimed_by = none;
  claimed_until = none;
  consensus_score = some ratio;
  uncertainty_score = some uncertainty;
}

-- The three ends of the vote: too few annotations, a winner, or a split.
unfoldable pub settle : Task → ℕ → Preference → Bool → Bool → Task × Summary × List TaskEvent
unfolding started for_organization escalate
settle task total top has_quorum has_winner =
    let open_task = record task { consensus_choice = unresolved; status = started task.status } in
    elim has_quorum [
      | false ↦ (
        open_task,
        record {
          annotation_count = total;
          is_reached = false;
          awaiting_adjudication = false;
          choice = unresolved;
          score = task.consensus_score;
        },
        [],
      )
      | true ↦ elim has_winner [
        | true ↦ (
          record task { consensus_choice = preferred top; status = completed },
          record {
            annotation_count = total;
            is_reached = true;
            awaiting_adjudication = false;
            choice = preferred top;
            score = task.consensus_score;
          },
          for_organization task.organization (
              consensus_reached task.id (preferred top) (some total)
              ∷ task_completed task.id (preferred top) (some total)
              ∷ []),
        )
        | false ↦ (
          (if is_escalating task then escalate open_task else open_task),
          record {
            annotation_count = total;
            is_reached = false;
            awaiting_adjudication = true;
            choice = unresolved;
            score = task.consensus_score;
          },
          (if is_escalating task
              then for_organization task.organization
                  (uncertainty_escalated task.id expert total ∷ [])
              else []),
        )
      ]
    ]

-- The vote over the entries, with the number of annotations.
unfoldable pub vote_outcome :
    (List Entry → ℕ) → Task → ℕ → List Entry → List Entry → Task × Summary × List TaskEvent
unfolding scored
vote_outcome uncertainty task total totals [] = (
  task,
  record {
    annotation_count = 0;
    is_reached = false;
    awaiting_adjudication = false;
    choice = unresolved;
    score = none;
  },
  [],
)
vote_outcome uncertainty task total totals (top ∷ others) =
    let ratio =
      agreement_ratio top.weight (total_weight totals)
        (round_ratio (top_count totals * 10_000) total) in
    settle (scored ratio (uncertainty totals) task) total top.preference
      (leb task.required_annotations total) (has_unique_leader top others && ltb 5_000 ratio)

-- The task as it is saved, the summary and the events, from the annotations and the calibrations of the
-- database.
unfoldable pub evaluate_task_consensus :
    (List Entry → ℕ)
    → List AnnotatorCalibration
    → List TaskAnnotation
    → Task
    → Task × Summary × List TaskEvent
evaluate_task_consensus uncertainty cals anns task =
    let annotations = annotations_of task.id anns in
    let totals = tally (votes_of cals task annotations) [] in
    vote_outcome uncertainty task (length annotations) totals (ranked totals)
