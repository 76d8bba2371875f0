-- ===== src/Tasks/Claims.antt =====
-- apps/tasks/views.py: `claim`. The candidates and the rows that are locked are read by two queries, so
-- they are read in two states of the table; rows that other transactions hold locked are skipped.
use multilingual_task_api.Prelude.{
  ℕ, ◌+◌, Bool, true, false, not, ◌&&◌, ◌||◌, Option, some, none, List, [], ◌∷◌, map, ltb, leb,
  ◌==◌, length, take, filter,
}
use multilingual_task_api.PyText.{Text, text_eq}
use multilingual_task_api.Tasks.{
  Task, TaskAnnotation, TaskStatus, Priority, Difficulty, annotations_of, has_annotated,
}
use multilingual_task_api.Tasks.TaskStatus.{pending, in_progress}
use multilingual_task_api.Tasks.Priority.{critical, high, medium, low}
use multilingual_task_api.Tasks.Difficulty.{standard, hard, expert}
use multilingual_task_api.Tasks.Calibration.{Routing}
use multilingual_task_api.Tasks.Consensus.{started, is_expert}

-- The request, once it is validated; a filter that is none lets everything through.
pub record ClaimRequest : Type 0 where
  pub user : ℕ
  pub organization : Option ℕ
  pub lease_seconds : ℕ
  pub priority : Option Priority
  pub domain : Option Text
  pub difficulty : Option Difficulty

unfoldable pub priority_rank : Priority → ℕ
priority_rank critical = 4
priority_rank high = 3
priority_rank medium = 2
priority_rank low = 1

unfoldable pub same_difficulty : Difficulty → Difficulty → Bool
same_difficulty standard standard = true
same_difficulty hard hard = true
same_difficulty expert expert = true
same_difficulty _ _ = false

unfoldable pub is_open : TaskStatus → Bool
is_open pending = true
is_open in_progress = true
is_open _ = false

unfoldable pub is_user : Option ℕ → ℕ → Bool
is_user none user = false
is_user (some u) user = u == user

-- No lease, one that has run out, or one of the user.
unfoldable pub is_free : ℕ → ℕ → Task → Bool
unfolding is_user
is_free now user task = elim task.claimed_until [
  | none ↦ true
  | some until ↦ leb until now || is_user task.claimed_by user
]

unfoldable pub has_capacity : Option ℕ → List TaskAnnotation → Task → Bool
has_capacity organization anns task =
    let existing_ann_count = length (annotations_of task.id anns) in
    elim organization [
      | none ↦ ltb existing_ann_count task.required_annotations
      | some org ↦ task.is_gold || ltb existing_ann_count task.required_annotations
    ]

-- The tasks of the organization, less the expert ones on probation, or those of the user.
unfoldable pub in_queue : ClaimRequest → Bool → Task → Bool
unfolding is_user is_expert
in_queue request is_probation task = elim request.organization [
  | none ↦ task.user == request.user
  | some org ↦
      is_user task.organization org
      && not (is_probation && not task.is_gold && is_expert task.difficulty)
]

unfoldable pub passes : ClaimRequest → Task → Bool
unfolding priority_rank same_difficulty
passes request task =
    elim request.priority [ none ↦ true | some p ↦ priority_rank task.priority == priority_rank p ]
    && elim request.domain [ none ↦ true | some d ↦ text_eq task.domain d ]
    && elim request.difficulty [ none ↦ true | some d ↦ same_difficulty task.difficulty d ]

unfoldable pub is_candidate : ClaimRequest → Routing → ℕ → List TaskAnnotation → Task → Bool
unfolding is_open has_annotated has_capacity is_free in_queue passes
is_candidate request routing now anns task =
    task.is_active
    && is_open task.status
    && not (has_annotated task.id request.user anns)
    && has_capacity request.organization anns task
    && is_free now request.user task
    && in_queue request routing.is_probation task
    && passes request task

unfoldable pub gold_rank : Bool → Bool → ℕ
gold_rank inject_gold_first is_gold = elim inject_gold_first [
  | true ↦ elim is_gold [ true ↦ 1 | false ↦ 0 ]
  | false ↦ elim is_gold [ true ↦ 0 | false ↦ 1 ]
]

unfoldable pub specialist_rank : List Text → Text → ℕ
specialist_rank [] domain = 0
specialist_rank (d ∷ trusted) domain = elim (text_eq d domain) [
  | true ↦ 1
  | false ↦ specialist_rank trusted domain
]

unfoldable pub uncertainty_rank : Option ℕ → ℕ
uncertainty_rank none = 0
uncertainty_rank (some u) = u

-- The first pair of keys that differ decides.
unfoldable pub lexicographic : List (ℕ × ℕ) → Bool
lexicographic [] = true
lexicographic ((a, b) ∷ more) = ltb a b || (a == b && lexicographic more)

-- `order_by("-gold_rank", "-specialist_rank", "-priority_rank", "-uncertainty_rank", "created_at")`
unfoldable pub comes_before : Routing → Task → Task → Bool
unfolding gold_rank specialist_rank priority_rank uncertainty_rank lexicographic
comes_before routing a b = lexicographic (
    (gold_rank routing.inject_gold_first b.is_gold, gold_rank routing.inject_gold_first a.is_gold)
    ∷ (
      specialist_rank routing.trusted_domains b.domain,
      specialist_rank routing.trusted_domains a.domain,
    )
    ∷ (priority_rank b.priority, priority_rank a.priority)
    ∷ (uncertainty_rank b.uncertainty_score, uncertainty_rank a.uncertainty_score)
    ∷ (a.created_at, b.created_at)
    ∷ [])

unfoldable pub insert_task : Routing → Task → List Task → List Task
insert_task routing a [] = a ∷ []
insert_task routing a (b ∷ tasks) = elim (comes_before routing a b) [
  | true ↦ a ∷ b ∷ tasks
  | false ↦ b ∷ insert_task routing a tasks
]

unfoldable pub in_claim_order : Routing → List Task → List Task
unfolding insert_task
in_claim_order routing [] = []
in_claim_order routing (a ∷ tasks) = insert_task routing a (in_claim_order routing tasks)

unfoldable pub has_id : List ℕ → ℕ → Bool
has_id [] id = false
has_id (i ∷ ids) id = i == id || has_id ids id

unfoldable pub candidate_ids : ClaimRequest → Routing → ℕ → List TaskAnnotation → List Task → List ℕ
candidate_ids request routing now anns tasks =
    map (λ t. t.id)
      (take 25 (in_claim_order routing (filter (is_candidate request routing now anns) tasks)))

unfoldable pub is_lockable : ClaimRequest → ℕ → List ℕ → (ℕ → Bool) → Task → Bool
unfolding has_id is_free
is_lockable request now ids locked task =
    has_id ids task.id && is_free now request.user task && not (locked task.id)

-- `save(update_fields=["claimed_by", "claimed_until", "status", ...])` after the three assignments.
unfoldable pub lease : ℕ → ℕ → Task → Task
unfolding started
lease user until task = record task {
  claimed_by = some user;
  claimed_until = some until;
  status = started task.status;
}

unfoldable pub save_lease : Task → List Task → List Task
save_lease leased [] = []
save_lease leased (t ∷ tasks) = elim (t.id == leased.id) [
  | true ↦
      record t {
        claimed_by = leased.claimed_by;
        claimed_until = leased.claimed_until;
        status = leased.status;
      }
      ∷ save_lease leased tasks
  | false ↦ t ∷ save_lease leased tasks
]

-- The first of the rows is leased, if there is one.
unfoldable pub take_first : ℕ → ℕ → List Task → List Task → Option Task × List Task
take_first user until [] tasks = (none, tasks)
take_first user until (t ∷ others) tasks =
    let claimed_task = lease user until t in (some claimed_task, save_lease claimed_task tasks)

-- The task that is claimed, none for status 204, and the table after it.
unfoldable pub claim_task :
    ClaimRequest
    → Routing
    → ℕ
    → List TaskAnnotation
    → List Task
    → (ℕ → Bool)
    → List Task
    → Option Task × List Task
claim_task request routing now anns before locked tasks =
    let ids = candidate_ids request routing now anns before in
    take_first request.user (now + request.lease_seconds)
      (in_claim_order routing (filter (is_lockable request now ids locked) tasks)) tasks
