-- ===== src/Tasks.antt =====
-- apps/tasks: the tasks and annotations of apps/tasks/models.py, as far as claiming, annotating and
-- consensus use them. Ids are numbers, times are in seconds; weights, ratios and uncertainty are in
-- ten-thousandths, to which the source rounds its floats.
pub mod Calibration
pub mod Consensus
pub mod Claims
pub mod Annotations
pub mod Leases
pub mod Available
pub mod Totals
pub mod Ranks
pub mod Skills
pub mod Guards
pub mod Majority
pub mod Verdicts
pub mod Tests
use multilingual_task_api.Prelude.{
  ℕ, ◌+◌, ◌*◌, ◌/◌, ◌%◌, Bool, true, false, ◌&&◌, Option, some, none, List, [], ◌∷◌, ltb, ◌==◌,
  if◌then◌else◌,
}
use multilingual_task_api.PyText.{Text}

pub data Priority : Type 0 where
  low medium high critical : Priority

pub data TaskStatus : Type 0 where
  pending in_progress completed archived : TaskStatus

pub data Preference : Type 0 where
  response_a response_b tie : Preference

pub data Choice : Type 0 where
  unresolved needs_review : Choice
  preferred : Preference → Choice

pub data Difficulty : Type 0 where
  standard hard expert : Difficulty

pub record Task : Type 0 where
  pub id : ℕ
  pub user : ℕ
  pub organization : Option ℕ
  pub status : TaskStatus
  pub priority : Priority
  pub domain : Text
  pub difficulty : Difficulty
  pub required_annotations : ℕ
  pub claimed_by : Option ℕ
  pub claimed_until : Option ℕ
  pub consensus_score : Option ℕ
  pub consensus_choice : Choice
  pub is_gold : Bool
  pub gold_choice : Option Preference
  pub uncertainty_score : Option ℕ
  pub auto_escalated : Bool
  pub is_active : Bool
  pub created_at : ℕ

pub record TaskAnnotation : Type 0 where
  pub task : ℕ
  pub annotator : ℕ
  pub preference : Preference
  pub language : Text

-- `round(n / d, 4)` for a ratio that is already in ten-thousandths: halves go to the even number.
unfoldable pub round_ratio : ℕ → ℕ → ℕ
round_ratio n d =
    if ltb (n % d * 2) d then n / d else if ltb d (n % d * 2) then n / d + 1 else n / d + n / d % 2

unfoldable pub same_preference : Preference → Preference → Bool
same_preference response_a response_a = true
same_preference response_b response_b = true
same_preference tie tie = true
same_preference _ _ = false

-- `TaskAnnotation.objects.filter(task=task)`
abbrev pub annotations_of : ℕ → List TaskAnnotation → List TaskAnnotation
annotations_of task [] = []
annotations_of task (a ∷ more) =
    if a.task == task then a ∷ annotations_of task more else annotations_of task more

-- `filter(task=task, annotator=user).exists()`
unfoldable pub has_annotated : ℕ → ℕ → List TaskAnnotation → Bool
has_annotated task user [] = false
has_annotated task user (a ∷ more) = elim (a.task == task && a.annotator == user) [
  | true ↦ true
  | false ↦ has_annotated task user more
]
