-- ===== src/Tasks/Guards.antt =====
-- Who may annotate a task that is claimed, apps/tasks/views.py.
use multilingual_task_api.Prelude.{
  ℕ, ◌+◌, ◌<◌, ◌≡◌, ◌≢◌, refl, sym, ap, ◌∙◌, ltb, true, false, not, ◌&&◌, ◌||◌, some, List, [], ◌∷◌,
  ◌++◌, arith, Bool-cases, inl, inr, ◌==◌, if◌then◌else◌,
}
use multilingual_task_api.PyText.{Text}
use multilingual_task_api.Tasks.{Task, TaskAnnotation, Preference, has_annotated}
use multilingual_task_api.Tasks.Calibration.{AnnotatorCalibration}
use multilingual_task_api.Tasks.Consensus.{Entry}
use multilingual_task_api.Tasks.Claims.{take_first, lease, claim_task}
use multilingual_task_api.Tasks.Annotations.{
  leased_to_another, already_annotated, created, refused, store, annotate, is_leased_to_another,
}
use multilingual_task_api.Tasks.Leases.{Call, claim_of, none-some, some-injective}

taken-lease :
    (user until : ℕ) (rows tasks : List Task) (mine : Task)
    → (take_first user until rows tasks).0 ≡ some mine
    → (mine.claimed_by ≡ some user) × (mine.claimed_until ≡ some until)
unfolding take_first lease
taken-lease user until [] tasks mine h = absurd (none-some h)
taken-lease user until (t ∷ rows) tasks mine h = (
  sym (ap (λ r. r.claimed_by) (some-injective h)),
  sym (ap (λ r. r.claimed_until) (some-injective h)),
)

leased_to :
    (user until other now : ℕ) (task : Task)
    → task.claimed_by ≡ some user
    → task.claimed_until ≡ some until
    → is_leased_to_another now other task ≡ not (user == other) && ltb now until
unfolding is_leased_to_another
leased_to user until other now task by at = rw (by, at) refl

abbrev pub row_of : ℕ → ℕ → Preference → Text → TaskAnnotation
row_of task user preference language = record {
  task = task;
  annotator = user;
  preference = preference;
  language = language;
}

unleased_reply :
    (uncertainty : List Entry → ℕ) (now user : ℕ) (preference : Preference) (language : Text)
    (seen : List TaskAnnotation) (cals : List AnnotatorCalibration) (anns : List TaskAnnotation)
    (task : Task)
    → is_leased_to_another now user task ≡ false
    → let r = annotate uncertainty now user preference language seen cals anns task in
      let is_late = has_annotated task.id user seen || has_annotated task.id user anns in
      (r.reply ≡ (if is_late then already_annotated else created))
      × (r.annotations
          ≡ (if is_late then anns else anns ++ row_of task.id user preference language ∷ []))
unfolding annotate refused store
unleased_reply uncertainty now user preference language seen cals anns task h =
    elim (Bool-cases (has_annotated task.id user seen || has_annotated task.id user anns)) [
      | inl e ↦ rw (annotate, h, e) (refl, refl)
      | inr e ↦ elim (Bool-cases task.is_gold) [
        | inl g ↦ rw (annotate, h, e, store, g) (refl, refl)
        | inr g ↦ rw (annotate, h, e, store, g) (refl, refl)
      ]
    ]

-- From the claim of a task until its lease ends, an annotation of it by another user is refused and
-- changes nothing, and one by its user is accepted and stored after the others, unless the user has
-- annotated the task: then it is refused and none is stored.
pub lease_guards :
    (c : Call) (tasks : List Task) (mine : Task) (other now : ℕ) (uncertainty : List Entry → ℕ)
    (preference : Preference) (language : Text) (seen : List TaskAnnotation)
    (cals : List AnnotatorCalibration) (anns : List TaskAnnotation)
    → (claim_of c tasks).0 ≡ some mine
    → other ≢ c.request.user
    → now < c.now + c.request.lease_seconds
    → (annotate uncertainty now other preference language seen cals anns mine
        ≡ refused leased_to_another cals anns mine)
      × (let r = annotate uncertainty now c.request.user preference language seen cals anns mine in
          let is_late =
            has_annotated mine.id c.request.user seen
            || has_annotated mine.id c.request.user anns in
          (r.reply ≡ (if is_late then already_annotated else created))
          × (r.annotations ≡ (
              if is_late
              then anns
              else anns ++ row_of mine.id c.request.user preference language ∷ [])))
unfolding claim_task annotate
lease_guards c tasks mine other now uncertainty preference language seen cals anns h differs early =
    let user = c.request.user in
    let until = c.now + c.request.lease_seconds in
    let (by, at) = taken-lease user until _ tasks mine h in
    let foreign : is_leased_to_another now other mine ≡ true =
      leased_to user until other now mine by at ∙ ground (arith, differs) in
    let own : is_leased_to_another now user mine ≡ false =
      leased_to user until user now mine by at ∙ ground arith in
    (
      rw (annotate, foreign) refl,
      unleased_reply uncertainty now user preference language seen cals anns mine own,
    )
