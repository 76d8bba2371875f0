-- ===== src/Tasks/Available.antt =====
-- When a claim finds a task, apps/tasks/views.py.
use multilingual_task_api.Prelude.{
  ℕ, ◌+◌, ◌≡◌, refl, sym, subst, ap, ◌∙◌, Bool, true, false, none, List, [], ◌∷◌, All, All-filter,
  All-always, arith, Bool-cases, inl, inr, ◌↔◌, filter, map, take,
}
use multilingual_task_api.Tasks.{Task, TaskAnnotation}
use multilingual_task_api.Tasks.Calibration.{Routing}
use multilingual_task_api.Tasks.Claims.{
  ClaimRequest, candidate_ids, comes_before, has_id, insert_task, in_claim_order, is_lockable,
  is_candidate, take_first, claim_task,
}
use multilingual_task_api.Tasks.Leases.{in_claim_order-All}

abbrev pub all_free : ℕ → Bool
all_free id = false

insert_task-cons :
    (routing : Routing) (a : Task) (tasks : List Task)
    → (b : Task) × (rest : List Task) × (insert_task routing a tasks ≡ b ∷ rest)
unfolding insert_task
insert_task-cons routing a [] = (a, [], refl)
insert_task-cons routing a (b ∷ tasks) = elim (Bool-cases (comes_before routing a b)) [
  | inl e ↦ (a, b ∷ tasks, rw (insert_task, e) refl)
  | inr e ↦ (b, insert_task routing a tasks, rw (insert_task, e) refl)
]

cons-nil : {t : Task} {tasks : List Task} → t ∷ tasks ≡ [] → ⊥
cons-nil e = cc

order-nil : (routing : Routing) (tasks : List Task) → in_claim_order routing tasks ≡ [] → tasks ≡ []
unfolding in_claim_order
order-nil routing [] h = refl
order-nil routing (t ∷ tasks) h =
    let (b, rest, e) = insert_task-cons routing t (in_claim_order routing tasks) in
    absurd (cons-nil (sym e ∙ h))

filter-nil :
    (p : Task → Bool) (tasks : List Task) → All (λ t. p t ≡ false) tasks → filter p tasks ≡ []
filter-nil p [] h = refl
filter-nil p (t ∷ tasks) (e, h) = rw e (filter-nil p tasks h)

nil-filter :
    (p : Task → Bool) (tasks : List Task) → filter p tasks ≡ [] → All (λ t. p t ≡ false) tasks
nil-filter p [] h = tt
nil-filter p (t ∷ tasks) h = elim (Bool-cases (p t)) [
  | inl e ↦ absurd (cons-nil (rw e at h))
  | inr e ↦ (e, nil-filter p tasks (rw e at h))
]

took_none :
    (user until : ℕ) (rows tasks : List Task)
    → (take_first user until rows tasks).0 ≡ none
    → rows ≡ []
unfolding take_first
took_none user until [] tasks h = refl
took_none user until (t ∷ rows) tasks h = cc

-- A candidate that is not locked could be leased.
not_both :
    (request : ClaimRequest) (routing : Routing) (now : ℕ) (anns : List TaskAnnotation)
    (ids : List ℕ) (t : Task)
    → has_id ids t.id ≡ true
    → is_candidate request routing now anns t ≡ true
    → is_lockable request now ids all_free t ≡ false
    → ⊥
unfolding is_candidate is_lockable
not_both request routing now anns ids t i c l = ground arith

no_candidate :
    (request : ClaimRequest) (routing : Routing) (now : ℕ) (anns : List TaskAnnotation)
    (rows : List Task)
    → All
        (λ t.
          (is_candidate request routing now anns t ≡ true)
          × (is_lockable request now (map (λ u. u.id) (take 25 rows)) all_free t ≡ false))
        rows
    → rows ≡ []
unfolding has_id
no_candidate request routing now anns [] h = refl
no_candidate request routing now anns (t ∷ rows) ((c, l), h) =
    absurd (
      not_both request routing now anns (map (λ u. u.id) (take 25 (t ∷ rows))) t (ground arith) c l)

none_taken :
    (request : ClaimRequest) (routing : Routing) (now : ℕ) (tasks : List Task)
    → (take_first request.user
        (now + request.lease_seconds)
        (in_claim_order routing (filter (is_lockable request now [] all_free) tasks))
        tasks).0
      ≡ none
unfolding is_lockable has_id take_first in_claim_order
none_taken request routing now tasks =
    subst
      (λ rows.
        (take_first request.user (now + request.lease_seconds) (in_claim_order routing rows)
          tasks).0
        ≡ none)
      (sym
        (filter-nil (is_lockable request now [] all_free) tasks (All-always _ (λ t. refl) tasks)))
      refl

-- Alone, without a change between the two queries, a claim finds no task just if none is a candidate: the
-- limit of 25 ids hides no task.
pub claim_finds :
    (request : ClaimRequest) (routing : Routing) (now : ℕ) (anns : List TaskAnnotation)
    (tasks : List Task)
    → ((claim_task request routing now anns tasks all_free tasks).0 ≡ none)
      ↔ All (λ t. is_candidate request routing now anns t ≡ false) tasks
unfolding claim_task candidate_ids in_claim_order
claim_finds request routing now anns tasks =
    let rows = in_claim_order routing (filter (is_candidate request routing now anns) tasks) in
    (
      λ h.
          let unlockable = nil-filter _ tasks (order-nil routing _ (took_none _ _ _ tasks h)) in
          let both =
            in_claim_order-All _ routing _
              (All-filter _ (is_candidate request routing now anns) tasks unlockable) in
          nil-filter _ tasks
            (order-nil routing _ (no_candidate request routing now anns rows both)),
      λ h.
          let nothing : rows ≡ [] = ap (in_claim_order routing) (filter-nil _ tasks h) in
          subst
            (λ r.
              (take_first request.user (now + request.lease_seconds)
                (in_claim_order routing
                  (filter (is_lockable request now (map (λ u. u.id) (take 25 r)) all_free) tasks))
                tasks).0
              ≡ none)
            (sym nothing) (none_taken request routing now tasks),
    )
