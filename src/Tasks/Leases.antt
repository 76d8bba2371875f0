-- ===== src/Tasks/Leases.antt =====
-- What the lease of a claimed task promises, apps/tasks/views.py.
use multilingual_task_api.Prelude.{
  ℕ, ◌+◌, ◌<◌, ◌≡◌, ◌≢◌, refl, subst, ap, Bool, true, false, Option, some, none, List, [], ◌∷◌, All,
  All-filter, All-always, All-imp, arith, Bool-cases, inl, inr, ◌==◌,
}
use multilingual_task_api.Tasks.{Task, TaskAnnotation}
use multilingual_task_api.Tasks.Calibration.{Routing}
use multilingual_task_api.Tasks.Claims.{
  ClaimRequest, candidate_ids, comes_before, insert_task, in_claim_order, is_free, is_user,
  is_lockable, lease, save_lease, take_first, claim_task,
}

pub insert_task-All {κ} :
    (P : Task → Type κ) (routing : Routing) (a : Task) (tasks : List Task)
    → P a
    → All P tasks
    → All P (insert_task routing a tasks)
unfolding insert_task
insert_task-All P routing a [] p h = (p, tt)
insert_task-All P routing a (b ∷ tasks) p (q, h) =
    let rest = insert_task-All P routing a tasks p h in
    elim (Bool-cases (comes_before routing a b)) [
      | inl e ↦ rw (All, e) (p, (q, h))
      | inr e ↦ rw (All, e) (q, rest)
    ]

pub in_claim_order-All {κ} :
    (P : Task → Type κ) (routing : Routing) (tasks : List Task)
    → All P tasks
    → All P (in_claim_order routing tasks)
unfolding in_claim_order
in_claim_order-All P routing [] h = tt
in_claim_order-All P routing (a ∷ tasks) (p, h) =
    insert_task-All P routing a (in_claim_order routing tasks) p
      (in_claim_order-All P routing tasks h)

save_lease-All {κ} :
    (P : Task → Type κ) (leased : Task) (tasks : List Task)
    → All (λ t. t.id == leased.id ≡ false → P t) tasks
    → ((t : Task)
        → t.id == leased.id ≡ true
        → P (record t {
          claimed_by = leased.claimed_by;
          claimed_until = leased.claimed_until;
          status = leased.status;
        }))
    → All P (save_lease leased tasks)
unfolding save_lease
save_lease-All P leased [] off on = tt
save_lease-All P leased (t ∷ tasks) (o, off) on =
    let rest = save_lease-All P leased tasks off on in
    elim (Bool-cases (t.id == leased.id)) [
      | inl e ↦ rw (All, e) (on t e, rest)
      | inr e ↦ rw (All, e) (o e, rest)
    ]

-- The row of this id is leased to the user until then.
abbrev pub IsHeldBy : ℕ → ℕ → ℕ → Task → Type 0
IsHeldBy id user until t =
    t.id == id ≡ true → (t.claimed_by ≡ some user) × (t.claimed_until ≡ some until)

-- A later claim: the request, what it reads, and when.
pub record Call : Type 0 where
  pub request : ClaimRequest
  pub routing : Routing
  pub now : ℕ
  pub annotations : List TaskAnnotation
  pub snapshot : List Task
  pub locked : ℕ → Bool

abbrev pub claim_of : Call → List Task → Option Task × List Task
claim_of c tasks = claim_task c.request c.routing c.now c.annotations c.snapshot c.locked tasks

-- What a sequence of claims returns.
abbrev pub claims : List Call → List Task → List (Option Task)
claims [] tasks = []
claims (c ∷ calls) tasks =
    let (claimed_task, tasks') = claim_of c tasks in claimed_task ∷ claims calls tasks'

abbrev pub Spares : ℕ → Option Task → Type 0
Spares id none = Unit
Spares id (some t) = t.id == id ≡ false

held-is_free :
    (user until other now : ℕ) (t : Task)
    → other ≢ user
    → now < until
    → t.claimed_by ≡ some user
    → t.claimed_until ≡ some until
    → is_free now other t ≡ false
unfolding is_free is_user
held-is_free user until other now t differs early by at = rw (at, by) (ground (arith, differs))

not_lockable :
    (id user until : ℕ) (request : ClaimRequest) (now : ℕ) (ids : List ℕ) (locked : ℕ → Bool)
    (t : Task)
    → request.user ≢ user
    → now < until
    → (is_lockable request now ids locked t ≡ true) × IsHeldBy id user until t
    → t.id == id ≡ false
unfolding is_lockable
not_lockable id user until request now ids locked t other early (l, h) =
    elim (Bool-cases (t.id == id)) [
      | inr e ↦ e
      | inl e ↦
          let (by, at) = h e in
          let taken = held-is_free user until request.user now t other early by at in
          absurd (ground (arith, taken))
    ]

take_first-Spares :
    (id user until you until' : ℕ) (rows tasks : List Task)
    → All (λ t. t.id == id ≡ false) rows
    → All (IsHeldBy id user until) tasks
    → let (claimed_task, tasks') = take_first you until' rows tasks in
      Spares id claimed_task × All (IsHeldBy id user until) tasks'
unfolding take_first lease
take_first-Spares id user until you until' [] tasks free held = (tt, held)
take_first-Spares id user until you until' (t ∷ rows) tasks (f, free) held = (
  f,
  save_lease-All _ (lease you until' t) tasks (All-imp _ _ (λ r h _. h) tasks held)
      (λ r same mine. absurd (ground arith)),
)

-- A claim by another before the lease ends returns another row, and keeps this one.
claim_task-Spares :
    (id user until : ℕ) (c : Call) (tasks : List Task)
    → c.request.user ≢ user
    → c.now < until
    → All (IsHeldBy id user until) tasks
    → let (claimed_task, tasks') = claim_of c tasks in
      Spares id claimed_task × All (IsHeldBy id user until) tasks'
unfolding claim_task
claim_task-Spares id user until c tasks other early held =
    let ids = candidate_ids c.request c.routing c.now c.annotations c.snapshot in
    take_first-Spares id user until c.request.user _ _ tasks
      (in_claim_order-All _ c.routing _ (
        All-imp _ _ (λ t h. not_lockable id user until c.request c.now ids c.locked t other early h)
          _ (All-filter _ (is_lockable c.request c.now ids c.locked) tasks held)))
      held

-- Claims by other users, before a lease ends.
abbrev pub IsEarly : ℕ → ℕ → Call → Type 0
IsEarly user until c = (c.request.user ≢ user) × (c.now < until)

claims-Spares :
    (id user until : ℕ) (calls : List Call) (tasks : List Task)
    → All (IsEarly user until) calls
    → All (IsHeldBy id user until) tasks
    → All (Spares id) (claims calls tasks)
claims-Spares id user until [] tasks early held = tt
claims-Spares id user until (c ∷ calls) tasks ((other, e), early) held =
    let (spared, held') = claim_task-Spares id user until c tasks other e held in
    (spared, claims-Spares id user until calls (claim_of c tasks).1 early held')

pub none-some : {t : Task} → none ≡ some t → ⊥
none-some e = cc

pub some-injective : {t u : Task} → some t ≡ some u → t ≡ u
some-injective e = cc

claimed-IsHeldBy :
    (you until : ℕ) (rows tasks : List Task) (mine : Task)
    → (take_first you until rows tasks).0 ≡ some mine
    → All (IsHeldBy mine.id you until) (take_first you until rows tasks).1
unfolding take_first lease
claimed-IsHeldBy you until [] tasks mine h = absurd (none-some h)
claimed-IsHeldBy you until (t ∷ rows) tasks mine h =
    let same : t.id ≡ mine.id = ap (λ r. r.id) (some-injective h) in
    subst (λ id. All (IsHeldBy id you until) (save_lease (lease you until t) tasks)) same
      (save_lease-All _ (lease you until t) tasks
        (All-always _ (λ r differs mine. absurd (ground arith)) tasks) (λ r e _. (refl, refl)))

-- No other user gets a task that a user has claimed, before the lease has run out, whatever they ask for,
-- whichever state of the table they read and whichever rows are locked.
pub lease_exclusive :
    (c : Call) (tasks : List Task) (mine : Task) (calls : List Call)
    → (claim_of c tasks).0 ≡ some mine
    → All (IsEarly c.request.user (c.now + c.request.lease_seconds)) calls
    → All (Spares mine.id) (claims calls (claim_of c tasks).1)
unfolding claim_task
lease_exclusive c tasks mine calls h early =
    claims-Spares mine.id c.request.user (c.now + c.request.lease_seconds) calls
      (claim_of c tasks).1 early
      (claimed-IsHeldBy c.request.user (c.now + c.request.lease_seconds) _ tasks mine h)
