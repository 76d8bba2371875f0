-- ===== src/Outbox/Claims.antt =====
-- Which rows a worker claims, apps/core/outbox.py.
use multilingual_task_api.Prelude.{
  ℕ, ◌+◌, ◌<◌, ◌≡◌, refl, Bool, true, false, ◌&&◌, Option, List, [], ◌∷◌, max, arith, Bool-cases,
  inl, inr, leb, filter, All, All-filter, All-sort_by, All-take, All-imp,
}
use multilingual_task_api.Outbox.{
  OutboxEvent, Table, processing, update_where, is_in, ids_of, reclaim, claim, is_claimable,
  is_pending, is_processing, stale_processing_seconds,
}

-- An update keeps what the function keeps.
pub All-update_where {κ} :
    (P : OutboxEvent → Type κ) (p : OutboxEvent → Bool) (f : OutboxEvent → OutboxEvent) (t : Table)
    → ((r : OutboxEvent) → p r ≡ true → P (f r))
    → ((r : OutboxEvent) → p r ≡ false → P r)
    → All P (update_where p f t)
All-update_where P p f [] on off = tt
All-update_where P p f (r ∷ t) on off =
    let rest = All-update_where P p f t on off in
    elim (Bool-cases (p r)) [ inl e ↦ rw e (on r e, rest) | inr e ↦ rw e (off r e, rest) ]

pub All-update_where_of {κ} :
    (P : OutboxEvent → Type κ) (p : OutboxEvent → Bool) (f : OutboxEvent → OutboxEvent) (t : Table)
    → All P t
    → ((r : OutboxEvent) → P r → P (f r))
    → All P (update_where p f t)
All-update_where_of P p f [] h on = tt
All-update_where_of P p f (r ∷ t) h on =
    let rest = All-update_where_of P p f t h.1 on in
    elim (Bool-cases (p r)) [ inl e ↦ rw e (on r h.0, rest) | inr e ↦ rw e (h.0, rest) ]

-- A row of these ids is being processed, and not yet due again.
abbrev pub IsHeld : List ℕ → ℕ → OutboxEvent → Type 0
IsHeld ids until r = is_in ids r.id ≡ true → (r.status ≡ processing) × (r.next_attempt_at ≡ until)

IsHeld-reclaim :
    (ids : List ℕ) (until now : ℕ) (t : Table)
    → now < until
    → All (IsHeld ids until) t
    → All (IsHeld ids until) (reclaim now t)
unfolding reclaim
IsHeld-reclaim ids until now [] q h = tt
IsHeld-reclaim ids until now (r ∷ t) q h =
    let rest = IsHeld-reclaim ids until now t q h.1 in
    elim (Bool-cases (is_processing r.status && leb r.next_attempt_at now)) [
      | inr e ↦ rw e (h.0, rest)
      | inl e ↦ rw e ((λ i. let (_, at) = h.0 i in absurd (ground arith)), rest)
    ]

claimed-IsHeld :
    (locked : ℕ → Bool) (batch_size : ℕ) (event_id : Option ℕ) (now : ℕ) (t : Table)
    → let (events, t') = claim locked batch_size event_id now t in
      All (IsHeld (ids_of events) (now + stale_processing_seconds)) t'
unfolding claim
claimed-IsHeld locked batch_size event_id now t =
    let events = (claim locked batch_size event_id now t).0 in
    All-update_where (IsHeld (ids_of events) (now + stale_processing_seconds))
      (λ r. is_in (ids_of events) r.id) _ t (λ r e i. (refl, refl)) (λ r e i. absurd (ground arith))

-- What is claimed was pending and due, and is one of the rows.
pub claim-All {κ} :
    (P : OutboxEvent → Type κ) (locked : ℕ → Bool) (batch_size : ℕ) (event_id : Option ℕ) (now : ℕ)
    (t : Table)
    → All P t
    → All
        (λ r. (is_claimable locked event_id now r ≡ true) × P r)
        (claim locked batch_size event_id now t).0
unfolding claim
claim-All P locked batch_size event_id now t h = All-take _ (max 1 batch_size) _ (
    All-sort_by _ (λ r. r.created_at) (filter (is_claimable locked event_id now) t)
      (All-filter P (is_claimable locked event_id now) t h))

not_held :
    (ids : List ℕ) (until : ℕ) (locked : ℕ → Bool) (event_id : Option ℕ) (now : ℕ) (r : OutboxEvent)
    → (is_claimable locked event_id now r ≡ true) × IsHeld ids until r
    → is_in ids r.id ≡ false
unfolding is_claimable is_pending
not_held ids until locked event_id now r (c, h) = elim (Bool-cases (is_in ids r.id)) [
  | inr e ↦ e
  | inl e ↦ let (p, _) = h e in absurd (ground arith)
]

-- A claim that follows another before the 300 seconds of it are over takes none of its events, whatever
-- it asks for and whichever rows are locked.
pub claim_exclusive :
    (locked locked' : ℕ → Bool) (batch_size batch_size' : ℕ) (event_id event_id' : Option ℕ)
    (now now' : ℕ) (t : Table)
    → now' < now + stale_processing_seconds
    → let (events, t') = claim locked batch_size event_id now (reclaim now t) in
      All
        (λ r. is_in (ids_of events) r.id ≡ false)
        (claim locked' batch_size' event_id' now' (reclaim now' t')).0
claim_exclusive locked locked' batch_size batch_size' event_id event_id' now now' t q =
    let (events, t') = claim locked batch_size event_id now (reclaim now t) in
    let held =
      IsHeld-reclaim (ids_of events) (now + stale_processing_seconds) now' t' q
        (claimed-IsHeld locked batch_size event_id now (reclaim now t)) in
    All-imp _ _ (not_held (ids_of events) (now + stale_processing_seconds) locked' event_id' now') _
      (claim-All _ locked' batch_size' event_id' now' (reclaim now' t') held)
