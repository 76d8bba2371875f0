-- ===== src/Outbox/Drains.antt =====
-- What a drain of apps/core/outbox.py makes of a row that is due, among others.
use multilingual_task_api.Prelude.{
  ℕ, zero, suc, ◌+◌, ◌≤◌, ◌≡◌, refl, sym, subst, ap, ◌∙◌, Bool, true, false, ◌&&◌, none, List, [],
  ◌∷◌, max, arith, Bool-cases, inl, inr, leb, le→leb, ◌==◌, length, take, filter, insert_by,
  sort_by,
}
use multilingual_task_api.Outbox.{
  OutboxEvent, Table, pending, processing, update_where, is_in, ids_of, is_pending, is_processing,
  is_claimable, Senders, send, Tally, settled, relay_all, relay_event, reclaim, claim,
  drain_outbox_batch, stale_processing_seconds,
}
use multilingual_task_api.Outbox.Rows.{
  HasRow, HasRow-updated, HasRow-kept, HasRow-filter, HasRow-sort_by, HasRow-is_in, relay-row,
}

abbrev pub held : ℕ → OutboxEvent → OutboxEvent
held now r = record r {
  status = processing;
  attempts = r.attempts + 1;
  next_attempt_at = now + stale_processing_seconds;
}

take_all {ℓ} : {A : Type ℓ} (n : ℕ) (xs : List A) → length xs ≤ n → take n xs ≡ xs
take_all zero [] h = refl
take_all zero (x ∷ xs) h = absurd (omega arith)
take_all (suc n) [] h = refl
take_all (suc n) (x ∷ xs) h = ap (λ r. x ∷ r) (take_all n xs (omega arith))

length-filter {ℓ} : {A : Type ℓ} (p : A → Bool) (xs : List A) → length (filter p xs) ≤ length xs
length-filter p [] = omega arith
length-filter p (x ∷ xs) =
    let rest = length-filter p xs in
    elim (Bool-cases (p x)) [ inl e ↦ rw e (omega arith) | inr e ↦ rw e (omega arith) ]

length-insert_by {ℓ} :
    {A : Type ℓ} (key : A → ℕ) (a : A) (xs : List A) → length (insert_by key a xs) ≡ suc (length xs)
length-insert_by key a [] = refl
length-insert_by key a (x ∷ xs) =
    let rest = length-insert_by key a xs in
    elim (Bool-cases (leb (key a) (key x))) [ inl e ↦ rw e refl | inr e ↦ rw e (omega arith) ]

length-sort_by {ℓ} : {A : Type ℓ} (key : A → ℕ) (xs : List A) → length (sort_by key xs) ≡ length xs
length-sort_by key [] = refl
length-sort_by key (x ∷ xs) =
    omega (arith, length-insert_by key x (sort_by key xs), length-sort_by key xs)

pub length-update_where :
    (p : OutboxEvent → Bool) (f : OutboxEvent → OutboxEvent) (t : Table)
    → length (update_where p f t) ≡ length t
length-update_where p f [] = refl
length-update_where p f (r ∷ t) = ap suc (length-update_where p f t)

length-relay_all :
    (senders : Senders) (clock : OutboxEvent → ℕ) (events t : Table) (n : Tally)
    → length (relay_all senders clock events (t, n)).0 ≡ length t
unfolding relay_all relay_event
length-relay_all senders clock [] t n = refl
length-relay_all senders clock (e ∷ events) t n =
    let (t', n') = relay_event senders (clock e) e (t, n) in
    length-relay_all senders clock events t' n'
    ∙ length-update_where (λ r. r.id == e.id) (settled (clock e) (e.attempts + 1) (send senders e))
        t

length-reclaim : (now : ℕ) (t : Table) → length (reclaim now t) ≡ length t
unfolding reclaim
length-reclaim now t =
    length-update_where (λ r. is_processing r.status && leb r.next_attempt_at now)
      (λ r. record r { status = pending }) t

length-claim :
    (locked : ℕ → Bool) (batch_size now : ℕ) (t : Table)
    → length (claim locked batch_size none now t).1 ≡ length t
unfolding claim
length-claim locked batch_size now t =
    length-update_where (λ r. is_in (ids_of (claim locked batch_size none now t).0) r.id) (held now)
      t

-- A drain by a worker that finds these rows locked, and that sends at once.
abbrev pub drain_at : Senders → (ℕ → Bool) → ℕ → ℕ → Table → Table
drain_at senders locked batch_size now t =
    (drain_outbox_batch senders (λ _. now) locked batch_size none now t).0

pub length-drain_at :
    (senders : Senders) (locked : ℕ → Bool) (batch_size now : ℕ) (t : Table)
    → length (drain_at senders locked batch_size now t) ≡ length t
unfolding drain_outbox_batch
length-drain_at senders locked batch_size now t =
    let (events, t') = claim locked batch_size none now (reclaim now t) in
    length-relay_all senders (λ _. now) events t'
      (record { claimed = length events; dispatched = 0; retried = 0; failed = 0 })
    ∙ length-claim locked batch_size now (reclaim now t)
    ∙ length-reclaim now t

claimable :
    (locked : ℕ → Bool) (now : ℕ) (r : OutboxEvent)
    → r.status ≡ pending
    → r.next_attempt_at ≤ now
    → locked r.id ≡ false
    → is_claimable locked none now r ≡ true
unfolding is_claimable is_pending
claimable locked now r p q l =
    let waits : is_pending r.status ≡ true = ap is_pending p in
    rw (waits, le→leb r.next_attempt_at now q, l) refl

HasRow-reclaim :
    (now : ℕ) (r : OutboxEvent) (t : Table)
    → r.status ≡ pending
    → HasRow r.id r t
    → HasRow r.id r (reclaim now t)
unfolding reclaim is_processing
HasRow-reclaim now r t p h =
    let idle : is_processing r.status ≡ false = ap is_processing p in
    HasRow-kept r.id _ _ r t (λ q. refl) (rw idle refl) h

HasRow-claim :
    (locked : ℕ → Bool) (batch_size now : ℕ) (r : OutboxEvent) (t : Table)
    → r.status ≡ pending
    → r.next_attempt_at ≤ now
    → locked r.id ≡ false
    → length t ≤ batch_size
    → HasRow r.id r t
    → let (events, t') = claim locked batch_size none now t in
      HasRow r.id r events × HasRow r.id (held now r) t'
unfolding claim
HasRow-claim locked batch_size now r t p q l fits h =
    let due = filter (is_claimable locked none now) t in
    let sorted = sort_by (λ (x : OutboxEvent). x.created_at) due in
    let there : HasRow r.id r sorted =
      HasRow-sort_by r.id _ r due (HasRow-filter r.id _ r t (claimable locked now r p q l) h) in
    let all : take (max 1 batch_size) sorted ≡ sorted = take_all (max 1 batch_size) sorted (
      omega (
        arith,
        length-sort_by (λ (x : OutboxEvent). x.created_at) due,
        length-filter (is_claimable locked none now) t,
      )) in
    let taken = subst (λ x. HasRow r.id r x) (sym all) there in
    (taken, HasRow-updated r.id _ (held now) r t (λ x. refl) (HasRow-is_in r.id r _ taken) h)

-- A drain whose batch is large enough for the table settles a row that is pending, due and not locked
-- by what sending it gives.
pub HasRow-drain :
    (senders : Senders) (locked : ℕ → Bool) (batch_size now : ℕ) (r : OutboxEvent) (t : Table)
    → r.status ≡ pending
    → r.next_attempt_at ≤ now
    → locked r.id ≡ false
    → length t ≤ batch_size
    → HasRow r.id r t
    → HasRow r.id
        (settled now (r.attempts + 1) (send senders r) (held now r))
        (drain_at senders locked batch_size now t)
unfolding drain_outbox_batch
HasRow-drain senders locked batch_size now r t p q l fits h =
    let (claimed, table) =
      HasRow-claim locked batch_size now r (reclaim now t) p q l
        (subst (λ n. n ≤ batch_size) (sym (length-reclaim now t)) fits)
        (HasRow-reclaim now r t p h) in
    relay-row senders now r.id r (held now r) _ _ _ claimed table
