-- ===== src/Outbox/Relays.antt =====
-- What the relay makes of a claimed event, apps/core/outbox.py.
use multilingual_task_api.Prelude.{
  ℕ, zero, suc, ◌+◌, ◌^◌, ◌≤◌, ◌<◌, ◌≡◌, ◌≢◌, refl, sym, ap, ◌∙◌, Bool, true, false, Option, some,
  none, List, [], ◌∷◌, max, min, arith, Bool-cases, inl, inr, ◌⊎◌, leb, leb→le, ◌==◌, if◌then◌else◌,
  length, take, length-take, filter, sort_by,
}
use multilingual_task_api.Prelude.Powers.{pow_pos, pow_double}
use multilingual_task_api.PyText.{Text}
use multilingual_task_api.Outbox.{
  OutboxEvent, Table, pending, dispatched, failed, update_where, Senders, send, Tally, backoff,
  settled, count_up, relay_event, relay_all, drain_outbox_batch, claim, reclaim, is_claimable,
  max_outbox_attempts,
}

-- The row with an id.
abbrev pub find : ℕ → Table → Option OutboxEvent
find i [] = none
find i (r ∷ t) = let rest = find i t in if r.id == i then some r else rest

abbrev pub KeepsId : (OutboxEvent → OutboxEvent) → Type 0
KeepsId f = (r : OutboxEvent) → (f r).id ≡ r.id

find_updated :
    (i : ℕ) (f : OutboxEvent → OutboxEvent) (t : Table) (r : OutboxEvent)
    → KeepsId f
    → find i t ≡ some r
    → find i (update_where (λ r. r.id == i) f t) ≡ some (f r)
find_updated i f [] r k e = absurd (cc)
find_updated i f (x ∷ t) r k e =
    let rest = find i t in
    elim (Bool-cases (x.id == i)) [
      | inl p ↦
          let here : some x ≡ some r = ground arith in
          let kept : (f x).id == i ≡ true = ap (λ d. d == i) (k x) ∙ p in rw (p, kept) (cc)
      | inr p ↦
          let there : find i t ≡ some r = ground arith in rw p (rw p (find_updated i f t r k there))
    ]

find_other :
    (i j : ℕ) (f : OutboxEvent → OutboxEvent) (t : Table)
    → KeepsId f
    → j ≢ i
    → find j (update_where (λ r. r.id == i) f t) ≡ find j t
find_other i j f [] k ne = refl
find_other i j f (x ∷ t) k ne =
    let ih = find_other i j f t k ne in
    elim (Bool-cases (x.id == i)) [
      | inl p ↦
          let apart : x.id == j ≡ false = ground arith in
          let still : (f x).id == j ≡ false = ap (λ d. d == j) (k x) ∙ apart in
          rw (p, still, apart) ih
      | inr p ↦ rw (p, ih) refl
    ]

pub settled-KeepsId : (at a : ℕ) (o : Option Text) → KeepsId (settled at a o)
unfolding settled
settled-KeepsId at a none r = refl
settled-KeepsId at a (some x) r = ground (arith)

two_le_pow : (m : ℕ) → 1 ≤ m → 2 ≤ 2 ^ m
two_le_pow zero h = absurd (omega arith)
two_le_pow (suc m) h = omega (arith, pow_double m, pow_pos m)

pub backoff_bounds : (a : ℕ) → 1 ≤ a → (10 ≤ backoff a) × (backoff a ≤ 300)
unfolding backoff
backoff_bounds a p =
    let double : 2 ≤ 2 ^ min a 6 = two_le_pow (min a 6) (omega arith) in omega arith

-- The row after an attempt of an event with this text of an exception, its `number`-th: sent, in the
-- dead letters, or due again in between 10 and 300 seconds.
abbrev pub Settles : ℕ → ℕ → Option Text → OutboxEvent → OutboxEvent → Type 0
Settles at number none r r' =
    (r'.status ≡ dispatched) × (r'.dispatched_at ≡ some at) × (r'.attempts ≡ r.attempts)
Settles at number (some exc) r r' =
    (r'.attempts ≡ r.attempts)
    × (r'.last_error ≡ take 450 exc)
    × (((10 ≤ number) × (r'.status ≡ failed))
        ⊎ ((number < 10)
            × (r'.status ≡ pending)
            × (at + 10 ≤ r'.next_attempt_at)
            × (r'.next_attempt_at ≤ at + 300)))

pub settled_lem :
    (at number : ℕ) (o : Option Text) (r : OutboxEvent)
    → 1 ≤ number
    → Settles at number o r (settled at number o r)
unfolding settled
settled_lem at number none r q = (refl, refl, refl)
settled_lem at number (some exc) r q =
    let (low, high) = backoff_bounds number q in
    elim (Bool-cases (leb max_outbox_attempts number)) [
      | inl e ↦ rw e (refl, refl, inl (leb→le 10 number e, refl))
      | inr e ↦ rw e (refl, refl, inr (ground arith, refl, omega arith, omega arith))
    ]

-- One attempt settles the event's row by what sending gave: returned, it is dispatched at that time;
-- raised, its exception's first 450 characters are kept, and it is in the dead letters from the
-- tenth attempt on, and before that pending and due again in 10 to 300 seconds. Every other row
-- stays as it is.
pub relay-Settles :
    (senders : Senders) (at j : ℕ) (ev r : OutboxEvent) (t : Table) (n : Tally)
    → find ev.id t ≡ some r
    → j ≢ ev.id
    → let (t', _) = relay_event senders at ev (t, n) in
      (r' : OutboxEvent) × (find ev.id t' ≡ some r')
      × Settles at (ev.attempts + 1) (send senders ev) r r'
      × (find j t' ≡ find j t)
unfolding relay_event
relay-Settles senders at j ev r t n e ne =
    let f = settled at (ev.attempts + 1) (send senders ev) in
    let keeps = settled-KeepsId at (ev.attempts + 1) (send senders ev) in
    (
      f r,
      find_updated ev.id f t r keeps e,
      settled_lem at (ev.attempts + 1) (send senders ev) r (omega arith),
      find_other ev.id j f t keeps ne,
    )

abbrev pub settled_count : Tally → ℕ
settled_count n = n.dispatched + n.retried + n.failed

count_up_lem :
    (number : ℕ) (o : Option Text) (n : Tally)
    → let n' = count_up number o n in
      (n'.claimed ≡ n.claimed) × (settled_count n' ≡ settled_count n + 1)
unfolding count_up
count_up_lem number none n = (refl, omega arith)
count_up_lem number (some exc) n = elim (Bool-cases (leb max_outbox_attempts number)) [
  | inl e ↦ rw e (refl, omega arith)
  | inr e ↦ rw e (refl, omega arith)
]

relay_all_counts :
    (senders : Senders) (clock : OutboxEvent → ℕ) (evs : List OutboxEvent) (t : Table) (n : Tally)
    → let (_, n') = relay_all senders clock evs (t, n) in
      (n'.claimed ≡ n.claimed) × (settled_count n' ≡ settled_count n + length evs)
unfolding relay_all
relay_all_counts senders clock [] t n = (refl, omega arith)
relay_all_counts senders clock (ev ∷ evs) t n =
    let (t', n') = relay_event senders (clock ev) ev (t, n) in
    let (c, s) = relay_all_counts senders clock evs t' n' in
    let (c', s') = count_up_lem (ev.attempts + 1) (send senders ev) n in (c ∙ c', omega arith)

claimed_few :
    (locked : ℕ → Bool) (batch_size : ℕ) (event_id : Option ℕ) (now : ℕ) (t : Table)
    → length (claim locked batch_size event_id now t).0 ≤ max 1 batch_size
unfolding claim
claimed_few locked batch_size event_id now t = omega (
  arith,
  length-take (max 1 batch_size)
      (sort_by (λ r. r.created_at) (filter (is_claimable locked event_id now) t)),
)

from_nothing : (m : ℕ) → 0 + 0 + 0 + m ≡ m
from_nothing m = omega arith

-- Every drain accounts for each event that it claims: it was dispatched, put off or moved to the dead
-- letters; and it claims no more than the batch size, or one where that is zero.
pub drain_accounts :
    (senders : Senders) (clock : OutboxEvent → ℕ) (locked : ℕ → Bool) (batch_size : ℕ)
    (event_id : Option ℕ) (now : ℕ) (t : Table)
    → let (_, n) = drain_outbox_batch senders clock locked batch_size event_id now t in
      (n.dispatched + n.retried + n.failed ≡ n.claimed) × (n.claimed ≤ max 1 batch_size)
unfolding drain_outbox_batch
drain_accounts senders clock locked batch_size event_id now t =
    let (evs, t') = claim locked batch_size event_id now (reclaim now t) in
    let (c, s) =
      relay_all_counts senders clock evs t'
        (record { claimed = length evs; dispatched = 0; retried = 0; failed = 0 }) in
    (
      s ∙ from_nothing (length evs) ∙ sym c,
      omega (arith, c, claimed_few locked batch_size event_id now (reclaim now t)),
    )
