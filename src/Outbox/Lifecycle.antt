-- ===== src/Outbox/Lifecycle.antt =====
-- One event's way through the drains of apps/core/outbox.py, to the dead letters and back.
use multilingual_task_api.Prelude.{
  ℕ, ◌+◌, ◌≤◌, ◌≡◌, refl, sym, subst, ap, Bool, true, false, some, none, List, [], ◌∷◌, arith, ◌==◌,
  ==_iff, length, ok,
}
use multilingual_task_api.Outbox.{
  OutboxEvent, Table, pending, dispatched, failed, is_failed, update_where, Senders, send, settled,
  replay_dead_letter_outbox_event,
}
use multilingual_task_api.Outbox.Relays.{settled_lem}
use multilingual_task_api.Outbox.Rows.{HasRow, HasRow-updated}
use multilingual_task_api.Outbox.Drains.{drain_at, held, length-update_where, HasRow-drain}

-- The drains of these times, one after the other, where the same rows are locked.
abbrev pub drains : Senders → (ℕ → Bool) → ℕ → List ℕ → Table → Table
drains senders locked batch_size [] t = t
drains senders locked batch_size (now ∷ ts) t =
    drains senders locked batch_size ts (drain_at senders locked batch_size now t)

-- Each time is at least 300 seconds after the one before it.
abbrev pub Spaced : ℕ → List ℕ → Type 0
Spaced from [] = Unit
Spaced from (now ∷ ts) = (from ≤ now) × Spaced (now + 300) ts

-- The row with this id is a dead letter, which was tried ten times.
abbrev pub DeadLetter : ℕ → Table → Type 0
DeadLetter id t = (r : OutboxEvent) × HasRow id r t × (r.status ≡ failed) × (r.attempts ≡ 10)

-- `event.save(update_fields=[...])` after the replay's assignments.
abbrev pub replayed : OutboxEvent → OutboxEvent → OutboxEvent
replayed again r = record r {
  status = again.status;
  attempts = again.attempts;
  next_attempt_at = again.next_attempt_at;
  dispatched_at = again.dispatched_at;
  last_error = again.last_error;
}

abbrev pub save : OutboxEvent → Table → Table
save again t = update_where (λ r. r.id == again.id) (replayed again) t

-- A dead letter can be replayed, which makes it an event without attempts, and in the table where it
-- is saved, if the rows all fit in a batch, the next drain that finds it not locked delivers it if
-- sending it works again.
pub replay_redelivers :
    (senders : Senders) (locked : ℕ → Bool) (batch_size now now' : ℕ) (r : OutboxEvent) (t : Table)
    → send senders r ≡ none
    → now ≤ now'
    → r.status ≡ failed
    → locked r.id ≡ false
    → length t ≤ batch_size
    → HasRow r.id r t
    → (again r' : OutboxEvent) × (replay_dead_letter_outbox_event now r ≡ ok again)
      × (again.attempts ≡ 0)
      × HasRow r.id r' (drain_at senders locked batch_size now' (save again t))
      × (r'.status ≡ dispatched)
      × (r'.dispatched_at ≡ some now')
unfolding replay_dead_letter_outbox_event is_failed send
replay_redelivers senders locked batch_size now now' r t up q p l fits h =
    let again : OutboxEvent = record r {
      status = pending;
      attempts = 0;
      next_attempt_at = now;
      dispatched_at = none;
      last_error = [];
    } in
    let dead : is_failed r.status ≡ true = ap is_failed p in
    let self : r.id == r.id ≡ true = (==_iff r.id r.id).1 refl in
    let saved : HasRow r.id again (save again t) =
      HasRow-updated r.id (λ x. x.id == r.id) (replayed again) r t (λ x. refl) self h in
    let size : length (save again t) ≡ length t =
      length-update_where (λ x. x.id == again.id) (replayed again) t in
    let drained =
      HasRow-drain senders locked batch_size now' again (save again t) refl q l
        (subst (λ n. n ≤ batch_size) (sym size) fits) saved in
    let (sent, when, _) =
      settled_lem now' (again.attempts + 1) none (held now' again) (omega arith) in
    (
      again,
      settled now' (again.attempts + 1) none (held now' again),
      rw dead refl,
      refl,
      subst
          (λ o.
            HasRow r.id (settled now' (again.attempts + 1) o (held now' again))
              (drain_at senders locked batch_size now' (save again t)))
          up drained,
      sent,
      when,
    )
