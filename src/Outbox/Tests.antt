-- ===== src/Outbox/Tests.antt =====
-- Tests and instances for apps/core/outbox.py.
use multilingual_task_api.Prelude.{
  ℕ, ◌+◌, ◌≤◌, ◌≡◌, refl, Bool, false, not, some, none, List, [], ◌∷◌, arith, length, filter, All,
  inl, inr, max, ok, err, value_error,
}
use multilingual_task_api.PyText.{codes, text_eq}
use multilingual_task_api.Outbox.{
  OutboxEvent, Table, dispatched, failed, is_in, ids_of, is_dispatched, new_event,
  enqueue_outbox_event, claim, reclaim, Senders, send, backoff, relay_event, drain_outbox_batch,
  replay_dead_letter_outbox_event, prune_outbox,
}
use multilingual_task_api.Outbox.Claims.{claim_exclusive}
use multilingual_task_api.Outbox.Relays.{find, Settles, relay-Settles, drain_accounts}
use multilingual_task_api.Outbox.Lifecycle.{save, replay_redelivers}
use multilingual_task_api.Outbox.Rows.{HasRow}
use multilingual_task_api.Outbox.Drains.{drain_at}
use multilingual_task_api.Outbox.History.{
  LoggedDelivery, prune_deliveries, prune_outbox_and_webhook_history, history_spares,
}

-- All senders return, or all raise "down".
abbrev working : Senders
working = record {
  dispatch_organization_webhooks = λ _ _ _. none;
  publish_task_event = λ _ _ _. none;
}

abbrev broken : Senders
broken = record {
  dispatch_organization_webhooks = λ _ _ _. some (codes "down");
  publish_task_event = λ _ _ _. some (codes "down");
}

abbrev event_at : ℕ → ℕ → OutboxEvent
event_at id now =
    new_event id now (some (codes "acme")) (codes "task.created") [] (codes "webhook") []

abbrev two : Table
two = event_at 1 100 ∷ event_at 2 90 ∷ []

abbrev no_locks : ℕ → Bool
no_locks _ = false

older_first : ids_of (claim no_locks 5 none 100 two).0 ≡ 2 ∷ 1 ∷ []
unfolding claim
older_first = refl

skips_locked : ids_of (claim (λ i. is_in (2 ∷ []) i) 5 none 100 two).0 ≡ 1 ∷ []
unfolding claim
skips_locked = refl

global_webhook_skipped :
    (enqueue_outbox_event 3 100 (some (codes "global")) [] [] (codes "webhook") [] two).0 ≡ none
unfolding enqueue_outbox_event text_eq
global_webhook_skipped = refl

delays : backoff 1 ∷ backoff 3 ∷ backoff 6 ∷ backoff 9 ∷ [] ≡ 10 ∷ 40 ∷ 300 ∷ 300 ∷ []
unfolding backoff
delays = refl

claim_exclusive_example :
    let (events, t') = claim no_locks 1 none 100 (reclaim 100 two) in
    All (λ r. is_in (ids_of events) r.id ≡ false) (claim no_locks 5 (some 2) 399 (reclaim 399 t')).0
claim_exclusive_example =
    claim_exclusive no_locks no_locks 1 5 none (some 2) 100 399 two (omega arith)

relay-Settles_example :
    let (t', _) =
      relay_event broken 105
        (event_at 1 100)
        (two, record { claimed = 2; dispatched = 0; retried = 0; failed = 0 }) in
    (r' : OutboxEvent) × (find 1 t' ≡ some r')
    × Settles 105 1 (send broken (event_at 1 100)) (event_at 1 100) r'
    × (find 2 t' ≡ find 2 two)
relay-Settles_example =
    relay-Settles broken 105 2 (event_at 1 100) (event_at 1 100) two
      (record { claimed = 2; dispatched = 0; retried = 0; failed = 0 }) refl
      (λ e. absurd (omega arith))

drain_of_one :
    let (_, n) = drain_outbox_batch working (λ _. 101) no_locks 1 none 100 two in
    (n.dispatched + n.retried + n.failed ≡ n.claimed) × (n.claimed ≤ max 1 1)
drain_of_one = drain_accounts working (λ _. 101) no_locks 1 none 100 two

abbrev ten_times : List ℕ
ten_times = 100 ∷ 400 ∷ 700 ∷ 1000 ∷ 1300 ∷ 1600 ∷ 1900 ∷ 2200 ∷ 2500 ∷ 2800 ∷ []

working_returns : (r : OutboxEvent) → r.topic ≡ codes "webhook" → send working r ≡ none
unfolding send text_eq
working_returns r e = rw e refl

abbrev dead : OutboxEvent
dead = record (event_at 1 100) { status = failed; attempts = 10 }

replay_redelivers_example :
    (again r' : OutboxEvent) × (replay_dead_letter_outbox_event 5000 dead ≡ ok again)
    × (again.attempts ≡ 0)
    × HasRow 1 r' (drain_at working no_locks 50 5001 (save again (event_at 2 90 ∷ dead ∷ [])))
    × (r'.status ≡ dispatched)
    × (r'.dispatched_at ≡ some 5001)
replay_redelivers_example =
    replay_redelivers working no_locks 50 5000 5001 dead (event_at 2 90 ∷ dead ∷ [])
      (working_returns dead refl) (omega arith) refl refl (omega arith)
      (inr (refl, inl (refl, refl, tt)))

replay_refused : replay_dead_letter_outbox_event 5000 (event_at 1 100) ≡ err value_error
unfolding replay_dead_letter_outbox_event
replay_refused = refl

abbrev sent_at : ℕ → ℕ → OutboxEvent
sent_at id now = record (event_at id now) { status = dispatched; dispatched_at = some now }

abbrev log : List LoggedDelivery
log = record { id = 1; delivered_at = 50 } ∷ record { id = 2; delivered_at = 89000 } ∷ []

history_spares_example :
    let ((left, deleted), (log', dropped)) =
      prune_outbox_and_webhook_history
        (some 1)
        14
        none
        1
        1
        2
        90000
        (sent_at 1 100 ∷ dead ∷ sent_at 2 89000 ∷ [])
        log in
    (filter (λ r. not (is_dispatched r.status)) left
      ≡ filter (λ r. not (is_dispatched r.status)) (sent_at 1 100 ∷ dead ∷ sent_at 2 89000 ∷ []))
    × (length left + deleted ≡ 3)
    × (length log' + dropped ≡ 2)
history_spares_example =
    history_spares (some 1) 14 none 1 1 2 90000 (sent_at 1 100 ∷ dead ∷ sent_at 2 89000 ∷ []) log

pruned_log : (prune_deliveries 2 3600 1 log).1 ≡ 1
unfolding prune_deliveries
pruned_log = refl

pruned_one : (prune_outbox 1 1 2 90000 (sent_at 1 100 ∷ dead ∷ sent_at 2 89000 ∷ [])).1 ≡ 1
unfolding prune_outbox
pruned_one = refl
