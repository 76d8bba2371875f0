-- ===== src/Outbox.antt =====
-- apps/core/outbox.py: the transactional outbox. The table is the list of its rows; a query by
-- `filter(...).update(...)` acts on every row that meets the condition. What happens when an event is
-- sent is a parameter, the text of the exception that it raises, if any. Times are in seconds.
pub mod Claims
pub mod Relays
pub mod Rows
pub mod Drains
pub mod Lifecycle
pub mod Prunes
pub mod History
pub mod Tests
use multilingual_task_api.Prelude.{
  ℕ, zero, suc, ◌+◌, ◌-◌, ◌*◌, ◌^◌, min, max, Bool, true, false, not, ◌&&◌, ◌||◌, Option, some,
  none, List, [], ◌∷◌, ◌++◌, map, leb, ◌==◌, if◌then◌else◌, length, take, filter, sort_by, Outcome,
  ok, err, value_error,
}
use multilingual_task_api.PyText.{Text, codes, text_eq}

pub data Status : Type 0 where
  pending processing dispatched failed : Status

-- The columns of `OutboxEvent`; the payload stands as its JSON text.
pub record OutboxEvent : Type 0 where
  pub id : ℕ
  pub organization : Option Text
  pub topic : Text
  pub event_type : Text
  pub payload : Text
  pub traceparent : Text
  pub status : Status
  pub attempts : ℕ
  pub next_attempt_at : ℕ
  pub dispatched_at : Option ℕ
  pub last_error : Text
  pub created_at : ℕ

abbrev pub Table : Type 0
Table = List OutboxEvent

abbrev pub max_outbox_attempts : ℕ
max_outbox_attempts = 10

abbrev pub stale_processing_seconds : ℕ
stale_processing_seconds = 300

unfoldable pub is_pending : Status → Bool
is_pending pending = true
is_pending _ = false

unfoldable pub is_processing : Status → Bool
is_processing processing = true
is_processing _ = false

unfoldable pub is_dispatched : Status → Bool
is_dispatched dispatched = true
is_dispatched _ = false

unfoldable pub is_failed : Status → Bool
is_failed failed = true
is_failed _ = false

-- `filter(...).update(...)`
abbrev pub update_where : (OutboxEvent → Bool) → (OutboxEvent → OutboxEvent) → Table → Table
update_where p f [] = []
update_where p f (r ∷ t) = (if p r then f r else r) ∷ update_where p f t

abbrev pub is_in : List ℕ → ℕ → Bool
is_in [] i = false
is_in (j ∷ is) i = j == i || is_in is i

-- The organization that is stored: an empty one and "global" count as none.
unfoldable pub normalized_org_id : Option Text → Option Text
normalized_org_id none = none
normalized_org_id (some []) = none
normalized_org_id (some (c ∷ t)) = if text_eq (c ∷ t) (codes "global") then none else some (c ∷ t)

lacks : Option Text → Bool
lacks none = true
lacks (some _) = false

abbrev pub new_event : ℕ → ℕ → Option Text → Text → Text → Text → Text → OutboxEvent
new_event id now org event_type payload topic traceparent = record {
  id = id;
  organization = org;
  topic = topic;
  event_type = event_type;
  payload = payload;
  traceparent = traceparent;
  status = pending;
  attempts = 0;
  next_attempt_at = now;
  dispatched_at = none;
  last_error = [];
  created_at = now;
}

-- `enqueue_outbox_event`: the row, if there is one, and the table with it. The id of the row and the
-- trace context are given; a relay of the row is then scheduled for the commit.
unfoldable pub enqueue_outbox_event :
    ℕ → ℕ → Option Text → Text → Text → Text → Text → Table → Option OutboxEvent × Table
unfolding normalized_org_id lacks
enqueue_outbox_event id now org event_type payload topic traceparent t =
    let org_id = normalized_org_id org in
    let event = new_event id now org_id event_type payload topic traceparent in
    if text_eq topic (codes "webhook") && lacks org_id
    then (none, t)
    else (some event, t ++ event ∷ [])

-- Rows in processing whose time is up go back to pending.
unfoldable pub reclaim : ℕ → Table → Table
unfolding is_processing
reclaim now t =
    update_where (λ r. is_processing r.status && leb r.next_attempt_at now)
      (λ r. record r { status = pending }) t

asked_for : Option ℕ → ℕ → Bool
asked_for none i = true
asked_for (some e) i = i == e

-- The rows of the claiming query. `locked` tells the rows that other transactions hold, which
-- SKIP LOCKED leaves out.
unfoldable pub is_claimable : (ℕ → Bool) → Option ℕ → ℕ → OutboxEvent → Bool
unfolding is_pending asked_for
is_claimable locked event_id now r =
    is_pending r.status && leb r.next_attempt_at now && asked_for event_id r.id && not (locked r.id)

abbrev pub ids_of : Table → List ℕ
ids_of t = map (λ r. r.id) t

-- The first transaction of `drain_outbox_batch`: the rows as they were read, and the table in which
-- they are claimed.
unfoldable pub claim : (ℕ → Bool) → ℕ → Option ℕ → ℕ → Table → List OutboxEvent × Table
unfolding is_claimable
claim locked batch_size event_id now t =
    let claimed =
      take (max 1 batch_size)
        (sort_by (λ r. r.created_at) (filter (is_claimable locked event_id now) t)) in
    (
      claimed,
      update_where (λ r. is_in (ids_of claimed) r.id)
          (λ r. record r {
            status = processing;
            attempts = r.attempts + 1;
            next_attempt_at = now + stale_processing_seconds;
          })
          t,
    )

-- The senders that the relay calls; each raises with a text, or returns. The choice of action and
-- data from the payload of a pub/sub event is left to `publish_task_event`.
pub record Senders : Type 0 where
  pub dispatch_organization_webhooks : Option Text → Text → Text → Option Text
  pub publish_task_event : Text → Text → Text → Option Text

org_scope : Option Text → Text
org_scope none = codes "global"
org_scope (some org) = org

-- The `try` block, by topic: the text of the exception, if one is raised.
unfoldable pub send : Senders → OutboxEvent → Option Text
unfolding org_scope
send senders ev =
    if text_eq ev.topic (codes "webhook")
    then senders.dispatch_organization_webhooks ev.organization ev.event_type ev.payload
    else if text_eq ev.topic (codes "pubsub")
    then senders.publish_task_event (org_scope ev.organization) ev.event_type ev.payload
    else some (codes "Unsupported outbox topic '" ++ ev.topic ++ codes "'")

-- `min(300, 5 * (2 ** min(attempt_number, 6)))`
unfoldable pub backoff : ℕ → ℕ
backoff attempt_number = min 300 (5 * 2 ^ min attempt_number 6)

-- The dict that `drain_outbox_batch` returns.
pub record Tally : Type 0 where
  pub claimed : ℕ
  pub dispatched : ℕ
  pub retried : ℕ
  pub failed : ℕ

-- What a row becomes after the attempt: sent, put off, or moved to the dead letters.
unfoldable pub settled : ℕ → ℕ → Option Text → OutboxEvent → OutboxEvent
unfolding backoff
settled at attempt_number none r = record r {
  status = dispatched;
  dispatched_at = some at;
  last_error = [];
}
settled at attempt_number (some exc) r =
    if leb max_outbox_attempts attempt_number
    then record r { status = failed; last_error = take 450 exc }
    else record r {
      status = pending;
      next_attempt_at = at + backoff attempt_number;
      last_error = take 450 exc;
    }

unfoldable pub count_up : ℕ → Option Text → Tally → Tally
count_up attempt_number none n = record n { dispatched = n.dispatched + 1 }
count_up attempt_number (some exc) n =
    if leb max_outbox_attempts attempt_number
    then record n { failed = n.failed + 1 }
    else record n { retried = n.retried + 1 }

-- One round of the loop over the claimed events; `at` is the time when it updates the row.
unfoldable pub relay_event : Senders → ℕ → OutboxEvent → Table × Tally → Table × Tally
unfolding send settled count_up
relay_event senders at ev (t, n) =
    let attempt_number = ev.attempts + 1 in
    let outcome = send senders ev in
    (
      update_where (λ r. r.id == ev.id) (settled at attempt_number outcome) t,
      count_up attempt_number outcome n,
    )

unfoldable pub relay_all :
    Senders → (OutboxEvent → ℕ) → List OutboxEvent → Table × Tally → Table × Tally
unfolding relay_event
relay_all senders clock [] tn = tn
relay_all senders clock (ev ∷ evs) tn =
    relay_all senders clock evs (relay_event senders (clock ev) ev tn)

-- `drain_outbox_batch`; `clock` gives the time at which each event is settled.
unfoldable pub drain_outbox_batch :
    Senders → (OutboxEvent → ℕ) → (ℕ → Bool) → ℕ → Option ℕ → ℕ → Table → Table × Tally
unfolding reclaim claim relay_all
drain_outbox_batch senders clock locked batch_size event_id now t =
    let (events, t') = claim locked batch_size event_id now (reclaim now t) in
    relay_all senders clock events
      (t', record { claimed = length events; dispatched = 0; retried = 0; failed = 0 })

-- `replay_dead_letter_outbox_event`, on the row; its relay is then scheduled for the commit.
unfoldable pub replay_dead_letter_outbox_event : ℕ → OutboxEvent → Outcome OutboxEvent
unfolding is_failed
replay_dead_letter_outbox_event now event =
    if not (is_failed event.status)
    then err value_error
    else ok (record event {
      status = pending;
      attempts = 0;
      next_attempt_at = now;
      dispatched_at = none;
      last_error = [];
    })

dispatched_by : Option ℕ → ℕ → Bool
dispatched_by none cutoff = false
dispatched_by (some d) cutoff = leb d cutoff

dispatch_time : Option ℕ → ℕ
dispatch_time none = 0
dispatch_time (some d) = d

unfoldable pub is_aged : ℕ → OutboxEvent → Bool
unfolding is_dispatched dispatched_by
is_aged cutoff r = is_dispatched r.status && dispatched_by r.dispatched_at cutoff

-- One chunk of the first loop of `prune_outbox_and_webhook_history`: the ids it finds, and the rows
-- that its deletion leaves.
unfoldable pub aged_ids : ℕ → ℕ → Table → List ℕ
unfolding is_aged dispatch_time
aged_ids cutoff chunk t =
    ids_of (take chunk (sort_by (λ r. dispatch_time r.dispatched_at) (filter (is_aged cutoff) t)))

unfoldable pub delete_batch : List ℕ → Table → Table
unfolding is_dispatched
delete_batch batch_ids t = filter (λ r. not (is_in batch_ids r.id && is_dispatched r.status)) t

-- The loop: the rows that are left, and how many were deleted.
unfoldable pub prune_chunks : ℕ → ℕ → ℕ → Table → Table × ℕ
unfolding aged_ids delete_batch
prune_chunks zero cutoff chunk t = (t, 0)
prune_chunks (suc f) cutoff chunk t =
    let batch_ids = aged_ids cutoff chunk t in
    let t' = delete_batch batch_ids t in
    let (left, deleted) = prune_chunks f cutoff chunk t' in
    if length batch_ids == 0
    then (t, 0)
    else if leb chunk (length batch_ids)
    then (left, length t - length t' + deleted)
    else (t', length t - length t')

-- The outbox half of `prune_outbox_and_webhook_history`, for sizes and days that are
-- not negative, and a time since which so many days have passed.
unfoldable pub prune_outbox : ℕ → ℕ → ℕ → ℕ → Table → Table × ℕ
unfolding prune_chunks
prune_outbox retention_days chunk_size max_chunks now t =
    prune_chunks (max 1 max_chunks) (now - retention_days * 86400) (max 1 chunk_size) t
