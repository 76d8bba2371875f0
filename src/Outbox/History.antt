-- ===== src/Outbox/History.antt =====
-- The other half of `prune_outbox_and_webhook_history` in apps/core/outbox.py, the delivery log, and the
-- whole of it.
use multilingual_task_api.Prelude.{
  ℕ, zero, suc, ◌+◌, ◌-◌, ◌*◌, ◌≤◌, ◌≡◌, max, Bool, not, Option, some, none, List, [], ◌∷◌, map,
  arith, Bool-cases, inl, inr, leb, ◌==◌, if◌then◌else◌, length, take, filter, sort_by,
}
use multilingual_task_api.Outbox.{Table, is_in, is_dispatched, prune_outbox}
use multilingual_task_api.Outbox.Prunes.{prune_spares}

-- The columns of `WebhookDelivery` that pruning reads.
pub record LoggedDelivery : Type 0 where
  pub id : ℕ
  pub delivered_at : ℕ

unfoldable pub aged_deliveries : ℕ → ℕ → List LoggedDelivery → List ℕ
aged_deliveries cutoff chunk log =
    map (λ d. d.id)
      (take chunk (sort_by (λ d. d.delivered_at) (filter (λ d. leb d.delivered_at cutoff) log)))

-- The second loop: the rows that are left, and how many were deleted.
unfoldable pub prune_deliveries : ℕ → ℕ → ℕ → List LoggedDelivery → List LoggedDelivery × ℕ
unfolding aged_deliveries
prune_deliveries zero cutoff chunk log = (log, 0)
prune_deliveries (suc f) cutoff chunk log =
    let delivery_ids = aged_deliveries cutoff chunk log in
    let log' = filter (λ d. not (is_in delivery_ids d.id)) log in
    let (left, deleted) = prune_deliveries f cutoff chunk log' in
    if length delivery_ids == 0
    then (log, 0)
    else if leb chunk (length delivery_ids)
    then (left, length log - length log' + deleted)
    else (log', length log - length log')

unfoldable pub days_or : Option ℕ → ℕ → ℕ
days_or none configured = configured
days_or (some days) configured = days

-- `prune_outbox_and_webhook_history`; the configured days are those of the settings.
unfoldable pub prune_outbox_and_webhook_history :
    Option ℕ
    → ℕ
    → Option ℕ
    → ℕ
    → ℕ
    → ℕ
    → ℕ
    → Table
    → List LoggedDelivery
    → (Table × ℕ) × (List LoggedDelivery × ℕ)
unfolding prune_deliveries days_or
prune_outbox_and_webhook_history outbox_days outbox_default delivery_days delivery_default
      chunk_size max_chunks now t log =
    (
      prune_outbox (days_or outbox_days outbox_default) chunk_size max_chunks now t,
      prune_deliveries (max 1 max_chunks) (now - days_or delivery_days delivery_default * 86400)
          (max 1 chunk_size) log,
    )

filter_shorter : {A : Type 0} (p : A → Bool) (xs : List A) → length (filter p xs) ≤ length xs
filter_shorter p [] = omega arith
filter_shorter p (x ∷ xs) = ground (arith, filter_shorter p xs)

prune_deliveries_count :
    (f cutoff chunk : ℕ) (log : List LoggedDelivery)
    → let (left, deleted) = prune_deliveries f cutoff chunk log in
      length left + deleted ≡ length log
unfolding prune_deliveries
prune_deliveries_count zero cutoff chunk log = omega arith
prune_deliveries_count (suc f) cutoff chunk log =
    let ids = aged_deliveries cutoff chunk log in
    let log' = filter (λ d. not (is_in ids d.id)) log in
    let fewer = filter_shorter (λ (d : LoggedDelivery). not (is_in ids d.id)) log in
    let count = prune_deliveries_count f cutoff chunk log' in
    elim (Bool-cases (length ids == 0)) [
      | inl e ↦ rw e (omega arith)
      | inr e ↦ elim (Bool-cases (leb chunk (length ids))) [
        | inl g ↦ rw (e, g) (omega arith)
        | inr g ↦ rw (e, g) (omega arith)
      ]
    ]

-- Pruning leaves every outbox row that is pending, in processing or failed where it is, and both counts
-- that it reports are exactly the numbers of rows that are gone.
pub history_spares :
    (outbox_days : Option ℕ) (outbox_default : ℕ) (delivery_days : Option ℕ) (delivery_default : ℕ)
    (chunk_size max_chunks now : ℕ) (t : Table) (log : List LoggedDelivery)
    → let ((left, deleted), (log', dropped)) =
        prune_outbox_and_webhook_history outbox_days outbox_default delivery_days delivery_default
          chunk_size max_chunks now t log in
      (filter (λ r. not (is_dispatched r.status)) left
        ≡ filter (λ r. not (is_dispatched r.status)) t)
      × (length left + deleted ≡ length t)
      × (length log' + dropped ≡ length log)
unfolding prune_outbox_and_webhook_history
history_spares outbox_days outbox_default delivery_days delivery_default chunk_size max_chunks now t
      log =
    let (same, count) =
      prune_spares (days_or outbox_days outbox_default) chunk_size max_chunks now t in
    (
      same,
      count,
      prune_deliveries_count (max 1 max_chunks)
          (now - days_or delivery_days delivery_default * 86400) (max 1 chunk_size) log,
    )
