-- ===== src/Webhooks/Deliveries.antt =====
-- Deliveries and dispatch of apps/core/webhooks.py.
use multilingual_task_api.Prelude.{
  ℕ, suc, ◌+◌, ◌≡◌, refl, sym, ap, ◌∙◌, Bool, true, false, some, List, [], ◌∷◌, ◌++◌, arith,
  append_assoc, append-nil, Bool-cases, inl, inr, ◌⊎◌, ltb, length, All, ◌==◌, Outcome, ok, err,
  runtime_error, filter, ◌||◌,
}
use multilingual_task_api.PyText.{Text, codes, text_eq}
use multilingual_task_api.Webhooks.{
  WebhookEndpoint, settle_endpoint, matching_ids, enqueue_all, dispatch_organization_webhooks,
}

-- Deliveries at these times that all fail.
abbrev pub fail_at : List ℕ → WebhookEndpoint → WebhookEndpoint
fail_at [] e = e
fail_at (now ∷ ts) e = fail_at ts (settle_endpoint now false e)

fail_at_lem :
    (ts : List ℕ) (e : WebhookEndpoint)
    → e.is_active ≡ ltb e.failure_count 10
    → ((fail_at ts e).failure_count ≡ e.failure_count + length ts)
      × ((fail_at ts e).is_active ≡ ltb (e.failure_count + length ts) 10)
unfolding settle_endpoint
fail_at_lem [] e h = (omega arith, h ∙ ap (λ n. ltb n 10) (omega arith))
fail_at_lem (now ∷ ts) e h =
    let e' = settle_endpoint now false e in
    let kept : e'.is_active ≡ ltb (e.failure_count + 1) 10 = ground arith in
    let (count, active) = fail_at_lem ts e' kept in
    let shifted : e.failure_count + 1 + length ts ≡ e.failure_count + suc (length ts) =
      omega arith in
    (count ∙ shifted, active ∙ ap (λ n. ltb n 10) shifted)

-- After a success, deliveries that fail one after the other deactivate an active endpoint exactly with
-- the tenth; a success in between starts the count again.
pub deactivated_at_ten :
    (ts : List ℕ) (now : ℕ) (e : WebhookEndpoint)
    → e.is_active ≡ true
    → let e' = fail_at ts (settle_endpoint now true e) in
      (e'.failure_count ≡ length ts) × (e'.is_active ≡ ltb (length ts) 10)
unfolding settle_endpoint
deactivated_at_ten ts now e h =
    let (count, active) = fail_at_lem ts (settle_endpoint now true e) h in
    let from_zero : 0 + length ts ≡ length ts = omega arith in
    (count ∙ from_zero, active ∙ ap (λ n. ltb n 10) from_zero)

enqueue_all_lem :
    (broker : ℕ → Bool) (queued ids : List ℕ)
    → enqueue_all broker false queued ids
      ≡ (ok (queued ++ filter broker ids), queued ++ filter broker ids)
unfolding enqueue_all
enqueue_all_lem broker queued [] = ap (λ q. (ok q, q)) (sym (append-nil queued))
enqueue_all_lem broker queued (i ∷ is) = elim (Bool-cases (broker i)) [
  | inl e ↦
      rw (enqueue_all, e)
        (enqueue_all_lem broker (queued ++ i ∷ []) is
          ∙ ap (λ q. (ok q, q)) (append_assoc queued (i ∷ []) (filter broker is)))
  | inr e ↦ rw (enqueue_all, e) (enqueue_all_lem broker queued is)
]

-- What a dispatch leaves in the queue: everything, or what stands before the first refused one.
abbrev pub Dispatched : (ℕ → Bool) → List ℕ → List ℕ → Outcome (List ℕ) × List ℕ → Type 0
Dispatched broker queued ids w =
    ((w.0 ≡ ok (queued ++ ids)) × (w.1 ≡ queued ++ ids) × All (λ i. broker i ≡ true) ids)
    ⊎ ((before : List ℕ) × (i : ℕ) × (after : List ℕ) × (ids ≡ before ++ i ∷ after)
        × (broker i ≡ false)
        × (w.0 ≡ err runtime_error)
        × (w.1 ≡ queued ++ before))

enqueue_all-Dispatched :
    (broker : ℕ → Bool) (queued ids : List ℕ)
    → Dispatched broker queued ids (enqueue_all broker true queued ids)
unfolding enqueue_all
enqueue_all-Dispatched broker queued [] =
    inl (ap ok (sym (append-nil queued)), sym (append-nil queued), tt)
enqueue_all-Dispatched broker queued (i ∷ is) = elim (Bool-cases (broker i)) [
  | inr e ↦
      let w : enqueue_all broker true queued (i ∷ is) ≡ (err runtime_error, queued) =
        rw (enqueue_all, e) refl in
      inr ([], i, is, refl, e, ap (λ r. r.0) w, ap (λ r. r.1) w ∙ sym (append-nil queued))
  | inl e ↦
      let w : enqueue_all broker true queued (i ∷ is)
          ≡ enqueue_all broker true (queued ++ i ∷ []) is =
        rw (enqueue_all, e) refl in
      elim (enqueue_all-Dispatched broker (queued ++ i ∷ []) is) [
        | inl (o, q, all) ↦ inl (
          ap (λ r. r.0) w ∙ o ∙ ap ok (append_assoc queued (i ∷ []) is),
          ap (λ r. r.1) w ∙ q ∙ append_assoc queued (i ∷ []) is,
          (e, all),
        )
        | inr (before, j, after, cut, refuses, o, q) ↦ inr (
          i ∷ before,
          j,
          after,
          ap (λ l. i ∷ l) cut,
          refuses,
          ap (λ r. r.0) w ∙ o,
          ap (λ r. r.1) w ∙ q ∙ append_assoc queued (i ∷ []) before,
        )
      ]
]

-- For an organization other than none and "global": where an error of the queue is to be raised, the
-- dispatch enqueues all matching endpoints in their order, or stops with the error at the first one
-- that the queue refuses, the earlier ones being enqueued; where it is not, exactly those that the
-- queue takes are enqueued and returned.
pub dispatch_outcomes :
    (broker : ℕ → Bool) (org event_type : Text) (endpoints : List WebhookEndpoint)
    → length org == 0 || text_eq org (codes "global") ≡ false
    → let ids = matching_ids org event_type endpoints in
      Dispatched broker [] ids
        (dispatch_organization_webhooks broker true (some org) event_type endpoints)
      × (dispatch_organization_webhooks broker false (some org) event_type endpoints
          ≡ (ok (filter broker ids), filter broker ids))
unfolding dispatch_organization_webhooks
dispatch_outcomes broker org event_type endpoints named =
    let ids = matching_ids org event_type endpoints in
    (rw named (enqueue_all-Dispatched broker [] ids), rw named (enqueue_all_lem broker [] ids))
