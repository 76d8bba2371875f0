-- ===== src/Idempotency/Locks.antt =====
-- The lock of apps/core/idempotency.py while a request is answered.
use multilingual_task_api.Prelude.{◌≡◌, refl, ap, ◌∙◌, Bool, false, ◌&&◌, some, none}
use multilingual_task_api.PyText.{Text, strip}
use multilingual_task_api.Cache.{CacheApi}
use multilingual_task_api.Merkle.{Sha256}
use multilingual_task_api.Idempotency.{
  Request, Response, IdempotencyKey, record_key, lock_key, IdempotencyValue, lock, conflict,
  refused, proceed, key_digest, process_request, process_response, is_storable, take_lock, decide,
  completed_of,
}
use multilingual_task_api.Idempotency.Replays.{
  IsGuarded, meta_of, with_body, process_guarded, IsNew, locked, process_new, keys_differ,
}

module _ (sha : Sha256) (cache : CacheApi IdempotencyKey IdempotencyValue) where
  new-record :
      (q : Request) (raw_key : Text) (s : cache.Store)
      → IsNew sha cache q raw_key s
      → cache.get (record_key (key_digest sha q (strip raw_key))) (locked sha cache q raw_key s)
        ≡ none
  new-record q raw_key s (no_record, no_lock) =
      let m = meta_of sha q raw_key in
      cache.get-set_ne (lock_key m.key_digest) (record_key m.key_digest) (lock m.body_hash) s
        (keys_differ sha cache m.key_digest)
      ∙ no_record

  pub unanswered :
      (q : Request) (raw_key : Text) (s : cache.Store)
      → IsGuarded q raw_key
      → IsNew sha cache q raw_key s
      → cache.get (record_key (key_digest sha q (strip raw_key))) (process_request sha cache q s).1
        ≡ none
  unanswered q raw_key s g n =
      ap (λ a. cache.get (record_key (key_digest sha q (strip raw_key))) a.1)
        (process_new sha cache q raw_key s g n)
      ∙ new-record q raw_key s n

  -- After a new request was let through, as long as its lock stands in the cache and no record is
  -- stored under its key, whatever else has changed there, a request under the same key, with the
  -- same or another body, gets 409 and does not change the cache.
  pub conflict_while_locked :
      (q : Request) (raw_key b : Text) (s later : cache.Store)
      → IsGuarded q raw_key
      → IsNew sha cache q raw_key s
      → let d = key_digest sha q (strip raw_key) in
        cache.get (lock_key d) later ≡ cache.get (lock_key d) (process_request sha cache q s).1
        → cache.get (record_key d) later ≡ none
        → process_request sha cache (with_body sha b q) later ≡ (refused conflict, later)
  unfolding decide completed_of take_lock key_digest
  conflict_while_locked q raw_key b s later g n stands unanswered =
      let m = meta_of sha q raw_key in
      let m' = meta_of sha (with_body sha b q) raw_key in
      let held =
        stands
        ∙ ap (λ a. cache.get (lock_key m.key_digest) a.1) (process_new sha cache q raw_key s g n)
        ∙ cache.get-set_self (lock_key m.key_digest) (lock m.body_hash) s in
      process_guarded sha cache (with_body sha b q) raw_key later g
      ∙ ap (λ v. decide sha cache m' (completed_of v) later) unanswered
      ∙ rw
          (cache.add_taken (lock_key m.key_digest) (lock m'.body_hash) (lock m.body_hash) later
            held)
          refl

  -- After an answer that is not stored the key is new again.
  released :
      (q : Request) (raw_key : Text) (s : cache.Store)
      → cache.get (record_key (key_digest sha q (strip raw_key))) s ≡ none
      → IsNew sha cache q raw_key (cache.delete (lock_key (key_digest sha q (strip raw_key))) s)
  released q raw_key s no_record =
      let d = key_digest sha q (strip raw_key) in
      (
        cache.get-delete_ne (lock_key d) (record_key d) s (keys_differ sha cache d) ∙ no_record,
        cache.get-delete_self (lock_key d) s,
      )

  -- A new request whose answer is not stored, as an error is not, is answered unchanged, and releases
  -- its lock: the same request that comes then is let through again.
  pub failure_releases :
      (is_json : Text → Bool) (set_works : Bool) (q : Request) (raw_key : Text) (resp : Response)
      (s : cache.Store)
      → IsGuarded q raw_key
      → IsNew sha cache q raw_key s
      → is_storable is_json resp && set_works ≡ false
      → let s' = (process_request sha cache q s).1 in
        let (answer, s2) =
          process_response sha cache is_json set_works (some (meta_of sha q raw_key)) resp s' in
        (answer ≡ resp) × ((process_request sha cache q s2).0 ≡ proceed (meta_of sha q raw_key))
  unfolding process_response
  failure_releases is_json set_works q raw_key resp s g n fails =
      let first = ap (λ d. d.1) (process_new sha cache q raw_key s g n) in
      let s1 = locked sha cache q raw_key s in
      let d = key_digest sha q (strip raw_key) in
      let again =
        process_new sha cache q raw_key (cache.delete (lock_key d) s1) g
          (released q raw_key s1 (new-record q raw_key s n)) in
      rw (fails, first) (refl, ap (λ a. a.0) again)

  -- The lock of a slow request expires, a second request with its key is let through, and the slow
  -- request's answer, which is not stored, then deletes the second one's lock: a third request with
  -- the key is let through while the second is still running.
  pub late_answer_unlocks :
      (is_json : Text → Bool) (set_works : Bool) (q : Request) (raw_key : Text) (resp : Response)
      (s : cache.Store)
      → IsGuarded q raw_key
      → IsNew sha cache q raw_key s
      → is_storable is_json resp && set_works ≡ false
      → let m = meta_of sha q raw_key in
        let s1 = (process_request sha cache q s).1 in
        let (second, s2) = process_request sha cache q (cache.expire (lock_key m.key_digest) s1) in
        let (_, s3) = process_response sha cache is_json set_works (some m) resp s2 in
        (second ≡ proceed m) × ((process_request sha cache q s3).0 ≡ proceed m)
  unfolding process_response
  late_answer_unlocks is_json set_works q raw_key resp s g n fails =
      let m = meta_of sha q raw_key in
      let d = m.key_digest in
      let s1 = locked sha cache q raw_key s in
      let expired = cache.expire (lock_key d) s1 in
      let n1 : IsNew sha cache q raw_key expired = (
        cache.get-expire_ne (lock_key d) (record_key d) s1 (keys_differ sha cache d)
            ∙ new-record q raw_key s n,
        cache.get-expire_self (lock_key d) s1,
      ) in
      let s2 = locked sha cache q raw_key expired in
      let third =
        process_new sha cache q raw_key (cache.delete (lock_key d) s2) g
          (released q raw_key s2 (new-record q raw_key expired n1)) in
      let first = ap (λ a. a.1) (process_new sha cache q raw_key s g n) in
      let second = process_new sha cache q raw_key expired g n1 in
      rw (fails, first, second) (refl, ap (λ a. a.0) third)
