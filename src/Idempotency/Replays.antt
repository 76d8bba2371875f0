-- ===== src/Idempotency/Replays.antt =====
-- What apps/core/idempotency.py answers to a request that was completed before.
use multilingual_task_api.Prelude.{
  ◌≡◌, ◌≢◌, refl, sym, ap, ◌∙◌, Bool, true, false, some, none, Bool-cases, inl, inr,
}
use multilingual_task_api.PyText.{Text, codes, strip, upper, text_eq}
use multilingual_task_api.PyText.Hex.{text_eq_iff}
use multilingual_task_api.Cache.{CacheApi}
use multilingual_task_api.Merkle.{Sha256}
use multilingual_task_api.Merkle.Sound.{hexdigest-injective}
use multilingual_task_api.Idempotency.{
  Request, Response, Record, IdempotencyKey, record_key, lock_key, IdempotencyValue, completed,
  lock, Meta, payload_mismatch, refused, replay, proceed, is_valid_idempotency_key, is_excluded,
  replay_of, sha_hex, key_digest, process_request, process_response, is_storable, take_lock, decide,
  completed_of,
}

-- The request is a POST with this header, a valid key, and a path that is not excluded.
abbrev pub IsGuarded : Request → Text → Type 0
IsGuarded q raw_key =
    (text_eq (upper q.method) (codes "POST") ≡ true)
    × (q.idempotency_key ≡ some raw_key)
    × (is_valid_idempotency_key (strip raw_key) ≡ true)
    × (is_excluded q.path ≡ false)

abbrev pub first_answer : Response → Response
first_answer resp = record resp { replayed = some false }

abbrev pub replayed_answer : Response → Response
replayed_answer resp = record resp { streaming = false; replayed = some true }

module _ (sha : Sha256) where
  abbrev pub meta_of : Request → Text → Meta
  meta_of q raw_key = record {
    key_digest = key_digest sha q (strip raw_key);
    body_hash = sha_hex sha q.body;
  }

  abbrev pub with_body : Text → Request → Request
  with_body b q = record q { body = b }

  module _ (cache : CacheApi IdempotencyKey IdempotencyValue) where
    pub process_guarded :
        (q : Request) (raw_key : Text) (s : cache.Store)
        → IsGuarded q raw_key
        → let m = meta_of q raw_key in
          process_request sha cache q s
          ≡ decide sha cache m (completed_of (cache.get (record_key m.key_digest) s)) s
    unfolding process_request
    process_guarded q raw_key s (post, given, valid, included) =
        rw (post, given) (rw (valid, included) refl)

    -- Under the request's key the cache has the completed request of this body's hash.
    abbrev pub IsCompleted : Request → Text → Record → cache.Store → Type 0
    IsCompleted q raw_key r s =
        (cache.get (record_key (key_digest sha q (strip raw_key))) s ≡ some (completed r))
        × (r.body_hash ≡ sha_hex sha q.body)

    replay-IsCompleted :
        (q : Request) (raw_key : Text) (r : Record) (s : cache.Store)
        → IsGuarded q raw_key
        → IsCompleted q raw_key r s
        → process_request sha cache q s ≡ (replay (replay_of r), s)
    unfolding decide completed_of
    replay-IsCompleted q raw_key r s g (found, same) =
        let hit = (text_eq_iff r.body_hash (sha_hex sha q.body)).1 same in
        process_guarded q raw_key s g
        ∙ ap (λ v. decide sha cache (meta_of q raw_key) (completed_of v) s) found
        ∙ rw hit refl

    -- A key that was used for a completed request answers 422 to a request with another body, if the
    -- digests of the two bodies differ, and the cache does not change.
    pub payload_guarded :
        (q : Request) (raw_key b : Text) (r : Record) (s : cache.Store)
        → IsGuarded q raw_key
        → IsCompleted q raw_key r s
        → sha.digest b ≢ sha.digest q.body
        → process_request sha cache (with_body b q) s ≡ (refused payload_mismatch, s)
    unfolding decide key_digest completed_of sha_hex
    payload_guarded q raw_key b r s g (found, same) differ =
        elim (Bool-cases (text_eq r.body_hash (sha_hex sha b))) [
          | inl e ↦ absurd (
              differ (
                hexdigest-injective sha (sha.digest b) (sha.digest q.body) (sha.digest-IsHash b)
                  (sha.digest-IsHash q.body)
                  (sym ((text_eq_iff r.body_hash (sha_hex sha b)).0 e) ∙ same)))
          | inr e ↦
              process_guarded (with_body b q) raw_key s g
              ∙ ap (λ v. decide sha cache (meta_of (with_body b q) raw_key) (completed_of v) s)
                  found
              ∙ rw e refl
        ]

    -- A guarded request whose key is new takes the lock.
    abbrev pub IsNew : Request → Text → cache.Store → Type 0
    IsNew q raw_key s =
        (cache.get (record_key (key_digest sha q (strip raw_key))) s ≡ none)
        × (cache.get (lock_key (key_digest sha q (strip raw_key))) s ≡ none)

    abbrev pub locked : Request → Text → cache.Store → cache.Store
    locked q raw_key s =
        let m = meta_of q raw_key in cache.set (lock_key m.key_digest) (lock m.body_hash) s

    pub process_new :
        (q : Request) (raw_key : Text) (s : cache.Store)
        → IsGuarded q raw_key
        → IsNew q raw_key s
        → process_request sha cache q s ≡ (proceed (meta_of q raw_key), locked q raw_key s)
    unfolding decide completed_of take_lock
    process_new q raw_key s g (no_record, no_lock) =
        let m = meta_of q raw_key in
        process_guarded q raw_key s g
        ∙ ap (λ v. decide sha cache m (completed_of v) s) no_record
        ∙ rw (cache.add_free (lock_key m.key_digest) (lock m.body_hash) s no_lock) refl

    pub keys_differ : (d : Text) → lock_key d ≢ record_key d
    keys_differ d e = absurd (cc)

    -- A new request is let through; its answer, if it is a complete JSON answer of status 2xx, is
    -- stored and marked as not replayed; and the same request that comes then gets the same status,
    -- content type and content from the cache, marked as replayed, without a change of the cache.
    pub replay_round_trip :
        (is_json : Text → Bool) (q : Request) (raw_key : Text) (resp : Response) (s : cache.Store)
        → IsGuarded q raw_key
        → IsNew q raw_key s
        → is_storable is_json resp ≡ true
        → let (_, s') = process_request sha cache q s in
          let (answer, s2) =
            process_response sha cache is_json true (some (meta_of q raw_key)) resp s' in
          ((process_request sha cache q s).0 ≡ proceed (meta_of q raw_key))
          × (answer ≡ first_answer resp)
          × (process_request sha cache q s2 ≡ (replay (replayed_answer resp), s2))
    unfolding process_response replay_of
    replay_round_trip is_json q raw_key resp s g n ok =
        let m = meta_of q raw_key in
        let r : Record = record {
          status = resp.status;
          content_type = resp.content_type;
          body = resp.content;
          body_hash = m.body_hash;
        } in
        let s' = (process_request sha cache q s).1 in
        let s2 =
          cache.delete (lock_key m.key_digest)
            (cache.set (record_key m.key_digest) (completed r) s') in
        let found : cache.get (record_key m.key_digest) s2 ≡ some (completed r) =
          cache.get-delete_ne (lock_key m.key_digest) (record_key m.key_digest)
            (cache.set (record_key m.key_digest) (completed r) s') (keys_differ m.key_digest)
          ∙ cache.get-set_self (record_key m.key_digest) (completed r) s' in
        rw ok (
          ap (λ d. d.0) (process_new q raw_key s g n),
          refl,
          replay-IsCompleted q raw_key r s2 g (found, refl),
        )
