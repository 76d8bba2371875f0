-- ===== src/Idempotency.antt =====
-- apps/core/idempotency.py: the middleware that answers a repeated POST request from the cache. Texts
-- are ASCII, so that a text is its own encoding; SHA-256 and the test that `json.loads` accepts a
-- text are parameters.
pub mod Replays
pub mod Locks
pub mod Tests
use multilingual_task_api.Prelude.{
  ℕ, ◌+◌, Bool, true, false, not, ◌&&◌, ◌||◌, Option, some, none, List, [], ◌∷◌, ◌++◌, leb, ltb,
  ◌==◌, if◌then◌else◌, length, take,
}
use multilingual_task_api.PyText.{
  Text, codes, strip, upper, text_eq, starts_with, contains, hexdigest,
}
use multilingual_task_api.Cache.{CacheApi}
use multilingual_task_api.Merkle.{Sha256}

-- What the middleware reads of a request. `user_id` is empty for a user who is not authenticated;
-- a header that is missing is empty, but the key's is told apart.
pub record Request : Type 0 where
  pub method : Text
  pub path : Text
  pub body : Text
  pub user_id : Text
  pub authorization : Text
  pub api_key : Text
  pub organization_id : Text
  pub idempotency_key : Option Text

-- `replayed` is the header X-Idempotency-Replayed.
pub record Response : Type 0 where
  pub status : ℕ
  pub content_type : Text
  pub streaming : Bool
  pub content : Text
  pub replayed : Option Bool

-- The dict that is stored for a completed request.
pub record Record : Type 0 where
  pub status : ℕ
  pub content_type : Text
  pub body : Text
  pub body_hash : Text

pub data IdempotencyKey : Type 0 where
  record_key lock_key : Text → IdempotencyKey

pub data IdempotencyValue : Type 0 where
  completed : Record → IdempotencyValue
  lock : Text → IdempotencyValue

-- `request._idempotency_meta`; both keys are made of one digest.
pub record Meta : Type 0 where
  pub key_digest : Text
  pub body_hash : Text

-- The answers of the middleware's own: 400, 422 and 409.
pub data Refusal : Type 0 where
  invalid_key payload_mismatch conflict : Refusal

pub data Decision : Type 0 where
  untouched : Decision
  refused : Refusal → Decision
  replay : Response → Decision
  proceed : Meta → Decision

unfoldable pub refusal_status : Refusal → ℕ
refusal_status invalid_key = 400
refusal_status payload_mismatch = 422
refusal_status conflict = 409

all_printable : Text → Bool
all_printable [] = true
all_printable (c ∷ t) = (leb 32 c && leb c 126) && all_printable t

-- `_is_valid_idempotency_key`
unfoldable pub is_valid_idempotency_key : Text → Bool
unfolding all_printable
is_valid_idempotency_key key =
    if length key == 0 || ltb 128 (length key) then false else all_printable key

-- EXCLUDED_PREFIXES
unfoldable pub is_excluded : Text → Bool
is_excluded path = starts_with path (codes "/api/v1/auth/") || starts_with path (codes "/graphql")

unfoldable pub completed_of : Option IdempotencyValue → Option Record
completed_of (some (completed r)) = some r
completed_of _ = none

unfoldable pub replay_of : Record → Response
replay_of r = record {
  status = r.status;
  content_type = r.content_type;
  streaming = false;
  content = r.body;
  replayed = some true;
}

-- Whether a response is stored: a complete JSON answer of status 2xx.
unfoldable pub is_storable : (Text → Bool) → Response → Bool
is_storable is_json resp =
    not resp.streaming
    && (leb 200 resp.status && ltb resp.status 300)
    && contains (codes "application/json") resp.content_type
    && is_json resp.content

module _ (sha : Sha256) where
  unfoldable pub sha_hex : Text → Text
  sha_hex t = hexdigest (sha.digest t)

  -- `_principal_fingerprint`
  unfoldable pub principal_fingerprint : Request → Text
  unfolding sha_hex
  principal_fingerprint q = take 20 (
      sha_hex (
        q.user_id
        ++ codes "|"
        ++ q.authorization
        ++ codes "|"
        ++ q.api_key
        ++ codes "|"
        ++ q.organization_id))

  unfoldable pub key_digest : Request → Text → Text
  unfolding sha_hex principal_fingerprint
  key_digest q cleaned_key =
      take 32 (sha_hex (principal_fingerprint q ++ codes ":" ++ q.path ++ codes ":" ++ cleaned_key))

  module _ (cache : CacheApi IdempotencyKey IdempotencyValue) where
    -- From `cache.add` on: the lock is taken, or the request is refused.
    unfoldable pub take_lock : Meta → cache.Store → Decision × cache.Store
    take_lock m s =
        let (added, s') = cache.add (lock_key m.key_digest) (lock m.body_hash) s in
        (if added then proceed m else refused conflict, s')

    unfoldable pub decide : Meta → Option Record → cache.Store → Decision × cache.Store
    unfolding take_lock
    decide m (some r) s = (
      if text_eq r.body_hash m.body_hash then replay (replay_of r) else refused payload_mismatch,
      s,
    )
    decide m none s = take_lock m s

    keyed : Request → Text → cache.Store → Decision × cache.Store
    keyed q cleaned_key s =
        if not (is_valid_idempotency_key cleaned_key)
        then (refused invalid_key, s)
        else if is_excluded q.path
        then (untouched, s)
        else (let m : Meta = record {
          key_digest = key_digest q cleaned_key;
          body_hash = sha_hex q.body;
        } in
            decide m (completed_of (cache.get (record_key m.key_digest) s)) s)

    with_key : Request → Option Text → cache.Store → Decision × cache.Store
    with_key q none s = (untouched, s)
    with_key q (some raw_key) s = keyed q (strip raw_key) s

    -- `process_request`
    unfoldable pub process_request : Request → cache.Store → Decision × cache.Store
    unfolding with_key keyed decide completed_of take_lock
    process_request q s =
        if not (text_eq (upper q.method) (codes "POST"))
        then (untouched, s)
        else with_key q q.idempotency_key s

    -- `process_response`; `set_works` tells whether `cache.set` returns or raises.
    unfoldable pub process_response :
        (Text → Bool) → Bool → Option Meta → Response → cache.Store → Response × cache.Store
    unfolding is_storable
    process_response is_json set_works none resp s = (resp, s)
    process_response is_json set_works (some m) resp s =
        if is_storable is_json resp && set_works
        then (
          record resp { replayed = some false },
          cache.delete (lock_key m.key_digest) (
              cache.set (record_key m.key_digest)
                (completed (record {
                  status = resp.status;
                  content_type = resp.content_type;
                  body = resp.content;
                  body_hash = m.body_hash;
                }))
                s),
        )
        else (resp, cache.delete (lock_key m.key_digest) s)
