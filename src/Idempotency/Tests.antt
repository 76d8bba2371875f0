-- ===== src/Idempotency/Tests.antt =====
-- Tests and instances for apps/core/idempotency.py, with a checksum in place of SHA-256.
use multilingual_task_api.Prelude.{
  ℕ, ◌≢◌, ◌∷◌, [], arith, ap, ◌≡◌, refl, Bool, true, false, ◌&&◌, some, none, [], ℕ_discrete,
}
use multilingual_task_api.PyText.{Bytes, Text, codes, strip, upper, text_eq, starts_with, contains}
use multilingual_task_api.Cache.{CacheApi}
use multilingual_task_api.Cache.Table.{Table, table_cache}
use multilingual_task_api.Merkle.Tests.{toy}
use multilingual_task_api.Idempotency.{
  Request, Response, Record, IdempotencyKey, record_key, lock_key, IdempotencyValue, completed,
  invalid_key, payload_mismatch, conflict, refused, replay, proceed, untouched, sha_hex, key_digest,
  process_request, process_response, is_storable, is_valid_idempotency_key, is_excluded,
}
use multilingual_task_api.Idempotency.Replays.{
  IsGuarded, meta_of, with_body, first_answer, replayed_answer, IsCompleted, payload_guarded,
  replay_round_trip,
}
use multilingual_task_api.Idempotency.Locks.{
  unanswered, conflict_while_locked, failure_releases, late_answer_unlocks,
}

Text-discrete : Discrete Text
Text-discrete = hlevel (ℕ_discrete)

IdempotencyKey-discrete : Discrete IdempotencyKey
IdempotencyKey-discrete = hlevel (Text-discrete)

abbrev cache : CacheApi IdempotencyKey IdempotencyValue
cache = table_cache IdempotencyKey-discrete

abbrev empty : Table IdempotencyKey IdempotencyValue
empty _ = none

abbrev create : Request
create = record {
  method = codes "post";
  path = codes "/api/v1/tasks/";
  body = codes "{}";
  user_id = codes "7";
  authorization = codes "Bearer a";
  api_key = [];
  organization_id = [];
  idempotency_key = some (codes " key-1 ");
}

create-IsGuarded : IsGuarded create (codes " key-1 ")
unfolding upper text_eq is_valid_idempotency_key strip is_excluded starts_with
create-IsGuarded = (refl, refl, refl, refl)

abbrev created : Response
created = record {
  status = 201;
  content_type = codes "application/json";
  streaming = false;
  content = codes "{}";
  replayed = none;
}

abbrev any_json : Text → Bool
any_json _ = true

created_storable : is_storable any_json created ≡ true
unfolding is_storable contains starts_with
created_storable = refl

abbrev broken : Response
broken = record created { status = 500 }

broken_dropped : is_storable any_json broken && true ≡ false
unfolding is_storable
broken_dropped = refl

blank_key_refused :
    process_request toy cache (record create { idempotency_key = some (codes " ") }) empty
    ≡ (refused invalid_key, empty)
unfolding process_request upper text_eq is_valid_idempotency_key strip
blank_key_refused = refl

get_untouched :
    process_request toy cache (record create { method = codes "GET" }) empty ≡ (untouched, empty)
unfolding process_request upper text_eq
get_untouched = refl

replay_round_trip_example :
    let (_, s) = process_request toy cache create empty in
    let (answer, s2) =
      process_response toy cache any_json true
        (some (meta_of toy create (codes " key-1 ")))
        created
        s in
    ((process_request toy cache create empty).0 ≡ proceed (meta_of toy create (codes " key-1 ")))
    × (answer ≡ first_answer created)
    × (process_request toy cache create s2 ≡ (replay (replayed_answer created), s2))
replay_round_trip_example =
    replay_round_trip toy cache any_json create (codes " key-1 ") created empty create-IsGuarded
      (refl, refl) created_storable

abbrev done : Record
done = record {
  status = 201;
  content_type = codes "application/json";
  body = codes "{}";
  body_hash = sha_hex toy (codes "{}");
}

abbrev after : Table IdempotencyKey IdempotencyValue
after =
    cache.set (record_key (key_digest toy create (strip (codes " key-1 ")))) (completed done) empty

after-IsCompleted : IsCompleted toy cache create (codes " key-1 ") done after
after-IsCompleted = (
  cache.get-set_self (record_key (key_digest toy create (strip (codes " key-1 ")))) (completed done)
      empty,
  refl,
)

abbrev first_byte : Bytes → ℕ
first_byte [] = 0
first_byte (b ∷ bs) = b

bodies_differ : toy.digest (codes "1") ≢ toy.digest (codes "{}")
bodies_differ e = omega (arith, ap first_byte e)

payload_guarded_example :
    process_request toy cache (with_body toy (codes "1") create) after
    ≡ (refused payload_mismatch, after)
payload_guarded_example =
    payload_guarded toy cache create (codes " key-1 ") (codes "1") done after create-IsGuarded
      after-IsCompleted bodies_differ

conflict_while_locked_example :
    let s = (process_request toy cache create empty).1 in
    process_request toy cache (with_body toy (codes "[]") create) s ≡ (refused conflict, s)
conflict_while_locked_example =
    let s = (process_request toy cache create empty).1 in
    conflict_while_locked toy cache create (codes " key-1 ") (codes "[]") empty s create-IsGuarded
      (refl, refl) refl
      (unanswered toy cache create (codes " key-1 ") empty create-IsGuarded (refl, refl))

retry_after_failure :
    let s = (process_request toy cache create empty).1 in
    let (answer, s2) =
      process_response toy cache any_json true
        (some (meta_of toy create (codes " key-1 ")))
        broken
        s in
    (answer ≡ broken)
    × ((process_request toy cache create s2).0 ≡ proceed (meta_of toy create (codes " key-1 ")))
retry_after_failure =
    failure_releases toy cache any_json true create (codes " key-1 ") broken empty create-IsGuarded
      (refl, refl) broken_dropped

late_answer_unlocks_example :
    let m = meta_of toy create (codes " key-1 ") in
    let s1 = (process_request toy cache create empty).1 in
    let (second, s2) = process_request toy cache create (cache.expire (lock_key m.key_digest) s1) in
    let (_, s3) = process_response toy cache any_json true (some m) broken s2 in
    (second ≡ proceed m) × ((process_request toy cache create s3).0 ≡ proceed m)
late_answer_unlocks_example =
    late_answer_unlocks toy cache any_json true create (codes " key-1 ") broken empty
      create-IsGuarded (refl, refl) broken_dropped
