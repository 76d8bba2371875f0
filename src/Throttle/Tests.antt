-- ===== src/Throttle/Tests.antt =====
-- Tests and instances for apps/core/throttling.py.
use multilingual_task_api.Prelude.{
  ◌≡◌, refl, true, false, Option, some, none, [], ◌∷◌, arith, length, ℕ_discrete,
}
use multilingual_task_api.PyText.{Text, codes, lower, text_eq}
use multilingual_task_api.Cache.{CacheApi}
use multilingual_task_api.Cache.Table.{Table, table_cache}
use multilingual_task_api.Throttle.{
  Scope, ThrottleKey, ThrottleValue, history, RateThrottle, RateLimitMeta, OrgPlan, drop_stale,
  slide, oldest, history_of, allow_request, wait,
}
use multilingual_task_api.Throttle.Window.{Windowed, serve, window_bound, key_of}
use multilingual_task_api.Throttle.Quota.{Reports, quota_reported}

Scope-discrete : Discrete Scope
Scope-discrete = hlevel

ThrottleKey-discrete : Discrete ThrottleKey
ThrottleKey-discrete = hlevel (Scope-discrete, ℕ_discrete)

abbrev cache : CacheApi ThrottleKey ThrottleValue
cache = table_cache ThrottleKey-discrete

-- Two requests in ten seconds, whatever the rate's text is.
abbrev drf : RateThrottle cache
drf = record {
  parse_rate = λ _. some (2, 10);
  throttle_success = λ k now h s. (true, now ∷ h, cache.set k (history (now ∷ h)) s);
  throttle_failure = false;
  success_lem = λ k now h s. refl;
  failure_lem = refl;
}

abbrev no_rates : Scope → Option Text
no_rates _ = none

abbrev acme : OrgPlan
acme = record { id = 7; plan = codes "Starter" }

abbrev empty : Table ThrottleKey ThrottleValue
empty _ = none

served :
    serve cache drf no_rates acme (100 ∷ 101 ∷ 105 ∷ 110 ∷ 110 ∷ []) [] empty ≡ 110 ∷ 101 ∷ 100 ∷ []
unfolding allow_request slide ThrottleKey-discrete Scope-discrete text_eq lower ℕ_discrete
served = refl

stale_dropped : drop_stale 111 10 (110 ∷ 101 ∷ 100 ∷ []) ≡ 110 ∷ []
unfolding drop_stale
stale_dropped = refl

wait_for_oldest : wait 105 10 (101 ∷ 100 ∷ []) ≡ some 5
unfolding wait oldest
wait_for_oldest = refl

window_bound_example :
    Windowed 2 10 (serve cache drf no_rates acme (100 ∷ 101 ∷ 105 ∷ 110 ∷ []) [] empty)
window_bound_example =
    window_bound cache drf no_rates acme 2 10 (100 ∷ 101 ∷ 105 ∷ 110 ∷ []) empty refl refl
      (omega arith, (omega arith, (omega arith, (omega arith, tt))))

quota_after_requests :
    let (allowed, meta, s) = allow_request cache drf no_rates (some acme) 100 empty in
    let used =
      length (drop_stale 100 10 (history_of (cache.get (key_of cache drf no_rates acme) empty))) in
    (m : RateLimitMeta) × (meta ≡ some m)
    × Reports cache drf no_rates acme 2 100 used empty allowed m s
quota_after_requests = quota_reported cache drf no_rates acme 2 10 100 empty refl (omega arith)
