-- ===== src/Breaker/Shared.antt =====
-- The state that all workers share through the cache, apps/ai_assist/circuit_breaker.py. The cache
-- is any implementation of the interface.
use multilingual_task_api.Prelude.{ℕ, ◌<◌, ◌≡◌, refl, ◌∙◌, true, some, none, arith}
use multilingual_task_api.Cache.{CacheApi, CounterApi}
use multilingual_task_api.Breaker.{
  closed, CircuitBreaker, refused, CircuitKey, fail_key, open_until_key, probe_lock_key,
  CircuitValue, failures, open_until, Network, shared_state, gate, on_success,
}

-- Every call of the cache reaches the backend.
abbrev pub reachable : Network
reachable _ = true

module _ (cache : CacheApi CircuitKey CircuitValue) (counter : CounterApi cache failures) where
  open cache use {
    get, set, delete, get-set_self, get-set_ne, get-delete_self, get-delete_ne, add_free, add_taken,
  }

  -- While the shared circuit is open, every worker refuses, whatever its own state, and nothing
  -- changes.
  pub shared_open_refuses :
      (b : CircuitBreaker) (s : cache.Store) (t now wall : ℕ)
      → b.shared_cache ≡ true
      → get open_until_key s ≡ some (open_until t)
      → wall < t
      → gate cache counter reachable now wall b s ≡ (refused, b, s)
  unfolding gate
  shared_open_refuses b s t now wall sb e q = ground (arith, e)

  cleared : cache.Store → cache.Store
  cleared s = delete probe_lock_key (delete open_until_key (delete fail_key s))

  cleared_keys :
      (s : cache.Store)
      → (get fail_key (cleared s) ≡ none)
        × (get open_until_key (cleared s) ≡ none)
        × (get probe_lock_key (cleared s) ≡ none)
  unfolding cleared
  cleared_keys s = (
    get-delete_ne probe_lock_key fail_key _ (λ x. cc)
        ∙ get-delete_ne open_until_key fail_key _ (λ x. cc)
        ∙ get-delete_self fail_key s,
    get-delete_ne probe_lock_key open_until_key _ (λ x. cc) ∙ get-delete_self open_until_key _,
    get-delete_self probe_lock_key _,
  )

  -- When a call of a sharing worker returns, the shared circuit is closed for every worker, with no
  -- failure and no probe left in the cache.
  pub success_closes_shared :
      (b c : CircuitBreaker) (s : cache.Store) (wall : ℕ)
      → b.shared_cache ≡ true
      → c.shared_cache ≡ true
      → let s' = (on_success cache counter reachable b s).1 in
        (shared_state cache counter reachable wall c s' ≡ some closed)
        × (get fail_key s' ≡ none)
        × (get probe_lock_key s' ≡ none)
  unfolding on_success shared_state cleared
  success_closes_shared b c s wall sb sc =
      let (f, o, p) = cleared_keys s in rw (sb, sc, o, f, p) (refl, refl, refl)
