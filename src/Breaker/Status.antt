-- ===== src/Breaker/Status.antt =====
-- What the circuit breaker of apps/ai_assist/circuit_breaker.py reports of itself. Asking for the state
-- also brings the state in the process up to date.
use multilingual_task_api.Prelude.{ℕ, Bool, ◌&&◌, Option, some, none, if◌then◌else◌}
use multilingual_task_api.Cache.{CacheApi, CounterApi}
use multilingual_task_api.Breaker.{
  CircuitState, CircuitBreaker, refresh_state_unlocked, CircuitKey, CircuitValue, failures,
  fail_key, Network, get_call, shared_state,
}

-- The dict of `get_status`, without the name.
pub record CircuitStatus : Type 0 where
  pub state : CircuitState
  pub failure_count : ℕ
  pub failure_threshold : ℕ
  pub recovery_timeout_seconds : ℕ
  pub shared_cache : Bool

unfoldable pub cached_failures : Option CircuitValue → ℕ → ℕ
cached_failures (some (failures n)) own = n
cached_failures _ own = own

module _ (cache : CacheApi CircuitKey CircuitValue) (counter : CounterApi cache failures) where
  state_from : ℕ → Option CircuitState → CircuitBreaker → CircuitState × CircuitBreaker
  state_from now (some shared) b = (shared, b)
  state_from now none b = let c = refresh_state_unlocked now b in (c.state, c)

  -- The property `state`, and the breaker after it.
  unfoldable pub current_state :
      Network → ℕ → ℕ → CircuitBreaker → cache.Store → CircuitState × CircuitBreaker
  unfolding state_from
  current_state up now wall b s = state_from now (shared_state cache counter up wall b s) b

  unfoldable pub get_status :
      Network → ℕ → ℕ → CircuitBreaker → cache.Store → CircuitStatus × CircuitBreaker
  unfolding current_state cached_failures
  get_status up now wall b s =
      let (state, b') = current_state up now wall b s in
      (
        record {
          state = state;
          failure_count =
              if b.shared_cache && up get_call
              then cached_failures (cache.get fail_key s) b.failure_count
              else b.failure_count;
          failure_threshold = b.failure_threshold;
          recovery_timeout_seconds = b.recovery_timeout;
          shared_cache = b.shared_cache;
        },
        b',
      )
