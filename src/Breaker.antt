-- ===== src/Breaker.antt =====
-- apps/ai_assist/circuit_breaker.py: the circuit breaker, with the state in the process and the
-- state that the workers share through the cache. Times are in seconds, on a monotonic and on a
-- wall clock that a call reads from its arguments.
pub mod Local
pub mod Flight
pub mod Shared
pub mod Count
pub mod Status
pub mod Tests
use multilingual_task_api.Prelude.{
  ℕ, suc, ◌+◌, ◌*◌, max, Bool, true, false, not, ◌&&◌, ◌||◌, Option, some, none, ltb, leb,
  if◌then◌else◌, Outcome, ok, err, Exn, value_error,
}
use multilingual_task_api.Cache.{CacheApi, CounterApi}

pub data CircuitState : Type 0 where
  closed opened half_open : CircuitState

-- The fields of `CircuitBreaker` that the name does not determine.
pub record CircuitBreaker : Type 0 where
  pub failure_threshold : ℕ
  pub recovery_timeout : ℕ
  pub shared_cache : Bool
  pub state : CircuitState
  pub failure_count : ℕ
  pub last_failure_time : Option ℕ
  pub half_open_probe_in_flight : Bool

-- `__init__`
abbrev pub new_breaker : ℕ → ℕ → Bool → CircuitBreaker
new_breaker failure_threshold recovery_timeout shared_cache = record {
  failure_threshold = failure_threshold;
  recovery_timeout = recovery_timeout;
  shared_cache = shared_cache;
  state = closed;
  failure_count = 0;
  last_failure_time = none;
  half_open_probe_in_flight = false;
}

unfoldable pub is_opened : CircuitState → Bool
is_opened opened = true
is_opened _ = false

unfoldable pub is_half_open : CircuitState → Bool
is_half_open half_open = true
is_half_open _ = false

-- `time.monotonic() - last >= recovery_timeout`
unfoldable pub timed_out : Option ℕ → ℕ → ℕ → Bool
timed_out none timeout now = false
timed_out (some last) timeout now = leb (last + timeout) now

unfoldable pub refresh_state_unlocked : ℕ → CircuitBreaker → CircuitBreaker
unfolding is_opened timed_out
refresh_state_unlocked now b =
    if is_opened b.state && timed_out b.last_failure_time b.recovery_timeout now
    then record b { state = half_open; half_open_probe_in_flight = false }
    else b

-- How the guards of `call` decide: `CircuitOpenError`, or the function runs, with `was_half_open`.
pub data Gate : Type 0 where
  refused : Gate
  admitted : Bool → Gate

pub local_gate_at : CircuitState → CircuitBreaker → Gate × CircuitBreaker
local_gate_at opened b = (refused, b)
local_gate_at closed b = (admitted false, b)
local_gate_at half_open b =
    if b.half_open_probe_in_flight
    then (refused, b)
    else (admitted true, record b { half_open_probe_in_flight = true })

-- The guards of `call` under the lock, where the shared state is not used.
unfoldable pub local_gate : ℕ → CircuitBreaker → Gate × CircuitBreaker
unfolding refresh_state_unlocked local_gate_at
local_gate now b = let c = refresh_state_unlocked now b in local_gate_at c.state c

-- `_on_success` and `_on_failure` under the lock.
unfoldable pub local_success : CircuitBreaker → CircuitBreaker
local_success b = record b { failure_count = 0; half_open_probe_in_flight = false; state = closed }

unfoldable pub local_failure : ℕ → Bool → CircuitBreaker → CircuitBreaker
unfolding is_half_open
local_failure now was_half_open b =
    let count = b.failure_count + 1 in
    let trips = was_half_open || is_half_open b.state || leb b.failure_threshold count in
    record b {
      failure_count = count;
      last_failure_time = some now;
      half_open_probe_in_flight = false;
      state = if trips then opened else b.state;
    }

unfoldable pub local_reset : CircuitBreaker → CircuitBreaker
local_reset b = record b {
  state = closed;
  failure_count = 0;
  last_failure_time = none;
  half_open_probe_in_flight = false;
}

-- The three keys of one circuit in the cache, and what is stored under them.
pub data CircuitKey : Type 0 where
  fail_key open_until_key probe_lock_key : CircuitKey

pub data CircuitValue : Type 0 where
  failures : ℕ → CircuitValue
  open_until : ℕ → CircuitValue
  probe : CircuitValue

-- The calls of the cache that can raise; `up` says for each whether it reaches the backend.
pub data CacheCall : Type 0 where
  get_call add_call incr_call set_call delete_call : CacheCall

abbrev pub Network : Type 0
Network = CacheCall → Bool

module _ (cache : CacheApi CircuitKey CircuitValue) (counter : CounterApi cache failures) where
  abbrev pub Store : Type 0
  Store = cache.Store

  -- What `float(raw_open_until)` and the clock make of the stored value: a number, or the text "1".
  unfoldable pub shared_state_of : ℕ → Option CircuitValue → Option CircuitState
  shared_state_of wall none = some closed
  shared_state_of wall (some (open_until t)) = some (if ltb wall t then opened else half_open)
  shared_state_of wall (some (failures n)) = some (if ltb wall n then opened else half_open)
  shared_state_of wall (some probe) = some (if ltb wall 1 then opened else half_open)

  unfoldable pub shared_state : Network → ℕ → CircuitBreaker → Store → Option CircuitState
  unfolding shared_state_of
  shared_state up wall b s =
      if b.shared_cache && up get_call
      then shared_state_of wall (cache.get open_until_key s)
      else none

  -- `cache.add` of the probe lock; an error lets the probe through.
  unfoldable pub acquire_probe : Network → Store → Bool × Store
  acquire_probe up s = if up add_call then cache.add probe_lock_key probe s else (true, s)

  gate_at :
      Network → ℕ → Option CircuitState → CircuitBreaker → Store → Gate × CircuitBreaker × Store
  gate_at up now (some opened) b s = (refused, b, s)
  gate_at up now (some closed) b s = (admitted false, b, s)
  gate_at up now (some half_open) b s =
      let (acquired, s') = acquire_probe up s in
      (if acquired then admitted true else refused, b, s')
  gate_at up now none b s = let (g, b') = local_gate now b in (g, b', s)

  -- The part of `call` before the function.
  unfoldable pub gate : Network → ℕ → ℕ → CircuitBreaker → Store → Gate × CircuitBreaker × Store
  unfolding shared_state gate_at acquire_probe local_gate
  gate up now wall b s = gate_at up now (shared_state up wall b s) b s

  clear_keys : Network → Store → Store
  clear_keys up s =
      if up delete_call
      then cache.delete probe_lock_key (cache.delete open_until_key (cache.delete fail_key s))
      else s

  unfoldable pub on_success : Network → CircuitBreaker → Store → CircuitBreaker × Store
  unfolding local_success clear_keys
  on_success up b s = (local_success b, if b.shared_cache then clear_keys up s else s)

  first_failure : Bool × Store → Outcome (ℕ × Store) → Option ℕ × Store
  first_failure (true, s) again = (some 1, s)
  first_failure (false, s) (ok (n, s')) = (some n, s')
  first_failure (false, s) (err e) = (none, s)

  -- `_incr_shared_failures`: `incr`, and where the key is missing `add`, and `incr` once more.
  unfoldable pub incr_shared_failures : Network → Store → Option ℕ × Store
  unfolding first_failure
  incr_shared_failures up s =
      if up incr_call
      then elim (counter.incr fail_key 1 s) [
        | ok (n, s') ↦ (some n, s')
        | err e ↦
            if up add_call
            then first_failure (cache.add fail_key (failures 1) s)
                (counter.incr fail_key 1 (cache.add fail_key (failures 1) s).1)
            else (none, s)
      ]
      else (none, s)

  reaches : Option ℕ → ℕ → Bool
  reaches none threshold = false
  reaches (some n) threshold = leb threshold n

  -- The second half of `_on_failure`.
  unfoldable pub share_failure : Network → ℕ → Bool → CircuitBreaker → Store → Store
  unfolding incr_shared_failures reaches
  share_failure up wall was_half_open b s =
      if up delete_call
      then (let (count, s') = incr_shared_failures up (cache.delete probe_lock_key s) in
          if (was_half_open || reaches count b.failure_threshold) && up set_call
          then cache.set open_until_key (open_until (wall + b.recovery_timeout)) s'
          else s')
      else s

  unfoldable pub on_failure :
      Network → ℕ → ℕ → Bool → CircuitBreaker → Store → CircuitBreaker × Store
  unfolding local_failure share_failure
  on_failure up now wall was_half_open b s = (
    local_failure now was_half_open b,
    if b.shared_cache then share_failure up wall was_half_open b s else s,
  )

  unfoldable pub reset : Network → CircuitBreaker → Store → CircuitBreaker × Store
  unfolding local_reset clear_keys
  reset up b s = (local_reset b, if b.shared_cache then clear_keys up s else s)

  -- `call`: refused with `CircuitOpenError`, or the function's own result or exception. The clocks
  -- and the network are read again when the function ends.
  unfoldable pub call :
      {A : Type 0}
      → Network
      → ℕ
      → ℕ
      → Network
      → ℕ
      → ℕ
      → Outcome A
      → CircuitBreaker
      → Store
      → Option (Outcome A) × CircuitBreaker × Store
  unfolding gate on_success on_failure
  call up now wall up' now' wall' result b s =
      let (g, b', s') = gate up now wall b s in
      elim g [
        | refused ↦ (none, b', s')
        | admitted was_half_open ↦ elim result [
          | ok a ↦ let (b2, s2) = on_success up' b' s' in (some (ok a), b2, s2)
          | err e ↦
              let (b2, s2) = on_failure up' now' wall' was_half_open b' s' in (some (err e), b2, s2)
        ]
      ]
