-- ===== src/Breaker/Tests.antt =====
-- Tests and instances for apps/ai_assist/circuit_breaker.py.
use multilingual_task_api.Prelude.{
  ℕ, ◌≡◌, refl, true, false, Option, some, none, [], ◌∷◌, ◌++◌, arith,
}
use multilingual_task_api.Cache.{CacheApi, CounterApi}
use multilingual_task_api.Cache.Table.{Table, table_cache, table_counter}
use multilingual_task_api.Breaker.{
  share_failure, closed, opened, half_open, CircuitBreaker, new_breaker, refused, admitted,
  local_gate, local_success, local_failure, CircuitKey, fail_key, open_until_key, probe_lock_key,
  CircuitValue, failures, open_until, shared_state, gate, on_success,
}
use multilingual_task_api.Breaker.Local.{
  start, then_step, gate_step, failure_step, Describes, run_described, fail_at, opens_at_threshold,
  opened_refuses, probe_recovery,
}
use multilingual_task_api.Breaker.Flight.{Flight, enter, plain_fails, straggler_admits_second_probe}
use multilingual_task_api.Breaker.Shared.{reachable, shared_open_refuses, success_closes_shared}
use multilingual_task_api.Breaker.Status.{get_status}
use multilingual_task_api.Breaker.Count.{share_at, failures_add_up}

CircuitKey-discrete : Discrete CircuitKey
CircuitKey-discrete = hlevel

abbrev cache : CacheApi CircuitKey CircuitValue
cache = table_cache CircuitKey-discrete

abbrev value_of : CircuitValue → Option ℕ
value_of (failures n) = some n
value_of _ = none

value_of-failures : (n : ℕ) → value_of (failures n) ≡ some n
value_of-failures n = refl

abbrev counter : CounterApi cache failures
counter = table_counter CircuitKey-discrete failures value_of value_of-failures

-- The singleton `openai_circuit_breaker` after five failures, the last at 100.
abbrev tripped : CircuitBreaker
tripped = record (new_breaker 5 60 true) {
  state = opened;
  failure_count = 5;
  last_failure_time = some 100;
}

abbrev probing : CircuitBreaker
probing = record tripped { state = half_open; half_open_probe_in_flight = true }

-- Open until 160, and no lock.
abbrev shared_open : Table CircuitKey CircuitValue
shared_open open_until_key = some (open_until 160)
shared_open fail_key = some (failures 5)
shared_open probe_lock_key = none

five_failures : (fail_at (96 ∷ 97 ∷ 98 ∷ 99 ∷ 100 ∷ []) (new_breaker 5 60 false)).state ≡ opened
unfolding local_failure
five_failures = refl

gate_after_timeout : local_gate 160 tripped ≡ (admitted true, probing)
unfolding local_gate
gate_after_timeout = refl

run_described_example :
    let b = (local_gate 67 (local_failure 7 false (new_breaker 1 60 false))).1 in
    Describes b.state 67 b
run_described_example =
    run_described 1 60 false (omega arith)
      (then_step (then_step (start 7) (omega arith) (failure_step false)) (omega arith) gate_step)

opened_by_failures : (fail_at (96 ∷ 97 ∷ []) (new_breaker 2 60 false)).state ≡ opened
opened_by_failures = opens_at_threshold 2 60 false (96 ∷ 97 ∷ []) (omega arith)

refused_while_open : local_gate 159 tripped ≡ (refused, tripped)
refused_while_open = opened_refuses tripped 100 159 refl refl (omega arith)

recovered_after_probe :
    let (g, b) = local_gate 160 tripped in
    (g ≡ admitted true)
    × (local_gate 161 b ≡ (refused, b))
    × ((local_success b).state ≡ closed)
    × ((local_success b).failure_count ≡ 0)
    × ((local_failure 161 true b).state ≡ opened)
    × ((local_failure 161 true b).last_failure_time ≡ some 161)
recovered_after_probe = probe_recovery tripped 100 160 161 refl refl (omega arith)

abbrev crowded : Flight
crowded = record { breaker = probing; plain = 1; probes = 1 }

straggler_admits_second_probe_example : (enter 230 (plain_fails 170 crowded)).probes ≡ 2
straggler_admits_second_probe_example =
    straggler_admits_second_probe crowded 170 230 refl refl refl (omega arith) (omega arith)

refused_while_shared_open :
    gate cache counter reachable 0 159 (new_breaker 5 60 true) shared_open
    ≡ (refused, new_breaker 5 60 true, shared_open)
refused_while_shared_open =
    shared_open_refuses cache counter (new_breaker 5 60 true) shared_open 160 0 159 refl refl
      (omega arith)

shared_closed_by_success :
    let s = (on_success cache counter reachable probing shared_open).1 in
    (shared_state cache counter reachable 170 tripped s ≡ some closed)
    × (cache.get fail_key s ≡ none)
    × (cache.get probe_lock_key s ≡ none)
shared_closed_by_success =
    success_closes_shared cache counter probing tripped shared_open 170 refl refl

abbrev empty : Table CircuitKey CircuitValue
empty _ = none

failures_add_up_example :
    let s = share_at cache counter ((1 ∷ []) ++ 2 ∷ []) (new_breaker 2 60 true) empty in
    (cache.get fail_key s ≡ some (failures 2))
    × (cache.get open_until_key s ≡ some (open_until 62))
    × (cache.get fail_key (
          share_failure cache counter reachable 1000 false
            (new_breaker 2 60 true)
            (cache.expire fail_key s))
        ≡ some (failures 1))
failures_add_up_example =
    failures_add_up cache counter (new_breaker 2 60 true) (1 ∷ []) 2 1000 empty refl refl

status_reads_cache : (get_status cache counter reachable 0 159 tripped shared_open).0.state ≡ opened
unfolding get_status shared_state
status_reads_cache = refl
