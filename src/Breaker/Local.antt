-- ===== src/Breaker/Local.antt =====
-- The states of one process's breaker, apps/ai_assist/circuit_breaker.py.
use multilingual_task_api.Prelude.{
  ℕ, ◌+◌, ◌≤◌, ◌<◌, ◌≡◌, refl, Bool, true, false, some, List, [], ◌∷◌, length, arith, ltb, ◌∙◌,
  Bool-cases, Option, none, ◌&&◌, inl, inr, if◌then◌else◌,
}
use multilingual_task_api.Breaker.{
  CircuitState, closed, opened, half_open, CircuitBreaker, new_breaker, Gate, refused, admitted,
  local_gate, local_gate_at, refresh_state_unlocked, is_opened, is_half_open, timed_out,
  local_success, local_failure, local_reset,
}

-- What holds of a breaker at a time, outside its lock.
pub record IsSound (now : ℕ) (b : CircuitBreaker) : Type 0 where
  pub threshold_pos : 1 ≤ b.failure_threshold
  pub closed_below : b.state ≡ closed → b.failure_count < b.failure_threshold
  pub opened_dated : b.state ≡ opened → (t : ℕ) × (b.last_failure_time ≡ some t) × (t ≤ now)
  pub half_open_due :
      b.state ≡ half_open
      → (t : ℕ) × (b.last_failure_time ≡ some t) × (t + b.recovery_timeout ≤ now)
  pub probe_half_open : b.half_open_probe_in_flight ≡ true → b.state ≡ half_open

-- One step under the lock, at a time: of a caller, or of someone who reads `state` or the status.
pub data LocalStep (now : ℕ) (b : CircuitBreaker) : CircuitBreaker → Type 0 where
  gate_step : LocalStep now b (local_gate now b).1
  refresh_step : LocalStep now b (refresh_state_unlocked now b)
  success_step : LocalStep now b (local_success b)
  failure_step : (was_half_open : Bool) → LocalStep now b (local_failure now was_half_open b)
  reset_step : LocalStep now b (local_reset b)

later-IsSound : (t now : ℕ) (b : CircuitBreaker) → t ≤ now → IsSound t b → IsSound now b
later-IsSound t now b q v = record {
  threshold_pos = v.threshold_pos;
  closed_below = v.closed_below;
  opened_dated = λ e. let (at, l, p) = v.opened_dated e in (at, l, omega arith);
  half_open_due = λ e. let (at, l, p) = v.half_open_due e in (at, l, omega arith);
  probe_half_open = v.probe_half_open;
}

timed_at :
    (last : Option ℕ) (timeout now : ℕ)
    → timed_out last timeout now ≡ true
    → (t : ℕ) × (last ≡ some t) × (t + timeout ≤ now)
unfolding timed_out
timed_at none timeout now e = cc
timed_at (some t) timeout now e = (t, refl, ground arith)

refresh-IsSound :
    (now : ℕ) (b : CircuitBreaker) → IsSound now b → IsSound now (refresh_state_unlocked now b)
unfolding refresh_state_unlocked
refresh-IsSound now b v =
    refreshed (is_opened b.state && timed_out b.last_failure_time b.recovery_timeout now)
      (λ e. timed_at b.last_failure_time b.recovery_timeout now (ground (arith, e)))
  where
    refreshed :
        (due : Bool)
        → (due ≡ true → (t : ℕ) × (b.last_failure_time ≡ some t) × (t + b.recovery_timeout ≤ now))
        → IsSound now
            (if due then record b { state = half_open; half_open_probe_in_flight = false } else b)
    refreshed false at = v
    refreshed true at = record {
      threshold_pos = v.threshold_pos;
      closed_below = λ e. cc;
      opened_dated = λ e. cc;
      half_open_due = λ e. at refl;
      probe_half_open = λ e. cc;
    }

gate_at-IsSound :
    (now : ℕ) (b : CircuitBreaker) (s : CircuitState)
    → b.state ≡ s
    → IsSound now b
    → IsSound now (local_gate_at s b).1
unfolding local_gate_at
gate_at-IsSound now b closed e v = v
gate_at-IsSound now b opened e v = v
gate_at-IsSound now b half_open e v =
    elim b.half_open_probe_in_flight
      as (λ f.
        let r : Gate × CircuitBreaker =
          if f
          then (refused, b)
          else (admitted true, record b { half_open_probe_in_flight = true }) in
        IsSound now r.1) [
          | true ↦ v
          | false ↦ record {
            threshold_pos = v.threshold_pos;
            closed_below = v.closed_below;
            opened_dated = v.opened_dated;
            half_open_due = v.half_open_due;
            probe_half_open = λ _. e;
          }
        ]

gate-IsSound : (now : ℕ) (b : CircuitBreaker) → IsSound now b → IsSound now (local_gate now b).1
unfolding local_gate
gate-IsSound now b v =
    gate_at-IsSound now (refresh_state_unlocked now b) _ refl (refresh-IsSound now b v)

success-IsSound : (now : ℕ) (b : CircuitBreaker) → IsSound now b → IsSound now (local_success b)
unfolding local_success
success-IsSound now b v = record {
  threshold_pos = v.threshold_pos;
  closed_below = λ e. v.threshold_pos;
  opened_dated = λ e. cc;
  half_open_due = λ e. cc;
  probe_half_open = λ e. cc;
}

failure-IsSound :
    (now : ℕ) (w : Bool) (b : CircuitBreaker) → IsSound now b → IsSound now (local_failure now w b)
unfolding local_failure is_half_open
failure-IsSound now w b v = record {
  threshold_pos = v.threshold_pos;
  closed_below = λ e. ground (arith, v.closed_below);
  opened_dated = λ e. (now, refl, omega arith);
  half_open_due = λ e. absurd (ground (arith, e));
  probe_half_open = λ e. cc;
}

reset-IsSound : (now : ℕ) (b : CircuitBreaker) → IsSound now b → IsSound now (local_reset b)
unfolding local_reset
reset-IsSound now b v = record {
  threshold_pos = v.threshold_pos;
  closed_below = λ e. v.threshold_pos;
  opened_dated = λ e. cc;
  half_open_due = λ e. cc;
  probe_half_open = λ e. cc;
}

new_breaker-IsSound :
    (now threshold timeout : ℕ) (shared : Bool)
    → 1 ≤ threshold
    → IsSound now (new_breaker threshold timeout shared)
new_breaker-IsSound now threshold timeout shared p = record {
  threshold_pos = p;
  closed_below = λ e. p;
  opened_dated = λ e. cc;
  half_open_due = λ e. cc;
  probe_half_open = λ e. cc;
}

step-IsSound : {now : ℕ} {b c : CircuitBreaker} → LocalStep now b c → IsSound now b → IsSound now c
step-IsSound {now} {b} gate_step v = gate-IsSound now b v
step-IsSound {now} {b} refresh_step v = refresh-IsSound now b v
step-IsSound {now} {b} success_step v = success-IsSound now b v
step-IsSound {now} {b} (failure_step w) v = failure-IsSound now w b v
step-IsSound {now} {b} reset_step v = reset-IsSound now b v

-- Steps by a clock that does not go back, and the time of the last one.
pub data LocalRun (b : CircuitBreaker) : ℕ → CircuitBreaker → Type 0 where
  start : (now : ℕ) → LocalRun b now b
  then_step :
      {t now : ℕ} {c d : CircuitBreaker}
      → LocalRun b t c
      → t ≤ now
      → LocalStep now c d
      → LocalRun b now d

run-IsSound :
    (threshold timeout : ℕ) (shared : Bool) {now : ℕ} {b : CircuitBreaker}
    → 1 ≤ threshold
    → LocalRun (new_breaker threshold timeout shared) now b
    → IsSound now b
run-IsSound threshold timeout shared p (start now) =
    new_breaker-IsSound now threshold timeout shared p
run-IsSound threshold timeout shared {now} p (then_step {t} {c} r q st) =
    step-IsSound st (later-IsSound t now c q (run-IsSound threshold timeout shared p r))

-- What the state says of the other fields at a time.
abbrev pub Describes : CircuitState → ℕ → CircuitBreaker → Type 0
Describes closed now b =
    (b.failure_count < b.failure_threshold) × (b.half_open_probe_in_flight ≡ false)
Describes opened now b =
    ((t : ℕ) × (b.last_failure_time ≡ some t) × (t ≤ now)) × (b.half_open_probe_in_flight ≡ false)
Describes half_open now b =
    (t : ℕ) × (b.last_failure_time ≡ some t) × (t + b.recovery_timeout ≤ now)

described :
    (now : ℕ) (b : CircuitBreaker) (s : CircuitState)
    → b.state ≡ s
    → IsSound now b
    → Describes s now b
described now b closed e v = (v.closed_below e, ground (arith, v.probe_half_open))
described now b opened e v = (v.opened_dated e, ground (arith, v.probe_half_open))
described now b half_open e v = v.half_open_due e

-- From a new breaker with a positive threshold, whatever steps callers and readers take, in any order
-- and at any times of a clock that does not go back: a closed circuit has counted fewer failures than
-- the threshold, an opened one knows when it last failed, neither has a probe in flight, and a
-- half-open one last failed at least the recovery timeout ago.
pub run_described :
    (threshold timeout : ℕ) (shared : Bool) {now : ℕ} {b : CircuitBreaker}
    → 1 ≤ threshold
    → LocalRun (new_breaker threshold timeout shared) now b
    → Describes b.state now b
run_described threshold timeout shared {now} {b} p r =
    described now b b.state refl (run-IsSound threshold timeout shared p r)

-- Failures one after the other, at the times of the list.
abbrev pub fail_at : List ℕ → CircuitBreaker → CircuitBreaker
fail_at [] b = b
fail_at (t ∷ ts) b = fail_at ts (local_failure t false b)

failure_opened :
    (t : ℕ) (b : CircuitBreaker) → b.state ≡ opened → (local_failure t false b).state ≡ opened
unfolding local_failure
failure_opened t b e = ground arith

fail_at-opened :
    (ts : List ℕ) (b : CircuitBreaker) → b.state ≡ opened → (fail_at ts b).state ≡ opened
fail_at-opened [] b e = e
fail_at-opened (t ∷ ts) b e = fail_at-opened ts (local_failure t false b) (failure_opened t b e)

failure_state :
    (t : ℕ) (b : CircuitBreaker)
    → b.state ≡ closed
    → (local_failure t false b).state
      ≡ (if ltb (b.failure_count + 1) b.failure_threshold then closed else opened)
unfolding local_failure
failure_state t b e = ground arith

failure_count_lem :
    (t : ℕ) (b : CircuitBreaker)
    → ((local_failure t false b).failure_count ≡ b.failure_count + 1)
      × ((local_failure t false b).failure_threshold ≡ b.failure_threshold)
unfolding local_failure
failure_count_lem t b = (refl, refl)

fail_at_lem :
    (ts : List ℕ) (b : CircuitBreaker)
    → b.state ≡ closed
    → b.failure_count < b.failure_threshold
    → (fail_at ts b).state
      ≡ (if ltb (b.failure_count + length ts) b.failure_threshold then closed else opened)
fail_at_lem [] b e q = ground (arith, e)
fail_at_lem (t ∷ ts) b e q =
    let (count, same) = failure_count_lem t b in
    elim (Bool-cases (ltb (b.failure_count + 1) b.failure_threshold)) [
      | inl fits ↦
          let still : (local_failure t false b).state ≡ closed = failure_state t b e ∙ rw fits in
          let ih = fail_at_lem ts (local_failure t false b) still (ground (arith, count, same)) in
          ground (arith, ih, count, same)
      | inr full ↦
          let trips : (local_failure t false b).state ≡ opened = failure_state t b e ∙ rw full in
          ground (arith, fail_at-opened ts (local_failure t false b) trips)
    ]

-- From a closed circuit with no failure, failures in a row open it exactly when there are as many as
-- the threshold says.
pub opens_at_threshold :
    (threshold timeout : ℕ) (shared : Bool) (times : List ℕ)
    → 1 ≤ threshold
    → (fail_at times (new_breaker threshold timeout shared)).state
      ≡ (if ltb (length times) threshold then closed else opened)
opens_at_threshold threshold timeout shared times p =
    ground (arith, fail_at_lem times (new_breaker threshold timeout shared) refl p)

-- An opened circuit that last failed at `t` refuses every call before `t + recovery_timeout`, and
-- stays as it is.
pub opened_refuses :
    (b : CircuitBreaker) (t now : ℕ)
    → b.state ≡ opened
    → b.last_failure_time ≡ some t
    → now < t + b.recovery_timeout
    → local_gate now b ≡ (refused, b)
unfolding local_gate
opened_refuses b t now e l q = ground arith

-- From `t + recovery_timeout` on, an opened circuit that last failed at `t` lets one call through as
-- the probe, and refuses every other call until that one ends. If the probe returns, the circuit
-- is closed with no failure counted; if it fails, the circuit is open again from that moment.
pub probe_recovery :
    (b : CircuitBreaker) (t now later : ℕ)
    → b.state ≡ opened
    → b.last_failure_time ≡ some t
    → t + b.recovery_timeout ≤ now
    → let (g, probing) = local_gate now b in
      (g ≡ admitted true)
      × (local_gate later probing ≡ (refused, probing))
      × ((local_success probing).state ≡ closed)
      × ((local_success probing).failure_count ≡ 0)
      × ((local_failure later true probing).state ≡ opened)
      × ((local_failure later true probing).last_failure_time ≡ some later)
unfolding local_gate local_success local_failure
probe_recovery b t now later e l q = ground arith
