-- ===== src/Breaker/Flight.antt =====
-- Calls in flight through one process's breaker, apps/ai_assist/circuit_breaker.py: the lock is
-- free while a function runs, so other callers step in between.
use multilingual_task_api.Prelude.{ℕ, ◌+◌, ◌-◌, ◌≤◌, ◌≡◌, Bool, true, false, arith}
use multilingual_task_api.Breaker.{
  half_open, CircuitBreaker, new_breaker, Gate, refused, admitted, local_gate,
  refresh_state_unlocked, local_success, local_failure,
}

-- The breaker, and the calls that it let through and that have not ended: ordinary ones and probes.
pub record Flight : Type 0 where
  pub breaker : CircuitBreaker
  pub plain : ℕ
  pub probes : ℕ

count_in : Gate → Flight → Flight
count_in refused w = w
count_in (admitted false) w = record w { plain = w.plain + 1 }
count_in (admitted true) w = record w { probes = w.probes + 1 }

-- A caller comes to the gate.
unfoldable pub enter : ℕ → Flight → Flight
unfolding count_in
enter now w = let (g, b) = local_gate now w.breaker in count_in g (record w { breaker = b })

-- Someone reads `state` or the status.
unfoldable pub reads : ℕ → Flight → Flight
reads now w = record w { breaker = refresh_state_unlocked now w.breaker }

-- A call ends.
unfoldable pub probe_returns : Flight → Flight
probe_returns w = record w { breaker = local_success w.breaker; probes = w.probes - 1 }

unfoldable pub probe_fails : ℕ → Flight → Flight
probe_fails now w = record w { breaker = local_failure now true w.breaker; probes = w.probes - 1 }

unfoldable pub plain_returns : Flight → Flight
plain_returns w = record w { breaker = local_success w.breaker; plain = w.plain - 1 }

unfoldable pub plain_fails : ℕ → Flight → Flight
plain_fails now w = record w { breaker = local_failure now false w.breaker; plain = w.plain - 1 }

-- The steps, where a call that was let through by a closed circuit ends while no probe is in flight.
pub data Step (w : Flight) : Flight → Type 0 where
  enters : (now : ℕ) → Step w (enter now w)
  read : (now : ℕ) → Step w (reads now w)
  probe_return : 1 ≤ w.probes → Step w (probe_returns w)
  probe_fail : (now : ℕ) → 1 ≤ w.probes → Step w (probe_fails now w)
  plain_return : 1 ≤ w.plain → w.probes ≡ 0 → Step w (plain_returns w)
  plain_fail : (now : ℕ) → 1 ≤ w.plain → w.probes ≡ 0 → Step w (plain_fails now w)

pub data Reach (w : Flight) : Flight → Type 0 where
  here : Reach w w
  next : {u v : Flight} → Reach w u → Step u v → Reach w v

record SingleFlight (w : Flight) : Type 0 where
  at_most_one : w.probes ≤ 1
  flagged : w.probes ≡ 1 → w.breaker.half_open_probe_in_flight ≡ true
  half : w.probes ≡ 1 → w.breaker.state ≡ half_open

abbrev pub grounded : ℕ → ℕ → Bool → Flight
grounded threshold timeout shared = record {
  breaker = new_breaker threshold timeout shared;
  plain = 0;
  probes = 0;
}

-- While a probe is in flight and an ordinary call is still running, that call's failure at `t` opens
-- the circuit and clears the flag, and from `t + recovery_timeout` on the next caller is let through
-- as a second probe beside the first.
pub straggler_admits_second_probe :
    (w : Flight) (t now : ℕ)
    → w.breaker.state ≡ half_open
    → w.breaker.half_open_probe_in_flight ≡ true
    → w.probes ≡ 1
    → 1 ≤ w.plain
    → t + w.breaker.recovery_timeout ≤ now
    → (enter now (plain_fails t w)).probes ≡ 2
unfolding enter plain_fails local_gate local_failure
straggler_admits_second_probe w t now e f p q r = ground arith
