-- ===== src/Breaker/Count.antt =====
-- How the failures of all workers add up in the cache, apps/ai_assist/circuit_breaker.py.
use multilingual_task_api.Prelude.{
  ℕ, zero, suc, ◌+◌, ◌<◌, ◌≡◌, refl, ap, ◌∙◌, false, Option, some, none, List, [], ◌∷◌, length,
  ◌++◌, arith, leb, if◌then◌else◌, Bool-cases, inl, inr,
}
use multilingual_task_api.Cache.{CacheApi, CounterApi}
use multilingual_task_api.Breaker.{
  CircuitBreaker, CircuitKey, fail_key, open_until_key, probe_lock_key, CircuitValue, failures,
  open_until, share_failure, incr_shared_failures,
}
use multilingual_task_api.Breaker.Shared.{reachable}

-- What is stored under the key of the failures after `n` of them.
abbrev pub stored : ℕ → Option CircuitValue
stored zero = none
stored (suc n) = some (failures (suc n))

module _ (cache : CacheApi CircuitKey CircuitValue) (counter : CounterApi cache failures) where
  open cache use {get, set, delete, get-set_self, get-set_ne, get-delete_ne, add_free}
  open counter use {incr, incr_found, incr_missing}

  incr_lem :
      (n : ℕ) (s : cache.Store)
      → get fail_key s ≡ stored n
      → incr_shared_failures cache counter reachable s
        ≡ (some (suc n), set fail_key (failures (suc n)) s)
  unfolding incr_shared_failures
  incr_lem zero s e =
      ground (arith, incr_missing fail_key 1 s e, add_free fail_key (failures 1) s e)
  incr_lem (suc n) s e =
      let one : suc n + 1 ≡ suc (suc n) = omega arith in rw (incr_found fail_key 1 (suc n) s e, one)

  share_lem :
      (b : CircuitBreaker) (n wall : ℕ) (s : cache.Store)
      → get fail_key s ≡ stored n
      → let s' = share_failure cache counter reachable wall false b s in
        (get fail_key s' ≡ stored (suc n))
        × (get open_until_key s' ≡ (
            if leb b.failure_threshold (suc n)
            then some (open_until (wall + b.recovery_timeout))
            else get open_until_key s))
  unfolding share_failure
  share_lem b n wall s e =
      let lock = delete probe_lock_key s in
      let there : get fail_key lock ≡ stored n =
        get-delete_ne probe_lock_key fail_key s (λ x. cc) ∙ e in
      let until = open_until (wall + b.recovery_timeout) in
      let counted = set fail_key (failures (suc n)) lock in
      rw (incr_lem n lock there) (
        ground (
          arith,
          get-set_self fail_key (failures (suc n)) lock,
          get-set_ne open_until_key fail_key until counted (λ x. cc),
          get-set_self open_until_key until counted,
          get-set_ne fail_key open_until_key (failures (suc n)) lock (λ x. cc),
          get-delete_ne probe_lock_key open_until_key s (λ x. cc),
        ))

  -- Failures of sharing workers one after the other, at the wall-clock times of the list.
  abbrev pub share_at : List ℕ → CircuitBreaker → cache.Store → cache.Store
  share_at [] b s = s
  share_at (t ∷ ts) b s = share_at ts b (share_failure cache counter reachable t false b s)

  share_at_lem :
      (ts : List ℕ) (b : CircuitBreaker) (n : ℕ) (s : cache.Store)
      → get fail_key s ≡ stored n
      → (get fail_key (share_at ts b s) ≡ stored (length ts + n))
  share_at_lem [] b n s e = e ∙ ap stored (omega arith)
  share_at_lem (t ∷ ts) b n s e =
      share_at_lem ts b (suc n) (share_failure cache counter reachable t false b s)
        (share_lem b n t s e).0
      ∙ ap stored (omega arith)

  below_threshold :
      (ts : List ℕ) (b : CircuitBreaker) (n : ℕ) (s : cache.Store)
      → get fail_key s ≡ stored n
      → get open_until_key s ≡ none
      → length ts + n < b.failure_threshold
      → get open_until_key (share_at ts b s) ≡ none
  below_threshold [] b n s e o q = o
  below_threshold (t ∷ ts) b n s e o q =
      let (count, key) = share_lem b n t s e in
      let still : get open_until_key (share_failure cache counter reachable t false b s) ≡ none =
        ground (arith, key, o) in
      below_threshold ts b (suc n) (share_failure cache counter reachable t false b s) count still
        (omega arith)

  share_at-snoc :
      (ts : List ℕ) (t : ℕ) (b : CircuitBreaker) (s : cache.Store)
      → share_at (ts ++ t ∷ []) b s
        ≡ share_failure cache counter reachable t false b (share_at ts b s)
  share_at-snoc [] t b s = refl
  share_at-snoc (x ∷ ts) t b s =
      share_at-snoc ts t b (share_failure cache counter reachable x false b s)

  -- From a cache without the circuit's keys, and while none of them expires, failures of any workers
  -- add up: after those of `ts` and one more at `t`, the cache holds their number, and the shared
  -- circuit is open until `t + recovery_timeout` if that number has reached the threshold, and not open
  -- if it has not. Once the key of the number has expired, the next failure counts as the first.
  pub failures_add_up :
      (b : CircuitBreaker) (ts : List ℕ) (t later : ℕ) (s : cache.Store)
      → get fail_key s ≡ none
      → get open_until_key s ≡ none
      → let s' = share_at (ts ++ t ∷ []) b s in
        (get fail_key s' ≡ some (failures (length ts + 1)))
        × (get open_until_key s' ≡ (
            if leb b.failure_threshold (length ts + 1)
            then some (open_until (t + b.recovery_timeout))
            else none))
        × (get fail_key
              (share_failure cache counter reachable later false b (cache.expire fail_key s'))
            ≡ some (failures 1))
  failures_add_up b ts t later s e o =
      let so_far : get fail_key (share_at ts b s) ≡ stored (length ts) =
        share_at_lem ts b 0 s e ∙ ap stored (omega arith) in
      let (count, key) = share_lem b (length ts) t (share_at ts b s) so_far in
      let one : suc (length ts) ≡ length ts + 1 = omega arith in
      rw share_at-snoc (
        count ∙ ap (λ (n : ℕ). some (failures n)) one,
        elim (Bool-cases (leb b.failure_threshold (length ts + 1))) [
          | inl reached ↦ ground (arith, key)
          | inr fewer ↦ ground (arith, key, below_threshold ts b 0 s e o (ground arith))
        ],
        (share_lem b 0 later _ (
            cache.get-expire_self fail_key
              (share_failure cache counter reachable t false b (share_at ts b s)))).0,
      )
