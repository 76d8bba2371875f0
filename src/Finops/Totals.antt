-- ===== src/Finops/Totals.antt =====
-- The totals that a spend of apps/core/finops.py computes, and what it stores.
use multilingual_task_api.Prelude.{
  ℕ, ◌+◌, ◌≡◌, ◌≢◌, refl, sym, ap, ◌∙◌, some, [], ◌∷◌, ◌++◌, arith, Bool-cases, inl, inr, ◌==◌,
  Outcome, ok,
}
use multilingual_task_api.Cache.{CacheApi, CounterApi}
use multilingual_task_api.Finops.{
  UsageLog, Ledger, BudgetKey, tokens_key, cost_key, BudgetValue, number, coerce_counter,
  increment_monthly_counter, totals, or_else,
}
use multilingual_task_api.Finops.Counters.{tokens_of, cost_of, sum_of-append, Agrees, apart}

module _ (cache : CacheApi BudgetKey BudgetValue) (counter : CounterApi cache number) where
  increment_lem :
      (key : BudgetKey) (delta seed n : ℕ) (s : cache.Store)
      → cache.get key s ≡ some (number n)
      → (s' : cache.Store) × (increment_monthly_counter cache counter key delta seed s
          ≡ ok (n + delta, s'))
        × (cache.get key s' ≡ some (number (n + delta)))
        × ((j : BudgetKey) → key ≢ j → cache.get j s' ≡ cache.get j s)
  unfolding increment_monthly_counter coerce_counter or_else
  increment_lem key delta seed n s found = elim (Bool-cases (delta == 0)) [
    | inl zero_delta ↦
        let none_more : n ≡ n + delta = ground arith in
        (
          s,
          rw (zero_delta, found) (ap (λ m. ok (m, s)) none_more),
          found ∙ ap (λ m. some (number m)) none_more,
          λ j ne. refl,
        )
    | inr more ↦
        let s' = cache.set key (number (n + delta)) s in
        (
          s',
          rw (more, counter.incr_found key delta n s found) refl,
          cache.get-set_self key (number (n + delta)) s,
          λ j ne. cache.get-set_ne key j (number (n + delta)) s ne,
        )
  ]

  -- The totals that a spend computes are those of the ledger with its row.
  abbrev pub Totalled : ℕ → ℕ → Ledger → Outcome (ℕ × ℕ) × cache.Store → Type 0
  Totalled org period l' w =
      (w.0 ≡ ok (tokens_of org period l', cost_of org period l'))
      × (cache.get (tokens_key org period) w.1 ≡ some (number (tokens_of org period l')))
      × (cache.get (cost_key org period) w.1 ≡ some (number (cost_of org period l')))

  written_totals :
      (org period t c : ℕ) (s : cache.Store)
      → let s' =
          cache.set
            (cost_key org period)
            (number c)
            (cache.set (tokens_key org period) (number t) s) in
        (cache.get (tokens_key org period) s' ≡ some (number t))
        × (cache.get (cost_key org period) s' ≡ some (number c))
  written_totals org period t c s =
      let s1 = cache.set (tokens_key org period) (number t) s in
      (
        cache.get-set_ne (cost_key org period) (tokens_key org period) (number c) s1
              (λ e. apart cache counter org period (sym e))
            ∙ cache.get-set_self (tokens_key org period) (number t) s,
        cache.get-set_self (cost_key org period) (number c) s1,
      )

  counted_totals :
      (org period t c dt dc : ℕ) (l' : Ledger) (s : cache.Store)
      → tokens_of org period l' ≡ t + dt
      → cost_of org period l' ≡ c + dc
      → cache.get (tokens_key org period) s ≡ some (number t)
      → cache.get (cost_key org period) s ≡ some (number c)
      → Totalled org period l' (totals cache counter org period dt dc l' s (some t) (some c))
  unfolding totals
  counted_totals org period t c dt dc l' s et ec ft fc =
      let tk = tokens_key org period in
      let ck = cost_key org period in
      let (s1, step_t, at_t, keep_t) = increment_lem tk dt dt t s ft in
      let (s2, step_c, at_c, keep_c) =
        increment_lem ck dc dc c s1 (keep_t ck (apart cache counter org period) ∙ fc) in
      let both : totals cache counter org period dt dc l' s (some t) (some c)
          ≡ (ok (t + dt, c + dc), s2) =
        rw (totals, step_t) (rw step_c refl) in
      rw (both, et, ec) (refl, keep_c tk (λ e. apart cache counter org period (sym e)) ∙ at_t, at_c)

  pub totals_lem :
      (org period : ℕ) (l : Ledger) (r : UsageLog) (s : cache.Store)
      → r.organization ≡ org
      → r.billing_period ≡ period
      → Agrees cache counter org period l s
      → Totalled org period (l ++ r ∷ []) (
          totals cache counter org period r.total_tokens r.cost_nanousd
            (l ++ r ∷ [])
            s
            (coerce_counter (cache.get (tokens_key org period) s))
            (coerce_counter (cache.get (cost_key org period) s)))
  unfolding totals coerce_counter
  totals_lem org period l r s p q (inr ft, inr fc) =
      let counted =
        counted_totals org period (tokens_of org period l) (cost_of org period l) r.total_tokens
          r.cost_nanousd (l ++ r ∷ []) s (sum_of-append (λ r. r.total_tokens) org period l r p q)
          (sum_of-append (λ r. r.cost_nanousd) org period l r p q) ft fc in
      rw (ft, fc) counted
  totals_lem org period l r s p q (inr ft, inl mc) =
      let l' = l ++ r ∷ [] in
      let written = written_totals org period (tokens_of org period l') (cost_of org period l') s in
      rw (ft, mc) (refl, written.0, written.1)
  totals_lem org period l r s p q (inl mt, hc) =
      let l' = l ++ r ∷ [] in
      let written = written_totals org period (tokens_of org period l') (cost_of org period l') s in
      rw mt (refl, written.0, written.1)

  set_both-other :
      (org period t c : ℕ) (s : cache.Store) (j : BudgetKey)
      → tokens_key org period ≢ j
      → cost_key org period ≢ j
      → cache.get j (
          cache.set
            (cost_key org period)
            (number c)
            (cache.set (tokens_key org period) (number t) s))
        ≡ cache.get j s
  set_both-other org period t c s j nt nc =
      cache.get-set_ne (cost_key org period) j (number c)
        (cache.set (tokens_key org period) (number t) s) nc
      ∙ cache.get-set_ne (tokens_key org period) j (number t) s nt

  -- What is stored under the other keys stays.
  pub totals-other :
      (org period : ℕ) (l' : Ledger) (l : Ledger) (dt dc : ℕ) (s : cache.Store) (j : BudgetKey)
      → Agrees cache counter org period l s
      → tokens_key org period ≢ j
      → cost_key org period ≢ j
      → cache.get j
          (totals cache counter org period dt dc l' s
            (coerce_counter (cache.get (tokens_key org period) s))
            (coerce_counter (cache.get (cost_key org period) s))).1
        ≡ cache.get j s
  unfolding totals coerce_counter
  totals-other org period l' l dt dc s j (inr ft, inr fc) nt nc =
      let tk = tokens_key org period in
      let ck = cost_key org period in
      let t = tokens_of org period l in
      let c = cost_of org period l in
      let (s1, step_t, at_t, keep_t) = increment_lem tk dt dt t s ft in
      let (s2, step_c, at_c, keep_c) =
        increment_lem ck dc dc c s1 (keep_t ck (apart cache counter org period) ∙ fc) in
      let both : totals cache counter org period dt dc l' s (some t) (some c)
          ≡ (ok (t + dt, c + dc), s2) =
        rw (totals, step_t) (rw step_c refl) in
      rw (ft, fc) (rw both (keep_c j nc ∙ keep_t j nt))
  totals-other org period l' l dt dc s j (inr ft, inl mc) nt nc =
      rw (ft, mc)
        (set_both-other org period (tokens_of org period l') (cost_of org period l') s j nt nc)
  totals-other org period l' l dt dc s j (inl mt, hc) nt nc =
      rw mt (set_both-other org period (tokens_of org period l') (cost_of org period l') s j nt nc)
