-- ===== src/Finops/Runs.antt =====
-- The books of one organization in one billing period, apps/core/finops.py, over every sequence of
-- spends and readings, and of counters that expire.
use multilingual_task_api.Prelude.{
  ℕ, ◌+◌, ◌≤◌, ◌≡◌, ◌≢◌, refl, sym, ap, ◌∙◌, ◌&&◌, none, List, [], ◌∷◌, ◌++◌, arith, Bool-cases,
  inl, inr, ◌==◌, Outcome,
}
use multilingual_task_api.Cache.{CacheApi, CounterApi}
use multilingual_task_api.Finops.{
  Organization, PlanDefaults, resolve_org_ai_budgets, UsageLog, sum_of, BudgetKey, tokens_key,
  cost_key, threshold_lock, exceeded_lock, BudgetValue, number, coerce_counter, verdict, Alert,
  Books, get_monthly_org_ai_burn, enforce_org_ai_budget, totals, settle_spend,
  record_org_ai_spend_and_alerts,
}
use multilingual_task_api.Finops.Counters.{
  tokens_of, cost_of, Holds, Agrees, burn_lem, apart, burn-other,
}
use multilingual_task_api.Finops.Totals.{Totalled, totals_lem, totals-other}
use multilingual_task_api.Finops.Alerts.{
  is_exceeded, is_threshold, alerts_of, AlertedOnce, send_alerts_once, send_alerts-other,
}

module _ (cache : CacheApi BudgetKey BudgetValue) (counter : CounterApi cache number)
    (plans : PlanDefaults) (org : Organization) (period : ℕ) where
  abbrev pub spend : ℕ → ℕ → ℕ → Books cache counter → Books cache counter
  spend p c n books = record_org_ai_spend_and_alerts cache counter plans org period p c n books

  abbrev pub read_burn : Books cache counter → Books cache counter
  read_burn b = record b {
    store = (get_monthly_org_ai_burn cache counter org.id period b.ledger b.store).1;
  }

  abbrev pub expire_at : BudgetKey → Books cache counter → Books cache counter
  expire_at key b = record b { store = cache.expire key b.store }

  -- Nothing of the period is known yet.
  abbrev pub IsFresh : Books cache counter → Type 0
  IsFresh b =
      (b.ledger ≡ [])
      × (b.alerts ≡ [])
      × (cache.get (tokens_key org.id period) b.store ≡ none)
      × (cache.get (cost_key org.id period) b.store ≡ none)

  -- The books that are reached: by spends of prompt tokens, completion tokens and cost, by readings,
  -- and by the expiry of a counter.
  pub data Run : Books cache counter → Type 0 where
    opened : (b : Books cache counter) → IsFresh b → Run b
    spent : {b : Books cache counter} → Run b → (p c n : ℕ) → Run (spend p c n b)
    read : {b : Books cache counter} → Run b → Run (read_burn b)
    tokens_expired :
        {b : Books cache counter} → Run b → Run (expire_at (tokens_key org.id period) b)
    cost_expired : {b : Books cache counter} → Run b → Run (expire_at (cost_key org.id period) b)

  abbrev AreKept : Books cache counter → Type 0
  AreKept b =
      Agrees cache counter org.id period b.ledger b.store
      × AlertedOnce cache counter is_threshold (threshold_lock org.id period) (b.alerts, b.store)
      × AlertedOnce cache counter is_exceeded (exceeded_lock org.id period) (b.alerts, b.store)

  settle-AreKept :
      (row : UsageLog) (b : Books cache counter) (o : Outcome (ℕ × ℕ)) (s : cache.Store)
      → Totalled cache counter org.id period (b.ledger ++ row ∷ []) (o, s)
      → AlertedOnce cache counter is_threshold (threshold_lock org.id period) (b.alerts, s)
      → AlertedOnce cache counter is_exceeded (exceeded_lock org.id period) (b.alerts, s)
      → AreKept
          (settle_spend cache counter (resolve_org_ai_budgets plans org) org.id period row b (o, s))
  unfolding settle_spend
  settle-AreKept row b o s (total, at_t, at_c) ht he =
      let budgets = resolve_org_ai_budgets plans org in
      let l' = b.ledger ++ row ∷ [] in
      let t = tokens_of org.id period l' in
      let c = cost_of org.id period l' in
      let kept_t =
        send_alerts-other cache counter budgets org.id period t c (tokens_key org.id period)
          b.alerts s (λ e. absurd (cc)) (λ e. absurd (cc)) in
      let kept_c =
        send_alerts-other cache counter budgets org.id period t c (cost_key org.id period) b.alerts
          s (λ e. absurd (cc)) (λ e. absurd (cc)) in
      let (once_t, once_e) =
        send_alerts_once cache counter budgets org.id period t c b.alerts s ht he in
      rw total ((inr (kept_t ∙ at_t), inr (kept_c ∙ at_c)), once_t, once_e)

  AlertedOnce-kept :
      (p : _) (key : BudgetKey) (sent : List Alert) (s s' : cache.Store)
      → cache.get key s' ≡ cache.get key s
      → AlertedOnce cache counter p key (sent, s)
      → AlertedOnce cache counter p key (sent, s')
  AlertedOnce-kept p key sent s s' e (inl z) = inl z
  AlertedOnce-kept p key sent s s' e (inr (one, v, found)) = inr (one, v, e ∙ found)

  spend-AreKept : (b : Books cache counter) (p c n : ℕ) → AreKept b → AreKept (spend p c n b)
  unfolding record_org_ai_spend_and_alerts
  spend-AreKept b p c n (agrees, ht, he) = elim (Bool-cases (p + c == 0 && n == 0)) [
    | inl e ↦ rw e (agrees, ht, he)
    | inr e ↦
        let row : UsageLog = record {
          organization = org.id;
          billing_period = period;
          prompt_tokens = p;
          completion_tokens = c;
          total_tokens = p + c;
          cost_nanousd = n;
        } in
        let l' = b.ledger ++ row ∷ [] in
        let w =
          totals cache counter org.id period (p + c) n l' b.store
            (coerce_counter (cache.get (tokens_key org.id period) b.store))
            (coerce_counter (cache.get (cost_key org.id period) b.store)) in
        let total = totals_lem cache counter org.id period b.ledger row b.store refl refl agrees in
        let same_t =
          totals-other cache counter org.id period l' b.ledger (p + c) n b.store
            (threshold_lock org.id period) agrees (λ e. absurd (cc)) (λ e. absurd (cc)) in
        let same_e =
          totals-other cache counter org.id period l' b.ledger (p + c) n b.store
            (exceeded_lock org.id period) agrees (λ e. absurd (cc)) (λ e. absurd (cc)) in
        rw e (
          settle-AreKept row b w.0 w.1 total
            (AlertedOnce-kept is_threshold (threshold_lock org.id period) b.alerts b.store w.1
              same_t ht)
            (AlertedOnce-kept is_exceeded (exceeded_lock org.id period) b.alerts b.store w.1 same_e
              he))
  ]

  read-AreKept : (b : Books cache counter) → AreKept b → AreKept (read_burn b)
  read-AreKept b (agrees, ht, he) =
      let s' = (get_monthly_org_ai_burn cache counter org.id period b.ledger b.store).1 in
      let (_, _, still) = burn_lem cache counter org.id period b.ledger b.store agrees in
      let same_t =
        burn-other cache counter org.id period b.ledger b.store (threshold_lock org.id period)
          agrees (λ e. absurd (cc)) (λ e. absurd (cc)) in
      let same_e =
        burn-other cache counter org.id period b.ledger b.store (exceeded_lock org.id period) agrees
          (λ e. absurd (cc)) (λ e. absurd (cc)) in
      (
        still,
        AlertedOnce-kept is_threshold (threshold_lock org.id period) b.alerts b.store s' same_t ht,
        AlertedOnce-kept is_exceeded (exceeded_lock org.id period) b.alerts b.store s' same_e he,
      )

  -- The expiry of a counter keeps the locks, and the other counter.
  Holds-expire :
      (key j : BudgetKey) (n : ℕ) (s : cache.Store)
      → key ≢ j
      → Holds cache counter j n s
      → Holds cache counter j n (cache.expire key s)
  Holds-expire key j n s ne (inl missing) = inl (cache.get-expire_ne key j s ne ∙ missing)
  Holds-expire key j n s ne (inr found) = inr (cache.get-expire_ne key j s ne ∙ found)

  locks_expire :
      (key : BudgetKey) (b : Books cache counter)
      → key ≢ threshold_lock org.id period
      → key ≢ exceeded_lock org.id period
      → AreKept b
      → AlertedOnce cache counter is_threshold
          (threshold_lock org.id period)
          (b.alerts, cache.expire key b.store)
        × AlertedOnce cache counter is_exceeded
            (exceeded_lock org.id period)
            (b.alerts, cache.expire key b.store)
  locks_expire key b nt ne (agrees, ht, he) = (
    AlertedOnce-kept is_threshold (threshold_lock org.id period) b.alerts b.store
        (cache.expire key b.store)
        (cache.get-expire_ne key (threshold_lock org.id period) b.store nt) ht,
    AlertedOnce-kept is_exceeded (exceeded_lock org.id period) b.alerts b.store
        (cache.expire key b.store)
        (cache.get-expire_ne key (exceeded_lock org.id period) b.store ne) he,
  )

  Run-AreKept : {b : Books cache counter} → Run b → AreKept b
  Run-AreKept (opened b (no_rows, no_alerts, mt, mc)) = (
    (inl mt, inl mc),
    inl (ap (alerts_of is_threshold) no_alerts),
    inl (ap (alerts_of is_exceeded) no_alerts),
  )
  Run-AreKept (spent {b} run p c n) = spend-AreKept b p c n (Run-AreKept run)
  Run-AreKept (read {b} run) = read-AreKept b (Run-AreKept run)
  Run-AreKept (tokens_expired {b} run) =
      let kept = Run-AreKept run in
      let tk = tokens_key org.id period in
      let (once_t, once_e) = locks_expire tk b (λ e. absurd (cc)) (λ e. absurd (cc)) kept in
      (
        (
          inl (cache.get-expire_self tk b.store),
          Holds-expire tk (cost_key org.id period) (cost_of org.id period b.ledger) b.store
              (apart cache counter org.id period) kept.0.1,
        ),
        once_t,
        once_e,
      )
  Run-AreKept (cost_expired {b} run) =
      let kept = Run-AreKept run in
      let ck = cost_key org.id period in
      let (once_t, once_e) = locks_expire ck b (λ e. absurd (cc)) (λ e. absurd (cc)) kept in
      (
        (
          Holds-expire ck (tokens_key org.id period) (tokens_of org.id period b.ledger) b.store
              (λ e. apart cache counter org.id period (sym e)) kept.0.0,
          inl (cache.get-expire_self ck b.store),
        ),
        once_t,
        once_e,
      )

  -- From fresh books, through all spends, readings and expiries of counters, the budget is enforced on
  -- exactly what the ledger has for the period, tokens and cost.
  pub enforced_on_ledger :
      (b : Books cache counter)
      → Run b
      → let budgets = resolve_org_ai_budgets plans org in
        (enforce_org_ai_budget cache counter budgets org.id period b.ledger b.store).0
        ≡ verdict budgets
            (sum_of (λ r. r.total_tokens) org.id period b.ledger)
            (sum_of (λ r. r.cost_nanousd) org.id period b.ledger)
  unfolding enforce_org_ai_budget
  enforced_on_ledger b run =
      let (t, c, _) = burn_lem cache counter org.id period b.ledger b.store (Run-AreKept run).0 in
      rw (t, c) refl

  at_most_one :
      (p : _) (key : BudgetKey) (w : List Alert × cache.Store)
      → AlertedOnce cache counter p key w
      → alerts_of p w.0 ≤ 1
  at_most_one p key w (inl z) = omega arith
  at_most_one p key w (inr (one, _, _)) = omega arith

  -- From fresh books, through all spends, readings and expiries of counters, at most one alert of each
  -- type is sent; the locks of the alerts, which are stored for 45 days, do not expire meanwhile.
  pub alerted_once :
      (b : Books cache counter)
      → Run b
      → (alerts_of is_threshold b.alerts ≤ 1) × (alerts_of is_exceeded b.alerts ≤ 1)
  alerted_once b run =
      let (_, once_t, once_e) = Run-AreKept run in
      (
        at_most_one is_threshold (threshold_lock org.id period) (b.alerts, b.store) once_t,
        at_most_one is_exceeded (exceeded_lock org.id period) (b.alerts, b.store) once_e,
      )
