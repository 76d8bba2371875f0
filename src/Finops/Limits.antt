-- ===== src/Finops/Limits.antt =====
-- The ceilings of apps/core/finops.py, and the limit at which it says that one is exceeded.
use native.Mathlib.Nat.{le-div_iff_mul-le}
use multilingual_task_api.Prelude.{
  ℕ, ◌+◌, ◌-◌, ◌*◌, ◌≤◌, ◌<◌, ◌≡◌, ◌≢◌, refl, max, Bool-cases, inl, inr, leb, arith, none, List, [],
  ◌∷◌, ◌++◌, ◌∙◌, true, le→leb,
}
use multilingual_task_api.Cache.{CacheApi, CounterApi}
use multilingual_task_api.Finops.Alerts.{alert_once-other}
use multilingual_task_api.Finops.{
  BudgetKey, BudgetValue, number, threshold_lock, exceeded_lock, Alert, new_alert,
  budget_threshold_reached, budget_exceeded, alert_once, send_alerts, Organization, PlanDefaults,
  Budgets, resolve_org_ai_budgets, within_budget, verdict, utilization,
}

-- Whatever the organization and the settings say, both ceilings are positive, the cost ceiling is the
-- same in micro- and in nano-dollars, and the alert's threshold is a percentage from 1 to 100.
pub budgets_bounded :
    (plans : PlanDefaults) (org : Organization)
    → let b = resolve_org_ai_budgets plans org in
      (1 ≤ b.token_budget)
      × (1 ≤ b.cost_budget_microusd)
      × (b.cost_budget_nanousd ≡ b.cost_budget_microusd * 1000)
      × (1 ≤ b.alert_threshold_pct)
      × (b.alert_threshold_pct ≤ 100)
unfolding resolve_org_ai_budgets
budgets_bounded plans org = (omega arith, omega arith, omega arith, omega arith, omega arith)

reached :
    (used budget : ℕ)
    → 1 ≤ budget
    → budget * 20000 ≤ used * 20000 + budget
    → 10000 ≤ utilization used budget
unfolding utilization
reached used budget p q = (le-div_iff_mul-le {k = budget * 2} (omega arith)).1 (omega arith)

-- A budget that enforcement finds exhausted is at 100 percent for the alerts.
pub exhausted_is_alerted :
    (b : Budgets) (tokens cost : ℕ)
    → 1 ≤ b.token_budget
    → 1 ≤ b.cost_budget_nanousd
    → verdict b tokens cost ≢ within_budget
    → 10000 ≤ max (utilization tokens b.token_budget) (utilization cost b.cost_budget_nanousd)
unfolding verdict
exhausted_is_alerted b tokens cost pt pc out = elim (Bool-cases (leb b.token_budget tokens)) [
  | inl e ↦
      let at : 10000 ≤ utilization tokens b.token_budget =
        reached tokens b.token_budget pt (ground arith) in
      omega arith
  | inr e ↦ elim (Bool-cases (leb b.cost_budget_nanousd cost)) [
    | inl f ↦
        let at : 10000 ≤ utilization cost b.cost_budget_nanousd =
          reached cost b.cost_budget_nanousd pc (ground arith) in
        omega arith
    | inr f ↦ absurd (out (rw (e, f) refl))
  ]
]

locks_differ : {org period : ℕ} → threshold_lock org period ≡ exceeded_lock org period → ⊥
locks_differ e = cc

nearly_exhausted :
    (b : Budgets) (tokens cost : ℕ)
    → tokens < b.token_budget
    → cost < b.cost_budget_nanousd
    → (b.token_budget - tokens) * 20000 ≤ b.token_budget
    → (verdict b tokens cost ≡ within_budget)
      × (10000 ≤ max (utilization tokens b.token_budget) (utilization cost b.cost_budget_nanousd))
unfolding verdict
nearly_exhausted b tokens cost p q few =
    let at : 10000 ≤ utilization tokens b.token_budget =
      reached tokens b.token_budget (omega arith) (omega arith) in
    (ground arith, omega arith)

module _ (cache : CacheApi BudgetKey BudgetValue) (counter : CounterApi cache number) where
  sent_if_free :
      (key : BudgetKey) (a : Alert) (w : List Alert × cache.Store)
      → cache.get key w.1 ≡ none
      → (alert_once cache counter true key a w).0 ≡ w.0 ++ a ∷ []
  unfolding alert_once
  sent_if_free key a w free = rw (cache.add_free key (number 1) w.1 free) refl

  -- The alerts' percentage is rounded: where neither budget is used up and no more tokens are left than
  -- a 20000th of theirs, enforcement still lets calls through, and the alert that the budget is
  -- exceeded is sent, unless its lock is stored.
  pub alerted_before_exhausted :
      (b : Budgets) (org period tokens cost : ℕ) (sent : List Alert) (s : cache.Store)
      → tokens < b.token_budget
      → cost < b.cost_budget_nanousd
      → (b.token_budget - tokens) * 20000 ≤ b.token_budget
      → cache.get (exceeded_lock org period) s ≡ none
      → (verdict b tokens cost ≡ within_budget)
        × (earlier : List Alert) × (pct : ℕ) × ((send_alerts cache counter b org period tokens cost
              (sent, s)).0
            ≡ earlier ++ new_alert budget_exceeded org period pct tokens ∷ [])
  unfolding send_alerts
  alerted_before_exhausted b org period tokens cost sent s p q few free =
      let (fits, at) = nearly_exhausted b tokens cost p q few in
      let pct = max (utilization tokens b.token_budget) (utilization cost b.cost_budget_nanousd) in
      let w =
        alert_once cache counter (leb (b.alert_threshold_pct * 100) pct) (threshold_lock org period)
          (new_alert budget_threshold_reached org period pct tokens) (sent, s) in
      let still : cache.get (exceeded_lock org period) w.1 ≡ none =
        alert_once-other cache counter _ (threshold_lock org period) (exceeded_lock org period) _
          sent s (λ e. absurd (locks_differ e))
        ∙ free in
      (
        fits,
        w.0,
        pct,
        rw (le→leb 10000 pct at) (
            sent_if_free (exceeded_lock org period)
              (new_alert budget_exceeded org period pct tokens) w still),
      )
