-- ===== src/Finops/Alerts.antt =====
-- The alerts of apps/core/finops.py and their locks.
use multilingual_task_api.Prelude.{
  ℕ, ◌+◌, ◌*◌, ◌≡◌, ◌≢◌, refl, sym, ◌∙◌, max, Bool, true, false, some, List, [], ◌∷◌, ◌++◌, arith,
  Option-cases, inl, inr, ◌⊎◌, leb, if◌then◌else◌,
}
use multilingual_task_api.Cache.{CacheApi, CounterApi}
use multilingual_task_api.Finops.{
  Budgets, BudgetKey, threshold_lock, exceeded_lock, BudgetValue, number, Alert, AlertType,
  budget_threshold_reached, budget_exceeded, new_alert, alert_once, send_alerts, utilization,
}

abbrev pub is_exceeded : AlertType → Bool
is_exceeded budget_exceeded = true
is_exceeded budget_threshold_reached = false

abbrev pub is_threshold : AlertType → Bool
is_threshold budget_exceeded = false
is_threshold budget_threshold_reached = true

-- How many alerts have a type that the test accepts.
abbrev pub alerts_of : (AlertType → Bool) → List Alert → ℕ
alerts_of p [] = 0
alerts_of p (a ∷ sent) = (if p a.event_type then 1 else 0) + alerts_of p sent

alerts_of-append :
    (p : AlertType → Bool) (sent : List Alert) (a : Alert)
    → alerts_of p (sent ++ a ∷ []) ≡ alerts_of p sent + (if p a.event_type then 1 else 0)
alerts_of-append p [] a = omega arith
alerts_of-append p (b ∷ sent) a = omega (arith, alerts_of-append p sent a)

module _ (cache : CacheApi BudgetKey BudgetValue) (counter : CounterApi cache number) where
  -- No alert of this type was sent, or one was and its lock is stored.
  abbrev pub AlertedOnce : (AlertType → Bool) → BudgetKey → List Alert × cache.Store → Type 0
  AlertedOnce p key w =
      (alerts_of p w.0 ≡ 0)
      ⊎ ((alerts_of p w.0 ≡ 1) × (v : BudgetValue) × (cache.get key w.1 ≡ some v))

  pub alert_once-other :
      (reached : Bool) (key j : BudgetKey) (a : Alert) (sent : List Alert) (s : cache.Store)
      → key ≢ j
      → cache.get j (alert_once cache counter reached key a (sent, s)).1 ≡ cache.get j s
  unfolding alert_once
  alert_once-other false key j a sent s ne = refl
  alert_once-other true key j a sent s ne = elim (Option-cases (cache.get key s)) [
    | inl free ↦ rw (cache.add_free key (number 1) s free) (cache.get-set_ne key j (number 1) s ne)
    | inr (v, taken) ↦ rw (cache.add_taken key (number 1) v s taken) refl
  ]

  -- Under its own lock an alert is sent once.
  alert_once-own :
      (p : AlertType → Bool) (reached : Bool) (key : BudgetKey) (a : Alert) (sent : List Alert)
      (s : cache.Store)
      → p a.event_type ≡ true
      → AlertedOnce p key (sent, s)
      → AlertedOnce p key (alert_once cache counter reached key a (sent, s))
  unfolding alert_once
  alert_once-own p false key a sent s e h = h
  alert_once-own p true key a sent s e h = elim (Option-cases (cache.get key s)) [
    | inr (v, taken) ↦ rw (cache.add_taken key (number 1) v s taken) h
    | inl free ↦
        let none_before : alerts_of p sent ≡ 0 = elim h [
          | inl z ↦ z
          | inr (_, v, taken) ↦ absurd (cc)
        ] in
        let one_more : alerts_of p (sent ++ a ∷ []) ≡ 1 =
          alerts_of-append p sent a ∙ rw e (omega arith) in
        rw (cache.add_free key (number 1) s free)
          (inr (one_more, number 1, cache.get-set_self key (number 1) s))
  ]

  -- An alert of another type, under another lock, changes nothing for this one.
  alert_once-others :
      (p : AlertType → Bool) (reached : Bool) (key lock : BudgetKey) (a : Alert) (sent : List Alert)
      (s : cache.Store)
      → p a.event_type ≡ false
      → lock ≢ key
      → AlertedOnce p key (sent, s)
      → AlertedOnce p key (alert_once cache counter reached lock a (sent, s))
  unfolding alert_once
  alert_once-others p false key lock a sent s e ne h = h
  alert_once-others p true key lock a sent s e ne h = elim (Option-cases (cache.get lock s)) [
    | inr (v, taken) ↦ rw (cache.add_taken lock (number 1) v s taken) h
    | inl free ↦
        let same : alerts_of p (sent ++ a ∷ []) ≡ alerts_of p sent =
          alerts_of-append p sent a ∙ rw e (omega arith) in
        rw (cache.add_free lock (number 1) s free) (elim h [
          | inl z ↦ inl (same ∙ z)
          | inr (one, v, taken) ↦
              inr (same ∙ one, v, cache.get-set_ne lock key (number 1) s ne ∙ taken)
        ])
  ]

  locks_differ : (org period : ℕ) → threshold_lock org period ≢ exceeded_lock org period
  locks_differ org period e = absurd (cc)

  -- Both alerts of a spend.
  pub send_alerts_once :
      (b : Budgets) (org period new_tok new_cost : ℕ) (sent : List Alert) (s : cache.Store)
      → AlertedOnce is_threshold (threshold_lock org period) (sent, s)
      → AlertedOnce is_exceeded (exceeded_lock org period) (sent, s)
      → let w = send_alerts cache counter b org period new_tok new_cost (sent, s) in
        AlertedOnce is_threshold (threshold_lock org period) w
        × AlertedOnce is_exceeded (exceeded_lock org period) w
  unfolding send_alerts
  send_alerts_once b org period new_tok new_cost sent s ht he =
      let pct =
        max (utilization new_tok b.token_budget) (utilization new_cost b.cost_budget_nanousd) in
      let tl = threshold_lock org period in
      let el = exceeded_lock org period in
      let ta = new_alert budget_threshold_reached org period pct new_tok in
      let ea = new_alert budget_exceeded org period pct new_tok in
      let reached = leb (b.alert_threshold_pct * 100) pct in
      let w = alert_once cache counter reached tl ta (sent, s) in
      let ht1 = alert_once-own is_threshold reached tl ta sent s refl ht in
      let he1 =
        alert_once-others is_exceeded reached el tl ta sent s refl (locks_differ org period) he in
      (
        alert_once-others is_threshold (leb 10000 pct) tl el ea w.0 w.1 refl
            (λ e. locks_differ org period (sym e)) ht1,
        alert_once-own is_exceeded (leb 10000 pct) el ea w.0 w.1 refl he1,
      )

  -- What is stored elsewhere stays.
  pub send_alerts-other :
      (b : Budgets) (org period new_tok new_cost : ℕ) (j : BudgetKey) (sent : List Alert)
      (s : cache.Store)
      → threshold_lock org period ≢ j
      → exceeded_lock org period ≢ j
      → cache.get j (send_alerts cache counter b org period new_tok new_cost (sent, s)).1
        ≡ cache.get j s
  unfolding send_alerts
  send_alerts-other b org period new_tok new_cost j sent s nt ne =
      let pct =
        max (utilization new_tok b.token_budget) (utilization new_cost b.cost_budget_nanousd) in
      let tl = threshold_lock org period in
      let ta = new_alert budget_threshold_reached org period pct new_tok in
      let ea = new_alert budget_exceeded org period pct new_tok in
      let reached = leb (b.alert_threshold_pct * 100) pct in
      let w = alert_once cache counter reached tl ta (sent, s) in
      alert_once-other (leb 10000 pct) (exceeded_lock org period) j ea w.0 w.1 ne
      ∙ alert_once-other reached tl j ta sent s nt
