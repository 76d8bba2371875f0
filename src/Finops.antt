-- ===== src/Finops.antt =====
-- apps/core/finops.py: an organization's monthly AI budgets, the ledger of its spending, the rolled-up
-- counters in the cache and the alerts. The percentages are rounded exactly, where the source
-- divides and rounds floats. A cache that cannot be reached is not described here.
pub mod Runs
pub mod Limits
pub mod Counters
pub mod Totals
pub mod Alerts
pub mod Tests
use multilingual_task_api.Prelude.{
  ℕ, ◌+◌, ◌*◌, ◌/◌, min, max, Bool, true, false, ◌&&◌, ◌||◌, Option, some, none, List, [], ◌∷◌,
  ◌++◌, ltb, leb, ◌==◌, if◌then◌else◌, Outcome, ok, err, Exn,
}
use multilingual_task_api.PyText.{Text}
use multilingual_task_api.Cache.{CacheApi, CounterApi}

-- The columns of `Organization` that set its budgets.
pub record Organization : Type 0 where
  pub id : ℕ
  pub plan : Text
  pub monthly_ai_token_budget : ℕ
  pub monthly_ai_cost_budget_microusd : ℕ
  pub ai_budget_alert_threshold_pct : ℕ

-- The settings AI_PLAN_MONTHLY_TOKEN_BUDGETS and AI_PLAN_MONTHLY_COST_MICROUSD.
pub record PlanDefaults : Type 0 where
  pub tokens : Text → Option ℕ
  pub cost_microusd : Text → Option ℕ

pub record Budgets : Type 0 where
  pub token_budget : ℕ
  pub cost_budget_microusd : ℕ
  pub cost_budget_nanousd : ℕ
  pub alert_threshold_pct : ℕ

unfoldable pub or_else : Option ℕ → ℕ → ℕ
or_else none d = d
or_else (some n) d = n

-- The organization's own ceiling, or its plan's where that is 0.
unfoldable pub ceiling : ℕ → Option ℕ → ℕ → ℕ
unfolding or_else
ceiling own by_plan default = if ltb 0 own then own else or_else by_plan default

unfoldable pub resolve_org_ai_budgets : PlanDefaults → Organization → Budgets
unfolding ceiling
resolve_org_ai_budgets plans org =
    let token_budget = ceiling org.monthly_ai_token_budget (plans.tokens org.plan) 100000 in
    let cost_microusd =
      ceiling org.monthly_ai_cost_budget_microusd (plans.cost_microusd org.plan) 5000000 in
    let pct = org.ai_budget_alert_threshold_pct in
    record {
      token_budget = max 1 token_budget;
      cost_budget_microusd = max 1 cost_microusd;
      cost_budget_nanousd = max 1000 (cost_microusd * 1000);
      alert_threshold_pct = max 1 (min 100 (if pct == 0 then 80 else pct));
    }

-- A row of `AIUsageLog`; a billing period is a number of months.
pub record UsageLog : Type 0 where
  pub organization : ℕ
  pub billing_period : ℕ
  pub prompt_tokens : ℕ
  pub completion_tokens : ℕ
  pub total_tokens : ℕ
  pub cost_nanousd : ℕ

abbrev pub Ledger : Type 0
Ledger = List UsageLog

-- `filter(organization=..., billing_period=...).aggregate(Sum(...))`, nothing counting as 0.
abbrev pub sum_of : (UsageLog → ℕ) → ℕ → ℕ → Ledger → ℕ
sum_of column org period [] = 0
sum_of column org period (r ∷ rs) =
    (if r.organization == org && r.billing_period == period then column r else 0)
    + sum_of column org period rs

-- The keys of an organization in a billing period.
pub data BudgetKey : Type 0 where
  tokens_key cost_key threshold_lock exceeded_lock : ℕ → ℕ → BudgetKey

pub data BudgetValue : Type 0 where
  number : ℕ → BudgetValue
  foreign : BudgetValue

-- `_coerce_counter`, on a value that is no text of digits.
unfoldable pub coerce_counter : Option BudgetValue → Option ℕ
coerce_counter (some (number n)) = some n
coerce_counter _ = none

unfoldable pub best_known : ℕ → Option ℕ → ℕ
best_known db none = db
best_known db (some cached) = max db cached

-- `AIBudgetExceededError`, with the reason of its snapshot.
pub data Enforcement : Type 0 where
  within_budget : Enforcement
  token_budget_exceeded cost_budget_exceeded : Enforcement

unfoldable pub verdict : Budgets → ℕ → ℕ → Enforcement
verdict b tokens_used cost_nanousd =
    if leb b.token_budget tokens_used || leb b.cost_budget_nanousd cost_nanousd
    then (if leb b.token_budget tokens_used then token_budget_exceeded else cost_budget_exceeded)
    else within_budget

-- `round(used / budget * 100, 2)` in hundredths of a percent.
unfoldable pub utilization : ℕ → ℕ → ℕ
utilization used budget = (used * 20000 + budget) / (budget * 2)

pub data AlertType : Type 0 where
  budget_threshold_reached budget_exceeded : AlertType

-- An event that is handed to the outbox.
pub record Alert : Type 0 where
  pub event_type : AlertType
  pub organization : ℕ
  pub billing_period : ℕ
  pub utilization_pct : ℕ
  pub tokens_used : ℕ

abbrev pub new_alert : AlertType → ℕ → ℕ → ℕ → ℕ → Alert
new_alert event_type org period pct tokens_used = record {
  event_type = event_type;
  organization = org;
  billing_period = period;
  utilization_pct = pct;
  tokens_used = tokens_used;
}

module _ (cache : CacheApi BudgetKey BudgetValue) (counter : CounterApi cache number) where
  -- What the database and the cache hold.
  pub record Books : Type 0 where
    pub ledger : Ledger
    pub alerts : List Alert
    pub store : cache.Store

  -- A counter that is missing is added from the ledger and read again.
  unfoldable pub refill : BudgetKey → ℕ → Option ℕ → cache.Store → Option ℕ × cache.Store
  refill key db (some cached) s = (some cached, s)
  refill key db none s =
      let s' = (cache.add key (number db) s).1 in (coerce_counter (cache.get key s'), s')

  burn_of : ℕ → ℕ → Ledger → cache.Store → Option ℕ → Option ℕ → (ℕ × ℕ) × cache.Store
  burn_of org period ledger s (some tok) (some cost) = ((tok, cost), s)
  burn_of org period ledger s cached_tok cached_cost =
      let db_tok = sum_of (λ r. r.total_tokens) org period ledger in
      let db_cost = sum_of (λ r. r.cost_nanousd) org period ledger in
      let (tok, s1) = refill (tokens_key org period) db_tok cached_tok s in
      let (cost, s2) = refill (cost_key org period) db_cost cached_cost s1 in
      ((best_known db_tok tok, best_known db_cost cost), s2)

  -- Tokens and cost of the period, and the cache after the reading.
  unfoldable pub get_monthly_org_ai_burn : ℕ → ℕ → Ledger → cache.Store → (ℕ × ℕ) × cache.Store
  unfolding burn_of refill best_known coerce_counter
  get_monthly_org_ai_burn org period ledger s =
      burn_of org period ledger s (coerce_counter (cache.get (tokens_key org period) s))
        (coerce_counter (cache.get (cost_key org period) s))

  -- `enforce_org_ai_budget`, for an organization that was found, with its budgets.
  unfoldable pub enforce_org_ai_budget :
      Budgets → ℕ → ℕ → Ledger → cache.Store → Enforcement × cache.Store
  unfolding verdict get_monthly_org_ai_burn
  enforce_org_ai_budget budgets org period ledger s =
      let (used, s') = get_monthly_org_ai_burn org period ledger s in
      (verdict budgets used.0 used.1, s')

  unfoldable pub increment_monthly_counter :
      BudgetKey → ℕ → ℕ → cache.Store → Outcome (ℕ × cache.Store)
  unfolding or_else coerce_counter
  increment_monthly_counter key delta seed_total s =
      if delta == 0
      then ok (or_else (coerce_counter (cache.get key s)) seed_total, s)
      else elim (counter.incr key delta s) [
        | ok r ↦ ok r
        | err e ↦
            (let (added, s') = cache.add key (number seed_total) s in
              if added then ok (seed_total, s') else counter.incr key delta s')
      ]

  -- The new totals after a row of `total_tok` and `c_nano`, with the ledger that has the row.
  unfoldable pub totals :
      ℕ → ℕ → ℕ → ℕ → Ledger → cache.Store → Option ℕ → Option ℕ → Outcome (ℕ × ℕ) × cache.Store
  unfolding increment_monthly_counter
  totals org period total_tok c_nano ledger s (some tok) (some cost) =
      elim (increment_monthly_counter (tokens_key org period) total_tok total_tok s) [
        | err e ↦ (err e, s)
        | ok (new_tok, s1) ↦
            elim (increment_monthly_counter (cost_key org period) c_nano c_nano s1) [
              | err e ↦ (err e, s1)
              | ok (new_cost, s2) ↦ (ok (new_tok, new_cost), s2)
            ]
      ]
  totals org period total_tok c_nano ledger s prior_tok prior_cost =
      let db_tok = sum_of (λ r. r.total_tokens) org period ledger in
      let db_cost = sum_of (λ r. r.cost_nanousd) org period ledger in
      (
        ok (db_tok, db_cost),
        cache.set (cost_key org period) (number db_cost)
            (cache.set (tokens_key org period) (number db_tok) s),
      )

  -- An alert is sent where its limit is reached and its lock is free, and the lock is taken.
  unfoldable pub alert_once :
      Bool → BudgetKey → Alert → List Alert × cache.Store → List Alert × cache.Store
  alert_once reached key alert (alerts, s) =
      let (added, s') = cache.add key (number 1) s in
      if reached then (if added then (alerts ++ alert ∷ [], s') else (alerts, s')) else (alerts, s)

  unfoldable pub send_alerts :
      Budgets → ℕ → ℕ → ℕ → ℕ → List Alert × cache.Store → List Alert × cache.Store
  unfolding alert_once utilization
  send_alerts b org period new_tok new_cost st =
      let pct =
        max (utilization new_tok b.token_budget) (utilization new_cost b.cost_budget_nanousd) in
      alert_once (leb 10000 pct) (exceeded_lock org period)
        (new_alert budget_exceeded org period pct new_tok)
        (alert_once (leb (b.alert_threshold_pct * 100) pct) (threshold_lock org period)
          (new_alert budget_threshold_reached org period pct new_tok) st)

  unfoldable pub settle_spend :
      Budgets → ℕ → ℕ → UsageLog → Books → Outcome (ℕ × ℕ) × cache.Store → Books
  unfolding send_alerts
  settle_spend b org period row books (err e, s) = record books { store = s }
  settle_spend b org period row books (ok (new_tok, new_cost), s) =
      let (alerts, s') = send_alerts b org period new_tok new_cost (books.alerts, s) in
      record { ledger = books.ledger ++ row ∷ []; alerts = alerts; store = s' }

  -- `record_org_ai_spend_and_alerts`, for an organization that was found and for amounts that are not
  -- negative; an exception takes back what the database was told, not what the cache was.
  unfoldable pub record_org_ai_spend_and_alerts :
      PlanDefaults → Organization → ℕ → ℕ → ℕ → ℕ → Books → Books
  unfolding settle_spend totals increment_monthly_counter send_alerts coerce_counter
  record_org_ai_spend_and_alerts plans org period p_tok c_tok c_nano books =
      let row : UsageLog = record {
        organization = org.id;
        billing_period = period;
        prompt_tokens = p_tok;
        completion_tokens = c_tok;
        total_tokens = p_tok + c_tok;
        cost_nanousd = c_nano;
      } in
      if p_tok + c_tok == 0 && c_nano == 0
      then books
      else settle_spend (resolve_org_ai_budgets plans org) org.id period row books (
          totals org.id period (p_tok + c_tok) c_nano (books.ledger ++ row ∷ []) books.store
            (coerce_counter (cache.get (tokens_key org.id period) books.store))
            (coerce_counter (cache.get (cost_key org.id period) books.store)))
