-- ===== src/Finops/Tests.antt =====
-- Tests and instances for apps/core/finops.py.
use multilingual_task_api.Prelude.{
  ℕ, ◌*◌, ◌≤◌, ◌≡◌, ◌≢◌, refl, max, Option, some, none, List, [], ◌∷◌, ◌++◌, arith, ℕ_discrete,
}
use multilingual_task_api.PyText.{codes}
use multilingual_task_api.Cache.{CacheApi, CounterApi}
use multilingual_task_api.Cache.Table.{table_cache, table_counter}
use multilingual_task_api.Finops.{
  Organization, PlanDefaults, Budgets, resolve_org_ai_budgets, sum_of, BudgetKey, BudgetValue,
  number, Alert, new_alert, budget_exceeded, send_alerts, within_budget, token_budget_exceeded,
  verdict, utilization, Books, enforce_org_ai_budget,
}
use multilingual_task_api.Finops.Runs.{Run, opened, spent, spend, enforced_on_ledger, alerted_once}
use multilingual_task_api.Finops.Alerts.{alerts_of, is_threshold, is_exceeded}
use multilingual_task_api.Finops.Limits.{
  budgets_bounded, exhausted_is_alerted, alerted_before_exhausted,
}

BudgetKey-discrete : Discrete BudgetKey
BudgetKey-discrete = hlevel (ℕ_discrete)

abbrev cache : CacheApi BudgetKey BudgetValue
cache = table_cache BudgetKey-discrete

abbrev value_of : BudgetValue → Option ℕ
value_of (number n) = some n
value_of _ = none

value_of-number : (n : ℕ) → value_of (number n) ≡ some n
value_of-number n = refl

abbrev counter : CounterApi cache number
counter = table_counter BudgetKey-discrete number value_of value_of-number

abbrev plans : PlanDefaults
plans = record { tokens = λ _. some 1000; cost_microusd = λ _. none }

abbrev acme : Organization
acme = record {
  id = 7;
  plan = codes "free";
  monthly_ai_token_budget = 0;
  monthly_ai_cost_budget_microusd = 0;
  ai_budget_alert_threshold_pct = 0;
}

abbrev blank : Books cache counter
blank = record { ledger = []; alerts = []; store = λ _. none }

abbrev twice : Books cache counter
twice =
    spend cache counter plans acme 9 300 200 0 (spend cache counter plans acme 9 300 200 0 blank)

twice-Run : Run cache counter plans acme 9 twice
twice-Run = spent (spent (opened blank (refl, refl, refl, refl)) 300 200 0) 300 200 0

defaults : (resolve_org_ai_budgets plans acme).alert_threshold_pct ≡ 80
unfolding resolve_org_ai_budgets
defaults = refl

budgets_of_row :
    let b = resolve_org_ai_budgets plans acme in
    (1 ≤ b.token_budget)
    × (1 ≤ b.cost_budget_microusd)
    × (b.cost_budget_nanousd ≡ b.cost_budget_microusd * 1000)
    × (1 ≤ b.alert_threshold_pct)
    × (b.alert_threshold_pct ≤ 100)
budgets_of_row = budgets_bounded plans acme

enforced_on_ledger_example :
    let budgets = resolve_org_ai_budgets plans acme in
    (enforce_org_ai_budget cache counter budgets 7 9 twice.ledger twice.store).0
    ≡ verdict budgets
        (sum_of (λ r. r.total_tokens) 7 9 twice.ledger)
        (sum_of (λ r. r.cost_nanousd) 7 9 twice.ledger)
enforced_on_ledger_example = enforced_on_ledger cache counter plans acme 9 twice twice-Run

alerted_once_example :
    (alerts_of is_threshold twice.alerts ≤ 1) × (alerts_of is_exceeded twice.alerts ≤ 1)
alerted_once_example = alerted_once cache counter plans acme 9 twice twice-Run

abbrev hundred_thousand : Budgets
hundred_thousand = record {
  token_budget = 100000;
  cost_budget_microusd = 5000000;
  cost_budget_nanousd = 5000000000;
  alert_threshold_pct = 80;
}

spent_up : verdict hundred_thousand 100000 0 ≡ token_budget_exceeded
unfolding verdict
spent_up = refl

spent_up_out : verdict hundred_thousand 100000 0 ≢ within_budget
spent_up_out e = absurd (cc (spent_up))

alerted_when_exhausted : 10000 ≤ max (utilization 100000 100000) (utilization 0 5000000000)
alerted_when_exhausted =
    exhausted_is_alerted hundred_thousand 100000 0 (omega arith) (omega arith) spent_up_out

alerted_before_exhausted_example :
    (verdict hundred_thousand 99996 0 ≡ within_budget)
    × (earlier : List Alert) × (pct : ℕ) × ((send_alerts cache counter hundred_thousand 7 9 99996 0
          ([], λ _. none)).0
        ≡ earlier ++ new_alert budget_exceeded 7 9 pct 99996 ∷ [])
alerted_before_exhausted_example =
    alerted_before_exhausted cache counter hundred_thousand 7 9 99996 0 [] (λ _. none) (omega arith)
      (omega arith) (omega arith) refl
