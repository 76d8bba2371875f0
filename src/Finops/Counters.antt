-- ===== src/Finops/Counters.antt =====
-- The counters of apps/core/finops.py against the ledger.
use multilingual_task_api.Prelude.{
  ℕ, ◌+◌, ◌≡◌, ◌≢◌, refl, sym, ap, subst, ◌∙◌, Option, some, none, [], ◌∷◌, ◌++◌, arith, inl, inr,
  ◌⊎◌,
}
use multilingual_task_api.Cache.{CacheApi, CounterApi}
use multilingual_task_api.Finops.{
  UsageLog, Ledger, sum_of, BudgetKey, tokens_key, cost_key, BudgetValue, number, coerce_counter,
  best_known, refill, burn_of, get_monthly_org_ai_burn,
}

abbrev pub tokens_of : ℕ → ℕ → Ledger → ℕ
tokens_of = sum_of (λ r. r.total_tokens)

abbrev pub cost_of : ℕ → ℕ → Ledger → ℕ
cost_of = sum_of (λ r. r.cost_nanousd)

pub sum_of-append :
    (column : UsageLog → ℕ) (org period : ℕ) (l : Ledger) (r : UsageLog)
    → r.organization ≡ org
    → r.billing_period ≡ period
    → sum_of column org period (l ++ r ∷ []) ≡ sum_of column org period l + column r
sum_of-append column org period [] r p q = ground arith
sum_of-append column org period (x ∷ l) r p q =
    omega (arith, sum_of-append column org period l r p q)

module _ (cache : CacheApi BudgetKey BudgetValue) (counter : CounterApi cache number) where
  -- A counter is missing, or it has this number.
  abbrev pub Holds : BudgetKey → ℕ → cache.Store → Type 0
  Holds key n s = (cache.get key s ≡ none) ⊎ (cache.get key s ≡ some (number n))

  -- Both counters of a period agree with a ledger.
  abbrev pub Agrees : ℕ → ℕ → Ledger → cache.Store → Type 0
  Agrees org period l s =
      Holds (tokens_key org period) (tokens_of org period l) s
      × Holds (cost_key org period) (cost_of org period l) s

  refill_lem :
      (key : BudgetKey) (db : ℕ) (cached : Option ℕ) (s : cache.Store)
      → cached ≡ coerce_counter (cache.get key s)
      → Holds key db s
      → let (known, s') = refill cache counter key db cached s in
        (known ≡ some db) × (cache.get key s' ≡ some (number db))
  unfolding refill coerce_counter
  refill_lem key db cached s e (inr found) =
      let known : cached ≡ some db = e ∙ ap coerce_counter found in rw known (refl, found)
  refill_lem key db cached s e (inl missing) =
      let unknown : cached ≡ none = e ∙ ap coerce_counter missing in
      let stored = cache.get-set_self key (number db) s in
      rw (unknown, cache.add_free key (number db) s missing, stored) (refl, refl)

  refill-other :
      (key j : BudgetKey) (db : ℕ) (cached : Option ℕ) (s : cache.Store)
      → cached ≡ coerce_counter (cache.get key s)
      → Holds key db s
      → key ≢ j
      → cache.get j (refill cache counter key db cached s).1 ≡ cache.get j s
  unfolding refill coerce_counter
  refill-other key j db cached s e (inr found) ne =
      let known : cached ≡ some db = e ∙ ap coerce_counter found in rw known refl
  refill-other key j db cached s e (inl missing) ne =
      let unknown : cached ≡ none = e ∙ ap coerce_counter missing in
      rw (unknown, cache.add_free key (number db) s missing)
        (cache.get-set_ne key j (number db) s ne)

  best_known_same : (n : ℕ) → best_known n (some n) ≡ n
  unfolding best_known
  best_known_same n = omega arith

  pub apart : (org period : ℕ) → tokens_key org period ≢ cost_key org period
  apart org period e = absurd (cc)

  -- A reading of the burn that finds a counter missing.
  refilled :
      (org period : ℕ) (l : Ledger) (s : cache.Store) (tok cost : Option ℕ)
      → tok ≡ coerce_counter (cache.get (tokens_key org period) s)
      → cost ≡ coerce_counter (cache.get (cost_key org period) s)
      → Agrees org period l s
      → let (t, s1) = refill cache counter (tokens_key org period) (tokens_of org period l) tok s in
        let (c, s2) = refill cache counter (cost_key org period) (cost_of org period l) cost s1 in
        (best_known (tokens_of org period l) t ≡ tokens_of org period l)
        × (best_known (cost_of org period l) c ≡ cost_of org period l)
        × Agrees org period l s2
  refilled org period l s tok cost et ec (ht, hc) =
      let tk = tokens_key org period in
      let ck = cost_key org period in
      let s1 = (refill cache counter tk (tokens_of org period l) tok s).1 in
      let (known_t, at_t) = refill_lem tk (tokens_of org period l) tok s et ht in
      let same_c = refill-other tk ck (tokens_of org period l) tok s et ht (apart org period) in
      let ec1 : cost ≡ coerce_counter (cache.get ck s1) = ec ∙ ap coerce_counter (sym same_c) in
      let hc1 : Holds ck (cost_of org period l) s1 =
        subst (λ v. (v ≡ none) ⊎ (v ≡ some (number (cost_of org period l)))) (sym same_c) hc in
      let (known_c, at_c) = refill_lem ck (cost_of org period l) cost s1 ec1 hc1 in
      let same_t =
        refill-other ck tk (cost_of org period l) cost s1 ec1 hc1 (λ e. apart org period (sym e)) in
      (
        ap (best_known (tokens_of org period l)) known_t ∙ best_known_same (tokens_of org period l),
        ap (best_known (cost_of org period l)) known_c ∙ best_known_same (cost_of org period l),
        (inr (same_t ∙ at_t), inr at_c),
      )

  pub burn_lem :
      (org period : ℕ) (l : Ledger) (s : cache.Store)
      → Agrees org period l s
      → let (used, s') = get_monthly_org_ai_burn cache counter org period l s in
        (used.0 ≡ tokens_of org period l) × (used.1 ≡ cost_of org period l) × Agrees org period l s'
  unfolding get_monthly_org_ai_burn burn_of coerce_counter
  burn_lem org period l s (inr ft, inr fc) = rw (ft, fc) (refl, refl, (inr ft, inr fc))
  burn_lem org period l s (inr ft, inl mc) =
      let r =
        refilled org period l s (some (tokens_of org period l)) none (sym (ap coerce_counter ft))
          (sym (ap coerce_counter mc)) (inr ft, inl mc) in
      rw (ft, mc) r
  burn_lem org period l s (inl mt, hc) =
      let cost = coerce_counter (cache.get (cost_key org period) s) in
      let r = refilled org period l s none cost (sym (ap coerce_counter mt)) refl (inl mt, hc) in
      rw mt r

  refilled-other :
      (org period : ℕ) (l : Ledger) (s : cache.Store) (j : BudgetKey) (tok cost : Option ℕ)
      → tok ≡ coerce_counter (cache.get (tokens_key org period) s)
      → cost ≡ coerce_counter (cache.get (cost_key org period) s)
      → Agrees org period l s
      → tokens_key org period ≢ j
      → cost_key org period ≢ j
      → let (t, s1) = refill cache counter (tokens_key org period) (tokens_of org period l) tok s in
        cache.get j (refill cache counter (cost_key org period) (cost_of org period l) cost s1).1
        ≡ cache.get j s
  refilled-other org period l s j tok cost et ec (ht, hc) nt nc =
      let tk = tokens_key org period in
      let ck = cost_key org period in
      let s1 = (refill cache counter tk (tokens_of org period l) tok s).1 in
      let same_c = refill-other tk ck (tokens_of org period l) tok s et ht (apart org period) in
      let ec1 : cost ≡ coerce_counter (cache.get ck s1) = ec ∙ ap coerce_counter (sym same_c) in
      let hc1 : Holds ck (cost_of org period l) s1 =
        subst (λ v. (v ≡ none) ⊎ (v ≡ some (number (cost_of org period l)))) (sym same_c) hc in
      refill-other ck j (cost_of org period l) cost s1 ec1 hc1 nc
      ∙ refill-other tk j (tokens_of org period l) tok s et ht nt

  pub burn-other :
      (org period : ℕ) (l : Ledger) (s : cache.Store) (j : BudgetKey)
      → Agrees org period l s
      → tokens_key org period ≢ j
      → cost_key org period ≢ j
      → cache.get j (get_monthly_org_ai_burn cache counter org period l s).1 ≡ cache.get j s
  unfolding get_monthly_org_ai_burn burn_of coerce_counter
  burn-other org period l s j (inr ft, inr fc) nt nc = rw (ft, fc) refl
  burn-other org period l s j (inr ft, inl mc) nt nc =
      rw (ft, mc)
        (refilled-other org period l s j (some (tokens_of org period l)) none
          (sym (ap coerce_counter ft)) (sym (ap coerce_counter mc)) (inr ft, inl mc) nt nc)
  burn-other org period l s j (inl mt, hc) nt nc = rw mt (
      refilled-other org period l s j none (coerce_counter (cache.get (cost_key org period) s))
        (sym (ap coerce_counter mt)) refl (inl mt, hc) nt nc)
