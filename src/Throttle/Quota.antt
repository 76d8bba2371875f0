-- ===== src/Throttle/Quota.antt =====
-- The quota that apps/core/throttling.py reports with each answer.
use multilingual_task_api.Prelude.{
  ℕ, ◌+◌, ◌-◌, ◌≤◌, ◌<◌, ◌≡◌, refl, Bool, true, false, Option, some, List, [], ◌∷◌, leb, leb→le,
  length, arith, Bool-cases, inl, inr, ◌⊎◌, ◌==◌,
}
use multilingual_task_api.Cache.{CacheApi}
use multilingual_task_api.Throttle.{
  Scope, ThrottleKey, ThrottleValue, RateThrottle, RateLimitMeta, OrgPlan, resolved_scope,
  default_rate, or_default, drop_stale, oldest, slide, history_of, allow_request, known_plan,
  plan_scope, clean_plan,
}
use multilingual_task_api.PyText.{Text}
use multilingual_task_api.Throttle.Window.{key_of, length-zero}

oldest_of : (h : List ℕ) (x y : ℕ) → 1 ≤ length h → oldest h x ≡ oldest h y
unfolding oldest
oldest_of [] x y q = absurd (omega arith)
oldest_of (t ∷ h) x y q = refl

oldest_nil : (h : List ℕ) (x : ℕ) → h ≡ [] → oldest h x ≡ x
unfolding oldest
oldest_nil h x e = rw e

kept_step :
    (now d x t : ℕ) (ts : List ℕ)
    → now < x + d
    → now < oldest (drop_stale now d ts) x + d
    → now < oldest (drop_stale now d (t ∷ ts)) x + d
unfolding drop_stale oldest
kept_step now d x t ts q ih =
    let rest = drop_stale now d ts in
    elim (Bool-cases (length rest == 0)) [
      | inr more ↦ rw more (rw (oldest_of rest t x (ground arith)) ih)
      | inl none_kept ↦ elim (Bool-cases (leb (t + d) now)) [
        | inl late ↦ rw (none_kept, late) q
        | inr fresh ↦
            rw (none_kept, fresh)
              (rw (oldest_nil rest t (length-zero rest none_kept)) (ground arith))
      ]
    ]

-- The oldest time that is kept, or a time `x` of the window, is not stale.
oldest-kept : (now d x : ℕ) (h : List ℕ) → now < x + d → now < oldest (drop_stale now d h) x + d
oldest-kept now d x [] q = unfold drop_stale oldest in q
oldest-kept now d x (t ∷ ts) q = kept_step now d x t ts q (oldest-kept now d x ts q)

module _ (cache : CacheApi ThrottleKey ThrottleValue) (drf : RateThrottle cache)
    (rates : Scope → Option Text) (org : OrgPlan) where
  -- What an answer says: with the request, if it was let through, the window has `used` requests.
  abbrev pub Reports : ℕ → ℕ → ℕ → cache.Store → Bool → RateLimitMeta → cache.Store → Type 0
  Reports n now used s allowed m s' =
      (m.limit ≡ n)
      × (now < m.reset)
      × (((allowed ≡ true) × (m.remaining + (used + 1) ≡ n))
          ⊎ ((allowed ≡ false) × (n ≤ used) × (m.remaining ≡ 0) × (s' ≡ s)))

  abbrev the_plan : Text
  the_plan = known_plan (plan_scope (clean_plan org.plan)) (clean_plan org.plan)

  abbrev refused_meta : ℕ → ℕ → ℕ → List ℕ → RateLimitMeta
  refused_meta n d now kept = record {
    limit = n;
    remaining = 0;
    reset = oldest kept now + d;
    plan = the_plan;
  }

  abbrev admitted_meta : ℕ → ℕ → ℕ → List ℕ → RateLimitMeta
  admitted_meta n d now kept = record {
    limit = n;
    remaining = n - length (now ∷ kept);
    reset = oldest (now ∷ kept) now + d;
    plan = the_plan;
  }

  -- Under a rate of `n` requests in `d` seconds, `d` positive, every answer reports the limit, a reset that is
  -- still to come, and what remains: for a request that is let through, the rest of the `n` beyond
  -- the requests that the window still holds and this one; for a refused one nothing, the window
  -- then holds `n` requests or more, and the cache is unchanged.
  pub quota_reported :
      (n d now : ℕ) (s : cache.Store)
      → drf.parse_rate (or_default (rates (resolved_scope org)) (default_rate (resolved_scope org)))
        ≡ some (n, d)
      → 1 ≤ d
      → let (allowed, meta, s') = allow_request cache drf rates (some org) now s in
        let used =
          length (drop_stale now d (history_of (cache.get (key_of cache drf rates org) s))) in
        (m : RateLimitMeta) × (meta ≡ some m) × Reports n now used s allowed m s'
  unfolding allow_request slide
  quota_reported n d now s rate p =
      let h = history_of (cache.get (key_of cache drf rates org) s) in
      let kept = drop_stale now d h in
      let soon : now < oldest kept now + d = oldest-kept now d now h (omega arith) in
      elim (Bool-cases (leb n (length kept))) [
        | inl full ↦ rw rate (
            rw full (
              refused_meta n d now kept,
              refl,
              (refl, soon, inr (drf.failure_lem, leb→le n (length kept) full, refl, refl)),
            ))
        | inr fits ↦ rw rate (
            rw (fits, drf.success_lem (key_of cache drf rates org) now kept s)
              (admitted_meta n d now kept, refl, (refl, soon, inl (refl, ground arith))))
      ]
