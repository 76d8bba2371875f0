-- ===== src/Throttle.antt =====
-- apps/core/throttling.py: the sliding-window limits per organization plan and for health probes.
-- Times are whole seconds of one clock (the source's clock is a float, and `int` of a sum of whole
-- seconds is the sum); a time of a history is the time of a request that was let through.
-- `SimpleRateThrottle` of the REST framework is a parameter, with what it documents of the calls.
pub mod Window
pub mod Quota
pub mod Tests
use multilingual_task_api.Prelude.{
  ℕ, ◌+◌, ◌-◌, ◌≡◌, max, Bool, true, false, ◌&&◌, Option, some, none, List, [], ◌∷◌, ◌==◌, leb,
  if◌then◌else◌, length,
}
use multilingual_task_api.PyText.{Text, codes, lower, text_eq}
use multilingual_task_api.Cache.{CacheApi}

pub data Scope : Type 0 where
  health org_free org_starter org_professional org_enterprise : Scope

-- `cache_format` with a scope and an identity.
pub record ThrottleKey : Type 0 where
  pub scope : Scope
  pub ident : ℕ

-- What is stored under a key: a list of times, or something else.
pub data ThrottleValue : Type 0 where
  history : List ℕ → ThrottleValue
  foreign : ThrottleValue

-- The parts of the framework's class that the code calls. `parse_rate` reads a rate such as
-- "60/min"; a success puts the time in front of the history and stores it.
pub record RateThrottle (cache : CacheApi ThrottleKey ThrottleValue) : Type 0 where
  pub parse_rate : Text → Option (ℕ × ℕ)
  pub throttle_success : ThrottleKey → ℕ → List ℕ → cache.Store → Bool × List ℕ × cache.Store
  pub throttle_failure : Bool
  pub success_lem :
      (k : ThrottleKey) (now : ℕ) (h : List ℕ) (s : cache.Store)
      → throttle_success k now h s ≡ (true, now ∷ h, cache.set k (history (now ∷ h)) s)
  pub failure_lem : throttle_failure ≡ false

-- `_org_ratelimit_meta`
pub record RateLimitMeta : Type 0 where
  pub limit : ℕ
  pub remaining : ℕ
  pub reset : ℕ
  pub plan : Text

-- An organization as the throttle sees it.
pub record OrgPlan : Type 0 where
  pub id : ℕ
  pub plan : Text

-- `_PLAN_SCOPE_MAP.get(plan)`
unfoldable pub plan_scope : Text → Option Scope
plan_scope plan =
    if text_eq plan (codes "free")
    then some org_free
    else if text_eq plan (codes "starter")
    then some org_starter
    else if text_eq plan (codes "professional")
    then some org_professional
    else if text_eq plan (codes "enterprise")
    then some org_enterprise
    else none

unfoldable pub default_rate : Scope → Text
default_rate org_free = codes "60/min"
default_rate org_starter = codes "300/min"
default_rate org_professional = codes "1200/min"
default_rate org_enterprise = codes "6000/min"
default_rate health = []

unfoldable pub or_free : Option Scope → Scope
or_free none = org_free
or_free (some s) = s

unfoldable pub or_default : Option Text → Text → Text
or_default none d = d
or_default (some []) d = d
or_default (some (c ∷ t)) d = c ∷ t

-- `str(getattr(org, "plan", "free") or "free").lower()`
unfoldable pub clean_plan : Text → Text
clean_plan [] = codes "free"
clean_plan (c ∷ t) = lower (c ∷ t)

unfoldable pub resolved_scope : OrgPlan → Scope
unfolding or_free plan_scope clean_plan
resolved_scope org = or_free (plan_scope (clean_plan org.plan))

-- `while history and history[-1] <= now - duration: history.pop()`, the newest time first.
unfoldable pub drop_stale : ℕ → ℕ → List ℕ → List ℕ
drop_stale now duration [] = []
drop_stale now duration (t ∷ ts) =
    let rest = drop_stale now duration ts in
    if length rest == 0 && leb (t + duration) now then [] else t ∷ rest

-- `history[-1] if history else now`
unfoldable pub oldest : List ℕ → ℕ → ℕ
oldest [] now = now
oldest (t ∷ ts) now = oldest ts t

unfoldable pub known_plan : Option Scope → Text → Text
known_plan none plan = codes "free"
known_plan (some s) plan = plan

unfoldable pub history_of : Option ThrottleValue → List ℕ
history_of (some (history h)) = h
history_of _ = []

module _ (cache : CacheApi ThrottleKey ThrottleValue) (drf : RateThrottle cache) where
  open drf use {parse_rate, throttle_success, throttle_failure}

  abbrev pub Answer : Type 0
  Answer = Bool × Option RateLimitMeta × cache.Store

  -- The window test and the two outcomes, once rate and key are known.
  unfoldable pub slide : ThrottleKey → Text → ℕ → ℕ → ℕ → List ℕ → cache.Store → Answer
  unfolding drop_stale oldest
  slide key plan num_requests duration now raw_history s =
      let kept = drop_stale now duration raw_history in
      let (allowed, later, s') = throttle_success key now kept s in
      if leb num_requests (length kept)
      then (
        throttle_failure,
        some (record {
          limit = num_requests;
          remaining = 0;
          reset = oldest kept now + duration;
          plan = plan;
        }),
        s,
      )
      else (
        allowed,
        some (record {
          limit = num_requests;
          remaining = num_requests - length later;
          reset = oldest later now + duration;
          plan = plan;
        }),
        s',
      )

  limited : OrgPlan → Option (ℕ × ℕ) → ℕ → cache.Store → Answer
  limited org none now s = (true, none, s)
  limited org (some (num_requests, duration)) now s =
      let key : ThrottleKey = record { scope = resolved_scope org; ident = org.id } in
      let plan = clean_plan org.plan in
      slide key (known_plan (plan_scope plan) plan) num_requests duration now
        (history_of (cache.get key s)) s

  -- `OrganizationPlanRateThrottle.allow_request`; `rates` is the configured table.
  unfoldable pub allow_request : (Scope → Option Text) → Option OrgPlan → ℕ → cache.Store → Answer
  unfolding limited resolved_scope or_default default_rate known_plan history_of
  allow_request rates none now s = (true, none, s)
  allow_request rates (some org) now s =
      let scope = resolved_scope org in
      limited org (parse_rate (or_default (rates scope) (default_rate scope))) now s

  probe_at : ThrottleKey → ℕ → ℕ → ℕ → Option ThrottleValue → cache.Store → Bool × cache.Store
  probe_at key num_requests duration now (some foreign) s = (true, s)
  probe_at key num_requests duration now raw s =
      let kept = drop_stale now duration (history_of raw) in
      let (allowed, _, s') = throttle_success key now kept s in
      if leb num_requests (length kept) then (throttle_failure, s) else (allowed, s')

  -- `HealthCheckAnonRateThrottle.allow_request`; without a reachable cache it lets all through.
  unfoldable pub allow_probe :
      Bool → Option (ℕ × ℕ) → Option ℕ → ℕ → cache.Store → Bool × cache.Store
  unfolding probe_at drop_stale history_of
  allow_probe up none ident now s = (true, s)
  allow_probe up (some rate) none now s = (true, s)
  allow_probe false (some rate) (some ident) now s = (true, s)
  allow_probe true (some (num_requests, duration)) (some ident) now s =
      let key : ThrottleKey = record { scope = health; ident = ident } in
      probe_at key num_requests duration now (cache.get key s) s

-- `OrganizationPlanRateThrottle.wait`: seconds until the oldest request leaves the window.
unfoldable pub wait : ℕ → ℕ → List ℕ → Option ℕ
wait now duration [] = none
wait now duration (t ∷ ts) = some (oldest ts t + duration - now)
