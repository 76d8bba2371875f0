-- ===== src/Webhooks/Tests.antt =====
-- Tests and instances for apps/core/webhooks.py.
use multilingual_task_api.Prelude.{
  ℕ, ◌≡◌, refl, Bool, true, false, ◌||◌, Option, some, none, List, [], ◌∷◌, ◌⊎◌, ltb, length, ◌==◌,
  filter, ok, err, value_error,
}
use multilingual_task_api.PyText.{Text, codes, strip, lower, text_eq, starts_with}
use multilingual_task_api.Webhooks.{
  Network, is_internal_name, is_allowed_scheme, validate_webhook_url, WebhookEndpoint,
  settle_endpoint, matching_ids, dispatch_organization_webhooks,
}
use multilingual_task_api.Webhooks.Urls.{IsPublic, ResolvesPublic, host_of, validated_is_safe}
use multilingual_task_api.Webhooks.Deliveries.{
  fail_at, deactivated_at_ten, Dispatched, dispatch_outcomes,
}

abbrev if_name : Text → Option Bool
if_name t = elim (text_eq t (codes "a.io")) [ true ↦ none | false ↦ some false ]

-- Every URL has the host "a.io", which has two addresses, both public.
abbrev net : Network
net = record {
  scheme = λ _. codes "https";
  hostname = λ _. some (codes "a.io");
  ip_flags = λ t. if_name t;
  getaddrinfo = λ _. some (codes "1.1.1.1" ∷ codes "1.0.0.1" ∷ []);
}

passes : validate_webhook_url net false true (codes " https://a.io ") ≡ ok (codes "https://a.io")
unfolding validate_webhook_url strip lower text_eq starts_with
passes = refl

plain_http_refused :
    validate_webhook_url
      (record net { scheme = λ _. codes "http" })
      false
      true
      (codes "http://a.io")
    ≡ err value_error
unfolding validate_webhook_url strip lower text_eq
plain_http_refused = refl

internal_refused :
    validate_webhook_url
      (record net { hostname = λ _. some (codes "db.internal") })
      false
      true
      (codes "x")
    ≡ err value_error
unfolding validate_webhook_url strip lower text_eq starts_with
internal_refused = refl

validated_is_safe_example :
    (codes "https://a.io" ≡ strip (codes " https://a.io "))
    × (is_allowed_scheme false (lower (net.scheme (codes "https://a.io"))) ≡ true)
    × (is_internal_name (host_of net (codes " https://a.io ")) ≡ false)
    × (IsPublic net (host_of net (codes " https://a.io "))
        ⊎ ResolvesPublic net (host_of net (codes " https://a.io ")))
validated_is_safe_example =
    validated_is_safe net false (codes " https://a.io ") (codes "https://a.io") passes

abbrev hook : WebhookEndpoint
hook = record {
  id = 3;
  organization_id = codes "acme";
  url = codes "https://a.io";
  events = codes "*" ∷ [];
  is_active = true;
  failure_count = 4;
  last_triggered_at = none;
}

deactivated_at_ten_example :
    let e = fail_at (1 ∷ 2 ∷ 3 ∷ 4 ∷ 5 ∷ 6 ∷ 7 ∷ 8 ∷ 9 ∷ 10 ∷ []) (settle_endpoint 0 true hook) in
    (e.failure_count ≡ 10) × (e.is_active ≡ ltb 10 10)
deactivated_at_ten_example =
    deactivated_at_ten (1 ∷ 2 ∷ 3 ∷ 4 ∷ 5 ∷ 6 ∷ 7 ∷ 8 ∷ 9 ∷ 10 ∷ []) 0 hook refl

acme_named : length (codes "acme") == 0 || text_eq (codes "acme") (codes "global") ≡ false
unfolding text_eq
acme_named = refl

abbrev hooks : List WebhookEndpoint
hooks = hook ∷ record hook { id = 4; is_active = false } ∷ record hook { id = 5 } ∷ []

matching : matching_ids (codes "acme") (codes "task.created") hooks ≡ 3 ∷ 5 ∷ []
unfolding matching_ids text_eq
matching = refl

abbrev all_but_five : ℕ → Bool
all_but_five i = ltb i 5

dispatch_outcomes_example :
    let ids = matching_ids (codes "acme") (codes "task.created") hooks in
    Dispatched all_but_five [] ids (
      dispatch_organization_webhooks all_but_five true
        (some (codes "acme"))
        (codes "task.created")
        hooks)
    × (dispatch_organization_webhooks all_but_five false
          (some (codes "acme"))
          (codes "task.created")
          hooks
        ≡ (ok (filter all_but_five ids), filter all_but_five ids))
dispatch_outcomes_example =
    dispatch_outcomes all_but_five (codes "acme") (codes "task.created") hooks acme_named
