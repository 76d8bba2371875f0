-- ===== src/Webhooks.antt =====
-- apps/core/webhooks.py: the check of a webhook's URL, the outcome of a delivery and the dispatch of an
-- event to the endpoints of an organization. `urllib`, `ipaddress`, DNS and the HTTP connection are
-- parameters, each a function with the answers that the code looks at.
pub mod Urls
pub mod Deliveries
pub mod Tests
use mathlib.Core.List.{reverse}
use multilingual_task_api.Prelude.{
  ℕ, ◌+◌, ◌/◌, ◌%◌, Bool, true, false, not, ◌&&◌, ◌||◌, Option, some, none, List, [], ◌∷◌, ◌++◌,
  leb, ltb, ◌==◌, if◌then◌else◌, length, Outcome, ok, err, value_error, runtime_error, ◌>>=◌, ◌>>◌,
  raise_if,
}
use multilingual_task_api.PyText.{Text, codes, strip, lower, text_eq, starts_with}

-- What the code asks of `urllib.parse.urlparse`, of `ipaddress.ip_address` (nothing where it raises,
-- else whether one of the six flags is set), and of `socket.getaddrinfo` (nothing where it raises).
pub record Network : Type 0 where
  pub scheme : Text → Text
  pub hostname : Text → Option Text
  pub ip_flags : Text → Option Bool
  pub getaddrinfo : Text → Option (List Text)

-- `_is_forbidden_ip`
unfoldable pub is_forbidden_ip : Network → Text → Outcome Bool
is_forbidden_ip net ip = elim (net.ip_flags ip) [ none ↦ err value_error | some f ↦ ok f ]

unfoldable pub ends_with : Text → Text → Bool
ends_with t part = starts_with (reverse t) (reverse part)

unfoldable pub is_internal_name : Text → Bool
unfolding ends_with
is_internal_name host =
    text_eq host (codes "localhost")
    || text_eq host (codes "localhost.localdomain")
    || ends_with host (codes ".local")
    || ends_with host (codes ".internal")
    || ends_with host (codes ".localhost")

unfoldable pub is_allowed_scheme : Bool → Text → Bool
is_allowed_scheme debug scheme =
    text_eq scheme (codes "https") || (debug && text_eq scheme (codes "http"))

unfoldable pub or_empty : Option Text → Text
or_empty none = []
or_empty (some t) = t

-- The loop over the resolved addresses.
unfoldable pub check_addresses : Network → List Text → Outcome (Unit {0})
unfolding is_forbidden_ip
check_addresses net [] = ok tt
check_addresses net (ip ∷ ips) =
    let rest = check_addresses net ips in
    elim (is_forbidden_ip net ip) [ err e ↦ err e | ok f ↦ if f then err value_error else rest ]

-- The DNS part of the check, for a name that is no literal address.
unfoldable pub check_dns : Network → Text → Outcome (Unit {0})
unfolding check_addresses
check_dns net host = elim (net.getaddrinfo host) [
  | none ↦ err value_error
  | some ips ↦ if length ips == 0 then err value_error else check_addresses net ips
]

-- The address part: a literal address by its flags, a name by DNS if that is asked for.
unfoldable pub check_host : Network → Bool → Text → Option Bool → Outcome (Unit {0})
unfolding check_dns
check_host net resolve_dns host (some f) = raise_if f value_error
check_host net resolve_dns host none = if resolve_dns then check_dns net host else ok tt

-- `validate_webhook_url`; `debug` is the setting DEBUG.
unfoldable pub validate_webhook_url : Network → Bool → Bool → Text → Outcome Text
unfolding is_internal_name is_allowed_scheme or_empty check_host
validate_webhook_url net debug resolve_dns url = do
  let cleaned = strip url
  let host = lower (strip (or_empty (net.hostname cleaned)))
  raise_if (not (is_allowed_scheme debug (lower (net.scheme cleaned)))) value_error
  raise_if (length host == 0) value_error
  raise_if (is_internal_name host) value_error
  check_host net resolve_dns host (net.ip_flags host)
  ok cleaned

-- The columns of `WebhookEndpoint` that delivery and dispatch use.
pub record WebhookEndpoint : Type 0 where
  pub id : ℕ
  pub organization_id : Text
  pub url : Text
  pub events : List Text
  pub is_active : Bool
  pub failure_count : ℕ
  pub last_triggered_at : Option ℕ

abbrev pub max_consecutive_webhook_failures : ℕ
max_consecutive_webhook_failures = 10

-- How the `try` block of a delivery ends: with a status code, or with an exception.
pub data Attempt : Type 0 where
  responded : ℕ → Attempt
  raised : Attempt

-- The row of `WebhookDelivery`, without its texts.
pub record WebhookDelivery : Type 0 where
  pub endpoint : ℕ
  pub event_type : Text
  pub response_status : Option ℕ
  pub success : Bool

-- The request is sent only to a URL that passes the check, with DNS.
unfoldable pub attempt : Network → Bool → (Text → Option ℕ) → WebhookEndpoint → Attempt
unfolding validate_webhook_url
attempt net debug post e = elim (validate_webhook_url net debug true e.url) [
  | err x ↦ raised
  | ok safe_url ↦ elim (post safe_url) [ none ↦ raised | some status ↦ responded status ]
]

unfoldable pub is_success : Attempt → Bool
is_success (responded status) = leb 200 status && ltb status 300
is_success raised = false

status_of : Attempt → Option ℕ
status_of (responded status) = some status
status_of raised = none

-- The endpoint after a delivery at `now`.
unfoldable pub settle_endpoint : ℕ → Bool → WebhookEndpoint → WebhookEndpoint
settle_endpoint now true e = record e { failure_count = 0; last_triggered_at = some now }
settle_endpoint now false e = record e {
  failure_count = e.failure_count + 1;
  last_triggered_at = some now;
  is_active =
      if leb max_consecutive_webhook_failures (e.failure_count + 1) then false else e.is_active;
}

-- `deliver_webhook_sync`
unfoldable pub deliver_webhook_sync :
    Network
    → Bool
    → (Text → Option ℕ)
    → ℕ
    → Text
    → WebhookEndpoint
    → WebhookDelivery × WebhookEndpoint
unfolding attempt is_success status_of settle_endpoint
deliver_webhook_sync net debug post now event_type e =
    let a = attempt net debug post e in
    (
      record {
        endpoint = e.id;
        event_type = event_type;
        response_status = status_of a;
        success = is_success a;
      },
      settle_endpoint now (is_success a) e,
    )

has_event : List Text → Text → Bool
has_event [] t = false
has_event (x ∷ xs) t = text_eq x t || has_event xs t

-- The endpoint is active, of the organization, and subscribed to the event or to all.
unfoldable pub is_matching : Text → Text → WebhookEndpoint → Bool
unfolding has_event
is_matching organization_id event_type e =
    text_eq e.organization_id organization_id
    && e.is_active
    && (has_event e.events event_type || has_event e.events (codes "*"))

unfoldable pub matching_ids : Text → Text → List WebhookEndpoint → List ℕ
unfolding is_matching
matching_ids organization_id event_type [] = []
matching_ids organization_id event_type (e ∷ es) =
    let rest = matching_ids organization_id event_type es in
    if is_matching organization_id event_type e then e.id ∷ rest else rest

-- The loop over the endpoints; `broker` tells for which of them the task queue takes the delivery.
-- The result is what is in the queue, and the count or the queue's exception.
unfoldable pub enqueue_all : (ℕ → Bool) → Bool → List ℕ → List ℕ → Outcome (List ℕ) × List ℕ
enqueue_all broker raise_on_broker_error queued [] = (ok queued, queued)
enqueue_all broker raise_on_broker_error queued (i ∷ is) = elim (broker i) [
  | true ↦ enqueue_all broker raise_on_broker_error (queued ++ i ∷ []) is
  | false ↦ elim raise_on_broker_error [
    | true ↦ (err runtime_error, queued)
    | false ↦ enqueue_all broker raise_on_broker_error queued is
  ]
]

-- `dispatch_organization_webhooks`: the ids that were enqueued, whose number it returns.
unfoldable pub dispatch_organization_webhooks :
    (ℕ → Bool) → Bool → Option Text → Text → List WebhookEndpoint → Outcome (List ℕ) × List ℕ
unfolding matching_ids enqueue_all
dispatch_organization_webhooks broker raise_on_broker_error none event_type endpoints = (ok [], [])
dispatch_organization_webhooks broker raise_on_broker_error (some org) event_type endpoints =
    if length org == 0 || text_eq org (codes "global")
    then (ok [], [])
    else enqueue_all broker raise_on_broker_error [] (matching_ids org event_type endpoints)
