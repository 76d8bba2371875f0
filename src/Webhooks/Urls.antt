-- ===== src/Webhooks/Urls.antt =====
-- What the check of a webhook's URL in apps/core/webhooks.py guarantees.
use multilingual_task_api.Prelude.{
  ◌≤◌, ◌≡◌, refl, sym, ap, ◌∙◌, Bool, true, false, not, Option, some, none, List, [], ◌∷◌, arith,
  Bool-cases, Option-cases, inl, inr, ◌⊎◌, length, All, ◌==◌, ok, Exn, value_error, raise_if,
  bind-eq-ok, ok-injective,
}
use multilingual_task_api.PyText.{Text, strip, lower}
use multilingual_task_api.Webhooks.{
  Network, is_forbidden_ip, is_internal_name, is_allowed_scheme, or_empty, check_addresses,
  check_dns, check_host, validate_webhook_url,
}

-- An address with none of the six flags.
abbrev pub IsPublic : Network → Text → Type 0
IsPublic net ip = net.ip_flags ip ≡ some false

check_addresses-IsPublic :
    (net : Network) (ips : List Text) → check_addresses net ips ≡ ok tt → All (IsPublic net) ips
unfolding check_addresses is_forbidden_ip
check_addresses-IsPublic net [] e = tt
check_addresses-IsPublic net (ip ∷ ips) e = elim (Option-cases (net.ip_flags ip)) [
  | inl unknown ↦ absurd (cc (rw (check_addresses, is_forbidden_ip, unknown) at e))
  | inr (true, f) ↦ absurd (cc (rw (check_addresses, is_forbidden_ip, f) at e))
  | inr (false, f) ↦
      (f, check_addresses-IsPublic net ips (rw (check_addresses, is_forbidden_ip, f) at e))
]

-- A name with at least one address, and only public ones.
abbrev pub ResolvesPublic : Network → Text → Type 0
ResolvesPublic net host =
    (ips : List Text) × (net.getaddrinfo host ≡ some ips)
    × (1 ≤ length ips)
    × All (IsPublic net) ips

check_dns-ResolvesPublic :
    (net : Network) (host : Text) → check_dns net host ≡ ok tt → ResolvesPublic net host
unfolding check_dns
check_dns-ResolvesPublic net host e = elim (Option-cases (net.getaddrinfo host)) [
  | inl failed ↦ absurd (cc (rw (check_dns, failed) at e))
  | inr (ips, found) ↦
      let answer = rw (check_dns, found) at e in
      elim (Bool-cases (length ips == 0)) [
        | inl nothing ↦ absurd (cc (rw nothing at answer))
        | inr some_ips ↦
            (ips, found, ground arith, check_addresses-IsPublic net ips (rw some_ips at answer))
      ]
]

raise_if-passed : (b : Bool) (x : Exn) (u : Unit {0}) → raise_if b x ≡ ok u → b ≡ false
raise_if-passed true x u e = absurd (cc)
raise_if-passed false x u e = refl

not_refused : (b : Bool) → not b ≡ false → b ≡ true
not_refused true e = refl
not_refused false e = absurd (cc)

check_host-passed :
    (net : Network) (host : Text) (flags : Option Bool) (u : Unit {0})
    → net.ip_flags host ≡ flags
    → check_host net true host flags ≡ ok u
    → IsPublic net host ⊎ ResolvesPublic net host
unfolding check_host
check_host-passed net host (some f) u at e = inl (at ∙ ap some (raise_if-passed f value_error u e))
check_host-passed net host none tt at e = inr (check_dns-ResolvesPublic net host e)

abbrev pub host_of : Network → Text → Text
host_of net url = lower (strip (or_empty (net.hostname (strip url))))

-- A URL that passes the check before a delivery is the given one without outer whitespace; its scheme
-- is https, or also http where DEBUG is set; its host is no internal name; and the host is a public
-- address, or a name for which DNS gives addresses, all of them public.
pub validated_is_safe :
    (net : Network) (debug : Bool) (url cleaned : Text)
    → validate_webhook_url net debug true url ≡ ok cleaned
    → (cleaned ≡ strip url)
      × (is_allowed_scheme debug (lower (net.scheme cleaned)) ≡ true)
      × (is_internal_name (host_of net url) ≡ false)
      × (IsPublic net (host_of net url) ⊎ ResolvesPublic net (host_of net url))
unfolding validate_webhook_url
validated_is_safe net debug url cleaned e =
    let host = host_of net url in
    let scheme_ok = is_allowed_scheme debug (lower (net.scheme (strip url))) in
    let (u1, scheme, e1) = bind-eq-ok (raise_if (not scheme_ok) value_error) _ e in
    let (u2, nonempty, e2) = bind-eq-ok (raise_if (length host == 0) value_error) _ e1 in
    let (u3, external, e3) = bind-eq-ok (raise_if (is_internal_name host) value_error) _ e2 in
    let (u4, public, e4) = bind-eq-ok (check_host net true host (net.ip_flags host)) _ e3 in
    let same : strip url ≡ cleaned = ok-injective e4 in
    (
      sym same,
      ap (λ t. is_allowed_scheme debug (lower (net.scheme t))) (sym same)
          ∙ not_refused scheme_ok (raise_if-passed (not scheme_ok) value_error u1 scheme),
      raise_if-passed (is_internal_name host) value_error u3 external,
      check_host-passed net host (net.ip_flags host) u4 refl public,
    )
