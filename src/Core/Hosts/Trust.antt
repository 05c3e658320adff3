-- ===== src/Core/Hosts/Trust.antt =====
-- Which URLs the trust policy for MCP servers lets through.
use orion_dock.Prelude.{
  ◌∙◌, String, ◌≡◌, refl, ◌↔◌, ◌⊎◌, inl, inr, true, false, Option, none, some, List, Elem, arith,
  ◌==◌, eq_iff, eq_refl, Elem-any, any-Elem, Bool-cases, not_both, subst, ap,
}
use orion_dock.Urls.{Url, Urls, Checked}
use orion_dock.Tools.Host.{Io}
use orion_dock.Core.Hosts.{
  McpTrustPolicy, mcp_default_allowed_hosts, mcp_blocked_hosts, one_of, check_allowed, check_named,
  check_parsed, validate_url,
}

one_of_iff : (hosts : List String) (host : String) → (one_of hosts host ≡ true) ↔ Elem host hosts
one_of_iff hosts host = (
  λ h.
      let (a, e, same) = any-Elem (λ h. h == host) hosts h in
      subst (λ x. Elem x hosts) ((eq_iff _ _).0 same) e,
  λ e. Elem-any (λ h. h == host) e (eq_refl host),
)

-- A host that the policy trusts: it is no metadata endpoint, and it is listed, or one of the defaults
-- where the policy is not of the list only.
pub record Trusts (policy : McpTrustPolicy) (host : String) : Type 0 where
  pub unblocked : ¬ Elem host mcp_blocked_hosts
  pub listed :
      Elem host policy.allowed_http_hosts
      ⊎ ((policy.allow_list_only ≡ false) × Elem host mcp_default_allowed_hosts)

check_allowed-ok :
    (policy : McpTrustPolicy) (host : String)
    → check_allowed policy host ≡ Checked.ok tt
    → Elem host policy.allowed_http_hosts
      ⊎ ((policy.allow_list_only ≡ false) × Elem host mcp_default_allowed_hosts)
unfolding check_allowed
check_allowed-ok policy host h = elim (Bool-cases (one_of policy.allowed_http_hosts host)) [
  | inl listed ↦ inl ((one_of_iff policy.allowed_http_hosts host).0 listed)
  | inr unlisted ↦ inr (ground arith, (one_of_iff mcp_default_allowed_hosts host).0 (ground arith))
]

ok-check_allowed :
    (policy : McpTrustPolicy) (host : String)
    → (Elem host policy.allowed_http_hosts
        ⊎ ((policy.allow_list_only ≡ false) × Elem host mcp_default_allowed_hosts))
    → check_allowed policy host ≡ Checked.ok tt
unfolding check_allowed
ok-check_allowed policy host (inl e) =
    let listed = (one_of_iff policy.allowed_http_hosts host).1 e in ground arith
ok-check_allowed policy host (inr (unlisted, e)) =
    let listed = (one_of_iff mcp_default_allowed_hosts host).1 e in ground arith

check_named-Trusts :
    (policy : McpTrustPolicy) (host_str : Option String)
    → check_named policy host_str ≡ Checked.ok tt
    → (host : String) × (host_str ≡ some host) × Trusts policy host
unfolding check_named
check_named-Trusts policy none h = cc
check_named-Trusts policy (some host) h = elim (Bool-cases (one_of mcp_blocked_hosts host)) [
  | inl blocked ↦ ground arith
  | inr free ↦ (
    host,
    refl,
    record {
      unblocked = λ e. not_both ((one_of_iff mcp_blocked_hosts host).1 e) free;
      listed = check_allowed-ok policy host (ground arith);
    },
  )
]

Trusts-check_named :
    (policy : McpTrustPolicy) (host : String)
    → Trusts policy host
    → check_named policy (some host) ≡ Checked.ok tt
unfolding check_named
Trusts-check_named policy host trusted = elim (Bool-cases (one_of mcp_blocked_hosts host)) [
  | inl blocked ↦ absurd (trusted.unblocked ((one_of_iff mcp_blocked_hosts host).0 blocked))
  | inr free ↦ rw free (ok-check_allowed policy host trusted.listed)
]

-- The URL of a host that the policy trusts
abbrev pub Trusted : McpTrustPolicy → Io Url → Type 0
Trusted policy parsed =
    (url : Url) × (host : String) × (parsed ≡ Io.done url)
    × (url.host_str ≡ some host)
    × Trusts policy host

check_parsed-Trusted :
    (policy : McpTrustPolicy) (parsed : Io Url)
    → check_parsed policy parsed ≡ Checked.ok tt
    → Trusted policy parsed
unfolding check_parsed
check_parsed-Trusted policy (Io.failed e) h = cc
check_parsed-Trusted policy (Io.done url) h =
    let (host, named, trusted) = check_named-Trusts policy url.host_str h in
    (url, host, refl, named, trusted)

-- The trust policy accepts a text exactly when it parses as an URL with a host that is no metadata
-- endpoint and that is listed, or is one of the defaults where the policy is not of the list only.
pub validate_url_iff :
    (urls : Urls) (policy : McpTrustPolicy) (text : String)
    → (validate_url urls policy text ≡ Checked.ok tt) ↔ Trusted policy (urls.parse text)
unfolding validate_url check_parsed
validate_url_iff urls policy text = (
  check_parsed-Trusted policy (urls.parse text),
  λ (url, host, parsed, named, trusted).
      ap (check_parsed policy) parsed
      ∙ (ap (check_named policy) named ∙ Trusts-check_named policy host trusted),
)
