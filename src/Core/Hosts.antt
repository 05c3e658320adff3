-- ===== src/Core/Hosts.antt =====
-- Which hosts crates/orion-core lets the program call: the trust policy for MCP servers of config.rs,
-- and the check of the URL of a local model of local_llm_url.rs.
pub mod Trust
use Prim.Native.Char.{code}
use orion_dock.Prelude.{
  String, Bool, true, false, not, ◌&&◌, ◌||◌, Option, none, some, List, [], ◌∷◌, eqb, if◌then◌else◌,
  any, map, find_first, ◌⧺◌, ◌==◌, concat, empty_text, trim,
}
use orion_dock.Urls.{UrlHost, Url, Urls, Checked, Ipv4Addr, is_loopback}
use orion_dock.Tools.Host.{Io, split_char}

pub record McpTrustPolicy : Type 0 where
  pub allow_list_only : Bool
  pub allowed_http_hosts : List String

abbrev pub mcp_default_allowed_hosts : List String
mcp_default_allowed_hosts =
    "localhost" ∷ "127.0.0.1" ∷ "orion-toolbox" ∷ "host.docker.internal" ∷ []

abbrev pub mcp_blocked_hosts : List String
mcp_blocked_hosts = "169.254.169.254" ∷ "metadata.google.internal" ∷ []

abbrev pub one_of : List String → String → Bool
one_of hosts host = any (λ h. h == host) hosts

-- The check of a host that is not blocked
unfoldable pub check_allowed : McpTrustPolicy → String → Checked Unit
check_allowed policy host =
    if policy.allow_list_only
    then (if not (one_of policy.allowed_http_hosts host)
        then Checked.err
            (concat ("host '" ∷ host ∷ "' not in allowed list (allow_list_only is enabled)" ∷ []))
        else Checked.ok tt)
    else if one_of mcp_default_allowed_hosts host || one_of policy.allowed_http_hosts host
    then Checked.ok tt
    else Checked.err (
        concat (
          "host '" ∷ host ∷ "' is not in the default or configured allowed hosts. "
          ∷ "Add it to mcp_trust_policy.allowed_http_hosts in agent config." ∷ []))

unfoldable pub check_named : McpTrustPolicy → Option String → Checked Unit
unfolding check_allowed
check_named policy none = Checked.err "URL has no host"
check_named policy (some host) =
    if one_of mcp_blocked_hosts host
    then Checked.err (concat ("host '" ∷ host ∷ "' is blocked (cloud metadata endpoint)" ∷ []))
    else check_allowed policy host

unfoldable pub check_parsed : McpTrustPolicy → Io Url → Checked Unit
unfolding check_named
check_parsed policy (Io.failed e) = Checked.err ("invalid URL: " ⧺ e)
check_parsed policy (Io.done url) = check_named policy url.host_str

abbrev pub allowed_hosts : List String
allowed_hosts = "localhost" ∷ "127.0.0.1" ∷ "::1" ∷ []

-- `trim_end_matches('/')`
unfoldable pub drop_last_slashes : String → String
drop_last_slashes String.[] = ""
drop_last_slashes (String.◌∷◌ c s) =
    let rest = drop_last_slashes s in
    if eqb (code c) b'/' && empty_text rest then "" else String.◌∷◌ c rest

abbrev pub or_empty : Option String → String
or_empty none = ""
or_empty (some s) = s

-- `filter(|s| !s.is_empty())`
abbrev pub full_texts : List String → List String
full_texts [] = []
full_texts (s ∷ texts) = let rest = full_texts texts in if empty_text s then rest else s ∷ rest

module _ (urls : Urls) where
  unfoldable pub validate_url : McpTrustPolicy → String → Checked Unit
  unfolding check_parsed
  validate_url policy url = check_parsed policy (urls.parse url)

  -- The argument is the variable ALLOWED_LLM_HOSTS.
  unfoldable pub extra_allowed_hosts : Option String → List String
  unfolding split_char trim
  extra_allowed_hosts var =
      full_texts (map (λ s. urls.to_lowercase (trim s)) (split_char b',' (or_empty var)))

  abbrev pub eq_ignore_ascii_case : String → String → Bool
  eq_ignore_ascii_case s t = urls.to_ascii_lowercase s == urls.to_ascii_lowercase t

  unfoldable pub is_allowed : List String → Option UrlHost → Bool
  is_allowed extra none = false
  is_allowed extra (some (UrlHost.domain d)) =
      any (eq_ignore_ascii_case d) allowed_hosts || any (eq_ignore_ascii_case d) extra
  is_allowed extra (some (UrlHost.ipv4 ip)) = eqb ip.a 127
  is_allowed extra (some (UrlHost.ipv6 ip)) = is_loopback ip

  unfoldable pub check_local_host : List String → Url → Option String → Checked String
  unfolding drop_last_slashes is_allowed
  check_local_host extra url none = Checked.err "Local LLM URL must have a host"
  check_local_host extra url (some host) =
      if not (is_allowed extra url.host)
      then Checked.err (
          concat (
            "Local LLM URL host not allowed (SSRF protection). Use localhost, 127.0.0.1, or [::1]. Got: "
            ∷ host ∷ []))
      else Checked.ok (drop_last_slashes url.as_str)

  unfoldable pub check_local : List String → Io Url → Checked String
  unfolding check_local_host
  check_local extra (Io.failed e) = Checked.err ("Invalid local LLM URL: " ⧺ e)
  check_local extra (Io.done url) =
      if url.cannot_be_a_base
      then Checked.err "Invalid local LLM URL: opaque or invalid base"
      else if not (url.scheme == "http") && not (url.scheme == "https")
      then Checked.err ("Local LLM URL must use http or https, got: " ⧺ url.scheme)
      else check_local_host extra url url.host_str

  -- An error is a `CoreError::Config` with the text.
  unfoldable pub validate_local_llm_url : Option String → String → Checked String
  unfolding extra_allowed_hosts trim check_local
  validate_local_llm_url var url_str =
      if empty_text (trim url_str)
      then Checked.err "Local LLM URL cannot be empty"
      else check_local (extra_allowed_hosts var) (urls.parse (trim url_str))
