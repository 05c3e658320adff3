-- ===== src/Tools/Http/Safety.antt =====
-- Which hosts the HTTP skill sends requests to.
use orion_dock.Prelude.{
  not_of_false, ℕ, ◌+◌, ◌*◌, ◌≤◌, ◌<◌, String, ◌≡◌, refl, Bool, true, false, Option, none, some,
  List, [], ◌∷◌, All, ◌⊎◌, inl, inr, Elem, arith, ◌⧺◌, ◌==◌, ends_with, Bool-cases, if◌then◌else◌,
  not_both, eq_iff, Elem-any, eq_refl, subst, sym, not, ◌&&◌,
}
use orion_dock.Affixes.{ends_with_iff}
use orion_dock.Skills.Executor.{ToolParams}
use orion_dock.Tools.Host.{Io, Json}
use orion_dock.Tools.Install.{is_one_of}
use orion_dock.Urls.{
  Ipv4Addr, Ipv6Addr, IpAddr, UrlHost, Url, Urls, Checked, is_loopback, is_unspecified,
}
use orion_dock.Tools.Http.{
  is_private_ip, is_local_domain, check_host, check_host_str, check_url, validate_url,
  blocked_hosts,
}
use orion_dock.Tools.Http.Requests.{
  Request, Client, execute_request, get_valid, post_valid, http_get, http_post, get_tool, post_tool,
  execute_tool,
}

-- An address as a number of 32 bits
abbrev pub value : Ipv4Addr → ℕ
value ip = ((ip.a * 256 + ip.b) * 256 + ip.c) * 256 + ip.d

-- 127.0.0.0/8, 10.0.0.0/8, 172.16.0.0/12, 192.168.0.0/16, 169.254.0.0/16 and 0.0.0.0/8, by their first
-- and their last address
abbrev pub private_networks : List (ℕ × ℕ)
private_networks =
    (2130706432, 2147483647)
    ∷ (167772160, 184549375)
    ∷ (2886729728, 2887778303)
    ∷ (3232235520, 3232301055)
    ∷ (2851995648, 2852061183)
    ∷ (0, 16777215)
    ∷ []

abbrev pub IsOctets : Ipv4Addr → Type 0
IsOctets ip = (ip.a < 256) × (ip.b < 256) × (ip.c < 256) × (ip.d < 256)

abbrev pub Outside : ℕ → ℕ × ℕ → Type 0
Outside n (lo, hi) = ¬ ((lo ≤ n) × (n ≤ hi))

v4-Outside :
    (ip : Ipv4Addr)
    → IsOctets ip
    → is_private_ip (IpAddr.v4 ip) ≡ false
    → All (Outside (value ip)) private_networks
unfolding is_private_ip
v4-Outside ip (a, b, c, d) h = (
  λ (lo, hi). not_both (ground arith) h,
  (
    λ (lo, hi). ground arith,
    (
      λ (lo, hi). not_both (ground arith) h,
      (λ (lo, hi). ground arith, (λ (lo, hi). grind arith, (λ (lo, hi). ground arith, tt))),
    ),
  ),
)

-- fc00::/7 and fe80::/10, by the first segment; ::1; ::
abbrev pub IsPublic6 : Ipv6Addr → Type 0
IsPublic6 ip =
    (¬ ((64512 ≤ ip.first) × (ip.first ≤ 65023)))
    × (¬ ((65152 ≤ ip.first) × (ip.first ≤ 65215)))
    × (is_loopback ip ≡ false)
    × (is_unspecified ip ≡ false)

v6-IsPublic6 : (ip : Ipv6Addr) → is_private_ip (IpAddr.v6 ip) ≡ false → IsPublic6 ip
unfolding is_private_ip
v6-IsPublic6 ip h = (λ (lo, hi). ground arith, λ (lo, hi). ground arith, ground arith, ground arith)

abbrev pub EndsWith : String → String → Type 0
EndsWith s t = (p : String) × (s ≡ p ⧺ t)

passed :
    (b : Bool) (e : String) {x : Checked Url} {url : Url}
    → (if b then Checked.err e else x) ≡ Checked.ok url
    → (x ≡ Checked.ok url) × (b ≡ false)
passed true e h = cc
passed false e h = (h, refl)

ok-injective : {u url : Url} → Checked.ok u ≡ Checked.ok url → url ≡ u
ok-injective h = cc

scheme-web :
    (scheme : String)
    → (not (scheme == "http") && not (scheme == "https")) ≡ false
    → (scheme ≡ "http") ⊎ (scheme ≡ "https")
scheme-web scheme h = elim (Bool-cases (scheme == "http")) [
  | inl same ↦ inl ((eq_iff _ _).0 same)
  | inr other ↦ inr ((eq_iff _ _).0 (ground arith))
]

module _ (urls : Urls) where
  -- A host outside: no local name, and no address of a private network
  abbrev pub IsOutside : Option UrlHost → Type 0
  IsOutside none = ⊥
  IsOutside (some (UrlHost.domain d)) =
      let lower = urls.to_lowercase d in
      (¬ (lower ≡ "localhost"))
      × (¬ (lower ≡ "0.0.0.0"))
      × (¬ EndsWith lower ".local")
      × (¬ EndsWith lower ".internal")
  IsOutside (some (UrlHost.ipv4 ip)) = IsOctets ip → All (Outside (value ip)) private_networks
  IsOutside (some (UrlHost.ipv6 ip)) = IsPublic6 ip

  pub record IsPublic (url : Url) : Type 0 where
    pub web : (url.scheme ≡ "http") ⊎ (url.scheme ≡ "https")
    pub host : String
    pub named : url.host_str ≡ some host
    pub unblocked : ¬ Elem (urls.to_lowercase host) blocked_hosts
    pub outside : IsOutside url.host

  is_local_domain-false :
      (d : String)
      → is_local_domain urls (urls.to_lowercase d) ≡ false
      → IsOutside (some (UrlHost.domain d))
  is_local_domain-false d h =
      let lower = urls.to_lowercase d in
      (
        not_of_false (lower == "localhost") (eq_iff _ _) (ground arith),
        not_of_false (lower == "0.0.0.0") (eq_iff _ _) (ground arith),
        not_of_false (ends_with lower ".local") (ends_with_iff _ _) (ground arith),
        not_of_false (ends_with lower ".internal") (ends_with_iff _ _) (ground arith),
      )

  check_host-ok :
      (url : Url) (host : Option UrlHost) {ok_url : Url}
      → check_host urls url host ≡ Checked.ok ok_url
      → (ok_url ≡ url) × IsOutside host
  unfolding check_host
  check_host-ok url none h = cc
  check_host-ok url (some (UrlHost.domain d)) h =
      let (same, free) = passed (is_local_domain urls (urls.to_lowercase d)) _ h in
      (ok-injective same, is_local_domain-false d free)
  check_host-ok url (some (UrlHost.ipv4 ip)) h =
      let (same, free) = passed (is_private_ip (IpAddr.v4 ip)) _ h in
      (ok-injective same, λ octets. v4-Outside ip octets free)
  check_host-ok url (some (UrlHost.ipv6 ip)) h =
      let (same, free) = passed (is_private_ip (IpAddr.v6 ip)) _ h in
      (ok-injective same, v6-IsPublic6 ip free)

  check_host_str-ok :
      (url : Url) (host_str : Option String) {ok_url : Url}
      → check_host_str urls url host_str ≡ Checked.ok ok_url
      → (ok_url ≡ url)
        × IsOutside url.host
        × (host : String) × (host_str ≡ some host)
        × (¬ Elem (urls.to_lowercase host) blocked_hosts)
  check_host_str-ok url none h = cc
  check_host_str-ok url (some host) h =
      let (checked, free) = passed (is_one_of (urls.to_lowercase host) blocked_hosts) _ h in
      let (same, outside) = check_host-ok url url.host checked in
      (
        same,
        outside,
        host,
        refl,
        λ e. not_both (Elem-any (λ n. n == urls.to_lowercase host) e (eq_refl _)) free,
      )

  check_url-IsPublic :
      (parsed : Io Url) (url : Url) → check_url urls parsed ≡ Checked.ok url → IsPublic url
  unfolding check_url
  check_url-IsPublic (Io.failed e) url h = cc
  check_url-IsPublic (Io.done u) url h =
      let (checked, web) = passed (not (u.scheme == "http") && not (u.scheme == "https")) _ h in
      let (same, outside, host, named, unblocked) = check_host_str-ok u u.host_str checked in
      subst IsPublic (sym same) (record {
        web = scheme-web u.scheme web;
        host = host;
        named = named;
        unblocked = unblocked;
        outside = outside;
      })

  -- An URL that the check lets through is the parsed one, of the web, with a host outside.
  validate_url-IsPublic :
      (url_str : String) (url : Url) → validate_url urls url_str ≡ Checked.ok url → IsPublic url
  unfolding validate_url
  validate_url-IsPublic url_str = check_url-IsPublic (urls.parse url_str)

module _ {Value W : Type 0} (json : Json Value) (urls : Urls) (client : Client Value W) where
  -- What a call sends: nothing, or one request to an URL that the check lets through, and whose host is
  -- outside.
  pub data Requested (w : W) : W → Type 0 where
    nothing : Requested w w
    sent :
        (request : Request) (url_str : String) (url : Url)
        → validate_url urls url_str ≡ Checked.ok url
        → IsPublic urls url
        → request.url ≡ url.as_str
        → Requested w (client.send request w).1

  get_valid-Requested :
      (headers : Option (List (String × String))) (url_str : String) (checked : Checked Url) (w : W)
      → validate_url urls url_str ≡ checked
      → Requested w (get_valid json urls client headers checked w).1
  unfolding execute_request
  get_valid-Requested headers url_str (Checked.err e) w h = Requested.nothing
  get_valid-Requested headers url_str (Checked.ok url) w h =
      Requested.sent _ url_str url h (validate_url-IsPublic urls url_str url h) refl

  post_valid-Requested :
      (body content_type : Option String) (headers : Option (List (String × String)))
      (url_str : String) (checked : Checked Url) (w : W)
      → validate_url urls url_str ≡ checked
      → Requested w (post_valid json urls client body content_type headers checked w).1
  unfolding execute_request
  post_valid-Requested body content_type headers url_str (Checked.err e) w h = Requested.nothing
  post_valid-Requested body content_type headers url_str (Checked.ok url) w h =
      Requested.sent _ url_str url h (validate_url-IsPublic urls url_str url h) refl

  get_tool-Requested :
      (url : Option String) (headers : Option (List (String × String))) (w : W)
      → Requested w (get_tool json urls client url headers w).1
  unfolding http_get
  get_tool-Requested none headers w = Requested.nothing
  get_tool-Requested (some url) headers w = get_valid-Requested headers url _ w refl

  post_tool-Requested :
      (url body content_type : Option String) (headers : Option (List (String × String))) (w : W)
      → Requested w (post_tool json urls client url body content_type headers w).1
  unfolding http_post
  post_tool-Requested none body content_type headers w = Requested.nothing
  post_tool-Requested (some url) body content_type headers w =
      post_valid-Requested body content_type headers url _ w refl

  if-Requested :
      {R : Type 0} (w : W) (b : Bool) (x y : R × W)
      → Requested w x.1
      → Requested w y.1
      → Requested w (if b then x else y).1
  if-Requested w true x y on_true on_false = on_true
  if-Requested w false x y on_true on_false = on_false

  -- Whatever tool of the HTTP skill is called, with whatever parameters, nothing is sent, or one request
  -- for an URL of http or https whose host is not a blocked one, no local name, and, as an address whose
  -- octets are bytes, in none of the private networks.
  pub execute_tool-Requested :
      (tool_name : String) (params : ToolParams Value) (w : W)
      → Requested w (execute_tool json urls client tool_name params w).1
  unfolding execute_tool
  execute_tool-Requested tool_name params w =
      if-Requested w (tool_name == "http_get") _ _ (get_tool-Requested _ _ w) (
        if-Requested w (tool_name == "http_post") _ _ (post_tool-Requested _ _ _ _ w)
          Requested.nothing)
