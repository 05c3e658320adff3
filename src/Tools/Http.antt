-- ===== src/Tools/Http.antt =====
-- skills/skill-http/src/lib.rs: the check of an URL against requests to internal hosts. The parser of
-- the url crate and the lower case of the standard library are parameters.
pub mod Requests
pub mod Safety
use orion_dock.Prelude.{
  ℕ, String, Bool, true, false, not, ◌&&◌, ◌||◌, Option, none, some, List, [], ◌∷◌, leb, eqb,
  if◌then◌else◌, ◌⧺◌, ◌==◌, concat, decimal, ends_with, any,
}
use orion_dock.Urls.{
  Ipv4Addr, Ipv6Addr, IpAddr, UrlHost, Url, Urls, Checked, is_loopback, is_unspecified,
}
use orion_dock.Tools.Host.{Io}
use orion_dock.Tools.Install.{is_one_of}

abbrev pub max_response_bytes : ℕ
max_response_bytes = 1048576

abbrev pub blocked_hosts : List String
blocked_hosts = "metadata.google.internal" ∷ "metadata.google.com" ∷ "169.254.169.254" ∷ []

-- The masks 0xfe00 and 0xffc0 keep the first seven and ten of the sixteen bits: 0xfc00 to 0xfdff, and
-- 0xfe80 to 0xfebf.
unfoldable pub is_private_ip : IpAddr → Bool
is_private_ip (IpAddr.v4 ip) =
    if eqb ip.a 127
    then true
    else if eqb ip.a 10
    then true
    else if eqb ip.a 172 && (leb 16 ip.b && leb ip.b 31)
    then true
    else if eqb ip.a 192 && eqb ip.b 168
    then true
    else if eqb ip.a 169 && eqb ip.b 254
    then true
    else if eqb ip.a 0
    then true
    else false
is_private_ip (IpAddr.v6 ip) =
    is_loopback ip
    || is_unspecified ip
    || (leb 64512 ip.first && leb ip.first 65023)
    || (leb 65152 ip.first && leb ip.first 65215)

module _ (urls : Urls) where
  abbrev pub is_local_domain : String → Bool
  is_local_domain lower =
      lower == "localhost"
      || lower == "0.0.0.0"
      || ends_with lower ".local"
      || ends_with lower ".internal"

  abbrev pub check_ip : Url → IpAddr → Checked Url
  check_ip url addr =
      if is_private_ip addr
      then Checked.err (
          concat
            ("Private/internal IP '" ∷ urls.show_ip addr ∷ "' is blocked (SSRF protection)" ∷ []))
      else Checked.ok url

  unfoldable pub check_host : Url → Option UrlHost → Checked Url
  unfolding is_private_ip ends_with
  check_host url none = Checked.err "URL must have a host"
  check_host url (some (UrlHost.ipv4 ip)) = check_ip url (IpAddr.v4 ip)
  check_host url (some (UrlHost.ipv6 ip)) = check_ip url (IpAddr.v6 ip)
  check_host url (some (UrlHost.domain d)) =
      if is_local_domain (urls.to_lowercase d)
      then Checked.err
          (concat ("Local/internal domain '" ∷ d ∷ "' is blocked (SSRF protection)" ∷ []))
      else Checked.ok url

  abbrev pub check_host_str : Url → Option String → Checked Url
  check_host_str url none = Checked.err "URL must have a host"
  check_host_str url (some host) =
      if is_one_of (urls.to_lowercase host) blocked_hosts
      then Checked.err (concat ("Host '" ∷ host ∷ "' is blocked (SSRF protection)" ∷ []))
      else check_host url url.host

  unfoldable pub check_url : Io Url → Checked Url
  unfolding check_host
  check_url (Io.failed e) = Checked.err ("Invalid URL: " ⧺ e)
  check_url (Io.done url) =
      if not (url.scheme == "http") && not (url.scheme == "https")
      then Checked.err ("Only http/https allowed, got: " ⧺ url.scheme)
      else check_host_str url url.host_str

  unfoldable pub validate_url : String → Checked Url
  unfolding check_url
  validate_url url_str = check_url (urls.parse url_str)
