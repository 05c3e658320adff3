-- ===== src/Urls.antt =====
-- What the checks of URLs use of the url crate and of `std::net`.
use orion_dock.Prelude.{ℕ, String, Bool, true, ◌&&◌, Option, List, [], ◌∷◌, eqb}
use orion_dock.Tools.Host.{Io}

-- `std::net::Ipv4Addr` by its octets and `std::net::Ipv6Addr` by its segments
pub record Ipv4Addr : Type 0 where
  pub a : ℕ
  pub b : ℕ
  pub c : ℕ
  pub d : ℕ

pub record Ipv6Addr : Type 0 where
  pub first : ℕ
  pub middle : List ℕ  -- the next six
  pub last : ℕ

pub data IpAddr : Type 0 where
  v4 : Ipv4Addr → IpAddr
  v6 : Ipv6Addr → IpAddr

-- `url::Host`
pub data UrlHost : Type 0 where
  domain : String → UrlHost
  ipv4 : Ipv4Addr → UrlHost
  ipv6 : Ipv6Addr → UrlHost

-- What is used of a `url::Url`
pub record Url : Type 0 where
  pub as_str : String
  pub cannot_be_a_base : Bool
  pub scheme : String
  pub host_str : Option String
  pub host : Option UrlHost

pub record Urls : Type 0 where
  pub parse : String → Io Url
  pub show_ip : IpAddr → String
  pub to_lowercase : String → String
  pub to_ascii_lowercase : String → String

abbrev pub all_zero : List ℕ → Bool
all_zero [] = true
all_zero (n ∷ ns) = eqb n 0 && all_zero ns

-- `ip.is_loopback()`, `ip.is_unspecified()`
abbrev pub is_loopback : Ipv6Addr → Bool
is_loopback ip = eqb ip.first 0 && all_zero ip.middle && eqb ip.last 1

abbrev pub is_unspecified : Ipv6Addr → Bool
is_unspecified ip = eqb ip.first 0 && all_zero ip.middle && eqb ip.last 0

-- A result whose error is a text
pub data Checked (A : Type 0) : Type 0 where
  ok : A → Checked A
  err : String → Checked A
