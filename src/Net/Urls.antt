-- ===== src/Net/Urls.antt =====
-- URLs: their user info, the origin that credentials belong to, and the check of the addresses
-- that a host resolves to. What the standard library does is a record of functions.
use otwarte_dane_transportow.Common.{
  ℕ, zero, suc, Bool, false, not, ◌&&◌, ◌||◌, Option, none, some, List, [], ◌∷◌, ◌++◌, ◌==◌,
  if◌then◌else◌, Text, text_eq, non_empty, all,
}
use otwarte_dane_transportow.Review.StageValue.{strip}
use otwarte_dane_transportow.Net.Failures.{
  Exception, outbound_url_blocked, value_error, Attempt, returned, raised, ◌>>=◌,
}

-- `parts.port` raises `ValueError` outside 0–65535.
pub data Port : Type 0 where
  no_port bad_port : Port
  port : ℕ → Port

-- The result of `urlsplit`; a missing user name or host is `None`.
pub record Parts : Type 0 where
  pub scheme : Text
  pub username : Option Text
  pub password : Option Text
  pub hostname : Option Text
  pub port_part : Port
  pub path : Text
  pub query : Text
  pub fragment : Text

pub data Family : Type 0 where
  af_inet af_inet6 other_family : Family

-- One of `getaddrinfo`'s tuples: the family and `sockaddr[0]`.
pub record Info : Type 0 where
  pub family : Family
  pub address : Text

pub data Lookup : Type 0 where
  infos : List Info → Lookup
  gaierror : Lookup
  lookup_raised : Exception → Lookup

-- The properties of `ip_address(ip)`.
pub record IpFlags : Type 0 where
  pub is_private : Bool
  pub is_loopback : Bool
  pub is_link_local : Bool
  pub is_multicast : Bool
  pub is_reserved : Bool
  pub is_unspecified : Bool

pub record Stdlib : Type 0 where
  pub urlsplit : Text → Attempt Parts
  -- scheme, netloc, path, query, fragment
  pub urlunsplit : Text → Text → Text → Text → Text → Text
  pub urljoin : Text → Text → Attempt Text
  pub unquote : Text → Text
  pub basic_token : Text → Text
  pub lower : Text → Text
  pub decimal : ℕ → Text
  pub getaddrinfo : Text → ℕ → Lookup
  pub ip_address : Text → IpFlags

pub record Header : Type 0 where
  pub name : Text
  pub value : Text

pub record Origin : Type 0 where
  pub scheme : Text
  pub host : Text
  pub port_number : ℕ

abbrev pub http : Text
http = b'h' ∷ b't' ∷ b't' ∷ b'p' ∷ []

abbrev pub https : Text
https = b'h' ∷ b't' ∷ b't' ∷ b'p' ∷ b's' ∷ []

abbrev pub authorization : Text
authorization =
    b'A' ∷ b'u' ∷ b't' ∷ b'h' ∷ b'o' ∷ b'r' ∷ b'i' ∷ b'z' ∷ b'a' ∷ b't' ∷ b'i' ∷ b'o' ∷ b'n' ∷ []

-- "Basic "
abbrev pub basic : Text
basic = b'B' ∷ b'a' ∷ b's' ∷ b'i' ∷ b'c' ∷ 32 ∷ []

-- `value or ""`
abbrev pub or_empty : Option Text → Text
or_empty none = []
or_empty (some s) = s

-- `parts.port or default`
unfoldable pub port_or : ℕ → Port → Attempt ℕ
port_or default no_port = returned default
port_or default bad_port = raised value_error
port_or default (port zero) = returned default
port_or default (port (suc n)) = returned (suc n)

abbrev pub is_web : Text → Bool
is_web scheme = text_eq scheme http || text_eq scheme https

unfoldable pub default_port : Text → ℕ
default_port scheme = if text_eq scheme https then 443 else 80

module _ (lib : Stdlib) where
  -- `f"{netloc}:{parts.port}"` when the port is neither missing nor 0.
  unfoldable pub netloc_of : Parts → Attempt Text
  netloc_of p = elim p.port_part [
    | no_port ↦ returned (or_empty p.hostname)
    | bad_port ↦ raised value_error
    | port zero ↦ returned (or_empty p.hostname)
    | port (suc n) ↦ returned (or_empty p.hostname ++ b':' ∷ lib.decimal (suc n))
  ]

  unfoldable pub split_userinfo : Text → Attempt (Text × List Header)
  unfolding netloc_of
  split_userinfo url = lib.urlsplit (strip url) >>= λ parts.
      if not (non_empty (or_empty parts.username)) && not (non_empty (or_empty parts.password))
      then returned (url, [])
      else (netloc_of parts >>= λ netloc.
          let user = lib.unquote (or_empty parts.username) in
          let password = lib.unquote (or_empty parts.password) in
          let clean = lib.urlunsplit parts.scheme netloc parts.path parts.query parts.fragment in
          let token = lib.basic_token (user ++ b':' ∷ password) in
          returned (clean, record { name = authorization; value = basic ++ token } ∷ []))

  unfoldable pub request_origin : Text → Attempt Origin
  unfolding port_or default_port
  request_origin url = do
    parts ← lib.urlsplit (strip url)
    number ← port_or (default_port parts.scheme) parts.port_part
    returned (record {
      scheme = parts.scheme;
      host = lib.lower (or_empty parts.hostname);
      port_number = number;
    })

  unfoldable pub is_public_ip : Text → Bool
  is_public_ip ip =
      let addr = lib.ip_address ip in
      if addr.is_private
      then false
      else if addr.is_loopback
      then false
      else if addr.is_link_local
      then false
      else if addr.is_multicast
      then false
      else if addr.is_reserved
      then false
      else not addr.is_unspecified

unfoldable pub may_forward_auth : Origin → Origin → Bool
may_forward_auth origin target =
    if not (text_eq origin.host target.host) || not (origin.port_number == target.port_number)
    then false
    else not (text_eq origin.scheme https && not (text_eq target.scheme https))

-- The addresses of the two families; the set of the source is a list here.
unfoldable pub resolved_ips : List Info → List Text
resolved_ips [] = []
resolved_ips (info ∷ rest) = elim info.family [
  | other_family ↦ resolved_ips rest
  | _ ↦ info.address ∷ resolved_ips rest
]

pub record Resolved : Type 0 where
  pub hostname : Text
  pub port_number : ℕ
  pub ips : List Text

module _ (lib : Stdlib) where
  unfoldable pub checked_ips : Text → ℕ → List Text → Attempt Resolved
  unfolding is_public_ip
  checked_ips host number [] = raised outbound_url_blocked
  checked_ips host number (ip ∷ ips) =
      if all (is_public_ip lib) (ip ∷ ips)
      then returned (record { hostname = host; port_number = number; ips = ip ∷ ips })
      else raised outbound_url_blocked

  -- What is done with the answer of `getaddrinfo`.
  unfoldable pub checked : Text → ℕ → Lookup → Attempt Resolved
  unfolding checked_ips resolved_ips
  checked host number gaierror = raised outbound_url_blocked
  checked host number (lookup_raised e) = raised e
  checked host number (infos is) = checked_ips host number (resolved_ips is)

  unfoldable pub resolve_parts : Parts → Attempt Resolved
  unfolding checked port_or default_port
  resolve_parts parts =
      if not (is_web parts.scheme)
      then raised outbound_url_blocked
      else if not (non_empty (or_empty parts.hostname))
      then raised outbound_url_blocked
      else (port_or (default_port parts.scheme) parts.port_part >>= λ number.
          checked (or_empty parts.hostname) number
            (lib.getaddrinfo (or_empty parts.hostname) number))

  unfoldable pub resolve_public_ips : Text → Attempt Resolved
  unfolding resolve_parts
  resolve_public_ips url = lib.urlsplit (strip url) >>= resolve_parts
