-- ===== src/Net/Examples.antt =====
-- A library that knows two hosts, a server that redirects from one to the other, and the theorems
-- at them.
use otwarte_dane_transportow.Net.Kept.{repeated}
use otwarte_dane_transportow.Net.Certificates.{download, intermediate_pems}
use otwarte_dane_transportow.Common.{
  ℕ, ◌+◌, ◌≤◌, ◌≡◌, refl, false, none, some, List, [], ◌∷◌, map, leb, if◌then◌else◌, Text, text_eq,
  length, All, true,
}
use otwarte_dane_transportow.Review.StageValue.{strip}
use otwarte_dane_transportow.Net.Failures.{raised, returned, response_too_large, ssl_error}
use otwarte_dane_transportow.Net.Urls.{
  Stdlib, Parts, Origin, no_port, http, https, infos, af_inet, Header, request_origin,
  may_forward_auth, split_userinfo,
}
use otwarte_dane_transportow.Net.Pinning.{Resolver, as_info}
use otwarte_dane_transportow.Net.Download.{
  Platform, Limits, response, expired, drain, fetch_hop, Got, failed,
}
use otwarte_dane_transportow.Net.Redirects.{safe_get, origin_of}
use otwarte_dane_transportow.Net.Guard.{IsGuarded, IsProbed}
use otwarte_dane_transportow.Net.Requests.{safe_download_lem, chain_requests}
use otwarte_dane_transportow.Net.Drained.{joined, drain_lem, upgrade-drops_auth}

-- The URL "a" is http://a/ and any other text is https://b/.
abbrev plain_url : Text
plain_url = b'a' ∷ []

abbrev secure_url : Text
secure_url = b'b' ∷ []

abbrev parts_of : Text → Text → Parts
parts_of scheme host = record {
  scheme = scheme;
  username = none;
  password = none;
  hostname = some host;
  port_part = no_port;
  path = [];
  query = [];
  fragment = [];
}

abbrev stdlib : Stdlib
stdlib = record {
  urlsplit = λ url.
      if text_eq url plain_url
      then returned (parts_of http plain_url)
      else returned (parts_of https secure_url);
  urlunsplit = λ scheme netloc path query fragment. netloc;
  urljoin = λ base url. returned url;
  unquote = λ s. s;
  basic_token = λ s. s;
  lower = λ s. s;
  decimal = λ n. n ∷ [];
  getaddrinfo = λ host n. infos (record { family = af_inet; address = 8 ∷ [] } ∷ []);
  ip_address = λ ip. record {
    is_private = text_eq ip (10 ∷ []);
    is_loopback = false;
    is_link_local = false;
    is_multicast = false;
    is_reserved = false;
    is_unspecified = false;
  };
}

-- The http host redirects to the https one, which answers with two chunks.
abbrev platform : Platform
platform = record {
  stdlib = stdlib;
  monotonic = λ n. n;
  get = λ before s. response (record {
    status_code = if text_eq s.url plain_url then 302 else 200;
    is_redirect = text_eq s.url plain_url;
    location = some secure_url;
    chunks = (1 ∷ 2 ∷ []) ∷ [] ∷ (3 ∷ []) ∷ [];
  });
  issuers = λ before host n. none;
  load_certificate = λ body. none;
  bundle_file = λ host pems. [];
}

abbrev key : List Header
key = record { name = b'X' ∷ []; value = b'k' ∷ [] } ∷ []

abbrev plain_origin : Origin
plain_origin = record { scheme = http; host = plain_url; port_number = 80 }

abbrev secure_origin : Origin
secure_origin = record { scheme = https; host = secure_url; port_number = 443 }

-- The redirect is followed, and the key stays behind.
followed :
    let d = download platform 2 plain_url key 10 5 (some 30) in
    (length d.0.sent ≡ 2) × (map (λ s. s.headers) d.0.sent ≡ none ∷ some key ∷ [])
unfolding download strip fetch_hop
followed = (refl, refl)

-- The https host omits its intermediate certificate, which the http host has.
abbrev answer : Text → Got
answer chunk =
    response
      (record { status_code = 200; is_redirect = false; location = none; chunks = chunk ∷ [] })

abbrev omits_chain : Platform
omits_chain = record platform {
  get = λ before s.
      if text_eq s.url plain_url
      then answer (9 ∷ [])
      else elim s.verify [ none ↦ failed (ssl_error true) | some bundle ↦ answer (1 ∷ []) ];
  issuers = λ before host n. some (plain_url ∷ []);
  load_certificate = λ body. some body;
  bundle_file = λ host pems. host;
}

-- One probe, and three requests: refused, for the certificate, and with the completed chain.
completed :
    let d = download omits_chain 2 secure_url key 10 5 (some 30) in
    (length d.0.probes ≡ 1) × (map (λ s. s.url) d.0.sent ≡ secure_url ∷ plain_url ∷ secure_url ∷ [])
unfolding download strip fetch_hop intermediate_pems safe_get
completed = (refl, refl)

safe_download_example :
    let d = download omits_chain 2 secure_url key 10 5 (some 30) in
    All (IsGuarded stdlib secure_origin) d.0.sent
    × All (IsProbed stdlib) d.0.probes
    × (length d.0.sent ≤ repeated (5 + 1) (chain_requests 2 + 2))
unfolding origin_of split_userinfo request_origin strip
safe_download_example =
    safe_download_lem omits_chain 2 secure_url key 10 5 (some 30) secure_origin refl

abbrev limits : Limits
limits = record { max_bytes = 3; expires_at = none }

abbrev chunks : List Text
chunks = (1 ∷ 2 ∷ []) ∷ [] ∷ (3 ∷ []) ∷ []

drain_example :
    ((out : Text)
      → (drain platform limits 0 [] chunks 1).1 ≡ returned out
      → (out ≡ joined chunks) × (length out ≤ limits.max_bytes))
    × (((n : ℕ) → expired limits.expires_at (platform.monotonic n) ≡ false)
        → (drain platform limits 0 [] chunks 1).1 ≡ (
            if leb (length (joined chunks)) limits.max_bytes
            then returned (joined chunks)
            else raised (response_too_large limits.max_bytes)))
drain_example = drain_lem platform limits chunks 1

upgrade-drops_auth_example : may_forward_auth plain_origin secure_origin ≡ false
unfolding request_origin strip
upgrade-drops_auth_example =
    upgrade-drops_auth stdlib plain_url secure_url (parts_of http plain_url)
      (parts_of https secure_url) plain_origin secure_origin refl refl refl refl refl refl refl refl

-- Every address answers with itself.
abbrev echo : Resolver
echo thread host = infos (as_info af_inet host ∷ [])
