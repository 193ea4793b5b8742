-- ===== src/Net/Guard.antt =====
-- The rules of a request, and that a prepared hop keeps to them.
use otwarte_dane_transportow.Common.{
  not, ℕ, ◌≡◌, refl, inl, inr, true, List, [], ◌∷◌, Text, All, all, non_empty, Bool-cases, arith,
  ◌⊎◌, sym, text_eq, text_eq_sound,
}
use otwarte_dane_transportow.Review.StageValue.{strip}
use mathlib.Core.Path.{subst}
use otwarte_dane_transportow.Net.Failures.{
  outbound_url_blocked, returned, >>=-eq-returned, guard-eq-returned, ok_injective,
}
use otwarte_dane_transportow.Net.Urls.{
  Stdlib, Header, Origin, Resolved, Lookup, infos, gaierror, lookup_raised, split_userinfo,
  request_origin, may_forward_auth, resolve_public_ips, is_public_ip, checked, checked_ips,
  resolved_ips, or_empty, port_or, Parts, resolve_parts, is_web, default_port, https,
}
use otwarte_dane_transportow.Net.Download.{
  Platform, Sent, Hop, or_none, request_headers, prepare, Probe, merged,
}

-- The host and the port are the same, and https is not left.
pub record IsSameSite (origin target : Origin) : Type 0 where
  pub host : target.host ≡ origin.host
  pub port_number : target.port_number ≡ origin.port_number
  pub secure : origin.scheme ≡ https → target.scheme ≡ https

-- The URL is checked, the connection is pinned to its addresses and each is public; and unless the
-- host and port are those of the first URL, without a downgrade from https, the headers are no
-- others than the user info of the URL gives.
pub record IsGuarded (lib : Stdlib) (origin : Origin) (s : Sent) : Type 0 where
  pub resolved : Resolved
  pub checks : resolve_public_ips lib s.url ≡ returned resolved
  pub pinned : s.ips ≡ resolved.ips
  pub public_ips : All (λ ip. is_public_ip lib ip ≡ true) s.ips
  pub target : Origin
  pub origin_is : request_origin lib s.url ≡ returned target
  pub source_url : Text
  pub own : List Header
  pub split : split_userinfo lib source_url ≡ returned (s.url, own)
  pub scoped : (s.headers ≡ or_none own) ⊎ IsSameSite origin target

-- The host and the port of an unpinned connection were resolved, from some URL, to public addresses.
pub record IsProbed (lib : Stdlib) (probe : Probe) : Type 0 where
  pub url : Text
  pub resolved : Resolved
  pub checks : resolve_public_ips lib url ≡ returned resolved
  pub host : probe.hostname ≡ resolved.hostname
  pub port_number : probe.port_number ≡ resolved.port_number
  pub public_ips : All (λ ip. is_public_ip lib ip ≡ true) resolved.ips

forwarded-IsSameSite :
    (origin target : Origin) → may_forward_auth origin target ≡ true → IsSameSite origin target
unfolding may_forward_auth
forwarded-IsSameSite origin target h = record {
  host = sym (text_eq_sound origin.host target.host (ground arith));
  port_number = ground arith;
  secure = λ e.
      text_eq_sound target.scheme https
        (ground (arith, subst (λ x. text_eq x https ≡ true) (sym e) refl));
}

all-All :
    (lib : Stdlib) (ips : List Text)
    → all (is_public_ip lib) ips ≡ true
    → All (λ ip. is_public_ip lib ip ≡ true) ips
all-All lib [] h = tt
all-All lib (ip ∷ ips) h = elim (Bool-cases (is_public_ip lib ip)) [
  | inl e ↦ (e, all-All lib ips (ground arith))
  | inr e ↦ absurd (ground arith)
]

checked_ips-public :
    (lib : Stdlib) (host : Text) (n : ℕ) (ips : List Text) (r : Resolved)
    → checked_ips lib host n ips ≡ returned r
    → All (λ ip. is_public_ip lib ip ≡ true) r.ips
unfolding checked_ips
checked_ips-public lib host n [] r h = absurd cc
checked_ips-public lib host n (ip ∷ ips) r h =
    elim (Bool-cases (all (is_public_ip lib) (ip ∷ ips))) [
      | inl e ↦
          let same : returned (record { hostname = host; port_number = n; ips = ip ∷ ips })
              ≡ returned r =
            ground arith in
          subst (λ x. All (λ ip. is_public_ip lib ip ≡ true) x.ips) (ok_injective same)
            (all-All lib (ip ∷ ips) e)
      | inr e ↦ absurd (ground arith)
    ]

checked-public :
    (lib : Stdlib) (host : Text) (n : ℕ) (l : Lookup) (r : Resolved)
    → checked lib host n l ≡ returned r
    → All (λ ip. is_public_ip lib ip ≡ true) r.ips
unfolding checked
checked-public lib host n gaierror r h = absurd cc
checked-public lib host n (lookup_raised e) r h = absurd cc
checked-public lib host n (infos is) r h = checked_ips-public lib host n (resolved_ips is) r h

resolve-public :
    (lib : Stdlib) (url : Text) (r : Resolved)
    → resolve_public_ips lib url ≡ returned r
    → All (λ ip. is_public_ip lib ip ≡ true) r.ips
unfolding resolve_public_ips resolve_parts
resolve-public lib url r h =
    let a = >>=-eq-returned (lib.urlsplit (strip url)) _ h in go (a.0) (a.2)
  where
    go :
        (parts : Parts)
        → resolve_parts lib parts ≡ returned r
        → All (λ ip. is_public_ip lib ip ≡ true) r.ips
    go parts e =
        let host = or_empty parts.hostname in
        let b = guard-eq-returned (not (is_web parts.scheme)) outbound_url_blocked _ e in
        let c = guard-eq-returned (not (non_empty host)) outbound_url_blocked _ (b.1) in
        let d = >>=-eq-returned (port_or (default_port parts.scheme) parts.port_part) _ (c.1) in
        checked-public lib host (d.0) (lib.getaddrinfo host (d.0)) r (d.2)

module _ (p : Platform) (origin : Origin) (headers : List Header) where
  pub prepare-IsGuarded :
      (current : Text) (h : Hop)
      → prepare p origin headers current ≡ returned h
      → IsGuarded p.stdlib origin h.request
  unfolding prepare request_headers
  prepare-IsGuarded current h e =
      let a = >>=-eq-returned (split_userinfo p.stdlib current) _ e in
      let b = >>=-eq-returned (request_origin p.stdlib (a.0).0) _ (a.2) in
      let c = >>=-eq-returned (resolve_public_ips p.stdlib (a.0).0) _ (b.2) in
      let same = ok_injective (c.2) in
      subst (λ h. IsGuarded p.stdlib origin h.request) same
        (record {
          resolved = c.0;
          checks = c.1;
          pinned = refl;
          public_ips = resolve-public p.stdlib (a.0).0 (c.0) (c.1);
          target = b.0;
          origin_is = b.1;
          source_url = current;
          own = (a.0).1;
          split = a.1;
          scoped = scoped (a.0).1 (b.0);
        })
    where
      scoped :
          (own : List Header) (target : Origin)
          → (request_headers p origin headers own target ≡ or_none own) ⊎ IsSameSite origin target
      scoped own target = elim (Bool-cases (may_forward_auth origin target)) [
        | inl e ↦ inr (forwarded-IsSameSite origin target e)
        | inr e ↦ inl (rw e refl)
      ]

  pub prepare-IsProbed :
      (current : Text) (h : Hop)
      → prepare p origin headers current ≡ returned h
      → IsProbed p.stdlib
          (record { hostname = h.resolved.hostname; port_number = h.resolved.port_number })
  unfolding prepare
  prepare-IsProbed current h e =
      let a = >>=-eq-returned (split_userinfo p.stdlib current) _ e in
      let b = >>=-eq-returned (request_origin p.stdlib (a.0).0) _ (a.2) in
      let c = >>=-eq-returned (resolve_public_ips p.stdlib (a.0).0) _ (b.2) in
      let same = ok_injective (c.2) in
      subst
        (λ h.
          IsProbed p.stdlib
            (record { hostname = h.resolved.hostname; port_number = h.resolved.port_number }))
        same
        (record {
          url = (a.0).0;
          resolved = c.0;
          checks = c.1;
          host = refl;
          port_number = refl;
          public_ips = resolve-public p.stdlib (a.0).0 (c.0) (c.1);
        })

-- Without headers of its own, a download keeps to the rules of any origin.
pub bare-IsGuarded :
    (p : Platform) (guard origin : Origin) (current : Text) (h : Hop)
    → prepare p origin [] current ≡ returned h
    → IsGuarded p.stdlib guard h.request
unfolding prepare request_headers merged
bare-IsGuarded p guard origin current h e =
    let a = >>=-eq-returned (split_userinfo p.stdlib current) _ e in
    let b = >>=-eq-returned (request_origin p.stdlib (a.0).0) _ (a.2) in
    let c = >>=-eq-returned (resolve_public_ips p.stdlib (a.0).0) _ (b.2) in
    let same = ok_injective (c.2) in
    subst (λ h. IsGuarded p.stdlib guard h.request) same
      (record {
        resolved = c.0;
        checks = c.1;
        pinned = refl;
        public_ips = resolve-public p.stdlib (a.0).0 (c.0) (c.1);
        target = b.0;
        origin_is = b.1;
        source_url = current;
        own = (a.0).1;
        split = a.1;
        scoped = inl (ground arith);
      })
