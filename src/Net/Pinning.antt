-- ===== src/Net/Pinning.antt =====
-- `_pinned_dns`: the resolver that stands in for `socket.getaddrinfo` during a request.
use otwarte_dane_transportow.Common.{
  ℕ, false, ◌&&◌, List, [], ◌∷◌, ◌++◌, map, ◌==◌, if◌then◌else◌, Text, text_eq, text_eq_refl, ◌≡◌,
  refl, All, ==_iff,
}
use otwarte_dane_transportow.Net.Urls.{Lookup, Info, Family, infos}

-- What a thread gets for a host; port and flags of the call are left out.
abbrev pub Resolver : Type 0
Resolver = ℕ → Text → Lookup

-- The results for each address, one after the other.
unfoldable pub extended : Resolver → ℕ → List Text → Lookup
extended real thread [] = infos []
extended real thread (ip ∷ ips) = elim (real thread ip) [
  | infos here ↦ elim (extended real thread ips) [
    | infos rest ↦ infos (here ++ rest)
    | other ↦ other
  ]
  | other ↦ other
]

unfoldable pub patched : Resolver → Text → List Text → ℕ → Resolver
unfolding extended
patched real hostname allowed_ips owner thread host =
    let unpinned = real thread host in
    if text_eq host hostname && (thread == owner)
    then elim (extended real thread allowed_ips) [ infos [] ↦ unpinned | other ↦ other ]
    else unpinned

-- A resolver answers a literal address with that address alone, of some family.
pub record IsLiteral (real : Resolver) (family : Family) (ip : Text) : Type 0 where
  pub answer : (thread : ℕ) → real thread ip ≡ infos (record { family = family; address = ip } ∷ [])

abbrev pub as_info : Family → Text → Info
as_info family ip = record { family = family; address = ip }

extended-literal :
    (real : Resolver) (family : Family) (thread : ℕ) (ips : List Text)
    → All (IsLiteral real family) ips
    → extended real thread ips ≡ infos (map (as_info family) ips)
unfolding extended
extended-literal real family thread [] h = refl
extended-literal real family thread (ip ∷ ips) h =
    rw (extended, (h.0).answer thread, extended-literal real family thread ips (h.1)) refl

-- Where the resolver answers a literal address with itself, the thread that installed the pin gets
-- exactly the allowed addresses for the pinned host, whatever the resolver says of that host; other
-- threads and other hosts get what they got before.
pub patched_lem :
    (real : Resolver) (hostname : Text) (ip : Text) (ips : List Text) (family : Family) (owner : ℕ)
    → All (IsLiteral real family) (ip ∷ ips)
    → (patched real hostname (ip ∷ ips) owner owner hostname
        ≡ infos (map (as_info family) (ip ∷ ips)))
      × ((thread : ℕ) (host : Text)
          → (text_eq host hostname && (thread == owner)) ≡ false
          → patched real hostname (ip ∷ ips) owner thread host ≡ real thread host)
unfolding patched
patched_lem real hostname ip ips family owner h = (
  rw
      (
        text_eq_refl hostname,
        (==_iff owner owner).1 refl,
        extended-literal real family owner (ip ∷ ips) h,
      )
      refl,
  λ thread host e. rw e refl,
)
