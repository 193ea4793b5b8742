-- ===== src/Net/Drained.antt =====
-- What `_drain` returns, and when credentials may follow a redirect.
use otwarte_dane_transportow.Common.{
  ℕ, ◌+◌, ◌≤◌, ◌≡◌, refl, sym, ap, ◌∙◌, inl, inr, ◌↔◌, true, false, List, [], ◌∷◌, ◌++◌, leb, ltb,
  if◌then◌else◌, Text, text_eq, text_eq_iff, ==_iff, length, Bool-cases, arith,
}
use mathlib.Core.List.{append-nil, append_assoc}
use otwarte_dane_transportow.Review.StageValue.{strip}
use otwarte_dane_transportow.Net.Failures.{response_too_large, returned, raised, ok_injective}
use otwarte_dane_transportow.Net.Urls.{
  Stdlib, Parts, Origin, no_port, http, https, or_empty, request_origin, may_forward_auth, port_or,
  default_port,
}
use otwarte_dane_transportow.Net.Download.{Platform, Limits, expired, drain}

-- `b''.join(chunks)`
abbrev pub joined : List Text → Text
joined [] = []
joined (c ∷ cs) = c ++ joined cs

length-append : (s t : Text) → length (s ++ t) ≡ length s + length t
length-append [] t = omega arith
length-append (c ∷ s) t = omega (arith, length-append s t)

module _ (p : Platform) (l : Limits) where
  -- The body so far, of `total` bytes.
  drain_sound :
      (chunks : List Text) (total readings : ℕ) (body out : Text)
      → total ≡ length body
      → total ≤ l.max_bytes
      → (drain p l total body chunks readings).1 ≡ returned out
      → (out ≡ body ++ joined chunks) × (length out ≤ l.max_bytes)
  unfolding drain
  drain_sound [] total readings body out k m e =
      let same = ok_injective e in (sym same ∙ sym (append-nil body), omega (arith, ap length same))
  drain_sound ([] ∷ cs) total readings body out k m e = drain_sound cs total readings body out k m e
  drain_sound ((b ∷ bs) ∷ cs) total readings body out k m e =
      elim (Bool-cases (expired l.expires_at (p.monotonic readings))) [
        | inl late ↦ absurd (ground arith)
        | inr early ↦ elim (Bool-cases (ltb l.max_bytes (total + length (b ∷ bs)))) [
          | inl large ↦ absurd (ground arith)
          | inr small ↦
              let rest =
                drain_sound cs (total + length (b ∷ bs)) (readings + 1) (body ++ b ∷ bs) out
                  (omega (arith, k, length-append body (b ∷ bs))) (ground arith) (ground arith) in
              (rest.0 ∙ append_assoc body (b ∷ bs) (joined cs), rest.1)
        ]
      ]

  drain_total :
      (chunks : List Text) (total readings : ℕ) (body : Text)
      → ((n : ℕ) → expired l.expires_at (p.monotonic n) ≡ false)
      → total ≤ l.max_bytes
      → (drain p l total body chunks readings).1 ≡ (
          if leb (total + length (joined chunks)) l.max_bytes
          then returned (body ++ joined chunks)
          else raised (response_too_large l.max_bytes))
  unfolding drain
  drain_total [] total readings body early m = rw (append-nil body) (ground arith)
  drain_total ([] ∷ cs) total readings body early m = drain_total cs total readings body early m
  drain_total ((b ∷ bs) ∷ cs) total readings body early m =
      elim (Bool-cases (ltb l.max_bytes (total + length (b ∷ bs)))) [
        | inl large ↦ ground (arith, early readings, length-append (b ∷ bs) (joined cs))
        | inr small ↦
            let rest =
              drain_total cs (total + length (b ∷ bs)) (readings + 1) (body ++ b ∷ bs) early
                (ground arith) in
            ground (
              arith,
              early readings,
              length-append (b ∷ bs) (joined cs),
              rest,
              append_assoc body (b ∷ bs) (joined cs),
            )
      ]

-- A body that is returned is the chunks joined, and no longer than the limit; and while the
-- deadline has not passed, the chunks are returned exactly when they fit the limit.
pub drain_lem :
    (p : Platform) (l : Limits) (chunks : List Text) (readings : ℕ)
    → ((out : Text)
        → (drain p l 0 [] chunks readings).1 ≡ returned out
        → (out ≡ joined chunks) × (length out ≤ l.max_bytes))
      × (((n : ℕ) → expired l.expires_at (p.monotonic n) ≡ false)
          → (drain p l 0 [] chunks readings).1 ≡ (
              if leb (length (joined chunks)) l.max_bytes
              then returned (joined chunks)
              else raised (response_too_large l.max_bytes)))
drain_lem p l chunks readings = (
  λ out e. drain_sound p l chunks 0 readings [] out refl (omega arith) e,
  λ early. ground (arith, drain_total p l chunks 0 readings [] early (omega arith)),
)

-- Credentials follow a redirect exactly when host and port stay the same and the scheme does not
-- leave https.
pub may_forward_auth_iff :
    (origin target : Origin)
    → (may_forward_auth origin target ≡ true) ↔ (
        (origin.host ≡ target.host)
        × (origin.port_number ≡ target.port_number)
        × (text_eq origin.scheme https ≡ true → text_eq target.scheme https ≡ true))
unfolding may_forward_auth
may_forward_auth_iff origin target =
    ground
      (arith, text_eq_iff origin.host target.host, ==_iff origin.port_number target.port_number)

default-origin :
    (lib : Stdlib) (url : Text) (a : Parts)
    → lib.urlsplit (strip url) ≡ returned a
    → a.port_part ≡ no_port
    → request_origin lib url
      ≡ returned (record {
        scheme = a.scheme;
        host = lib.lower (or_empty a.hostname);
        port_number = default_port a.scheme;
      })
unfolding request_origin port_or
default-origin lib url a e k = rw (e, k) refl

-- A redirect from http to https on the default ports loses the credentials, whatever the hosts.
pub upgrade-drops_auth :
    (lib : Stdlib) (from to : Text) (a b : Parts) (origin target : Origin)
    → lib.urlsplit (strip from) ≡ returned a
    → lib.urlsplit (strip to) ≡ returned b
    → a.scheme ≡ http
    → b.scheme ≡ https
    → a.port_part ≡ no_port
    → b.port_part ≡ no_port
    → request_origin lib from ≡ returned origin
    → request_origin lib to ≡ returned target
    → may_forward_auth origin target ≡ false
unfolding may_forward_auth request_origin port_or default_port
upgrade-drops_auth lib from to a b origin target ea eb sa sb pa pb ho ht =
    let o = ok_injective (sym ho ∙ default-origin lib from a ea pa) in
    let t = ok_injective (sym ht ∙ default-origin lib to b eb pb) in
    rw (o, t, sa, sb) (ground arith)
