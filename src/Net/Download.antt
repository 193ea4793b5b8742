-- ===== src/Net/Download.antt =====
-- `safe_download` and `safe_get`: the redirect loop, the pinned requests and the capped body.
use otwarte_dane_transportow.Common.{
  ℕ, ◌+◌, Bool, false, Option, none, some, List, [], ◌∷◌, ◌++◌, ltb, if◌then◌else◌, not, Text,
  text_eq, non_empty, length,
}
use otwarte_dane_transportow.Net.Failures.{
  Exception, response_too_large, timeout, ssl_error, Attempt, returned, raised, ◌>>=◌,
}
use otwarte_dane_transportow.Net.Urls.{
  Stdlib, Header, Origin, Resolved, split_userinfo, request_origin, may_forward_auth,
  resolve_public_ips,
}

-- A request as it goes out: `ips` is what its host is pinned to.
pub record Sent : Type 0 where
  pub url : Text
  pub headers : Option (List Header)
  pub ips : List Text
  pub verify : Option Text

pub record Response : Type 0 where
  pub status_code : ℕ
  pub is_redirect : Bool
  pub location : Option Text
  pub chunks : List Text

pub data Got : Type 0 where
  response : Response → Got
  failed : Exception → Got

-- The standard library, `time.monotonic` at each reading, `requests.get` after the requests before; and
-- of `ssl` and `cryptography`: the issuer URLs in the certificate that a host shows at an unpinned
-- connection, by the number of those before (none where it fails), a certificate read from a body and
-- printed as PEM, and the name of the file with the roots and the given certificates.
pub record Platform : Type 0 where
  pub stdlib : Stdlib
  pub monotonic : ℕ → ℕ
  pub get : List Sent → Sent → Got
  pub issuers : ℕ → Text → ℕ → Option (List Text)
  pub load_certificate : Text → Option Text
  pub bundle_file : Text → List Text → Text

-- An unpinned connection that only reads a certificate.
pub record Probe : Type 0 where
  pub hostname : Text
  pub port_number : ℕ

-- A completed chain of `_AIA_BUNDLE_CACHE`.
pub record Bundle : Type 0 where
  pub of_host : Text
  pub path : Text

-- The readings of the clock so far, the requests and the probes, the last one first, and the cached
-- chains.
pub record Trace : Type 0 where
  pub readings : ℕ
  pub sent : List Sent
  pub probes : List Probe
  pub bundles : List Bundle

-- `_ca_bundle_with_aia_intermediates`, of Net/Certificates.
abbrev pub Completion : Type 0
Completion = Text → ℕ → Trace → Trace × Option Text

pub record Limits : Type 0 where
  pub max_bytes : ℕ
  pub expires_at : Option ℕ

-- `{**own, **headers}`
unfoldable pub set_header : Header → List Header → List Header
set_header h [] = h ∷ []
set_header h (x ∷ xs) =
    let rest = set_header h xs in if text_eq x.name h.name then h ∷ xs else x ∷ rest

unfoldable pub merged : List Header → List Header → List Header
unfolding set_header
merged own [] = own
merged own (h ∷ hs) = merged (set_header h own) hs

-- `headers or None`
abbrev pub or_none : List Header → Option (List Header)
or_none [] = none
or_none (h ∷ hs) = some (h ∷ hs)

-- `SSLError` with "certificate verify failed".
abbrev pub is_verify_error : Exception → Bool
is_verify_error (ssl_error verify_failed) = verify_failed
is_verify_error _ = false

-- `_Deadline.check`
unfoldable pub expired : Option ℕ → ℕ → Bool
expired none now = false
expired (some at) now = ltb at now

pub record Hop : Type 0 where
  pub request : Sent
  pub resolved : Resolved

module _ (p : Platform) where
  -- `_drain`: the chunks are read while the total stays within the limit.
  unfoldable pub drain : Limits → ℕ → Text → List Text → ℕ → ℕ × Attempt Text
  unfolding expired
  drain l total body [] readings = (readings, returned body)
  drain l total body (chunk ∷ chunks) readings =
      let skipped = drain l total body chunks readings in
      let written = drain l (total + length chunk) (body ++ chunk) chunks (readings + 1) in
      if not (non_empty chunk)
      then skipped
      else if expired l.expires_at (p.monotonic readings)
      then (readings + 1, raised timeout)
      else if ltb l.max_bytes (total + length chunk)
      then (readings + 1, raised (response_too_large l.max_bytes))
      else written

  -- What a hop sends, before its host is resolved.
  unfoldable pub request_headers :
      Origin → List Header → List Header → Origin → Option (List Header)
  unfolding may_forward_auth merged
  request_headers origin headers own target =
      if may_forward_auth origin target then or_none (merged own headers) else or_none own

  unfoldable pub prepare : Origin → List Header → Text → Attempt Hop
  unfolding split_userinfo request_origin request_headers resolve_public_ips
  prepare origin headers current = do
    split ← split_userinfo p.stdlib current
    target ← request_origin p.stdlib split.0
    resolved ← resolve_public_ips p.stdlib split.0
    returned (record {
      request = record {
        url = split.0;
        headers = request_headers origin headers split.1 target;
        ips = resolved.ips;
        verify = none;
      };
      resolved = resolved;
    })

  abbrev pub sending : Sent → Trace → Trace
  sending s t = record t { sent = s ∷ t.sent }

  abbrev pub got : Trace → Got → Trace × Attempt Response
  got t (response r) = (t, returned r)
  got t (failed e) = (t, raised e)

  -- The retry with a completed chain of certificates, after the error `e`.
  unfoldable pub with_bundle : Sent → Exception → Trace × Option Text → Trace × Attempt Response
  with_bundle s e (t, none) = (t, raised e)
  with_bundle s e (t, some bundle) =
      let again = record s { verify = some bundle } in got (sending again t) (p.get t.sent again)

  unfoldable pub received : Completion → Hop → Trace → Got → Trace × Attempt Response
  unfolding with_bundle
  received complete h t (response r) = (t, returned r)
  received complete h t (failed e) =
      let completed = complete h.resolved.hostname h.resolved.port_number t in
      if is_verify_error e then with_bundle h.request e completed else (t, raised e)

  unfoldable pub fetch_hop : Completion → Hop → Trace → Trace × Attempt Response
  unfolding received
  fetch_hop complete h t = received complete h (sending h.request t) (p.get t.sent h.request)
