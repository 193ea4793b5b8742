-- ===== src/Net/Redirects.antt =====
-- `safe_download`: the redirect loop over the hops of Net/Download, and `safe_get`.
use otwarte_dane_transportow.Common.{
  ℕ, zero, suc, ◌+◌, Option, none, some, List, [], if◌then◌else◌, Text, non_empty,
}
use otwarte_dane_transportow.Net.Failures.{
  outbound_url_blocked, timeout, Attempt, returned, raised, ◌>>=◌,
}
use otwarte_dane_transportow.Net.Urls.{Header, Origin, split_userinfo, request_origin, or_empty}
use otwarte_dane_transportow.Net.Download.{
  Platform, Trace, Limits, Response, Hop, expired, drain, prepare, fetch_hop, Completion,
}

abbrev pub Download : Type 0
Download = Trace × Attempt (Response × Text)

abbrev pub default_max_redirects : ℕ
default_max_redirects = 5

-- `yield response, body`, or what `_drain` raised.
abbrev pub yielded : Response → Attempt Text → Attempt (Response × Text)
yielded r (returned body) = returned (r, body)
yielded r (raised e) = raised e

abbrev pub finish : Response → Trace → ℕ × Attempt Text → Download
finish r t d = (record t { readings = d.0 }, yielded r (d.1))

abbrev pub redirected : (Text → Trace → Download) → Trace → Attempt Text → Download
redirected next t (raised e) = (t, raised e)
redirected next t (returned url) = next url t

module _ (p : Platform) where
  -- The next URL of a redirect.
  unfoldable pub redirect_target : Text → Option Text → Attempt Text
  redirect_target current location =
      if non_empty (or_empty location)
      then p.stdlib.urljoin current (or_empty location)
      else raised outbound_url_blocked

  -- After a response: `next` is the rest of the loop.
  unfoldable pub answered :
      Limits → (Text → Trace → Download) → Text → Trace × Attempt Response → Download
  unfolding redirect_target drain
  answered l next current (t, raised e) = (t, raised e)
  answered l next current (t, returned r) =
      if r.is_redirect
      then redirected next t (redirect_target current r.location)
      else finish r t (drain p l 0 [] r.chunks t.readings)

  abbrev pub hopped :
      Completion → Limits → (Text → Trace → Download) → Text → Attempt Hop → Trace → Download
  hopped complete l next current (raised e) t = (t, raised e)
  hopped complete l next current (returned h) t = answered l next current (fetch_hop p complete h t)

  -- `for _ in range(max_redirects + 1)`
  unfoldable pub follow : Completion → Origin → List Header → Limits → ℕ → Text → Trace → Download
  unfolding expired prepare answered
  follow complete origin headers l zero current t = (t, raised outbound_url_blocked)
  follow complete origin headers l (suc n) current t =
      let checked = record t { readings = t.readings + 1 } in
      if expired l.expires_at (p.monotonic t.readings)
      then (checked, raised timeout)
      else hopped complete l (follow complete origin headers l n) current
          (prepare p origin headers current) checked

  -- `_Deadline(total_timeout)`
  abbrev pub deadline : ℕ → Option ℕ → Option ℕ
  deadline reading none = none
  deadline reading (some total) = some (p.monotonic reading + total)

  unfoldable pub origin_of : Text → Attempt Origin
  unfolding split_userinfo request_origin
  origin_of url = do split ← split_userinfo p.stdlib url; request_origin p.stdlib split.0

  abbrev pub started : Trace → Attempt Origin → (Origin → Download) → Download
  started t (returned origin) loop = loop origin
  started t (raised e) loop = (t, raised e)

  abbrev pub reading : Trace → Trace
  reading t = record t { readings = t.readings + 1 }

  -- A download after what `t` has; `complete` completes the chains of certificates.
  unfoldable pub safe_download :
      Completion → Text → List Header → ℕ → ℕ → Option ℕ → Trace → Download
  unfolding follow origin_of
  safe_download complete url headers max_bytes max_redirects total_timeout t =
      started (reading t) (origin_of url) (λ origin.
        follow complete origin headers
          (record { max_bytes = max_bytes; expires_at = deadline t.readings total_timeout })
          (max_redirects + 1) url (reading t))

  -- The body of `safe_get` is that of the download.
  unfoldable pub safe_get : Completion → Text → List Header → ℕ → Option ℕ → Trace → Download
  unfolding safe_download
  safe_get complete url headers max_bytes total_timeout t =
      safe_download complete url headers max_bytes default_max_redirects total_timeout t
