-- ===== src/Net/Requests.antt =====
-- Every request that a download sends keeps to the rules of Net/Guard, those that complete a chain of
-- certificates included.
use otwarte_dane_transportow.Common.{
  ℕ, zero, suc, ◌+◌, ◌≤◌, ◌≡◌, ◌∙◌, sym, Option, none, some, List, [], ◌∷◌, Text, length, All,
  arith,
}
use mathlib.Core.Path.{subst}
use otwarte_dane_transportow.Net.Failures.{returned, ok_injective}
use otwarte_dane_transportow.Net.Urls.{Header, Origin}
use otwarte_dane_transportow.Net.Download.{Platform, Trace, Completion, Hop, prepare}
use otwarte_dane_transportow.Net.Redirects.{default_max_redirects, safe_get, origin_of}
use otwarte_dane_transportow.Net.Certificates.{
  aia_intermediate_max_bytes, cached_bundle, intermediate_pems, bundled, probing, from_leaf,
  from_cache, ca_bundle, download, nothing_sent,
}
use otwarte_dane_transportow.Net.Guard.{
  IsGuarded, IsProbed, prepare-IsGuarded, prepare-IsProbed, bare-IsGuarded,
}
use otwarte_dane_transportow.Net.Kept.{
  IsKept, repeated, same-IsKept, IsKept-trans, CompletionKept, safe_download-IsKept,
}

-- The requests that complete one chain, at most, where `depth` downloads may nest.
abbrev pub chain_requests : ℕ → ℕ
chain_requests zero = 0
chain_requests (suc depth) =
    repeated 3 (repeated (default_max_redirects + 1) (chain_requests depth + 2))

module _ (p : Platform) (guard : Origin) where
  module _ (c : ℕ) (complete : Completion) (kept : CompletionKept p guard c complete) where
    abbrev one_download : ℕ
    one_download = repeated (default_max_redirects + 1) (c + 2)

    safe_get-IsKept :
        (url : Text) (t : Trace)
        → IsKept p guard one_download t
            (safe_get p complete url [] aia_intermediate_max_bytes (some 30) t).0
    unfolding safe_get
    safe_get-IsKept url t =
        safe_download-IsKept p guard c complete kept url [] aia_intermediate_max_bytes
          default_max_redirects (some 30) t
          (λ origin e current h q.
            (bare-IsGuarded p guard origin current h q, prepare-IsProbed p origin [] current h q))

    intermediate_pems-IsKept :
        (n : ℕ) (urls : List Text) (t : Trace)
        → IsKept p guard (repeated n one_download) t (intermediate_pems p complete n urls t).0
    unfolding intermediate_pems
    intermediate_pems-IsKept zero urls t = same-IsKept p guard 0 t
    intermediate_pems-IsKept (suc n) [] t = same-IsKept p guard (repeated (suc n) one_download) t
    intermediate_pems-IsKept (suc n) (url ∷ urls) t =
        IsKept-trans p guard one_download (repeated n one_download) t _ _ (safe_get-IsKept url t)
          (intermediate_pems-IsKept n urls _)

    bundled-IsKept :
        (n : ℕ) (hostname : Text) (t : Trace) (r : Trace × List Text)
        → IsKept p guard n t r.0
        → IsKept p guard n t (bundled p hostname r).0
    bundled-IsKept n hostname t (u, []) k = k
    bundled-IsKept n hostname t (u, pem ∷ pems) k = record {
      guarded = k.guarded;
      probed = k.probed;
      bounded = k.bounded;
    }

    from_leaf-IsKept :
        (hostname : Text) (issuers : Option (List Text)) (t : Trace)
        → IsKept p guard (repeated 3 one_download) t (from_leaf p complete hostname issuers t).0
    from_leaf-IsKept hostname none t = same-IsKept p guard (repeated 3 one_download) t
    from_leaf-IsKept hostname (some urls) t =
        bundled-IsKept (repeated 3 one_download) hostname t (intermediate_pems p complete 3 urls t)
          (intermediate_pems-IsKept 3 urls t)

  from_cache-IsKept :
      (n : ℕ) (o : Option Text) (t : Trace) (r : Trace × Option Text)
      → IsKept p guard n t r.0
      → IsKept p guard n t (from_cache p o t r).0
  from_cache-IsKept n (some path) t r k = same-IsKept p guard n t
  from_cache-IsKept n none t r k = k

  ca_bundle-IsKept : (depth : ℕ) → CompletionKept p guard (chain_requests depth) (ca_bundle p depth)
  unfolding ca_bundle
  ca_bundle-IsKept zero hostname port_number t probe = same-IsKept p guard 0 t
  ca_bundle-IsKept (suc depth) hostname port_number t probe =
      let k =
        from_leaf-IsKept (chain_requests depth) (ca_bundle p depth) (ca_bundle-IsKept depth)
          hostname (p.issuers (length t.probes) hostname port_number)
          (probing p hostname port_number t) in
      from_cache-IsKept (chain_requests (suc depth)) (cached_bundle hostname t.bundles) t _
        (record { guarded = k.guarded; probed = λ a. k.probed (probe, a); bounded = k.bounded })

-- Whatever the servers answer and wherever they redirect, every request that a download sends, and
-- every request of the downloads nested in it that complete chains of certificates, goes to a checked
-- URL, pinned to addresses that are all public, and has no headers but those of its own URL's user
-- info, unless host and port are those of the first URL and https is not left. The connections that
-- only read a certificate are not pinned; their host and port were resolved to public addresses. A hop
-- sends at most two requests beside those of a chain.
pub safe_download_lem :
    (p : Platform) (depth : ℕ) (url : Text) (headers : List Header) (max_bytes max_redirects : ℕ)
    (total_timeout : Option ℕ) (origin : Origin)
    → origin_of p url ≡ returned origin
    → let d = download p depth url headers max_bytes max_redirects total_timeout in
      All (IsGuarded p.stdlib origin) d.0.sent
      × All (IsProbed p.stdlib) d.0.probes
      × (length d.0.sent ≤ repeated (max_redirects + 1) (chain_requests depth + 2))
unfolding download
safe_download_lem p depth url headers max_bytes max_redirects total_timeout origin e =
    let k =
      safe_download-IsKept p origin (chain_requests depth) (ca_bundle p depth)
        (ca_bundle-IsKept p origin depth) url headers max_bytes max_redirects total_timeout
        (nothing_sent p) prepared in
    (k.guarded tt, k.probed tt, omega (arith, k.bounded))
  where
    prepared :
        (o : Origin)
        → origin_of p url ≡ returned o
        → (current : Text) (h : Hop) → prepare p o headers current ≡ returned h
        → IsGuarded p.stdlib origin h.request
          × IsProbed p.stdlib
              (record { hostname = h.resolved.hostname; port_number = h.resolved.port_number })
    prepared o q current h r = (
      subst (λ g. IsGuarded p.stdlib g h.request) (ok_injective (sym q ∙ e))
          (prepare-IsGuarded p o headers current h r),
      prepare-IsProbed p o headers current h r,
    )
