-- ===== src/Net/Certificates.antt =====
-- `_ca_bundle_with_aia_intermediates`: the chain of certificates of a server that omits its
-- intermediate one, completed by downloads of their own. Such a download may meet a server of that kind
-- again; `depth` is how many of them the recursion limit of Python lets nest. The error at the limit is
-- caught like any other, so that the chain is not completed there. Writing the file does not fail.
use otwarte_dane_transportow.Common.{
  ℕ, zero, suc, Option, none, some, List, [], ◌∷◌, leb, if◌then◌else◌, Text, text_eq, length,
}
use otwarte_dane_transportow.Net.Failures.{Attempt, returned, raised}
use otwarte_dane_transportow.Net.Urls.{Header}
use otwarte_dane_transportow.Net.Download.{Platform, Bundle, Trace, Response, Completion}
use otwarte_dane_transportow.Net.Redirects.{Download, safe_get, safe_download}

abbrev pub aia_intermediate_max_bytes : ℕ
aia_intermediate_max_bytes = 100000

-- `_AIA_BUNDLE_CACHE.get(hostname)`
unfoldable pub cached_bundle : Text → List Bundle → Option Text
cached_bundle hostname [] = none
cached_bundle hostname (b ∷ bs) =
    let rest = cached_bundle hostname bs in if text_eq b.of_host hostname then some b.path else rest

-- A fetched certificate with those after it.
abbrev pub with_pem : Option Text → List Text → List Text
with_pem none pems = pems
with_pem (some pem) pems = pem ∷ pems

module _ (p : Platform) where
  abbrev pub fetched_pem : Attempt (Response × Text) → Option Text
  fetched_pem (raised e) = none
  fetched_pem (returned (r, body)) = if leb 400 r.status_code then none else p.load_certificate body

  -- `for issuer_url in issuer_urls[:n]`
  unfoldable pub intermediate_pems : Completion → ℕ → List Text → Trace → Trace × List Text
  intermediate_pems complete zero urls t = (t, [])
  intermediate_pems complete (suc n) [] t = (t, [])
  intermediate_pems complete (suc n) (url ∷ urls) t =
      let (t₁, fetched) = safe_get p complete url [] aia_intermediate_max_bytes (some 30) t in
      let (t₂, pems) = intermediate_pems complete n urls t₁ in
      (t₂, with_pem (fetched_pem fetched) pems)

  -- The new file, and its entry in the cache.
  abbrev pub bundled : Text → Trace × List Text → Trace × Option Text
  bundled hostname (t, []) = (t, none)
  bundled hostname (t, pem ∷ pems) =
      let path = p.bundle_file hostname (pem ∷ pems) in
      (record t { bundles = record { of_host = hostname; path = path } ∷ t.bundles }, some path)

  abbrev pub probing : Text → ℕ → Trace → Trace
  probing hostname port_number t = record t {
    probes = record { hostname = hostname; port_number = port_number } ∷ t.probes;
  }

  abbrev pub from_leaf : Completion → Text → Option (List Text) → Trace → Trace × Option Text
  from_leaf complete hostname none t = (t, none)
  from_leaf complete hostname (some urls) t = bundled hostname (intermediate_pems complete 3 urls t)

  abbrev pub from_cache : Option Text → Trace → Trace × Option Text → Trace × Option Text
  from_cache (some path) t fetched = (t, some path)
  from_cache none t fetched = fetched

  unfoldable pub ca_bundle : ℕ → Completion
  unfolding cached_bundle intermediate_pems
  ca_bundle zero hostname port_number t = (t, none)
  ca_bundle (suc depth) hostname port_number t = from_cache (cached_bundle hostname t.bundles) t (
      from_leaf (ca_bundle depth) hostname (p.issuers (length t.probes) hostname port_number)
        (probing hostname port_number t))

  abbrev pub nothing_sent : Trace
  nothing_sent = record { readings = 0; sent = []; probes = []; bundles = [] }

  -- A download of the program, in a process that has completed no chain yet.
  unfoldable pub download : ℕ → Text → List Header → ℕ → ℕ → Option ℕ → Download
  unfolding safe_download ca_bundle
  download depth url headers max_bytes max_redirects total_timeout =
      safe_download p (ca_bundle depth) url headers max_bytes max_redirects total_timeout
        nothing_sent
