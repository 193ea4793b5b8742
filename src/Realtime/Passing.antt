-- ===== src/Realtime/Passing.antt =====
-- What a submission without faults is, and which code an exception gets.
use otwarte_dane_transportow.Common.{
  ℕ, ◌<◌, ◌≡◌, ◌≢◌, refl, sym, ◌∙◌, ap, inl, inr, true, Option, none, some, List, [], ◌∷◌, ◌++◌,
  leb, contains, All, Bool-cases, arith,
}
use otwarte_dane_transportow.History.{Protocol, gtfs_rt, siri, gbfs, EndpointType, Reason}
use otwarte_dane_transportow.Net.Failures.{Attempt, returned, raised}
use otwarte_dane_transportow.Content.Checks.{validate_realtime_feed_content}
use otwarte_dane_transportow.Scheduler.Fetching.{Downloaded}
use otwarte_dane_transportow.Realtime.Verify.{
  Endpoint, RealtimeSubmission, World, link_check, judged, check_all, fetch_all,
  checked_and_fetched, static_faults, examined, needs_static, missing, unless_faults, fetched,
  uncached,
}

-- The endpoint answers with a status below 400 and a body of the protocol.
abbrev pub IsReachable : World → Protocol → Attempt Downloaded → Type 0
IsReachable w q (raised e) = ⊥
IsReachable w q (returned d) =
    (d.status_code < 400)
    × ((types : List EndpointType) × (validate_realtime_feed_content w.parsers q d.body
          ≡ returned types))

-- A proxied endpoint has a cached file.
abbrev pub IsCached : Endpoint → Type 0
IsCached ep = ep.feed.hide_original ≡ true → ep.feed.cached_file ≢ none

unless_faults-none :
    (rs : List Reason) (eps : List Endpoint) (next : List Reason × List Endpoint)
    → (unless_faults rs eps next).0 ≡ []
    → (rs ≡ []) × (unless_faults rs eps next ≡ next)
unless_faults-none [] eps next e = (refl, refl)
unless_faults-none (r ∷ rs) eps next e = absurd cc

module _ (w : World) (q : Protocol) where
  judged-none :
      (t : EndpointType) (r : Attempt (List EndpointType))
      → (judged w q t r).0 ≡ []
      → (types : List EndpointType) × (r ≡ returned types)
  unfolding judged
  judged-none t (returned types) e = (types, refl)
  judged-none t (raised x) e = absurd cc

  link_check-none :
      (t : EndpointType) (r : Attempt Downloaded) → (link_check w q t r).0 ≡ [] → IsReachable w q r
  unfolding link_check
  link_check-none t (raised x) e = absurd (unfold judged in cc)
  link_check-none t (returned d) e = elim (Bool-cases (leb 400 d.status_code)) [
    | inl bad ↦ absurd (ground arith)
    | inr good ↦ (ground arith, judged-none t _ (ground arith))
  ]

  append-none : (xs ys : List Reason) → xs ++ ys ≡ [] → (xs ≡ []) × (ys ≡ [])
  append-none [] ys e = (refl, e)
  append-none (x ∷ xs) ys e = absurd cc

  check_all-none :
      (eps : List Endpoint)
      → (check_all w q eps).0 ≡ []
      → All (λ ep. IsReachable w q (w.link ep)) eps
  unfolding check_all
  check_all-none [] e = tt
  check_all-none (ep ∷ eps) e =
      let both =
        append-none (link_check w q ep.endpoint_type (w.link ep)).0 (check_all w q eps).0 e in
      (link_check-none ep.endpoint_type (w.link ep) both.0, check_all-none eps both.1)

  uncached-none : (ep : Endpoint) → uncached w q ep ≡ [] → IsCached ep
  unfolding uncached
  uncached-none ep e h k = ground arith

  fetch_all-none :
      (eps : List Endpoint) → (fetch_all w q eps).0 ≡ [] → All IsCached (fetch_all w q eps).1
  unfolding fetch_all
  fetch_all-none [] e = tt
  fetch_all-none (ep ∷ eps) e =
      let both = append-none (uncached w q (fetched w q ep)) (fetch_all w q eps).0 e in
      (uncached-none (fetched w q ep) both.0, fetch_all-none eps both.1)

  checked_and_fetched-none :
      (eps : List Endpoint)
      → (checked_and_fetched w q eps).0 ≡ []
      → All (λ ep. IsReachable w q (w.link ep)) eps × All IsCached (checked_and_fetched w q eps).1
  unfolding checked_and_fetched
  checked_and_fetched-none eps e =
      let next = fetch_all w q (check_all w q eps).1 in
      let k = unless_faults-none (check_all w q eps).0 (check_all w q eps).1 next e in
      (
        check_all-none eps k.0,
        rw k.1 (fetch_all-none (check_all w q eps).1 (sym (ap (λ x. x.0) k.1) ∙ e)),
      )

static_faults-none :
    (q : Protocol) (static : Option ℕ) (published : List ℕ)
    → static_faults q static published ≡ []
    → needs_static q ≡ true
    → (id : ℕ) × (static ≡ some id) × (contains id published ≡ true)
unfolding static_faults
static_faults-none gbfs static published e n = absurd cc
static_faults-none gtfs_rt none published e n = absurd cc
static_faults-none siri none published e n = absurd cc
static_faults-none gtfs_rt (some id) published e n = (id, refl, ground arith)
static_faults-none siri (some id) published e n = (id, refl, ground arith)

missing-none : (eps : List Endpoint) → missing eps ≡ [] → eps ≢ []
missing-none [] e n = cc
missing-none (ep ∷ eps) e n = cc

-- A submission without faults has a published static submission where its protocol needs one, and
-- at least one endpoint; every endpoint answered with a status below 400 and a body of the
-- protocol; and every proxied endpoint has a cached file.
pub examined-none :
    (w : World) (published : List ℕ) (s : RealtimeSubmission)
    → (examined w published s).0 ≡ []
    → (needs_static s.protocol ≡ true
        → (id : ℕ) × (s.static_submission ≡ some id) × (contains id published ≡ true))
      × (s.endpoints ≢ [])
      × All (λ ep. IsReachable w s.protocol (w.link ep)) s.endpoints
      × All IsCached (examined w published s).1
unfolding examined
examined-none w published s e =
    let after = checked_and_fetched w s.protocol s.endpoints in
    let faults = static_faults s.protocol s.static_submission published in
    let a = unless_faults-none faults s.endpoints _ e in
    let b =
      unless_faults-none (missing s.endpoints) s.endpoints after (sym (ap (λ x. x.0) a.1) ∙ e) in
    let same = a.1 ∙ b.1 in
    let c = checked_and_fetched-none w s.protocol s.endpoints (sym (ap (λ x. x.0) same) ∙ e) in
    (
      static_faults-none s.protocol s.static_submission published a.0,
      missing-none s.endpoints b.0,
      c.0,
      rw same (c.1),
    )
