-- ===== src/Net/Kept.antt =====
-- What a hop and a download keep: every request and every probe keeps to the rules of Net/Guard.
use otwarte_dane_transportow.Common.{
  ℕ, zero, suc, ◌+◌, ◌≤◌, ◌≡◌, refl, inl, inr, Option, none, some, List, Text, length, All,
  Bool-cases, arith,
}
use otwarte_dane_transportow.Net.Failures.{Exception, Attempt, returned, raised}
use otwarte_dane_transportow.Net.Urls.{Header, Origin}
use otwarte_dane_transportow.Net.Download.{
  Platform, Sent, Trace, Limits, Response, Hop, Got, Completion, response, failed, prepare,
  fetch_hop, with_bundle, got, sending, received, is_verify_error, expired,
}
use otwarte_dane_transportow.Net.Redirects.{
  Download, answered, hopped, follow, safe_download, redirect_target, origin_of, redirected,
  deadline, started, reading,
}
use otwarte_dane_transportow.Net.Guard.{IsGuarded, IsProbed}

-- The sum of `n` times `c`.
abbrev pub repeated : ℕ → ℕ → ℕ
repeated zero c = 0
repeated (suc n) c = c + repeated n c

module _ (p : Platform) (guard : Origin) where
  -- The requests and probes after those of `t` are guarded, and the requests at most `n`.
  pub record IsKept (n : ℕ) (t t' : Trace) : Type 0 where
    pub guarded : All (IsGuarded p.stdlib guard) t.sent → All (IsGuarded p.stdlib guard) t'.sent
    pub probed : All (IsProbed p.stdlib) t.probes → All (IsProbed p.stdlib) t'.probes
    pub bounded : length t'.sent ≤ length t.sent + n

  pub same-IsKept : (n : ℕ) (t : Trace) → IsKept n t t
  same-IsKept n t = record { guarded = λ g. g; probed = λ g. g; bounded = omega arith }

  pub IsKept-trans : (m n : ℕ) (t u v : Trace) → IsKept m t u → IsKept n u v → IsKept (m + n) t v
  IsKept-trans m n t u v a b = record {
    guarded = λ g. b.guarded (a.guarded g);
    probed = λ g. b.probed (a.probed g);
    bounded = omega (arith, a.bounded, b.bounded);
  }

  IsKept-weaken : (m n : ℕ) (t u : Trace) → m ≤ n → IsKept m t u → IsKept n t u
  IsKept-weaken m n t u l a = record {
    guarded = a.guarded;
    probed = a.probed;
    bounded = omega (arith, l, a.bounded);
  }

  -- A completion of chains that keeps to the rules, with at most `c` requests, from a probed host.
  abbrev pub CompletionKept : ℕ → Completion → Type 0
  CompletionKept c complete =
      (hostname : Text) (port_number : ℕ) (t : Trace)
      → IsProbed p.stdlib (record { hostname = hostname; port_number = port_number })
      → IsKept c t (complete hostname port_number t).0

  -- What a hop is prepared to send keeps to the rules.
  abbrev pub IsPrepared : Hop → Type 0
  IsPrepared h =
      IsGuarded p.stdlib guard h.request
      × IsProbed p.stdlib
          (record { hostname = h.resolved.hostname; port_number = h.resolved.port_number })

  got-trace : (t : Trace) (g : Got) → (got p t g).0 ≡ t
  got-trace t (response r) = refl
  got-trace t (failed e) = refl

  again-IsGuarded :
      (s : Sent) (verify : Option Text)
      → IsGuarded p.stdlib guard s
      → IsGuarded p.stdlib guard (record s { verify = verify })
  again-IsGuarded s verify g = record {
    resolved = g.resolved;
    checks = g.checks;
    pinned = g.pinned;
    public_ips = g.public_ips;
    target = g.target;
    origin_is = g.origin_is;
    source_url = g.source_url;
    own = g.own;
    split = g.split;
    scoped = g.scoped;
  }

  sending-IsKept : (s : Sent) (t : Trace) → IsGuarded p.stdlib guard s → IsKept 1 t (sending p s t)
  sending-IsKept s t g = record { guarded = λ a. (g, a); probed = λ a. a; bounded = omega arith }

  with_bundle-IsKept :
      (s : Sent) (e : Exception) (completed : Trace × Option Text)
      → IsGuarded p.stdlib guard s
      → IsKept 1 completed.0 (with_bundle p s e completed).0
  unfolding with_bundle
  with_bundle-IsKept s e (t, none) g = same-IsKept 1 t
  with_bundle-IsKept s e (t, some b) g =
      let again = record s { verify = some b } in
      rw (got-trace (sending p again t) (p.get t.sent again))
        (sending-IsKept again t (again-IsGuarded s (some b) g))

  module _ (c : ℕ) (complete : Completion) (kept : CompletionKept c complete) where
    received-IsKept :
        (h : Hop) (t : Trace) (r : Got)
        → IsPrepared h
        → IsKept (c + 1) t (received p complete h t r).0
    unfolding received
    received-IsKept h t (response r) g = same-IsKept (c + 1) t
    received-IsKept h t (failed e) g = elim (Bool-cases (is_verify_error e)) [
      | inl b ↦ rw b (
          IsKept-trans c 1 t _ _ (kept h.resolved.hostname h.resolved.port_number t g.1)
            (with_bundle-IsKept h.request e _ g.0))
      | inr b ↦ rw b (same-IsKept (c + 1) t)
    ]

    fetch_hop-IsKept :
        (h : Hop) (t : Trace) → IsPrepared h → IsKept (c + 2) t (fetch_hop p complete h t).0
    unfolding fetch_hop
    fetch_hop-IsKept h t g = IsKept-weaken (1 + (c + 1)) (c + 2) t _ (omega arith) (
        IsKept-trans 1 (c + 1) t _ _ (sending-IsKept h.request t g.0)
          (received-IsKept h (sending p h.request t) (p.get t.sent h.request) g))

    -- The rest of the loop, of at most `n` requests, keeps to the rules.
    abbrev AllKept : ℕ → (Text → Trace → Download) → Type 0
    AllKept n next = (url : Text) (t : Trace) → IsKept n t (next url t).0

    redirected-IsKept :
        (n : ℕ) (next : Text → Trace → Download) (t u : Trace) (target : Attempt Text)
        → AllKept n next
        → IsKept (c + 2) t u
        → IsKept (c + 2 + n) t (redirected next u target).0
    redirected-IsKept n next t u (returned url) h k = IsKept-trans (c + 2) n t u _ k (h url u)
    redirected-IsKept n next t u (raised e) h k =
        IsKept-weaken (c + 2) (c + 2 + n) t u (omega arith) k

    answered-IsKept :
        (n : ℕ) (l : Limits) (next : Text → Trace → Download) (current : Text) (t : Trace)
        (a : Trace × Attempt Response)
        → AllKept n next
        → IsKept (c + 2) t a.0
        → IsKept (c + 2 + n) t (answered p l next current a).0
    unfolding answered
    answered-IsKept n l next current t (u, raised e) h k =
        IsKept-weaken (c + 2) (c + 2 + n) t u (omega arith) k
    answered-IsKept n l next current t (u, returned r) h k = elim (Bool-cases r.is_redirect) [
      | inl b ↦ rw b (redirected-IsKept n next t u (redirect_target p current r.location) h k)
      | inr b ↦
          rw b
            (record { guarded = k.guarded; probed = k.probed; bounded = omega (arith, k.bounded) })
    ]

    hopped-IsKept :
        (n : ℕ) (l : Limits) (next : Text → Trace → Download) (current : Text) (t : Trace)
        (h : Attempt Hop)
        → ((hop : Hop) → h ≡ returned hop → IsPrepared hop)
        → AllKept n next
        → IsKept (c + 2 + n) t (hopped p complete l next current h t).0
    hopped-IsKept n l next current t (raised e) g k = same-IsKept (c + 2 + n) t
    hopped-IsKept n l next current t (returned h) g k =
        answered-IsKept n l next current t (fetch_hop p complete h t) k
          (fetch_hop-IsKept h t (g h refl))

    -- Each hop of a download with these headers is prepared by the rules.
    abbrev pub AllPrepared : Origin → List Header → Type 0
    AllPrepared origin headers =
        (current : Text) (h : Hop) → prepare p origin headers current ≡ returned h → IsPrepared h

    follow-IsKept :
        (origin : Origin) (headers : List Header) (l : Limits) (n : ℕ) (current : Text) (t : Trace)
        → AllPrepared origin headers
        → IsKept (repeated n (c + 2)) t (follow p complete origin headers l n current t).0
    unfolding follow
    follow-IsKept origin headers l zero current t g = same-IsKept 0 t
    follow-IsKept origin headers l (suc n) current t g =
        elim (Bool-cases (expired l.expires_at (p.monotonic t.readings))) [
          | inl b ↦ rw b (record { guarded = λ g. g; probed = λ g. g; bounded = omega arith })
          | inr b ↦
              let checked = record t { readings = t.readings + 1 } in
              let k =
                hopped-IsKept (repeated n (c + 2)) l (follow p complete origin headers l n) current
                  checked (prepare p origin headers current) (g current)
                  (λ url u. follow-IsKept origin headers l n url u g) in
              rw b (record { guarded = k.guarded; probed = k.probed; bounded = k.bounded })
        ]

    pub safe_download-IsKept :
        (url : Text) (headers : List Header) (max_bytes max_redirects : ℕ)
        (total_timeout : Option ℕ) (t : Trace)
        → ((origin : Origin) → origin_of p url ≡ returned origin → AllPrepared origin headers)
        → IsKept
            (repeated (max_redirects + 1) (c + 2))
            t
            (safe_download p complete url headers max_bytes max_redirects total_timeout t).0
    unfolding safe_download
    safe_download-IsKept url headers max_bytes max_redirects total_timeout t g =
        go (origin_of p url) g
      where
        n : ℕ
        n = repeated (max_redirects + 1) (c + 2)

        l : Limits
        l = record { max_bytes = max_bytes; expires_at = deadline p t.readings total_timeout }

        go :
            (o : Attempt Origin)
            → ((origin : Origin) → o ≡ returned origin → AllPrepared origin headers)
            → IsKept n t
                (started p (reading p t) o (λ origin.
                  follow p complete origin headers l (max_redirects + 1) url (reading p t))).0
        go (raised e) g = record { guarded = λ g. g; probed = λ g. g; bounded = omega arith }
        go (returned origin) g =
            let k =
              follow-IsKept origin headers l (max_redirects + 1) url (reading p t)
                (g origin refl) in
            record { guarded = k.guarded; probed = k.probed; bounded = k.bounded }
