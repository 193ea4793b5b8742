-- ===== src/Completed/Fresh.antt =====
-- How old a list from the cache can be.
use mathlib.Core.Path.{subst}
use otwarte_dane_transportow.Common.{
  ℕ, ◌+◌, ◌≤◌, ◌<◌, ◌≡◌, refl, ◌⊎◌, inl, inr, Option, none, some, List, [], ◌∷◌, ◌++◌, ltb, ltb→lt,
  Bool-cases, arith,
}
use otwarte_dane_transportow.Completed.Cache.{
  Entry, Snapshot, Site, Submitted, Step, miss, store, commit, invalidate, tick, Reach, here, next,
  cache_get, cache_set, completed_ids_cache_ttl, compute_completed_submission_ids,
}

abbrev pub IsNow : Site → List ℕ → ℕ → Type 0
IsNow s ids t = (compute_completed_submission_ids s.rows ≡ ids) × (s.now ≡ t)

module _ {slow : ℕ} {s : Site} where
  -- At the time `t` of the way from `s`, the published submissions were `ids`.
  abbrev pub WasPublished : {u : Site} → Reach slow s u → List ℕ → ℕ → Type 0
  WasPublished here ids t = IsNow s ids t
  WasPublished (next u p k) ids t = WasPublished p ids t ⊎ IsNow u ids t

  -- The list was right at some time, from which it may be used for the time to live and the time that
  -- a reader takes.
  abbrev IsRecent : {u : Site} → Reach slow s u → Option Entry → Type 0
  IsRecent p none = Unit
  IsRecent p (some e) =
      (t : ℕ) × WasPublished p e.ids t × (e.expires ≤ t + slow + completed_ids_cache_ttl)

  abbrev IsTaken : {u : Site} → Reach slow s u → List Snapshot → Type 0
  IsTaken p [] = Unit
  IsTaken p (r ∷ rs) = WasPublished p r.ids r.taken × IsTaken p rs

  IsRecent-next :
      {t : Site} (u : Site) (p : Reach slow s t) (k : Step slow t u) (e : Option Entry)
      → IsRecent p e
      → IsRecent (next u p k) e
  IsRecent-next u p k none h = tt
  IsRecent-next u p k (some e) h = (h.0, inl (h.1), h.2)

  IsTaken-next :
      {t : Site} (u : Site) (p : Reach slow s t) (k : Step slow t u) (rs : List Snapshot)
      → IsTaken p rs
      → IsTaken (next u p k) rs
  IsTaken-next u p k [] h = tt
  IsTaken-next u p k (r ∷ rs) h = (inl (h.0), IsTaken-next u p k rs (h.1))

  IsTaken-split :
      {t : Site} (p : Reach slow s t) (r : Snapshot) (before rest : List Snapshot)
      → IsTaken p (before ++ r ∷ rest)
      → WasPublished p r.ids r.taken × IsTaken p (before ++ rest)
  IsTaken-split p r [] rest h = h
  IsTaken-split p r (b ∷ before) rest h =
      let k = IsTaken-split p r before rest (h.1) in (k.0, (h.0, k.1))

  -- Both hold all along the way, from a site without an entry and without readers.
  pub Reach-IsRecent :
      s.cache ≡ none
      → s.reading ≡ []
      → {u : Site} (p : Reach slow s u) → IsRecent p u.cache × IsTaken p u.reading
  unfolding cache_set
  Reach-IsRecent c r here = (rw c tt, rw r tt)
  Reach-IsRecent c r (next u p (miss t m)) =
      let h = Reach-IsRecent c r p in
      let k = miss t m in
      (IsRecent-next u p k t.cache (h.0), (inr (refl, refl), IsTaken-next u p k t.reading (h.1)))
  Reach-IsRecent c r (next u p (store x before rest t e l)) =
      let h = Reach-IsRecent c r p in
      let k = store x before rest t e l in
      let taken = IsTaken-split p x before rest (subst (IsTaken p) e (h.1)) in
      ((x.taken, inl (taken.0), omega (arith, l)), IsTaken-next u p k (before ++ rest) (taken.1))
  Reach-IsRecent c r (next u p (commit rows t)) =
      let h = Reach-IsRecent c r p in
      (
        IsRecent-next u p (commit rows t) t.cache (h.0),
        IsTaken-next u p (commit rows t) t.reading (h.1),
      )
  Reach-IsRecent c r (next u p (invalidate t)) =
      let h = Reach-IsRecent c r p in (tt, IsTaken-next u p (invalidate t) t.reading (h.1))
  Reach-IsRecent c r (next u p (tick n t)) =
      let h = Reach-IsRecent c r p in
      (IsRecent-next u p (tick n t) t.cache (h.0), IsTaken-next u p (tick n t) t.reading (h.1))

-- Where a reader stores at most `slow` seconds after its query, a list that the cache serves was
-- the list of the published submissions at some time in the last `slow + 60` seconds, however the
-- readers, the transactions and their signals interleave.
pub cache_get-recent :
    (slow : ℕ) (s u : Site) (p : Reach slow s u) (ids : List ℕ)
    → s.cache ≡ none
    → s.reading ≡ []
    → cache_get u.now u.cache ≡ some ids
    → (t : ℕ) × WasPublished p ids t × (u.now < t + slow + completed_ids_cache_ttl)
unfolding cache_get
cache_get-recent slow s u p ids c r e = go u.cache ((Reach-IsRecent c r p).0) e
  where
    go :
        (o : Option Entry)
        → IsRecent p o
        → cache_get u.now o ≡ some ids
        → (t : ℕ) × WasPublished p ids t × (u.now < t + slow + completed_ids_cache_ttl)
    go none h k = absurd cc
    go (some entry) h k = elim (Bool-cases (ltb u.now entry.expires)) [
      | inr late ↦ absurd (ground arith)
      | inl early ↦
          let same : entry.ids ≡ ids = ground arith in
          (
            h.0,
            subst (λ x. WasPublished p x h.0) same (h.1),
            omega (arith, ltb→lt u.now entry.expires early, h.2),
          )
    ]

-- The site after a reader stored, with no time passed, a list that it took before a transaction
-- ended and its signal deleted the entry.
abbrev pub overtaken : List Submitted → List Submitted → ℕ → Site
overtaken rows rows' now = record {
  rows = rows';
  cache = cache_set (compute_completed_submission_ids rows) now;
  reading = [];
  now = now;
}

-- Any change of the published submissions can be missed. From a site without an entry, a state is
-- reached in which a transaction has committed the new rows; and right after its signal has deleted
-- the entry, one step, of a reader that took the old list before, leads to the site that serves the
-- old list beside the new rows.
pub cache_get-overtaken :
    (slow : ℕ) (rows rows' : List Submitted) (now : ℕ)
    → (t : Site) × Reach slow (record { rows = rows; cache = none; reading = []; now = now }) t
      × (t.rows ≡ rows')
      × Step slow (record t { cache = none }) (overtaken rows rows' now)
      × (cache_get now (overtaken rows rows' now).cache
          ≡ some (compute_completed_submission_ids rows))
unfolding cache_get cache_set
cache_get-overtaken slow rows rows' now =
    let empty : Site = record { rows = rows; cache = none; reading = []; now = now } in
    let old : Snapshot = record { ids = compute_completed_submission_ids rows; taken = now } in
    let reading : Site = record empty { reading = old ∷ [] } in
    let changed : Site = record reading { rows = rows' } in
    (
      changed,
      next changed (next reading here (miss empty refl)) (commit rows' reading),
      refl,
      store old [] [] changed refl (omega arith),
      ground arith,
    )
