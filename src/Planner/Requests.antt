-- ===== src/Planner/Requests.antt =====
-- Sequences of requests, and the limit of a client in a minute.
use mathlib.Core.Path.{subst}
use otwarte_dane_transportow.Common.{
  ℕ, suc, ◌+◌, ◌*◌, ◌≤◌, ◌<◌, ◌≡◌, refl, sym, ap, ◌∙◌, Bool, true, false, ◌&&◌, Option, none, some,
  List, [], ◌∷◌, if◌then◌else◌, ltb, Bool-cases, inl, inr, All, arith,
}
use otwarte_dane_transportow.Planner.Counters.{
  Group, Ident, Key, of_client, key_eq, key_eq_sound, Counter, Cache, counter_ttl, count,
}
use otwarte_dane_transportow.Planner.Throttle.{
  global, PlannerRequest, Allowed, allowed, client_limited, globally_limited, client_key, all_key,
  limit_of, all_judged, client_judged, allow_request,
}
use otwarte_dane_transportow.Planner.Limits.{IsCounted, count-IsRaised, count-other}

abbrev pub is_let_through : Allowed → Bool
is_let_through allowed = true
is_let_through _ = false

-- How many requests with a counter are let through, one after the other.
abbrev pub passed : Key → List PlannerRequest → Cache → ℕ
passed k [] cache = 0
passed k (r ∷ rs) cache =
    let (cache', a) = allow_request r cache in
    let rest = passed k rs cache' in
    if is_let_through a && key_eq k (client_key r) then suc rest else rest

-- The end of the counters of a minute, at the earliest.
abbrev pub until : ℕ → ℕ
until minute = minute * 60 + counter_ttl

-- A request of the client counts within two minutes from the start of its minute, under a limit of
-- at most `limit`.
pub record IsPrompt (minute limit : ℕ) (r : PlannerRequest) : Type 0 where
  pub begun : minute * 60 ≤ r.added
  pub in_order : r.added ≤ r.incremented
  pub in_time : r.incremented < until minute
  pub its_limit : limit_of r ≤ limit

if-keeps :
    (P : Cache × Allowed → Type 0) (b : Bool) (x y : Cache × Allowed)
    → P x
    → P y
    → P (if b then x else y)
if-keeps P true x y h g = h
if-keeps P false x y h g = g

all_judged-cache : (r : PlannerRequest) (c : Cache × ℕ) → (all_judged r c).0 ≡ c.0
all_judged-cache r c =
    if-keeps (λ x. x.0 ≡ c.0) (ltb (r.settings.limit global r.group) (c.1)) (c.0, globally_limited)
      (c.0, allowed) refl refl

-- The judgement leaves a key that is not the counter of everyone.
client_judged-cache :
    (k : Key) (r : PlannerRequest) (c : Cache × ℕ)
    → key_eq k (all_key r) ≡ false
    → (client_judged r c).0 k ≡ c.0 k
client_judged-cache k r c h =
    let counted = count r.all_added r.all_incremented (all_key r) (c.0) in
    if-keeps (λ x. x.0 k ≡ c.0 k) (ltb (limit_of r) (c.1)) (c.0, client_limited)
      (all_judged r counted) refl
      (ap (λ f. f k) (all_judged-cache r counted)
        ∙ count-other r.all_added r.all_incremented k (all_key r) (c.0) h)

not_lt : (a b : ℕ) → ltb a b ≡ false → b ≤ a
not_lt a b h = ground arith

-- A request that is let through fits its limit.
client_judged-fits :
    (r : PlannerRequest) (c : Cache × ℕ)
    → is_let_through ((client_judged r c).1) ≡ true
    → c.1 ≤ limit_of r
client_judged-fits r c h = elim (Bool-cases (ltb (limit_of r) (c.1))) [
  | inr b ↦ not_lt (limit_of r) (c.1) b
  | inl b ↦ (let limited : is_let_through ((client_judged r c).1) ≡ false = rw b refl in cc)
]

of_all-other :
    (g : Group) (i : Ident) (m : ℕ) (r : PlannerRequest)
    → key_eq (of_client g i m) (all_key r) ≡ false
unfolding all_key
of_all-other g i m r = refl

and_false : (b : Bool) → (b && false) ≡ false
and_false true = refl
and_false false = refl

module _ (group : Group) (ident : Ident) (minute : ℕ) where
  abbrev of_interest : Key
  of_interest = of_client group ident minute

  -- A request of another client, or of another minute, leaves the counter.
  allow_request-other :
      (r : PlannerRequest) (cache : Cache)
      → key_eq of_interest (client_key r) ≡ false
      → (allow_request r cache).0 of_interest ≡ cache of_interest
  unfolding allow_request
  allow_request-other r cache h =
      client_judged-cache of_interest r (count r.added r.incremented (client_key r) cache)
        (of_all-other group ident minute r)
      ∙ count-other r.added r.incremented of_interest (client_key r) cache h

  -- A request of the client raises the counter, and is let through within the limit.
  allow_request-same :
      (limit n : ℕ) (r : PlannerRequest) (cache : Cache)
      → of_interest ≡ client_key r
      → IsPrompt minute limit r
      → IsCounted (until minute) n (cache of_interest)
      → IsCounted (until minute) (suc n) ((allow_request r cache).0 of_interest)
        × (is_let_through ((allow_request r cache).1) ≡ true → suc n ≤ limit)
  unfolding allow_request
  allow_request-same limit n r cache q prompt counted =
      let c = count r.added r.incremented (client_key r) cache in
      let (raised, more) =
        subst (λ k. IsCounted (until minute) (suc n) (c.0 k) × (suc n ≤ c.1)) (sym q)
          (count-IsRaised (until minute) n r.added r.incremented (client_key r) cache
            (subst (λ k. IsCounted (until minute) n (cache k)) q counted)
            (omega (arith, prompt.begun)) prompt.in_order prompt.in_time) in
      (
        subst (IsCounted (until minute) (suc n))
            (sym (client_judged-cache of_interest r c (of_all-other group ident minute r))) raised,
        λ passes. omega (arith, more, client_judged-fits r c passes, prompt.its_limit),
      )

  -- What the head of a sequence adds.
  passed-cons :
      (r : PlannerRequest) (rs : List PlannerRequest) (cache : Cache) (b : Bool)
      → (is_let_through ((allow_request r cache).1) && key_eq of_interest (client_key r)) ≡ b
      → passed of_interest (r ∷ rs) cache ≡ (
          if b
          then suc (passed of_interest rs ((allow_request r cache).0))
          else passed of_interest rs ((allow_request r cache).0))
  passed-cons r rs cache b q =
      let rest = passed of_interest rs ((allow_request r cache).0) in
      ap (λ x. if x then suc rest else rest) q

  weaker :
      (n : ℕ) (o : Option Counter)
      → IsCounted (until minute) (suc n) o
      → IsCounted (until minute) n o
  weaker n none h = absurd (omega (arith, h))
  weaker n (some c) h = (omega (arith, h.0), h.1)

  -- From a counter that holds `n`, at most `limit` requests in all.
  passed-bounded :
      (limit n : ℕ) (rs : List PlannerRequest) (cache : Cache)
      → All (λ r. key_eq of_interest (client_key r) ≡ true → IsPrompt minute limit r) rs
      → IsCounted (until minute) n (cache of_interest)
      → n ≤ limit
      → n + passed of_interest rs cache ≤ limit
  passed-bounded limit n [] cache prompt counted h = omega (arith, h)
  passed-bounded limit n (r ∷ rs) cache (first, others) counted h =
      let cache' = (allow_request r cache).0 in
      elim (Bool-cases (key_eq of_interest (client_key r))) [
        | inr b ↦
            (let kept =
                subst (IsCounted (until minute) n) (sym (allow_request-other r cache b)) counted in
              omega (
                arith,
                passed-bounded limit n rs cache' others kept h,
                passed-cons r rs cache false
                    (rw b (and_false (is_let_through ((allow_request r cache).1)))),
              ))
        | inl b ↦
            (let (raised, fits) =
                allow_request-same limit n r cache (key_eq_sound of_interest (client_key r) b)
                  (first b) counted in
              elim (Bool-cases (is_let_through ((allow_request r cache).1))) [
                | inl a ↦ omega (
                  arith,
                  passed-bounded limit (suc n) rs cache' others raised (fits a),
                  passed-cons r rs cache true (rw (a, b) refl),
                )
                | inr a ↦ omega (
                  arith,
                  passed-bounded limit n rs cache' others (weaker n (cache' of_interest) raised) h,
                  passed-cons r rs cache false (rw a refl),
                )
              ])
      ]

-- In one minute, at most `limit` requests of a client are let through, whatever the others send, if
-- the cache starts without a counter of that minute, and every request of the client that reads the
-- clock in that minute has counted before its counter can end, under a limit of at most `limit`.
pub passed-le :
    (group : Group) (ident : Ident) (minute limit : ℕ) (rs : List PlannerRequest) (cache : Cache)
    → cache (of_client group ident minute) ≡ none
    → All
        (λ r. key_eq (of_client group ident minute) (client_key r) ≡ true → IsPrompt minute limit r)
        rs
    → passed (of_client group ident minute) rs cache ≤ limit
passed-le group ident minute limit rs cache fresh prompt = omega (
  arith,
  passed-bounded group ident minute limit 0 rs cache prompt
      (subst (IsCounted (until minute) 0) (sym fresh) refl) (omega arith),
)
