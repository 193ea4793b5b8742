-- ===== src/Planner/Limits.antt =====
-- How many requests the limits let through.
use mathlib.Core.Path.{subst}
use otwarte_dane_transportow.Common.{
  ℕ, suc, ◌+◌, ◌≤◌, ◌<◌, ◌≡◌, refl, sym, ap, ◌∙◌, false, Option, none, some, Option-cases, inl, inr,
  arith,
}
use otwarte_dane_transportow.Planner.Counters.{
  Key, key_eq, key_eq_refl, Counter, Cache, counter_ttl, put, current, add_to, incr_in, count,
}

-- The counter at a key holds at least `n` until the time `until`.
abbrev pub IsCounted : ℕ → ℕ → Option Counter → Type 0
IsCounted until n none = n ≡ 0
IsCounted until n (some c) = (n ≤ c.value) × (until ≤ c.end)

put-same : (k : Key) (c : Counter) (cache : Cache) → put k c cache k ≡ some c
put-same k c cache = rw (key_eq_refl k) refl

put-other :
    (j k : Key) (c : Counter) (cache : Cache) → key_eq j k ≡ false → put k c cache j ≡ cache j
put-other j k c cache h = rw h refl

add_to-other :
    (now : ℕ) (j k : Key) (o : Option Counter) (cache : Cache)
    → key_eq j k ≡ false
    → add_to now k o cache j ≡ cache j
add_to-other now j k none cache h = put-other j k _ cache h
add_to-other now j k (some c) cache h = refl

incr_in-other :
    (now : ℕ) (j k : Key) (o : Option Counter) (cache : Cache)
    → key_eq j k ≡ false
    → (incr_in now k o cache).0 j ≡ cache j
incr_in-other now j k none cache h = put-other j k _ cache h
incr_in-other now j k (some c) cache h = put-other j k _ cache h

-- A counter is touched at its own key only.
pub count-other :
    (added incremented : ℕ) (j k : Key) (cache : Cache)
    → key_eq j k ≡ false
    → (count added incremented k cache).0 j ≡ cache j
unfolding count
count-other added incremented j k cache h =
    incr_in-other incremented j k _ (add_to added k (current added (cache k)) cache) h
    ∙ add_to-other added j k (current added (cache k)) cache h

current-live : (now : ℕ) (c : Counter) → now < c.end → current now (some c) ≡ some c
current-live now c h = ground arith

new_counter : ℕ → Counter
new_counter added = record { value = 0; end = added + counter_ttl }

incr_in-IsCounted :
    (until n now : ℕ) (k : Key) (c : Counter) (cache : Cache)
    → n ≤ c.value
    → until ≤ c.end
    → IsCounted until (suc n) ((incr_in now k (some c) cache).0 k)
      × (suc n ≤ (incr_in now k (some c) cache).1)
incr_in-IsCounted until n now k c cache h g = (
  subst (IsCounted until (suc n)) (sym (put-same k _ cache)) (omega (arith, h), g),
  omega (arith, h),
)

-- The counter after a count, from what the two reads of the cache gave.
abbrev IsRaised : ℕ → ℕ → Key → Cache × ℕ → Type 0
IsRaised until n k r = IsCounted until (suc n) (r.0 k) × (suc n ≤ r.1)

incremented-IsRaised :
    (until n incremented : ℕ) (k : Key) (c : Counter) (cache : Cache)
    → cache k ≡ some c
    → incremented < c.end
    → n ≤ c.value
    → until ≤ c.end
    → IsRaised until n k (incr_in incremented k (current incremented (cache k)) cache)
incremented-IsRaised until n incremented k c cache q live h g =
    subst (λ o. IsRaised until n k (incr_in incremented k o cache))
      (sym (ap (current incremented) q ∙ current-live incremented c live))
      (incr_in-IsCounted until n incremented k c cache h g)

-- A count in time raises what the counter holds.
pub count-IsRaised :
    (until n added incremented : ℕ) (k : Key) (cache : Cache)
    → IsCounted until n (cache k)
    → until ≤ added + counter_ttl
    → added ≤ incremented
    → incremented < until
    → IsRaised until n k (count added incremented k cache)
unfolding count new_counter
count-IsRaised until n added incremented k cache h early order late =
    let after : Option Counter → Cache × ℕ = λ o.
      incr_in incremented k (current incremented (add_to added k o cache k))
        (add_to added k o cache) in
    elim (Option-cases (cache k)) [
      | inl q ↦
          (let zero_before : n ≡ 0 = subst (IsCounted until n) q h in
            let fresh : Cache = put k (new_counter added) cache in
            subst (λ o. IsRaised until n k (after o)) (sym (ap (current added) q))
              (incremented-IsRaised until n incremented k (new_counter added) fresh
                (put-same k (new_counter added) cache) (omega (arith, late, early))
                (omega (arith, zero_before)) early))
      | inr (c, q) ↦
          (let (held, lasting) : IsCounted until n (some c) = subst (IsCounted until n) q h in
            subst (λ o. IsRaised until n k (after o))
              (sym
                (ap (current added) q ∙ current-live added c (omega (arith, order, late, lasting))))
              (incremented-IsRaised until n incremented k c cache q (omega (arith, late, lasting))
                held lasting))
    ]
