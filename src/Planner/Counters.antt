-- ===== src/Planner/Counters.antt =====
-- The counters in the cache, with their keys. Times are seconds.
use otwarte_dane_transportow.Common.{
  ℕ, suc, ◌+◌, ◌≡◌, refl, Bool, true, false, ◌&&◌, Option, none, some, ◌==◌, if◌then◌else◌, ltb,
  Text, text_eq, text_eq_refl, text_eq_sound, ==_iff, ap, ◌∙◌, arith,
}

-- `limit_group`
pub data Group : Type 0 where
  plan realtime lookup : Group

abbrev pub group_eq : Group → Group → Bool
group_eq plan plan = true
group_eq realtime realtime = true
group_eq lookup lookup = true
group_eq _ _ = false

-- `ident`: an API key or an address.
pub data Ident : Type 0 where
  key_ident : ℕ → Ident
  ip_ident : Text → Ident

abbrev pub ident_eq : Ident → Ident → Bool
ident_eq (key_ident a) (key_ident b) = a == b
ident_eq (ip_ident s) (ip_ident t) = text_eq s t
ident_eq _ _ = false

-- The counter of a client, or of everyone, in a minute.
pub data Key : Type 0 where
  of_client : Group → Ident → ℕ → Key
  of_all : Group → ℕ → Key

abbrev pub key_eq : Key → Key → Bool
key_eq (of_client g i m) (of_client h j n) = group_eq g h && (ident_eq i j && (m == n))
key_eq (of_all g m) (of_all h n) = group_eq g h && (m == n)
key_eq _ _ = false

pub record Counter : Type 0 where
  pub value : ℕ
  pub end : ℕ

abbrev pub Cache : Type 0
Cache = Key → Option Counter

abbrev pub counter_ttl : ℕ
counter_ttl = 120

abbrev pub put : Key → Counter → Cache → Cache
put k c cache = λ j. if key_eq j k then some c else cache j

-- What the cache still has at a time.
abbrev pub current : ℕ → Option Counter → Option Counter
current now none = none
current now (some c) = if ltb now c.end then some c else none

-- `cache.add(key, 0, 120)`
abbrev pub add_to : ℕ → Key → Option Counter → Cache → Cache
add_to now k none cache = put k (record { value = 0; end = now + counter_ttl }) cache
add_to now k (some c) cache = cache

-- `cache.incr(key)`, or the `except` clause when the counter has ended since.
abbrev pub incr_in : ℕ → Key → Option Counter → Cache → Cache × ℕ
incr_in now k none cache = (put k (record { value = 1; end = now + counter_ttl }) cache, 1)
incr_in now k (some c) cache =
    (put k (record { value = suc c.value; end = c.end }) cache, suc c.value)

-- `_count`, with the times of its two calls.
unfoldable pub count : ℕ → ℕ → Key → Cache → Cache × ℕ
count added incremented k cache =
    let cache' = add_to added k (current added (cache k)) cache in
    incr_in incremented k (current incremented (cache' k)) cache'

pub group_eq_refl : (g : Group) → group_eq g g ≡ true
group_eq_refl plan = refl
group_eq_refl realtime = refl
group_eq_refl lookup = refl

pub ident_eq_refl : (i : Ident) → ident_eq i i ≡ true
ident_eq_refl (key_ident a) = ground arith
ident_eq_refl (ip_ident s) = text_eq_refl s

pub key_eq_refl : (k : Key) → key_eq k k ≡ true
key_eq_refl (of_client g i m) = ground (arith, group_eq_refl g, ident_eq_refl i)
key_eq_refl (of_all g m) = ground (arith, group_eq_refl g)

group_eq_sound : (g h : Group) → group_eq g h ≡ true → g ≡ h
group_eq_sound plan plan q = refl
group_eq_sound plan realtime q = cc
group_eq_sound plan lookup q = cc
group_eq_sound realtime plan q = cc
group_eq_sound realtime realtime q = refl
group_eq_sound realtime lookup q = cc
group_eq_sound lookup plan q = cc
group_eq_sound lookup realtime q = cc
group_eq_sound lookup lookup q = refl

ident_eq_sound : (i j : Ident) → ident_eq i j ≡ true → i ≡ j
ident_eq_sound (key_ident a) (key_ident b) q = ap key_ident ((==_iff a b).0 q)
ident_eq_sound (key_ident a) (ip_ident t) q = cc
ident_eq_sound (ip_ident s) (key_ident b) q = cc
ident_eq_sound (ip_ident s) (ip_ident t) q = ap ip_ident (text_eq_sound s t q)

both : (a b : Bool) → (a && b) ≡ true → (a ≡ true) × (b ≡ true)
both a b h = ground arith

pub key_eq_sound : (j k : Key) → key_eq j k ≡ true → j ≡ k
key_eq_sound (of_client g i m) (of_client h j n) q =
    let (first, rest) = both (group_eq g h) (ident_eq i j && (m == n)) q in
    let (second, third) = both (ident_eq i j) (m == n) rest in
    let (e, f, d) : (g ≡ h) × (i ≡ j) × (m ≡ n) =
      (group_eq_sound g h first, ident_eq_sound i j second, (==_iff m n).0 third) in
    ap (λ x. of_client x i m) e ∙ (ap (λ x. of_client h x m) f ∙ ap (of_client h j) d)
key_eq_sound (of_client g i m) (of_all h n) q = cc
key_eq_sound (of_all g m) (of_client h j n) q = cc
key_eq_sound (of_all g m) (of_all h n) q =
    let (first, second) = both (group_eq g h) (m == n) q in
    ap (λ x. of_all x m) (group_eq_sound g h first) ∙ ap (of_all h) ((==_iff m n).0 second)
