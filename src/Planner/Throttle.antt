-- ===== src/Planner/Throttle.antt =====
-- `PlannerRateThrottle.allow_request`.
use otwarte_dane_transportow.Common.{ℕ, ◌/◌, Option, none, some, ltb, if◌then◌else◌, Text}
use otwarte_dane_transportow.Planner.Counters.{
  Group, Ident, key_ident, ip_ident, Key, of_client, of_all, Cache, count,
}

pub data ClientClass : Type 0 where
  anonymous key global : ClientClass

-- `PlannerSettings.limit`
pub record PlannerSettings : Type 0 where
  pub limit : ClientClass → Group → ℕ

-- An `ApiKey` with its own limits, where it has them.
pub record ApiKey : Type 0 where
  pub id : ℕ
  pub per_minute : Group → Option ℕ

-- A request with the address that it counts for, the settings that it reads, and the times at which
-- it reads the clock and counts.
pub record PlannerRequest : Type 0 where
  pub group : Group
  pub auth : Option ApiKey
  pub address : Text
  pub settings : PlannerSettings
  pub read : ℕ
  pub added : ℕ
  pub incremented : ℕ
  pub all_added : ℕ
  pub all_incremented : ℕ

pub data Allowed : Type 0 where
  allowed client_limited globally_limited : Allowed

abbrev pub ident_of : PlannerRequest → Ident
ident_of r = elim r.auth [ none ↦ ip_ident r.address | some k ↦ key_ident k.id ]

abbrev pub limit_of_key : PlannerRequest → Option ℕ → ℕ
limit_of_key r none = r.settings.limit key r.group
limit_of_key r (some n) = n

unfoldable pub limit_of : PlannerRequest → ℕ
limit_of r = elim r.auth [
  | none ↦ r.settings.limit anonymous r.group
  | some k ↦ limit_of_key r (k.per_minute r.group)
]

abbrev pub minute_of : PlannerRequest → ℕ
minute_of r = r.read / 60

unfoldable pub client_key : PlannerRequest → Key
client_key r = of_client r.group (ident_of r) (minute_of r)

unfoldable pub all_key : PlannerRequest → Key
all_key r = of_all r.group (minute_of r)

-- The second counter, once it was counted.
abbrev pub all_judged : PlannerRequest → Cache × ℕ → Cache × Allowed
all_judged r (cache, n) =
    if ltb (r.settings.limit global r.group) n then (cache, globally_limited) else (cache, allowed)

-- The first counter, and then the second.
abbrev pub client_judged : PlannerRequest → Cache × ℕ → Cache × Allowed
client_judged r (cache, n) =
    if ltb (limit_of r) n
    then (cache, client_limited)
    else all_judged r (count r.all_added r.all_incremented (all_key r) cache)

unfoldable pub allow_request : PlannerRequest → Cache → Cache × Allowed
allow_request r cache = client_judged r (count r.added r.incremented (client_key r) cache)
