-- ===== src/Planner/Examples.antt =====
-- Three requests of one address under a limit of two, and the theorem at them.
use otwarte_dane_transportow.Common.{◌≤◌, ◌≡◌, refl, none, List, [], ◌∷◌, arith}
use otwarte_dane_transportow.Planner.Counters.{plan, ip_ident, of_client, Cache, count}
use otwarte_dane_transportow.Planner.Throttle.{
  PlannerRequest, limit_of, client_key, all_key, allow_request,
}
use otwarte_dane_transportow.Planner.Requests.{IsPrompt, passed, passed-le}

abbrev request : PlannerRequest
request = record {
  group = plan;
  auth = none;
  address = b'a' ∷ [];
  settings = record { limit = λ c g. 2 };
  read = 130;
  added = 130;
  incremented = 131;
  all_added = 131;
  all_incremented = 131;
}

abbrev requests : List PlannerRequest
requests = request ∷ (request ∷ (request ∷ []))

abbrev empty : Cache
empty = λ k. none

passed_two : passed (of_client plan (ip_ident (b'a' ∷ [])) 2) requests empty ≡ 2
unfolding allow_request count client_key all_key limit_of
passed_two = refl

request-IsPrompt : IsPrompt 2 2 request
unfolding limit_of
request-IsPrompt = record {
  begun = omega arith;
  in_order = omega arith;
  in_time = omega arith;
  its_limit = omega arith;
}

passed-le_example : passed (of_client plan (ip_ident (b'a' ∷ [])) 2) requests empty ≤ 2
passed-le_example =
    passed-le plan (ip_ident (b'a' ∷ [])) 2 2 requests empty refl
      (λ q. request-IsPrompt, (λ q. request-IsPrompt, (λ q. request-IsPrompt, tt)))
