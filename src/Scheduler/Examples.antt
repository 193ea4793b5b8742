-- ===== src/Scheduler/Examples.antt =====
-- A proxied feed whose host answers with a ZIP archive or fails, and the theorems at it.
use otwarte_dane_transportow.Common.{◌+◌, ◌≡◌, ◌≢◌, refl, true, none, some, [], ◌∷◌, Text, length}
use otwarte_dane_transportow.History.{siri, service_alert}
use otwarte_dane_transportow.Fetch.{active, new_control}
use otwarte_dane_transportow.Net.Failures.{Exception, Attempt, returned, raised, other_exception}
use otwarte_dane_transportow.Content.Checks.{gtfs, Parsers}
use otwarte_dane_transportow.Scheduler.EntityTypes.{Types}
use otwarte_dane_transportow.Scheduler.Fetching.{
  Feed, Downloaded, fetch_ok, fetch_static_entry, fetch_realtime_endpoint_rt,
  entry_is_proxy_managed, endpoint_is_proxy_managed, Writes, fetch_permanent, static_body,
}
use otwarte_dane_transportow.Scheduler.Kept.{
  IsServable, IsServableRealtime, fetch_static_entry_lem, fetch_realtime_endpoint_rt_lem,
  IsRecorded,
}

abbrev types : Types
types = record { held = service_alert ∷ []; stored = service_alert ∷ [] }

abbrev feed : Feed
feed = record {
  url = 1 ∷ [];
  hide_original = true;
  control = record { object = new_control; row = new_control };
  cached_file = none;
  cached_at = none;
  types = types;
  errors = [];
  validations = 0;
}

abbrev archive : Text
archive = 80 ∷ 75 ∷ 3 ∷ 4 ∷ 9 ∷ []

abbrev answer : Attempt Downloaded
answer = returned (record { status_code = 200; body = archive })

abbrev str : Exception → Text
str e = 69 ∷ []

abbrev parsers : Parsers
parsers = record { parse_feed_message = λ s. none; is_json = λ s. true }

-- The broker does not take the message for the validation: the new copy is served, and an error is
-- recorded.
abbrev no_broker : Writes
no_broker = record {
  in_place = true;
  save = none;
  torn = none;
  update_row = none;
  delete_stale = none;
  mark_success = none;
  delay = some other_exception;
}

cached :
    let (o, f') = fetch_static_entry str no_broker gtfs answer 5 6 feed in
    (o ≡ fetch_permanent) × (f'.cached_file ≡ some archive) × (length f'.errors ≡ 1)
unfolding fetch_static_entry
cached = (refl, refl, refl)

fetch_static_entry_example :
    let (o, f') = fetch_static_entry str no_broker gtfs answer 5 6 feed in
    (IsServable gtfs feed.cached_file → IsServable gtfs f'.cached_file)
    × ((e : Exception)
        → static_body gtfs answer ≡ raised e
        → (o ≢ fetch_ok) × (f'.cached_file ≡ feed.cached_file) × (f'.cached_at ≡ feed.cached_at))
    × IsRecorded feed (o, f')
unfolding entry_is_proxy_managed
fetch_static_entry_example =
    fetch_static_entry_lem str no_broker gtfs answer 5 6 feed refl (λ n. absurd (n refl))

fetch_realtime_endpoint_rt_example :
    let (o, f') = fetch_realtime_endpoint_rt str parsers siri answer 5 6 feed in
    (IsServableRealtime parsers siri feed.cached_file
      → IsServableRealtime parsers siri f'.cached_file)
    × (o ≢ fetch_ok
        → (f'.cached_file ≡ feed.cached_file)
          × (f'.cached_at ≡ feed.cached_at)
          × (f'.types ≡ feed.types)
          × (length f'.errors ≡ length feed.errors + 1))
    × (o ≡ fetch_ok → (f'.control.row.fetch_status ≡ active) × (f'.errors ≡ feed.errors))
unfolding endpoint_is_proxy_managed
fetch_realtime_endpoint_rt_example =
    fetch_realtime_endpoint_rt_lem str parsers siri answer 5 6 feed refl
