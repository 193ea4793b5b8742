-- ===== src/Realtime/Examples.antt =====
-- A SIRI submission whose endpoint answers, and then fails; the theorems at it.
use otwarte_dane_transportow.Common.{◌<◌, ◌≡◌, ◌≢◌, refl, true, false, some, none, [], ◌∷◌}
use otwarte_dane_transportow.History.{siri, sx, endpoint_timeout, first, reasons_of}
use otwarte_dane_transportow.History.Trail.{stage}
use otwarte_dane_transportow.Realtime.Trail.{IsSound, created_table, created_table-IsSound}
use otwarte_dane_transportow.Fetch.{new_control}
use otwarte_dane_transportow.Net.Failures.{Attempt, returned, raised, connect_timeout}
use otwarte_dane_transportow.Scheduler.Fetching.{Downloaded}
use otwarte_dane_transportow.Realtime.Verify.{
  Endpoint, RealtimeSubmission, World, verified, refused, examined, validate_realtime_submission,
}
use otwarte_dane_transportow.Content.Checks.{netex}
use otwarte_dane_transportow.Realtime.Rules.{Draft}
use otwarte_dane_transportow.Realtime.Recorded.{validate_realtime_submission_lem}

abbrev endpoint : Endpoint
endpoint = record {
  endpoint_type = sx;
  feed = record {
    url = 1 ∷ [];
    hide_original = true;
    control = record { object = new_control; row = new_control };
    cached_file = none;
    cached_at = none;
    types = record { held = []; stored = [] };
    errors = [];
    validations = 0;
  };
}

abbrev submission : RealtimeSubmission
submission = record {
  protocol = siri;
  static_submission = some 7;
  endpoints = endpoint ∷ [];
  table = created_table 7 0;
}

abbrev world_of : Attempt Downloaded → World
world_of answer = record {
  link = λ ep. answer;
  download = λ ep. answer;
  str = λ e. [];
  parsers = record { parse_feed_message = λ s. none; is_json = λ s. false };
  now = 5;
  failed_at = 6;
}

abbrev good : World
good = world_of (returned (record { status_code = 200; body = 88 ∷ [] }))

abbrev slow : World
slow = world_of (raised connect_timeout)

-- A connection that times out is reported as a timeout.
timed : (examined slow (7 ∷ []) submission).0 ≡ endpoint_timeout sx ∷ []
unfolding examined
timed = refl

validate_realtime_submission_example :
    let (reasons, eps) = examined slow (7 ∷ []) submission in
    let (v, s') = validate_realtime_submission slow (7 ∷ []) 1 2 submission in
    IsSound s'.table
    × (stage submission.table ≡ 4 → s'.table ≡ submission.table)
    × (stage submission.table < 4
        → reasons ≢ []
        → (v ≡ refused reasons)
          × (stage s'.table ≡ 1)
          × (reasons_of (first s'.table.rows) ≡ some reasons))
    × (reasons ≡ [] → (v ≡ verified) × (stage submission.table < 4 → stage s'.table ≡ 3))
validate_realtime_submission_example =
    validate_realtime_submission_lem slow (7 ∷ []) 1 2 submission (created_table-IsSound 7 0)

-- A SIRI feed of a published NeTEx submission of the same organisation.
abbrev linked : Draft
linked = record {
  protocol = siri;
  static_submission =
      some (record { data_type = netex; transport_organization = 3; current_stage = 4 });
  transport_organization = some 3;
}
