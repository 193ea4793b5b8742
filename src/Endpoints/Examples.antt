-- ===== src/Endpoints/Examples.antt =====
-- Requests on a submission with one endpoint, and the theorems at them.
use otwarte_dane_transportow.Common.{◌≡◌, refl, true, false, none, some, [], ◌∷◌, Text, arith}
use otwarte_dane_transportow.History.{gtfs_rt, trip_update}
use otwarte_dane_transportow.Scheduler.EntityTypes.{rank}
use otwarte_dane_transportow.Content.Checks.{gtfs}
use otwarte_dane_transportow.Realtime.Rules.{
  protocol_allowed, allowed_endpoint_types, clean_endpoint,
}
use otwarte_dane_transportow.Endpoints.Rows.{
  EndpointRt, RealtimeInstance, missing, value, Item, object, RealtimeData,
}
use otwarte_dane_transportow.Endpoints.Merging.{
  UrlOrigin, keep_secret, merge_item, to_internal_endpoints,
}
use otwarte_dane_transportow.Endpoints.Checks.{
  passed, check_restricted, check_each, check_types, validate_update,
}
use otwarte_dane_transportow.Endpoints.Updates.{save_intervals, update_by}
use otwarte_dane_transportow.Roles.{
  User, Submission, has_admin_role, can_edit_realtime_submission_content,
}
use otwarte_dane_transportow.Endpoints.Origins.{AreAllowed, to_internal_endpoints-AreAllowed}
use otwarte_dane_transportow.Endpoints.Restricted.{IsSameBut, update_content-IsSameBut}

-- The first character stands for the scheme, the rest for the host.
abbrev short_origin : Text → UrlOrigin
short_origin [] = record { scheme = []; netloc = [] }
short_origin (c ∷ cs) = record { scheme = c ∷ []; netloc = cs }

abbrev trips : EndpointRt
trips = record {
  endpoint_type = trip_update;
  url = b's' ∷ b'a' ∷ [];
  hide_original = true;
  is_original = false;
  auth_type = b'k' ∷ [];
  auth_value = some (7 ∷ []);
  interval = 60;
}

-- Without the secret, and with another URL.
abbrev same_url : Item
same_url = record {
  endpoint_type = some trip_update;
  url = value (b's' ∷ b'a' ∷ []);
  hide_original = value true;
  is_original = value false;
  auth_type = value (b'k' ∷ []);
  auth_value = missing;
  interval = value 30;
}

abbrev other_url : Item
other_url = record same_url { url = value (b's' ∷ b'b' ∷ []) }

kept_and_not_kept :
    to_internal_endpoints short_origin false (trips ∷ []) (object same_url ∷ object other_url ∷ [])
    ≡ object (record same_url { auth_value = value (7 ∷ []) }) ∷ object other_url ∷ []
unfolding to_internal_endpoints merge_item keep_secret rank
kept_and_not_kept = refl

to_internal_endpoints-AreAllowed_example :
    AreAllowed short_origin (trips ∷ []) (object same_url ∷ object other_url ∷ []) (
      to_internal_endpoints short_origin false
        (trips ∷ [])
        (object same_url ∷ object other_url ∷ []))
to_internal_endpoints-AreAllowed_example =
    to_internal_endpoints-AreAllowed short_origin (trips ∷ []) false
      (object same_url ∷ object other_url ∷ [])

abbrev submission : RealtimeInstance
submission = record {
  transport_organization = 1;
  static_submission = some (record { id = 4; transport_organization = 1; data_type = gtfs });
  protocol = gtfs_rt;
  name = [];
  note = [];
  license = [];
  endpoints = trips ∷ [];
}

abbrev slower : RealtimeData
slower = record {
  transport_organization = none;
  static_submission = none;
  protocol = none;
  name = none;
  note = none;
  license = none;
  endpoints = some (
      record {
        endpoint_type = trip_update;
        url = b's' ∷ b'a' ∷ [];
        hide_original = some true;
        is_original = some false;
        auth_type = some (b'k' ∷ []);
        auth_value = some (7 ∷ []);
        interval = some 300;
      }
      ∷ []);
}

abbrev provider : User
provider = record {
  id = 7;
  is_authenticated = true;
  is_superuser = false;
  is_active = true;
  groups = [];
  cached_role_names = none;
}

abbrev at_stage_three : Submission
at_stage_three = record { submitted_by_id = some 7; is_rejected = false; current_stage = 3 }

slower_passes :
    update_by (λ e. true) (λ id. true) provider at_stage_three slower submission
    ≡ passed (record submission { endpoints = record trips { interval = 300 } ∷ [] })
unfolding update_by can_edit_realtime_submission_content validate_update check_restricted check_each
    check_types save_intervals rank protocol_allowed allowed_endpoint_types clean_endpoint
slower_passes = refl

update_content-IsSameBut_example :
    IsSameBut submission (record submission { endpoints = record trips { interval = 300 } ∷ [] })
unfolding has_admin_role
update_content-IsSameBut_example =
    update_content-IsSameBut (λ e. true) (λ id. true) provider at_stage_three slower submission refl
      refl (omega arith) slower_passes
