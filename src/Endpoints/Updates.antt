-- ===== src/Endpoints/Updates.antt =====
-- The update of a realtime submission: `RealtimeSubmissionViewSet.update` of data_manager/api/views.py
-- from the serializer on, up to the review.
use otwarte_dane_transportow.Common.{
  ℕ, Bool, true, false, ◌&&◌, ◌||◌, Option, none, some, List, [], ◌∷◌, if◌then◌else◌, not, ◌==◌,
  Text, non_empty,
}
use otwarte_dane_transportow.Roles.{User, Submission, can_edit_realtime_submission_content}
use otwarte_dane_transportow.History.{Protocol, EndpointType}
use otwarte_dane_transportow.Scheduler.EntityTypes.{rank}
use otwarte_dane_transportow.Realtime.Rules.{clean_endpoint}
use otwarte_dane_transportow.Endpoints.Rows.{
  EndpointRt, RealtimeInstance, EndpointData, RealtimeData,
}
use otwarte_dane_transportow.Endpoints.Merging.{by_type}
use otwarte_dane_transportow.Endpoints.Checks.{
  Checked, passed, fault, ◌>>=◌, ◌>>◌, unknown_type, invalid_endpoint, key_error, validate_update,
  or_old,
}

-- The `setattr` of each attribute that was sent, and the save.
abbrev pub with_sent_data : RealtimeData → RealtimeInstance → RealtimeInstance
with_sent_data d inst = record inst {
  transport_organization = or_old d.transport_organization inst.transport_organization;
  static_submission = or_old d.static_submission inst.static_submission;
  protocol = or_old d.protocol inst.protocol;
  name = or_old d.name inst.name;
  note = or_old d.note inst.note;
  license = or_old d.license inst.license;
}

-- `save(update_fields=['interval'])` of the row of a type.
abbrev pub save_interval : EndpointType → ℕ → List EndpointRt → List EndpointRt
save_interval t n [] = []
save_interval t n (e ∷ es) =
    (if rank e.endpoint_type == rank t then record e { interval = n } else e) ∷ save_interval t n es

-- `full_clean` of a row; `fits` are the checks of its single fields.
abbrev pub is_clean : (EndpointRt → Bool) → Protocol → EndpointRt → Bool
is_clean fits protocol e =
    fits e
    && elim (clean_endpoint protocol e.endpoint_type (non_empty e.auth_type) e.hide_original) [
      | none ↦ false
      | some _ ↦ true
    ]

module _ (fits : EndpointRt → Bool) where
  abbrev pub new_interval : Protocol → ℕ → EndpointRt → List EndpointRt → Checked (List EndpointRt)
  new_interval protocol n row rows =
      if row.interval == n
      then passed rows
      else if is_clean fits protocol (record row { interval = n })
      then passed (save_interval row.endpoint_type n rows)
      else fault invalid_endpoint

  abbrev pub interval_of :
      Protocol → Option ℕ → Option EndpointRt → List EndpointRt → Checked (List EndpointRt)
  interval_of protocol n none rows = fault unknown_type
  interval_of protocol none (some row) rows = fault key_error
  interval_of protocol (some n) (some row) rows = new_interval protocol n row rows

  -- The endpoints of a restricted edit.
  unfoldable pub save_intervals :
      Protocol → List EndpointData → List EndpointRt → Checked (List EndpointRt)
  save_intervals protocol [] rows = passed rows
  save_intervals protocol (ep ∷ eps) rows =
      interval_of protocol ep.interval (by_type ep.endpoint_type rows) rows
      >>= save_intervals protocol eps

  abbrev pub default_interval : ℕ
  default_interval = 60

  abbrev pub has_auth : Option Text → Bool
  has_auth none = false
  has_auth (some t) = non_empty t

  -- `RealtimeEndpointRT(submission=instance, **ep)`, hidden if it has credentials.
  abbrev pub endpoint_of : EndpointData → EndpointRt
  endpoint_of ep = record {
    endpoint_type = ep.endpoint_type;
    url = ep.url;
    hide_original = has_auth ep.auth_type || or_old ep.hide_original false;
    is_original = or_old ep.is_original false;
    auth_type = or_old ep.auth_type [];
    auth_value = ep.auth_value;
    interval = or_old ep.interval default_interval;
  }

  -- The endpoints of any other edit, which replace those before.
  unfoldable pub replace_endpoints : Protocol → List EndpointData → Checked (List EndpointRt)
  replace_endpoints protocol [] = passed []
  replace_endpoints protocol (ep ∷ eps) =
      if is_clean fits protocol (endpoint_of ep)
      then (replace_endpoints protocol eps >>= λ rest. passed (endpoint_of ep ∷ rest))
      else fault invalid_endpoint

  abbrev pub with_endpoints : RealtimeInstance → List EndpointRt → Checked RealtimeInstance
  with_endpoints inst rows = passed (record inst { endpoints = rows })

  abbrev pub save_endpoints :
      Bool → Option (List EndpointData) → RealtimeInstance → Checked RealtimeInstance
  save_endpoints restricted none inst = passed inst
  save_endpoints true (some eps) inst =
      save_intervals inst.protocol eps inst.endpoints >>= with_endpoints inst
  save_endpoints false (some eps) inst = replace_endpoints inst.protocol eps >>= with_endpoints inst

  -- The serializer's `validate` and the transaction; a fault leaves the rows as they were.
  unfoldable pub update_content :
      (ℕ → Bool) → Bool → RealtimeData → RealtimeInstance → Checked RealtimeInstance
  update_content completed restricted d inst = do
    validate_update completed restricted d inst
    save_endpoints restricted d.endpoints (with_sent_data d inst)

  -- The same for a user, from the submission as the rights read it.
  unfoldable pub update_by :
      (ℕ → Bool) → User → Submission → RealtimeData → RealtimeInstance → Checked RealtimeInstance
  unfolding update_content
  update_by completed u s d inst =
      update_content completed (not (can_edit_realtime_submission_content u s)) d inst
