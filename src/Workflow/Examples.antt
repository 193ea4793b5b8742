-- ===== src/Workflow/Examples.antt =====
-- The life of one submission, and the theorems along it.
use otwarte_dane_transportow.Workflow.Overlap.{update_loaded-unpublishes}
use otwarte_dane_transportow.Common.{
  ◌≡◌, ◌≢◌, ◌⊎◌, refl, sym, ap, true, false, none, some, List, [], ◌∷◌,
}
use otwarte_dane_transportow.Roles.{
  User, helper, can_confirm_feeds, is_helper_reviewer, data_provider, can_edit_static_feed_source,
}
use otwarte_dane_transportow.Fetch.{new_control}
use otwarte_dane_transportow.History.{
  Table, uploaded, completed, new_table, create, ordered, first, stage_of, current_stage,
  is_rejected, newer, latest_history_entry, is_rejection, rejected,
}
use otwarte_dane_transportow.History.Trail.{IsSound, stage, new_table-IsSound}
use otwarte_dane_transportow.Review.Answers.{done, done_injective}
use otwarte_dane_transportow.Review.StageValue.{pos, int, validate_stage_value, missing}
use otwarte_dane_transportow.Review.Transition.{falsy, apply_stage_transition}
use otwarte_dane_transportow.Review.Submissions.{
  StaticSubmission, Job, file, is_source_field, is_proxy_managed,
}
use otwarte_dane_transportow.Review.Static.{
  Body, perform_create, update_with_history, update_loaded, update_guard, upload, dotted, resubmit,
  review, request_changes_static_source, schedule_source_refresh, resumed,
  patch_request_includes_submission_content,
}
use otwarte_dane_transportow.Content.Checks.{gtfs}
use otwarte_dane_transportow.Workflow.Steps.{
  Serializer, KeepsHistory, Step, created, updated, Reach, here, next,
}
use otwarte_dane_transportow.Workflow.Safety.{
  IsUpdated, ByReviewer, ByAction, update_with_history-IsUpdated, Reach-IsSound, Step-publishes,
  Step-IsSound,
}

abbrev provider : User
provider = record {
  id = 7;
  is_authenticated = true;
  is_superuser = false;
  is_active = true;
  groups = [];
  cached_role_names = none;
}

abbrev reviewer : User
reviewer = record provider { id = 3; groups = helper ∷ [] }

abbrev unsaved : StaticSubmission
unsaved = record {
  id = 1;
  submitted_by_id = none;
  transport_organization = 1;
  name = [];
  note = [];
  data_type = gtfs;
  table = new_table;
  entry = some (record {
    pk = 1;
    url = [];
    file = some (record { name = b'f' ∷ []; content = b'P' ∷ b'K' ∷ 3 ∷ 4 ∷ [] });
    is_original = false;
    hide_original = false;
    auth_type = [];
    auth_value = none;
    license = [];
    download_time_1 = none;
    download_time_2 = none;
    cached_file = none;
    cached_at = none;
    fetch = new_control;
    validation_queued = true;
  });
}

abbrev nothing_sent : Serializer
nothing_sent restricted deferred s = done (s, [])

nothing_sent-KeepsHistory : KeepsHistory nothing_sent
nothing_sent-KeepsHistory restricted deferred s saved e =
    ap (λ (r : StaticSubmission × List Job). r.0.table) (sym (done_injective e))

abbrev publish : Body
publish = record {
  patch = record { stage = int (pos 4); rejection_cause = falsy };
  content_keys = [];
}

abbrev uploaded_submission : StaticSubmission
uploaded_submission = perform_create provider 10 unsaved

abbrev created_table : Table
created_table =
    create
      (record {
        event_type = uploaded;
        stage_before = 1;
        stage_after = 2;
        actor = some 7;
        cause = [];
        reasons = none;
      })
      10 new_table

abbrev published_submission : StaticSubmission
published_submission = record uploaded_submission {
  table =
      create
        (record {
          event_type = completed;
          stage_before = 2;
          stage_after = 4;
          actor = some 3;
          cause = [];
          reasons = none;
        })
        5 uploaded_submission.table;
}

publishes :
    update_with_history reviewer nothing_sent 5 publish uploaded_submission
    ≡ done (published_submission, [])
unfolding update_with_history update_loaded perform_create update_guard is_helper_reviewer
    can_confirm_feeds validate_stage_value apply_stage_transition current_stage is_rejected
    latest_history_entry ordered newer first stage_of is_rejection create
publishes = refl

abbrev creation : Step unsaved uploaded_submission
creation = created provider 10 unsaved refl

abbrev publication : Step uploaded_submission published_submission
publication =
    updated reviewer nothing_sent 5 publish uploaded_submission published_submission []
      nothing_sent-KeepsHistory publishes

abbrev life : Reach unsaved published_submission
life = next (next here creation) publication

uploaded-IsSound : IsSound uploaded_submission.table
uploaded-IsSound = Step-IsSound creation new_table-IsSound

update_with_history-IsUpdated_example :
    IsUpdated reviewer publish uploaded_submission.table published_submission.table
update_with_history-IsUpdated_example =
    update_with_history-IsUpdated reviewer nothing_sent 5 publish uploaded_submission
      published_submission [] nothing_sent-KeepsHistory uploaded-IsSound publishes

Reach-IsSound_example : IsSound published_submission.table
Reach-IsSound_example = Reach-IsSound refl life

Step-publishes_example :
    (stage uploaded_submission.table ≢ 4
      → stage published_submission.table ≡ 4
      → ByReviewer publication ⊎ ByAction publication)
    × (stage uploaded_submission.table ≡ 4
        → stage published_submission.table ≢ 4
        → ByReviewer publication)
Step-publishes_example = Step-publishes publication uploaded-IsSound

-- An owner loads the rejected submission, which is published before the new file is saved.
abbrev provider_owner : User
provider_owner = record provider { groups = data_provider ∷ [] }

abbrev rejected_table : Table
rejected_table =
    create
      (record {
        event_type = rejected;
        stage_before = 2;
        stage_after = 1;
        actor = some 3;
        cause = b'x' ∷ [];
        reasons = none;
      })
      5 created_table

abbrev confirmed : StaticSubmission
confirmed = record uploaded_submission {
  table =
      create
        (record {
          event_type = completed;
          stage_before = 1;
          stage_after = 4;
          actor = some 3;
          cause = [];
          reasons = none;
        })
        5 rejected_table;
}

abbrev new_file : Body
new_file = record {
  patch = record { stage = missing; rejection_cause = falsy };
  content_keys = dotted file ∷ [];
}

abbrev overwritten : StaticSubmission
overwritten = record confirmed { table = upload 7 5 confirmed.table }

overlaps :
    update_loaded provider_owner nothing_sent 5 new_file rejected_table confirmed
    ≡ done (overwritten, [])
unfolding update_loaded update_guard is_helper_reviewer can_confirm_feeds is_rejected
    latest_history_entry ordered newer first is_rejection create resubmit review
    request_changes_static_source schedule_source_refresh resumed perform_create is_source_field
    is_proxy_managed can_edit_static_feed_source patch_request_includes_submission_content
    validate_stage_value
overlaps = refl

update_loaded-unpublishes_example : (stage overwritten.table ≡ 2) × (IsSound overwritten.table → ⊥)
unfolding can_confirm_feeds is_rejected latest_history_entry ordered newer first is_rejection create
    request_changes_static_source is_source_field stage_of
update_loaded-unpublishes_example =
    update_loaded-unpublishes provider_owner nothing_sent 5 new_file rejected_table confirmed
      overwritten [] nothing_sent-KeepsHistory refl refl refl refl overlaps
