-- ===== src/Write/Examples.antt =====
-- Requests on one submission, and the theorems at them.
use otwarte_dane_transportow.Common.{◌≡◌, refl, true, false, none, some, List, [], ◌∷◌}
use otwarte_dane_transportow.Roles.{
  User, is_helper_reviewer, can_confirm_feeds, can_edit_static_feed_source,
}
use otwarte_dane_transportow.Fetch.{new_control}
use otwarte_dane_transportow.History.{
  uploaded, new_table, create, ordered, is_rejected, current_stage, is_rejection,
  latest_history_entry, newer, first, stage_of,
}
use otwarte_dane_transportow.Content.Checks.{gtfs}
use otwarte_dane_transportow.Review.Answers.{done}
use otwarte_dane_transportow.Review.StageValue.{missing, validate_stage_value}
use otwarte_dane_transportow.Review.Transition.{falsy}
use otwarte_dane_transportow.Review.Submissions.{StoredFile, Entry, StaticSubmission, Job, license}
use otwarte_dane_transportow.Review.Static.{
  Body, rights_view, static_entry, update_with_history, update_loaded, update_guard,
}
use otwarte_dane_transportow.Write.Sent.{EntryData, Attrs, Upload, without_source}
use otwarte_dane_transportow.Write.Saving.{
  save_existing, write_serializer, feed_file_path, update_entry,
}
use otwarte_dane_transportow.Write.Cleaning.{clean, clean_upload, hide_authenticated, schedule_fits}
use otwarte_dane_transportow.Write.Checking.{validate, validate_restricted, validate_entry}
use otwarte_dane_transportow.Write.Sources.{AllEntry, write_serializer-AllEntry}
use otwarte_dane_transportow.Write.Restricted.{IsKept}
use otwarte_dane_transportow.Write.Contract.{update_with_history-IsKept}
use otwarte_dane_transportow.Review.Submissions.{validate_gtfs_feed}
use otwarte_dane_transportow.Write.Saving.{create_submission, save_new, created_signal}
use otwarte_dane_transportow.Write.Checking.{validate_new, is_bad_upload}
use otwarte_dane_transportow.Write.Uploads.{
  in_storage, replacing, uploaded_entry, validation_of, save_existing-validates,
}

abbrev owner : User
owner = record {
  id = 7;
  is_authenticated = true;
  is_superuser = false;
  is_active = true;
  groups = [];
  cached_role_names = none;
}

abbrev stored : StoredFile
stored = record { name = feed_file_path 1 (b'f' ∷ []); content = 1 ∷ [] }

abbrev entry : Entry
entry = record {
  pk = 5;
  url = [];
  file = some stored;
  is_original = false;
  hide_original = false;
  auth_type = [];
  auth_value = none;
  license = [];
  download_time_1 = none;
  download_time_2 = none;
  cached_file = none;
  cached_at = none;
  fetch = new_control;
  validation_queued = false;
}

abbrev submission : StaticSubmission
submission = record {
  id = 1;
  submitted_by_id = some 7;
  transport_organization = 1;
  data_type = gtfs;
  name = b'n' ∷ [];
  note = [];
  table =
      create
        (record {
          event_type = uploaded;
          stage_before = 1;
          stage_after = 2;
          actor = some 7;
          cause = [];
          reasons = none;
        })
        1 new_table;
  entry = some entry;
}

abbrev no_data : EntryData
no_data = record {
  url = none;
  file = none;
  is_original = none;
  hide_original = none;
  auth_type = none;
  auth_value = none;
  license = none;
  download_time_1 = none;
  download_time_2 = none;
}

-- The licence of the entry.
abbrev new_license : Attrs
new_license = record {
  name = none;
  transport_organization = none;
  data_type = none;
  note = none;
  static_entry = some (record no_data { license = some (b'L' ∷ []) });
}

abbrev request : Body
request = record {
  patch = record { stage = missing; rejection_cause = falsy };
  content_keys = static_entry (license ∷ []) ∷ [];
}

abbrev no_job : List Job
no_job = []

abbrev licensed : StaticSubmission
licensed = record submission { entry = some (record entry { license = b'L' ∷ [] }) }

right : can_edit_static_feed_source owner (rights_view submission) ≡ false
unfolding can_edit_static_feed_source current_stage is_rejected is_rejection latest_history_entry
    ordered newer first stage_of create
right = refl

alive : is_rejected (some (ordered submission.table.rows)) submission.table ≡ false
unfolding is_rejected is_rejection latest_history_entry ordered newer first stage_of create
alive = refl

answered :
    update_with_history owner
      (write_serializer request.content_keys new_license true 9)
      1
      request
      submission
    ≡ done (licensed, [])
unfolding update_with_history update_loaded update_guard is_helper_reviewer can_confirm_feeds
    can_edit_static_feed_source validate_stage_value current_stage is_rejected is_rejection
    latest_history_entry ordered newer first stage_of create write_serializer validate
    validate_restricted validate_entry update_entry save_existing clean clean_upload
    hide_authenticated without_source
answered = refl

update_with_history-IsKept_example : IsKept submission licensed × (no_job ≡ [])
update_with_history-IsKept_example =
    update_with_history-IsKept owner new_license true 9 1 request submission licensed [] right alive
      answered

saved :
    write_serializer request.content_keys new_license true 9 true false submission
    ≡ done (licensed, [])
unfolding write_serializer validate validate_restricted validate_entry update_entry save_existing
    clean clean_upload hide_authenticated without_source
saved = refl

well_formed : AllEntry submission.entry
unfolding schedule_fits
well_formed = record {
  one_source = refl;
  scheduled = refl;
  upload_plain = λ _. (refl, refl, refl);
  auth_hidden = λ h. cc;
}

write_serializer-AllEntry_example : AllEntry licensed.entry
write_serializer-AllEntry_example =
    write_serializer-AllEntry request.content_keys new_license true 9 true false submission
      (licensed, []) well_formed saved

-- A new version of the same file.
abbrev new_version : Upload
new_version = record { name = b'f' ∷ []; content = 2 ∷ [] }

abbrev replaced : Entry
replaced = record entry { file = some (in_storage 1 new_version) }

replacement :
    save_existing 1 gtfs false (replacing new_version no_data) (uploaded_entry stored entry)
    ≡ done (replaced, [])
unfolding save_existing clean clean_upload hide_authenticated without_source
replacement = refl

save_existing-validates_example :
    (replaced.file ≡ some (in_storage 1 new_version))
    × (no_job ≡ validation_of stored (in_storage 1 new_version) 5)
save_existing-validates_example =
    save_existing-validates 1 gtfs new_version no_data stored entry (replaced, []) replacement

-- A new submission with an archive.
abbrev archive : Upload
archive = record { name = b'f' ∷ []; content = b'P' ∷ (b'K' ∷ (3 ∷ (4 ∷ []))) }

abbrev posted_data : EntryData
posted_data = record no_data { file = some (some archive) }

abbrev made : StaticSubmission
made = record submission {
  submitted_by_id = none;
  table = new_table;
  entry = some (record entry { file = some (in_storage 1 archive); validation_queued = true });
}

creation :
    create_submission 1 5 1 gtfs (b'n' ∷ []) [] (some posted_data)
    ≡ done (made, validate_gtfs_feed 5 ∷ [])
unfolding create_submission validate_new validate_entry is_bad_upload update_entry save_new clean
    clean_upload hide_authenticated created_signal
creation = refl
