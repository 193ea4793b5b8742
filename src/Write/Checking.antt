-- ===== src/Write/Checking.antt =====
-- `FeedSubmissionWriteSerializer.validate`, on the data that the fields let through.
use otwarte_dane_transportow.Common.{
  Bool, true, false, not, ◌&&◌, ◌||◌, Option, none, some, List, if◌then◌else◌, Text, text_eq, any,
}
use otwarte_dane_transportow.Content.Checks.{DataType, is_gtfs, looks_like_zip}
use otwarte_dane_transportow.Review.Answers.{Outcome, done, invalid, bad_content, ◌>>=◌}
use otwarte_dane_transportow.Review.Submissions.{
  EntryField, license, download_time_1, download_time_2, StaticSubmission,
}
use otwarte_dane_transportow.Review.Static.{ContentKey}
use otwarte_dane_transportow.Write.Sent.{
  EntryData, Attrs, Upload, is_sent, sets_url, sets_file, keys_of, has_data,
  static_entry_keys_in_request,
}

-- The fields that stay editable after stage 1.
abbrev pub is_allowed : EntryField → Bool
is_allowed license = true
is_allowed download_time_1 = true
is_allowed download_time_2 = true
is_allowed _ = false

abbrev pub not_allowed : EntryField → Bool
not_allowed k = not (is_allowed k)

abbrev pub changes_name : Option Text → Text → Bool
changes_name none old = false
changes_name (some new) old = not (text_eq old new)

abbrev pub bad_keys : Option EntryData → Bool
bad_keys none = false
bad_keys (some d) = any not_allowed (keys_of d)

-- The checks of a restricted edit. The comparison of the source fields that follows them in the
-- code is not reached: a source field among the data is a bad key.
unfoldable pub validate_restricted : List ContentKey → Attrs → StaticSubmission → Outcome (Unit {0})
unfolding static_entry_keys_in_request keys_of
validate_restricted sent a s =
    if changes_name a.name s.name
    then invalid bad_content
    else if is_sent a.transport_organization
    then invalid bad_content
    else if is_sent a.data_type
    then invalid bad_content
    else if any not_allowed (static_entry_keys_in_request sent)
    then invalid bad_content
    else if bad_keys a.static_entry
    then invalid bad_content
    else done tt

-- `attrs.get('data_type') or instance.data_type`
abbrev pub type_or : Option DataType → DataType → DataType
type_or none old = old
type_or (some new) old = new

-- `validate_uploaded_gtfs_zip`, of a GTFS upload.
unfoldable pub is_bad_upload : DataType → Option (Option Upload) → Bool
unfolding looks_like_zip
is_bad_upload data_type (some (some f)) = is_gtfs data_type && not (looks_like_zip f.content)
is_bad_upload data_type _ = false

-- The checks of the nested data; `has_entry` is whether there is an entry to update.
unfoldable pub validate_entry : DataType → Bool → EntryData → Outcome (Unit {0})
unfolding is_bad_upload has_data
validate_entry data_type has_entry d =
    if not (has_data d)
    then done tt
    else if is_bad_upload data_type d.file
    then invalid bad_content
    else if not has_entry && not (sets_url d.url || sets_file d.file)
    then invalid bad_content
    else done tt

abbrev pub validate_nested : DataType → Bool → Option EntryData → Outcome (Unit {0})
validate_nested data_type has_entry none = done tt
validate_nested data_type has_entry (some d) = validate_entry data_type has_entry d

-- `validate`, of an update.
unfoldable pub validate : Bool → List ContentKey → Attrs → StaticSubmission → Outcome (Unit {0})
unfolding validate_restricted validate_entry
validate restricted sent a s =
    (if restricted then validate_restricted sent a s else done tt) >>= λ checked.
    validate_nested (type_or a.data_type s.data_type) (is_sent s.entry) a.static_entry

-- `validate`, of a creation.
unfoldable pub validate_new : DataType → Option EntryData → Outcome (Unit {0})
unfolding validate_entry
validate_new data_type d = validate_nested data_type false d
