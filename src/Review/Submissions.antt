-- ===== src/Review/Submissions.antt =====
-- `FeedSubmission` and `StaticFeedEntry` of data_manager/models.py, and the tasks that are queued for
-- them.
use otwarte_dane_transportow.Common.{ℕ, Bool, true, false, ◌&&◌, Option, Text, non_empty}
use otwarte_dane_transportow.Fetch.{FetchControl}
use otwarte_dane_transportow.History.{Table}
use otwarte_dane_transportow.Content.Checks.{DataType}

-- A field of `static_entry`: the source fields (`STATIC_ENTRY_SOURCE_FIELDS`), the fields that stay
-- editable, or any other.
pub data EntryField : Type 0 where
  url file is_original hide_original auth_type auth_value : EntryField
  license download_time_1 download_time_2 : EntryField
  other_field : EntryField

unfoldable pub is_source_field : EntryField → Bool
is_source_field license = false
is_source_field download_time_1 = false
is_source_field download_time_2 = false
is_source_field other_field = false
is_source_field _ = true

-- A file of the storage, by its name there.
pub record StoredFile : Type 0 where
  pub name : Text
  pub content : Text

-- A row of `StaticFeedEntry`. Empty texts stand for a missing URL, authentication or licence, as in
-- the columns; times of day are seconds. `validation_queued` is the flag that the file signal leaves
-- on the object.
pub record Entry : Type 0 where
  pub pk : ℕ
  pub url : Text
  pub file : Option StoredFile
  pub is_original : Bool
  pub hide_original : Bool
  pub auth_type : Text
  pub auth_value : Option Text
  pub license : Text
  pub download_time_1 : Option ℕ
  pub download_time_2 : Option ℕ
  pub cached_file : Option Text
  pub cached_at : Option ℕ
  pub fetch : FetchControl
  pub validation_queued : Bool

-- `StaticFeedEntry.is_proxy_managed`
unfoldable pub is_proxy_managed : Entry → Bool
is_proxy_managed e = non_empty e.url && e.hide_original

pub record StaticSubmission : Type 0 where
  pub id : ℕ
  pub submitted_by_id : Option ℕ
  pub transport_organization : ℕ
  pub data_type : DataType
  pub name : Text
  pub note : Text
  pub table : Table
  pub entry : Option Entry

-- A task queued on commit.
pub data Job : Type 0 where
  fetch_static_entry validate_gtfs_feed : ℕ → Job
