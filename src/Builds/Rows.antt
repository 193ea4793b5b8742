-- ===== src/Builds/Rows.antt =====
-- The rows of planner/models.py that graph builds and OSM downloads stand on, and the table of jobs.
use otwarte_dane_transportow.Common.{
  ℕ, ◌-◌, Bool, true, false, Option, none, some, List, [], ◌∷◌, zero, suc, if◌then◌else◌, ◌==◌,
  length, Text,
}

pub data JobStatus : Type 0 where
  queued running succeeded failed : JobStatus

pub data Trigger : Type 0 where
  schedule manual rollback : Trigger

pub data FeedOutcome : Type 0 where
  fresh stale excluded : FeedOutcome

-- The values of `error_code`, whose empty text is `none`.
pub data ErrorCode : Type 0 where
  build_interrupted docker_unavailable build_failed no_feeds : ErrorCode
  feed_not_published feed_source_unavailable feed_no_service_in_period feed_invalid : ErrorCode
  osm_missing osm_preparation_failed street_build_failed graph_build_failed : ErrorCode
  build_out_of_memory graph_missing activation_failed : ErrorCode
  osm_too_large osm_url_blocked osm_invalid osm_download_failed osm_download_interrupted : ErrorCode
  rt_url_blocked : ErrorCode

-- An entry of `realtime_skipped`.
pub record Skipped : Type 0 where
  pub feed_id : ℕ
  pub endpoint_type : ℕ
  pub error_code : ErrorCode

-- An entry of `feed_results`. Feed ids and digests are numbers; no digest is `none`.
pub record FeedResult : Type 0 where
  pub planner_feed : ℕ
  pub feed_id : ℕ
  pub submission : ℕ
  pub outcome : FeedOutcome
  pub sha256 : Option ℕ
  pub version_at : Option ℕ
  pub error_code : Option ErrorCode
  pub log_excerpt : Text
  pub realtime_skipped : List Skipped
  pub realtime_polled : List ℕ

-- An entry of `rental_results`.
pub record RentalResult : Type 0 where
  pub rental_source : ℕ
  pub included : Bool

pub record GraphBuild : Type 0 where
  pub id : ℕ
  pub status : JobStatus
  pub trigger : Trigger
  pub requested_by : Option ℕ
  pub rollback_of : Option ℕ
  pub otp_image : Text
  pub created_at : ℕ
  pub started_at : Option ℕ
  pub otp_stopped_at : Option ℕ
  pub heartbeat_at : Option ℕ
  pub finished_at : Option ℕ
  pub is_active : Bool
  pub feed_results : List FeedResult
  pub rental_results : List RentalResult
  pub error_code : Option ErrorCode
  pub log_excerpt : Text

pub record OsmDownload : Type 0 where
  pub id : ℕ
  pub url : Text
  pub status : JobStatus
  pub error_code : Option ErrorCode
  pub size_bytes : Option ℕ
  pub data_timestamp : Option ℕ
  pub requested_by : Option ℕ
  pub created_at : ℕ
  pub started_at : Option ℕ
  pub finished_at : Option ℕ

-- The messages to the workers.
pub data TaskMessage : Type 0 where
  run_graph_build download_osm : ℕ → TaskMessage
  ensure_serving refresh_index : TaskMessage

-- The two tables, newest row first, with the next keys, and the messages.
pub record Jobs : Type 0 where
  pub builds : List GraphBuild
  pub next_build : ℕ
  pub downloads : List OsmDownload
  pub next_download : ℕ
  pub messages : List TaskMessage

-- `status in ACTIVE_STATUSES`
abbrev pub is_under_way : JobStatus → Bool
is_under_way queued = true
is_under_way running = true
is_under_way succeeded = false
is_under_way failed = false

abbrev pub is_queued : JobStatus → Bool
is_queued queued = true
is_queued running = false
is_queued succeeded = false
is_queued failed = false

abbrev pub is_running : JobStatus → Bool
is_running queued = false
is_running running = true
is_running succeeded = false
is_running failed = false

abbrev pub is_succeeded : JobStatus → Bool
is_succeeded queued = false
is_succeeded running = false
is_succeeded succeeded = true
is_succeeded failed = false

module _ {A : Type 0} (key : A → ℕ) where
  -- `filter(pk=id).first()`
  abbrev pub row_at : ℕ → List A → Option A
  row_at id [] = none
  row_at id (r ∷ rs) = if key r == id then some r else row_at id rs

  -- `filter(pk=id).update(…)`, which is also what `save(update_fields=…)` of an object does.
  abbrev pub update_row : ℕ → (A → A) → List A → List A
  update_row id f [] = []
  update_row id f (r ∷ rs) = (if key r == id then f r else r) ∷ update_row id f rs

abbrev pub build_key : GraphBuild → ℕ
build_key b = b.id

abbrev pub download_key : OsmDownload → ℕ
download_key d = d.id

abbrev drop {ℓ} : {A : Type ℓ} → ℕ → List A → List A
drop zero xs = xs
drop (suc n) [] = []
drop (suc n) (x ∷ xs) = drop n xs

abbrev pub log_excerpt_chars : ℕ
log_excerpt_chars = 4000

-- `log[-LOG_EXCERPT_CHARS:]`
unfoldable pub excerpt : Text → Text
excerpt log = drop (length log - log_excerpt_chars) log
