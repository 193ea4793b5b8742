-- ===== src/Builds/Queue.antt =====
-- Requests for jobs (planner/services.py), and the starts and ends of jobs (planner/pipeline.py) as
-- they change the tables.
use otwarte_dane_transportow.Common.{
  ℕ, suc, Bool, true, false, not, ◌||◌, Option, none, some, List, [], ◌∷◌, map, if◌then◌else◌, any,
  Text, text_eq,
}
use otwarte_dane_transportow.Builds.Rows.{
  queued, running, succeeded, failed, Trigger, rollback, ErrorCode, GraphBuild, OsmDownload,
  FeedResult, RentalResult, run_graph_build, download_osm, Jobs, is_under_way, is_queued,
  is_succeeded, is_running, row_at, update_row, build_key, download_key, excerpt,
}

-- The exceptions of the requests.
pub data JobRefusal : Type 0 where
  build_in_progress osm_download_in_progress build_not_activatable : JobRefusal

pub data JobReply : Type 0 where
  ok : Jobs → JobReply
  refused : JobRefusal → JobReply

-- The guards of `_queue_job`, under its lock.
abbrev pub queue_job : Jobs → Jobs → JobReply
queue_job created s =
    if any (λ (b : GraphBuild). is_under_way b.status) s.builds
    then refused build_in_progress
    else if any (λ (d : OsmDownload). is_under_way d.status) s.downloads
    then refused osm_download_in_progress
    else ok created

-- `GraphBuild.objects.create`, with the message that goes out on commit.
unfoldable pub create_build : GraphBuild → Jobs → Jobs
create_build fields s = record s {
  builds = record fields { id = s.next_build } ∷ s.builds;
  next_build = suc s.next_build;
  messages = run_graph_build s.next_build ∷ s.messages;
}

unfoldable pub create_download : OsmDownload → Jobs → Jobs
create_download fields s = record s {
  downloads = record fields { id = s.next_download } ∷ s.downloads;
  next_download = suc s.next_download;
  messages = download_osm s.next_download ∷ s.messages;
}

-- A new row, with the defaults of its columns.
abbrev pub new_build : Trigger → Option ℕ → Text → ℕ → GraphBuild
new_build trigger user image now = record {
  id = 0;
  status = queued;
  trigger = trigger;
  requested_by = user;
  rollback_of = none;
  otp_image = image;
  created_at = now;
  started_at = none;
  otp_stopped_at = none;
  heartbeat_at = none;
  finished_at = none;
  is_active = false;
  feed_results = [];
  rental_results = [];
  error_code = none;
  log_excerpt = [];
}

unfoldable pub request_build : Trigger → Option ℕ → Text → ℕ → Jobs → JobReply
request_build trigger user image now s =
    queue_job (create_build (new_build trigger user image now) s) s

-- `build.rollback_of_id or build.id`
abbrev pub graph_of : GraphBuild → ℕ
graph_of b = elim b.rollback_of [ none ↦ b.id | some id ↦ id ]

-- The guard of `request_rollback`; `on_disk` is whether the target's graph file is there, `image`
-- the setting.
abbrev pub is_not_activatable : GraphBuild → Text → Bool → Bool
is_not_activatable target image on_disk =
    not (is_succeeded target.status)
    || target.is_active
    || not (text_eq target.otp_image image)
    || not on_disk

abbrev pub rollback_build : GraphBuild → Option ℕ → ℕ → GraphBuild
rollback_build target user now = record (new_build rollback user target.otp_image now) {
  rollback_of = some (graph_of target);
  feed_results = target.feed_results;
  rental_results = target.rental_results;
}

unfoldable pub request_rollback : GraphBuild → Option ℕ → Text → Bool → ℕ → Jobs → JobReply
request_rollback target user image on_disk now s =
    if is_not_activatable target image on_disk
    then refused build_not_activatable
    else queue_job (create_build (rollback_build target user now) s) s

unfoldable pub request_osm_download : Text → Option ℕ → ℕ → Jobs → JobReply
request_osm_download url user now s =
    queue_job
      (create_download
        (record {
          id = 0;
          url = url;
          status = queued;
          error_code = none;
          size_bytes = none;
          data_timestamp = none;
          requested_by = user;
          created_at = now;
          started_at = none;
          finished_at = none;
        })
        s)
      s

-- `services.maintenance_active`
unfoldable pub maintenance_active : Jobs → Bool
maintenance_active s =
    any (λ (b : GraphBuild). elim b.otp_stopped_at [ none ↦ false | some _ ↦ is_running b.status ])
      s.builds

abbrev pub begun_row : ℕ → GraphBuild → GraphBuild
begun_row now r = record r { status = running; started_at = some now; heartbeat_at = some now }

-- The transaction that begins `run_build`: `none` where it returns at once.
abbrev pub begin_row : ℕ → Option GraphBuild → Jobs → Option Jobs
begin_row now none s = none
begin_row now (some b) s =
    if not (is_queued b.status)
    then none
    else some (record s { builds = update_row build_key b.id (begun_row now) s.builds })

unfoldable pub begin_build : ℕ → ℕ → Jobs → Option Jobs
begin_build now id s = begin_row now (row_at build_key id s.builds) s

abbrev pub begun_download_row : ℕ → OsmDownload → OsmDownload
begun_download_row now r = record r { status = running; started_at = some now }

-- The transaction that begins `download_osm`.
abbrev pub begin_download_row : ℕ → Option OsmDownload → Jobs → Option Jobs
begin_download_row now none s = none
begin_download_row now (some d) s =
    if not (is_queued d.status)
    then none
    else some
        (record s { downloads = update_row download_key d.id (begun_download_row now) s.downloads })

unfoldable pub begin_download : ℕ → ℕ → Jobs → Option Jobs
begin_download now id s = begin_download_row now (row_at download_key id s.downloads) s

abbrev pub heartbeat_row : ℕ → GraphBuild → GraphBuild
heartbeat_row now r = record r { heartbeat_at = some now }

-- `_heartbeat`
unfoldable pub heartbeat : ℕ → ℕ → Jobs → Jobs
heartbeat id now s = record s { builds = update_row build_key id (heartbeat_row now) s.builds }

abbrev pub record_results_row : List FeedResult → ℕ → GraphBuild → GraphBuild
record_results_row results now r = record r { feed_results = results; heartbeat_at = some now }

-- `_record_results`
unfoldable pub record_results : ℕ → List FeedResult → ℕ → Jobs → Jobs
record_results id results now s = record s {
  builds = update_row build_key id (record_results_row results now) s.builds;
}

-- `build.save(update_fields=['rental_results'])`
abbrev pub record_rental_row : List RentalResult → GraphBuild → GraphBuild
record_rental_row results r = record r { rental_results = results }

unfoldable pub record_rental : ℕ → List RentalResult → Jobs → Jobs
record_rental id results s = record s {
  builds = update_row build_key id (record_rental_row results) s.builds;
}

-- The write of `_stop_serving`.
abbrev pub mark_stopped_row : ℕ → GraphBuild → GraphBuild
mark_stopped_row now r = record r { otp_stopped_at = some now }

unfoldable pub mark_stopped : ℕ → ℕ → Jobs → Jobs
mark_stopped id now s = record s {
  builds = update_row build_key id (mark_stopped_row now) s.builds;
}

abbrev pub failed_row : ErrorCode → Text → ℕ → GraphBuild → GraphBuild
failed_row code log now r = record r {
  status = failed;
  finished_at = some now;
  error_code = some code;
  log_excerpt = excerpt log;
}

-- `_finish_failed`
unfoldable pub finish_failed : ℕ → ErrorCode → Text → ℕ → Jobs → Jobs
finish_failed id code log now s = record s {
  builds = update_row build_key id (failed_row code log now) s.builds;
}

abbrev pub inactive_row : GraphBuild → GraphBuild
inactive_row r = record r { is_active = false }

abbrev pub succeeded_row : ℕ → GraphBuild → GraphBuild
succeeded_row now r = record r { status = succeeded; finished_at = some now; is_active = true }

-- The builds after the transaction of `_activate`.
unfoldable pub finish_succeeded : ℕ → ℕ → Jobs → Jobs
finish_succeeded id now s = record s {
  builds = update_row build_key id (succeeded_row now) (map inactive_row s.builds);
}

-- The writes that end `download_osm`: an error code, or the size and the time of the data.
abbrev pub finished_download_row :
    Option ErrorCode → Option ℕ → Option ℕ → ℕ → OsmDownload → OsmDownload
finished_download_row error size timestamp now r = record r {
  status = elim error [ none ↦ succeeded | some _ ↦ failed ];
  error_code = error;
  size_bytes = size;
  data_timestamp = timestamp;
  finished_at = some now;
}

unfoldable pub finish_download : ℕ → Option ErrorCode → Option ℕ → Option ℕ → ℕ → Jobs → Jobs
finish_download id error size timestamp now s = record s {
  downloads =
      update_row download_key id (finished_download_row error size timestamp now) s.downloads;
}
