-- ===== src/Builds/Watch.antt =====
-- The watchdog over the jobs: `fail_stale_builds` and `fail_stale_osm_downloads` of
-- planner/pipeline.py, `watchdog_task` and `scheduled_graph_build_task` of planner/tasks.py. Times
-- are seconds.
use otwarte_dane_transportow.Common.{
  ℕ, ◌+◌, ◌*◌, Bool, false, ◌&&◌, ◌||◌, Option, none, some, List, [], ◌∷◌, map, if◌then◌else◌, ltb,
  where_, Text,
}
use otwarte_dane_transportow.Builds.Rows.{
  JobStatus, failed, schedule, build_interrupted, osm_download_interrupted, GraphBuild, OsmDownload,
  ensure_serving, refresh_index, Jobs, is_queued, is_running,
}
use otwarte_dane_transportow.Builds.Queue.{
  build_in_progress, osm_download_in_progress, build_not_activatable, ok, refused, request_build,
  finish_failed,
}

abbrev pub heartbeat_stale_after : ℕ
heartbeat_stale_after = 15 * 60

abbrev pub osm_download_timeout_seconds : ℕ
osm_download_timeout_seconds = 3600

-- `t < now - limit`, which a missing time does not meet.
abbrev pub is_before : ℕ → ℕ → Option ℕ → Bool
is_before limit now none = false
is_before limit now (some t) = ltb (t + limit) now

-- A queued job by the time of its row, a running one by its last sign.
abbrev pub is_stale_as : JobStatus → ℕ → Option ℕ → ℕ → ℕ → Bool
is_stale_as status created_at sign limit now =
    (is_queued status && is_before heartbeat_stale_after now (some created_at))
    || (is_running status && is_before limit now sign)

abbrev pub is_stale_build : ℕ → GraphBuild → Bool
is_stale_build now b = is_stale_as b.status b.created_at b.heartbeat_at heartbeat_stale_after now

-- The loop of `fail_stale_builds` over the builds it read.
unfoldable pub fail_each : ℕ → List GraphBuild → Jobs → Jobs
fail_each now [] s = s
fail_each now (b ∷ bs) s = fail_each now bs (finish_failed b.id build_interrupted [] now s)

unfoldable pub fail_stale_builds : ℕ → Jobs → Jobs
fail_stale_builds now s = fail_each now (where_ (is_stale_build now) s.builds) s

abbrev pub is_stale_download : ℕ → OsmDownload → Bool
is_stale_download now d =
    is_stale_as d.status d.created_at d.started_at
      (osm_download_timeout_seconds + heartbeat_stale_after) now

abbrev pub interrupted_row : ℕ → OsmDownload → OsmDownload
interrupted_row now d =
    if is_stale_download now d
    then record d {
      status = failed;
      error_code = some osm_download_interrupted;
      finished_at = some now;
    }
    else d

unfoldable pub fail_stale_osm_downloads : ℕ → Jobs → Jobs
fail_stale_osm_downloads now s = record s { downloads = map (interrupted_row now) s.downloads }

-- `GraphBuild.objects.filter(is_active=True).first()`
abbrev pub active_build : List GraphBuild → Option GraphBuild
active_build [] = none
active_build (b ∷ bs) = if b.is_active then some b else active_build bs

-- The messages of `watchdog_task`; `indexed` is whether the active build has its search index.
abbrev pub watch_messages : Bool → Option GraphBuild → Jobs → Jobs
watch_messages indexed none s = s
watch_messages indexed (some b) s = record s {
  messages =
      if indexed
      then ensure_serving ∷ s.messages
      else refresh_index ∷ (ensure_serving ∷ s.messages);
}

unfoldable pub watchdog : Bool → ℕ → Jobs → Jobs
watchdog indexed now s =
    let t = fail_stale_osm_downloads now (fail_stale_builds now s) in
    watch_messages indexed (active_build t.builds) t

-- How a run of `scheduled_graph_build_task` ends: queued, skipped, or tried again by a countdown.
pub data Scheduled : Type 0 where
  queued_build : Jobs → Scheduled
  skipped : Scheduled
  retried : ℕ → Scheduled
  gave_up : Scheduled

abbrev pub scheduled_build_retry_seconds : ℕ
scheduled_build_retry_seconds = 600

abbrev pub scheduled_build_retries : ℕ
scheduled_build_retries = 6

unfoldable pub scheduled_graph_build : ℕ → Text → ℕ → Jobs → Scheduled
scheduled_graph_build retries image now s = elim (request_build schedule none image now s) [
  | ok t ↦ queued_build t
  | refused build_in_progress ↦ skipped
  | refused osm_download_in_progress ↦
      if ltb retries scheduled_build_retries then retried scheduled_build_retry_seconds else gave_up
  | refused build_not_activatable ↦ gave_up
]
