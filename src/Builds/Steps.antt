-- ===== src/Builds/Steps.antt =====
-- What happens to the jobs, in any order: requests, workers, also those that were given up for dead,
-- and the watchdog, whose loop other steps may interrupt.
use otwarte_dane_transportow.Common.{ℕ, ◌≡◌, Bool, Option, some, List, Text}
use otwarte_dane_transportow.Builds.Rows.{
  Trigger, ErrorCode, FeedResult, RentalResult, GraphBuild, Jobs,
}
use otwarte_dane_transportow.Builds.Queue.{
  ok, request_build, request_rollback, request_osm_download, begin_build, begin_download, heartbeat,
  record_results, record_rental, mark_stopped, finish_failed, finish_succeeded, finish_download,
}
use otwarte_dane_transportow.Builds.Watch.{fail_stale_osm_downloads}

pub data Step : Jobs → Jobs → Type 0 where
  requested :
      (trigger : Trigger) (user : Option ℕ) (image : Text) (now : ℕ) (s t : Jobs)
      → request_build trigger user image now s ≡ ok t
      → Step s t
  -- The target was read before, and may have changed since.
  rolled_back :
      (target : GraphBuild) (user : Option ℕ) (image : Text) (on_disk : Bool) (now : ℕ) (s t : Jobs)
      → request_rollback target user image on_disk now s ≡ ok t
      → Step s t
  osm_requested :
      (url : Text) (user : Option ℕ) (now : ℕ) (s t : Jobs)
      → request_osm_download url user now s ≡ ok t
      → Step s t
  began : (now id : ℕ) (s t : Jobs) → begin_build now id s ≡ some t → Step s t
  began_download : (now id : ℕ) (s t : Jobs) → begin_download now id s ≡ some t → Step s t
  beat : (id now : ℕ) (s : Jobs) → Step s (heartbeat id now s)
  recorded :
      (id : ℕ) (results : List FeedResult) (now : ℕ) (s : Jobs)
      → Step s (record_results id results now s)
  rented : (id : ℕ) (results : List RentalResult) (s : Jobs) → Step s (record_rental id results s)
  stopped : (id now : ℕ) (s : Jobs) → Step s (mark_stopped id now s)
  -- By its worker, or by a round of the watchdog.
  failed :
      (id : ℕ) (code : ErrorCode) (log : Text) (now : ℕ) (s : Jobs)
      → Step s (finish_failed id code log now s)
  activated : (id now : ℕ) (s : Jobs) → Step s (finish_succeeded id now s)
  ended :
      (id : ℕ) (error : Option ErrorCode) (size timestamp : Option ℕ) (now : ℕ) (s : Jobs)
      → Step s (finish_download id error size timestamp now s)
  interrupted : (now : ℕ) (s : Jobs) → Step s (fail_stale_osm_downloads now s)

pub data Run : Jobs → Jobs → Type 0 where
  here : {s : Jobs} → Run s s
  next : {s t u : Jobs} → Run s t → Step t u → Run s u
