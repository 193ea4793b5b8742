-- ===== src/Builds/Pipeline.antt =====
-- `run_build`, `_build_and_activate`, `ensure_serving` and `download_osm` of planner/pipeline.py.
use otwarte_dane_transportow.Common.{
  ℕ, Bool, true, false, not, ◌&&◌, Option, none, some, List, [], map, if◌then◌else◌, any, where_,
  Text,
}
use otwarte_dane_transportow.Builds.Rows.{
  FeedOutcome, fresh, stale, excluded, ErrorCode, no_feeds, docker_unavailable, build_failed,
  FeedResult, GraphBuild, Jobs, Skipped, is_running, row_at, build_key,
}
use otwarte_dane_transportow.Builds.Queue.{begin_build, finish_failed, record_rental, graph_of}
use otwarte_dane_transportow.Builds.Watch.{active_build}
use otwarte_dane_transportow.Builds.World.{
  feed_copy, graph, otp_config, router_config, built_graph, Disk, write, PlannerState, Outside,
  Failure, build_failed_with, docker_unavailable_with, feed_unavailable, other, Action, pure, gets,
  catch, ◌>>=◌, ◌>>◌, modify, raise_if, act_if, ask, file_op, write_file, database,
}
use otwarte_dane_transportow.Builds.Candidates.{
  Candidate, has_path, collect_candidates, save_results,
}
use otwarte_dane_transportow.Builds.Trials.{test_changed_feeds}
use otwarte_dane_transportow.Builds.Graphs.{ensure_street_graph, build_graph}
use otwarte_dane_transportow.Builds.Serving.{
  stop_serving, start_serving, start_server, server_running, point_serving_at,
}
use otwarte_dane_transportow.Builds.Activation.{activate}

abbrev pub is_fresh : FeedOutcome → Bool
is_fresh fresh = true
is_fresh stale = false
is_fresh excluded = false

abbrev pub is_included : FeedOutcome → Bool
is_included fresh = true
is_included stale = true
is_included excluded = false

abbrev pub fresh_of : List Candidate → List Candidate
fresh_of cs = where_ (λ (c : Candidate). has_path c && is_fresh c.outcome) cs

abbrev pub feed_ids : List Candidate → List ℕ
feed_ids cs = map (λ (c : Candidate). c.feed.feed_id) (where_ has_path cs)

abbrev pub included_of : List FeedResult → List ℕ
included_of results =
    map (λ (r : FeedResult). r.feed_id) (where_ (λ (r : FeedResult). is_included r.outcome) results)

abbrev pub is_polled : Candidate → Bool
is_polled c = has_path c && is_fresh c.outcome && c.feed.include_realtime

-- What `realtime_updaters` says of each fresh feed.
abbrev pub with_realtime : (ℕ → List ℕ) → (ℕ → List Skipped) → Candidate → Candidate
with_realtime polled skipped c =
    if has_path c && is_fresh c.outcome
    then record c {
      realtime_polled = if c.feed.include_realtime then polled c.feed.feed_id else [];
      realtime_skipped = if c.feed.include_realtime then skipped c.feed.feed_id else [];
    }
    else c

-- `shutil.rmtree(workdir)`
abbrev pub clear_workdir : Disk → Disk
clear_workdir disk p = elim p [ feed_copy k ↦ none | built_graph ↦ none | q ↦ disk q ]

abbrev pub move_graph : ℕ → PlannerState → PlannerState
move_graph g w = record w {
  disk = write built_graph none (write (graph g) (w.disk built_graph) w.disk);
}

module _ (o : Outside) where
  -- The graph and its configurations go to their place.
  unfoldable pub install : ℕ → Action (Unit {0})
  install g = do
    file_op o (move_graph g)
    otp ← ask o o.config
    write_file o (otp_config g) (some otp)
    router ← ask o o.config
    write_file o (router_config g) (some router)

  -- `_build_and_activate` up to the stop of the server, and from there to the activation.
  unfoldable pub prepare_feeds : GraphBuild → Action (List Candidate)
  prepare_feeds build = do
    file_op o (λ w. w)
    candidates ← collect_candidates o build.id
    save_results o build.id candidates
    raise_if (not (any has_path candidates)) (build_failed_with no_feeds [])
    pure candidates

  unfoldable pub make_graph : GraphBuild → List Candidate → Action (List Candidate)
  make_graph build candidates = do
    tested ← test_changed_feeds o build candidates
    save_results o build.id tested
    raise_if (not (any has_path tested)) (build_failed_with no_feeds [])
    ensure_street_graph o build tested
    build_graph o build
    polled ← ask o o.polled
    skipped ← ask o o.skipped
    let candidates = map (with_realtime polled skipped) tested
    save_results o build.id candidates
    rental ← ask o o.rental
    database o (λ _. record_rental build.id rental)
    install (graph_of build)
    pure candidates

  -- `_build_and_activate`
  unfoldable pub build_and_activate : GraphBuild → Action (Unit {0})
  build_and_activate build = do
    collected ← prepare_feeds build
    stop_serving o build.id
    candidates ← make_graph build collected
    activate o build (feed_ids candidates) (fresh_of candidates)

  unfoldable pub roll_back : GraphBuild → Action (Unit {0})
  roll_back build = do stop_serving o build.id; activate o build (included_of build.feed_results) []

  -- The body of the `try` of `run_build`.
  abbrev pub perform_as : GraphBuild → Option ℕ → Action (Unit {0})
  perform_as build none = build_and_activate build
  perform_as build (some _) = roll_back build

  unfoldable pub perform : GraphBuild → Action (Unit {0})
  perform build = perform_as build build.rollback_of

  -- Its handlers.
  abbrev pub failure_code : Failure → ErrorCode
  failure_code (build_failed_with code log) = code
  failure_code (docker_unavailable_with log) = docker_unavailable
  failure_code feed_unavailable = build_failed
  failure_code other = build_failed

  abbrev pub failure_log : Failure → Text
  failure_log (build_failed_with code log) = log
  failure_log (docker_unavailable_with log) = log
  failure_log feed_unavailable = []
  failure_log other = []

  unfoldable pub on_failure : ℕ → Failure → Action (Unit {0})
  on_failure id e = database o (λ now. finish_failed id (failure_code e) (failure_log e) now)

  -- Its `finally`.
  unfoldable pub clean_up : Action (Unit {0})
  clean_up = do
    modify (λ w. record w { disk = clear_workdir w.disk })
    stopped ← gets (λ w. w.stopped)
    act_if stopped (start_serving o)

  unfoldable pub run_begun : GraphBuild → Action (Unit {0})
  run_begun build = do catch (perform build) (on_failure build.id); clean_up

  abbrev pub run_row : Option GraphBuild → Option Jobs → Action (Unit {0})
  run_row (some build) (some jobs) = do
    modify (λ w. record w { jobs = jobs; stopped = false })
    run_begun build
  run_row _ _ = pure tt

  -- `run_build`, less the search index, which it refreshes at the end.
  unfoldable pub run_build : ℕ → Action (Unit {0})
  run_build id = do
    w ← gets (λ w. w)
    run_row (row_at build_key id w.jobs.builds) (begin_build w.now id w.jobs)

  abbrev pub serve_active : Option GraphBuild → Action (Unit {0})
  serve_active none = pure tt
  serve_active (some b) = do
    point_serving_at o (graph_of b)
    running ← server_running o
    act_if (not running) (start_server o)

  -- `ensure_serving`
  unfoldable pub ensure_serving : Action (Unit {0})
  ensure_serving = do
    busy ← gets (λ w. any (λ (b : GraphBuild). is_running b.status) w.jobs.builds)
    if busy
        then pure tt
        else (file_op o (λ w. w) >> gets (λ w. active_build w.jobs.builds) >>= serve_active)
