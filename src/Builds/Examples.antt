-- ===== src/Builds/Examples.antt =====
-- Builds that run, and the theorems at them.
use otwarte_dane_transportow.Common.{
  ◌≡◌, refl, true, false, none, some, [], ◌∷◌, ◌⊎◌, arith, length,
}
use otwarte_dane_transportow.Builds.Rows.{
  succeeded, manual, schedule, GraphBuild, Jobs, run_graph_build,
}
use otwarte_dane_transportow.Builds.Queue.{
  ok, refused, build_in_progress, new_build, create_build, request_build, begin_build, begun_row,
}
use otwarte_dane_transportow.Builds.Watch.{watchdog}
use otwarte_dane_transportow.Builds.Steps.{Run, here, next, requested, began}
use otwarte_dane_transportow.Builds.Exclusion.{IsExclusive}
use otwarte_dane_transportow.Builds.Exclusive.{Run-IsExclusive}
use otwarte_dane_transportow.Builds.Unblocked.{no_jobs, watchdog-unblocks}
use otwarte_dane_transportow.Builds.World.{
  keep_last_good, PlannerFeed, graph, osm_extract, Disk, link, up, down, PlannerState, done,
  refused, ran, whole, Outside, other, err,
}
use otwarte_dane_transportow.Builds.Serving.{wait_rounds, enough_rounds}
use otwarte_dane_transportow.Builds.Safe.{IsKept}
use otwarte_dane_transportow.Builds.Works.{IsWorking}
use otwarte_dane_transportow.Builds.Restored.{IsServed}
use otwarte_dane_transportow.Builds.Ends.{IsRestored, run_build_lem}
use otwarte_dane_transportow.Builds.Rounds.{Ends, wait_rounds-Ends}
use otwarte_dane_transportow.Builds.Gives.{Holds}
use otwarte_dane_transportow.Builds.Included.{
  AreSound, enabled, choose_feeds, choose_feeds-AreSound,
}
use otwarte_dane_transportow.Builds.Recovery.{activate-leaves_link}
use otwarte_dane_transportow.Builds.Activation.{activate}
use otwarte_dane_transportow.Builds.Pipeline.{run_build}
use otwarte_dane_transportow.Builds.Pipeline.{
  run_begun, perform, build_and_activate, prepare_feeds, make_graph, clean_up, install, on_failure,
}
use otwarte_dane_transportow.Builds.Candidates.{
  collect_candidates, collect_each, collect_one, fetch_feed, copy_attempt, save_results,
}
use otwarte_dane_transportow.Builds.Serving.{
  stop_serving, stop_server, point_serving_at, serves_feeds, start_server, start_serving,
  server_running, wait_until_healthy,
}
use otwarte_dane_transportow.Builds.Trials.{test_changed_feeds, test_each, test_one, run_container}
use otwarte_dane_transportow.Builds.Activation.{
  commit_build, commit_all, remove_unused_graphs, rename_each, stage_each, stage_snapshot,
  is_serving,
}
use otwarte_dane_transportow.Builds.Graphs.{build_graph, ensure_street_graph}
use otwarte_dane_transportow.Builds.Queue.{
  heartbeat, mark_stopped, record_rental, record_results, finish_succeeded,
}

-- Everything outside works; each container writes a graph, and each answer comes in a second.
abbrev calm : Outside
calm = record {
  delay = λ n. 1;
  file_error = λ n. false;
  published = λ s. true;
  refreshed = λ n s. none;
  read_file = λ n. whole (7 ∷ []);
  download = λ n. whole (8 ∷ []);
  is_zip = λ body. true;
  digest = λ body. length body;
  run_otp = λ n. ran (record { exit_code = 0; oom = false; log_tail = [] });
  writes_graph = λ n. some (9 ∷ []);
  ticked = λ n. true;
  stop = λ n. done;
  start = λ n. done;
  sees_server = λ n. true;
  is_healthy = λ n. true;
  served_feeds = λ n. some (3 ∷ []);
  street_key = λ files osm image. 1;
  prepares_osm = λ n. true;
  polled = λ n f. [];
  skipped = λ n f. [];
  rental = λ n. [];
  config = λ n. [];
}

abbrev calm-IsWorking : IsWorking calm
calm-IsWorking = record {
  files = λ n. refl;
  stops = λ n. refl;
  starts = λ n. refl;
  sees = λ n. refl;
}

-- The build that is served, and one that waits.
abbrev old_build : GraphBuild
old_build = record (new_build manual none [] 10) { id = 1; status = succeeded; is_active = true }

abbrev new_one : GraphBuild
new_one = record (new_build manual none [] 20) { id = 2 }

abbrev feed : PlannerFeed
feed = record {
  id = 5;
  submission = 6;
  feed_id = 3;
  is_enabled = true;
  include_realtime = false;
  failure_policy = keep_last_good;
  last_good_sha256 = none;
  last_good_at = none;
  entry =
      some (record { has_file = true; has_url = false; cached_at = some 4; uploaded_at = none });
}

abbrev files : Disk
files p = elim p [ osm_extract ↦ some (1 ∷ []) | graph k ↦ some (2 ∷ []) | q ↦ none ]

abbrev city : PlannerState
city = record {
  tick = 0;
  now = 100;
  jobs = record {
    builds = new_one ∷ (old_build ∷ []);
    next_build = 3;
    downloads = [];
    next_download = 1;
    messages = [];
  };
  feeds = feed ∷ [];
  disk = files;
  serving = link 1;
  server = up (link 1);
  stopped = false;
}

run_build_lem_example :
    IsServed 2 2 (run_build calm 2 city).1 ⊎ IsRestored city 1 2 (run_build calm 2 city).1
run_build_lem_example = run_build_lem calm new_one 1 city calm-IsWorking refl refl refl refl

-- It is the first way.
city_served : (run_build calm 2 city).1.serving ≡ link 2
unfolding run_build begin_build activate wait_rounds run_begun perform build_and_activate
    prepare_feeds make_graph clean_up install on_failure collect_candidates collect_each collect_one
    fetch_feed copy_attempt save_results stop_serving stop_server point_serving_at serves_feeds
    start_server start_serving server_running wait_until_healthy test_changed_feeds test_each
    test_one run_container commit_build commit_all remove_unused_graphs rename_each stage_each
    stage_snapshot is_serving build_graph ensure_street_graph heartbeat mark_stopped record_rental
    record_results finish_succeeded
city_served = refl

choose_feeds-AreSound_example :
    Holds (AreSound calm (enabled (feed ∷ []))) (choose_feeds calm new_one city)
choose_feeds-AreSound_example = choose_feeds-AreSound calm new_one city

-- A server that never answers.
abbrev silent : Outside
silent = record calm { is_healthy = λ n. false; start = λ n. refused }

wait_rounds-Ends_example : Ends 1300 (wait_rounds silent enough_rounds 2 1300 city)
wait_rounds-Ends_example = wait_rounds-Ends silent 2 city

activate-leaves_link_example :
    ((activate silent new_one [] [] city).0 ≡ err other)
    × ((activate silent new_one [] [] city).1.serving ≡ link 2)
    × IsKept city (activate silent new_one [] [] city).1
activate-leaves_link_example =
    activate-leaves_link silent new_one [] [] 1 city (λ n. refl) (λ n. refl) refl refl

abbrev dark : PlannerState
dark = record city { server = down; serving = link 2 }

-- A build is requested, and its worker begins and is not heard of again.
abbrev waiting : Jobs
waiting = record no_jobs {
  builds = record (new_build schedule none [] 50) { id = 1 } ∷ [];
  next_build = 2;
  messages = run_graph_build 1 ∷ [];
}

abbrev in_progress : Jobs
in_progress = record waiting {
  builds = begun_row 60 (record (new_build schedule none [] 50) { id = 1 }) ∷ [];
}

begun-Run : Run no_jobs in_progress
unfolding request_build create_build begin_build
begun-Run =
    next (next here (requested schedule none [] 50 no_jobs waiting refl))
      (began 60 1 waiting in_progress refl)

Run-IsExclusive_example : IsExclusive in_progress
Run-IsExclusive_example =
    Run-IsExclusive
      (record { one_job = omega arith; one_served = omega arith; keys = tt; download_keys = tt })
      begun-Run

watchdog-unblocks_example :
    request_build manual none [] 961 (watchdog false 961 in_progress)
    ≡ ok (create_build (new_build manual none [] 961) (watchdog false 961 in_progress))
watchdog-unblocks_example =
    watchdog-unblocks manual none [] false 961 begun-Run (omega arith, tt) tt

-- Before that, the next request is refused.
in_progress_refused : request_build manual none [] 961 in_progress ≡ refused build_in_progress
unfolding request_build
in_progress_refused = refl
