-- ===== src/Builds/Built.antt =====
-- Testing the feeds of a build and building its graph leave the previous graph as it is.
use otwarte_dane_transportow.Common.{ℕ, refl, ◌==◌, Bool, Option, none, some, List, [], ◌∷◌, Text}
use otwarte_dane_transportow.Builds.Rows.{
  FeedOutcome, fresh, stale, excluded, GraphBuild, RentalResult,
}
use otwarte_dane_transportow.Builds.Queue.{record_rental}
use otwarte_dane_transportow.Builds.World.{
  Serving, Server, graph, otp_config, router_config, built_graph, write, PlannerState, RunResult,
  Ran, ran, docker_gone, crashed, Outside, Action, modify, file_op, database,
}
use otwarte_dane_transportow.Builds.Candidates.{Candidate}
use otwarte_dane_transportow.Builds.Trials.{
  run_container, run_ended, on_invalid, trial, test_one, test_each, test_changed_feeds,
}
use otwarte_dane_transportow.Builds.Graphs.{
  keep_street, new_street_graph, street_graph_for, ensure_street_graph, build_graph,
}
use otwarte_dane_transportow.Builds.Pipeline.{install, prepare_feeds, make_graph}
use otwarte_dane_transportow.Builds.Frame.{
  Keeps, pure-Keeps, raise-Keeps, gets-Keeps, bind-Keeps, catch-Keeps, raise_if-Keeps, act_if-Keeps,
  modify-Keeps, if-Keeps,
}
use otwarte_dane_transportow.Builds.Safe.{
  IsSafe, disk-IsSafe, asked, saved, filed, touched, beat, flags-update_row,
}
use otwarte_dane_transportow.Builds.Collected.{
  exclude_feed-Keeps, fall_back-Keeps, collect_candidates-Keeps, save_results-Keeps,
}

ruleset steps = (
  pure-Keeps, raise-Keeps, gets-Keeps, bind-Keeps, catch-Keeps, raise_if-Keeps, act_if-Keeps,
  if-Keeps,
)

module _ (before : PlannerState) (serving : Serving) (server : Server) (stopped : Bool)
    (o : Outside) where
  abbrev Safe : {A : Type 0} → Action A → Type 0
  Safe m = Keeps (IsSafe before serving server stopped) m

  run_ended-Keeps : (r : Ran) → Safe (run_ended o r)
  run_ended-Keeps (ran r) = search (steps)
  run_ended-Keeps (docker_gone log) = search (steps)
  run_ended-Keeps crashed = search (steps)

  run_container-Keeps : (id : ℕ) → Safe (run_container o id)
  unfolding run_container
  run_container-Keeps id = search (
    steps,
    asked before serving server stopped o,
    beat before serving server stopped o,
    run_ended-Keeps,
  )

  on_invalid-Keeps : (c : Candidate) (r : RunResult) → Safe (on_invalid o c r)
  on_invalid-Keeps c r = by_outcome c.outcome
    where
      by_outcome : (outcome : FeedOutcome) → Safe (on_invalid o (record c { outcome = outcome }) r)
      by_outcome stale =
          exclude_feed-Keeps before serving server stopped o c.feed c.feed.feed_id _ _
      by_outcome fresh = fall_back-Keeps before serving server stopped o c.feed c.feed.feed_id _ _
      by_outcome excluded =
          fall_back-Keeps before serving server stopped o c.feed c.feed.feed_id _ _

  trial-Keeps : (id : ℕ) (c : Candidate) → Safe (trial o id c)
  trial-Keeps id c = bind-Keeps (touched before serving server stopped o) (λ _.
      bind-Keeps (run_container-Keeps id) (λ r.
        bind-Keeps (beat before serving server stopped o id)
          (λ _. if-Keeps (r.exit_code == 0) (pure-Keeps c) (on_invalid-Keeps c r))))

  test_one-Keeps : (id : ℕ) (changed : Bool) (c : Candidate) → Safe (test_one o id changed c)
  unfolding test_one
  test_one-Keeps id changed c = if-Keeps _ (pure-Keeps c) (trial-Keeps id c)

  test_each-Keeps :
      (id : ℕ) (changed : Bool) (cs : List Candidate) → Safe (test_each o id changed cs)
  unfolding test_each
  test_each-Keeps id changed [] = pure-Keeps []
  test_each-Keeps id changed (c ∷ cs) =
      bind-Keeps (test_one-Keeps id changed c)
        (λ d. bind-Keeps (test_each-Keeps id changed cs) (λ ds. pure-Keeps (d ∷ ds)))

  test_changed_feeds-Keeps :
      (build : GraphBuild) (cs : List Candidate) → Safe (test_changed_feeds o build cs)
  unfolding test_changed_feeds
  test_changed_feeds-Keeps build cs = search (steps, test_each-Keeps)

  street_kept :
      (key : ℕ) (produced : Option Text)
      → Safe (file_op o (λ w. record w { disk = keep_street key produced w.disk }))
  street_kept key produced =
      filed before serving server stopped o (keep_street key produced) (λ disk k. refl)

  graph_written :
      (produced : Option Text)
      → Safe (modify (λ w. record w { disk = write built_graph produced w.disk }))
  graph_written produced =
      modify-Keeps _ (λ w v. disk-IsSafe before serving server stopped _ w (λ k. refl) v)

  new_street_graph-Keeps : (build : GraphBuild) (key : ℕ) → Safe (new_street_graph o build key)
  new_street_graph-Keeps build key = bind-Keeps (touched before serving server stopped o) (λ _.
      search (steps, asked before serving server stopped o, run_container-Keeps, street_kept) depth
        20)

  street_graph_for-Keeps :
      (build : GraphBuild) (cs : List Candidate) (osm : Option Text)
      → Safe (street_graph_for o build cs osm)
  street_graph_for-Keeps build cs none = search (steps)
  street_graph_for-Keeps build cs (some osm) =
      bind-Keeps (touched before serving server stopped o)
        (λ _. search (steps, new_street_graph-Keeps) depth 20)

  ensure_street_graph-Keeps :
      (build : GraphBuild) (cs : List Candidate) → Safe (ensure_street_graph o build cs)
  unfolding ensure_street_graph
  ensure_street_graph-Keeps build cs = bind-Keeps (gets-Keeps _) (street_graph_for-Keeps build cs)

  build_graph-Keeps : (build : GraphBuild) → Safe (build_graph o build)
  unfolding build_graph
  build_graph-Keeps build = bind-Keeps (touched before serving server stopped o) (λ _.
      search (steps, asked before serving server stopped o, run_container-Keeps, graph_written)
        depth 20)

  install-Keeps : (k : ℕ) → Safe (install o k)
  unfolding install
  install-Keeps k =
      bind-Keeps
        (filed before serving server stopped o
          (λ disk. write built_graph none (write (graph k) (disk built_graph) disk))
          (λ disk j. refl))
        (λ _. bind-Keeps (asked before serving server stopped o o.config) (λ otp.
          bind-Keeps
            (filed before serving server stopped o (write (otp_config k) (some otp))
              (λ disk j. refl))
            (λ _. bind-Keeps (asked before serving server stopped o o.config) (λ router.
              filed before serving server stopped o (write (router_config k) (some router))
                (λ disk j. refl)))))

  rented :
      (id : ℕ) (results : List RentalResult) → Safe (database o (λ _. record_rental id results))
  unfolding record_rental
  rented id results =
      saved before serving server stopped o (λ _. record_rental id results)
        (λ now jobs. flags-update_row id _ jobs.builds (λ b. refl))

  pub prepare_feeds-Keeps : (build : GraphBuild) → Safe (prepare_feeds o build)
  unfolding prepare_feeds
  prepare_feeds-Keeps build = bind-Keeps (touched before serving server stopped o) (λ _.
      bind-Keeps (collect_candidates-Keeps before serving server stopped o build.id) (λ cs.
        bind-Keeps (save_results-Keeps before serving server stopped o build.id cs)
          (λ _. bind-Keeps (raise_if-Keeps _ _) (λ _. pure-Keeps cs))))

  pub make_graph-Keeps : (build : GraphBuild) (cs : List Candidate) → Safe (make_graph o build cs)
  unfolding make_graph
  make_graph-Keeps build cs =
      search
        (
          steps,
          test_changed_feeds-Keeps,
          ensure_street_graph-Keeps,
          build_graph-Keeps,
          rented,
          install-Keeps,
          save_results-Keeps before serving server stopped o,
          asked before serving server stopped o,
        )
        depth 30
