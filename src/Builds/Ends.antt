-- ===== src/Builds/Ends.antt =====
-- How `run_build` ends: the build's graph serves, or the one before does and the build has failed.
use otwarte_dane_transportow.Common.{
  ℕ, ◌≡◌, refl, ◌∙◌, Bool, true, false, Option, none, some, List, [], ◌⊎◌, inl, inr,
}
use otwarte_dane_transportow.Builds.Rows.{
  GraphBuild, queued, failed, ErrorCode, Jobs, row_at, update_row, build_key, is_queued,
}
use otwarte_dane_transportow.Builds.Queue.{
  graph_of, finish_failed, failed_row, begin_build, begun_row, mark_stopped,
}
use otwarte_dane_transportow.Builds.World.{
  link, up, down, PlannerState, Outside, Failure, Result, ok, err, Action, given, recovered, ◌>>=◌,
  act_if,
}
use otwarte_dane_transportow.Builds.Candidates.{Candidate}
use otwarte_dane_transportow.Builds.Serving.{stop_serving, start_serving, stopped_world}
use otwarte_dane_transportow.Builds.Activation.{activate}
use otwarte_dane_transportow.Builds.Pipeline.{
  make_graph, build_and_activate, roll_back, perform, perform_as, on_failure, clean_up, run_begun,
  run_build, clear_workdir, feed_ids, fresh_of, included_of, failure_code, failure_log,
}
use otwarte_dane_transportow.Builds.Safe.{IsKept, IsSafe, flags, flags-update_row}
use otwarte_dane_transportow.Builds.Built.{prepare_feeds-Keeps, make_graph-Keeps}
use otwarte_dane_transportow.Builds.Works.{
  IsWorking, pass, stop_server-works, start_serving-down, start_serving-up,
}
use otwarte_dane_transportow.Builds.Restored.{
  IsServed, ActionOutcome, bind_outcome, activate_outcome, is_known, is_known_by_flags, found_known,
  updated_found,
}

-- The build failed, and the world is as `before`: its graph serves.
pub record IsRestored (before : PlannerState) (p id : ℕ) (w : PlannerState) : Type 0 where
  pub row : (r : GraphBuild) × (row_at build_key id w.jobs.builds ≡ some r) × (r.status ≡ failed)
  pub kept : IsKept before w
  pub serving : w.serving ≡ link p
  pub server : w.server ≡ up (link p)

act_if-true : (b : Bool) (m : Action (Unit {0})) (w : PlannerState) → b ≡ true → act_if b m w ≡ m w
act_if-true true m w h = refl
act_if-true false m w h = cc

module _ (o : Outside) (works : IsWorking o) (before : PlannerState) (p : ℕ) where
  abbrev IsFront : PlannerState → Type 0
  IsFront = IsSafe before (link p) (up (link p)) false

  abbrev IsBack : PlannerState → Type 0
  IsBack = IsSafe before (link p) down true

  abbrev IsLost : PlannerState → Type 0
  IsLost w = IsFront w ⊎ IsBack w

  weaken :
      (Good : PlannerState → Type 0) (r : Result (Unit {0}) × PlannerState)
      → ActionOutcome Good IsBack r
      → ActionOutcome Good IsLost r
  weaken Good (ok _, w) v = v
  weaken Good (err _, w) v = inr v

  stop_serving-works :
      (id : ℕ) (w : PlannerState)
      → IsFront w
      → (t : PlannerState) × (stop_serving o id w ≡ (ok tt, t)) × IsBack t
  unfolding stop_serving mark_stopped
  stop_serving-works id w v =
      let t : PlannerState = record w { stopped = true; jobs = mark_stopped id w.now w.jobs } in
      (
        stopped_world (pass o t),
        rw (stop_server-works o works t),
        record {
          kept = record {
            feeds = v.kept.feeds;
            flags = flags-update_row id _ w.jobs.builds (λ b. refl) ∙ v.kept.flags;
            snapshots = v.kept.snapshots;
          };
          serving = v.serving;
          server = refl;
          stopped = refl;
        },
      )

  module _ (build : GraphBuild) (known : is_known build.id before.jobs.builds ≡ true) where
    abbrev Good : PlannerState → Type 0
    Good = IsServed build.id (graph_of build)

    made_outcome :
        (w : PlannerState) (cs : List Candidate)
        → IsBack w
        → ActionOutcome Good IsBack (
            (make_graph o build cs >>= λ candidates.
            activate o build (feed_ids candidates) (fresh_of candidates))
              w)
    made_outcome w cs v =
        bind_outcome IsBack Good IsBack (λ w v. v)
          (λ candidates. activate o build (feed_ids candidates) (fresh_of candidates))
          (make_graph-Keeps before (link p) down true o build cs)
          (λ candidates w v.
            activate_outcome o works before p build (feed_ids candidates) (fresh_of candidates) w
              known v)
          w v

    stopped_outcome :
        (w : PlannerState) (rest : Unit {0} → Action (Unit {0}))
        → ((t : PlannerState) → IsBack t → ActionOutcome Good IsBack (rest tt t))
        → IsFront w
        → ActionOutcome Good IsLost ((stop_serving o build.id >>= rest) w)
    stopped_outcome w rest h v =
        let (t, e, back) = stop_serving-works build.id w v in
        rw e (weaken Good (rest tt t) (h t back))

    perform_outcome : (w : PlannerState) → IsFront w → ActionOutcome Good IsLost (perform o build w)
    unfolding perform build_and_activate roll_back
    perform_outcome w v = by_target build.rollback_of
      where
        by_target : (target : Option ℕ) → ActionOutcome Good IsLost (perform_as o build target w)
        by_target none =
            bind_outcome IsFront Good IsLost (λ w v. inl v) _
              (prepare_feeds-Keeps before (link p) (up (link p)) false o build)
              (λ cs w v. stopped_outcome w _ (λ t back. made_outcome t cs back) v) w v
        by_target (some _) =
            stopped_outcome w _
              (λ t back.
                activate_outcome o works before p build (included_of build.feed_results) [] t known
                  back)
              v

  -- The graph of a build that has its server up stays up.
  when_up :
      (stopped : Bool) (w : PlannerState) (id g : ℕ)
      → IsServed id g w
      → IsServed id g (act_if stopped (start_serving o) w).1
  when_up false w id g v = v
  when_up true w id g v =
      rw (start_serving-up o works (link g) w v.server)
        (record { row = v.row; serving = v.serving; server = v.server })

  clean_up-IsServed :
      (id g : ℕ) (w : PlannerState) → IsServed id g w → IsServed id g (clean_up o w).1
  unfolding clean_up
  clean_up-IsServed id g w v =
      when_up w.stopped (record w { disk = clear_workdir w.disk }) id g
        (record { row = v.row; serving = v.serving; server = v.server })

  failed_found :
      (id : ℕ) (code : ErrorCode) (log : List ℕ) (w : PlannerState)
      → is_known id before.jobs.builds ≡ true
      → IsKept before w
      → (r : GraphBuild) × (row_at build_key id (finish_failed id code log w.now w.jobs).builds
          ≡ some r)
        × (r.status ≡ failed)
  unfolding finish_failed
  failed_found id code log w known v =
      let still = is_known_by_flags id w.jobs.builds before.jobs.builds v.flags ∙ known in
      let (b, found) =
        updated_found id (failed_row code log w.now) w.jobs.builds (λ b. refl) still in
      (failed_row code log w.now b, found, refl)

  failed_flags :
      (id : ℕ) (code : ErrorCode) (log : List ℕ) (now : ℕ) (jobs : Jobs)
      → flags (finish_failed id code log now jobs) ≡ flags jobs
  unfolding finish_failed
  failed_flags id code log now jobs = flags-update_row id _ jobs.builds (λ b. refl)

  restored :
      (id : ℕ) (e : Failure) (w : PlannerState)
      → is_known id before.jobs.builds ≡ true
      → IsLost w
      → IsRestored before p id (clean_up o (on_failure o id e w).1).1
  unfolding on_failure clean_up
  restored id e w known (inl v) =
      let jobs = finish_failed id (failure_code o e) (failure_log o e) w.now w.jobs in
      rw v.stopped (record {
        row = failed_found id (failure_code o e) (failure_log o e) w known v.kept;
        kept = record {
          feeds = v.kept.feeds;
          flags = failed_flags id (failure_code o e) (failure_log o e) w.now w.jobs ∙ v.kept.flags;
          snapshots = v.kept.snapshots;
        };
        serving = v.serving;
        server = v.server;
      })
  restored id e w known (inr v) =
      let jobs = finish_failed id (failure_code o e) (failure_log o e) w.now w.jobs in
      let u : PlannerState = record w { jobs = jobs; disk = clear_workdir w.disk } in
      rw
        (act_if-true w.stopped (start_serving o) u v.stopped, start_serving-down o works u v.server)
        (record {
          row = failed_found id (failure_code o e) (failure_log o e) w known v.kept;
          kept = record {
            feeds = v.kept.feeds;
            flags =
                failed_flags id (failure_code o e) (failure_log o e) w.now w.jobs ∙ v.kept.flags;
            snapshots = v.kept.snapshots;
          };
          serving = v.serving;
          server = rw v.serving;
        })

  abbrev Ended : (id g : ℕ) → PlannerState → Type 0
  Ended id g w = IsServed id g w ⊎ IsRestored before p id w

  -- The handler of an exception returns.
  handler_returns :
      (id : ℕ) (e : Failure) (w : PlannerState)
      → given (λ _. clean_up o) (on_failure o id e w) ≡ clean_up o (on_failure o id e w).1
  unfolding on_failure
  handler_returns id e w = refl

  caught :
      (id g : ℕ) (r : Result (Unit {0}) × PlannerState)
      → is_known id before.jobs.builds ≡ true
      → ActionOutcome (IsServed id g) IsLost r
      → Ended id g (given (λ _. clean_up o) (recovered (on_failure o id) r)).1
  caught id g (ok _, w) known v = inl (clean_up-IsServed id g w v)
  caught id g (err e, w) known v = rw (handler_returns id e w) (inr (restored id e w known v))

begun-IsSafe :
    (p now : ℕ) (b : GraphBuild) (w : PlannerState)
    → w.serving ≡ link p
    → w.server ≡ up (link p)
    → IsSafe w (link p) (up (link p)) false (record w {
      jobs = record w.jobs { builds = update_row build_key b.id (begun_row now) w.jobs.builds };
      stopped = false;
    })
begun-IsSafe p now b w h k = record {
  kept = record {
    feeds = refl;
    flags = flags-update_row b.id (begun_row now) w.jobs.builds (λ r. refl);
    snapshots = λ k. refl;
  };
  serving = h;
  server = k;
  stopped = refl;
}

-- Where no file operation fails and Docker does what it is asked: a queued build ends in one of two
-- ways, whatever its feeds, its containers and the server's answers are. It has succeeded, is marked
-- as served, and the link and the running server have its graph. Or it has failed, the link and the
-- running server have the graph of before, and no mark, last good version or snapshot has changed.
pub run_build_lem :
    (o : Outside) (b : GraphBuild) (p : ℕ) (w : PlannerState)
    → IsWorking o
    → row_at build_key b.id w.jobs.builds ≡ some b
    → b.status ≡ queued
    → w.serving ≡ link p
    → w.server ≡ up (link p)
    → IsServed b.id (graph_of b) (run_build o b.id w).1 ⊎ IsRestored w p b.id (run_build o b.id w).1
unfolding run_build run_begun begin_build
run_build_lem o b p w works found q h k =
    let waits : is_queued b.status ≡ true = rw q in
    let known = found_known b.id w.jobs.builds b found in
    let t : PlannerState = record w {
      jobs = record w.jobs { builds = update_row build_key b.id (begun_row w.now) w.jobs.builds };
      stopped = false;
    } in
    rw (found, waits)
      (caught o works w p b.id (graph_of b) (perform o b t) known
        (perform_outcome o works w p b known t (begun-IsSafe p w.now b w h k)))
