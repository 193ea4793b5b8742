-- ===== src/Builds/Activation.antt =====
-- A graph goes into service: `_activate`, `_stage_snapshot` and `_remove_unused_graphs` of
-- planner/pipeline.py.
use otwarte_dane_transportow.Common.{
  ℕ, Bool, true, false, not, ◌&&◌, ◌||◌, Option, none, some, List, [], ◌∷◌, map, if◌then◌else◌,
  ◌==◌, Text,
}
use otwarte_dane_transportow.Builds.Rows.{
  GraphBuild, graph_missing, activation_failed, is_succeeded,
}
use otwarte_dane_transportow.Builds.Queue.{graph_of, finish_succeeded}
use otwarte_dane_transportow.Builds.World.{
  PlannerFeed, FilePath, snapshot, staged, graph, otp_config, router_config, Disk, write, absent,
  PlannerState, Outside, build_failed_with, Action, pure, raise, gets, ◌>>=◌, ◌>>◌, modify,
  raise_if, file_op, write_file, exists,
}
use otwarte_dane_transportow.Builds.Candidates.{Candidate}
use otwarte_dane_transportow.Builds.Trials.{same_digest}
use otwarte_dane_transportow.Builds.Serving.{
  stop_server, start_server, point_serving_at, wait_until_healthy, serves_feeds, target_of,
}

abbrev pub content_of : Disk → Option FilePath → Option Text
content_of disk none = none
content_of disk (some p) = disk p

-- The rows after the updates of `last_good_sha256`.
abbrev pub good_row : Candidate → ℕ → PlannerFeed → PlannerFeed
good_row c now f =
    if f.id == c.feed.id
    then record f { last_good_sha256 = c.sha256; last_good_at = some now }
    else f

abbrev pub mark_good : ℕ → List Candidate → List PlannerFeed → List PlannerFeed
mark_good now [] feeds = feeds
mark_good now (c ∷ cs) feeds = mark_good now cs (map (good_row c now) feeds)

-- `filter(status=SUCCEEDED, rollback_of__isnull=True).exclude(is_active=True).first()`
abbrev pub is_previous : GraphBuild → Bool
is_previous b =
    is_succeeded b.status && not b.is_active && elim b.rollback_of [ none ↦ true | some _ ↦ false ]

abbrev pub previous_graph : List GraphBuild → Option ℕ
previous_graph [] = none
previous_graph (b ∷ bs) = if is_previous b then some (graph_of b) else previous_graph bs

abbrev pub is_kept : ℕ → Option ℕ → ℕ → Bool
is_kept current none g = g == current
is_kept current (some previous) g = (g == current) || (g == previous)

abbrev pub keep_graphs : (ℕ → Bool) → Disk → Disk
keep_graphs kept disk p = elim p [
  | graph g ↦ if kept g then disk (graph g) else none
  | otp_config g ↦ if kept g then disk (otp_config g) else none
  | router_config g ↦ if kept g then disk (router_config g) else none
  | q ↦ disk q
]

module _ (o : Outside) where
  -- A source that is missing is one of the file errors.
  abbrev pub link_staged : Candidate → Action (Option ℕ)
  link_staged c = do
    content ← gets (λ w. content_of w.disk c.path)
    write_file o (staged c.feed.feed_id) content
    pure (some c.feed.feed_id)

  -- `_stage_snapshot`: the feed whose new version is staged.
  unfoldable pub stage_snapshot : Candidate → Action (Option ℕ)
  stage_snapshot c = do
    there ← exists (snapshot c.feed.feed_id)
    if same_digest c.sha256 c.feed.last_good_sha256 && there then pure none else link_staged c

  abbrev pub add_staged : Option ℕ → List ℕ → List ℕ
  add_staged none rest = rest
  add_staged (some f) rest = f ∷ rest

  unfoldable pub stage_each : List Candidate → Action (List ℕ)
  stage_each [] = pure []
  stage_each (c ∷ cs) = do f ← stage_snapshot c; rest ← stage_each cs; pure (add_staged f rest)

  abbrev pub rename_staged : ℕ → PlannerState → PlannerState
  rename_staged f w = record w {
    disk = write (staged f) none (write (snapshot f) (w.disk (staged f)) w.disk);
  }

  unfoldable pub rename_each : List ℕ → Action (Unit {0})
  rename_each [] = pure tt
  rename_each (f ∷ fs) = do file_op o (rename_staged f); rename_each fs

  -- `_remove_unused_graphs`
  unfoldable pub remove_unused_graphs : ℕ → Action (Unit {0})
  remove_unused_graphs current =
      file_op o (λ w. record w {
        disk = keep_graphs (is_kept current (previous_graph w.jobs.builds)) w.disk;
      })

  -- Back to the previous graph, or to none.
  abbrev pub restore : Option ℕ → Action (Unit {0})
  restore (some previous) = point_serving_at o previous
  restore none = file_op o (λ w. record w { serving = absent })

  abbrev pub give_up : Option ℕ → Action (Unit {0})
  give_up previous = do
    stop_server o
    restore previous
    raise (build_failed_with activation_failed [])

  -- The transaction.
  unfoldable pub commit_build : ℕ → List Candidate → PlannerState → PlannerState
  commit_build id fresh w = record w {
    jobs = finish_succeeded id w.now w.jobs;
    feeds = mark_good w.now fresh w.feeds;
  }

  unfoldable pub commit_all : ℕ → ℕ → List Candidate → Action (Unit {0})
  commit_all id target fresh = do
    names ← stage_each fresh
    modify (commit_build id fresh)
    rename_each names
    remove_unused_graphs target

  -- The feeds are asked for only if the server is healthy.
  unfoldable pub is_serving : ℕ → List ℕ → Action Bool
  is_serving id included = do
    healthy ← wait_until_healthy o id
    if healthy then serves_feeds o included else pure false

  -- `_activate`
  unfoldable pub activate : GraphBuild → List ℕ → List Candidate → Action (Unit {0})
  activate build included fresh = do
    there ← exists (graph (graph_of build))
    raise_if (not there) (build_failed_with graph_missing [])
    previous ← gets (λ w. target_of w.serving)
    point_serving_at o (graph_of build)
    start_server o
    serving ← is_serving build.id included
    if serving then commit_all build.id (graph_of build) fresh else give_up previous
