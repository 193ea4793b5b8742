-- ===== src/Builds/Graphs.antt =====
-- The street graph and the graph: `_ensure_street_graph` and `_build_graph` of planner/pipeline.py.
use otwarte_dane_transportow.Common.{
  ℕ, Bool, not, ◌||◌, Option, none, some, List, [], ◌∷◌, ◌++◌, if◌then◌else◌, ◌==◌, Text,
}
use otwarte_dane_transportow.Builds.Rows.{
  osm_missing, osm_preparation_failed, street_build_failed, graph_build_failed, GraphBuild,
}
use otwarte_dane_transportow.Builds.World.{
  snapshot, street, built_graph, osm_extract, Disk, write, RunResult, Outside, build_failed_with,
  Action, pure, raise, gets, ◌>>=◌, ◌>>◌, modify, raise_if, ask, file_op, exists, is_present,
}
use otwarte_dane_transportow.Builds.Candidates.{Candidate, has_digest}
use otwarte_dane_transportow.Builds.Trials.{run_container, build_error_code}

abbrev add : Option Text → List Text → List Text
add none files = files
add (some body) files = body ∷ files

-- The files whose stops give the area: those of the build, then the last good versions of the feeds
-- that are left out.
abbrev pub own_files : Disk → List Candidate → List Text
own_files disk [] = []
own_files disk (c ∷ cs) = add (elim c.path [ none ↦ none | some p ↦ disk p ]) (own_files disk cs)

abbrev left_out_file : Disk → Candidate → Option Text
left_out_file disk c = elim c.path [
  | some p ↦ none
  | none ↦ if has_digest c.feed.last_good_sha256 then disk (snapshot c.feed.feed_id) else none
]

abbrev pub left_out_files : Disk → List Candidate → List Text
left_out_files disk [] = []
left_out_files disk (c ∷ cs) = add (left_out_file disk c) (left_out_files disk cs)

-- One street graph is kept.
abbrev pub keep_street : ℕ → Option Text → Disk → Disk
keep_street key content disk p = elim p [
  | street k ↦ if k == key then content else none
  | q ↦ disk q
]

abbrev pub is_failed : RunResult → Option Text → Bool
is_failed r produced = not (r.exit_code == 0) || not (is_present produced)

module _ (o : Outside) where
  abbrev pub new_street_graph : GraphBuild → ℕ → Action ℕ
  new_street_graph build key = do
    file_op o (λ w. w)
    prepared ← ask o o.prepares_osm
    raise_if (not prepared) (build_failed_with osm_preparation_failed [])
    r ← run_container o build.id
    produced ← ask o o.writes_graph
    raise_if (is_failed r produced)
        (build_failed_with (build_error_code r street_build_failed) r.log_tail)
    file_op o (λ w. record w { disk = keep_street key produced w.disk })
    pure key

  abbrev pub street_graph_for : GraphBuild → List Candidate → Option Text → Action ℕ
  street_graph_for build candidates none = raise (build_failed_with osm_missing [])
  street_graph_for build candidates (some osm) = do
    file_op o (λ w. w)
    disk ← gets (λ w. w.disk)
    let key =
        o.street_key (own_files disk candidates ++ left_out_files disk candidates) osm
          build.otp_image
    there ← exists (street key)
    if there then pure key else new_street_graph build key

  -- `_ensure_street_graph`
  unfoldable pub ensure_street_graph : GraphBuild → List Candidate → Action ℕ
  ensure_street_graph build candidates = do
    osm ← gets (λ w. w.disk osm_extract)
    street_graph_for build candidates osm

  -- `_build_graph`
  unfoldable pub build_graph : GraphBuild → Action (Unit {0})
  build_graph build = do
    file_op o (λ w. w)
    r ← run_container o build.id
    produced ← ask o o.writes_graph
    modify (λ w. record w { disk = write built_graph produced w.disk })
    raise_if (is_failed r produced)
        (build_failed_with (build_error_code r graph_build_failed) r.log_tail)
