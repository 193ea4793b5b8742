-- ===== src/Builds/Recovery.antt =====
-- After an activation that Docker broke off, and after a worker that is gone: `_activate` and
-- `ensure_serving` of planner/pipeline.py.
use otwarte_dane_transportow.Common.{ℕ, ◌≡◌, refl, Bool, true, false, not, some, List, any}
use otwarte_dane_transportow.Builds.Rows.{GraphBuild, is_running}
use otwarte_dane_transportow.Builds.Queue.{graph_of}
use otwarte_dane_transportow.Builds.Watch.{active_build}
use otwarte_dane_transportow.Builds.World.{
  graph, Serving, link, Server, up, down, PlannerState, refused, Outside, other, err, act_if,
  is_present,
}
use otwarte_dane_transportow.Builds.Candidates.{Candidate}
use otwarte_dane_transportow.Builds.Serving.{
  point_serving_at, start_server, server_started, is_directory, is_up,
}
use otwarte_dane_transportow.Builds.Activation.{activate}
use otwarte_dane_transportow.Builds.Pipeline.{ensure_serving}
use otwarte_dane_transportow.Builds.Safe.{IsKept}
use otwarte_dane_transportow.Builds.Works.{
  IsWorking, pass, file_op-works, start_server-works, server_running-works, point_serving_at-works,
}

-- Where Docker refuses to start the server, an activation raises, the marks, the last good versions
-- and the snapshots stay, but the link is left on the new graph.
pub activate-leaves_link :
    (o : Outside) (build : GraphBuild) (included : List ℕ) (fresh : List Candidate) (k : ℕ)
    (w : PlannerState)
    → ((n : ℕ) → o.file_error n ≡ false)
    → ((n : ℕ) → o.start n ≡ refused)
    → is_present (w.disk (graph (graph_of build))) ≡ true
    → w.serving ≡ link k
    → ((activate o build included fresh w).0 ≡ err other)
      × ((activate o build included fresh w).1.serving ≡ link (graph_of build))
      × IsKept w (activate o build included fresh w).1
unfolding activate point_serving_at start_server
activate-leaves_link o build included fresh k w files starts there h =
    let file : is_directory w.serving ≡ false = rw h in
    rw (there, file, files w.tick, starts (pass o w).tick)
      (refl, refl, record { feeds = refl; flags = refl; snapshots = λ k. refl })

kept_up : (s : Serving) (x : Server) → true ≡ is_up x → x ≡ server_started s x
kept_up s down h = cc
kept_up s (up t) h = refl

serve_when :
    (o : Outside) (works : IsWorking o) (running : Bool) (w : PlannerState)
    → running ≡ is_up w.server
    → ((act_if (not running) (start_server o) w).1.serving ≡ w.serving)
      × ((act_if (not running) (start_server o) w).1.server ≡ server_started w.serving w.server)
serve_when o works true w h = (refl, kept_up w.serving w.server h)
serve_when o works false w h = rw (start_server-works o works w) (refl, refl)

-- While no build runs, the periodic task puts the link on the graph of the build that is marked as
-- served, and starts the server on it if it is down.
pub ensure_serving_lem :
    (o : Outside) (b : GraphBuild) (k : ℕ) (w : PlannerState)
    → IsWorking o
    → any (λ (r : GraphBuild). is_running r.status) w.jobs.builds ≡ false
    → active_build w.jobs.builds ≡ some b
    → w.serving ≡ link k
    → ((ensure_serving o w).1.serving ≡ link (graph_of b))
      × ((ensure_serving o w).1.server ≡ server_started (link (graph_of b)) w.server)
unfolding ensure_serving
ensure_serving_lem o b k w works quiet found h =
    let t : PlannerState = record (pass o (pass o w)) { serving = link (graph_of b) } in
    rw
      (
        quiet,
        file_op-works o works (λ w. w) w,
        found,
        point_serving_at-works o works (graph_of b) k (pass o w) h,
        server_running-works o works t,
      )
      (serve_when o works (is_up w.server) (pass o t) refl)
