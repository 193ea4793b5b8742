-- ===== src/Builds/Serving.antt =====
-- The serving OTP: `_stop_serving`, `_start_serving`, `_point_serving_at`, `_wait_until_healthy` and
-- `_serves_feeds` of planner/pipeline.py, with the Docker calls of planner/otp_runtime.py.
use otwarte_dane_transportow.Common.{
  ℕ, zero, suc, ◌+◌, ◌*◌, Bool, true, false, not, Option, none, some, List, [], if◌then◌else◌, leb,
  all, contains,
}
use otwarte_dane_transportow.Builds.Rows.{docker_unavailable}
use otwarte_dane_transportow.Builds.Queue.{heartbeat, mark_stopped}
use otwarte_dane_transportow.Builds.World.{
  Serving, absent, directory, link, Server, down, up, PlannerState, Answer, done, refused, lost,
  Outside, build_failed_with, other, Action, pure, raise, gets, catch, ◌>>=◌, ◌>>◌, modify,
  raise_if, act_if, ask, file_op, database,
}

abbrev pub server_start_timeout_seconds : ℕ
server_start_timeout_seconds = 20 * 60

abbrev pub server_poll_seconds : ℕ
server_poll_seconds = 10

abbrev pub is_up : Server → Bool
is_up down = false
is_up (up _) = true

-- A container that runs already is left as it is.
abbrev pub server_started : Serving → Server → Server
server_started serving down = up serving
server_started serving (up s) = up s

abbrev pub docker_answered : (PlannerState → PlannerState) → Answer → Action (Unit {0})
docker_answered f done = modify f
docker_answered f refused = raise other
docker_answered f lost = modify f >> raise other

abbrev pub stopped_world : PlannerState → PlannerState
stopped_world w = record w { server = down }

abbrev pub started_world : PlannerState → PlannerState
started_world w = record w { server = server_started w.serving w.server }

-- The graph that `serving` stands for, which `os.readlink` reads.
abbrev pub target_of : Serving → Option ℕ
target_of absent = none
target_of directory = none
target_of (link g) = some g

abbrev pub is_directory : Serving → Bool
is_directory absent = false
is_directory directory = true
is_directory (link _) = false

-- More than the timeout has polls.
abbrev pub enough_rounds : ℕ
enough_rounds = 121

abbrev pub known : Option Bool → Bool
known none = false
known (some healthy) = healthy

abbrev pub serves_all : List ℕ → Option (List ℕ) → Bool
serves_all feed_ids none = false
serves_all feed_ids (some served) = all (λ f. contains f served) feed_ids

module _ (o : Outside) where
  unfoldable pub stop_server : Action (Unit {0})
  stop_server = do a ← ask o o.stop; docker_answered stopped_world a

  unfoldable pub start_server : Action (Unit {0})
  start_server = do a ← ask o o.start; docker_answered started_world a

  unfoldable pub server_running : Action Bool
  server_running = do
    seen ← ask o o.sees_server
    raise_if (not seen) other
    gets (λ w. is_up w.server)

  -- `_stop_serving`
  unfoldable pub stop_serving : ℕ → Action (Unit {0})
  stop_serving id = do
    modify (λ w. record w { stopped = true })
    database o (mark_stopped id)
    catch stop_server (λ e. raise (build_failed_with docker_unavailable []))

  -- `_start_serving`
  unfoldable pub start_serving : Action (Unit {0})
  start_serving =
      catch (server_running >>= λ running. act_if (not running) start_server) (λ e. pure tt)

  -- `_point_serving_at`: the link is replaced at once.
  unfoldable pub point_serving_at : ℕ → Action (Unit {0})
  point_serving_at g = do
    serving ← gets (λ w. w.serving)
    act_if (is_directory serving) (file_op o (λ w. record w { serving = absent }))
    file_op o (λ w. record w { serving = link g })

  -- The rounds of the loop of `_wait_until_healthy`: `none` where they were not enough.
  unfoldable pub wait_rounds : ℕ → ℕ → ℕ → Action (Option Bool)
  wait_rounds zero id deadline = pure none
  wait_rounds (suc n) id deadline = do
    healthy ← ask o o.is_healthy
    late ← gets (λ w. leb deadline w.now)
    let rest = do
      database o (heartbeat id)
      modify (λ w. record w { now = w.now + server_poll_seconds })
      wait_rounds n id deadline
    if healthy then pure (some true) else if late then pure (some false) else rest

  -- `_wait_until_healthy`
  unfoldable pub wait_until_healthy : ℕ → Action Bool
  wait_until_healthy id = do
    now ← gets (λ w. w.now)
    healthy ← wait_rounds enough_rounds id (now + server_start_timeout_seconds)
    pure (known healthy)

  -- `_serves_feeds`
  unfoldable pub serves_feeds : List ℕ → Action Bool
  serves_feeds feed_ids = do served ← ask o o.served_feeds; pure (serves_all feed_ids served)
