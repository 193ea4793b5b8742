-- ===== src/Builds/World.antt =====
-- What a graph build works on: the tables, the files under PLANNER_DATA_DIR and the OTP server. The
-- clock, Docker, downloads and file errors are parameters.
use otwarte_dane_transportow.Common.{
  ℕ, suc, ◌+◌, Bool, true, false, Option, none, some, List, if◌then◌else◌, ◌==◌, Text,
}
use otwarte_dane_transportow.Builds.Rows.{ErrorCode, Skipped, RentalResult, Jobs}

pub data Policy : Type 0 where
  keep_last_good exclude : Policy

-- The part of `StaticFeedEntry` that a build reads.
pub record StaticSource : Type 0 where
  pub has_file : Bool
  pub has_url : Bool
  pub cached_at : Option ℕ
  pub uploaded_at : Option ℕ

-- A row of `PlannerFeed` with the static entry of its submission. Digests are numbers, and the empty
-- one is `none`.
pub record PlannerFeed : Type 0 where
  pub id : ℕ
  pub submission : ℕ
  pub feed_id : ℕ
  pub is_enabled : Bool
  pub include_realtime : Bool
  pub failure_policy : Policy
  pub last_good_sha256 : Option ℕ
  pub last_good_at : Option ℕ
  pub entry : Option StaticSource

-- Files by what they are for: a feed's snapshot and its staged copy, a feed and the graph in the
-- build's work directory, the graphs and their configurations, the OSM extract, a street graph.
pub data FilePath : Type 0 where
  snapshot staged feed_copy graph otp_config router_config street : ℕ → FilePath
  built_graph osm_extract : FilePath

abbrev pub path_eq : FilePath → FilePath → Bool
path_eq (snapshot a) (snapshot b) = a == b
path_eq (staged a) (staged b) = a == b
path_eq (feed_copy a) (feed_copy b) = a == b
path_eq (graph a) (graph b) = a == b
path_eq (otp_config a) (otp_config b) = a == b
path_eq (router_config a) (router_config b) = a == b
path_eq (street a) (street b) = a == b
path_eq built_graph built_graph = true
path_eq osm_extract osm_extract = true
path_eq _ _ = false

abbrev pub Disk : Type 0
Disk = FilePath → Option Text

abbrev pub write : FilePath → Option Text → Disk → Disk
write p content d q = if path_eq q p then content else d q

-- `serving`: missing, a directory made by Docker, or a link to a graph.
pub data Serving : Type 0 where
  absent directory : Serving
  link : ℕ → Serving

-- The OTP container, with the graph that `serving` stood for when it started.
pub data Server : Type 0 where
  down : Server
  up : Serving → Server

-- `stopped` is whether the build's object has its `otp_stopped_at`.
pub record PlannerState : Type 0 where
  pub tick : ℕ
  pub now : ℕ
  pub jobs : Jobs
  pub feeds : List PlannerFeed
  pub disk : Disk
  pub serving : Serving
  pub server : Server
  pub stopped : Bool

-- A call of Docker took effect and returned, raised with no effect, or raised after its effect.
pub data Answer : Type 0 where
  done refused lost : Answer

-- A container that ran: its exit code, whether memory ran out, and the end of its log.
pub record RunResult : Type 0 where
  pub exit_code : ℕ
  pub oom : Bool
  pub log_tail : Text

-- A copy or a download: the whole body, or an error and what it left at the target, if it got there.
pub data Read : Type 0 where
  whole : Text → Read
  broken : Option Text → Read

-- How `run_otp` ends: with a result, `DockerUnavailable`, or another exception.
pub data Ran : Type 0 where
  ran : RunResult → Ran
  docker_gone : Text → Ran
  crashed : Ran

-- What the code meets outside, by the number of the call. `delay` is the time that passes.
pub record Outside : Type 0 where
  pub delay : ℕ → ℕ
  pub file_error : ℕ → Bool
  pub published : ℕ → Bool
  pub refreshed : ℕ → ℕ → Option StaticSource
  pub read_file : ℕ → Read
  pub download : ℕ → Read
  pub is_zip : Text → Bool
  pub digest : Text → ℕ
  pub run_otp : ℕ → Ran
  pub writes_graph : ℕ → Option Text
  pub ticked : ℕ → Bool
  pub stop : ℕ → Answer
  pub start : ℕ → Answer
  pub sees_server : ℕ → Bool
  pub is_healthy : ℕ → Bool
  pub served_feeds : ℕ → Option (List ℕ)
  pub street_key : List Text → Text → Text → ℕ
  pub prepares_osm : ℕ → Bool
  pub polled : ℕ → ℕ → List ℕ
  pub skipped : ℕ → ℕ → List Skipped
  pub rental : ℕ → List RentalResult
  pub config : ℕ → Text

-- The exceptions: `BuildFailed`, `DockerUnavailable`, `FeedUnavailable`, and any other.
pub data Failure : Type 0 where
  build_failed_with : ErrorCode → Text → Failure
  docker_unavailable_with : Text → Failure
  feed_unavailable other : Failure

pub data Result (A : Type 0) : Type 0 where
  ok : A → Result A
  err : Failure → Result A

-- What was written stays written after an exception.
abbrev pub Action : Type 0 → Type 0
Action A = PlannerState → Result A × PlannerState

module _ {A : Type 0} where
  abbrev pub pure : A → Action A
  pure a w = (ok a, w)

  abbrev pub raise : Failure → Action A
  raise e w = (err e, w)

  abbrev pub gets : (PlannerState → A) → Action A
  gets f w = (ok (f w), w)

  abbrev pub given :
      {B : Type 0} → (A → Action B) → Result A × PlannerState → Result B × PlannerState
  given f (ok a, w) = f a w
  given f (err e, w) = (err e, w)

  -- `try: … except …`
  abbrev pub recovered : (Failure → Action A) → Result A × PlannerState → Result A × PlannerState
  recovered f (ok a, w) = (ok a, w)
  recovered f (err e, w) = f e w

  abbrev pub catch : Action A → (Failure → Action A) → Action A
  catch m f w = recovered f (m w)

infixl 5 ◌>>=◌ ◌>>◌
abbrev pub ◌>>=◌ : {A B : Type 0} → Action A → (A → Action B) → Action B
◌>>=◌ m f w = given f (m w)

abbrev pub ◌>>◌ : {A B : Type 0} → Action A → Action B → Action B
m >> k = m >>= λ _. k

abbrev pub modify : (PlannerState → PlannerState) → Action (Unit {0})
modify f w = (ok tt, f w)

abbrev pub raise_if : Bool → Failure → Action (Unit {0})
raise_if true e = raise e
raise_if false e = pure tt

abbrev pub act_if : Bool → Action (Unit {0}) → Action (Unit {0})
act_if true m = m
act_if false m = pure tt

module _ (o : Outside) where
  -- A call to the outside, which takes its time.
  abbrev pub ask : {A : Type 0} → (ℕ → A) → Action A
  ask f w = (ok (f w.tick), record w { tick = suc w.tick; now = w.now + o.delay w.tick })

  -- A file operation, which may raise `OSError` before its effect.
  abbrev pub file_op : (PlannerState → PlannerState) → Action (Unit {0})
  file_op f = do failed ← ask o.file_error; raise_if failed other; modify f

  abbrev pub write_file : FilePath → Option Text → Action (Unit {0})
  write_file p content = file_op (λ w. record w { disk = write p content w.disk })

  -- A change of the tables at the present time.
  abbrev pub database : (ℕ → Jobs → Jobs) → Action (Unit {0})
  database f = modify (λ w. record w { jobs = f w.now w.jobs })

abbrev pub is_present : Option Text → Bool
is_present none = false
is_present (some _) = true

-- `os.path.exists`
abbrev pub exists : FilePath → Action Bool
exists p = gets (λ w. is_present (w.disk p))
