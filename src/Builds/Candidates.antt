-- ===== src/Builds/Candidates.antt =====
-- The feeds of a build: `_collect_candidates`, `_fetch_feed`, `_fall_back` and `_excluded` of
-- planner/pipeline.py.
use otwarte_dane_transportow.Common.{
  ℕ, ◌+◌, Bool, true, false, ◌&&◌, Option, none, some, List, [], ◌∷◌, if◌then◌else◌, where_, map,
  Text,
}
use otwarte_dane_transportow.Builds.Rows.{
  FeedOutcome, fresh, stale, excluded, ErrorCode, feed_not_published, feed_source_unavailable,
  Skipped, FeedResult, excerpt,
}
use otwarte_dane_transportow.Builds.Queue.{heartbeat, record_results}
use otwarte_dane_transportow.Builds.World.{
  Policy, keep_last_good, exclude, StaticSource, PlannerFeed, FilePath, snapshot, feed_copy,
  Outside, feed_unavailable, other, Action, pure, raise, gets, catch, ◌>>=◌, ◌>>◌, modify, act_if,
  ask, write_file, write, database, exists, is_present, Read, whole, broken, Failure,
}

pub record Candidate : Type 0 where
  pub feed : PlannerFeed
  pub outcome : FeedOutcome
  pub path : Option FilePath
  pub sha256 : Option ℕ
  pub version_at : Option ℕ
  pub error_code : Option ErrorCode
  pub log_excerpt : Text
  pub realtime_skipped : List Skipped
  pub realtime_polled : List ℕ

-- `Candidate.result`
abbrev pub result : Candidate → FeedResult
result c = record {
  planner_feed = c.feed.id;
  feed_id = c.feed.feed_id;
  submission = c.feed.submission;
  outcome = c.outcome;
  sha256 = c.sha256;
  version_at = c.version_at;
  error_code = c.error_code;
  log_excerpt = c.log_excerpt;
  realtime_skipped = c.realtime_skipped;
  realtime_polled = c.realtime_polled;
}

abbrev pub has_path : Candidate → Bool
has_path c = elim c.path [ none ↦ false | some _ ↦ true ]

abbrev pub or_else : Option ℕ → Option ℕ → Option ℕ
or_else (some a) b = some a
or_else none b = b

abbrev pub excluded_candidate : PlannerFeed → ErrorCode → Text → Candidate
excluded_candidate feed code log = record {
  feed = feed;
  outcome = excluded;
  path = none;
  sha256 = none;
  version_at = none;
  error_code = some code;
  log_excerpt = excerpt log;
  realtime_skipped = [];
  realtime_polled = [];
}

abbrev pub stale_candidate : PlannerFeed → FilePath → ErrorCode → Text → Candidate
stale_candidate feed path code log = record {
  feed = feed;
  outcome = stale;
  path = some path;
  sha256 = feed.last_good_sha256;
  version_at = feed.last_good_at;
  error_code = some code;
  log_excerpt = log;
  realtime_skipped = [];
  realtime_polled = [];
}

abbrev pub fresh_candidate : PlannerFeed → FilePath → ℕ → ℕ → Candidate
fresh_candidate feed path sha version = record {
  feed = feed;
  outcome = fresh;
  path = some path;
  sha256 = some sha;
  version_at = some version;
  error_code = none;
  log_excerpt = [];
  realtime_skipped = [];
  realtime_polled = [];
}

abbrev pub keeps_last_good : Policy → Bool
keeps_last_good keep_last_good = true
keeps_last_good exclude = false

abbrev pub has_digest : Option ℕ → Bool
has_digest none = false
has_digest (some _) = true

-- What an attempt of `_fetch_feed` gives: the time of the version that it copied, a failure, which
-- is tried again, or no source.
pub data CopyAttempt : Type 0 where
  copied : Option ℕ → CopyAttempt
  failed no_source : CopyAttempt

abbrev pub retry_delay_seconds : ℕ
retry_delay_seconds = 5

module _ (o : Outside) where
  -- `_excluded`
  unfoldable pub exclude_feed : PlannerFeed → FilePath → ErrorCode → Text → Action Candidate
  exclude_feed feed path code log = do
    there ← exists path
    act_if there (write_file o path none)
    pure (excluded_candidate feed code log)

  -- `_fall_back`
  unfoldable pub fall_back : PlannerFeed → FilePath → ErrorCode → Text → Action Candidate
  fall_back feed target code log = do
    kept ← gets (λ w. w.disk (snapshot feed.feed_id))
    if keeps_last_good feed.failure_policy && has_digest feed.last_good_sha256 && is_present kept
        then write_file o target kept >> pure (stale_candidate feed target code (excerpt log))
        else exclude_feed feed target code (excerpt log)

  abbrev pub store_copy : FilePath → Option ℕ → Read → Action CopyAttempt
  store_copy target version (broken none) = pure failed
  store_copy target version (broken (some part)) = do
    modify (λ w. record w { disk = write target (some part) w.disk })
    pure failed
  store_copy target version (whole body) = do
    modify (λ w. record w { disk = write target (some body) w.disk })
    pure (if o.is_zip body then copied version else failed)

  abbrev pub copy : FilePath → StaticSource → Action CopyAttempt
  copy target source = do
    body ← ask o o.read_file
    store_copy target (or_else source.cached_at source.uploaded_at) body

  abbrev pub fetch_copy : FilePath → Action CopyAttempt
  fetch_copy target = do
    body ← ask o o.download
    now ← gets (λ w. w.now)
    store_copy target (some now) body

  -- One round of the loop of `_fetch_feed`.
  unfoldable pub copy_attempt : FilePath → StaticSource → Action CopyAttempt
  copy_attempt target source =
      if source.has_file
      then copy target source
      else if source.has_url
      then fetch_copy target
      else pure no_source

  abbrev pub second_result : CopyAttempt → Action (Option ℕ)
  second_result (copied version) = pure version
  second_result failed = raise feed_unavailable
  second_result no_source = raise feed_unavailable

  -- A missing row raises `DoesNotExist`.
  abbrev pub second_attempt : FilePath → Option StaticSource → Action (Option ℕ)
  second_attempt target none = raise other
  second_attempt target (some source) = do a ← copy_attempt target source; second_result a

  abbrev pub first_result : PlannerFeed → FilePath → CopyAttempt → Action (Option ℕ)
  first_result feed target (copied version) = pure version
  first_result feed target no_source = raise feed_unavailable
  first_result feed target failed = do
    modify (λ w. record w { now = w.now + retry_delay_seconds })
    source ← ask o (λ t. o.refreshed t feed.submission)
    second_attempt target source

  abbrev pub fetch_from : PlannerFeed → FilePath → Option StaticSource → Action (Option ℕ)
  fetch_from feed target none = raise feed_unavailable
  fetch_from feed target (some source) = do
    a ← copy_attempt target source
    first_result feed target a

  -- `_fetch_feed`
  unfoldable pub fetch_feed : PlannerFeed → FilePath → Action (Option ℕ)
  fetch_feed feed target = fetch_from feed target feed.entry

  -- `version_at.isoformat()` and `_sha256` of the copy.
  abbrev pub copied_candidate : PlannerFeed → FilePath → Option ℕ → Option Text → Action Candidate
  copied_candidate feed target (some version) (some body) =
      pure (fresh_candidate feed target (o.digest body) version)
  copied_candidate feed target _ _ = raise other

  abbrev pub on_unavailable : Failure → Action (Option (Option ℕ))
  on_unavailable feed_unavailable = pure none
  on_unavailable e = raise e

  abbrev pub candidate_of : PlannerFeed → FilePath → Option (Option ℕ) → Action Candidate
  candidate_of feed target none = fall_back feed target feed_source_unavailable []
  candidate_of feed target (some version) = do
    body ← gets (λ w. w.disk target)
    copied_candidate feed target version body

  abbrev pub fetched_candidate : PlannerFeed → Action Candidate
  fetched_candidate feed = do
    version ← catch (fetch_feed feed (feed_copy feed.feed_id) >>= λ v. pure (some v)) on_unavailable
    candidate_of feed (feed_copy feed.feed_id) version

  -- The body of the loop of `_collect_candidates`.
  unfoldable pub collect_one : ℕ → PlannerFeed → Action Candidate
  collect_one id feed = do
    database o (heartbeat id)
    if o.published feed.submission
        then fetched_candidate feed
        else pure (excluded_candidate feed feed_not_published [])

  unfoldable pub collect_each : ℕ → List PlannerFeed → Action (List Candidate)
  collect_each id [] = pure []
  collect_each id (feed ∷ feeds) = do
    c ← collect_one id feed
    cs ← collect_each id feeds
    pure (c ∷ cs)

  -- `_collect_candidates`
  unfoldable pub collect_candidates : ℕ → Action (List Candidate)
  collect_candidates id = do
    feeds ← gets (λ w. where_ (λ (f : PlannerFeed). f.is_enabled) w.feeds)
    collect_each id feeds

  -- `_record_results`
  unfoldable pub save_results : ℕ → List Candidate → Action (Unit {0})
  save_results id candidates = database o (record_results id (map result candidates))
