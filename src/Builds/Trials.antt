-- ===== src/Builds/Trials.antt =====
-- The runs of OTP in a container: `_test_changed_feeds`, `_ensure_street_graph` and `_build_graph` of
-- planner/pipeline.py.
use otwarte_dane_transportow.Common.{
  ℕ, ◌+◌, Bool, true, false, not, ◌&&◌, ◌||◌, Option, none, some, List, [], ◌∷◌, if◌then◌else◌,
  ◌==◌, leb, Text, text_eq,
}
use otwarte_dane_transportow.Builds.Rows.{
  FeedOutcome, fresh, stale, excluded, ErrorCode, feed_no_service_in_period, feed_invalid,
  build_out_of_memory, GraphBuild,
}
use otwarte_dane_transportow.Builds.Queue.{heartbeat}
use otwarte_dane_transportow.Builds.Watch.{active_build}
use otwarte_dane_transportow.Builds.World.{
  feed_copy, RunResult, Ran, ran, docker_gone, crashed, Outside, docker_unavailable_with, other,
  Action, pure, raise, gets, ◌>>=◌, ◌>>◌, act_if, ask, file_op, database,
}
use otwarte_dane_transportow.Builds.Candidates.{Candidate, fall_back, exclude_feed}

abbrev pub exit_data_error : ℕ
exit_data_error = 100

abbrev pub exit_out_of_memory : ℕ
exit_out_of_memory = 3

-- `log.lower()`, as far as the letters that are looked for are concerned.
abbrev lowered : Text → Text
lowered [] = []
lowered (c ∷ cs) = (if leb b'A' c && leb c b'Z' then c + 32 else c) ∷ lowered cs

abbrev begins_with : Text → Text → Bool
begins_with [] t = true
begins_with (a ∷ s) [] = false
begins_with (a ∷ s) (b ∷ t) = (a == b) && begins_with s t

-- `part in text`
abbrev has_part : Text → Text → Bool
has_part part [] = begins_with part []
has_part part (c ∷ cs) = begins_with part (c ∷ cs) || has_part part cs

abbrev no_trips : Text
no_trips = b'n' ∷ b'o' ∷ b' ' ∷ b't' ∷ b'r' ∷ b'i' ∷ b'p' ∷ b's' ∷ []

unfoldable pub trial_error_code : RunResult → ErrorCode
trial_error_code r =
    if (r.exit_code == exit_data_error) && has_part no_trips (lowered r.log_tail)
    then feed_no_service_in_period
    else feed_invalid

-- `_build_error_code`
unfoldable pub build_error_code : RunResult → ErrorCode → ErrorCode
build_error_code r default =
    if r.oom || (r.exit_code == exit_out_of_memory) then build_out_of_memory else default

abbrev pub image_changed : Text → Option GraphBuild → Bool
image_changed image none = true
image_changed image (some b) = not (text_eq b.otp_image image)

abbrev pub same_digest : Option ℕ → Option ℕ → Bool
same_digest none none = true
same_digest (some a) (some b) = a == b
same_digest _ _ = false

module _ (o : Outside) where
  abbrev pub run_ended : Ran → Action RunResult
  run_ended (ran r) = pure r
  run_ended (docker_gone log) = raise (docker_unavailable_with log)
  run_ended crashed = raise other

  -- `run_otp`, with a heartbeat if it takes long.
  unfoldable pub run_container : ℕ → Action RunResult
  run_container id = do
    r ← ask o o.run_otp
    long ← ask o o.ticked
    act_if long (database o (heartbeat id))
    run_ended r

  abbrev pub on_invalid : Candidate → RunResult → Action Candidate
  on_invalid c r = elim c.outcome [
    | stale ↦ exclude_feed o c.feed (feed_copy c.feed.feed_id) (trial_error_code r) r.log_tail
    | fresh ↦ fall_back o c.feed (feed_copy c.feed.feed_id) (trial_error_code r) r.log_tail
    | excluded ↦ fall_back o c.feed (feed_copy c.feed.feed_id) (trial_error_code r) r.log_tail
  ]

  abbrev pub trial : ℕ → Candidate → Action Candidate
  trial id c = do
    file_op o (λ w. w)
    r ← run_container id
    database o (heartbeat id)
    if r.exit_code == 0 then pure c else on_invalid c r

  abbrev pub is_excluded : FeedOutcome → Bool
  is_excluded excluded = true
  is_excluded fresh = false
  is_excluded stale = false

  -- The body of the loop of `_test_changed_feeds`.
  unfoldable pub test_one : ℕ → Bool → Candidate → Action Candidate
  test_one id changed c =
      if is_excluded c.outcome || (not changed && same_digest c.sha256 c.feed.last_good_sha256)
      then pure c
      else trial id c

  unfoldable pub test_each : ℕ → Bool → List Candidate → Action (List Candidate)
  test_each id changed [] = pure []
  test_each id changed (c ∷ cs) = do
    d ← test_one id changed c
    ds ← test_each id changed cs
    pure (d ∷ ds)

  -- `_test_changed_feeds`
  unfoldable pub test_changed_feeds : GraphBuild → List Candidate → Action (List Candidate)
  test_changed_feeds build candidates = do
    previous ← gets (λ w. active_build w.jobs.builds)
    test_each build.id (image_changed build.otp_image previous) candidates
