-- ===== src/Builds/Included.antt =====
-- Which feeds go into a graph, and with which files.
use otwarte_dane_transportow.Common.{
  ℕ, ◌≡◌, refl, Bool, true, false, not, ◌&&◌, Option, none, some, List, [], ◌∷◌, if◌then◌else◌,
  Text, where_, any, ◌==◌,
}
use mathlib.Core.Path.{subst}
use otwarte_dane_transportow.Builds.Queue.{heartbeat}
use otwarte_dane_transportow.Builds.Rows.{
  FeedOutcome, fresh, stale, excluded, ErrorCode, GraphBuild, excerpt, feed_source_unavailable,
  feed_not_published, no_feeds,
}
use otwarte_dane_transportow.Builds.World.{
  Policy, keep_last_good, exclude, PlannerFeed, FilePath, snapshot, feed_copy, PlannerState,
  RunResult, Outside, other, Action, pure, gets, given, catch, ◌>>=◌, ◌>>◌, act_if, write_file,
  file_op, database, is_present, exists, modify, raise_if, build_failed_with,
}
use otwarte_dane_transportow.Builds.Candidates.{
  Candidate, exclude_feed, fall_back, copied_candidate, candidate_of, collect_one, save_results,
  has_path, collect_each, collect_candidates, keeps_last_good, has_digest, stale_candidate,
  excluded_candidate, fresh_candidate, fetch_feed, on_unavailable,
}
use otwarte_dane_transportow.Builds.Trials.{
  run_container, on_invalid, test_one, test_each, test_changed_feeds, image_changed,
}
use otwarte_dane_transportow.Builds.Watch.{active_build}
use otwarte_dane_transportow.Builds.Works.{pass}
use otwarte_dane_transportow.Builds.Serving.{stop_serving}
use otwarte_dane_transportow.Builds.Pipeline.{prepare_feeds}
use otwarte_dane_transportow.Builds.Gives.{
  Gives, Holds, pure-Gives, raise-Gives, if-Gives, then-Gives, bind-Gives, given_with,
}

-- A new version is the copy of the feed. A last good version is there by the feed's policy, with the
-- digest of the feed's row, and with the reason. A feed without a file has a reason.
abbrev pub IsSoundAs : FeedOutcome → Candidate → Type 0
IsSoundAs fresh c = (c.path ≡ some (feed_copy c.feed.feed_id)) × (c.error_code ≡ none)
IsSoundAs stale c =
    (c.path ≡ some (feed_copy c.feed.feed_id))
    × (c.feed.failure_policy ≡ keep_last_good)
    × (c.sha256 ≡ c.feed.last_good_sha256)
    × (has_digest c.feed.last_good_sha256 ≡ true)
    × ((code : ErrorCode) × (c.error_code ≡ some code))
IsSoundAs excluded c = (c.path ≡ none) × ((code : ErrorCode) × (c.error_code ≡ some code))

-- The candidate of a feed.
pub record IsSound (feed : PlannerFeed) (c : Candidate) : Type 0 where
  pub same : c.feed ≡ feed
  pub as_outcome : IsSoundAs c.outcome c

module _ (o : Outside) where
  exclude_feed-Gives :
      (feed : PlannerFeed) (path : FilePath) (code : ErrorCode) (log : Text)
      → Gives (IsSound feed) (exclude_feed o feed path code log)
  unfolding exclude_feed
  exclude_feed-Gives feed path code log = then-Gives (exists path) _ (λ there.
      then-Gives (act_if there (write_file o path none)) _ (λ _.
        pure-Gives (excluded_candidate feed code log)
          (record { same = refl; as_outcome = (refl, (code, refl)) })))

  last_good :
      (policy : Policy) (digest : Option ℕ) (kept : Option Text)
      → (keeps_last_good policy && has_digest digest && is_present kept) ≡ true
      → (policy ≡ keep_last_good) × (has_digest digest ≡ true)
  last_good keep_last_good (some d) kept h = (refl, refl)
  last_good keep_last_good none kept h = cc
  last_good exclude digest kept h = cc

  fall_back-Gives :
      (feed : PlannerFeed) (code : ErrorCode) (log : Text)
      → Gives (IsSound feed) (fall_back o feed (feed_copy feed.feed_id) code log)
  unfolding fall_back
  fall_back-Gives feed code log = then-Gives (gets (λ w. w.disk (snapshot feed.feed_id))) _ (λ kept.
      choose kept
        (keeps_last_good feed.failure_policy && has_digest feed.last_good_sha256 && is_present kept)
        refl)
    where
      choose :
          (kept : Option Text) (b : Bool)
          → (keeps_last_good feed.failure_policy
              && has_digest feed.last_good_sha256
              && is_present kept)
            ≡ b
          → Gives (IsSound feed) (
              if b
              then write_file o (feed_copy feed.feed_id) kept
                >> pure (stale_candidate feed (feed_copy feed.feed_id) code (excerpt log))
              else exclude_feed o feed (feed_copy feed.feed_id) code (excerpt log))
      choose kept true h =
          let (policy, digest) = last_good feed.failure_policy feed.last_good_sha256 kept h in
          then-Gives (write_file o (feed_copy feed.feed_id) kept) _ (λ _.
            pure-Gives (stale_candidate feed (feed_copy feed.feed_id) code (excerpt log))
              (record { same = refl; as_outcome = (refl, policy, refl, digest, (code, refl)) }))
      choose kept false h = exclude_feed-Gives feed (feed_copy feed.feed_id) code (excerpt log)

  copied_candidate-Gives :
      (feed : PlannerFeed) (version : Option ℕ) (body : Option Text)
      → Gives (IsSound feed) (copied_candidate o feed (feed_copy feed.feed_id) version body)
  copied_candidate-Gives feed (some version) (some body) =
      pure-Gives (fresh_candidate feed (feed_copy feed.feed_id) (o.digest body) version)
        (record { same = refl; as_outcome = (refl, refl) })
  copied_candidate-Gives feed (some version) none = raise-Gives other
  copied_candidate-Gives feed none body = raise-Gives other

  candidate_of-Gives :
      (feed : PlannerFeed) (found : Option (Option ℕ))
      → Gives (IsSound feed) (candidate_of o feed (feed_copy feed.feed_id) found)
  candidate_of-Gives feed none = fall_back-Gives feed feed_source_unavailable []
  candidate_of-Gives feed (some version) =
      then-Gives (gets (λ w. w.disk (feed_copy feed.feed_id))) _
        (copied_candidate-Gives feed version)

  collect_one-Gives : (id : ℕ) (feed : PlannerFeed) → Gives (IsSound feed) (collect_one o id feed)
  unfolding collect_one
  collect_one-Gives id feed = then-Gives (database o (heartbeat id)) _ (λ _.
      if-Gives (o.published feed.submission)
        (then-Gives
          (catch (fetch_feed o feed (feed_copy feed.feed_id) >>= λ v. pure (some v))
            (on_unavailable o))
          _ (candidate_of-Gives feed))
        (pure-Gives (excluded_candidate feed feed_not_published [])
          (record { same = refl; as_outcome = (refl, (feed_not_published, refl)) })))

  -- One candidate for each feed, in the order of the feeds.
  abbrev pub AreSound : List PlannerFeed → List Candidate → Type 0
  AreSound [] [] = Unit {0}
  AreSound [] (c ∷ cs) = ⊥
  AreSound (f ∷ fs) [] = ⊥
  AreSound (f ∷ fs) (c ∷ cs) = IsSound f c × AreSound fs cs

  collect_each-Gives :
      (id : ℕ) (feeds : List PlannerFeed) → Gives (AreSound feeds) (collect_each o id feeds)
  unfolding collect_each
  collect_each-Gives id [] = pure-Gives [] tt
  collect_each-Gives id (feed ∷ feeds) = bind-Gives _ (collect_one-Gives id feed) (λ c sound.
      bind-Gives _ (collect_each-Gives id feeds) (λ cs all. pure-Gives (c ∷ cs) (sound, all)))

  on_invalid-Gives :
      (feed : PlannerFeed) (c : Candidate) (r : RunResult)
      → c.feed ≡ feed
      → Gives (IsSound feed) (on_invalid o c r)
  on_invalid-Gives feed c r same =
      subst (λ (f : PlannerFeed). Gives (IsSound f) (on_invalid o c r)) same (by_outcome c.outcome)
    where
      by_outcome :
          (outcome : FeedOutcome)
          → Gives (IsSound c.feed) (on_invalid o (record c { outcome = outcome }) r)
      by_outcome stale = exclude_feed-Gives c.feed _ _ _
      by_outcome fresh = fall_back-Gives c.feed _ _
      by_outcome excluded = fall_back-Gives c.feed _ _

  test_one-Gives :
      (id : ℕ) (changed : Bool) (feed : PlannerFeed) (c : Candidate)
      → IsSound feed c
      → Gives (IsSound feed) (test_one o id changed c)
  unfolding test_one
  test_one-Gives id changed feed c sound = if-Gives _ (pure-Gives c sound) (
      then-Gives (file_op o (λ w. w)) _ (λ _. then-Gives (run_container o id) _ (λ r.
        then-Gives (database o (heartbeat id)) _ (λ _.
          if-Gives (r.exit_code == 0) (pure-Gives c sound)
            (on_invalid-Gives feed c r sound.same)))))

  test_each-Gives :
      (id : ℕ) (changed : Bool) (feeds : List PlannerFeed) (cs : List Candidate)
      → AreSound feeds cs
      → Gives (AreSound feeds) (test_each o id changed cs)
  unfolding test_each
  test_each-Gives id changed [] [] h = pure-Gives [] tt
  test_each-Gives id changed [] (c ∷ cs) h = absurd h
  test_each-Gives id changed (f ∷ fs) [] h = absurd h
  test_each-Gives id changed (f ∷ fs) (c ∷ cs) (sound, all) =
      bind-Gives _ (test_one-Gives id changed f c sound) (λ d s.
        bind-Gives _ (test_each-Gives id changed fs cs all) (λ ds a. pure-Gives (d ∷ ds) (s, a)))

-- The feeds of the build that are enabled.
abbrev pub enabled : List PlannerFeed → List PlannerFeed
enabled feeds = where_ (λ (f : PlannerFeed). f.is_enabled) feeds

-- The part of `_build_and_activate` up to the tests of the feeds.
abbrev pub choose_feeds : Outside → GraphBuild → Action (List Candidate)
choose_feeds o build = do
  collected ← prepare_feeds o build
  stop_serving o build.id
  test_changed_feeds o build collected

checked_sound :
    (o : Outside) (build : GraphBuild) (feeds : List PlannerFeed)
    → Gives (AreSound o feeds) (
        collect_each o build.id feeds >>= λ cs.
        save_results o build.id cs
        >> (raise_if (not (any has_path cs)) (build_failed_with no_feeds []) >> pure cs))
checked_sound o build feeds = bind-Gives _ (collect_each-Gives o build.id feeds) (λ cs all.
    then-Gives (save_results o build.id cs) _ (λ _.
      then-Gives (raise_if (not (any has_path cs)) (build_failed_with no_feeds [])) _
        (λ _. pure-Gives cs all)))

prepare_outcome :
    (o : Outside) (build : GraphBuild) (w : PlannerState)
    → Holds (AreSound o (enabled w.feeds)) (prepare_feeds o build w)
unfolding prepare_feeds collect_candidates
prepare_outcome o build w = from (o.file_error w.tick)
  where
    from :
        (failed : Bool)
        → Holds (AreSound o (enabled w.feeds)) (
            given
              (λ _. collect_candidates o build.id >>= λ cs.
                save_results o build.id cs
                >> (raise_if (not (any has_path cs)) (build_failed_with no_feeds []) >> pure cs))
              (given (λ _. modify (λ w. w)) (raise_if failed other (pass o w))))
    from true = tt
    from false = (checked_sound o build (enabled w.feeds)).apply (pass o w)

-- When the feeds of a build have been collected and tested, each enabled feed has one candidate, in
-- order: with the copy of its current version and no error, or with its last good version, if its
-- policy keeps one and it has one, or without a file; in the last two cases with the reason.
pub choose_feeds-AreSound :
    (o : Outside) (build : GraphBuild) (w : PlannerState)
    → Holds (AreSound o (enabled w.feeds)) (choose_feeds o build w)
unfolding test_changed_feeds
choose_feeds-AreSound o build w =
    given_with _ (prepare_feeds o build w) (prepare_outcome o build w) (λ cs all.
      then-Gives (stop_serving o build.id) _ (λ _.
        then-Gives (gets (λ w. active_build w.jobs.builds)) _ (λ previous.
          test_each-Gives o build.id (image_changed build.otp_image previous) (enabled w.feeds) cs
            all)))
