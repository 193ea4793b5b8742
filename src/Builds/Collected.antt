-- ===== src/Builds/Collected.antt =====
-- Collecting the feeds of a build, testing them and building its graph leave the previous graph as
-- it is.
use otwarte_dane_transportow.Common.{
  ℕ, ◌+◌, refl, Bool, Option, none, some, List, [], ◌∷◌, map, Text,
}
use otwarte_dane_transportow.Builds.Rows.{ErrorCode}
use otwarte_dane_transportow.Builds.World.{
  StaticSource, PlannerFeed, Serving, Server, feed_copy, write, PlannerState, Read, whole, broken,
  Outside, Failure, feed_unavailable, other, Action, modify, write_file, build_failed_with,
  docker_unavailable_with,
}
use otwarte_dane_transportow.Builds.Candidates.{
  Candidate, exclude_feed, fall_back, CopyAttempt, copied, failed, no_source, store_copy,
  copy_attempt, second_result, second_attempt, first_result, fetch_from, fetch_feed,
  copied_candidate, on_unavailable, candidate_of, collect_one, collect_each, collect_candidates,
  save_results, result, fetched_candidate,
}
use otwarte_dane_transportow.Builds.Frame.{
  Keeps, pure-Keeps, raise-Keeps, gets-Keeps, bind-Keeps, catch-Keeps, raise_if-Keeps, act_if-Keeps,
  modify-Keeps, if-Keeps,
}
use otwarte_dane_transportow.Builds.Safe.{
  IsSafe, later-IsSafe, disk-IsSafe, asked, filed, beat, resulted,
}

ruleset steps = (
  pure-Keeps, raise-Keeps, gets-Keeps, bind-Keeps, catch-Keeps, raise_if-Keeps, act_if-Keeps,
  if-Keeps,
)

module _ (before : PlannerState) (serving : Serving) (server : Server) (stopped : Bool)
    (o : Outside) where
  abbrev Safe : {A : Type 0} → Action A → Type 0
  Safe m = Keeps (IsSafe before serving server stopped) m

  stored :
      (k : ℕ) (content : Option Text)
      → Safe (modify (λ w. record w { disk = write (feed_copy k) content w.disk }))
  stored k content =
      modify-Keeps _ (λ w v. disk-IsSafe before serving server stopped _ w (λ j. refl) v)

  written : (k : ℕ) (content : Option Text) → Safe (write_file o (feed_copy k) content)
  written k content =
      filed before serving server stopped o (write (feed_copy k) content) (λ disk j. refl)

  pub exclude_feed-Keeps :
      (feed : PlannerFeed) (k : ℕ) (code : ErrorCode) (log : Text)
      → Safe (exclude_feed o feed (feed_copy k) code log)
  unfolding exclude_feed
  exclude_feed-Keeps feed k code log = search (steps, written)

  pub fall_back-Keeps :
      (feed : PlannerFeed) (k : ℕ) (code : ErrorCode) (log : Text)
      → Safe (fall_back o feed (feed_copy k) code log)
  unfolding fall_back
  fall_back-Keeps feed k code log = search (steps, written, exclude_feed-Keeps)

  store_copy-Keeps :
      (k : ℕ) (version : Option ℕ) (r : Read) → Safe (store_copy o (feed_copy k) version r)
  store_copy-Keeps k version (broken none) = search (steps)
  store_copy-Keeps k version (broken (some part)) = search (steps, stored)
  store_copy-Keeps k version (whole body) = search (steps, stored)

  copy_attempt-Keeps : (k : ℕ) (source : StaticSource) → Safe (copy_attempt o (feed_copy k) source)
  unfolding copy_attempt
  copy_attempt-Keeps k source =
      search (steps, store_copy-Keeps, asked before serving server stopped o)

  second_result-Keeps : (a : CopyAttempt) → Safe (second_result o a)
  second_result-Keeps (copied version) = search (steps)
  second_result-Keeps failed = search (steps)
  second_result-Keeps no_source = search (steps)

  second_attempt-Keeps :
      (k : ℕ) (source : Option StaticSource) → Safe (second_attempt o (feed_copy k) source)
  second_attempt-Keeps k none = search (steps)
  second_attempt-Keeps k (some source) = search (steps, copy_attempt-Keeps, second_result-Keeps)

  slept : (seconds : ℕ) → Safe (modify (λ w. record w { now = w.now + seconds }))
  slept seconds =
      modify-Keeps _
        (λ w v. later-IsSafe before serving server stopped w.tick (w.now + seconds) w v)

  first_result-Keeps :
      (feed : PlannerFeed) (k : ℕ) (a : CopyAttempt) → Safe (first_result o feed (feed_copy k) a)
  first_result-Keeps feed k (copied version) = search (steps)
  first_result-Keeps feed k no_source = search (steps)
  first_result-Keeps feed k failed =
      search (steps, second_attempt-Keeps, slept, asked before serving server stopped o)

  fetch_feed-Keeps : (feed : PlannerFeed) (k : ℕ) → Safe (fetch_feed o feed (feed_copy k))
  unfolding fetch_feed
  fetch_feed-Keeps feed k = from feed.entry
    where
      from : (source : Option StaticSource) → Safe (fetch_from o feed (feed_copy k) source)
      from none = search (steps)
      from (some source) = search (steps, copy_attempt-Keeps, first_result-Keeps)

  on_unavailable-Keeps : (e : Failure) → Safe (on_unavailable o e)
  on_unavailable-Keeps feed_unavailable = search (steps)
  on_unavailable-Keeps (build_failed_with code log) = search (steps)
  on_unavailable-Keeps (docker_unavailable_with log) = search (steps)
  on_unavailable-Keeps other = search (steps)

  copied_candidate-Keeps :
      (feed : PlannerFeed) (k : ℕ) (version : Option ℕ) (body : Option Text)
      → Safe (copied_candidate o feed (feed_copy k) version body)
  copied_candidate-Keeps feed k (some version) (some body) = search (steps)
  copied_candidate-Keeps feed k (some version) none = search (steps)
  copied_candidate-Keeps feed k none body = search (steps)

  candidate_of-Keeps :
      (feed : PlannerFeed) (k : ℕ) (found : Option (Option ℕ))
      → Safe (candidate_of o feed (feed_copy k) found)
  candidate_of-Keeps feed k none = search (steps, fall_back-Keeps)
  candidate_of-Keeps feed k (some version) = search (steps, copied_candidate-Keeps)

  fetched_candidate-Keeps : (feed : PlannerFeed) → Safe (fetched_candidate o feed)
  fetched_candidate-Keeps feed =
      search (steps, fetch_feed-Keeps, on_unavailable-Keeps, candidate_of-Keeps)

  collect_one-Keeps : (id : ℕ) (feed : PlannerFeed) → Safe (collect_one o id feed)
  unfolding collect_one
  collect_one-Keeps id feed =
      search (steps, beat before serving server stopped o, fetched_candidate-Keeps)

  collect_each-Keeps : (id : ℕ) (feeds : List PlannerFeed) → Safe (collect_each o id feeds)
  unfolding collect_each
  collect_each-Keeps id [] = search (steps)
  collect_each-Keeps id (feed ∷ feeds) =
      bind-Keeps (collect_one-Keeps id feed)
        (λ c. bind-Keeps (collect_each-Keeps id feeds) (λ cs. pure-Keeps (c ∷ cs)))

  pub collect_candidates-Keeps : (id : ℕ) → Safe (collect_candidates o id)
  unfolding collect_candidates
  collect_candidates-Keeps id = search (steps, collect_each-Keeps)

  pub save_results-Keeps : (id : ℕ) (cs : List Candidate) → Safe (save_results o id cs)
  unfolding save_results
  save_results-Keeps id cs = resulted before serving server stopped o id (map result cs)
