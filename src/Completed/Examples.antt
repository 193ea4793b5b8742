-- ===== src/Completed/Examples.antt =====
-- A publication that a reader overtakes, and the theorems at it.
use otwarte_dane_transportow.Common.{ℕ, ◌+◌, ◌<◌, ◌≡◌, refl, none, some, List, [], ◌∷◌}
use otwarte_dane_transportow.History.{new_table, completed, create, ordered, first, stage_of}
use otwarte_dane_transportow.Completed.Cache.{
  Site, Submitted, Step, invalidate, Reach, next, cache_get, completed_ids_cache_ttl,
  compute_completed_submission_ids,
}
use otwarte_dane_transportow.Completed.Fresh.{
  WasPublished, overtaken, cache_get-recent, cache_get-overtaken,
}

abbrev draft : List Submitted
draft = record { id = 7; table = new_table } ∷ []

abbrev released : List Submitted
released =
    record {
      id = 7;
      table =
          create
            (record {
              event_type = completed;
              stage_before = 3;
              stage_after = 4;
              actor = none;
              cause = [];
              reasons = none;
            })
            5 new_table;
    }
    ∷ []

listed : compute_completed_submission_ids released ≡ 7 ∷ []
unfolding compute_completed_submission_ids create ordered first stage_of
listed = refl

abbrev empty : Site
empty = record { rows = draft; cache = none; reading = []; now = 100 }

cache_get-overtaken_example :
    (t : Site) × Reach 5 empty t
    × (t.rows ≡ released)
    × Step 5 (record t { cache = none }) (overtaken draft released 100)
    × (cache_get 100 (overtaken draft released 100).cache
        ≡ some (compute_completed_submission_ids draft))
cache_get-overtaken_example = cache_get-overtaken 5 draft released 100

way : Reach 5 empty (overtaken draft released 100)
way =
    let (t, reach, _, late, _) = cache_get-overtaken 5 draft released 100 in
    next (overtaken draft released 100) (next (record t { cache = none }) reach (invalidate t)) late

served_list :
    cache_get 100 (overtaken draft released 100).cache
    ≡ some (compute_completed_submission_ids draft)
served_list = let (_, _, _, _, e) = cache_get-overtaken 5 draft released 100 in e

cache_get-recent_example :
    (t : ℕ) × WasPublished way (compute_completed_submission_ids draft) t
    × (100 < t + 5 + completed_ids_cache_ttl)
cache_get-recent_example =
    cache_get-recent 5 empty (overtaken draft released 100) way
      (compute_completed_submission_ids draft) refl refl served_list
