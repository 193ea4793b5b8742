-- ===== src/Dispatch/Examples.antt =====
-- Ticks around three in the morning, and the theorems at them.
use otwarte_dane_transportow.Common.{
  ◌+◌, ◌≡◌, refl, true, false, none, some, [], ◌∷◌, ◌++◌, inl, arith,
}
use otwarte_dane_transportow.Fetch.{new_control, minutes}
use otwarte_dane_transportow.History.{new_table}
use otwarte_dane_transportow.Content.Checks.{gtfs}
use otwarte_dane_transportow.Review.Submissions.{Entry, StaticSubmission, fetch_static_entry}
use otwarte_dane_transportow.Dispatch.Window.{refresh_static_feeds}
use otwarte_dane_transportow.Dispatch.Ticks.{instant}
use otwarte_dane_transportow.Dispatch.Queued.{
  IsScheduled, refresh_static_feeds-queues, refresh_static_feeds-skips_seconds,
  refresh_static_feeds-queues_again,
}

-- At 03:00:00.
abbrev entry : Entry
entry = record {
  pk = 5;
  url = b'u' ∷ [];
  file = none;
  is_original = false;
  hide_original = true;
  auth_type = [];
  auth_value = none;
  license = [];
  download_time_1 = some 10800;
  download_time_2 = none;
  cached_file = none;
  cached_at = none;
  fetch = new_control;
  validation_queued = false;
}

abbrev submission_of : Entry → StaticSubmission
submission_of e = record {
  id = 1;
  submitted_by_id = some 7;
  transport_organization = 1;
  data_type = gtfs;
  name = [];
  note = [];
  table = new_table;
  entry = some e;
}

entry-IsScheduled : IsScheduled (1 ∷ []) (submission_of entry) entry
entry-IsScheduled = record {
  its_entry = refl;
  hidden = refl;
  published = refl;
  has_url = refl;
  is_active = refl;
}

refresh_static_feeds-queues_example :
    refresh_static_feeds (instant 1 180 + minutes 7) (1 ∷ []) ([] ++ submission_of entry ∷ [])
    ≡ refresh_static_feeds (instant 1 180 + minutes 7) (1 ∷ []) []
      ++ fetch_static_entry 5 ∷ refresh_static_feeds (instant 1 180 + minutes 7) (1 ∷ []) []
refresh_static_feeds-queues_example =
    refresh_static_feeds-queues (1 ∷ []) [] [] (submission_of entry) entry 1 180 (minutes 7)
      entry-IsScheduled (inl refl) (omega arith) (omega arith) refl

-- At 03:00:30.
abbrev half_past : Entry
half_past = record entry { download_time_1 = some 10830 }

half_past-IsScheduled : IsScheduled (1 ∷ []) (submission_of half_past) half_past
half_past-IsScheduled = record {
  its_entry = refl;
  hidden = refl;
  published = refl;
  has_url = refl;
  is_active = refl;
}

refresh_static_feeds-skips_seconds_example :
    refresh_static_feeds (instant 1 180) (1 ∷ []) ([] ++ submission_of half_past ∷ [])
    ≡ refresh_static_feeds (instant 1 180) (1 ∷ []) []
      ++ refresh_static_feeds (instant 1 180) (1 ∷ []) []
refresh_static_feeds-skips_seconds_example =
    refresh_static_feeds-skips_seconds (1 ∷ []) [] [] (submission_of half_past) half_past
      (instant 1 180) half_past-IsScheduled (omega arith) tt

-- Fetched two seconds after three.
abbrev fetched_once : Entry
fetched_once = record entry {
  fetch = record new_control { last_fetch_success_at = some (instant 1 180 + 2000000) };
}

fetched_once-IsScheduled : IsScheduled (1 ∷ []) (submission_of fetched_once) fetched_once
fetched_once-IsScheduled = record {
  its_entry = refl;
  hidden = refl;
  published = refl;
  has_url = refl;
  is_active = refl;
}

refresh_static_feeds-queues_again_example :
    refresh_static_feeds
      (instant 1 180 + (minutes 10 + 5000000))
      (1 ∷ [])
      ([] ++ submission_of fetched_once ∷ [])
    ≡ refresh_static_feeds (instant 1 180 + (minutes 10 + 5000000)) (1 ∷ []) []
      ++ fetch_static_entry 5
        ∷ refresh_static_feeds (instant 1 180 + (minutes 10 + 5000000)) (1 ∷ []) []
refresh_static_feeds-queues_again_example =
    refresh_static_feeds-queues_again (1 ∷ []) [] [] (submission_of fetched_once) fetched_once 1 180
      2000000 5000000 fetched_once-IsScheduled (inl refl) (omega arith) refl (omega arith)
      (omega arith)
